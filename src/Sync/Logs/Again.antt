-- ===== src/Sync/Logs/Again.antt =====
-- The next sync of a directory in which nothing has changed.
use copilot_token_cost.Prelude.{
  ℕ, ◌+◌, ◌≡◌, refl, ap, sym, subst, ◌∙◌, Bool, true, false, not, ◌||◌, Option, none, some, List,
  [], ◌∷◌, ◌++◌, Bytes, length, keep, All, ◌==◌, bytes_eq, eq_iff, if◌then◌else◌, arith, Bool-cases,
  inl, inr,
}
use copilot_token_cost.Prelude.Maps.{Map, lookup, insert, lookup-insert}
use copilot_token_cost.Prelude.Floats.{Float64}
use copilot_token_cost.Storage.{Database, ParsedLog}
use copilot_token_cost.Storage.Parsed.{is_log, mark_log_parsed, mtimes_of, parsed_mtime_by_file}
use copilot_token_cost.Sync.Logs.{
  Job, LogFile, Progress, mtime_of, skips, is_open, database_of, parse_file, sync_files,
}

-- The mtime that a later sync finds for a file: of the last row of the file and the source.
abbrev pub found {ℓ} : {W : Type ℓ} → Bytes → Bytes → Option W → List (ParsedLog W) → Option W
found source file o [] = o
found source file o (p ∷ ps) =
    found source file (if is_log file source p then some p.mtime else o) ps

module _ {ℓ} {W : Type ℓ} where
  lookup-mtimes :
      (source file : Bytes) (ps : List (ParsedLog W)) (m : Map Bytes W)
      → lookup file (mtimes_of (keep (λ p. p.source == source) ps) m)
        ≡ found source file (lookup file m) ps
  unfolding mtimes_of
  lookup-mtimes source file [] m = refl
  lookup-mtimes source file (p ∷ ps) m =
      let rest = lookup-mtimes source file ps (insert p.log_file p.mtime m) in
      elim (Bool-cases (p.source == source)) [
        | inl e ↦ elim (Bool-cases (p.log_file == file)) [
          | inl k ↦ rw (e, rest, lookup-insert, k)
          | inr k ↦ rw (e, rest, lookup-insert, k)
        ]
        | inr e ↦ elim (Bool-cases (p.log_file == file)) [
          | inl k ↦ rw (e, k) (lookup-mtimes source file ps m)
          | inr k ↦ rw (e, k) (lookup-mtimes source file ps m)
        ]
      ]

  found-append :
      (source file : Bytes) (o : Option W) (xs ys : List (ParsedLog W))
      → found source file o (xs ++ ys) ≡ found source file (found source file o xs) ys
  found-append source file o [] ys = refl
  found-append source file o (x ∷ xs) ys =
      found-append source file (if is_log file source x then some x.mtime else o) xs ys

  -- The rows of one file are not asked for another.
  found-others :
      (source file other : Bytes) (o : Option W) (ps : List (ParsedLog W))
      → (file == other) ≡ false
      → found source other o (keep (λ p. not (is_log file source p)) ps) ≡ found source other o ps
  found-others source file other o [] h = refl
  found-others source file other o (p ∷ ps) h = elim (Bool-cases (is_log file source p)) [
    | inl e ↦
        let not_other : is_log other source p ≡ false =
          ground (arith, eq_iff p.log_file file, eq_iff p.log_file other, eq_iff file other) in
        rw (e, not_other) (found-others source file other o ps h)
    | inr e ↦
        rw e
          (found-others source file other (if is_log other source p then some p.mtime else o) ps h)
  ]

  abbrev pub recorded : Bytes → Bytes → Database W → Option W
  recorded source file db = lookup file (parsed_mtime_by_file source db)

  recorded-found :
      (source file : Bytes) (db : Database W)
      → recorded source file db ≡ found source file none db.parsed_logs
  unfolding parsed_mtime_by_file lookup
  recorded-found source file db = lookup-mtimes source file db.parsed_logs []

  -- After a file is marked as parsed, that is its mtime, and the other files have theirs.
  recorded-mark :
      (file : Bytes) (mtime : W) (n : ℕ) (source other : Bytes) (db : Database W)
      → recorded source other (mark_log_parsed file mtime n source db)
        ≡ (if file == other then some mtime else recorded source other db)
  unfolding mark_log_parsed
  recorded-mark file mtime n source other db =
      let row : ParsedLog W = record {
        log_file = file;
        mtime = mtime;
        source = source;
        record_count = n;
      } in
      let mine = (eq_iff source source).1 refl in
      recorded-found source other (mark_log_parsed file mtime n source db)
      ∙ found-append source other none (keep (λ p. not (is_log file source p)) db.parsed_logs)
          (row ∷ [])
      ∙ elim (Bool-cases (file == other)) [
        | inl e ↦ rw (e, mine)
        | inr e ↦ rw (
          e,
          recorded-found source other db,
          found-others source file other none db.parsed_logs e,
        )
      ]

-- The names of the files of a directory differ.
abbrev pub IsOther : Bytes → LogFile → Type 0
IsOther name g = (g.filename == name) ≡ false

abbrev pub HasDistinctNames : List LogFile → Type 0
HasDistinctNames [] = Unit
HasDistinctNames (file ∷ files) = All (IsOther file.filename) files × HasDistinctNames files

IsOther-symm : (a b : Bytes) → (a == b) ≡ false → (b == a) ≡ false
IsOther-symm a b h = ground (arith, eq_iff a b, eq_iff b a)

module _ {ℓ} {W : Type ℓ} ⦃f : Float64 W⦄ (job : Job) (parsed : Map Bytes W) (db : Database W) where
  -- What the database records of a file when the loop is done.
  abbrev pub after : Bytes → Option (Progress W) → Option W
  after name none = none
  after name (some p) = recorded job.source name (database_of db p.tx)

  abbrev finishes : Option (Progress W) → Bool
  finishes none = false
  finishes (some p) = true

  recorded-parse_file :
      (file : LogFile) (name : Bytes) (d : Database W)
      → recorded job.source name (parse_file job file d)
        ≡ (if file.filename == name then some (mtime_of file) else recorded job.source name d)
  unfolding parse_file parsed_mtime_by_file
  recorded-parse_file file name d = recorded-mark file.filename (mtime_of file) _ job.source name _

  abbrev pub parsed_progress : LogFile → Progress W → Progress W
  parsed_progress file p = record {
    tx = some (parse_file job file (database_of db p.tx));
    total_inserted = p.total_inserted + length (job.records_of file);
    parsed_count = p.parsed_count + 1;
  }

  pub step_skip :
      (file : LogFile) (files : List LogFile) (p : Progress W)
      → skips job parsed file ≡ true
      → sync_files job parsed db (file ∷ files) p ≡ sync_files job parsed db files p
  unfolding sync_files
  step_skip file files p e = rw e

  pub step_parse :
      (file : LogFile) (files : List LogFile) (p : Progress W)
      → skips job parsed file ≡ false
      → job.begins ≡ true
      → sync_files job parsed db (file ∷ files) p
        ≡ sync_files job parsed db files (parsed_progress file p)
  unfolding sync_files
  step_parse file files p e b =
      let go : (is_open p.tx || job.begins) ≡ true = ground arith in rw (e, go)

  -- The loop leaves the files alone that it does not meet.
  after-others :
      (files : List LogFile) (p : Progress W) (name : Bytes)
      → job.begins ≡ true
      → All (IsOther name) files
      → after name (sync_files job parsed db files p)
        ≡ recorded job.source name (database_of db p.tx)
  after-others [] p name b h = unfold sync_files in refl
  after-others (file ∷ files) p name b (other, hs) = elim (Bool-cases (skips job parsed file)) [
    | inl e ↦ ap (after name) (step_skip file files p e) ∙ after-others files p name b hs
    | inr e ↦
        ap (after name) (step_parse file files p e b)
        ∙ after-others files (parsed_progress file p) name b hs
        ∙ recorded-parse_file file name (database_of db p.tx)
        ∙ rw other refl
  ]

  -- A file that the loop parsed is recorded with its mtime, and one that it skipped as before the loop.
  abbrev pub IsRecorded : Option (Progress W) → LogFile → Type ℓ
  IsRecorded o file = after file.filename o ≡ (
      if skips job parsed file then recorded job.source file.filename db else some (mtime_of file))

  -- The transaction has met none of the files yet.
  abbrev pub IsUntouched : Progress W → LogFile → Type ℓ
  IsUntouched p g =
      recorded job.source g.filename (database_of db p.tx) ≡ recorded job.source g.filename db

  others_stay :
      (file : LogFile) (p : Progress W) (files : List LogFile)
      → All (IsOther file.filename) files
      → All (IsUntouched p) files
      → All (IsUntouched (parsed_progress file p)) files
  others_stay file p [] h k = tt
  others_stay file p (g ∷ files) (h, hs) (k, ks) = (
    recorded-parse_file file g.filename (database_of db p.tx)
        ∙ rw (IsOther-symm g.filename file.filename h) k,
    others_stay file p files hs ks,
  )

  pub loop_records :
      (files : List LogFile) (p : Progress W)
      → job.begins ≡ true
      → HasDistinctNames files
      → All (IsUntouched p) files
      → All (IsRecorded (sync_files job parsed db files p)) files
  loop_records [] p b h u = tt
  loop_records (file ∷ files) p b (h, hs) (u, us) = elim (Bool-cases (skips job parsed file)) [
    | inl e ↦
        subst (λ o. All (IsRecorded o) (file ∷ files)) (sym (step_skip file files p e))
          (after-others files p file.filename b h ∙ u ∙ rw e refl, loop_records files p b hs us)
    | inr e ↦
        subst (λ o. All (IsRecorded o) (file ∷ files)) (sym (step_parse file files p e b))
          (
            after-others files (parsed_progress file p) file.filename b h
                ∙ recorded-parse_file file file.filename (database_of db p.tx)
                ∙ rw ((eq_iff file.filename file.filename).1 refl, e) refl,
            loop_records files (parsed_progress file p) b hs (others_stay file p files h us),
          )
  ]
