-- ===== src/Sync/Logs/Twice.antt =====
-- A sync and the next one, with nothing changed in between.
use copilot_token_cost.Prelude.{
  ℕ, ◌≡◌, refl, ap, sym, subst, ◌∙◌, Bool, true, false, Option, none, some, List, [], ◌∷◌, Bytes,
  ltb, All, bytes_eq, if◌then◌else◌, arith, Bool-cases, inl, inr,
}
use copilot_token_cost.Prelude.Maps.{Map, lookup}
use copilot_token_cost.Prelude.Floats.{Float64}
use copilot_token_cost.Storage.{Database, ApiCall}
use copilot_token_cost.Storage.Parsed.{parsed_mtime_by_file, upsert_session_workspace}
use copilot_token_cost.Storage.Cleanup.{cleanup_unknown_duplicates}
use copilot_token_cost.Storage.Sound.{cleanup_twice}
use copilot_token_cost.Sync.Logs.{
  Job, LogFile, Progress, WorkspaceMeta, mtime_of, skips, database_of, sync_files, conclude, close,
  prepared, sync_logs_to_db, upsert_workspaces, finish,
}
use copilot_token_cost.Sync.Logs.Again.{
  recorded, HasDistinctNames, loop_records, IsRecorded, IsUntouched, step_skip, step_parse,
  parsed_progress,
}

module _ {ℓ} {W : Type ℓ} ⦃f : Float64 W⦄ (job : Job) where
  skips_same :
      (file : LogFile) (m m' : Map Bytes W)
      → lookup file.filename m ≡ lookup file.filename m'
      → skips job m file ≡ skips job m' file
  unfolding skips
  skips_same file m m' e = rw e

  skips_recorded :
      (file : LogFile) (m : Map Bytes W)
      → job.force ≡ false
      → f.eq (mtime_of file) (mtime_of file) ≡ true
      → lookup file.filename m ≡ some (mtime_of file)
      → skips job m file ≡ true
  unfolding skips
  skips_recorded file m force same e = simp (e, same, force) (ground arith)

  -- A loop that skips every file changes nothing.
  skip_through :
      (m : Map Bytes W) (db : Database W) (files : List LogFile) (p : Progress W)
      → All (λ file. skips job m file ≡ true) files
      → sync_files job m db files p ≡ some p
  skip_through m db [] p h = unfold sync_files in refl
  skip_through m db (file ∷ files) p (h, hs) =
      step_skip job m db file files p h ∙ skip_through m db files p hs

  -- The loop comes to its end where the transaction can be begun.
  loop_ends :
      (m : Map Bytes W) (db : Database W) (files : List LogFile) (p : Progress W)
      → job.begins ≡ true
      → (q : Progress W) × (sync_files job m db files p ≡ some q)
  loop_ends m db [] p b = (p, unfold sync_files in refl)
  loop_ends m db (file ∷ files) p b = elim (Bool-cases (skips job m file)) [
    | inl e ↦ let (q, h) = loop_ends m db files p b in (q, step_skip job m db file files p e ∙ h)
    | inr e ↦
        let (q, h) = loop_ends m db files (parsed_progress job m db file p) b in
        (q, step_parse job m db file files p e b ∙ h)
  ]

  workspaces_parsed :
      (ws : List WorkspaceMeta) (db : Database W)
      → (upsert_workspaces job.source ws db).parsed_logs ≡ db.parsed_logs
  unfolding upsert_workspaces upsert_session_workspace
  workspaces_parsed [] db = refl
  workspaces_parsed (w ∷ ws) db =
      workspaces_parsed ws (upsert_session_workspace w.session_id w.cwd w.branch job.source db)

  finish_parsed :
      (n total : ℕ) (db : Database W) → (finish job n total db).0.parsed_logs ≡ db.parsed_logs
  unfolding finish cleanup_unknown_duplicates
  finish_parsed n total db = elim (Bool-cases (ltb 0 n)) [
    | inl e ↦ rw e (workspaces_parsed job.workspaces db)
    | inr e ↦ rw e
  ]

  -- A database that was cleaned is clean.
  clean_twice :
      (db : Database W)
      → cleanup_unknown_duplicates (cleanup_unknown_duplicates db).0
        ≡ ((cleanup_unknown_duplicates db).0, 0)
  unfolding cleanup_unknown_duplicates
  clean_twice db =
      ap (λ (r : List ApiCall × ℕ). (record db { api_calls = r.0 }, r.1))
        (cleanup_twice db.api_calls)

  finish_twice :
      (n total : ℕ) (db : Database W)
      → finish job 0 0 (finish job n total db).0 ≡ ((finish job n total db).0, 0)
  unfolding finish
  finish_twice n total db =
      ap (λ (r : Database W × ℕ). (r.0, 0))
        (clean_twice (if ltb 0 n then upsert_workspaces job.source job.workspaces db else db))

  recorded-logs :
      (name : Bytes) (a b : Database W)
      → a.parsed_logs ≡ b.parsed_logs
      → recorded job.source name a ≡ recorded job.source name b
  unfolding parsed_mtime_by_file
  recorded-logs name a b e = rw e

  close_commits :
      (db : Database W) (p : Progress W) (o : Option (Database W))
      → job.commits ≡ true
      → close job db p o ≡ finish job p.parsed_count p.total_inserted (database_of db o)
  close_commits db p none c = refl
  close_commits db p (some tx) c = chosen job.commits c
    where
      chosen :
          (b : Bool)
          → b ≡ true
          → (if b then finish job p.parsed_count p.total_inserted tx else (db, 0))
            ≡ finish job p.parsed_count p.total_inserted tx
      chosen true e = refl
      chosen false e = cc e

  -- What the next sync finds of the files makes it skip them.
  skips_again :
      (db final : Database W) (q : Progress W)
      → job.force ≡ false
      → ((file : LogFile) → f.eq (mtime_of file) (mtime_of file) ≡ true)
      → final.parsed_logs ≡ (database_of db q.tx).parsed_logs
      → (files : List LogFile)
      → All (IsRecorded job (parsed_mtime_by_file job.source db) db (some q)) files
      → All (λ file. skips job (parsed_mtime_by_file job.source final) file ≡ true) files
  skips_again db final q force same e [] h = tt
  skips_again db final q force same e (file ∷ files) (h, hs) =
      let old = parsed_mtime_by_file job.source db in
      let new = parsed_mtime_by_file job.source final in
      let now : lookup file.filename new
          ≡ (if skips job old file then lookup file.filename old else some (mtime_of file)) =
        recorded-logs file.filename final (database_of db q.tx) e ∙ h in
      (
        elim (Bool-cases (skips job old file)) [
          | inl k ↦ skips_same file new old (rw k at now) ∙ k
          | inr k ↦ skips_recorded file new force (same file) (rw k at now)
        ],
        skips_again db final q force same e files hs,
      )

  abbrev start_progress : Progress W
  start_progress = record { tx = none; total_inserted = 0; parsed_count = 0 }

  at_start :
      (m : Map Bytes W) (db : Database W) (files : List LogFile)
      → All (IsUntouched job m db start_progress) files
  at_start m db [] = tt
  at_start m db (file ∷ files) = (refl, at_start m db files)

  sync_lem :
      (db : Database W)
      → job.force ≡ false
      → sync_logs_to_db job db
        ≡ conclude job db
            (sync_files job (parsed_mtime_by_file job.source db) db job.files start_progress)
  unfolding sync_logs_to_db prepared
  sync_lem db force = simp force

  -- Where the transaction begins and commits, the names of the files differ and the float of an mtime
  -- equals itself: after a sync that is not forced, the next one of the same directory parses nothing,
  -- returns 0 and leaves the whole database as it is.
  pub sync_twice :
      (db : Database W)
      → job.force ≡ false
      → job.begins ≡ true
      → job.commits ≡ true
      → HasDistinctNames job.files
      → ((file : LogFile) → f.eq (mtime_of file) (mtime_of file) ≡ true)
      → let final = (sync_logs_to_db job db).0 in sync_logs_to_db job final ≡ (final, 0)
  sync_twice db force begins commits distinct same =
      let m = parsed_mtime_by_file job.source db in
      let (q, ends) = loop_ends m db job.files start_progress begins in
      let final = (finish job q.parsed_count q.total_inserted (database_of db q.tx)).0 in
      let recorded_all =
        subst (λ o. All (IsRecorded job m db o) job.files) ends
          (loop_records job m db job.files start_progress begins distinct
            (at_start m db job.files)) in
      let first : (sync_logs_to_db job db).0 ≡ final =
        ap (λ (r : Database W × ℕ). r.0)
          (sync_lem db force ∙ ap (conclude job db) ends ∙ close_commits db q q.tx commits) in
      let skipped =
        skips_again db final q force same (finish_parsed _ _ (database_of db q.tx)) job.files
          recorded_all in
      let second : sync_logs_to_db job final ≡ (final, 0) =
        sync_lem final force
        ∙ ap (conclude job final) (
            skip_through (parsed_mtime_by_file job.source final) final job.files start_progress
              skipped)
        ∙ finish_twice q.parsed_count q.total_inserted (database_of db q.tx) in
      subst (λ d. sync_logs_to_db job d ≡ (d, 0)) (sym first) second
