-- ===== src/Sync/Logs/Failed.antt =====
-- A sync whose transaction fails.
use copilot_token_cost.Prelude.{
  ◌≡◌, ◌⊎◌, refl, ap, Bool, true, false, ◌&&◌, ◌||◌, Option, none, some, List, [], ◌∷◌, Bytes,
  bytes_eq, if◌then◌else◌, Bool-cases, inl, inr,
}
use copilot_token_cost.Prelude.Maps.{Map}
use copilot_token_cost.Prelude.Floats.{Float64}
use copilot_token_cost.Storage.{Database}
use copilot_token_cost.Storage.Parsed.{delete_parsed_logs_by_source, parsed_mtime_by_file}
use copilot_token_cost.Sync.Logs.{
  Job, LogFile, Progress, skips, sync_files, is_open, conclude, close, prepared, sync_logs_to_db,
}

module _ {ℓ} {W : Type ℓ} ⦃f : Float64 W⦄ where
  -- Every matching file of the directory is skipped.
  abbrev pub skips_all : Job → Map Bytes W → List LogFile → Bool
  skips_all job parsed [] = true
  skips_all job parsed (file ∷ files) = skips job parsed file && skips_all job parsed files

  pub api_calls-prepared :
      (job : Job) (db : Database W) → (prepared job db).api_calls ≡ db.api_calls
  unfolding prepared delete_parsed_logs_by_source
  api_calls-prepared job db = elim (Bool-cases job.force) [ inl e ↦ rw e | inr e ↦ rw e ]

  close_failed :
      (job : Job) (db : Database W) (p : Progress W) (o : Option (Database W))
      → job.commits ≡ false
      → is_open o ≡ true
      → close job db p o ≡ (db, 0)
  close_failed job db p none c t = cc t
  close_failed job db p (some tx) c t = rw c

  module _ (job : Job) (parsed : Map Bytes W) (db : Database W) where
    no_begin :
        (files : List LogFile) (p : Progress W)
        → job.begins ≡ false
        → is_open p.tx ≡ false
        → skips_all job parsed files ≡ false
        → sync_files job parsed db files p ≡ none
    unfolding sync_files
    no_begin [] p b t h = cc
    no_begin (file ∷ files) p b t h = elim (Bool-cases (skips job parsed file)) [
      | inl e ↦ rw e (no_begin files p b t (rw e at h))
      | inr e ↦ rw (e, t, b)
    ]

    no_commit :
        (files : List LogFile) (p : Progress W)
        → job.commits ≡ false
        → (is_open p.tx ≡ true) ⊎ (skips_all job parsed files ≡ false)
        → conclude job db (sync_files job parsed db files p) ≡ (db, 0)
    unfolding sync_files
    no_commit [] p c (inl t) = close_failed job db p p.tx c t
    no_commit [] p c (inr h) = cc h
    no_commit (file ∷ files) p c h = elim (Bool-cases (skips job parsed file)) [
      | inl e ↦ rw e (no_commit files p c (still h e))
      | inr e ↦ elim (Bool-cases (is_open p.tx || job.begins)) [
        | inl o ↦ rw (e, o) (no_commit files _ c (inl refl))
        | inr o ↦ rw (e, o)
      ]
    ]
      where
        still :
            (is_open p.tx ≡ true) ⊎ (skips_all job parsed (file ∷ files) ≡ false)
            → skips job parsed file ≡ true
            → (is_open p.tx ≡ true) ⊎ (skips_all job parsed files ≡ false)
        still (inl t) e = inl t
        still (inr k) e = inr (rw e at k)

  -- The sync of a directory with a file to parse, where the transaction cannot be begun or committed,
  -- returns 0 and changes nothing but what `force` has deleted before it: every call stays, and without
  -- `force` the whole database does.
  pub sync_failed :
      (job : Job) (db : Database W)
      → let parsed = if job.force then [] else parsed_mtime_by_file job.source (prepared job db) in
        (job.begins ≡ false) ⊎ (job.commits ≡ false)
        → skips_all job parsed job.files ≡ false
        → (sync_logs_to_db job db ≡ (prepared job db, 0))
          × ((prepared job db).api_calls ≡ db.api_calls)
          × (job.force ≡ false → prepared job db ≡ db)
  unfolding sync_logs_to_db
  sync_failed job db failed h =
      (outcome failed, api_calls-prepared job db, unfold prepared in λ e. rw e)
    where
      outcome :
          (job.begins ≡ false) ⊎ (job.commits ≡ false)
          → sync_logs_to_db job db ≡ (prepared job db, 0)
      outcome (inl b) =
          ap (conclude job (prepared job db))
            (no_begin job _ (prepared job db) job.files _ b refl h)
      outcome (inr c) = no_commit job _ (prepared job db) job.files _ c (inr h)
