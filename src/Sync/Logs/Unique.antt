-- ===== src/Sync/Logs/Unique.antt =====
-- The UNIQUE constraint of api_calls under a sync.
use copilot_token_cost.Prelude.{
  ℕ, ◌≡◌, refl, Bool, true, false, ◌||◌, Option, none, some, List, [], ◌∷◌, Bytes, keep, ltb,
  bytes_eq, if◌then◌else◌, arith, Bool-cases, inl, inr,
}
use copilot_token_cost.Prelude.Maps.{Map}
use copilot_token_cost.Prelude.Floats.{Float64}
use copilot_token_cost.Storage.{Database, ApiCall}
use copilot_token_cost.Storage.Unique.{IsUnique, holds, upsert_records-IsUnique}
use copilot_token_cost.Storage.Parsed.{mark_log_parsed, upsert_session_workspace}
use copilot_token_cost.Storage.Cleanup.{delete_where, cleanup_rows, cleanup_unknown_duplicates}
use copilot_token_cost.Sync.Logs.{
  Job, WorkspaceMeta, LogFile, Progress, database_of, skips, is_open, parse_file, sync_files,
  conclude, close, prepared, sync_logs_to_db, upsert_workspaces, finish,
}
use copilot_token_cost.Sync.Logs.Failed.{api_calls-prepared}

keep-IsUnique : (q : ApiCall → Bool) (rows : List ApiCall) → IsUnique rows → IsUnique (keep q rows)
keep-IsUnique q [] h = tt
keep-IsUnique q (r ∷ rows) (h, hs) = elim (Bool-cases (q r)) [
  | inl e ↦ rw e (holds-keep rows h, keep-IsUnique q rows hs)
  | inr e ↦ rw e (keep-IsUnique q rows hs)
]
  where
    holds-keep : (xs : List ApiCall) → holds r xs ≡ false → holds r (keep q xs) ≡ false
    holds-keep [] k = refl
    holds-keep (x ∷ xs) k = ground (arith, holds-keep xs)

cleanup-IsUnique : (rows : List ApiCall) → IsUnique rows → IsUnique (cleanup_rows rows).0
unfolding cleanup_rows delete_where
cleanup-IsUnique rows h = keep-IsUnique _ _ (keep-IsUnique _ rows h)

module _ {ℓ} {W : Type ℓ} ⦃f : Float64 W⦄ where
  workspaces_calls :
      (source : Bytes) (ws : List WorkspaceMeta) (db : Database W)
      → (upsert_workspaces source ws db).api_calls ≡ db.api_calls
  unfolding upsert_workspaces upsert_session_workspace
  workspaces_calls source [] db = refl
  workspaces_calls source (w ∷ ws) db =
      workspaces_calls source ws (upsert_session_workspace w.session_id w.cwd w.branch source db)

  finish-IsUnique :
      (job : Job) (n total : ℕ) (db : Database W)
      → IsUnique db.api_calls
      → IsUnique (finish job n total db).0.api_calls
  unfolding finish cleanup_unknown_duplicates
  finish-IsUnique job n total db h = elim (Bool-cases (ltb 0 n)) [
    | inl e ↦ rw e (cleanup-IsUnique _ (rw workspaces_calls h))
    | inr e ↦ rw e (cleanup-IsUnique _ h)
  ]

  parse_file-IsUnique :
      (job : Job) (file : LogFile) (db : Database W)
      → IsUnique db.api_calls
      → IsUnique (parse_file job file db).api_calls
  unfolding parse_file mark_log_parsed
  parse_file-IsUnique job file db h =
      (upsert_records-IsUnique job.normalize_model job.prompt_text_for_storage job.source
        (job.records_of file) db.api_calls h).0

  close-IsUnique :
      (job : Job) (db : Database W) (p : Progress W) (o : Option (Database W))
      → IsUnique db.api_calls
      → IsUnique (database_of db o).api_calls
      → IsUnique (close job db p o).0.api_calls
  close-IsUnique job db p none h k = finish-IsUnique job _ _ db h
  close-IsUnique job db p (some tx) h k = chosen job.commits
    where
      chosen :
          (b : Bool)
          → IsUnique
              (if b then finish job p.parsed_count p.total_inserted tx else (db, 0)).0.api_calls
      chosen true = finish-IsUnique job p.parsed_count p.total_inserted tx k
      chosen false = h

  files-IsUnique :
      (job : Job) (parsed : Map Bytes W) (db : Database W) (files : List LogFile) (p : Progress W)
      → IsUnique db.api_calls
      → IsUnique (database_of db p.tx).api_calls
      → IsUnique (conclude job db (sync_files job parsed db files p)).0.api_calls
  unfolding sync_files
  files-IsUnique job parsed db [] p h k = close-IsUnique job db p p.tx h k
  files-IsUnique job parsed db (file ∷ files) p h k = elim (Bool-cases (skips job parsed file)) [
    | inl e ↦ rw e (files-IsUnique job parsed db files p h k)
    | inr e ↦ elim (Bool-cases (is_open p.tx || job.begins)) [
      | inl o ↦
          rw (e, o) (files-IsUnique job parsed db files _ h (parse_file-IsUnique job file _ k))
      | inr o ↦ rw (e, o) h
    ]
  ]

  -- Whatever the directory, the arguments and the faults, a sync keeps the UNIQUE constraint.
  pub sync-IsUnique :
      (job : Job) (db : Database W)
      → IsUnique db.api_calls
      → IsUnique (sync_logs_to_db job db).0.api_calls
  unfolding sync_logs_to_db
  sync-IsUnique job db h =
      let k : IsUnique (prepared job db).api_calls = rw (api_calls-prepared job db) h in
      files-IsUnique job _ (prepared job db) job.files _ k k
