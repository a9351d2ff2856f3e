-- ===== src/Sync/Codespaces/Recorded.antt =====
-- What codespace_sync_state holds after a sync and after an upsert.
use copilot_token_cost.Prelude.{
  ℕ, ◌≡◌, refl, ◌∙◌, Bool, true, false, not, ◌||◌, Option, none, some, List, [], ◌∷◌, ◌++◌, Bytes,
  keep, ltb, nat_eq, ◌==◌, bytes_eq, eq_iff, if◌then◌else◌, arith, Bool-cases, inl, inr,
}
use copilot_token_cost.Prelude.Maps.{Map}
use copilot_token_cost.Prelude.Floats.{Float64}
use copilot_token_cost.Storage.{Database, CodespaceState}
use copilot_token_cost.Storage.Parsed.{
  mark_log_parsed, upsert_session_workspace, delete_parsed_logs_by_source, first_used,
  get_codespace_last_used, upsert_codespace_sync_state,
}
use copilot_token_cost.Storage.Cleanup.{cleanup_unknown_duplicates}
use copilot_token_cost.Sync.Logs.{
  Job, WorkspaceMeta, LogFile, Progress, database_of, skips, is_open, parse_file, sync_files,
  conclude, close, prepared, sync_logs_to_db, upsert_workspaces, finish,
}

used-replaced :
    (name other stamp : Bytes) (states : List CodespaceState)
    → first_used (
        keep
          (λ s. s.codespace_name == other)
          (keep (λ s. not (s.codespace_name == name)) states
            ++ record { codespace_name = name; last_used_at = stamp } ∷ []))
      ≡ (if name == other then stamp else first_used (keep (λ s. s.codespace_name == other) states))
used-replaced name other stamp [] = ground arith
used-replaced name other stamp (s ∷ states) = ground (
  arith,
  used-replaced name other stamp states,
  eq_iff s.codespace_name name,
  eq_iff s.codespace_name other,
  eq_iff name other,
)

module _ {ℓ} {W : Type ℓ} ⦃f : Float64 W⦄ where
  abbrev states_of : Database W → List CodespaceState
  states_of db = db.codespace_sync_state

  workspaces_states :
      (source : Bytes) (ws : List WorkspaceMeta) (db : Database W)
      → states_of (upsert_workspaces source ws db) ≡ states_of db
  unfolding upsert_workspaces upsert_session_workspace
  workspaces_states source [] db = refl
  workspaces_states source (w ∷ ws) db =
      workspaces_states source ws (upsert_session_workspace w.session_id w.cwd w.branch source db)

  finish_states :
      (job : Job) (n total : ℕ) (db : Database W)
      → states_of (finish job n total db).0 ≡ states_of db
  unfolding finish cleanup_unknown_duplicates
  finish_states job n total db = elim (Bool-cases (ltb 0 n)) [
    | inl e ↦ rw e (workspaces_states job.source job.workspaces db)
    | inr e ↦ rw e
  ]

  parse_states :
      (job : Job) (file : LogFile) (db : Database W)
      → states_of (parse_file job file db) ≡ states_of db
  unfolding parse_file mark_log_parsed
  parse_states job file db = refl

  close_states :
      (job : Job) (db : Database W) (p : Progress W) (o : Option (Database W))
      → states_of (database_of db o) ≡ states_of db
      → states_of (close job db p o).0 ≡ states_of db
  close_states job db p none h = finish_states job _ _ db
  close_states job db p (some tx) h = chosen job.commits
    where
      chosen :
          (b : Bool)
          → states_of (if b then finish job p.parsed_count p.total_inserted tx else (db, 0)).0
            ≡ states_of db
      chosen true = finish_states job p.parsed_count p.total_inserted tx ∙ h
      chosen false = refl

  files_states :
      (job : Job) (parsed : Map Bytes W) (db : Database W) (files : List LogFile) (p : Progress W)
      → states_of (database_of db p.tx) ≡ states_of db
      → states_of (conclude job db (sync_files job parsed db files p)).0 ≡ states_of db
  unfolding sync_files
  files_states job parsed db [] p h = close_states job db p p.tx h
  files_states job parsed db (file ∷ files) p h = elim (Bool-cases (skips job parsed file)) [
    | inl e ↦ rw e (files_states job parsed db files p h)
    | inr e ↦ elim (Bool-cases (is_open p.tx || job.begins)) [
      | inl o ↦
          rw (e, o)
            (files_states job parsed db files _ (parse_states job file (database_of db p.tx) ∙ h))
      | inr o ↦ rw (e, o)
    ]
  ]

  prepared_states : (job : Job) (db : Database W) → states_of (prepared job db) ≡ states_of db
  unfolding prepared delete_parsed_logs_by_source
  prepared_states job db = elim (Bool-cases job.force) [ inl e ↦ rw e | inr e ↦ rw e ]

  -- A sync of logs leaves the table alone.
  pub sync_states :
      (job : Job) (db : Database W)
      → (sync_logs_to_db job db).0.codespace_sync_state ≡ db.codespace_sync_state
  unfolding sync_logs_to_db
  sync_states job db =
      files_states job _ (prepared job db) job.files _ refl ∙ prepared_states job db

module _ {ℓ} {W : Type ℓ} where
  -- After an upsert the row of its codespace is the new one, and those of others are as they were.
  pub used-upsert :
      (name other stamp : Bytes) (db : Database W)
      → get_codespace_last_used other (upsert_codespace_sync_state name stamp db)
        ≡ (if name == other then stamp else get_codespace_last_used other db)
  unfolding get_codespace_last_used upsert_codespace_sync_state
  used-upsert name other stamp db = used-replaced name other stamp db.codespace_sync_state

  pub used-states :
      (name : Bytes) (a b : Database W)
      → a.codespace_sync_state ≡ b.codespace_sync_state
      → get_codespace_last_used name a ≡ get_codespace_last_used name b
  unfolding get_codespace_last_used
  used-states name a b e = rw e
