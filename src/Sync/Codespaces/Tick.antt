-- ===== src/Sync/Codespaces/Tick.antt =====
-- internal/sync/service.go: `SyncCodespacesToDBTick`. The workers copy at the same time, but touch no
-- database; their results are put in the order of the pending codespaces before any is synced.
use copilot_token_cost.Prelude.{
  ℕ, ◌+◌, Bool, false, not, ◌&&◌, ◌||◌, Option, none, some, List, [], ◌∷◌, ◌++◌, Bytes, codes,
  length, keep, any, every, ltb, ◌==◌, bytes_eq, if◌then◌else◌,
}
use copilot_token_cost.Prelude.Floats.{Float64}
use copilot_token_cost.Storage.{Database}
use copilot_token_cost.Storage.Parsed.{
  known_log_files, get_codespace_last_used, upsert_codespace_sync_state,
}
use copilot_token_cost.Sync.Logs.{Job, sync_logs_to_db}
use copilot_token_cost.Sync.Codespaces.{
  CodespaceInfo, available, list_codespaces, list_remote_log_files,
}
use copilot_token_cost.Sync.Codespaces.Copy.{Copying, copy_codespace_data}

-- What the commands find, and the arguments of the call.
pub record Remote : Type 0 where
  pub listed : Option (List CodespaceInfo)
  pub log_listing : Bytes → Option Bytes
  pub copying : CodespaceInfo → Copying
  -- the copied directory; its source, force and window are set here
  pub copied_logs : CodespaceInfo → Job
  pub include_stopped : Bool
  pub force : Bool

pub data TickError : Type 0 where
  failed_to_list : TickError
  incomplete : (failed pending : ℕ) → TickError

abbrev pub source_of : CodespaceInfo → Bytes
source_of cs = codes "codespace:" ++ cs.name

-- `len(known) > 0`, and the listing succeeds, is not empty and names no other file.
abbrev pub are_all_known : List Bytes → Option (List Bytes) → Bool
are_all_known known none = false
are_all_known known (some files) =
    ltb 0 (length known) && ltb 0 (length files) && every (λ f. any (λ k. k == f) known) files

abbrev pub job_of : Remote → CodespaceInfo → Job
job_of remote cs = record (remote.copied_logs cs) {
  force = remote.force || cs.state == available;
  source = source_of cs;
  min_time = none;
  max_time = none;
}

module _ {ℓ} {W : Type ℓ} where
  -- It is stopped and was last used when it was synced last.
  unfoldable pub is_unchanged : Database W → CodespaceInfo → Bool
  is_unchanged db cs =
      not (cs.state == available)
      && not (cs.last_used_at == [])
      && get_codespace_last_used cs.name db == cs.last_used_at

  unfoldable pub is_synced : Remote → Database W → CodespaceInfo → Bool
  is_synced remote db cs =
      not remote.force
      && not (cs.state == available)
      && are_all_known (known_log_files (source_of cs) db)
          (list_remote_log_files (remote.log_listing cs.name))

  -- The loop goes on with the codespaces that are not skipped.
  unfoldable pub pending_of : Remote → Database W → List CodespaceInfo → List CodespaceInfo
  pending_of remote db = keep (λ cs. not (is_unchanged db cs || is_synced remote db cs))

-- The database, the records, and the copies that failed.
pub record Tally {ℓ} (W : Type ℓ) : Type ℓ where
  pub database : Database W
  pub total : ℕ
  pub failed : ℕ

module _ {ℓ} {W : Type ℓ} ⦃f : Float64 W⦄ where
  -- What the loop does with a copy that came about.
  unfoldable pub sync_copy : Remote → CodespaceInfo → Tally W → Tally W
  sync_copy remote cs t =
      let (db, n) = sync_logs_to_db (job_of remote cs) t.database in
      record {
        database = upsert_codespace_sync_state cs.name cs.last_used_at db;
        total = t.total + n;
        failed = t.failed;
      }

  unfoldable pub sync_result : Remote → CodespaceInfo → Tally W → Tally W
  sync_result remote cs t =
      if copy_codespace_data (remote.copying cs)
      then sync_copy remote cs t
      else record t { failed = t.failed + 1 }

  unfoldable pub sync_results : Remote → List CodespaceInfo → Tally W → Tally W
  sync_results remote [] t = t
  sync_results remote (cs ∷ rest) t = sync_results remote rest (sync_result remote cs t)

  abbrev pub report : ℕ → Tally W → Database W × ℕ × Option TickError
  report pending t =
      (t.database, t.total, if ltb 0 t.failed then some (incomplete t.failed pending) else none)

  -- For a list that is not nil.
  abbrev pub tick_of : Remote → Database W → List CodespaceInfo → Database W × ℕ × Option TickError
  tick_of remote db codespaces =
      let pending = pending_of remote db codespaces in
      report (length pending)
        (sync_results remote pending (record { database = db; total = 0; failed = 0 }))

  abbrev pub tick_from :
      Remote → Database W → Option (List CodespaceInfo) → Database W × ℕ × Option TickError
  tick_from remote db none = (db, 0, some failed_to_list)
  tick_from remote db (some codespaces) = tick_of remote db codespaces

  unfoldable pub sync_codespaces_to_db_tick :
      Remote → Database W → Database W × ℕ × Option TickError
  sync_codespaces_to_db_tick remote db =
      tick_from remote db (list_codespaces remote.include_stopped remote.listed)

  -- The error is dropped.
  unfoldable pub sync_codespaces_to_db : Remote → Database W → Database W × ℕ
  sync_codespaces_to_db remote db =
      let (final, total, error) = sync_codespaces_to_db_tick remote db in (final, total)
