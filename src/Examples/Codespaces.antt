-- ===== src/Examples/Codespaces.antt =====
-- The theorems of the codespace sync at one stopped codespace.
use copilot_token_cost.Prelude.{
  ℕ, ◌≡◌, ◌≤◌, refl, ◌||◌, ◌&&◌, true, false, not, none, some, [], ◌∷◌, codes, keep, length, ltb,
  bytes_beq, bytes_eq, ◌==◌, if◌then◌else◌, In,
}
use copilot_token_cost.Storage.Parsed.{get_codespace_last_used}
use copilot_token_cost.Sync.Codespaces.{
  CodespaceInfo, list_codespaces, is_allowed, available, list_remote_log_files,
}
use copilot_token_cost.Sync.Codespaces.Copy.{
  CopyRun, succeeds, fails, Copying, copied_by_ssh, copy_codespace_data, attempts, attempts_lem,
  is_success, is_retried, sum,
}
use copilot_token_cost.Sync.Codespaces.Tick.{
  Remote, incomplete, failed_to_list, pending_of, is_unchanged, is_synced,
  sync_codespaces_to_db_tick,
}
use copilot_token_cost.Sync.Codespaces.Settled.{is_copied, tick_errors, tick_settles}
use copilot_token_cost.Examples.{whole_numbers}
use copilot_token_cost.Examples.Sync.{a_job, empty}

-- The first start is throttled.
abbrev throttled_once : ℕ → CopyRun
throttled_once attempt =
    if ltb attempt 2 then fails (codes "Too many codespaces starting") true else succeeds

attempts_example :
    ((attempts throttled_once 3 1).copied ≡ (
      is_success (throttled_once 1)
      || (is_retried (throttled_once 1)
          && (is_success (throttled_once 2)
              || (is_retried (throttled_once 2) && is_success (throttled_once 3))))))
    × (length (attempts throttled_once 3 1).waits ≤ 2)
    × (sum (attempts throttled_once 3 1).waits ≤ 6)
attempts_example = attempts_lem throttled_once

abbrev a_codespace : CodespaceInfo
a_codespace = record {
  name = codes "fuzzy-tree";
  state = codes "Shutdown";
  last_used_at = codes "2025-06-01T10:00:00Z";
}

abbrev a_copying : Copying
a_copying = record {
  makes_tmp_dir = true;
  ssh = record {
    starts = true;
    ssh_fails = false;
    ssh_exit_code = 0;
    tar_fails = false;
    ssh_stderr = [];
  };
  cp = throttled_once;
  has_logs = true;
  has_home_logs = false;
}

abbrev a_remote : Remote
a_remote = record {
  listed = some (a_codespace ∷ []);
  log_listing = λ name. none;
  copying = λ cs. a_copying;
  copied_logs = λ cs. a_job;
  include_stopped = true;
  force = false;
}

one_listed : list_codespaces true a_remote.listed ≡ some (a_codespace ∷ [])
unfolding list_codespaces is_allowed bytes_beq
one_listed = refl

one_pending : In a_codespace (pending_of a_remote empty (a_codespace ∷ []))
unfolding pending_of is_unchanged is_synced get_codespace_last_used bytes_beq list_remote_log_files
one_pending = (0, refl)

one_copied : is_copied a_remote a_codespace ≡ true
unfolding copy_codespace_data copied_by_ssh
one_copied = refl

not_available : (a_codespace.state == available) ≡ false
unfolding bytes_beq
not_available = refl

has_date : (a_codespace.last_used_at == []) ≡ false
unfolding bytes_beq
has_date = refl

tick_errors_example :
    let (final, total, error) = sync_codespaces_to_db_tick a_remote empty in
    let pending = pending_of a_remote empty (a_codespace ∷ []) in
    let broken = keep (λ cs. not (is_copied a_remote cs)) pending in
    error
    ≡ (if ltb 0 (length broken) then some (incomplete (length broken) (length pending)) else none)
tick_errors_example = tick_errors a_remote empty (a_codespace ∷ []) one_listed

tick_settles_example :
    let final = (sync_codespaces_to_db_tick a_remote empty).0 in
    pending_of a_remote final (a_codespace ∷ []) ≡ pending_of a_remote final []
tick_settles_example =
    tick_settles a_remote empty (a_codespace ∷ []) a_codespace a_remote [] one_listed one_pending
      one_copied not_available has_date ((λ e. refl), tt)

abbrev no_codespaces : Remote
no_codespaces = record a_remote { listed = some [] }

-- Where no codespace is listed the tick fails.
tick_of_nothing : sync_codespaces_to_db_tick no_codespaces empty ≡ (empty, 0, some failed_to_list)
unfolding sync_codespaces_to_db_tick list_codespaces
tick_of_nothing = refl
