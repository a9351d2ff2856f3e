-- ===== src/Dashboard/Sync.antt =====
-- web_mode.go: the actions that sync the sources, their lock and the status of each source. What the
-- database, the file system and the syncs answer is an argument; a status has the time `now`. The patch
-- that a change of a status broadcasts is left out.
pub mod Settled
pub mod Actions
use copilot_token_cost.Prelude.{
  ℕ, Bool, true, false, not, ◌&&◌, Option, none, some, List, [], ◌∷◌, ◌++◌, Bytes, codes,
  trim_space, to_lower, contains, nat_beq, ◌==◌, bytes_eq, if◌then◌else◌,
}
use copilot_token_cost.Prelude.Maps.{Map, insert}

pub record SyncSourceStatus : Type 0 where
  pub code : Bytes
  pub reason : Bytes
  pub updated_at : Bytes

pub record WebActionError : Type 0 where
  pub status : ℕ
  pub reason : Bytes
  pub message : Bytes

-- `snapshot_status` is the field of the snapshot, where there is one.
pub record SyncState : Type 0 where
  pub locked : Bool
  pub sync_status : Map Bytes SyncSourceStatus
  pub snapshot_status : Option (Map Bytes SyncSourceStatus)
  pub has_success : Bool
  pub last_success : Option Bytes

abbrev pub code_ok : Bytes
code_ok = codes "ok"

abbrev pub code_skipped : Bytes
code_skipped = codes "skipped"

abbrev pub code_error : Bytes
code_error = codes "error"

abbrev pub code_timeout : Bytes
code_timeout = codes "timeout"

abbrev pub code_stale : Bytes
code_stale = codes "stale"

abbrev pub in_progress : Bytes
in_progress = codes "sync_in_progress"

unfoldable pub new_sync_source_status : Bytes → Bytes → Bytes → SyncSourceStatus
new_sync_source_status now code reason = record {
  code = code;
  reason = if trim_space reason == [] then codes "unspecified" else trim_space reason;
  updated_at = now;
}

abbrev pub updated :
    Map Bytes SyncSourceStatus
    → Option (Map Bytes SyncSourceStatus)
    → Option (Map Bytes SyncSourceStatus)
updated status none = none
updated status (some old) = some status

unfoldable pub set_sync_status : Bytes → Bytes → Bytes → Bytes → SyncState → SyncState
set_sync_status now source code reason s =
    let name = if trim_space source == [] then codes "unknown" else source in
    let known = if trim_space code == [] then code_error else code in
    let status = insert name (new_sync_source_status now known reason) s.sync_status in
    record s { sync_status = status; snapshot_status = updated status s.snapshot_status }

abbrev pub Result : Type 0
Result = SyncState × Option WebActionError

-- `defer s.refreshMu.Unlock()`
abbrev pub unlocked : Result → Result
unlocked (s, e) = (record s { locked = false }, e)

-- `TryLock`, and the action behind it.
unfoldable pub begin_sync_action : Bytes → Bytes → SyncState → (SyncState → Result) → Result
begin_sync_action now source s act =
    let begun = set_sync_status now source code_skipped in_progress s in
    let done = unlocked (act (record begun { locked = true })) in
    if s.locked
    then (
      begun,
      some (record {
        status = 409;
        reason = in_progress;
        message = codes "sync already in progress";
      }),
    )
    else done

abbrev pub failed_with : Bytes → Bytes → Bytes → ℕ → Bytes → Bytes → SyncState → Result
failed_with now source code status reason message s = (
  set_sync_status now source code message s,
  some (record { status = status; reason = reason; message = message }),
)

-- The part of `rebuildSnapshot` that is about the status.
abbrev pub rebuild_snapshot : SyncState → SyncState
rebuild_snapshot s = record s { snapshot_status = some s.sync_status }

pub data LogsDir : Type 0 where
  missing not_directory directory : LogsDir
  stat_failed : Bytes → LogsDir

abbrev pub refresh_stat : Bytes → Bytes → LogsDir → SyncState → Result
refresh_stat now logs_dir (stat_failed e) s =
    failed_with now (codes "local") code_error 500 (codes "logs_dir_stat_failed")
      (codes "stat logs directory failed: " ++ e) s
refresh_stat now logs_dir missing s = (
  rebuild_snapshot
      (set_sync_status now (codes "local") code_skipped (codes "logs_dir_not_found") s),
  none,
)
refresh_stat now logs_dir not_directory s =
    failed_with now (codes "local") code_error 500 (codes "logs_dir_not_directory")
      (codes "logs path is not a directory: " ++ logs_dir) s
refresh_stat now logs_dir directory s = (
  rebuild_snapshot (set_sync_status now (codes "local") code_ok (codes "local_sync_completed") s),
  none,
)

-- `ping` is the error of the database, if it gives one.
abbrev pub refresh_ping : Bytes → Bytes → Option Bytes → LogsDir → SyncState → Result
refresh_ping now dir (some e) stat s =
    failed_with now (codes "local") code_error 503 (codes "database_unavailable")
      (codes "database_unavailable: " ++ e) s
refresh_ping now dir none stat s =
    let empty =
      failed_with now (codes "local") code_error 500 (codes "logs_dir_empty")
        (codes "logs directory is empty") s in
    let found = refresh_stat now (trim_space dir) stat s in
    if trim_space dir == [] then empty else found

unfoldable pub refresh_local_snapshot : Bytes → Bytes → Option Bytes → LogsDir → SyncState → Result
refresh_local_snapshot now dir ping stat s =
    begin_sync_action now (codes "local") s (refresh_ping now dir ping stat)

unfoldable pub classify_sync_code : Bytes → Bytes
classify_sync_code e =
    if contains (to_lower e) (codes "timed out") then code_timeout else code_error

abbrev pub last_success_text : Option Bytes → Bytes
last_success_text none = codes "unknown"
last_success_text (some at) = at

unfoldable pub classify_codespaces_sync_failure : Bytes → Bool → SyncState → Bytes × Bytes
classify_codespaces_sync_failure e auto s =
    if auto && s.has_success
    then (
      code_stale,
      codes "codespaces_sync_stale last_success="
          ++ (last_success_text s.last_success ++ (codes " error=" ++ e)),
    )
    else (
      classify_sync_code e,
      (if auto then codes "codespaces auto sync failed: " else codes "codespaces sync failed: ")
          ++ e,
    )

abbrev pub failure_reason : Bytes → Bytes
failure_reason code =
    if code == code_timeout
    then codes "codespaces_sync_timeout"
    else (if code == code_stale
        then codes "codespaces_sync_stale"
        else codes "codespaces_sync_failed")

-- What the tick answers: its error, or the number of records.
pub data TickResult : Type 0 where
  tick_failed : Bytes → TickResult
  tick_total : ℕ → TickResult

abbrev pub after_tick : Bytes → Bool → TickResult → SyncState → Result
after_tick now manual (tick_failed e) s =
    let (code, reason) = classify_codespaces_sync_failure e (not manual) s in
    failed_with now (codes "codespaces") code 502 (failure_reason code) reason s
after_tick now manual (tick_total n) s =
    let code = if nat_beq n 0 then code_skipped else code_ok in
    let reason =
      if nat_beq n 0 then codes "codespaces_no_changes" else codes "codespaces_sync_completed" in
    let noted = set_sync_status now (codes "codespaces") code reason s in
    (rebuild_snapshot (record noted { has_success = true; last_success = some now }), none)

abbrev pub sync_ping : Bytes → Bool → Option Bytes → TickResult → SyncState → Result
sync_ping now manual (some e) tick s =
    failed_with now (codes "codespaces") code_error 503 (codes "database_unavailable")
      (codes "database unavailable: " ++ e) s
sync_ping now manual none tick s = after_tick now manual tick s

abbrev pub sync_mode : Bytes → Bytes → Bool → Option Bytes → TickResult → SyncState → Result
sync_mode now mode manual ping tick s =
    let refused =
      failed_with now (codes "codespaces") code_skipped 409 (codes "codespaces_mode_not_manual")
        (codes "manual mode required (current: " ++ (mode ++ codes ")")) s in
    let allowed = sync_ping now manual ping tick s in
    if manual && not (mode == codes "manual") then refused else allowed

unfoldable pub sync_codespaces_snapshot :
    Bytes → Bytes → Bool → Option Bytes → TickResult → SyncState → Result
sync_codespaces_snapshot now mode manual ping tick s =
    begin_sync_action now (codes "codespaces") s (sync_mode now mode manual ping tick)
