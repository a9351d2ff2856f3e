-- ===== src/Dashboard/Watch.antt =====
-- web_mode.go: the watch on the local logs, `startLocalStreamingLoop`. A `Look` is what one pass of its loop
-- sees and what the calls in it answer; the passes are a list. `print_int` is `%d`, `stamp` the format of a
-- time; an empty text is the zero time.
pub mod Changes
pub mod Passes
use copilot_token_cost.Prelude.{
  ℕ, Bool, true, false, not, ◌&&◌, ◌||◌, ◌⊎◌, inl, inr, Option, none, some, List, [], ◌∷◌, ◌++◌,
  Bytes, codes, length, any, keep, ltb, trim_space, ◌==◌, nat_eq, bytes_eq, if◌then◌else◌,
}
use copilot_token_cost.Prelude.Maps.{Map, lookup, insert, is_some, keys}
use copilot_token_cost.Tail.Store.{TailOffset, is_row, upsert_row}
use copilot_token_cost.Dashboard.Sync.{
  SyncSourceStatus, WebActionError, SyncState, Result, code_ok, code_skipped, code_error,
  in_progress, LogsDir, new_sync_source_status, set_sync_status, refresh_local_snapshot,
}

pub record LocalLogState : Type 0 where
  pub size : ℕ
  pub mtime : ℕ

abbrev pub Logs : Type 0
Logs = Map Bytes LocalLogState

-- What `os.Lstat` says of a match.
pub data Lstat : Type 0 where
  is_gone : Lstat
  lstat_failed : Bytes → Lstat
  found : Bool → Bool → LocalLogState → Lstat

-- The loop over the matches; `inl` is the error that ends it.
unfoldable pub scan_from : List (Bytes × Lstat) → Logs → Bytes ⊎ Logs
scan_from [] out = inr out
scan_from ((path, is_gone) ∷ matches) out = scan_from matches out
scan_from ((path, lstat_failed e) ∷ matches) out = inl e
scan_from ((path, found is_symlink is_regular st) ∷ matches) out =
    let passed = scan_from matches out in
    let kept = scan_from matches (insert path st out) in
    if is_symlink || not is_regular then passed else kept

-- `Glob` gives its error or the matches of process*.log.
unfoldable pub scan_local_process_logs : Bytes ⊎ List (Bytes × Lstat) → Bytes ⊎ Logs
scan_local_process_logs (inl e) = inl e
scan_local_process_logs (inr matches) = scan_from matches []

abbrev pub differs : LocalLogState → Option LocalLogState → Bool
differs st none = true
differs st (some old) = not (old.size == st.size) || not (old.mtime == st.mtime)

unfoldable pub local_process_logs_changed : Logs → Logs → Bool
local_process_logs_changed prev cur =
    not (length prev == length cur) || any (λ p. differs p.1 (lookup p.0 prev)) cur

abbrev pub is_smaller : LocalLogState → Option LocalLogState → Bool
is_smaller old none = false
is_smaller old (some next) = ltb next.size old.size

unfoldable pub local_process_logs_shrank : Logs → Logs → Bool
local_process_logs_shrank prev cur = any (λ p. is_smaller p.1 (lookup p.0 cur)) prev

-- The paths that the last scan had and this one has not.
unfoldable pub disappeared_from : Logs → Logs → List Bytes
disappeared_from prev cur = keep (λ path. not (is_some (lookup path cur))) (keys prev)

unfoldable pub null_if_blank : Bytes → Option Bytes
null_if_blank v = if trim_space v == [] then none else some v

pub record Look : Type 0 where
  pub print_int : ℕ → Bytes
  pub stamp : ℕ → Bytes
  pub now : Bytes
  pub tick : Bytes
  -- what `localSampleHash` gives for a path: an error or a hash
  pub sample_hash : Bytes → Bytes ⊎ Bytes
  pub logs_dir : Bytes
  pub matches : Bytes ⊎ List (Bytes × Lstat)
  pub ping : Option Bytes
  pub stat : LogsDir
  -- another action holds the lock of the syncs
  pub busy : Bool

pub record Watch : Type 0 where
  pub local_stream : Logs
  pub local_chunk_at : Bytes
  pub rows : List TailOffset
  pub sync : SyncState
  pub indicators : Map Bytes SyncSourceStatus

abbrev pub local : Bytes
local = codes "local"

abbrev pub hash_or_blank : Bytes ⊎ Bytes → Bytes
hash_or_blank (inl e) = []
hash_or_blank (inr h) = h

abbrev pub error_or_blank : Bytes ⊎ Bytes → Bytes
error_or_blank (inl e) = e
error_or_blank (inr h) = []

abbrev pub disappeared : Bytes
disappeared = codes "file_disappeared"

abbrev pub disconnected : Bytes
disconnected = codes "disconnected"

module _ (look : Look) where
  -- The row that the statement of the checkpoints is bound to.
  unfoldable pub checkpoint_row : Bytes → Bytes → Bytes → LocalLogState → TailOffset
  checkpoint_row last_chunk_at last_defensive_recopy_at path st = record {
    source = local;
    log_file = path;
    last_offset = st.size;
    last_size = st.size;
    last_mtime = some (look.stamp st.mtime);
    last_hash = some (hash_or_blank (look.sample_hash path));
    connection_state = codes "connected";
    last_error = null_if_blank (error_or_blank (look.sample_hash path));
    last_chunk_at = null_if_blank last_chunk_at;
    last_full_copy_at = null_if_blank last_chunk_at;
    last_defensive_recopy_at = null_if_blank last_defensive_recopy_at;
    updated_at = look.now;
  }

  unfoldable pub persist_local_streaming_checkpoints :
      Logs → Bytes → Bytes → List TailOffset → List TailOffset
  persist_local_streaming_checkpoints [] last_chunk_at last_defensive_recopy_at rows = rows
  persist_local_streaming_checkpoints ((path, st) ∷ current) last_chunk_at recopied_at rows =
      persist_local_streaming_checkpoints current last_chunk_at recopied_at
        (upsert_row (checkpoint_row last_chunk_at recopied_at path st) rows)

  -- The row that the statement inserts, and what it does to one that is there.
  abbrev pub disconnected_row : Bytes → TailOffset
  disconnected_row path = record {
    source = local;
    log_file = path;
    last_offset = 0;
    last_size = 0;
    last_mtime = none;
    last_hash = none;
    connection_state = disconnected;
    last_error = some disappeared;
    last_chunk_at = none;
    last_full_copy_at = none;
    last_defensive_recopy_at = none;
    updated_at = look.now;
  }

  abbrev pub disconnect : TailOffset → TailOffset
  disconnect old = record old {
    connection_state = disconnected;
    last_error = some disappeared;
    updated_at = look.now;
  }

  unfoldable pub disconnect_in : Bytes → List TailOffset → List TailOffset
  disconnect_in path [] = disconnected_row path ∷ []
  disconnect_in path (old ∷ rows) =
      let later = disconnect_in path rows in
      if is_row local path old then disconnect old ∷ rows else old ∷ later

  unfoldable pub mark_local_streaming_disconnected : List Bytes → List TailOffset → List TailOffset
  mark_local_streaming_disconnected [] rows = rows
  mark_local_streaming_disconnected (path ∷ paths) rows =
      mark_local_streaming_disconnected paths (disconnect_in path rows)

  -- `setRefreshIndicatorStatusQuiet("local", …)` and `setSyncStatus("local", …)`.
  abbrev pub with_status : Bytes → Bytes → Watch → Watch
  with_status code reason w = record w {
    sync = set_sync_status look.now local code reason w.sync;
    indicators = insert local (new_sync_source_status look.now code reason) w.indicators;
  }

  abbrev pub labelled : Bytes → Bytes → Bytes
  labelled label at = if trim_space at == [] then [] else label ++ at

  unfoldable pub refresh_local_streaming_status : ℕ → Bytes → Bytes → Option Bytes → Watch → Watch
  refresh_local_streaming_status watched last_chunk_at recopied_at (some e) w =
      let reason = codes "local_streaming watching=" ++ look.print_int watched in
      with_status code_error (reason ++ codes " last_error=" ++ e) w
  refresh_local_streaming_status watched last_chunk_at recopied_at none w =
      let reason = codes "local_streaming watching=" ++ look.print_int watched in
      with_status (if watched == 0 then code_skipped else code_ok)
        (reason
          ++ labelled (codes " last_chunk_at=") last_chunk_at
          ++ labelled (codes " last_defensive_recopy_at=") recopied_at)
        w

  abbrev pub refresh : Watch → Result
  refresh w =
      refresh_local_snapshot look.now look.logs_dir look.ping look.stat
        (record w.sync { locked = look.busy })

  -- The end of a pass without an error.
  unfoldable pub finish_pass : Logs → List Bytes → Bytes → Bytes → Watch → Watch
  finish_pass current gone last_chunk_at recopied_at w =
      refresh_local_streaming_status (length current) last_chunk_at recopied_at none (record w {
        rows =
            mark_local_streaming_disconnected gone
              (persist_local_streaming_checkpoints current last_chunk_at recopied_at w.rows);
      })

  -- `continue` behind an error of the refresh.
  unfoldable pub report_error : Logs → WebActionError → Watch → Watch
  report_error current e w =
      let reported = refresh_local_streaming_status (length current) [] [] (some e.message) w in
      if e.reason == in_progress then w else reported

  -- What the refresh leaves; `chunk_at` is the time of the last chunk where it succeeds.
  unfoldable pub after_refresh :
      Logs → List Bytes → Bytes → Bytes → Option WebActionError → Watch → Watch
  after_refresh current gone chunk_at recopied_at (some e) w = report_error current e w
  after_refresh current gone chunk_at recopied_at none w =
      finish_pass current gone chunk_at recopied_at (record w { local_chunk_at = chunk_at })

  -- A pass over a scan without an error. The flag is the `force` of the refresh that it calls, if it does.
  unfoldable pub pass_over_logs : Logs → Watch → Watch × Option Bool
  pass_over_logs current w =
      let gone = disappeared_from w.local_stream current in
      let seen = record w { local_stream = current } in
      let (sync, e) = refresh w in
      let refreshed = record seen { sync = sync } in
      if local_process_logs_shrank w.local_stream current
      then (after_refresh current gone w.local_chunk_at look.tick e refreshed, some true)
      else if local_process_logs_changed w.local_stream current
      then (after_refresh current gone look.tick [] e refreshed, some false)
      else (finish_pass current gone w.local_chunk_at [] seen, none)

  abbrev pub pass_scanned : Bytes ⊎ Logs → Watch → Watch × Option Bool
  pass_scanned (inl e) w = (refresh_local_streaming_status 0 [] [] (some e) w, none)
  pass_scanned (inr current) w = pass_over_logs current w

  unfoldable pub watch_pass : Watch → Watch × Option Bool
  watch_pass w = pass_scanned (scan_local_process_logs look.matches) w

-- The loop, and the refreshes that it calls.
unfoldable pub run_passes : List Look → Watch → Watch × List (Option Bool)
run_passes [] w = (w, [])
run_passes (look ∷ looks) w =
    let (next, called) = watch_pass look w in
    let (last, calls) = run_passes looks next in (last, called ∷ calls)
