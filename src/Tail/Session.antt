-- ===== src/Tail/Session.antt =====
-- cmd/codespace-tail-proto/main.go: `reconcileTrackedFiles` and `runTailSession`. The map of tracked
-- files is an association list; what the remote side does in a tick is an argument.
pub mod Reconcile
pub mod Follow
use copilot_token_cost.Prelude.{
  ℕ, Bool, true, false, not, ◌&&◌, ◌||◌, Option, none, some, List, [], ◌∷◌, ◌++◌, Bytes, codes, any,
  keep, map, ◌==◌, bytes_eq, if◌then◌else◌,
}
use copilot_token_cost.Prelude.Maps.{Map, lookup, insert, delete, is_some, keys}
use copilot_token_cost.Prelude.Sorting.{sort_strings}
use copilot_token_cost.Tail.Store.{TailCheckpoint, TailOffset, no_checkpoint, mark_disconnected}
use copilot_token_cost.Tail.Target.{
  DirEntry, list_remote_process_logs, derive_local_path_for_remote,
}
use copilot_token_cost.Tail.Files.{Fault, Try, ok, failed, Client, Disk}
use copilot_token_cost.Tail.File.{TrackedTailFile, Outcome, sync_tracked_file}

-- The arguments that stay the same: `join_path` is `filepath.Join`.
pub record Session : Type 0 where
  pub source : Bytes
  pub codespace : Bytes
  pub local_path : Bytes
  pub multi_file : Bool
  pub remote_file : Bytes
  pub checkpoints : Map Bytes TailCheckpoint
  pub join_path : Bytes → Bytes → Bytes

abbrev pub or_blank : Option TailCheckpoint → TailCheckpoint
or_blank none = no_checkpoint
or_blank (some cp) = cp

module _ (s : Session) where
  -- A file that is discovered: everything of it is to be copied.
  unfoldable pub tracked_new : Bytes → TrackedTailFile
  tracked_new remote_path =
      let cp = or_blank (lookup remote_path s.checkpoints) in
      record {
        source = s.source;
        remote_path = remote_path;
        local_path =
            derive_local_path_for_remote s.join_path s.local_path s.codespace remote_path
              s.multi_file;
        offset = cp.last_offset;
        full_copy_pending = true;
        last_hash = cp.last_hash;
        last_mtime = cp.last_mtime;
        last_error = cp.last_error;
        last_chunk_at = cp.last_chunk_at;
        last_full_copy_at = cp.last_full_copy_at;
        last_defensive_recopy_at = cp.last_defensive_recopy_at;
        connection_state = cp.connection_state;
      }

  -- The first loop: the map, and `added` in the order of discovery.
  unfoldable pub add_discovered :
      List Bytes → Map Bytes TrackedTailFile → Map Bytes TrackedTailFile × List Bytes
  add_discovered [] tracked = (tracked, [])
  add_discovered (path ∷ paths) tracked =
      let known = add_discovered paths tracked in
      let (more, added) = add_discovered paths (insert path (tracked_new path) tracked) in
      if is_some (lookup path tracked) then known else (more, path ∷ added)

  -- The second loop, over the map; what it deletes it has passed.
  unfoldable pub drop_unseen :
      List Bytes → Map Bytes TrackedTailFile → Map Bytes TrackedTailFile × List Bytes
  drop_unseen discovered tracked =
      let seen = λ (path : Bytes). any (λ d. d == path) discovered in
      (keep (λ p. seen p.0) tracked, keep (λ path. not (seen path)) (keys tracked))

  unfoldable pub reconcile_tracked_files :
      List Bytes → Map Bytes TrackedTailFile → Map Bytes TrackedTailFile × List Bytes × List Bytes
  reconcile_tracked_files discovered tracked =
      let (grown, added) = add_discovered discovered tracked in
      let (left, removed) = drop_unseen discovered grown in
      (left, sort_strings added, sort_strings removed)

-- The state that the session changes.
pub record State : Type 0 where
  pub tracked : Map Bytes TrackedTailFile
  pub disk : Disk
  pub rows : List TailOffset

-- A tick: the client, the digest, the time of the clock, and what `ReadDir` gives.
pub record Tick : Type 0 where
  pub client : Client
  pub digest : Bytes → Bytes
  pub now : Bytes
  pub entries : Try (List DirEntry)

abbrev pub file_disappeared : Bytes
file_disappeared = codes "file_disappeared"

abbrev pub pending : TrackedTailFile → TrackedTailFile
pending file = record file { full_copy_pending = true }

module _ (s : Session) (t : Tick) where
  unfoldable pub mark_removed : List Bytes → List TailOffset → List TailOffset
  mark_removed [] rows = rows
  mark_removed (path ∷ paths) rows =
      mark_removed paths (mark_disconnected t.now s.source path file_disappeared rows)

  -- What a pass over one file leaves, and the error that ends the loop, if it does.
  abbrev pub after_pass : Bytes → State → Outcome → Option Fault → State × Option Fault
  after_pass path st o none =
      (record { tracked = insert path o.file st.tracked; disk = o.disk; rows = o.rows }, none)
  after_pass path st o (some e) =
      if e.is_not_exist && s.multi_file
      then (
        record {
          tracked = delete path st.tracked;
          disk = o.disk;
          rows = mark_disconnected t.now s.source path file_disappeared o.rows;
        },
        none,
      )
      else (
        record { tracked = insert path o.file st.tracked; disk = o.disk; rows = o.rows },
        some e,
      )

  abbrev pub pass_over : Bytes → State → Option TrackedTailFile → State × Option Fault
  pass_over path st none = (st, none)
  pass_over path st (some file) =
      let o = sync_tracked_file t.client t.digest t.now file st.disk st.rows in
      after_pass path st o o.error

  -- The loop over the sorted keys, from what the pass before left.
  unfoldable pub sync_keys : List Bytes → State × Option Fault → State × Option Fault
  sync_keys [] r = r
  sync_keys (path ∷ paths) (st, some e) = (st, some e)
  sync_keys (path ∷ paths) (st, none) = sync_keys paths (pass_over path st (lookup path st.tracked))

  -- `syncOnce` behind the discovery.
  unfoldable pub sync_discovered : Bool → List Bytes → State → State × Option Fault
  sync_discovered force_full_copy discovered st =
      let (tracked, added, removed) = reconcile_tracked_files s discovered st.tracked in
      let forced = if force_full_copy then map (λ p. (p.0, pending p.1)) tracked else tracked in
      sync_keys (sort_strings (keys forced))
        (record { tracked = forced; disk = st.disk; rows = mark_removed removed st.rows }, none)

  -- The error of a directory without logs; its text is not modelled.
  abbrev pub no_logs : Fault
  no_logs = record { text = []; is_not_exist = false }

  abbrev pub sync_found : Bool → State → Option (List Bytes) → State × Option Fault
  sync_found force_full_copy st none = (st, some no_logs)
  sync_found force_full_copy st (some paths) = sync_discovered force_full_copy paths st

  abbrev pub sync_listed : Bool → State → Try (List DirEntry) → State × Option Fault
  sync_listed force_full_copy st (failed e) = (st, some e)
  sync_listed force_full_copy st (ok entries) =
      sync_found force_full_copy st (list_remote_process_logs entries)

  unfoldable pub sync_once : Bool → State → State × Option Fault
  sync_once force_full_copy st =
      if s.multi_file
      then sync_listed force_full_copy st t.entries
      else sync_discovered force_full_copy (s.remote_file ∷ []) st

-- The ticks until the end of the session, the first at once; `force_full_copy` is spent by the first
-- tick that gets as far as the files.
unfoldable pub run_ticks : Session → List Tick → Bool → State × Option Fault → State × Option Fault
run_ticks s [] force_full_copy r = r
run_ticks s (t ∷ ticks) force_full_copy (st, some e) = (st, some e)
run_ticks s (t ∷ ticks) force_full_copy (st, none) =
    run_ticks s ticks false (sync_once s t force_full_copy st)

unfoldable pub run_tail_session : Session → List Tick → Bool → State → State × Option Fault
run_tail_session s ticks force_full_copy st = run_ticks s ticks force_full_copy (st, none)
