-- ===== src/Examples/Tail.antt =====
-- The theorems of the codespace tail at a remote file of a few bytes.
use copilot_token_cost.Prelude.{
  ◌≡◌, inl, inr, refl, true, false, none, some, List, [], ◌∷◌, ◌++◌, Bytes, codes, bytes_beq,
  trim_space, length, take, drop, if◌then◌else◌, not, ◌&&◌, ◌==◌, bytes_eq, arith,
}
use copilot_token_cost.Prelude.Maps.{Map, lookup, is_some, is_in}
use copilot_token_cost.Prelude.Sorting.{IsSorted}
use copilot_token_cost.Tail.Store.{
  TailCheckpoint, TailOffset, no_checkpoint, upsert, row_of, load_by_source,
}
use copilot_token_cost.Tail.Store.RoundTrip.{IsKeyed, stored, load-upsert}
use copilot_token_cost.Tail.Files.{Fault, ok, failed, Client, Disk}
use copilot_token_cost.Tail.Files.Copies.{IsStable}
use copilot_token_cost.Tail.File.{TrackedTailFile, sync_tracked_file}
use copilot_token_cost.Tail.File.Mirror.{IsReady, IsSynced, sync-IsSynced}
use copilot_token_cost.Tail.File.Digest.{HasNoCollision, sync_small}
use copilot_token_cost.Tail.File.Errors.{stat_fails, local_gone}
use copilot_token_cost.Tail.Session.{
  Session, State, Tick, reconcile_tracked_files, run_tail_session,
}
use copilot_token_cost.Tail.Session.Reconcile.{or_new, reconcile_lem}
use copilot_token_cost.Tail.Session.Follow.{IsFollowing, run_tail_session-IsFollowing}

abbrev source : Bytes
source = codes "codespace:demo"

abbrev remote : Bytes
remote = codes "/home/vscode/.copilot/logs/process-1.log"

abbrev local_file : Bytes
local_file = codes "demo.log"

abbrev now : Bytes
now = codes "2026-02-01T10:00:00Z"

-- A remote side where every file holds `c`.
abbrev holding : Bytes → Client
holding c = record {
  stat = λ path. ok (record { size = length c; mod_time = now });
  read_from = λ path n. ok (record { bytes = drop n c; cut = none });
  read_at = λ path. ok (λ o n. ok (take n (drop o c)));
}

holding-IsStable : (c path : Bytes) → IsStable (holding c) path c
holding-IsStable c path = record {
  info = record { size = length c; mod_time = now };
  stat = refl;
  size = refl;
  read_from = λ n. refl;
}

abbrev no_such_file : Fault
no_such_file = record { text = codes "file does not exist"; is_not_exist = true }

abbrev unreachable : Client
unreachable = record (holding []) { stat = λ path. failed no_such_file }

abbrev mark : Bytes → Bytes
mark b = 33 ∷ b

mark-HasNoCollision : (c : Bytes) → HasNoCollision mark c
mark-HasNoCollision c = record { full = λ a e. cc e; unique = λ a e. cc e }

abbrev disk_of : Map Bytes Bytes → Disk
disk_of files = record { files = files; write_fault = λ path. none; read_fault = λ path. none }

-- The local file holds the first two of the remote bytes.
abbrev half_copied : TrackedTailFile
half_copied = record {
  source = source;
  remote_path = remote;
  local_path = local_file;
  offset = 2;
  full_copy_pending = false;
  last_hash = codes "01";
  last_mtime = [];
  last_error = [];
  last_chunk_at = [];
  last_full_copy_at = [];
  last_defensive_recopy_at = [];
  connection_state = codes "connected";
}

abbrev half_disk : Disk
half_disk = disk_of ((local_file, codes "ab") ∷ [])

half-IsReady : IsReady (codes "abcd") half_copied half_disk
unfolding lookup bytes_beq
half-IsReady =
    inr
      (codes "ab", record { content = refl; offset = refl; settled = refl }, inl (codes "cd", refl))

sync-IsSynced_example :
    IsSynced
      (holding (codes "abcd"))
      mark
      now
      (codes "abcd")
      half_copied
      half_disk
      (sync_tracked_file (holding (codes "abcd")) mark now half_copied half_disk [])
sync-IsSynced_example =
    sync-IsSynced (holding (codes "abcd")) mark now (codes "abcd") half_copied half_disk []
      (holding-IsStable (codes "abcd") remote) refl half-IsReady

-- What stands in the local file is not what the remote file held.
abbrev wrong_disk : Disk
wrong_disk = disk_of ((local_file, codes "xy") ∷ [])

wrong_content : lookup local_file wrong_disk.files ≡ some (codes "xy")
unfolding lookup bytes_beq
wrong_content = refl

sync_small_example :
    IsSynced
      (holding (codes "abcd"))
      mark
      now
      (codes "abcd")
      half_copied
      wrong_disk
      (sync_tracked_file (holding (codes "abcd")) mark now half_copied wrong_disk [])
sync_small_example =
    sync_small (holding (codes "abcd")) mark now (codes "abcd") half_copied wrong_disk []
      (λ o n. ok (take n (drop o (codes "abcd")))) (holding-IsStable (codes "abcd") remote) refl
      refl refl (λ o n. refl) (inr (codes "xy", wrong_content)) (omega arith)
      (mark-HasNoCollision (codes "abcd"))

abbrev earlier : TailCheckpoint
earlier = record no_checkpoint {
  source = source;
  log_file = remote;
  last_offset = 2;
  last_size = 2;
  last_mtime = now;
  last_hash = codes "01";
  connection_state = codes "connected";
}

abbrev earlier_rows : List TailOffset
earlier_rows = row_of now earlier ∷ []

load-upsert_example :
    (lookup remote (load_by_source source (upsert now earlier [])) ≡ (
      if earlier.source == source && earlier.log_file == remote
      then some (stored now earlier)
      else lookup remote (load_by_source source [])))
    × IsKeyed (upsert now earlier [])
load-upsert_example = load-upsert source remote now earlier [] tt

stat_fails_example :
    let o = sync_tracked_file unreachable mark now half_copied half_disk earlier_rows in
    (o.error ≡ some no_such_file)
    × (o.disk ≡ half_disk)
    × (lookup remote (load_by_source source o.rows)
        ≡ some (record no_checkpoint {
          source = source;
          log_file = remote;
          last_offset = 2;
          last_hash = codes "01";
          connection_state = codes "degraded";
          last_error = codes "file does not exist";
          updated_at = now;
        }))
unfolding trim_space
stat_fails_example =
    stat_fails unreachable mark now half_copied half_disk earlier_rows no_such_file refl (refl, tt)

local_gone_example :
    let o = sync_tracked_file (holding (codes "ab")) mark now half_copied (disk_of []) [] in
    (o.error ≡ none) × (o.disk ≡ disk_of []) × (lookup local_file o.disk.files ≡ none)
unfolding lookup bytes_beq
local_gone_example =
    local_gone (holding (codes "ab")) mark now half_copied (disk_of []) []
      (record { size = 2; mod_time = now }) refl refl refl refl

abbrev one_log : Session
one_log = record {
  source = source;
  codespace = codes "demo";
  local_path = local_file;
  multi_file = false;
  remote_file = remote;
  checkpoints = [];
  join_path = λ dir name. dir ++ 47 ∷ name;
}

abbrev known_files : Map Bytes TrackedTailFile
known_files = (remote, half_copied) ∷ []

abbrev listed_files : List Bytes
listed_files = codes "b" ∷ codes "a" ∷ []

reconcile_example :
    let r = reconcile_tracked_files one_log listed_files known_files in
    ((path : Bytes)
      → (lookup path r.0 ≡ (
          if is_in path listed_files
          then some (or_new one_log path (lookup path known_files))
          else none))
        × (is_in path r.1 ≡ (is_in path listed_files && not (is_some (lookup path known_files))))
        × (is_in path r.2 ≡ (not (is_in path listed_files) && is_some (lookup path known_files))))
    × IsSorted r.1
    × IsSorted r.2
reconcile_example = reconcile_lem one_log listed_files known_files

abbrev tick : Bytes → Tick
tick c = record { client = holding c; digest = mark; now = now; entries = ok [] }

abbrev start : State
start = record { tracked = []; disk = disk_of []; rows = [] }

-- The file grows from two bytes to four, then is written anew with one.
abbrev later_ticks : List (Tick × Bytes)
later_ticks = (tick (codes "abcd"), codes "abcd") ∷ (tick (codes "z"), codes "z") ∷ []

run_tail_session-IsFollowing_example :
    let r =
      run_tail_session one_log
        (tick (codes "ab") ∷ tick (codes "abcd") ∷ tick (codes "z") ∷ [])
        true
        start in
    (r.1 ≡ none) × IsFollowing one_log (codes "z") r.0
run_tail_session-IsFollowing_example =
    run_tail_session-IsFollowing one_log (tick (codes "ab")) (codes "ab") later_ticks true start
      refl refl refl
      (
        holding-IsStable (codes "ab") remote,
        (
          tt,
          (
            holding-IsStable (codes "abcd") remote,
            (
              inl (codes "cd", refl),
              (holding-IsStable (codes "z") remote, (inr (omega arith), tt)),
            ),
          ),
        ),
      )
