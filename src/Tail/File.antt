-- ===== src/Tail/File.antt =====
-- cmd/codespace-tail-proto/main.go: `syncTrackedFile`, one pass over one log file. The pointer to the
-- file is the record that comes back; messages are left out.
pub mod Mirror
pub mod Digest
pub mod Errors
use copilot_token_cost.Prelude.{
  ℕ, ◌+◌, Bool, true, false, not, ◌&&◌, ◌||◌, Option, none, some, List, [], ◌∷◌, Bytes, codes, ltb,
  nat_beq, ◌==◌, bytes_eq, if◌then◌else◌,
}
use copilot_token_cost.Tail.Store.{TailOffset, no_checkpoint, upsert}
use copilot_token_cost.Tail.Files.{
  Fault, Try, ok, failed, FileInfo, Client, Disk, full_copy, append_delta, local_sample_hash,
  remote_sample_hash,
}

pub record TrackedTailFile : Type 0 where
  pub source : Bytes
  pub remote_path : Bytes
  pub local_path : Bytes
  pub offset : ℕ
  pub full_copy_pending : Bool
  pub last_hash : Bytes
  pub last_mtime : Bytes
  pub last_error : Bytes
  pub last_chunk_at : Bytes
  pub last_full_copy_at : Bytes
  pub last_defensive_recopy_at : Bytes
  pub connection_state : Bytes

-- The variables of the function behind the copy or the append: `wrote` is that bytes came, or that
-- everything was copied.
pub record Copied : Type 0 where
  pub file : TrackedTailFile
  pub disk : Disk
  pub wrote : Bool

-- And behind the samples: `localErr == nil` and what the local sample gave.
pub record Sampled : Type 0 where
  pub file : TrackedTailFile
  pub disk : Disk
  pub wrote : Bool
  pub sample : Option (Bytes × ℕ)

pub record Outcome : Type 0 where
  pub file : TrackedTailFile
  pub disk : Disk
  pub rows : List TailOffset
  pub error : Option Fault

abbrev pub size_of : Option (Bytes × ℕ) → ℕ
size_of none = 0
size_of (some (h, n)) = n

abbrev pub connected : FileInfo → TrackedTailFile → TrackedTailFile
connected info file = record file {
  connection_state = codes "connected";
  last_error = [];
  last_mtime = info.mod_time;
}

module _ (client : Client) (digest : Bytes → Bytes) (now : Bytes) where
  -- `Stat` fails: what is stored has no other field than these.
  unfoldable pub degrade : Fault → TrackedTailFile → Disk → List TailOffset → Outcome
  degrade e file disk rows =
      let degraded = record file { connection_state = codes "degraded"; last_error = e.text } in
      record {
        file = degraded;
        disk = disk;
        rows =
            upsert now
              (record no_checkpoint {
                source = degraded.source;
                log_file = degraded.remote_path;
                last_offset = degraded.offset;
                last_hash = degraded.last_hash;
                connection_state = degraded.connection_state;
                last_error = degraded.last_error;
              })
              rows;
        error = some e;
      }

  abbrev pub full_copied : TrackedTailFile → Disk × Try ℕ → Disk × Try Copied
  full_copied file (disk, failed e) = (disk, failed e)
  full_copied file (disk, ok n) = (
    disk,
    ok (record {
      file = record file { offset = n; full_copy_pending = false; last_full_copy_at = now };
      disk = disk;
      wrote = true;
    }),
  )

  abbrev pub appended : TrackedTailFile → Disk × Try ℕ → Disk × Try Copied
  appended file (disk, failed e) = (disk, failed e)
  appended file (disk, ok n) = (
    disk,
    ok (record { file = record file { offset = file.offset + n }; disk = disk; wrote = ltb 0 n }),
  )

  -- The copy or the append, for a file that is connected.
  unfoldable pub transfer : ℕ → TrackedTailFile → Disk → Disk × Try Copied
  transfer remote_size file disk =
      if file.full_copy_pending || ltb remote_size file.offset
      then full_copied file (full_copy client file.remote_path file.local_path disk)
      else (if ltb file.offset remote_size
          then appended file (append_delta client file.remote_path file.local_path file.offset disk)
          else (disk, ok (record { file = file; disk = disk; wrote = false })))

  -- What the second local sample says, where there is one.
  abbrev pub or_reset : Bytes → ℕ → Option (Bytes × ℕ) → Option (Bytes × ℕ)
  or_reset h n none = some (h, n)
  or_reset h n (some sample) = some sample

  -- The recopy; where it fails, all but the disk stays.
  abbrev pub recopied : Copied → Bytes → ℕ → Disk × Try ℕ → Sampled
  recopied c h n (disk, failed e) = record {
    file = c.file;
    disk = disk;
    wrote = c.wrote;
    sample = some (h, n);
  }
  recopied c h n (disk, ok reset) = record {
    file = record c.file {
      offset = reset;
      last_defensive_recopy_at = now;
      last_full_copy_at = now;
    };
    disk = disk;
    wrote = true;
    sample = or_reset h reset (local_sample_hash digest c.file.local_path disk);
  }

  abbrev pub compare_samples : Copied → Bytes → ℕ → Option Bytes → Sampled
  compare_samples c h n none = record {
    file = c.file;
    disk = c.disk;
    wrote = c.wrote;
    sample = some (h, n);
  }
  compare_samples c h n (some remote) =
      let again = recopied c h n (full_copy client c.file.remote_path c.file.local_path c.disk) in
      if not (h == []) && not (remote == []) && not (h == remote)
      then again
      else record { file = c.file; disk = c.disk; wrote = c.wrote; sample = some (h, n) }

  abbrev pub check_with : Copied → Option (Bytes × ℕ) → Sampled
  check_with c none = record { file = c.file; disk = c.disk; wrote = c.wrote; sample = none }
  check_with c (some (h, n)) =
      compare_samples c h n (remote_sample_hash digest client c.file.remote_path c.file.offset)

  -- The comparison of the samples, and the recopy.
  unfoldable pub check_copy : Copied → Sampled
  check_copy c = check_with c (local_sample_hash digest c.file.local_path c.disk)

  abbrev pub with_sample : TrackedTailFile → Option (Bytes × ℕ) → TrackedTailFile
  with_sample file none = file
  with_sample file (some (h, n)) = record file {
    last_hash = h;
    offset = if nat_beq file.offset 0 then n else file.offset;
  }

  -- The last assignments and the checkpoint.
  unfoldable pub record_checkpoint : List TailOffset → Sampled → Outcome
  record_checkpoint rows s =
      let sampled = with_sample s.file s.sample in
      let file = record sampled {
        last_chunk_at = if s.wrote then now else sampled.last_chunk_at;
      } in
      record {
        file = file;
        disk = s.disk;
        rows =
            upsert now
              (record no_checkpoint {
                source = file.source;
                log_file = file.remote_path;
                last_offset = file.offset;
                last_size = size_of s.sample;
                last_mtime = file.last_mtime;
                last_hash = file.last_hash;
                connection_state = file.connection_state;
                last_error = file.last_error;
                last_chunk_at = file.last_chunk_at;
                last_full_copy_at = file.last_full_copy_at;
                last_defensive_recopy_at = file.last_defensive_recopy_at;
              })
              rows;
        error = none;
      }

  -- A copy that fails ends the pass, with nothing stored.
  abbrev pub settle : TrackedTailFile → List TailOffset → Disk × Try Copied → Outcome
  settle file rows (disk, failed e) = record {
    file = file;
    disk = disk;
    rows = rows;
    error = some e;
  }
  settle file rows (disk, ok c) = record_checkpoint rows (check_copy c)

  abbrev pub sync_stat : Try FileInfo → TrackedTailFile → Disk → List TailOffset → Outcome
  sync_stat (failed e) file disk rows = degrade e file disk rows
  sync_stat (ok info) file disk rows =
      settle (connected info file) rows (transfer info.size (connected info file) disk)

  unfoldable pub sync_tracked_file : TrackedTailFile → Disk → List TailOffset → Outcome
  sync_tracked_file file disk rows = sync_stat (client.stat file.remote_path) file disk rows
