-- ===== src/Tail/File/Errors.antt =====
-- The passes that find something wrong.
use copilot_token_cost.Prelude.{
  ℕ, ◌≡◌, refl, ◌∙◌, false, none, some, List, Bytes, codes, trim_space, bytes_beq, ltb, bytes_eq,
  eq_iff, arith,
}
use copilot_token_cost.Prelude.Maps.{lookup}
use copilot_token_cost.Tail.Store.{TailOffset, no_checkpoint, load_by_source}
use copilot_token_cost.Tail.Store.RoundTrip.{IsKeyed, load-upsert, stored}
use copilot_token_cost.Tail.Files.{
  Fault, ok, failed, FileInfo, Client, Disk, local_sample_hash, local_sample_of,
}
use copilot_token_cost.Tail.File.{
  TrackedTailFile, connected, degrade, transfer, check_copy, record_checkpoint, sync_tracked_file,
}

module _ (client : Client) (digest : Bytes → Bytes) (now : Bytes) where
  stored_degraded :
      (file : TrackedTailFile) (e : Fault)
      → some (
          stored now (record no_checkpoint {
            source = file.source;
            log_file = file.remote_path;
            last_offset = file.offset;
            last_hash = file.last_hash;
            connection_state = codes "degraded";
            last_error = e.text;
          }))
        ≡ some (record no_checkpoint {
          source = file.source;
          log_file = file.remote_path;
          last_offset = file.offset;
          last_hash = trim_space file.last_hash;
          connection_state = codes "degraded";
          last_error = trim_space e.text;
          updated_at = now;
        })
  unfolding stored trim_space bytes_beq
  stored_degraded file e = refl

  -- Where `Stat` fails, the pass returns its error, the disk is as it was, and what is stored for the
  -- file is its offset, its hash and the error: the size, the times and the mtime that an earlier pass
  -- stored are gone.
  pub stat_fails :
      (file : TrackedTailFile) (disk : Disk) (rows : List TailOffset) (e : Fault)
      → client.stat file.remote_path ≡ failed e
      → IsKeyed rows
      → let o = sync_tracked_file client digest now file disk rows in
        (o.error ≡ some e)
        × (o.disk ≡ disk)
        × (lookup file.remote_path (load_by_source file.source o.rows)
            ≡ some (record no_checkpoint {
              source = file.source;
              log_file = file.remote_path;
              last_offset = file.offset;
              last_hash = trim_space file.last_hash;
              connection_state = codes "degraded";
              last_error = trim_space e.text;
              updated_at = now;
            }))
  unfolding sync_tracked_file degrade
  stat_fails file disk rows e h k =
      let cp = record no_checkpoint {
        source = file.source;
        log_file = file.remote_path;
        last_offset = file.offset;
        last_hash = file.last_hash;
        connection_state = codes "degraded";
        last_error = e.text;
      } in
      let source = (eq_iff file.source file.source).1 refl in
      let log_file = (eq_iff file.remote_path file.remote_path).1 refl in
      rw h (
        refl,
        refl,
        (load-upsert file.source file.remote_path now cp rows k).0
            ∙ rw (source, log_file) (stored_degraded file e),
      )

  nothing_to_do :
      (file : TrackedTailFile) (disk : Disk) (n : ℕ)
      → n ≡ file.offset
      → file.full_copy_pending ≡ false
      → transfer client digest now n file disk
        ≡ (disk, ok (record { file = file; disk = disk; wrote = false }))
  unfolding transfer
  nothing_to_do file disk n e p =
      let not_less : ltb n file.offset ≡ false = ground (arith, e) in
      let not_more : ltb file.offset n ≡ false = ground (arith, e) in simp (p, not_less, not_more)

  no_sample :
      (path : Bytes) (disk : Disk)
      → lookup path disk.files ≡ none
      → local_sample_hash digest path disk ≡ none
  unfolding local_sample_hash local_sample_of
  no_sample path disk l = rw l

  -- Where the file is not to be copied again and the remote one has the size of the offset, a local file
  -- that is gone stays gone, and the pass reports no error.
  pub local_gone :
      (file : TrackedTailFile) (disk : Disk) (rows : List TailOffset) (info : FileInfo)
      → client.stat file.remote_path ≡ ok info
      → info.size ≡ file.offset
      → file.full_copy_pending ≡ false
      → lookup file.local_path disk.files ≡ none
      → let o = sync_tracked_file client digest now file disk rows in
        (o.error ≡ none) × (o.disk ≡ disk) × (lookup file.local_path o.disk.files ≡ none)
  unfolding sync_tracked_file check_copy record_checkpoint
  local_gone file disk rows info s n p l =
      let start = connected info file in
      rw (s, nothing_to_do start disk info.size n p)
        (rw (no_sample file.local_path disk l) (refl, refl, l))
