-- ===== src/Tail/File/Digest.antt =====
-- What the digest adds: a file within the sample window is brought up to date whatever stood there.
use copilot_token_cost.Prelude.{
  ℕ, ◌≤◌, ◌≡◌, ◌≢◌, ◌⊎◌, inl, inr, refl, ap, sym, subst, ◌∙◌, true, false, not, ◌&&◌, ◌||◌, none,
  some, List, [], ◌++◌, Bytes, length, length-drop, drop, ltb, ◌==◌, bytes_eq, eq_iff, arith,
  Bool-cases,
}
use copilot_token_cost.Prelude.Maps.{lookup}
use copilot_token_cost.Tail.Store.{TailOffset}
use copilot_token_cost.Tail.Files.{
  Try, ok, failed, Client, Disk, full_copy, append_delta, remote_sample_hash, sample_window,
}
use copilot_token_cost.Tail.Files.Copies.{
  IsStable, full_copy_lem, append_delta_lem, lookup-with_file,
}
use copilot_token_cost.Tail.Files.Samples.{
  sampled, sampled_small, sampled_self, Reads, local_sample_lem, remote_sample_lem,
}
use copilot_token_cost.Tail.File.{
  TrackedTailFile, Copied, connected, full_copied, appended, transfer, compare_samples, check_copy,
  settle, sync_tracked_file,
}
use copilot_token_cost.Tail.File.Mirror.{
  IsSynced, IsKept, recopied-IsKept, record_checkpoint-IsSynced, of_connected,
}

-- There is a local file, of whatever content, and the offset is at the end of the remote one.
pub record IsTransferred (n : ℕ) (file : TrackedTailFile) (disk : Disk) (k : Copied) : Type 0 where
  pub held : Bytes
  pub content : lookup k.file.local_path k.disk.files ≡ some held
  pub offset : k.file.offset ≡ n
  pub settled : k.file.full_copy_pending ≡ false
  pub remote_path : k.file.remote_path ≡ file.remote_path
  pub local_path : k.file.local_path ≡ file.local_path
  pub write_fault : k.disk.write_fault ≡ disk.write_fault
  pub read_fault : k.disk.read_fault ≡ disk.read_fault

abbrev HasTransferred : ℕ → TrackedTailFile → Disk → Disk × Try Copied → Type 0
HasTransferred n file disk (d, failed e) = ⊥
HasTransferred n file disk (d, ok k) = IsTransferred n file disk k

-- The digest is never the empty text, and no other bytes than those of the file have its digest.
pub record HasNoCollision (digest : Bytes → Bytes) (c : Bytes) : Type 0 where
  pub full : (a : Bytes) → digest a ≢ []
  pub unique : (a : Bytes) → digest a ≡ digest c → a ≡ c

digests_agree :
    (h r : Bytes)
    → (not (h == []) && not (r == []) && not (h == r)) ≡ false
    → h ≢ []
    → r ≢ []
    → h ≡ r
digests_agree h r e n m = ground (arith, eq_iff h [], eq_iff r [], eq_iff h r)

module _ (client : Client) (digest : Bytes → Bytes) (now : Bytes) (c : Bytes) where
  full_copied-HasTransferred :
      (file : TrackedTailFile) (disk : Disk)
      → IsStable client file.remote_path c
      → disk.write_fault file.local_path ≡ none
      → HasTransferred (length c) file disk (
          full_copied client digest now file
            (full_copy client file.remote_path file.local_path disk))
  full_copied-HasTransferred file disk s w =
      rw (full_copy_lem client file.remote_path file.local_path disk c s w) (record {
        held = c;
        content = lookup-with_file file.local_path c disk;
        offset = refl;
        settled = refl;
        remote_path = refl;
        local_path = refl;
        write_fault = refl;
        read_fault = refl;
      })

  appended-HasTransferred :
      (file : TrackedTailFile) (disk : Disk) (old : Bytes)
      → IsStable client file.remote_path c
      → disk.write_fault file.local_path ≡ none
      → lookup file.local_path disk.files ≡ some old
      → file.full_copy_pending ≡ false
      → file.offset ≤ length c
      → HasTransferred (length c) file disk (
          appended client digest now file
            (append_delta client file.remote_path file.local_path file.offset disk))
  appended-HasTransferred file disk old s w l p n =
      rw (append_delta_lem client file.remote_path file.local_path disk c file.offset old s w l)
        (record {
          held = old ++ drop file.offset c;
          content = lookup-with_file file.local_path (old ++ drop file.offset c) disk;
          offset = omega (arith, n, length-drop file.offset c);
          settled = p;
          remote_path = refl;
          local_path = refl;
          write_fault = refl;
          read_fault = refl;
        })

  transfer-HasTransferred :
      (file : TrackedTailFile) (disk : Disk)
      → IsStable client file.remote_path c
      → disk.write_fault file.local_path ≡ none
      → (file.full_copy_pending ≡ true)
        ⊎ ((old : Bytes) × (lookup file.local_path disk.files ≡ some old))
      → HasTransferred (length c) file disk (transfer client digest now (length c) file disk)
  unfolding transfer
  transfer-HasTransferred file disk s w (inl pending) =
      simp pending (full_copied-HasTransferred file disk s w)
  transfer-HasTransferred file disk s w (inr (old, l)) =
      elim (Bool-cases (file.full_copy_pending || ltb (length c) file.offset)) [
        | inl all ↦ simp all (full_copied-HasTransferred file disk s w)
        | inr part ↦
            let p : file.full_copy_pending ≡ false = ground (arith, part) in
            let n : file.offset ≤ length c = ground (arith, part) in
            elim (Bool-cases (ltb file.offset (length c))) [
              | inl more ↦ simp (part, more) (appended-HasTransferred file disk old s w l p n)
              | inr same ↦
                  simp (part, same)
                    (record {
                      held = old;
                      content = l;
                      offset = ground (arith, n, same);
                      settled = p;
                      remote_path = refl;
                      local_path = refl;
                      write_fault = refl;
                      read_fault = refl;
                    })
            ]
      ]

  -- The samples agree only where the local file is the remote one; otherwise it is copied.
  compared-IsKept :
      (k : Copied) (held : Bytes)
      → IsStable client k.file.remote_path c
      → k.disk.write_fault k.file.local_path ≡ none
      → lookup k.file.local_path k.disk.files ≡ some held
      → k.file.offset ≡ length c
      → k.file.full_copy_pending ≡ false
      → length c ≤ sample_window
      → HasNoCollision digest c
      → IsKept client digest now c k (
          compare_samples client digest now k
            (digest (sampled held))
            (length held)
            (some (digest (sampled c))))
  compared-IsKept k held s w l o p small d =
      let h = digest (sampled held) in
      let remote = digest (sampled c) in
      elim (Bool-cases (not (h == []) && not (remote == []) && not (h == remote))) [
        | inl differ ↦ rw differ (recopied-IsKept client digest now c k h (length held) s w p)
        | inr same ↦
            let agree : digest (sampled held) ≡ digest c =
              digests_agree h remote same (d.full (sampled held)) (d.full (sampled c))
              ∙ ap digest (sampled_self c small) in
            let held_c : held ≡ c = sampled_small held c small (d.unique (sampled held) agree) in
            rw same (
              record { content = l ∙ ap some held_c; offset = o; settled = p },
              record { remote_path = refl; local_path = refl; write_fault = refl },
              ap length held_c,
            )
      ]

  checked-IsKept :
      (file : TrackedTailFile) (disk : Disk) (k : Copied) (read_at : ℕ → ℕ → Try Bytes)
      → IsStable client file.remote_path c
      → disk.write_fault file.local_path ≡ none
      → disk.read_fault file.local_path ≡ none
      → client.read_at file.remote_path ≡ ok read_at
      → Reads read_at c
      → IsTransferred (length c) file disk k
      → length c ≤ sample_window
      → HasNoCollision digest c
      → IsKept client digest now c k (check_copy client digest now k)
  unfolding check_copy
  checked-IsKept file disk k read_at s w r opened reads t small d =
      let s' : IsStable client k.file.remote_path c =
        subst (λ p. IsStable client p c) (sym t.remote_path) s in
      let w' : k.disk.write_fault k.file.local_path ≡ none = rw (t.write_fault, t.local_path) w in
      let r' : k.disk.read_fault k.file.local_path ≡ none = rw (t.read_fault, t.local_path) r in
      let opened' : client.read_at k.file.remote_path ≡ ok read_at = rw t.remote_path opened in
      let here = local_sample_lem digest k.file.local_path t.held k.disk t.content r' in
      let there : remote_sample_hash digest client k.file.remote_path k.file.offset
          ≡ some (digest (sampled c)) =
        ap (remote_sample_hash digest client k.file.remote_path) t.offset
        ∙ remote_sample_lem digest client k.file.remote_path c read_at opened' reads in
      rw here (rw there (compared-IsKept k t.held s' w' t.content t.offset t.settled small d))

  settled-IsSynced :
      (file : TrackedTailFile) (disk : Disk) (rows : List TailOffset) (t : Disk × Try Copied)
      (read_at : ℕ → ℕ → Try Bytes)
      → IsStable client file.remote_path c
      → disk.write_fault file.local_path ≡ none
      → disk.read_fault file.local_path ≡ none
      → client.read_at file.remote_path ≡ ok read_at
      → Reads read_at c
      → HasTransferred (length c) file disk t
      → length c ≤ sample_window
      → HasNoCollision digest c
      → IsSynced client digest now c file disk (settle client digest now file rows t)
  settled-IsSynced file disk rows (e, failed f) read_at s w r opened reads h small d = absurd h
  settled-IsSynced file disk rows (e, ok k) read_at s w r opened reads h small d =
      let (m, same, size) = checked-IsKept file disk k read_at s w r opened reads h small d in
      let checked = check_copy client digest now k in
      record_checkpoint-IsSynced client digest now c file disk rows checked
        (record {
          remote_path = same.remote_path ∙ h.remote_path;
          local_path = same.local_path ∙ h.local_path;
          write_fault = same.write_fault ∙ h.write_fault;
        })
        m size

  -- Where the remote file is stable and within the sample window, its digest is that of no other bytes,
  -- and nothing fails: a pass ends without an error and leaves a copy of the remote file, whatever the
  -- local file held and whatever the offset was.
  pub sync_small :
      (file : TrackedTailFile) (disk : Disk) (rows : List TailOffset) (read_at : ℕ → ℕ → Try Bytes)
      → IsStable client file.remote_path c
      → disk.write_fault file.local_path ≡ none
      → disk.read_fault file.local_path ≡ none
      → client.read_at file.remote_path ≡ ok read_at
      → Reads read_at c
      → (file.full_copy_pending ≡ true)
        ⊎ ((old : Bytes) × (lookup file.local_path disk.files ≡ some old))
      → length c ≤ sample_window
      → HasNoCollision digest c
      → IsSynced client digest now c file disk (sync_tracked_file client digest now file disk rows)
  unfolding sync_tracked_file
  sync_small file disk rows read_at s w r opened reads start small d =
      let f = connected s.info file in
      rw (s.stat, s.size)
        (of_connected client digest now c s.info file disk _ (
          settled-IsSynced f disk rows _ read_at s w r opened reads
            (transfer-HasTransferred f disk s w start) small d))
