-- ===== src/Tail/File/Mirror.antt =====
-- A pass brings the local file up to the remote one.
use copilot_token_cost.Prelude.{
  ℕ, ◌+◌, ◌<◌, ◌≡◌, ◌⊎◌, inl, inr, refl, ap, sym, subst, ◌∙◌, true, false, not, ◌&&◌, Option, none,
  some, List, [], ◌∷◌, ◌++◌, Bytes, length, append-nil, length-append, length-drop, drop,
  drop-append, ltb, lt→ltb, ◌==◌, bytes_eq, arith, Bool-cases,
}
use copilot_token_cost.Prelude.Maps.{lookup}
use copilot_token_cost.Tail.Store.{TailOffset}
use copilot_token_cost.Tail.Files.{
  Try, ok, failed, FileInfo, Client, Disk, full_copy, append_delta, local_sample_hash,
  remote_sample_hash,
}
use copilot_token_cost.Tail.Files.Copies.{
  IsStable, with_file, full_copy_lem, append_delta_lem, lookup-with_file, HasSize,
  local_sample_hash-HasSize,
}
use copilot_token_cost.Tail.File.{
  TrackedTailFile, Copied, Sampled, Outcome, connected, full_copied, appended, transfer, or_reset,
  recopied, compare_samples, check_with, check_copy, with_sample, record_checkpoint, settle,
  sync_tracked_file,
}

-- The local file is a copy of `c`, to its end.
pub record IsMirror (c : Bytes) (file : TrackedTailFile) (disk : Disk) : Type 0 where
  pub content : lookup file.local_path disk.files ≡ some c
  pub offset : file.offset ≡ length c
  pub settled : file.full_copy_pending ≡ false

-- The same paths, and a disk that can still be written.
pub record IsSame (file file' : TrackedTailFile) (disk disk' : Disk) : Type 0 where
  pub remote_path : file'.remote_path ≡ file.remote_path
  pub local_path : file'.local_path ≡ file.local_path
  pub write_fault : disk'.write_fault ≡ disk.write_fault

-- What a pass may start from: everything is to be copied, or the local file is a copy of what the
-- remote one was, and that has grown at its end, or has become shorter.
abbrev pub IsReady : Bytes → TrackedTailFile → Disk → Type 0
IsReady c file disk =
    (file.full_copy_pending ≡ true)
    ⊎ ((old : Bytes) × IsMirror old file disk
        × (((d : Bytes) × (c ≡ old ++ d)) ⊎ (length c < length old)))

empty : (d : Bytes) → length d ≡ 0 → d ≡ []
empty [] h = refl
empty (b ∷ d) h = absurd (omega (arith, h))

abbrev HasMirror : Bytes → TrackedTailFile → Disk → Disk × Try Copied → Type 0
HasMirror c file disk (d, failed e) = ⊥
HasMirror c file disk (d, ok k) = IsMirror c k.file k.disk × IsSame file k.file disk k.disk

module _ (client : Client) (digest : Bytes → Bytes) (now : Bytes) (c : Bytes) where
  full_copied-HasMirror :
      (file : TrackedTailFile) (disk : Disk)
      → IsStable client file.remote_path c
      → disk.write_fault file.local_path ≡ none
      → HasMirror c file disk (
          full_copied client digest now file
            (full_copy client file.remote_path file.local_path disk))
  full_copied-HasMirror file disk s w =
      rw (full_copy_lem client file.remote_path file.local_path disk c s w) (
        record { content = lookup-with_file file.local_path c disk; offset = refl; settled = refl },
        record { remote_path = refl; local_path = refl; write_fault = refl },
      )

  appended-HasMirror :
      (file : TrackedTailFile) (disk : Disk) (old d : Bytes)
      → IsStable client file.remote_path c
      → disk.write_fault file.local_path ≡ none
      → IsMirror old file disk
      → c ≡ old ++ d
      → HasMirror c file disk (
          appended client digest now file
            (append_delta client file.remote_path file.local_path file.offset disk))
  appended-HasMirror file disk old d s w m e =
      let rest : drop file.offset c ≡ d = rw (m.offset, e) (drop-append old d) in
      let joined : old ++ drop file.offset c ≡ c = ap (λ t. old ++ t) rest ∙ sym e in
      rw
        (append_delta_lem client file.remote_path file.local_path disk c file.offset old s w
          m.content)
        (
          record {
            content = lookup-with_file file.local_path _ disk ∙ ap some joined;
            offset =
                omega
                  (arith, m.offset, length-drop file.offset c, ap length e, length-append old d);
            settled = m.settled;
          },
          record { remote_path = refl; local_path = refl; write_fault = refl },
        )

  transfer-HasMirror :
      (file : TrackedTailFile) (disk : Disk)
      → IsStable client file.remote_path c
      → disk.write_fault file.local_path ≡ none
      → IsReady c file disk
      → HasMirror c file disk (transfer client digest now (length c) file disk)
  unfolding transfer
  transfer-HasMirror file disk s w (inl pending) =
      simp pending (full_copied-HasMirror file disk s w)
  transfer-HasMirror file disk s w (inr (old, m, inr shorter)) =
      let gone : ltb (length c) file.offset ≡ true =
        lt→ltb _ _ (omega (arith, m.offset, shorter)) in
      simp (m.settled, gone) (full_copied-HasMirror file disk s w)
  transfer-HasMirror file disk s w (inr (old, m, inl (d, e))) =
      let size : length c ≡ file.offset + length d =
        omega (arith, m.offset, ap length e, length-append old d) in
      let whole : ltb (length c) file.offset ≡ false = ground (arith, size) in
      elim (Bool-cases (ltb file.offset (length c))) [
        | inl more ↦ simp (m.settled, whole, more) (appended-HasMirror file disk old d s w m e)
        | inr same ↦
            let nothing : d ≡ [] = empty d (ground (arith, size, same)) in
            let all : c ≡ old = e ∙ ap (λ t. old ++ t) nothing ∙ append-nil old in
            simp (m.settled, whole, same)
              (
                subst (λ x. IsMirror x file disk) (sym all) m,
                record { remote_path = refl; local_path = refl; write_fault = refl },
              )
      ]

  -- Where the local file is a copy already, the comparison of the samples leaves one: it copies the
  -- same bytes again or nothing.
  abbrev pub IsKept : Copied → Sampled → Type 0
  IsKept k r =
      IsMirror c r.file r.disk × IsSame k.file r.file k.disk r.disk × HasSize (length c) r.sample

  reset_size :
      (h : Bytes) (n : ℕ) (o : Option (Bytes × ℕ))
      → HasSize n o
      → HasSize n (or_reset client digest now h n o)
  reset_size h n none k = refl
  reset_size h n (some sample) k = k

  pub recopied-IsKept :
      (k : Copied) (h : Bytes) (n : ℕ)
      → IsStable client k.file.remote_path c
      → k.disk.write_fault k.file.local_path ≡ none
      → k.file.full_copy_pending ≡ false
      → IsKept k (
          recopied client digest now k h n
            (full_copy client k.file.remote_path k.file.local_path k.disk))
  recopied-IsKept k h n s w settled =
      let written = with_file k.file.local_path c k.disk in
      rw (full_copy_lem client k.file.remote_path k.file.local_path k.disk c s w) (
        record {
          content = lookup-with_file k.file.local_path c k.disk;
          offset = refl;
          settled = settled;
        },
        record { remote_path = refl; local_path = refl; write_fault = refl },
        reset_size h (length c) (local_sample_hash digest k.file.local_path written) (
            local_sample_hash-HasSize digest k.file.local_path c written
              (lookup-with_file k.file.local_path c k.disk)),
      )

  compare_samples-IsKept :
      (k : Copied) (h : Bytes) (n : ℕ) (remote : Option Bytes)
      → IsStable client k.file.remote_path c
      → k.disk.write_fault k.file.local_path ≡ none
      → IsMirror c k.file k.disk
      → n ≡ length c
      → IsKept k (compare_samples client digest now k h n remote)
  compare_samples-IsKept k h n none s w m e =
      (m, record { remote_path = refl; local_path = refl; write_fault = refl }, e)
  compare_samples-IsKept k h n (some remote) s w m e =
      elim (Bool-cases (not (h == []) && not (remote == []) && not (h == remote))) [
        | inl differ ↦ rw differ (recopied-IsKept k h n s w m.settled)
        | inr same ↦
            rw same (m, record { remote_path = refl; local_path = refl; write_fault = refl }, e)
      ]

  check_with-IsKept :
      (k : Copied) (o : Option (Bytes × ℕ))
      → IsStable client k.file.remote_path c
      → k.disk.write_fault k.file.local_path ≡ none
      → IsMirror c k.file k.disk
      → HasSize (length c) o
      → IsKept k (check_with client digest now k o)
  check_with-IsKept k none s w m e =
      (m, record { remote_path = refl; local_path = refl; write_fault = refl }, tt)
  check_with-IsKept k (some (h, n)) s w m e =
      compare_samples-IsKept k h n
        (remote_sample_hash digest client k.file.remote_path k.file.offset) s w m e

  -- How a pass ends well.
  pub record IsSynced (file : TrackedTailFile) (disk : Disk) (o : Outcome) : Type 0 where
    pub no_error : o.error ≡ none
    pub mirror : IsMirror c o.file o.disk
    pub same : IsSame file o.file disk o.disk

  with_sample-IsMirror :
      (file : TrackedTailFile) (disk : Disk) (o : Option (Bytes × ℕ))
      → IsMirror c file disk
      → HasSize (length c) o
      → IsMirror c (with_sample client digest now file o) disk
  with_sample-IsMirror file disk none m e = m
  with_sample-IsMirror file disk (some (h, n)) m e = record {
    content = m.content;
    offset = ground (arith, m.offset, e);
    settled = m.settled;
  }

  with_sample-IsSame :
      (file : TrackedTailFile) (disk : Disk) (o : Option (Bytes × ℕ))
      → IsSame file (with_sample client digest now file o) disk disk
  with_sample-IsSame file disk none = record {
    remote_path = refl;
    local_path = refl;
    write_fault = refl;
  }
  with_sample-IsSame file disk (some (h, n)) = record {
    remote_path = refl;
    local_path = refl;
    write_fault = refl;
  }

  IsSame-trans :
      (a b d : TrackedTailFile) (p q r : Disk) → IsSame a b p q → IsSame b d q r → IsSame a d p r
  IsSame-trans a b d p q r h k = record {
    remote_path = k.remote_path ∙ h.remote_path;
    local_path = k.local_path ∙ h.local_path;
    write_fault = k.write_fault ∙ h.write_fault;
  }

  pub record_checkpoint-IsSynced :
      (file : TrackedTailFile) (disk : Disk) (rows : List TailOffset) (s : Sampled)
      → IsSame file s.file disk s.disk
      → IsMirror c s.file s.disk
      → HasSize (length c) s.sample
      → IsSynced file disk (record_checkpoint client digest now rows s)
  unfolding record_checkpoint
  record_checkpoint-IsSynced file disk rows s same m e =
      let kept = with_sample-IsMirror s.file s.disk s.sample m e in
      let all =
        IsSame-trans file s.file (with_sample client digest now s.file s.sample) disk s.disk s.disk
          same (with_sample-IsSame s.file s.disk s.sample) in
      record {
        no_error = refl;
        mirror = record { content = kept.content; offset = kept.offset; settled = kept.settled };
        same = record {
          remote_path = all.remote_path;
          local_path = all.local_path;
          write_fault = all.write_fault;
        };
      }

  settle-IsSynced :
      (file : TrackedTailFile) (disk : Disk) (rows : List TailOffset) (t : Disk × Try Copied)
      → IsStable client file.remote_path c
      → disk.write_fault file.local_path ≡ none
      → HasMirror c file disk t
      → IsSynced file disk (settle client digest now file rows t)
  unfolding check_copy
  settle-IsSynced file disk rows (d, failed e) s w h = absurd h
  settle-IsSynced file disk rows (d, ok k) s w (m, same) =
      let s' : IsStable client k.file.remote_path c =
        subst (λ p. IsStable client p c) (sym same.remote_path) s in
      let w' : k.disk.write_fault k.file.local_path ≡ none =
        rw (same.write_fault, same.local_path) w in
      let sample = local_sample_hash digest k.file.local_path k.disk in
      let (m', same', e) =
        check_with-IsKept k sample s' w' m
          (local_sample_hash-HasSize digest k.file.local_path c k.disk m.content) in
      let r = check_with client digest now k sample in
      record_checkpoint-IsSynced file disk rows r
        (IsSame-trans file k.file r.file disk k.disk r.disk same same') m' e

  connected-IsReady :
      (info : FileInfo) (file : TrackedTailFile) (disk : Disk)
      → IsReady c file disk
      → IsReady c (connected info file) disk
  connected-IsReady info file disk (inl pending) = inl pending
  connected-IsReady info file disk (inr (old, m, grown)) =
      inr (old, record { content = m.content; offset = m.offset; settled = m.settled }, grown)

  pub of_connected :
      (info : FileInfo) (file : TrackedTailFile) (disk : Disk) (o : Outcome)
      → IsSynced (connected info file) disk o
      → IsSynced file disk o
  of_connected info file disk o h = record {
    no_error = h.no_error;
    mirror = h.mirror;
    same = record {
      remote_path = h.same.remote_path;
      local_path = h.same.local_path;
      write_fault = h.same.write_fault;
    };
  }

  -- Where the remote file is stable and the local one can be written: a pass over a file that is to be
  -- copied, or whose local file is what the remote one was before it grew at its end or got shorter,
  -- ends without an error and leaves a copy of the whole remote file, whatever the digest.
  pub sync-IsSynced :
      (file : TrackedTailFile) (disk : Disk) (rows : List TailOffset)
      → IsStable client file.remote_path c
      → disk.write_fault file.local_path ≡ none
      → IsReady c file disk
      → IsSynced file disk (sync_tracked_file client digest now file disk rows)
  unfolding sync_tracked_file
  sync-IsSynced file disk rows s w r =
      let start = connected s.info file in
      let copied = transfer-HasMirror start disk s w (connected-IsReady s.info file disk r) in
      rw (s.stat, s.size)
        (of_connected s.info file disk _ (settle-IsSynced start disk rows _ s w copied))
