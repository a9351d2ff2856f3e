-- ===== src/Tail/Session/Follow.antt =====
-- A session on one file, from tick to tick.
use copilot_token_cost.Prelude.{
  ◌<◌, ◌≡◌, ◌⊎◌, inl, inr, refl, ap, sym, subst, ◌∙◌, Bool, true, false, Option, none, some, List,
  [], ◌∷◌, ◌++◌, Bytes, length, map, ◌==◌, bytes_eq, eq_iff, if◌then◌else◌,
}
use copilot_token_cost.Prelude.Maps.{lookup, insert}
use copilot_token_cost.Prelude.Sorting.{sort_strings, insert_sorted}
use copilot_token_cost.Tail.Store.{TailOffset}
use copilot_token_cost.Tail.Target.{derive_local_path_for_remote}
use copilot_token_cost.Tail.Files.{Fault, Disk}
use copilot_token_cost.Tail.Files.Copies.{IsStable}
use copilot_token_cost.Tail.File.{TrackedTailFile, Outcome, sync_tracked_file}
use copilot_token_cost.Tail.File.Mirror.{IsMirror, IsReady, IsSynced, sync-IsSynced}
use copilot_token_cost.Tail.Session.{
  Session, State, Tick, tracked_new, add_discovered, drop_unseen, reconcile_tracked_files,
  mark_removed, after_pass, pending, sync_keys, sync_discovered, sync_listed, sync_once, run_ticks,
  run_tail_session,
}

-- What the remote file may hold at the next tick: more at its end, or less.
abbrev pub Follows : Option Bytes → Bytes → Type 0
Follows none c = Unit
Follows (some old) c = ((d : Bytes) × (c ≡ old ++ d)) ⊎ (length c < length old)

abbrev pub last_of : Bytes → List (Tick × Bytes) → Bytes
last_of c [] = c
last_of c ((t, d) ∷ h) = last_of d h

module _ (s : Session) where
  -- At each tick the remote file holds what stands beside the tick, and does not change within it.
  abbrev pub IsHistory : Option Bytes → List (Tick × Bytes) → Type 0
  IsHistory old [] = Unit
  IsHistory old ((t, c) ∷ h) =
      IsStable t.client s.remote_file c × (Follows old c × IsHistory (some c) h)

  abbrev pub local_of : Bytes
  local_of =
      derive_local_path_for_remote s.join_path s.local_path s.codespace s.remote_file s.multi_file

  -- The one file is tracked, and its copy holds `c`.
  pub record IsFollowing (c : Bytes) (st : State) : Type 0 where
    pub file : TrackedTailFile
    pub tracked : st.tracked ≡ (s.remote_file, file) ∷ []
    pub remote_path : file.remote_path ≡ s.remote_file
    pub local_path : file.local_path ≡ local_of
    pub mirror : IsMirror c file st.disk
    pub writable : st.disk.write_fault local_of ≡ none

  itself : (path : Bytes) → (path == path) ≡ true
  itself path = (eq_iff path path).1 refl

  reconcile_new :
      reconcile_tracked_files s (s.remote_file ∷ []) []
      ≡ ((s.remote_file, tracked_new s s.remote_file) ∷ [], s.remote_file ∷ [], [])
  unfolding reconcile_tracked_files add_discovered drop_unseen lookup insert sort_strings
      insert_sorted
  reconcile_new = rw (itself s.remote_file)

  reconcile_known :
      (file : TrackedTailFile)
      → reconcile_tracked_files s (s.remote_file ∷ []) ((s.remote_file, file) ∷ [])
        ≡ ((s.remote_file, file) ∷ [], [], [])
  unfolding reconcile_tracked_files add_discovered drop_unseen lookup insert sort_strings
      insert_sorted
  reconcile_known file = rw (itself s.remote_file) (rw (itself s.remote_file))

  abbrev After : Bytes → State × Option Fault → Type 0
  After c r = (r.1 ≡ none) × IsFollowing c r.0

  abbrev one_file : TrackedTailFile → Disk → List TailOffset → State
  one_file file disk rows = record {
    tracked = (s.remote_file, file) ∷ [];
    disk = disk;
    rows = rows;
  }

  passed :
      (t : Tick) (c : Bytes) (file : TrackedTailFile) (disk : Disk) (rows : List TailOffset)
      (o : Outcome)
      → file.remote_path ≡ s.remote_file
      → file.local_path ≡ local_of
      → disk.write_fault local_of ≡ none
      → IsSynced t.client t.digest t.now c file disk o
      → After c (after_pass s t s.remote_file (one_file file disk rows) o o.error)
  unfolding insert
  passed t c file disk rows o rp lp w h = rw h.no_error (
    refl,
    record {
      file = o.file;
      tracked = rw (itself s.remote_file);
      remote_path = h.same.remote_path ∙ rp;
      local_path = h.same.local_path ∙ lp;
      mirror = h.mirror;
      writable = rw h.same.write_fault w;
    },
  )

  pass_lem :
      (t : Tick) (c : Bytes) (file : TrackedTailFile) (disk : Disk) (rows : List TailOffset)
      → IsStable t.client s.remote_file c
      → file.remote_path ≡ s.remote_file
      → file.local_path ≡ local_of
      → disk.write_fault local_of ≡ none
      → IsReady c file disk
      → After c (sync_keys s t (s.remote_file ∷ []) (one_file file disk rows, none))
  unfolding sync_keys lookup
  pass_lem t c file disk rows stable rp lp w ready =
      let o = sync_tracked_file t.client t.digest t.now file disk rows in
      rw (itself s.remote_file) (
        passed t c file disk rows o rp lp w (
          sync-IsSynced t.client t.digest t.now c file disk rows
            (subst (λ p. IsStable t.client p c) (sym rp) stable)
            (subst (λ p. disk.write_fault p ≡ none) (sym lp) w) ready))

  only_file :
      (t : Tick) (force : Bool) (st : State)
      → s.multi_file ≡ false
      → sync_once s t force st ≡ sync_discovered s t force (s.remote_file ∷ []) st
  unfolding sync_once
  only_file t force st one =
      ap
        (λ b.
          if b
          then sync_listed s t force st t.entries
          else sync_discovered s t force (s.remote_file ∷ []) st)
        one

  -- A tick that starts from no file, and one that goes on.
  first_tick :
      (t : Tick) (force : Bool) (c : Bytes) (st : State)
      → IsStable t.client s.remote_file c
      → st.tracked ≡ []
      → st.disk.write_fault local_of ≡ none
      → After c (sync_discovered s t force (s.remote_file ∷ []) st)
  unfolding sync_discovered sort_strings insert_sorted tracked_new mark_removed
  first_tick t true c st stable none_yet w =
      simp (none_yet, reconcile_new)
        (pass_lem t c (pending (tracked_new s s.remote_file)) st.disk st.rows stable refl refl w
          (inl refl))
  first_tick t false c st stable none_yet w =
      simp (none_yet, reconcile_new)
        (pass_lem t c (tracked_new s s.remote_file) st.disk st.rows stable refl refl w (inl refl))

  next_tick :
      (t : Tick) (force : Bool) (old c : Bytes) (st : State)
      → IsStable t.client s.remote_file c
      → IsFollowing old st
      → Follows (some old) c
      → After c (sync_discovered s t force (s.remote_file ∷ []) st)
  unfolding sync_discovered sort_strings insert_sorted mark_removed
  next_tick t true old c st stable f grown =
      simp (f.tracked, reconcile_known f.file)
        (pass_lem t c (pending f.file) st.disk st.rows stable f.remote_path f.local_path f.writable
          (inl refl))
  next_tick t false old c st stable f grown =
      simp (f.tracked, reconcile_known f.file)
        (pass_lem t c f.file st.disk st.rows stable f.remote_path f.local_path f.writable
          (inr (old, f.mirror, grown)))

  ticks_lem :
      (h : List (Tick × Bytes)) (force : Bool) (c : Bytes) (r : State × Option Fault)
      → s.multi_file ≡ false
      → After c r
      → IsHistory (some c) h
      → After (last_of c h) (run_ticks s (map (λ p. p.0) h) force r)
  unfolding run_ticks
  ticks_lem [] force c (st, none) one a k = a
  ticks_lem ((t, d) ∷ h) force c (st, none) one (fine, f) (stable, (grown, k)) =
      ticks_lem h false d (sync_once s t force st) one
        (subst (λ r. After d r) (sym (only_file t force st one))
          (next_tick t force c d st stable f grown))
        k
  ticks_lem h force c (st, some e) one (fine, f) k = cc fine

  -- Where one file is followed, it can be written, and at each tick the remote file is stable and
  -- holds what it held at the tick before with more at its end, or less: a session that starts with no
  -- tracked file, forced or not, ends without an error, and its one tracked file is a copy of what the
  -- remote file held last.
  pub run_tail_session-IsFollowing :
      (t : Tick) (c : Bytes) (h : List (Tick × Bytes)) (force : Bool) (st : State)
      → s.multi_file ≡ false
      → st.tracked ≡ []
      → st.disk.write_fault local_of ≡ none
      → IsHistory none ((t, c) ∷ h)
      → let r = run_tail_session s (map (λ p. p.0) ((t, c) ∷ h)) force st in
        (r.1 ≡ none) × IsFollowing (last_of c h) r.0
  unfolding run_tail_session run_ticks
  run_tail_session-IsFollowing t c h force st one none_yet w (stable, (start, k)) =
      ticks_lem h false c (sync_once s t force st) one
        (subst (λ r. After c r) (sym (only_file t force st one))
          (first_tick t force c st stable none_yet w))
        k
