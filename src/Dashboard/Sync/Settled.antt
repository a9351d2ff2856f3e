-- ===== src/Dashboard/Sync/Settled.antt =====
-- How the actions end.
use copilot_token_cost.Prelude.{
  ℕ, ◌≡◌, refl, sym, ◌∙◌, Bool, true, false, ◌||◌, Option, none, some, [], Bytes, codes, trim_space,
  bytes_beq, ◌==◌, bytes_eq, if◌then◌else◌, Bool-cases, inl, inr,
}
use copilot_token_cost.Prelude.Maps.{lookup, lookup-insert}
use copilot_token_cost.Dashboard.Sync.{
  SyncSourceStatus, WebActionError, SyncState, code_ok, code_skipped, in_progress,
  new_sync_source_status, set_sync_status, Result, unlocked, begin_sync_action, failed_with,
  rebuild_snapshot,
}

-- Without an error the source is synced or had nothing to sync, and the snapshot has its status; with one
-- it is not synced, and whether codespaces were ever synced, and when for the last time, stays as it was.
abbrev pub EndsWith : SyncSourceStatus → SyncState → SyncState → Option WebActionError → Type 0
EndsWith status s s' none =
    ((status.code == code_ok || status.code == code_skipped) ≡ true)
    × (s'.snapshot_status ≡ some s'.sync_status)
EndsWith status s s' (some e) =
    ((status.code == code_ok) ≡ false)
    × (s'.has_success ≡ s.has_success)
    × (s'.last_success ≡ s.last_success)

-- The action changes the status of its source only, and the lock is as it was before it.
pub record IsSettled (source : Bytes) (s : SyncState) (r : Result) : Type 0 where
  pub status : SyncSourceStatus
  pub only :
      (other : Bytes)
      → lookup other r.0.sync_status
        ≡ (if source == other then some status else lookup other s.sync_status)
  pub ends : EndsWith status s r.0 r.1
  pub lock : r.0.locked ≡ s.locked

set_lem :
    (now source code reason : Bytes) (s : SyncState) (other : Bytes)
    → (trim_space source == []) ≡ false
    → (trim_space code == []) ≡ false
    → lookup other (set_sync_status now source code reason s).sync_status ≡ (
        if source == other
        then some (new_sync_source_status now code reason)
        else lookup other s.sync_status)
unfolding set_sync_status
set_lem now source code reason s other h k = rw (h, k) (lookup-insert source other _ s.sync_status)

set-locked :
    (now source code reason : Bytes) (s : SyncState)
    → (set_sync_status now source code reason s).locked ≡ s.locked
unfolding set_sync_status
set-locked now source code reason s = refl

set-has_success :
    (now source code reason : Bytes) (s : SyncState)
    → (set_sync_status now source code reason s).has_success ≡ s.has_success
unfolding set_sync_status
set-has_success now source code reason s = refl

set-last_success :
    (now source code reason : Bytes) (s : SyncState)
    → (set_sync_status now source code reason s).last_success ≡ s.last_success
unfolding set_sync_status
set-last_success now source code reason s = refl

pub failed-IsSettled :
    (now source code : Bytes) (n : ℕ) (reason message : Bytes) (s : SyncState)
    → (trim_space source == []) ≡ false
    → (trim_space code == []) ≡ false
    → (code == code_ok) ≡ false
    → IsSettled source s (failed_with now source code n reason message s)
unfolding new_sync_source_status
failed-IsSettled now source code n reason message s h k m = record {
  status = new_sync_source_status now code message;
  only = λ other. set_lem now source code message s other h k;
  ends = (m, set-has_success now source code message s, set-last_success now source code message s);
  lock = set-locked now source code message s;
}

pub rebuilt-IsSettled :
    (now source code reason : Bytes) (s : SyncState)
    → (trim_space source == []) ≡ false
    → (trim_space code == []) ≡ false
    → (code == code_ok || code == code_skipped) ≡ true
    → IsSettled source s (rebuild_snapshot (set_sync_status now source code reason s), none)
unfolding new_sync_source_status
rebuilt-IsSettled now source code reason s h k m = record {
  status = new_sync_source_status now code reason;
  only = λ other. set_lem now source code reason s other h k;
  ends = (m, refl);
  lock = set-locked now source code reason s;
}

abbrev begun : Bytes → Bytes → SyncState → SyncState
begun now source s = set_sync_status now source code_skipped in_progress s

abbrev locked : SyncState → SyncState
locked s = record s { locked = true }

busy : WebActionError
busy = record { status = 409; reason = in_progress; message = codes "sync already in progress" }

by_lock :
    (now source : Bytes) (s : SyncState) (act : SyncState → Result) (b : Bool)
    → (trim_space source == []) ≡ false
    → (trim_space code_skipped == []) ≡ false
    → s.locked ≡ b
    → IsSettled source (locked (begun now source s)) (act (locked (begun now source s)))
    → IsSettled source s (
        if b then (begun now source s, some busy) else unlocked (act (locked (begun now source s))))
unfolding new_sync_source_status bytes_beq
by_lock now source s act true h k e r = record {
  status = new_sync_source_status now code_skipped in_progress;
  only = λ other. set_lem now source code_skipped in_progress s other h k;
  ends = (
    refl,
    set-has_success now source code_skipped in_progress s,
    set-last_success now source code_skipped in_progress s,
  );
  lock = set-locked now source code_skipped in_progress s;
}
by_lock now source s act false h k e r = record {
  status = r.status;
  only = λ other. r.only other ∙ (elim (Bool-cases (source == other)) [
    | inl m ↦ rw m
    | inr m ↦ rw m (set_lem now source code_skipped in_progress s other h k ∙ rw m)
  ]);
  ends = kept (act (locked (begun now source s))) r.ends;
  lock = sym e;
}
  where
    kept :
        (q : Result)
        → EndsWith r.status (locked (begun now source s)) q.0 q.1
        → EndsWith r.status s (unlocked q).0 (unlocked q).1
    kept (q, none) x = x
    kept (q, some e) (x, y, z) = (
      x,
      y ∙ set-has_success now source code_skipped in_progress s,
      z ∙ set-last_success now source code_skipped in_progress s,
    )

pub begin-IsSettled :
    (now source : Bytes) (s : SyncState) (act : SyncState → Result)
    → (trim_space source == []) ≡ false
    → ((b : SyncState) → IsSettled source b (act b))
    → IsSettled source s (begin_sync_action now source s act)
unfolding begin_sync_action trim_space bytes_beq busy
begin-IsSettled now source s act h settled =
    by_lock now source s act s.locked h refl refl (settled (locked (begun now source s)))
