-- ===== src/Dashboard/Sync/Actions.antt =====
-- The refresh of the local logs and the sync of the codespaces.
use copilot_token_cost.Prelude.{
  ℕ, ◌≡◌, refl, Bool, true, false, not, ◌&&◌, ◌||◌, Option, none, some, [], ◌++◌, Bytes, codes,
  trim_space, to_lower, contains, bytes_beq, nat_beq, ◌==◌, bytes_eq, if◌then◌else◌, Bool-cases,
  inl, inr,
}
use copilot_token_cost.Dashboard.Sync.{
  SyncState, code_ok, code_skipped, code_error, code_stale, set_sync_status, Result, failed_with,
  rebuild_snapshot, LogsDir, missing, not_directory, directory, stat_failed, refresh_stat,
  refresh_ping, refresh_local_snapshot, classify_sync_code, classify_codespaces_sync_failure,
  failure_reason, TickResult, tick_failed, tick_total, after_tick, sync_ping, sync_mode,
  sync_codespaces_snapshot,
}
use copilot_token_cost.Dashboard.Sync.Settled.{
  IsSettled, failed-IsSettled, rebuilt-IsSettled, begin-IsSettled,
}

-- A code that is not `ok`, nor blank.
abbrev IsFailure : Bytes → Type 0
IsFailure code = ((trim_space code == []) ≡ false) × ((code == code_ok) ≡ false)

classify-IsFailure : (e : Bytes) → IsFailure (classify_sync_code e)
unfolding classify_sync_code trim_space bytes_beq
classify-IsFailure e = elim (Bool-cases (contains (to_lower e) (codes "timed out"))) [
  | inl k ↦ rw k (refl, refl)
  | inr k ↦ rw k (refl, refl)
]

stale-IsFailure : IsFailure code_stale
unfolding trim_space bytes_beq
stale-IsFailure = (refl, refl)

classified-IsFailure :
    (e : Bytes) (auto : Bool) (s : SyncState)
    → IsFailure (classify_codespaces_sync_failure e auto s).0
unfolding classify_codespaces_sync_failure
classified-IsFailure e auto s = elim (Bool-cases (auto && s.has_success)) [
  | inl k ↦ rw k stale-IsFailure
  | inr k ↦ rw k (classify-IsFailure e)
]

-- Whatever the database and the file system answer: a refresh of the local logs leaves the lock as it
-- was and changes the status of that source only; it ends without an error only where that is `ok` or
-- `skipped`, and the snapshot shows it then; an error leaves another status than `ok`.
pub refresh-IsSettled :
    (now dir : Bytes) (ping : Option Bytes) (stat : LogsDir) (s : SyncState)
    → IsSettled (codes "local") s (refresh_local_snapshot now dir ping stat s)
unfolding refresh_local_snapshot trim_space bytes_beq
refresh-IsSettled now dir ping stat s =
    begin-IsSettled now (codes "local") s (refresh_ping now dir ping stat) refl (λ b. pinged b ping)
  where
    local_failed :
        (n : ℕ) (reason message : Bytes) (b : SyncState)
        → IsSettled
            (codes "local")
            b
            (failed_with now (codes "local") code_error n reason message b)
    local_failed n reason message b =
        failed-IsSettled now (codes "local") code_error n reason message b refl refl refl

    found :
        (b : SyncState) (d : LogsDir)
        → IsSettled (codes "local") b (refresh_stat now (trim_space dir) d b)
    found b (stat_failed e) = local_failed _ _ _ b
    found b missing = rebuilt-IsSettled now (codes "local") code_skipped _ b refl refl refl
    found b not_directory = local_failed _ _ _ b
    found b directory = rebuilt-IsSettled now (codes "local") code_ok _ b refl refl refl

    pinged :
        (b : SyncState) (o : Option Bytes)
        → IsSettled (codes "local") b (refresh_ping now dir o stat b)
    pinged b (some e) = local_failed _ _ _ b
    pinged b none = named (trim_space dir == [])
      where
        named :
            (c : Bool)
            → IsSettled (codes "local") b (
                if c
                then failed_with now
                    (codes "local")
                    code_error
                    500
                    (codes "logs_dir_empty")
                    (codes "logs directory is empty")
                    b
                else refresh_stat now (trim_space dir) stat b)
        named true = local_failed _ _ _ b
        named false = found b stat

-- Whatever the mode, the database and the tick answer: a sync of the codespaces leaves the lock as it was
-- and changes the status of that source only; it ends without an error only where that is `ok` or
-- `skipped`, and the snapshot shows it then; an error leaves another status than `ok`, and as they were
-- whether the codespaces were ever synced and the time of the last such sync.
pub codespaces-IsSettled :
    (now mode : Bytes) (manual : Bool) (ping : Option Bytes) (tick : TickResult) (s : SyncState)
    → IsSettled (codes "codespaces") s (sync_codespaces_snapshot now mode manual ping tick s)
unfolding sync_codespaces_snapshot trim_space bytes_beq
codespaces-IsSettled now mode manual ping tick s =
    begin-IsSettled now (codes "codespaces") s (sync_mode now mode manual ping tick) refl
      (λ b. allowed b (manual && not (mode == codes "manual")))
  where
    refused : SyncState → Result
    refused b =
        failed_with now (codes "codespaces") code_skipped 409 (codes "codespaces_mode_not_manual")
          (codes "manual mode required (current: " ++ (mode ++ codes ")")) b

    failed_tick :
        (b : SyncState) (e code reason : Bytes)
        → IsFailure code
        → IsSettled
            (codes "codespaces")
            b
            (failed_with now (codes "codespaces") code 502 (failure_reason code) reason b)
    failed_tick b e code reason (full, bad) =
        failed-IsSettled now (codes "codespaces") code 502 (failure_reason code) reason b refl full
          bad

    good :
        (z : Bool)
        → let code = if z then code_skipped else code_ok in
          ((trim_space code == []) ≡ false) × ((code == code_ok || code == code_skipped) ≡ true)
    good true = (refl, refl)
    good false = (refl, refl)

    succeeded :
        (b : SyncState) (code reason : Bytes)
        → ((trim_space code == []) ≡ false) × ((code == code_ok || code == code_skipped) ≡ true)
        → IsSettled (codes "codespaces") b (
          rebuild_snapshot (record (set_sync_status now (codes "codespaces") code reason b) {
            has_success = true;
            last_success = some now;
          }),
          none,
        )
    succeeded b code reason (full, done) =
        let r = rebuilt-IsSettled now (codes "codespaces") code reason b refl full done in
        record { status = r.status; only = r.only; ends = (r.ends.0, refl); lock = r.lock }

    ticked :
        (b : SyncState) (t : TickResult)
        → IsSettled (codes "codespaces") b (after_tick now manual t b)
    ticked b (tick_failed e) = failed_tick b e _ _ (classified-IsFailure e (not manual) b)
    ticked b (tick_total n) = succeeded b _ _ (good (nat_beq n 0))

    pinged :
        (b : SyncState) (o : Option Bytes)
        → IsSettled (codes "codespaces") b (sync_ping now manual o tick b)
    pinged b (some e) =
        failed-IsSettled now (codes "codespaces") code_error 503 _ _ b refl refl refl
    pinged b none = ticked b tick

    allowed :
        (b : SyncState) (c : Bool)
        → IsSettled
            (codes "codespaces")
            b
            (if c then refused b else sync_ping now manual ping tick b)
    allowed b true = failed-IsSettled now (codes "codespaces") code_skipped 409 _ _ b refl refl refl
    allowed b false = pinged b ping
