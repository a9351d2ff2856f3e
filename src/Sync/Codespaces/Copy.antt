-- ===== src/Sync/Codespaces/Copy.antt =====
-- internal/sync/service.go: `CopyCodespaceData`. What the commands do and what the copied directory
-- holds are arguments; the stop of a codespace and the limit on starts, which change nothing here, are
-- left out.
use copilot_token_cost.Prelude.{
  ℕ, zero, suc, ◌+◌, ◌≤◌, Bool, true, false, not, ◌&&◌, ◌||◌, List, [], ◌∷◌, Bytes, codes, length,
  contains, trim_space, ltb, nat_beq, ◌≡◌, refl, arith, if◌then◌else◌, Bool-cases, inl, inr,
}
use copilot_token_cost.Sync.Codespaces.{
  is_codespace_start_throttle_error, codespace_throttle_backoff,
}

-- How ssh and tar end: whether both could be started, the error of each (ssh by its exit code, 0 for
-- none), and what ssh wrote.
pub record SshRun : Type 0 where
  pub starts : Bool
  pub ssh_fails : Bool
  pub ssh_exit_code : ℕ
  pub tar_fails : Bool
  pub ssh_stderr : Bytes

-- How one run of `gh cs cp` ends. Behind a failure that is throttled the loop waits; the deadline may
-- come before the wait ends.
pub data CopyRun : Type 0 where
  succeeds : CopyRun
  times_out : CopyRun
  fails : (stderr : Bytes) (wait_ends : Bool) → CopyRun

-- The error is an exit status 1, and tar says that a file changed.
unfoldable pub is_tar_file_changed_warning : Bool → ℕ → Bytes → Bool
is_tar_file_changed_warning is_error exit_code stderr =
    is_error && nat_beq exit_code 1 && contains stderr (codes "file changed as we read it")

unfoldable pub copied_by_ssh : SshRun → Bool
copied_by_ssh r =
    r.starts
    && (not r.ssh_fails || is_tar_file_changed_warning r.ssh_fails r.ssh_exit_code r.ssh_stderr)
    && not r.tar_fails

-- Whether the copy came about, and the waits before the next runs, in seconds.
pub record Attempts : Type 0 where
  pub copied : Bool
  pub waits : List ℕ

abbrev pub give_up : Attempts
give_up = record { copied = false; waits = [] }

abbrev pub after_wait : ℕ → Attempts → Attempts
after_wait wait later = record later { waits = wait ∷ later.waits }

abbrev pub wait_interrupted : ℕ → Attempts
wait_interrupted wait = record { copied = false; waits = wait ∷ [] }

-- What the loop does with one run; `later` is what it does from the next attempt on.
unfoldable pub attempt_run : CopyRun → ℕ → Bool → Attempts → Attempts
attempt_run succeeds attempt is_last later = record { copied = true; waits = [] }
attempt_run times_out attempt is_last later = give_up
attempt_run (fails stderr wait_ends) attempt is_last later =
    let wait = codespace_throttle_backoff attempt in
    let waited = if wait_ends then after_wait wait later else wait_interrupted wait in
    if is_codespace_start_throttle_error (trim_space stderr) && not is_last then waited else give_up

-- The attempts from `attempt` on, where `left` of them are left.
unfoldable pub attempts : (ℕ → CopyRun) → ℕ → ℕ → Attempts
attempts run zero attempt = give_up
attempts run (suc left) attempt =
    attempt_run (run attempt) attempt (not (ltb 0 left)) (attempts run left (suc attempt))

pub record Copying : Type 0 where
  pub makes_tmp_dir : Bool
  pub ssh : SshRun
  pub cp : ℕ → CopyRun
  -- whether the stage has .copilot/logs, or home/vscode/.copilot/logs
  pub has_logs : Bool
  pub has_home_logs : Bool

-- The field `Copied` of the result.
unfoldable pub copy_codespace_data : Copying → Bool
copy_codespace_data c =
    c.makes_tmp_dir
    && (copied_by_ssh c.ssh || (attempts c.cp 3 1).copied)
    && (c.has_logs || c.has_home_logs)

abbrev pub is_success : CopyRun → Bool
is_success succeeds = true
is_success times_out = false
is_success (fails stderr wait_ends) = false

-- A run behind which the next one is made, where there is one.
unfoldable pub is_retried : CopyRun → Bool
is_retried succeeds = false
is_retried times_out = false
is_retried (fails stderr wait_ends) =
    is_codespace_start_throttle_error (trim_space stderr) && wait_ends

abbrev pub sum : List ℕ → ℕ
sum [] = 0
sum (n ∷ ns) = n + sum ns

-- One more run: what it brings, and how much longer the waits get.
attempt_run-not_last :
    (r : CopyRun) (attempt : ℕ) (later : Attempts)
    → ((attempt_run r attempt false later).copied
        ≡ (is_success r || (is_retried r && later.copied)))
      × (length (attempt_run r attempt false later).waits ≤ 1 + length later.waits)
      × (sum (attempt_run r attempt false later).waits
          ≤ codespace_throttle_backoff attempt + sum later.waits)
unfolding attempt_run is_retried
attempt_run-not_last succeeds attempt later = (refl, omega arith, omega arith)
attempt_run-not_last times_out attempt later = (refl, omega arith, omega arith)
attempt_run-not_last (fails stderr wait_ends) attempt later =
    elim (Bool-cases (is_codespace_start_throttle_error (trim_space stderr))) [
      | inl e ↦ rw e (waited wait_ends)
      | inr e ↦ rw e (refl, omega arith, omega arith)
    ]
  where
    waited :
        (b : Bool)
        → let wait = codespace_throttle_backoff attempt in
          let a = if b then after_wait wait later else wait_interrupted wait in
          (a.copied ≡ (b && later.copied))
          × (length a.waits ≤ 1 + length later.waits)
          × (sum a.waits ≤ wait + sum later.waits)
    waited true = (refl, omega arith, omega arith)
    waited false = (refl, omega arith, omega arith)

attempt_run-last :
    (r : CopyRun) (attempt : ℕ) (later : Attempts)
    → ((attempt_run r attempt true later).copied ≡ is_success r)
      × ((attempt_run r attempt true later).waits ≡ [])
unfolding attempt_run
attempt_run-last succeeds attempt later = (refl, refl)
attempt_run-last times_out attempt later = (refl, refl)
attempt_run-last (fails stderr wait_ends) attempt later =
    elim (Bool-cases (is_codespace_start_throttle_error (trim_space stderr))) [
      | inl e ↦ rw e (refl, refl)
      | inr e ↦ rw e (refl, refl)
    ]

-- The copy comes about where one of three runs succeeds and all before it were throttled with a wait
-- that ended; there are two waits at most, of six seconds together.
pub attempts_lem :
    (run : ℕ → CopyRun)
    → ((attempts run 3 1).copied ≡ (
        is_success (run 1)
        || (is_retried (run 1)
            && (is_success (run 2) || (is_retried (run 2) && is_success (run 3))))))
      × (length (attempts run 3 1).waits ≤ 2)
      × (sum (attempts run 3 1).waits ≤ 6)
unfolding attempts codespace_throttle_backoff
attempts_lem run =
    let third = attempt_run (run 3) 3 true give_up in
    let second = attempt_run (run 2) 2 false third in
    let (c₃, w₃) = attempt_run-last (run 3) 3 give_up in
    let (c₂, l₂, s₂) = attempt_run-not_last (run 2) 2 third in
    let (c₁, l₁, s₁) = attempt_run-not_last (run 1) 1 second in
    let none_left : length third.waits ≡ 0 = rw w₃ in
    let none_waited : sum third.waits ≡ 0 = rw w₃ in
    (rw (c₁, c₂, c₃), omega (arith, l₁, l₂, none_left), omega (arith, s₁, s₂, none_waited))
