-- ===== src/Dashboard/Retry.antt =====
-- web_mode.go: the delays between attempts to sync codespaces. A `time.Duration` is a number of
-- nanoseconds, as a 64-bit pattern.
pub mod Bounds
use copilot_token_cost.Prelude.{ℕ, ◌*◌, ◌%◌, Bool, true, false, ◌||◌, nat_beq, if◌then◌else◌}
use copilot_token_cost.Prelude.Int64.{word, is_neg, lt64}

-- `d <= 0`
abbrev pub not_positive : ℕ → Bool
not_positive d = is_neg d || nat_beq d 0

abbrev pub default_codespaces_interval : ℕ
default_codespaces_interval = 300_000_000_000

abbrev pub max_codespaces_retry_backoff : ℕ
max_codespaces_retry_backoff = 1_800_000_000_000

unfoldable pub normalize_codespaces_interval : ℕ → ℕ
normalize_codespaces_interval interval =
    if not_positive interval then default_codespaces_interval else interval

unfoldable pub compute_codespaces_retry_cap : ℕ → ℕ
compute_codespaces_retry_cap interval =
    let base = normalize_codespaces_interval interval in
    let cap = (base * 6) % word in
    if lt64 cap base
    then max_codespaces_retry_backoff
    else (if lt64 max_codespaces_retry_backoff cap then max_codespaces_retry_backoff else cap)

unfoldable pub next_codespaces_retry_delay : ℕ → ℕ → ℕ
next_codespaces_retry_delay current max_delay =
    let next = (current * 2) % word in
    if not_positive current
    then max_delay
    else (if lt64 next current || lt64 max_delay next then max_delay else next)
