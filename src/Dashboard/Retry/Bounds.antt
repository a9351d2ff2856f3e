-- ===== src/Dashboard/Retry/Bounds.antt =====
-- How one delay follows another.
use copilot_token_cost.Prelude.{ℕ, ◌*◌, ◌≤◌, ◌<◌, ◌≡◌, leb, if◌then◌else◌, arith}
use copilot_token_cost.Prelude.Int64.{word, sign_bit, is_neg, lt64}
use copilot_token_cost.Dashboard.Retry.{
  max_codespaces_retry_backoff, normalize_codespaces_interval, compute_codespaces_retry_cap,
  next_codespaces_retry_delay,
}

-- The delay doubles, up to the longest one.
pub next_lem :
    (current longest : ℕ)
    → 0 < current
    → current ≤ longest
    → longest < sign_bit
    → next_codespaces_retry_delay current longest
      ≡ (if leb (current * 2) longest then current * 2 else longest)
unfolding next_codespaces_retry_delay is_neg lt64
next_lem current longest p h k = ground arith

-- The longest delay is positive and at most half an hour.
pub cap_lem :
    (interval : ℕ)
    → interval < word
    → (0 < compute_codespaces_retry_cap interval)
      × (compute_codespaces_retry_cap interval ≤ max_codespaces_retry_backoff)
unfolding compute_codespaces_retry_cap normalize_codespaces_interval is_neg lt64
cap_lem interval h = (ground arith, ground arith)
