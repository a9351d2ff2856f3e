-- ===== src/Costing/Cost/Uncached.antt =====
-- The input that is billed at the full price, beside the two kinds that the cache serves.
use copilot_token_cost.Prelude.{◌+◌, ◌-◌, ◌<◌, ◌≡◌, arith}
use copilot_token_cost.Prelude.Int64.{sub64, is_neg, sign_bit}
use copilot_token_cost.Domain.{Stats}
use copilot_token_cost.Costing.Cost.{uncached_input}

-- Counters that are not negative, and cache counters whose sum does not overflow an `int`.
pub record IsCounted {ℓ} {W : Type ℓ} (s : Stats W) : Type 0 where
  pub prompt : s.prompt_tokens < sign_bit
  pub cached : s.cache_read_tokens + s.cache_creation_tokens < sign_bit

module _ {ℓ} {W : Type ℓ} where
  -- For counters that are not negative and cache counters that add up without overflow: the uncached
  -- input is the prompt less both kinds of cached tokens, and 0 where those are more than the prompt.
  pub uncached_input_lem :
      (s : Stats W)
      → IsCounted s
      → uncached_input s ≡ s.prompt_tokens - (s.cache_read_tokens + s.cache_creation_tokens)
  unfolding uncached_input sub64 is_neg
  uncached_input_lem s h = ground arith
