-- ===== src/Costing/Cost/Monotone.antt =====
-- Costs are never negative, and grow with the tokens, under the rounding of the machine's floats.
use copilot_token_cost.Prelude.{ℕ, ◌≤◌, ◌<◌, ◌≡◌, refl, Option, none, some, List, Bytes, arith}
use copilot_token_cost.Prelude.Int64.{sign_bit}
use copilot_token_cost.Prelude.Floats.{Float64, IsMonotone}
use copilot_token_cost.Domain.{Stats}
use copilot_token_cost.Costing.Periods.{Pricing, PricingPeriod, get_pricing}
use copilot_token_cost.Costing.Cost.{uncached_input, at_price, cost_at, calc_cost}
use copilot_token_cost.Costing.Cost.Uncached.{IsCounted, uncached_input_lem}

module _ {ℓ} {W : Type ℓ} ⦃f : Float64 W⦄ (laws : IsMonotone W) where
  open laws use {IsFinite, AtMost}

  pub record IsPrice (p : W) : Type 0 where
    pub finite : IsFinite p
    pub nonneg : AtMost f.nought p

  -- Every price of a model is a finite number that is not negative.
  pub record IsPriced (p : Pricing W) : Type 0 where
    pub input : IsPrice p.input
    pub output : IsPrice p.output
    pub cache_read : IsPrice p.cache_read
    pub cache_write : IsPrice p.cache_write

  -- `t` counts at least as many tokens of every kind that is billed, and no counter is negative.
  pub record IsMore (s t : Stats W) : Type 0 where
    pub counted : IsCounted t
    pub completed : t.completion_tokens < sign_bit
    pub uncached : uncached_input s ≤ uncached_input t
    pub completion : s.completion_tokens ≤ t.completion_tokens
    pub read : s.cache_read_tokens ≤ t.cache_read_tokens
    pub creation : s.cache_creation_tokens ≤ t.cache_creation_tokens

  at_price_nonneg : (n : ℕ) (p : W) → n < sign_bit → IsPrice p → AtMost f.nought (at_price n p)
  unfolding at_price
  at_price_nonneg n p h k =
      laws.mul_nonneg _ p (laws.of_int_finite n) k.finite (laws.of_int_nonneg n h) k.nonneg

  at_price_mono :
      (m n : ℕ) (p : W) → m ≤ n → n < sign_bit → IsPrice p → AtMost (at_price m p) (at_price n p)
  unfolding at_price
  at_price_mono m n p le h k =
      laws.mul_mono _ _ p (laws.of_int_finite m) (laws.of_int_finite n) k.finite
        (laws.of_int_mono m n le h) k.nonneg

  abbrev sum_four : W → W → W → W → W
  sum_four a b c d = f.add (f.add (f.add a b) c) d

  -- The cost at a price, by its four parts.
  cost_at_lem :
      (s : Stats W) (p : Pricing W)
      → cost_at s p
        ≡ sum_four
            (at_price (uncached_input s) p.input)
            (at_price s.completion_tokens p.output)
            (at_price s.cache_read_tokens p.cache_read)
            (at_price s.cache_creation_tokens p.cache_write)
  unfolding cost_at uncached_input
  cost_at_lem s p = refl

  uncached_bound : (s : Stats W) → IsCounted s → uncached_input s < sign_bit
  uncached_bound s h = omega (arith, uncached_input_lem s h)

  cost_at_mono :
      (s t : Stats W) (p : Pricing W) → IsMore s t → IsPriced p → AtMost (cost_at s p) (cost_at t p)
  cost_at_mono s t p m k =
      let u = uncached_bound t m.counted in
      let bound : uncached_input s < sign_bit = omega (arith, m.uncached) in
      let c : s.completion_tokens < sign_bit = omega (arith, m.completed) in
      let r : t.cache_read_tokens < sign_bit = omega (arith, m.counted) in
      let w : t.cache_creation_tokens < sign_bit = omega (arith, m.counted) in
      let r' : s.cache_read_tokens < sign_bit = omega (arith, r) in
      let w' : s.cache_creation_tokens < sign_bit = omega (arith, w) in
      let a₀ = at_price_nonneg _ p.input bound k.input in
      let b₀ = at_price_nonneg _ p.output c k.output in
      let c₀ = at_price_nonneg _ p.cache_read r' k.cache_read in
      let d₀ = at_price_nonneg _ p.cache_write w' k.cache_write in
      let ab₀ = laws.add_nonneg _ _ a₀ b₀ in
      rw (cost_at_lem s p, cost_at_lem t p)
        (laws.add_mono _ _ _ _ (laws.add_nonneg _ _ ab₀ c₀) d₀
          (laws.add_mono _ _ _ _ ab₀ c₀
            (laws.add_mono _ _ _ _ a₀ b₀ (at_price_mono _ _ p.input m.uncached u k.input)
              (at_price_mono _ _ p.output m.completion m.completed k.output))
            (at_price_mono _ _ p.cache_read m.read r k.cache_read))
          (at_price_mono _ _ p.cache_write m.creation w k.cache_write))

  -- For floats that round monotonically and prices that are finite and not negative: whatever the
  -- model and the date, counters with at least as many tokens of each billed kind, none of them
  -- negative, cost at least as much.
  pub calc_cost_mono :
      (periods : List (PricingPeriod W)) (model timestamp : Bytes) (s t : Stats W)
      → ((p : Pricing W) → get_pricing periods model timestamp ≡ some p → IsPriced p)
      → IsMore s t
      → AtMost (calc_cost periods model s timestamp) (calc_cost periods model t timestamp)
  unfolding calc_cost
  calc_cost_mono periods model timestamp s t priced more =
      go (get_pricing periods model timestamp) priced
    where
      go :
          (o : Option (Pricing W))
          → ((p : Pricing W) → o ≡ some p → IsPriced p)
          → AtMost
              (elim o [ none ↦ f.nought | some p ↦ cost_at s p ])
              (elim o [ none ↦ f.nought | some p ↦ cost_at t p ])
      go none h = laws.nought_refl
      go (some p) h = cost_at_mono s t p more (h p refl)
