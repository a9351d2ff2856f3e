-- ===== src/Costing/Cost.antt =====
-- internal/costing/service.go: what the tokens of a `Stats` cost.
pub mod Monotone
pub mod Uncached
use copilot_token_cost.Prelude.{
  ℕ, Bool, true, false, Option, none, some, List, [], ◌∷◌, Bytes, ◌==◌, bytes_eq, if◌then◌else◌,
}
use copilot_token_cost.Prelude.Int64.{sub64, is_neg}
use copilot_token_cost.Prelude.Maps.{Map, lookup}
use copilot_token_cost.Prelude.Floats.{Float64}
use copilot_token_cost.Domain.{Stats}
use copilot_token_cost.Costing.Periods.{
  Pricing, PricingPeriod, get_pricing, get_premium_request_cost,
}

module _ {ℓ} {W : Type ℓ} where
  unfoldable pub uncached_input : Stats W → ℕ
  uncached_input s =
      let v = sub64 (sub64 s.prompt_tokens s.cache_read_tokens) s.cache_creation_tokens in
      if is_neg v then 0 else v

module _ {ℓ} {W : Type ℓ} ⦃f : Float64 W⦄ where
  -- `float64(n)/1e6*p`
  unfoldable pub at_price : ℕ → W → W
  at_price n p = f.mul (f.div (f.of_int n) f.million) p

  unfoldable pub cost_at : Stats W → Pricing W → W
  unfolding at_price
  cost_at s p =
      let v = sub64 (sub64 s.prompt_tokens s.cache_read_tokens) s.cache_creation_tokens in
      let net_input : ℕ = if is_neg v then 0 else v in
      f.add
        (f.add (f.add (at_price net_input p.input) (at_price s.completion_tokens p.output))
          (at_price s.cache_read_tokens p.cache_read))
        (at_price s.cache_creation_tokens p.cache_write)

  unfoldable pub calc_cost : List (PricingPeriod W) → Bytes → Stats W → Bytes → W
  unfolding cost_at
  calc_cost periods model s timestamp = elim (get_pricing periods model timestamp) [
    | none ↦ f.nought
    | some p ↦ cost_at s p
  ]

  unfoldable pub cost_no_cache_at : Stats W → Pricing W → W
  unfolding at_price
  cost_no_cache_at s p =
      f.add (at_price s.prompt_tokens p.input) (at_price s.completion_tokens p.output)

  unfoldable pub calc_cost_no_cache : List (PricingPeriod W) → Bytes → Stats W → Bytes → W
  unfolding cost_no_cache_at
  calc_cost_no_cache periods model s timestamp = elim (get_pricing periods model timestamp) [
    | none ↦ f.nought
    | some p ↦ cost_no_cache_at s p
  ]

  -- `for day, models := range dailyStats { if s, ok := models[model]; ok { total += … } }`
  unfoldable pub sum_daily_from :
      W → Bytes → Map Bytes (Map Bytes (Stats W)) → (Bytes → Stats W → Bytes → W) → W
  sum_daily_from total model [] cost_fn = total
  sum_daily_from total model ((day, models) ∷ rest) cost_fn =
      sum_daily_from
        (elim (lookup model models) [ none ↦ total | some s ↦ f.add total (cost_fn model s day) ])
        model rest cost_fn

  unfoldable pub sum_daily_cost :
      Bytes → Map Bytes (Map Bytes (Stats W)) → (Bytes → Stats W → Bytes → W) → W
  unfolding sum_daily_from
  sum_daily_cost model daily cost_fn = sum_daily_from f.nought model daily cost_fn

  unfoldable pub sum_daily_premium_cost :
      List (PricingPeriod W) → Bytes → Map Bytes (Map Bytes (Stats W)) → W
  unfolding sum_daily_from
  sum_daily_premium_cost periods model daily =
      sum_daily_from f.nought model daily
        (λ m s day. f.mul s.premium_requests (get_premium_request_cost periods day))

  unfoldable pub add_premiums : W → W → Map Bytes (Stats W) → W
  add_premiums total prc [] = total
  add_premiums total prc ((model, s) ∷ rest) =
      add_premiums (f.add total (f.mul s.premium_requests prc)) prc rest

  unfoldable pub sum_daily_premium_cost_all_from :
      W → List (PricingPeriod W) → Map Bytes (Map Bytes (Stats W)) → W
  unfolding add_premiums
  sum_daily_premium_cost_all_from total periods [] = total
  sum_daily_premium_cost_all_from total periods ((day, models) ∷ rest) =
      sum_daily_premium_cost_all_from
        (add_premiums total (get_premium_request_cost periods day) models) periods rest

  unfoldable pub sum_daily_premium_cost_all :
      List (PricingPeriod W) → Map Bytes (Map Bytes (Stats W)) → W
  unfolding sum_daily_premium_cost_all_from
  sum_daily_premium_cost_all periods daily = sum_daily_premium_cost_all_from f.nought periods daily
