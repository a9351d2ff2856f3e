-- ===== src/Costing/Periods.antt =====
-- internal/costing/service.go: the price periods and the lookups in them.
pub mod Latest
use copilot_token_cost.Prelude.{
  ℕ, Bool, true, false, ◌&&◌, Option, none, some, List, [], ◌∷◌, Bytes, length, take, ltb, bytes_ge,
  ◌==◌, bytes_eq, if◌then◌else◌,
}
use copilot_token_cost.Prelude.Maps.{Map, lookup}
use copilot_token_cost.Prelude.Floats.{Float64}
use copilot_token_cost.Costing.Normalize.{normalize_model}

pub record Pricing {ℓ} (W : Type ℓ) : Type ℓ where
  pub input : W
  pub output : W
  pub cache_read : W
  pub cache_write : W

pub record PricingPeriod {ℓ} (W : Type ℓ) : Type ℓ where
  pub effective_from : Bytes
  pub premium_request_cost : W
  pub model_pricing : Map Bytes (Pricing W)
  pub premium_multiplier : Map Bytes W

-- `timestamp[:10]`, of a longer text.
unfoldable pub date_of : Bytes → Bytes
date_of timestamp = if ltb 10 (length timestamp) then take 10 timestamp else timestamp

module _ {ℓ} {W : Type ℓ} where
  -- The first period in force on that date, and the last of the list where there is none.
  unfoldable pub in_force : PricingPeriod W → List (PricingPeriod W) → Bytes → PricingPeriod W
  in_force p [] date = p
  in_force p (q ∷ rest) date =
      let later = in_force q rest date in if bytes_ge date p.effective_from then p else later

  unfoldable pub get_period : List (PricingPeriod W) → Bytes → Option (PricingPeriod W)
  unfolding in_force date_of
  get_period [] timestamp = none
  get_period (p ∷ rest) timestamp =
      if timestamp == [] then some p else some (in_force p rest (date_of timestamp))

module _ {ℓ} {W : Type ℓ} ⦃f : Float64 W⦄ where
  unfoldable pub get_premium_request_cost : List (PricingPeriod W) → Bytes → W
  get_premium_request_cost periods timestamp = elim (get_period periods timestamp) [
    | none ↦ f.nought
    | some p ↦ p.premium_request_cost
  ]

  unfoldable pub get_pricing : List (PricingPeriod W) → Bytes → Bytes → Option (Pricing W)
  get_pricing periods model timestamp = elim (get_period periods timestamp) [
    | none ↦ none
    | some p ↦ lookup (normalize_model model) p.model_pricing
  ]

  abbrev multiplier_or_one : Option W → W
  multiplier_or_one none = f.one
  multiplier_or_one (some m) = m

  unfoldable pub get_premium_multiplier : List (PricingPeriod W) → Bytes → Bytes → W
  get_premium_multiplier periods model timestamp = elim (get_period periods timestamp) [
    | none ↦ f.one
    | some p ↦ multiplier_or_one (lookup (normalize_model model) p.premium_multiplier)
  ]
