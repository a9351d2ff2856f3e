-- ===== src/Costing/Aggregate/ByModel.antt =====
-- The entry of a model against a description that looks at no map.
use copilot_token_cost.Prelude.{
  ◌≡◌, refl, Option, none, some, List, [], ◌∷◌, Bytes, keep, ◌==◌, bytes_eq, eq_iff, if◌then◌else◌,
  Bool-cases, inl, inr,
}
use copilot_token_cost.Prelude.Maps.{Map, lookup, lookup-insert}
use copilot_token_cost.Prelude.Floats.{Float64}
use copilot_token_cost.Domain.{Record, Stats}
use copilot_token_cost.Costing.Aggregate.{
  model_key, count_record, stats_or_new, aggregate_record, aggregate_from, aggregate_by_model,
}

module _ {ℓ} {W : Type ℓ} ⦃f : Float64 W⦄ (mult : Option (Bytes → Bytes → W)) where
  -- The statistics of a list of calls, in their order, on top of those so far.
  abbrev pub counted_from : Option (Stats W) → List Record → Option (Stats W)
  counted_from o [] = o
  counted_from o (r ∷ rs) = counted_from (some (count_record mult (stats_or_new o) r)) rs

  abbrev pub calls_of : Bytes → List Record → List Record
  calls_of model = keep (λ r. model_key r == model)

  aggregate_record-lookup :
      (model : Bytes) (aggregated : Map Bytes (Stats W)) (r : Record)
      → lookup model (aggregate_record mult aggregated r) ≡ (
          if model_key r == model
          then some (count_record mult (stats_or_new (lookup model aggregated)) r)
          else lookup model aggregated)
  unfolding aggregate_record
  aggregate_record-lookup model aggregated r = elim (Bool-cases (model_key r == model)) [
    | inl e ↦ let same = (eq_iff (model_key r) model).0 e in rw (lookup-insert, e, same)
    | inr e ↦ rw (lookup-insert, e)
  ]

  aggregate_from-lookup :
      (model : Bytes) (aggregated : Map Bytes (Stats W)) (rs : List Record)
      → lookup model (aggregate_from mult aggregated rs)
        ≡ counted_from (lookup model aggregated) (calls_of model rs)
  unfolding aggregate_from
  aggregate_from-lookup model aggregated [] = refl
  aggregate_from-lookup model aggregated (r ∷ rs) =
      let step = aggregate_record-lookup model aggregated r in
      let rest = aggregate_from-lookup model (aggregate_record mult aggregated r) rs in
      elim (Bool-cases (model_key r == model)) [
        | inl e ↦ rw (rest, step, e)
        | inr e ↦ rw (rest, step, e)
      ]

  -- The entry of a model is what its own calls add up to, in the order of the log, floats included; a
  -- model with no calls has no entry.
  pub aggregate_by_model-lookup :
      (model : Bytes) (rs : List Record)
      → lookup model (aggregate_by_model mult rs) ≡ counted_from none (calls_of model rs)
  unfolding aggregate_by_model lookup
  aggregate_by_model-lookup model rs = aggregate_from-lookup model [] rs
