-- ===== src/Costing/Aggregate.antt =====
-- internal/costing/service.go: `AggregateByModel`, the statistics of each model.
pub mod ByModel
pub mod Total
use copilot_token_cost.Prelude.{
  ℕ, Bool, true, false, Option, none, some, List, [], ◌∷◌, Bytes, codes, ◌==◌, bytes_eq,
  if◌then◌else◌,
}
use copilot_token_cost.Prelude.Maps.{Map, lookup, insert}
use copilot_token_cost.Prelude.Floats.{Float64}
use copilot_token_cost.Domain.{Record, Stats, new_stats, add_record}
use copilot_token_cost.Costing.Normalize.{normalize_model}

-- The key of a record: its normalized model, or `unknown`.
unfoldable pub model_key : Record → Bytes
model_key r = let model = normalize_model r.model in if model == [] then codes "unknown" else model

module _ {ℓ} {W : Type ℓ} ⦃f : Float64 W⦄ where
  abbrev pub stats_or_new : Option (Stats W) → Stats W
  stats_or_new none = new_stats
  stats_or_new (some s) = s

module _ {ℓ} {W : Type ℓ} ⦃f : Float64 W⦄ (premium_multiplier : Option (Bytes → Bytes → W)) where
  -- The function may be nil.
  abbrev multiplier_at : Option (Bytes → Bytes → W) → Record → W
  multiplier_at none r = f.nought
  multiplier_at (some mult) r = if r.is_user_turn then mult (model_key r) r.timestamp else f.nought

  -- `stats.AddRecord(record, multiplier)` with the record's multiplier.
  pub count_record : Stats W → Record → Stats W
  count_record s r = add_record s r (multiplier_at premium_multiplier r)

  -- One round of the loop.
  pub aggregate_record : Map Bytes (Stats W) → Record → Map Bytes (Stats W)
  unfolding count_record
  aggregate_record aggregated r =
      insert (model_key r) (count_record (stats_or_new (lookup (model_key r) aggregated)) r)
        aggregated

  pub aggregate_from : Map Bytes (Stats W) → List Record → Map Bytes (Stats W)
  unfolding aggregate_record
  aggregate_from aggregated [] = aggregated
  aggregate_from aggregated (r ∷ rs) = aggregate_from (aggregate_record aggregated r) rs

  pub aggregate_by_model : List Record → Map Bytes (Stats W)
  unfolding aggregate_from
  aggregate_by_model records = aggregate_from [] records
