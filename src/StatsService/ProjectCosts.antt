-- ===== src/StatsService/ProjectCosts.antt =====
-- stats_service.go: what the projects cost, summed from the statistics by day, project and model.
use copilot_token_cost.Prelude.{Option, none, some, List, [], ◌∷◌, Bytes, bytes_eq}
use copilot_token_cost.Prelude.Maps.{Map, lookup, insert}
use copilot_token_cost.Prelude.Floats.{Float64}
use copilot_token_cost.Domain.{Stats}
use copilot_token_cost.Costing.Periods.{PricingPeriod, get_premium_request_cost}
use copilot_token_cost.Costing.Cost.{calc_cost, calc_cost_no_cache}
use copilot_token_cost.StatsService.Derived.{ByModel, ByDay, or_empty, ensure}

-- A cost and the cost without a cache.
abbrev pub Costs {ℓ} : Type ℓ → Type ℓ
Costs W = W × W

-- `projectCostTotals` and `projectModelCostTotals`.
pub record ProjectCosts {ℓ} (W : Type ℓ) : Type ℓ where
  pub by_project : Map Bytes (Costs W)
  pub by_model : Map Bytes (ByModel (Costs W))

module _ {ℓ} {W : Type ℓ} ⦃f : Float64 W⦄ where
  -- The two loops that sum the premium costs of a project, by its models and by one of them.
  unfoldable pub add_premium_requests : W → W → ByModel (Stats W) → W
  add_premium_requests total cost [] = total
  add_premium_requests total cost ((model, s) ∷ models) =
      add_premium_requests (f.add total (f.mul s.premium_requests cost)) cost models

  unfoldable pub sum_project_premium_from : W → List (PricingPeriod W) → Bytes → ByDay (Stats W) → W
  sum_project_premium_from total periods project [] = total
  sum_project_premium_from total periods project ((day, projects) ∷ days) =
      sum_project_premium_from
        (add_premium_requests total (get_premium_request_cost periods day)
          (or_empty (lookup project projects)))
        periods project days

  unfoldable pub sum_project_daily_prem_cost : List (PricingPeriod W) → Bytes → ByDay (Stats W) → W
  sum_project_daily_prem_cost periods project days =
      sum_project_premium_from f.nought periods project days

  unfoldable pub sum_project_model_premium_from :
      W → List (PricingPeriod W) → Bytes → Bytes → ByDay (Stats W) → W
  sum_project_model_premium_from total periods project model [] = total
  sum_project_model_premium_from total periods project model ((day, projects) ∷ days) =
      sum_project_model_premium_from
        (elim (lookup model (or_empty (lookup project projects))) [
          | none ↦ total
          | some s ↦ f.add total (f.mul s.premium_requests (get_premium_request_cost periods day))
        ])
        periods project model days

  unfoldable pub sum_project_model_daily_prem_cost :
      List (PricingPeriod W) → Bytes → Bytes → ByDay (Stats W) → W
  sum_project_model_daily_prem_cost periods project model days =
      sum_project_model_premium_from f.nought periods project model days

  abbrev pub costs_or_nought : Option (Costs W) → Costs W
  costs_or_nought none = (f.nought, f.nought)
  costs_or_nought (some c) = c

  abbrev pub both_added : Costs W → Costs W → Costs W
  both_added c d = (f.add c.0 d.0, f.add c.1 d.1)

  abbrev pub add_to : Bytes → Costs W → Map Bytes (Costs W) → Map Bytes (Costs W)
  add_to key c m = insert key (both_added (costs_or_nought (lookup key m)) c) m

  unfoldable pub add_model_costs :
      List (PricingPeriod W) → Bytes → Bytes → ByModel (Stats W) → ProjectCosts W → ProjectCosts W
  add_model_costs periods day project [] t = t
  add_model_costs periods day project ((model, s) ∷ models) t =
      let c : Costs W = (calc_cost periods model s day, calc_cost_no_cache periods model s day) in
      add_model_costs periods day project models (record {
        by_project = add_to project c t.by_project;
        by_model =
            insert project (add_to model c (or_empty (lookup project t.by_model))) t.by_model;
      })

  unfoldable pub add_project_costs :
      List (PricingPeriod W)
      → Bytes
      → Map Bytes (ByModel (Stats W))
      → ProjectCosts W
      → ProjectCosts W
  add_project_costs periods day [] t = t
  add_project_costs periods day ((project, models) ∷ projects) t =
      add_project_costs periods day projects (
        add_model_costs periods day project models
          (record t { by_model = ensure project t.by_model }))

  unfoldable pub add_day_costs :
      List (PricingPeriod W) → ByDay (Stats W) → ProjectCosts W → ProjectCosts W
  add_day_costs periods [] t = t
  add_day_costs periods ((day, projects) ∷ days) t =
      add_day_costs periods days (add_project_costs periods day projects t)

  unfoldable pub project_costs_of : List (PricingPeriod W) → ByDay (Stats W) → ProjectCosts W
  project_costs_of periods days =
      add_day_costs periods days (record { by_project = []; by_model = [] })
