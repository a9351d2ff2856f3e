-- ===== src/StatsService/Payload.antt =====
-- stats_service.go: `buildStatsPayload`. `RoundN(…, 4)` is an argument; a map is a list of its entries, in
-- the order in which `range` happens to go through it.
pub mod Entries
use copilot_token_cost.Prelude.{
  ℕ, Bool, true, false, Option, none, some, List, [], ◌∷◌, ◌++◌, Bytes, codes, map, ◌==◌, bytes_eq,
  if◌then◌else◌,
}
use copilot_token_cost.Prelude.Maps.{Map, lookup, insert, keys}
use copilot_token_cost.Prelude.Sorting.{sort_strings}
use copilot_token_cost.Prelude.Floats.{Float64}
use copilot_token_cost.Domain.{Record, Stats, new_stats, merge_stats}
use copilot_token_cost.Costing.Periods.{PricingPeriod, get_premium_request_cost}
use copilot_token_cost.Costing.Cost.{
  calc_cost, calc_cost_no_cache, sum_daily_cost, sum_daily_premium_cost,
}
use copilot_token_cost.StatsService.Derived.{ByModel, ByDay, DerivedStats, or_empty}
use copilot_token_cost.StatsService.Hourly.{
  StatsPayloadStats, payload_of, normalize_timezone_offset_minutes, Times, build_hourly_stats_map,
}
use copilot_token_cost.StatsService.ProjectCosts.{
  Costs, costs_or_nought, ProjectCosts, project_costs_of, sum_project_daily_prem_cost,
  sum_project_model_daily_prem_cost,
}

-- What an entry of `Daily` is: it holds `interface{}`.
pub data DayValue {ℓ} (W : Type ℓ) : Type ℓ where
  of_model : StatsPayloadStats W → DayValue W
  of_total : W → DayValue W

pub record AggregatedStats {ℓ} (W : Type ℓ) : Type ℓ where
  pub derived : DerivedStats W
  pub records : List Record
  pub log_file_count : ℕ

-- `hourly` is `none` for a panic.
pub record StatsPayload {ℓ} (W : Type ℓ) : Type ℓ where
  pub period : Bytes
  pub date_range : Option Bytes
  pub log_files : ℕ
  pub api_calls : ℕ
  pub models : Map Bytes (StatsPayloadStats W)
  pub daily : Map Bytes (Map Bytes (DayValue W))
  pub hourly : Option (Map Bytes (StatsPayloadStats W))
  pub viewer_timezone_offset_min : ℕ
  pub projects : Map Bytes (StatsPayloadStats W)
  pub daily_projects : Map Bytes (Map Bytes (StatsPayloadStats W))
  pub total_cost : W
  pub total_cost_no_cache : W
  pub total_premium_request_cost : W
  pub project_models : Map Bytes (ByModel (StatsPayloadStats W))

abbrev pub put {ℓ κ} :
    {V : Type ℓ} {U : Type κ} → (Bytes → V → U) → Bytes → Option V → Map Bytes U → Map Bytes U
put g key none out = out
put g key (some v) out = insert key (g key v) out

-- `for _, key := range sorted { out[key] = g(key, m[key]) }`, for keys of the map.
unfoldable pub at_keys {ℓ κ} :
    {V : Type ℓ} {U : Type κ}
    → (Bytes → V → U)
    → Map Bytes V
    → List Bytes
    → Map Bytes U
    → Map Bytes U
at_keys g m [] out = out
at_keys g m (key ∷ ks) out = at_keys g m ks (put g key (lookup key m) out)

-- `for key, v := range m { out[key] = f(key, v) }`
unfoldable pub each_entry {ℓ κ} :
    {V : Type ℓ} {U : Type κ} → (Bytes → V → U) → Map Bytes V → Map Bytes U → Map Bytes U
each_entry g [] out = out
each_entry g ((key, v) ∷ m) out = each_entry g m (insert key (g key v) out)

module _ {ℓ} {W : Type ℓ} ⦃f : Float64 W⦄ (round4 : W → W) (periods : List (PricingPeriod W)) where
  abbrev pub model_cost : Bytes → Map Bytes (ByModel (Stats W)) → W
  model_cost model daily = sum_daily_cost model daily (calc_cost periods)

  abbrev pub model_cost_no_cache : Bytes → Map Bytes (ByModel (Stats W)) → W
  model_cost_no_cache model daily = sum_daily_cost model daily (calc_cost_no_cache periods)

  abbrev pub model_entry : Map Bytes (ByModel (Stats W)) → Bytes → Stats W → StatsPayloadStats W
  model_entry daily model s =
      payload_of round4 s (sum_daily_premium_cost periods model daily) (model_cost model daily)
        (model_cost_no_cache model daily)

  unfoldable pub model_entries : DerivedStats W → Map Bytes (StatsPayloadStats W)
  model_entries d = at_keys (model_entry d.daily) d.models (sort_strings (keys d.models)) []

  -- A total over the sorted models, before it is rounded.
  unfoldable pub total_over : (Bytes → W) → W → List Bytes → W
  total_over cost total [] = total
  total_over cost total (model ∷ models) = total_over cost (f.add total (cost model)) models

  -- The entry of a model on a day, or of a project on one.
  abbrev pub entry_on : Bytes → Stats W → W → W → StatsPayloadStats W
  entry_on day s cost cost_no_cache =
      payload_of round4 s (f.mul s.premium_requests (get_premium_request_cost periods day)) cost
        cost_no_cache

  -- The loop over the models of a day, with the totals of the day.
  unfoldable pub day_models :
      Bytes → ByModel (Stats W) → Map Bytes (DayValue W) → W → W → Map Bytes (DayValue W)
  day_models day [] out total total_no_cache =
      insert (codes "_total_cost_without_cache") (of_total (round4 total_no_cache))
        (insert (codes "_total_cost") (of_total (round4 total)) out)
  day_models day ((model, s) ∷ models) out total total_no_cache =
      let cost = calc_cost periods model s day in
      let cost_no_cache = calc_cost_no_cache periods model s day in
      day_models day models (insert model (of_model (entry_on day s cost cost_no_cache)) out)
        (f.add total cost) (f.add total_no_cache cost_no_cache)

  unfoldable pub daily_entries : DerivedStats W → Map Bytes (Map Bytes (DayValue W))
  daily_entries d =
      at_keys (λ day models. day_models day models [] f.nought f.nought) d.daily
        (sort_strings (keys d.daily)) []

  abbrev pub project_entry :
      ProjectCosts W → ByDay (Stats W) → Bytes → Stats W → StatsPayloadStats W
  project_entry t days project s =
      let c = costs_or_nought (lookup project t.by_project) in
      payload_of round4 s (sum_project_daily_prem_cost periods project days) c.0 c.1

  unfoldable pub project_entries : DerivedStats W → Map Bytes (StatsPayloadStats W)
  project_entries d =
      let days = d.project_daily_models in
      each_entry (project_entry (project_costs_of periods days) days) d.projects []

  abbrev pub project_model_entry :
      ProjectCosts W → ByDay (Stats W) → Bytes → Bytes → Stats W → StatsPayloadStats W
  project_model_entry t days project model s =
      let c = costs_or_nought (lookup model (or_empty (lookup project t.by_model))) in
      payload_of round4 s (sum_project_model_daily_prem_cost periods project model days) c.0 c.1

  -- An empty map where there are no projects: it is left out then.
  unfoldable pub project_model_entries : DerivedStats W → Map Bytes (ByModel (StatsPayloadStats W))
  project_model_entries d =
      let days = d.project_daily_models in
      let t = project_costs_of periods days in
      each_entry (λ project models. each_entry (project_model_entry t days project) models [])
        d.project_models []

  -- The models of a project on a day, merged into new statistics, and their costs.
  unfoldable pub merge_day : Bytes → ByModel (Stats W) → Stats W → W → W → StatsPayloadStats W
  merge_day day [] s cost cost_no_cache = entry_on day s cost cost_no_cache
  merge_day day ((model, t) ∷ models) s cost cost_no_cache =
      merge_day day models (merge_stats s t) (f.add cost (calc_cost periods model t day))
        (f.add cost_no_cache (calc_cost_no_cache periods model t day))

  unfoldable pub daily_project_entries :
      DerivedStats W → Map Bytes (Map Bytes (StatsPayloadStats W))
  daily_project_entries d =
      at_keys
        (λ day projects.
          at_keys (λ project models. merge_day day models new_stats f.nought f.nought) projects
            (sort_strings (keys projects)) [])
        d.project_daily_models (sort_strings (keys d.project_daily_models)) []

  unfoldable pub build_stats_payload {κ} :
      {T : Type κ} → Times T → AggregatedStats W → Bytes → Bytes → ℕ → StatsPayload W
  build_stats_payload times aggregated period_label date_range viewer_offset =
      let d = aggregated.derived in
      let offset = normalize_timezone_offset_minutes viewer_offset in
      let models = sort_strings (keys d.models) in
      record {
        period = period_label;
        date_range = if date_range == [] then none else some date_range;
        log_files = aggregated.log_file_count;
        api_calls = d.total_records;
        models = model_entries d;
        daily = daily_entries d;
        hourly = build_hourly_stats_map round4 times periods aggregated.records offset;
        viewer_timezone_offset_min = offset;
        projects = project_entries d;
        daily_projects = daily_project_entries d;
        total_cost = round4 (total_over (λ m. model_cost m d.daily) f.nought models);
        total_cost_no_cache =
            round4 (total_over (λ m. model_cost_no_cache m d.daily) f.nought models);
        total_premium_request_cost =
            round4 (total_over (λ m. sum_daily_premium_cost periods m d.daily) f.nought models);
        project_models = project_model_entries d;
      }
