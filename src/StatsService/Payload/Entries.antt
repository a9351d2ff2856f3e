-- ===== src/StatsService/Payload/Entries.antt =====
-- What the entries of a payload are.
use copilot_token_cost.Prelude.{
  ℕ, ◌≡◌, refl, ap, sym, subst, ◌∙◌, Bool, true, false, Option, none, some, List, [], ◌∷◌, Bytes,
  ◌==◌, bytes_eq, eq_iff, if◌then◌else◌, arith, Bool-cases, inl, inr,
}
use copilot_token_cost.Prelude.Maps.{Map, lookup, lookup-insert, is_some, is_in, keys, is_in-keys}
use copilot_token_cost.Prelude.Sorting.{sort_strings, any-sort}
use copilot_token_cost.Prelude.Floats.{Float64}
use copilot_token_cost.Domain.{Stats, new_stats, merge_stats}
use copilot_token_cost.Domain.Counters.{
  plus, IsWord, plus_assoc, plus-IsWord, of_stats, of_stats-merge,
}
use copilot_token_cost.Costing.Periods.{PricingPeriod}
use copilot_token_cost.StatsService.Derived.{ByModel, or_empty}
use copilot_token_cost.StatsService.Derived.Sums.{sum1, zero-sum_of}
use copilot_token_cost.StatsService.Hourly.{StatsPayloadStats, payload_of, Times}
use copilot_token_cost.StatsService.Hourly.Conserved.{of_payload, plus-none, zero-IsWord}
use copilot_token_cost.StatsService.Payload.{
  put, at_keys, AggregatedStats, model_entry, model_entries, merge_day, daily_project_entries,
  build_stats_payload,
}

abbrev pub mapped {ℓ κ} : {V : Type ℓ} {U : Type κ} → (V → U) → Option V → Option U
mapped g none = none
mapped g (some v) = some (g v)

abbrev else_kept {κ} : {U : Type κ} → Option U → Option U → Option U
else_kept none o = o
else_kept (some u) o = some u

kept_twice {κ} :
    {U : Type κ} (b : Bool) (x o : Option U)
    → (if b then else_kept x (else_kept x o) else else_kept x o) ≡ else_kept x o
kept_twice true none o = refl
kept_twice true (some u) o = refl
kept_twice false x o = refl

module _ {ℓ κ} {V : Type ℓ} {U : Type κ} (g : Bytes → V → U) (m : Map Bytes V) where
  lookup-put :
      (key asked : Bytes) (o : Option V) (out : Map Bytes U)
      → lookup asked (put g key o out) ≡ (
          if key == asked
          then else_kept (mapped (g key) o) (lookup asked out)
          else lookup asked out)
  lookup-put key asked none out = ground arith
  lookup-put key asked (some v) out = lookup-insert key asked (g key v) out

  lookup-at_keys :
      (asked : Bytes) (ks : List Bytes) (out : Map Bytes U)
      → lookup asked (at_keys g m ks out) ≡ (
          if is_in asked ks
          then else_kept (mapped (g asked) (lookup asked m)) (lookup asked out)
          else lookup asked out)
  unfolding at_keys
  lookup-at_keys asked [] out = refl
  lookup-at_keys asked (key ∷ ks) out =
      lookup-at_keys asked ks (put g key (lookup key m) out) ∙ (elim (Bool-cases (key == asked)) [
        | inl e ↦
            let same = (eq_iff key asked).0 e in
            rw same (
              rw (lookup-put, (eq_iff asked asked).1 refl)
                (kept_twice (is_in asked ks) (mapped (g asked) (lookup asked m))
                  (lookup asked out)))
        | inr e ↦ rw (lookup-put, e)
      ])

  -- Over the sorted keys, the map has just the entries of the other map.
  pub lookup-at_sorted_keys :
      (asked : Bytes)
      → lookup asked (at_keys g m (sort_strings (keys m)) []) ≡ mapped (g asked) (lookup asked m)
  unfolding lookup
  lookup-at_sorted_keys asked =
      lookup-at_keys asked (sort_strings (keys m)) []
      ∙ rw (any-sort (λ k. k == asked) (keys m), is_in-keys asked m) (of_found (lookup asked m))
    where
      of_found :
          (o : Option V)
          → (if is_some o then else_kept (mapped (g asked) o) none else none) ≡ mapped (g asked) o
      of_found none = refl
      of_found (some v) = refl

module _ {ℓ} {W : Type ℓ} ⦃f : Float64 W⦄ (round4 : W → W) (periods : List (PricingPeriod W)) where
  of_payload-merge_day :
      (day : Bytes) (models : ByModel (Stats W)) (s : Stats W) (c n : W)
      → IsWord (of_stats s)
      → of_payload (merge_day round4 periods day models s c n)
        ≡ plus (of_stats s) (sum1 of_stats (λ _. true) models)
  unfolding merge_day payload_of
  of_payload-merge_day day [] s c n h = sym (plus-none (of_stats s) h)
  of_payload-merge_day day ((model, t) ∷ models) s c n h =
      let e = of_stats-merge s t in
      of_payload-merge_day day models (merge_stats s t) _ _
        (subst IsWord (sym e) (plus-IsWord (of_stats s) (of_stats t)))
      ∙ ap (λ k. plus k (sum1 of_stats (λ _. true) models)) e
      ∙ plus_assoc (of_stats s) (of_stats t) (sum1 of_stats (λ _. true) models)

  model_counters :
      (daily : Map Bytes (ByModel (Stats W))) (model : Bytes) (o : Option (Stats W))
      → mapped of_payload (mapped (model_entry round4 periods daily model) o) ≡ mapped of_stats o
  unfolding payload_of
  model_counters daily model none = refl
  model_counters daily model (some s) = refl

  abbrev day_entry : Bytes → ByModel (Stats W) → StatsPayloadStats W
  day_entry day models = merge_day round4 periods day models new_stats f.nought f.nought

  day_counters :
      (day : Bytes) (o : Option (ByModel (Stats W)))
      → mapped of_payload (mapped (day_entry day) o) ≡ mapped (sum1 of_stats (λ _. true)) o
  day_counters day none = refl
  day_counters day (some models) = ap some (
      of_payload-merge_day day models new_stats f.nought f.nought zero-IsWord
      ∙ zero-sum_of (λ key s. of_stats s) models)

  project_counters :
      (day project : Bytes) (o : Option (Map Bytes (ByModel (Stats W))))
      → mapped of_payload (
          lookup project (
            or_empty (
              mapped
                (λ projects.
                  at_keys
                    (λ p models. day_entry day models)
                    projects
                    (sort_strings (keys projects))
                    [])
                o)))
        ≡ mapped (sum1 of_stats (λ _. true)) (lookup project (or_empty o))
  unfolding lookup
  project_counters day project none = refl
  project_counters day project (some projects) =
      ap (mapped of_payload)
        (lookup-at_sorted_keys (λ p models. day_entry day models) projects project)
      ∙ day_counters day (lookup project projects)

  -- The payload has an entry for just the models of the statistics, with their counters; and on each day
  -- one for just the projects of that day, with the counters of all its models together.
  pub build_stats_payload_lem {κ} :
      {T : Type κ} (times : Times T) (aggregated : AggregatedStats W) (label range : Bytes)
      (offset : ℕ)
      → let d = aggregated.derived in
        let p = build_stats_payload round4 periods times aggregated label range offset in
        ((model : Bytes)
          → mapped of_payload (lookup model p.models) ≡ mapped of_stats (lookup model d.models))
        × ((day project : Bytes)
            → mapped of_payload (lookup project (or_empty (lookup day p.daily_projects)))
              ≡ mapped
                  (sum1 of_stats (λ _. true))
                  (lookup project (or_empty (lookup day d.project_daily_models))))
  unfolding build_stats_payload model_entries daily_project_entries
  build_stats_payload_lem times aggregated label range offset =
      let d = aggregated.derived in
      (
        λ model.
            ap (mapped of_payload)
              (lookup-at_sorted_keys (model_entry round4 periods d.daily) d.models model)
            ∙ model_counters d.daily model (lookup model d.models),
        λ day project.
            ap (λ o. mapped of_payload (lookup project (or_empty o)))
              (lookup-at_sorted_keys
                (λ day projects.
                  at_keys (λ p models. day_entry day models) projects (sort_strings (keys projects))
                    [])
                d.project_daily_models day)
            ∙ project_counters day project (lookup day d.project_daily_models),
      )
