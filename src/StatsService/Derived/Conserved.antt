-- ===== src/StatsService/Derived/Conserved.antt =====
-- No call of the query's rows is lost or counted twice in the statistics that are derived from them.
use copilot_token_cost.Prelude.{◌≡◌, refl, ap, sym, ◌∙◌, Bool, true, [], ◌∷◌, Bytes}
use copilot_token_cost.Prelude.Int64.{add64, add64_comm}
use copilot_token_cost.Prelude.Maps.{Map}
use copilot_token_cost.Prelude.Floats.{Float64}
use copilot_token_cost.Domain.Counters.{Counters, plus, plus_comm, none_counted, of_stats}
use copilot_token_cost.StatsService.Derived.{
  ByModel, ByDay, DbModelStats, DerivedStats, Collected, db_stats_to_stats, ensure, collect_model,
  collect_models, collect_cwds, collect_days, nothing_collected, label_of, build_all_derived_stats,
}
use copilot_token_cost.StatsService.Derived.Sums.{
  of_db, selected, sum_of, sum1, sum2, sum3, zero-sum_of, sum2-merge_at2, sum3-merge_at3,
  sum2-ensure,
}
use copilot_token_cost.StatsService.Derived.Merged.{
  plus_next, sum1-model_stats_of, sum2-project_stats_of, sum1-project_stats_of,
}

module _ {ℓ} {W : Type ℓ} ⦃f : Float64 W⦄ (multiplier : Bytes → Bytes → W)
    (label : Bytes → Bytes) where
  -- Something that every row adds its counters to, where it is selected, and that an empty day leaves.
  record IsCounting (measure : Collected W → Counters) (q : Bytes → Bytes → Bytes → Bool)
      : Type ℓ where
    word : (c : Collected W) → plus none_counted (measure c) ≡ measure c
    step :
        (day cwd model : Bytes) (dbs : DbModelStats) (c : Collected W)
        → measure (collect_model multiplier label day cwd model dbs c)
          ≡ plus (selected (q day cwd model) (of_db dbs)) (measure c)
    day :
        (day : Bytes) (c : Collected W)
        → measure (record c { daily = ensure day c.daily }) ≡ measure c

  module _ (measure : Collected W → Counters) (q : Bytes → Bytes → Bytes → Bool)
      (h : IsCounting measure q) where
    models_lem :
        (day cwd : Bytes) (models : ByModel DbModelStats) (c : Collected W)
        → measure (collect_models multiplier label day cwd models c)
          ≡ plus (sum1 of_db (q day cwd) models) (measure c)
    unfolding collect_models
    models_lem day cwd [] c = sym (h.word c)
    models_lem day cwd ((model, dbs) ∷ models) c =
        models_lem day cwd models (collect_model multiplier label day cwd model dbs c)
        ∙ ap (plus (sum1 of_db (q day cwd) models)) (h.step day cwd model dbs c)
        ∙ plus_next _ _ _

    cwds_lem :
        (day : Bytes) (cwds : Map Bytes (ByModel DbModelStats)) (c : Collected W)
        → measure (collect_cwds multiplier label day cwds c)
          ≡ plus (sum2 of_db (q day) cwds) (measure c)
    unfolding collect_cwds
    cwds_lem day [] c = sym (h.word c)
    cwds_lem day ((cwd, models) ∷ cwds) c =
        cwds_lem day cwds (collect_models multiplier label day cwd models c)
        ∙ ap (plus (sum2 of_db (q day) cwds)) (models_lem day cwd models c)
        ∙ plus_next _ _ _

    days_lem :
        (raw : ByDay DbModelStats) (c : Collected W)
        → measure (collect_days multiplier label raw c) ≡ plus (sum3 of_db q raw) (measure c)
    unfolding collect_days
    days_lem [] c = sym (h.word c)
    days_lem ((day, cwds) ∷ raw) c =
        let started = record c { daily = ensure day c.daily } in
        days_lem raw (collect_cwds multiplier label day cwds started)
        ∙ ap (plus (sum3 of_db q raw))
            (cwds_lem day cwds started ∙ ap (plus (sum2 of_db (q day) cwds)) (h.day day c))
        ∙ plus_next _ _ _

  daily-IsCounting :
      (p : Bytes → Bytes → Bool)
      → IsCounting (λ c. sum2 of_stats p c.daily) (λ day cwd model. p day model)
  unfolding collect_model db_stats_to_stats
  daily-IsCounting p = record {
    word = λ c. zero-sum_of _ c.daily;
    step = λ day cwd model dbs c. sum2-merge_at2 p day model _ c.daily;
    day = λ day c. sum2-ensure of_stats p day c.daily;
  }

  project_daily-IsCounting :
      (p : Bytes → Bytes → Bytes → Bool)
      → IsCounting (λ c. sum3 of_stats p c.project_daily) (λ day cwd model. p day (label cwd) model)
  unfolding collect_model db_stats_to_stats
  project_daily-IsCounting p = record {
    word = λ c. zero-sum_of _ c.project_daily;
    step = λ day cwd model dbs c. sum3-merge_at3 p day (label cwd) model _ c.project_daily;
    day = λ day c. refl;
  }

-- The total counts the calls of the daily statistics.
module _ {ℓ} {W : Type ℓ} ⦃f : Float64 W⦄ (multiplier : Bytes → Bytes → W)
    (label : Bytes → Bytes) where
  abbrev IsCounted : Collected W → Type 0
  IsCounted c = c.total_records ≡ (sum2 of_stats (λ _ _. true) c.daily).api_calls

  collect_model-IsCounted :
      (day cwd model : Bytes) (dbs : DbModelStats) (c : Collected W)
      → IsCounted c
      → IsCounted (collect_model multiplier label day cwd model dbs c)
  unfolding collect_model db_stats_to_stats plus
  collect_model-IsCounted day cwd model dbs c h =
      add64_comm c.total_records dbs.api_calls
      ∙ ap (add64 dbs.api_calls) h
      ∙ sym (ap (λ k. k.api_calls) (sum2-merge_at2 (λ _ _. true) day model _ c.daily))

  models-IsCounted :
      (day cwd : Bytes) (models : ByModel DbModelStats) (c : Collected W)
      → IsCounted c
      → IsCounted (collect_models multiplier label day cwd models c)
  unfolding collect_models
  models-IsCounted day cwd [] c h = h
  models-IsCounted day cwd ((model, dbs) ∷ models) c h =
      models-IsCounted day cwd models _ (collect_model-IsCounted day cwd model dbs c h)

  cwds-IsCounted :
      (day : Bytes) (cwds : Map Bytes (ByModel DbModelStats)) (c : Collected W)
      → IsCounted c
      → IsCounted (collect_cwds multiplier label day cwds c)
  unfolding collect_cwds
  cwds-IsCounted day [] c h = h
  cwds-IsCounted day ((cwd, models) ∷ cwds) c h =
      cwds-IsCounted day cwds _ (models-IsCounted day cwd models c h)

  days-IsCounted :
      (raw : ByDay DbModelStats) (c : Collected W)
      → IsCounted c
      → IsCounted (collect_days multiplier label raw c)
  unfolding collect_days
  days-IsCounted [] c h = h
  days-IsCounted ((day, cwds) ∷ raw) c h = days-IsCounted raw _ (
      cwds-IsCounted day cwds (record c { daily = ensure day c.daily })
        (h ∙ ap (λ k. k.api_calls) (sym (sum2-ensure of_stats (λ _ _. true) day c.daily))))

-- Whatever days, projects and models are selected, the entries of each map add up to what the rows of
-- the query with those days, labels and models add up to.
pub record IsConserved {ℓ} {W : Type ℓ} (label : Bytes → Bytes) (raw : ByDay DbModelStats)
    (d : DerivedStats W) : Type ℓ where
  pub daily :
      (p : Bytes → Bytes → Bool)
      → sum2 of_stats p d.daily ≡ sum3 of_db (λ day cwd model. p day model) raw
  pub models :
      (p : Bytes → Bool) → sum1 of_stats p d.models ≡ sum3 of_db (λ day cwd model. p model) raw
  pub projects :
      (p : Bytes → Bool)
      → sum1 of_stats p d.projects ≡ sum3 of_db (λ day cwd model. p (label cwd)) raw
  pub project_models :
      (p : Bytes → Bytes → Bool)
      → sum2 of_stats p d.project_models ≡ sum3 of_db (λ day cwd model. p (label cwd) model) raw
  pub project_daily_models :
      (p : Bytes → Bytes → Bytes → Bool)
      → sum3 of_stats p d.project_daily_models
        ≡ sum3 of_db (λ day cwd model. p day (label cwd) model) raw
  pub total_records : d.total_records ≡ (sum3 of_db (λ _ _ _. true) raw).api_calls

pub plus-sum_of {ℓ κ} :
    {K : Type κ} {V : Type ℓ} (w : K → V → Counters) (m : Map K V)
    → plus (sum_of w m) none_counted ≡ sum_of w m
plus-sum_of w m = plus_comm (sum_of w m) none_counted ∙ zero-sum_of w m

module _ {ℓ} {W : Type ℓ} ⦃f : Float64 W⦄ where
  -- The derived statistics lose no call of the query's rows and count none twice: whatever days,
  -- projects and models are selected, the counters of the entries of each of the five maps add up to
  -- those of the rows with those days, project labels and models, and the total is the number of calls
  -- of all rows (sums are those of Go's `int`).
  pub build_all_derived_stats-IsConserved :
      (home : Bytes) (multiplier : Bytes → Bytes → W) (raw : ByDay DbModelStats)
      → IsConserved (label_of home raw) raw (build_all_derived_stats home multiplier raw)
  unfolding build_all_derived_stats
  build_all_derived_stats-IsConserved home multiplier raw =
      let label = label_of home raw in
      let c : Collected W = collect_days multiplier label raw nothing_collected in
      let daily : (p : Bytes → Bytes → Bool)
          → sum2 of_stats p c.daily ≡ sum3 of_db (λ day cwd model. p day model) raw =
        λ p.
          days_lem multiplier label (λ k. sum2 of_stats p k.daily) (λ day cwd model. p day model)
            (daily-IsCounting multiplier label p) raw nothing_collected
          ∙ plus-sum_of _ raw in
      let by_project : (p : Bytes → Bytes → Bytes → Bool)
          → sum3 of_stats p c.project_daily
            ≡ sum3 of_db (λ day cwd model. p day (label cwd) model) raw =
        λ p.
          days_lem multiplier label (λ k. sum3 of_stats p k.project_daily)
            (λ day cwd model. p day (label cwd) model) (project_daily-IsCounting multiplier label p)
            raw nothing_collected
          ∙ plus-sum_of _ raw in
      record {
        daily = daily;
        models = λ p. sum1-model_stats_of p c.daily [] ∙ plus-sum_of _ c.daily ∙ daily (λ day. p);
        projects = λ p.
            sum1-project_stats_of p c.project_daily ([], [])
            ∙ plus-sum_of _ c.project_daily
            ∙ by_project (λ day project model. p project);
        project_models = λ p.
            sum2-project_stats_of p c.project_daily ([], [])
            ∙ plus-sum_of _ c.project_daily
            ∙ by_project (λ day. p);
        project_daily_models = by_project;
        total_records =
            days-IsCounted multiplier label raw nothing_collected refl
            ∙ ap (λ k. k.api_calls) (daily (λ _ _. true));
      }
