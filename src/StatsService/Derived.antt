-- ===== src/StatsService/Derived.antt =====
-- stats_service.go: `buildAllDerivedStats`. A map is a list of its entries, in the order in which `range`
-- happens to go through it; a pointer to a `Stats` is held by one map only, so it is the value.
pub mod Sums
pub mod Merged
pub mod Conserved
use copilot_token_cost.Prelude.{
  ℕ, Bool, true, false, Option, none, some, List, [], ◌∷◌, ◌++◌, Bytes, map, any, ◌==◌, bytes_eq,
  if◌then◌else◌,
}
use copilot_token_cost.Prelude.Int64.{add64}
use copilot_token_cost.Prelude.Maps.{Map, lookup, insert, is_some}
use copilot_token_cost.Prelude.Floats.{Float64}
use copilot_token_cost.Domain.{Stats, merge_stats}
use copilot_token_cost.StatsService.Project.{build_local_project_by_base, canonical_project_label}

-- A row of the query, without its keys.
pub record DbModelStats : Type 0 where
  pub api_calls : ℕ
  pub prompt_tokens : ℕ
  pub completion_tokens : ℕ
  pub cache_creation_tokens : ℕ
  pub cache_read_tokens : ℕ
  pub user_turns : ℕ

abbrev pub ByModel {ℓ} : Type ℓ → Type ℓ
ByModel V = Map Bytes V

-- By day, then by directory or project, then by model.
abbrev pub ByDay {ℓ} : Type ℓ → Type ℓ
ByDay V = Map Bytes (Map Bytes (ByModel V))

abbrev pub or_empty {ℓ} : {V : Type ℓ} → Option (Map Bytes V) → Map Bytes V
or_empty none = []
or_empty (some m) = m

pub record DerivedStats {ℓ} (W : Type ℓ) : Type ℓ where
  pub daily : Map Bytes (ByModel (Stats W))
  pub models : ByModel (Stats W)
  pub projects : Map Bytes (Stats W)
  pub project_models : Map Bytes (ByModel (Stats W))
  pub project_daily_models : ByDay (Stats W)
  pub total_records : ℕ

-- What the first loop builds.
pub record Collected {ℓ} (W : Type ℓ) : Type ℓ where
  pub daily : Map Bytes (ByModel (Stats W))
  pub project_daily : ByDay (Stats W)
  pub total_records : ℕ

-- The keys of `cwdSet`, each once.
unfoldable pub add_keys {ℓ} : {V : Type ℓ} → Map Bytes V → List Bytes → List Bytes
add_keys [] keys = keys
add_keys ((key, v) ∷ m) keys =
    let seen = add_keys m keys in
    let added = add_keys m (key ∷ keys) in if any (λ k. k == key) keys then seen else added

unfoldable pub all_cwds {ℓ} : {V : Type ℓ} → ByDay V → List Bytes → List Bytes
all_cwds [] keys = keys
all_cwds ((day, cwds) ∷ raw) keys = all_cwds raw (add_keys cwds keys)

-- `if m[key] == nil { m[key] = make(…) }`
unfoldable pub ensure {ℓ} : {V : Type ℓ} → Bytes → Map Bytes (Map Bytes V) → Map Bytes (Map Bytes V)
ensure key m = if is_some (lookup key m) then m else insert key [] m

-- `ProjectModelStats` and `ProjectStats`.
abbrev pub ByProject {ℓ} : Type ℓ → Type ℓ
ByProject W = Map Bytes (ByModel (Stats W)) × Map Bytes (Stats W)

abbrev pub label_of : Bytes → ByDay DbModelStats → Bytes → Bytes
label_of home raw cwd =
    canonical_project_label home cwd (build_local_project_by_base home (all_cwds raw []))

module _ {ℓ} {W : Type ℓ} ⦃f : Float64 W⦄ where
  unfoldable pub db_stats_to_stats : DbModelStats → W → Stats W
  db_stats_to_stats dbs premium_requests = record {
    api_calls = dbs.api_calls;
    user_turns = dbs.user_turns;
    prompt_tokens = dbs.prompt_tokens;
    completion_tokens = dbs.completion_tokens;
    cache_creation_tokens = dbs.cache_creation_tokens;
    cache_read_tokens = dbs.cache_read_tokens;
    premium_requests = premium_requests;
  }

  -- `if existing, ok := m[key]; ok { mergeStats(existing, s) } else { cp := *s; m[key] = &cp }`
  abbrev pub merged : Option (Stats W) → Stats W → Stats W
  merged none s = s
  merged (some existing) s = merge_stats existing s

  unfoldable pub merge_at : Bytes → Stats W → ByModel (Stats W) → ByModel (Stats W)
  merge_at key s m = insert key (merged (lookup key m) s) m

  unfoldable pub merge_at2 :
      Bytes → Bytes → Stats W → Map Bytes (ByModel (Stats W)) → Map Bytes (ByModel (Stats W))
  merge_at2 outer key s m = insert outer (merge_at key s (or_empty (lookup outer m))) m

  unfoldable pub merge_at3 : Bytes → Bytes → Bytes → Stats W → ByDay (Stats W) → ByDay (Stats W)
  merge_at3 day project model s m =
      insert day (merge_at2 project model s (or_empty (lookup day m))) m

  -- The loops behind the first one.
  unfoldable pub merge_all : ByModel (Stats W) → ByModel (Stats W) → ByModel (Stats W)
  merge_all [] out = out
  merge_all ((model, s) ∷ models) out = merge_all models (merge_at model s out)

  unfoldable pub model_stats_of :
      Map Bytes (ByModel (Stats W)) → ByModel (Stats W) → ByModel (Stats W)
  model_stats_of [] out = out
  model_stats_of ((day, models) ∷ daily) out = model_stats_of daily (merge_all models out)

  unfoldable pub merge_project : Bytes → ByModel (Stats W) → ByProject W → ByProject W
  merge_project project [] out = out
  merge_project project ((model, s) ∷ models) (by_model, by_project) =
      merge_project project models
        (merge_at2 project model s by_model, merge_at project s by_project)

  unfoldable pub merge_projects : Map Bytes (ByModel (Stats W)) → ByProject W → ByProject W
  merge_projects [] out = out
  merge_projects ((project, models) ∷ projects) (by_model, by_project) =
      merge_projects projects (merge_project project models (ensure project by_model, by_project))

  unfoldable pub project_stats_of : ByDay (Stats W) → ByProject W → ByProject W
  project_stats_of [] out = out
  project_stats_of ((day, projects) ∷ rest) out =
      project_stats_of rest (merge_projects projects out)

-- `multiplier` is `getPremiumMultiplier`, and `label` the label of a directory.
module _ {ℓ} {W : Type ℓ} ⦃f : Float64 W⦄ (multiplier : Bytes → Bytes → W)
    (label : Bytes → Bytes) where
  unfoldable pub collect_model : Bytes → Bytes → Bytes → DbModelStats → Collected W → Collected W
  collect_model day cwd model dbs c =
      let s = db_stats_to_stats dbs (f.mul (f.of_int dbs.user_turns) (multiplier model day)) in
      record {
        daily = merge_at2 day model s c.daily;
        project_daily = merge_at3 day (label cwd) model s c.project_daily;
        total_records = add64 c.total_records dbs.api_calls;
      }

  unfoldable pub collect_models : Bytes → Bytes → ByModel DbModelStats → Collected W → Collected W
  collect_models day cwd [] c = c
  collect_models day cwd ((model, dbs) ∷ models) c =
      collect_models day cwd models (collect_model day cwd model dbs c)

  unfoldable pub collect_cwds : Bytes → Map Bytes (ByModel DbModelStats) → Collected W → Collected W
  collect_cwds day [] c = c
  collect_cwds day ((cwd, models) ∷ cwds) c =
      collect_cwds day cwds (collect_models day cwd models c)

  unfoldable pub collect_days : ByDay DbModelStats → Collected W → Collected W
  collect_days [] c = c
  collect_days ((day, cwds) ∷ raw) c =
      collect_days raw (collect_cwds day cwds (record c { daily = ensure day c.daily }))

module _ {ℓ} {W : Type ℓ} ⦃f : Float64 W⦄ where
  abbrev pub nothing_collected : Collected W
  nothing_collected = record { daily = []; project_daily = []; total_records = 0 }

  abbrev pub derived_of : Collected W → ByProject W → DerivedStats W
  derived_of c (by_model, by_project) = record {
    daily = c.daily;
    models = model_stats_of c.daily [];
    projects = by_project;
    project_models = by_model;
    project_daily_models = c.project_daily;
    total_records = c.total_records;
  }

  unfoldable pub build_all_derived_stats :
      Bytes → (Bytes → Bytes → W) → ByDay DbModelStats → DerivedStats W
  build_all_derived_stats home multiplier raw =
      let c = collect_days multiplier (label_of home raw) raw nothing_collected in
      derived_of c (project_stats_of c.project_daily ([], []))
