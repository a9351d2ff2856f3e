-- ===== src/StatsService/Derived/Merged.antt =====
-- What the maps of models and of projects add up to, from the maps that they are made of.
use copilot_token_cost.Prelude.{◌≡◌, ap, sym, ◌∙◌, Bool, [], ◌∷◌, Bytes}
use copilot_token_cost.Prelude.Maps.{Map}
use copilot_token_cost.Prelude.Floats.{Float64}
use copilot_token_cost.Domain.{Stats}
use copilot_token_cost.Domain.Counters.{Counters, plus, plus_assoc, plus_left_comm, of_stats}
use copilot_token_cost.StatsService.Derived.{
  ByModel, ByDay, ByProject, merge_at, merge_at2, ensure, merge_all, model_stats_of, merge_project,
  merge_projects, project_stats_of,
}
use copilot_token_cost.StatsService.Derived.Sums.{
  sum1, sum2, sum3, zero-sum_of, sum1-merge_at, sum2-merge_at2, sum2-ensure,
}

-- Additions one by one, for a loop that adds what its entries weigh.
pub plus_next : (a b c : Counters) → plus b (plus a c) ≡ plus (plus a b) c
plus_next a b c = plus_left_comm b a c ∙ sym (plus_assoc a b c)

-- The sums over days and over projects.
module _ {ℓ} {W : Type ℓ} ⦃f : Float64 W⦄ where
  sum1-merge_all :
      (p : Bytes → Bool) (models out : ByModel (Stats W))
      → sum1 of_stats p (merge_all models out) ≡ plus (sum1 of_stats p models) (sum1 of_stats p out)
  unfolding merge_all
  sum1-merge_all p [] out = sym (zero-sum_of _ out)
  sum1-merge_all p ((model, s) ∷ models) out =
      sum1-merge_all p models (merge_at model s out)
      ∙ ap (plus (sum1 of_stats p models)) (sum1-merge_at p model s out)
      ∙ plus_next _ _ _

  pub sum1-model_stats_of :
      (p : Bytes → Bool) (daily : Map Bytes (ByModel (Stats W))) (out : ByModel (Stats W))
      → sum1 of_stats p (model_stats_of daily out)
        ≡ plus (sum2 of_stats (λ day. p) daily) (sum1 of_stats p out)
  unfolding model_stats_of
  sum1-model_stats_of p [] out = sym (zero-sum_of _ out)
  sum1-model_stats_of p ((day, models) ∷ daily) out =
      sum1-model_stats_of p daily (merge_all models out)
      ∙ ap (plus (sum2 of_stats (λ day. p) daily)) (sum1-merge_all p models out)
      ∙ plus_next _ _ _

  sum2-merge_project :
      (p : Bytes → Bytes → Bool) (project : Bytes) (models : ByModel (Stats W)) (out : ByProject W)
      → sum2 of_stats p (merge_project project models out).0
        ≡ plus (sum1 of_stats (p project) models) (sum2 of_stats p out.0)
  unfolding merge_project
  sum2-merge_project p project [] out = sym (zero-sum_of _ out.0)
  sum2-merge_project p project ((model, s) ∷ models) (by_model, by_project) =
      sum2-merge_project p project models
        (merge_at2 project model s by_model, merge_at project s by_project)
      ∙ ap (plus (sum1 of_stats (p project) models)) (sum2-merge_at2 p project model s by_model)
      ∙ plus_next _ _ _

  sum1-merge_project :
      (p : Bytes → Bool) (project : Bytes) (models : ByModel (Stats W)) (out : ByProject W)
      → sum1 of_stats p (merge_project project models out).1
        ≡ plus (sum1 of_stats (λ model. p project) models) (sum1 of_stats p out.1)
  unfolding merge_project
  sum1-merge_project p project [] out = sym (zero-sum_of _ out.1)
  sum1-merge_project p project ((model, s) ∷ models) (by_model, by_project) =
      sum1-merge_project p project models
        (merge_at2 project model s by_model, merge_at project s by_project)
      ∙ ap (plus (sum1 of_stats (λ model. p project) models)) (sum1-merge_at p project s by_project)
      ∙ plus_next _ _ _

  sum2-merge_projects :
      (p : Bytes → Bytes → Bool) (projects : Map Bytes (ByModel (Stats W))) (out : ByProject W)
      → sum2 of_stats p (merge_projects projects out).0
        ≡ plus (sum2 of_stats p projects) (sum2 of_stats p out.0)
  unfolding merge_projects
  sum2-merge_projects p [] out = sym (zero-sum_of _ out.0)
  sum2-merge_projects p ((project, models) ∷ projects) (by_model, by_project) =
      let started : ByProject W = (ensure project by_model, by_project) in
      sum2-merge_projects p projects (merge_project project models started)
      ∙ ap (plus (sum2 of_stats p projects)) (
          sum2-merge_project p project models started
          ∙ ap (plus (sum1 of_stats (p project) models)) (sum2-ensure of_stats p project by_model))
      ∙ plus_next _ _ _

  sum1-merge_projects :
      (p : Bytes → Bool) (projects : Map Bytes (ByModel (Stats W))) (out : ByProject W)
      → sum1 of_stats p (merge_projects projects out).1
        ≡ plus (sum2 of_stats (λ project model. p project) projects) (sum1 of_stats p out.1)
  unfolding merge_projects
  sum1-merge_projects p [] out = sym (zero-sum_of _ out.1)
  sum1-merge_projects p ((project, models) ∷ projects) (by_model, by_project) =
      let started : ByProject W = (ensure project by_model, by_project) in
      sum1-merge_projects p projects (merge_project project models started)
      ∙ ap (plus (sum2 of_stats (λ project model. p project) projects))
          (sum1-merge_project p project models started)
      ∙ plus_next _ _ _

  pub sum2-project_stats_of :
      (p : Bytes → Bytes → Bool) (days : ByDay (Stats W)) (out : ByProject W)
      → sum2 of_stats p (project_stats_of days out).0
        ≡ plus (sum3 of_stats (λ day. p) days) (sum2 of_stats p out.0)
  unfolding project_stats_of
  sum2-project_stats_of p [] out = sym (zero-sum_of _ out.0)
  sum2-project_stats_of p ((day, projects) ∷ days) out =
      sum2-project_stats_of p days (merge_projects projects out)
      ∙ ap (plus (sum3 of_stats (λ day. p) days)) (sum2-merge_projects p projects out)
      ∙ plus_next _ _ _

  pub sum1-project_stats_of :
      (p : Bytes → Bool) (days : ByDay (Stats W)) (out : ByProject W)
      → sum1 of_stats p (project_stats_of days out).1
        ≡ plus (sum3 of_stats (λ day project model. p project) days) (sum1 of_stats p out.1)
  unfolding project_stats_of
  sum1-project_stats_of p [] out = sym (zero-sum_of _ out.1)
  sum1-project_stats_of p ((day, projects) ∷ days) out =
      sum1-project_stats_of p days (merge_projects projects out)
      ∙ ap (plus (sum3 of_stats (λ day project model. p project) days))
          (sum1-merge_projects p projects out)
      ∙ plus_next _ _ _
