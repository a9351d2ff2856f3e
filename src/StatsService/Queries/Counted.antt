-- ===== src/StatsService/Queries/Counted.antt =====
-- The calls of the database that the statistics count.
use copilot_token_cost.Prelude.{
  ◌≡◌, refl, ap, sym, ◌∙◌, Bool, true, false, ◌&&◌, Option, none, some, List, [], ◌∷◌, Bytes, take,
  keep, map, any, ◌==◌, nat_eq, bytes_eq, eq_iff, if◌then◌else◌, arith, Bool-cases, inl, inr, All,
}
use copilot_token_cost.Prelude.Maps.{lookup, insert}
use copilot_token_cost.Prelude.Distinct.{IsDistinct, insert-IsDistinct}
use copilot_token_cost.Prelude.Floats.{Float64}
use copilot_token_cost.Domain.Counters.{
  Counters, plus, plus_assoc, plus_comm, none_counted, of_stats, zero-plus, plus-IsWord,
}
use copilot_token_cost.Storage.{ApiCall, SessionWorkspace, Database}
use copilot_token_cost.StatsService.Derived.{DbModelStats, label_of, DerivedStats}
use copilot_token_cost.StatsService.Derived.Sums.{
  of_db, selected, sum1, sum2, sum3, zero-sum_of, sum_of-insert, plus_absorb, zero_twice, part,
}
use copilot_token_cost.StatsService.Derived.Merged.{plus_next}
use copilot_token_cost.StatsService.Derived.Conserved.{
  plus-sum_of, build_all_derived_stats-IsConserved,
}
use copilot_token_cost.StatsService.Queries.{
  Filters, is_workspace_of, GroupKey, Place, group_eq, Groups, key_of, place_of_group, unknown_day,
  cwds_of, joined_cwds, no_calls, or_no_calls, count_call, group_rows, group_calls, filtered,
  load_aggregated_stats, query_daily_project_model_stats,
}
use copilot_token_cost.StatsService.Queries.Placed.{
  chosen, at_key, is_blank, IsPlain, ArePlain, own_places, sum_of_groups, sum3-place_rows,
}

-- What one call adds to the counters.
abbrev pub of_call : ApiCall → Counters
of_call a = record {
  api_calls = 1;
  user_turns = if a.is_user_turn == 1 then 1 else 0;
  prompt_tokens = a.prompt_tokens;
  completion_tokens = a.completion_tokens;
  cache_creation_tokens = a.cache_creation_tokens;
  cache_read_tokens = a.cache_read_tokens;
}

of_db-count_call :
    (a : ApiCall) (s : DbModelStats) → of_db (count_call a s) ≡ plus (of_call a) (of_db s)
unfolding count_call plus
of_db-count_call a s = refl

abbrev pub first_joined : List Bytes → Option Bytes
first_joined [] = none
first_joined (cwd ∷ cwds) = some cwd

-- `sw.cwd` for a call: the directory of its session, or NULL.
abbrev pub cwd_of : List SessionWorkspace → ApiCall → Option Bytes
cwd_of workspaces a = first_joined (cwds_of workspaces a)

-- PRIMARY KEY (session_id, source)
abbrev same_session : SessionWorkspace → SessionWorkspace → Bool
same_session sw other = other.session_id == sw.session_id && other.source == sw.source

abbrev pub HasPrimaryKey : List SessionWorkspace → Type 0
HasPrimaryKey [] = Unit
HasPrimaryKey (sw ∷ workspaces) =
    (any (same_session sw) workspaces ≡ false) × HasPrimaryKey workspaces

no_other :
    (a : ApiCall) (sw : SessionWorkspace) (workspaces : List SessionWorkspace)
    → is_workspace_of a sw ≡ true
    → any (same_session sw) workspaces ≡ false
    → keep (is_workspace_of a) workspaces ≡ []
no_other a sw [] h k = refl
no_other a sw (other ∷ workspaces) h k =
    let session : sw.session_id ≡ a.session_id =
      ground (arith, eq_iff sw.session_id a.session_id, h) in
    let source : sw.source ≡ a.source = ground (arith, eq_iff sw.source a.source, h) in
    ground (arith, no_other a sw workspaces h, rw (session, source) at k)

-- A call finds one workspace at most.
one_row :
    (workspaces : List SessionWorkspace) (a : ApiCall)
    → HasPrimaryKey workspaces
    → joined_cwds (cwds_of workspaces a) ≡ cwd_of workspaces a ∷ []
one_row [] a h = refl
one_row (sw ∷ workspaces) a (h, hs) = elim (Bool-cases (is_workspace_of a sw)) [
  | inl e ↦ rw (e, no_other a sw workspaces e h)
  | inr e ↦ rw e (one_row workspaces a hs)
]

-- A call that is counted in a group adds its counters, where its group is chosen.
counted :
    (b : Bool) (key : GroupKey) (a : ApiCall) (o : Option DbModelStats) (x : Counters)
    → plus (selected b (of_db (count_call a (or_no_calls o)))) x
      ≡ plus (selected b (of_call a)) (plus (part (λ k s. selected b (of_db s)) key o) x)
counted true key a none x =
    ap (λ c. plus c x) (of_db-count_call a no_calls) ∙ plus_assoc (of_call a) none_counted x
counted true key a (some s) x =
    ap (λ c. plus c x) (of_db-count_call a s) ∙ plus_assoc (of_call a) (of_db s) x
counted false key a none x = sym (plus_absorb none_counted x)
counted false key a (some s) x = sym (plus_absorb none_counted x)

module _ (workspaces : List SessionWorkspace) where
  -- The place of a call: its day, or the one that stands for none, its directory and its model.
  abbrev pub place_of : ApiCall → Place
  place_of a = place_of_group (key_of a (cwd_of workspaces a))

  abbrev pub weight_of : (Bytes → Bytes → Bytes → Bool) → ApiCall → Counters
  weight_of p a = let key = place_of a in selected (p key.day key.cwd key.model) (of_call a)

  abbrev pub sum_of_calls : (Bytes → Bytes → Bytes → Bool) → List ApiCall → Counters
  sum_of_calls p [] = none_counted
  sum_of_calls p (a ∷ calls) = plus (weight_of p a) (sum_of_calls p calls)

  module _ (unique : HasPrimaryKey workspaces) (p : Bytes → Bytes → Bytes → Bool) where
    group_row :
        (a : ApiCall) (groups : Groups)
        → sum_of_groups p (group_rows a (joined_cwds (cwds_of workspaces a)) groups)
          ≡ plus (weight_of p a) (sum_of_groups p groups)
    unfolding group_rows
    group_row a groups =
        let key = key_of a (cwd_of workspaces a) in
        rw (one_row workspaces a unique) (
          sum_of-insert (λ k s. chosen p (place_of_group k) s) key
            (count_call a (or_no_calls (lookup key groups))) (weight_of p a) groups
            (counted (p (place_of a).day (place_of a).cwd (place_of a).model) key a
              (lookup key groups)))

    sum-group_calls :
        (calls : List ApiCall) (groups : Groups)
        → sum_of_groups p (group_calls workspaces calls groups)
          ≡ plus (sum_of_calls p calls) (sum_of_groups p groups)
    unfolding group_calls
    sum-group_calls [] groups = sym (zero-sum_of _ groups)
    sum-group_calls (a ∷ calls) groups =
        sum-group_calls calls (group_rows a (joined_cwds (cwds_of workspaces a)) groups)
        ∙ ap (plus (sum_of_calls p calls)) (group_row a groups)
        ∙ plus_next _ _ _

  group_rows-IsDistinct :
      (a : ApiCall) (cwds : List (Option Bytes)) (groups : Groups)
      → IsDistinct groups
      → IsDistinct (group_rows a cwds groups)
  unfolding group_rows
  group_rows-IsDistinct a [] groups h = h
  group_rows-IsDistinct a (cwd ∷ cwds) groups h =
      let key = key_of a cwd in
      let s = count_call a (or_no_calls (lookup key groups)) in
      group_rows-IsDistinct a cwds (insert key s groups) (insert-IsDistinct key s groups h)

  group_calls-IsDistinct :
      (calls : List ApiCall) (groups : Groups)
      → IsDistinct groups
      → IsDistinct (group_calls workspaces calls groups)
  unfolding group_calls
  group_calls-IsDistinct [] groups h = h
  group_calls-IsDistinct (a ∷ calls) groups h =
      let cwds = joined_cwds (cwds_of workspaces a) in
      group_calls-IsDistinct calls (group_rows a cwds groups)
        (group_rows-IsDistinct a cwds groups h)

-- No call has a time that begins with the name of the day that stands for none.
abbrev IsDatedCall : ApiCall → Type 0
IsDatedCall a = (take 10 a.timestamp == unknown_day) ≡ false

abbrev pub HasDates : List ApiCall → Type 0
HasDates calls = All IsDatedCall calls

-- No workspace has an empty directory.
abbrev pub HasCwds : List SessionWorkspace → Type 0
HasCwds workspaces = All (λ sw. (sw.cwd == []) ≡ false) workspaces

AreNamed : List (Option Bytes) → Type 0
AreNamed cwds = All (λ cwd. is_blank cwd ≡ false) cwds

named_cwds :
    (workspaces : List SessionWorkspace) (a : ApiCall)
    → HasCwds workspaces
    → All (λ cwd. (cwd == []) ≡ false) (cwds_of workspaces a)
named_cwds [] a h = tt
named_cwds (sw ∷ workspaces) a (h, hs) = elim (Bool-cases (is_workspace_of a sw)) [
  | inl e ↦ rw e (h, named_cwds workspaces a hs)
  | inr e ↦ rw e (named_cwds workspaces a hs)
]

joined-AreNamed :
    (cwds : List Bytes) → All (λ cwd. (cwd == []) ≡ false) cwds → AreNamed (joined_cwds cwds)
unfolding AreNamed
joined-AreNamed [] h = (refl, tt)
joined-AreNamed (cwd ∷ cwds) (h, hs) = (h, rest cwds hs)
  where
    rest :
        (cwds : List Bytes)
        → All (λ cwd. (cwd == []) ≡ false) cwds
        → All (λ cwd. is_blank cwd ≡ false) (map some cwds)
    rest [] h = tt
    rest (cwd ∷ cwds) (h, hs) = (h, rest cwds hs)

insert-ArePlain :
    (key : GroupKey) (s : DbModelStats) (groups : Groups)
    → IsPlain key
    → ArePlain groups
    → ArePlain (insert key s groups)
unfolding insert
insert-ArePlain key s [] h k = (h, tt)
insert-ArePlain key s ((other, t) ∷ groups) h (k, ks) = elim (Bool-cases (other == key)) [
  | inl e ↦ rw e (k, ks)
  | inr e ↦ rw e (k, insert-ArePlain key s groups h ks)
]

group_rows-ArePlain :
    (a : ApiCall) (cwds : List (Option Bytes)) (groups : Groups)
    → IsDatedCall a
    → AreNamed cwds
    → ArePlain groups
    → ArePlain (group_rows a cwds groups)
unfolding group_rows AreNamed
group_rows-ArePlain a [] groups h n k = k
group_rows-ArePlain a (cwd ∷ cwds) groups h (n, ns) k =
    let key = key_of a cwd in
    let s = count_call a (or_no_calls (lookup key groups)) in
    group_rows-ArePlain a cwds (insert key s groups) h ns (insert-ArePlain key s groups (h, n) k)

group_calls-ArePlain :
    (workspaces : List SessionWorkspace) (calls : List ApiCall) (groups : Groups)
    → HasCwds workspaces
    → HasDates calls
    → ArePlain groups
    → ArePlain (group_calls workspaces calls groups)
unfolding group_calls
group_calls-ArePlain workspaces [] groups c h k = k
group_calls-ArePlain workspaces (a ∷ calls) groups c (h, hs) k =
    let cwds = joined_cwds (cwds_of workspaces a) in
    let named = joined-AreNamed (cwds_of workspaces a) (named_cwds workspaces a c) in
    group_calls-ArePlain workspaces calls (group_rows a cwds groups) c hs
      (group_rows-ArePlain a cwds groups h named k)

fresh_in_empty : (groups : Groups) → All (λ g. at_key (place_of_group g.0) [] ≡ none) groups
unfolding lookup
fresh_in_empty [] = tt
fresh_in_empty (g ∷ groups) = (refl, fresh_in_empty groups)

zero-sum_of_calls :
    (workspaces : List SessionWorkspace) (p : Bytes → Bytes → Bytes → Bool) (calls : List ApiCall)
    → plus none_counted (sum_of_calls workspaces p calls) ≡ sum_of_calls workspaces p calls
zero-sum_of_calls workspaces p [] = zero_twice
zero-sum_of_calls workspaces p (a ∷ calls) =
    zero-plus _ (plus-IsWord (weight_of workspaces p a) (sum_of_calls workspaces p calls))

-- What is chosen of the query's result adds up to what is chosen of the calls.
query_sum {ℓ} :
    {W : Type ℓ} (db : Database W) (f : Filters) (p : Bytes → Bytes → Bytes → Bool)
    → HasPrimaryKey db.session_workspaces
    → HasCwds db.session_workspaces
    → HasDates (filtered db f)
    → sum3 of_db p (query_daily_project_model_stats db f)
      ≡ sum_of_calls db.session_workspaces p (filtered db f)
unfolding query_daily_project_model_stats
query_sum db f p unique named dates =
    let groups = group_calls db.session_workspaces (filtered db f) [] in
    let places =
      own_places groups (group_calls-IsDistinct db.session_workspaces (filtered db f) [] tt)
        (group_calls-ArePlain db.session_workspaces (filtered db f) [] named dates tt) in
    sum3-place_rows p groups [] (fresh_in_empty groups) places
    ∙ plus-sum_of (λ key s. chosen p (place_of_group key) s) groups
    ∙ sum-group_calls db.session_workspaces unique p (filtered db f) []
    ∙ plus_comm (sum_of_calls db.session_workspaces p (filtered db f)) none_counted
    ∙ zero-sum_of_calls db.session_workspaces p (filtered db f)

-- The statistics count the calls: those of each day and model, of each model and of each project are those
-- of the calls with that day, model and label of the directory.
pub record CountsCalls {ℓ} {W : Type ℓ} (label : Bytes → Bytes) (workspaces : List SessionWorkspace)
    (calls : List ApiCall) (d : DerivedStats W) : Type ℓ where
  pub daily :
      (p : Bytes → Bytes → Bool)
      → sum2 of_stats p d.daily ≡ sum_of_calls workspaces (λ day cwd model. p day model) calls
  pub models :
      (p : Bytes → Bool)
      → sum1 of_stats p d.models ≡ sum_of_calls workspaces (λ day cwd model. p model) calls
  pub projects :
      (p : Bytes → Bool)
      → sum1 of_stats p d.projects ≡ sum_of_calls workspaces (λ day cwd model. p (label cwd)) calls
  pub total_records : d.total_records ≡ (sum_of_calls workspaces (λ _ _ _. true) calls).api_calls

module _ {ℓ} {W : Type ℓ} ⦃w : Float64 W⦄ where
  -- From the tables to the statistics no call that passes the filter is lost or counted twice: where the
  -- workspaces have their primary key and none has an empty directory, and no time is NULL or begins with the
  -- word for a missing day, the entries by day
  -- and model, by model, and by project that are loaded for the dashboard add up to the counters of the calls
  -- with those days, models and labels, and the total is the number of the calls (sums are those of Go's
  -- `int`).
  pub derived_stats_count_calls :
      (home : Bytes) (multiplier : Bytes → Bytes → W) (db : Database W) (f : Filters)
      → HasPrimaryKey db.session_workspaces
      → HasCwds db.session_workspaces
      → HasDates (filtered db f)
      → let raw = query_daily_project_model_stats db f in
        CountsCalls
          (label_of home raw)
          db.session_workspaces
          (filtered db f)
          (load_aggregated_stats home multiplier db f).derived
  unfolding load_aggregated_stats
  derived_stats_count_calls home multiplier db f unique named dates =
      let raw = query_daily_project_model_stats db f in
      let kept = build_all_derived_stats-IsConserved home multiplier raw in
      record {
        daily =
            λ p. kept.daily p ∙ query_sum db f (λ day cwd model. p day model) unique named dates;
        models = λ p. kept.models p ∙ query_sum db f (λ day cwd model. p model) unique named dates;
        projects = λ p.
            kept.projects p
            ∙ query_sum db f (λ day cwd model. p (label_of home raw cwd)) unique named dates;
        total_records =
            kept.total_records
            ∙ ap (λ c. c.api_calls) (query_sum db f (λ _ _ _. true) unique named dates);
      }
