-- ===== src/StatsService/Queries.antt =====
-- main.go: `buildFilters` and the queries that `loadAggregatedStats` of stats_service.go calls. A statement is
-- what its SQL says: the rows that pass the filter, joined with the workspaces, in groups. The groups stand in the order of
-- their first rows; the sums are those of 64-bit integers, and the engine's error on overflow is left out.
pub mod Placed
pub mod Counted
use copilot_token_cost.Prelude.{
  ℕ, Bool, true, false, not, ◌&&◌, ◌||◌, ◌↔◌, ◌≡◌, refl, ap, subst, Option, none, some, List, [],
  ◌∷◌, ◌++◌, Bytes, codes, map, keep, any, take, length, trim_space, to_lower, bytes_lt, bytes_ge,
  lower, ◌==◌, Eq, eq_iff, nat_eq, bytes_eq, if◌then◌else◌, arith,
}
use copilot_token_cost.Prelude.Int64.{add64}
use copilot_token_cost.Prelude.Maps.{Map, lookup, insert}
use copilot_token_cost.Prelude.Floats.{Float64}
use copilot_token_cost.Domain.{Record}
use copilot_token_cost.Storage.{ApiCall, SessionWorkspace, Database}
use copilot_token_cost.Storage.Calls.{coalesce}
use copilot_token_cost.StatsService.Derived.{DbModelStats, ByDay, or_empty, build_all_derived_stats}
use copilot_token_cost.StatsService.Payload.{AggregatedStats}

pub record Filters : Type 0 where
  pub date_from : Bytes
  pub date_to : Bytes
  pub project_filter : Bytes

-- `LIKE`, which looks at ASCII letters without their case; `%` stands for any text, `_` for a character.
unfoldable pub like : Bytes → Bytes → Bool
like [] [] = true
like [] (d ∷ s) = false
like (c ∷ p) [] = c == b'%' && like p []
like (c ∷ p) (d ∷ s) =
    let skipped = like p (d ∷ s) in
    let taken = like (c ∷ p) s in
    let matched = like p s in
    if c == b'%' then skipped || taken else (c == b'_' || lower c == lower d) && matched

abbrev pub is_workspace_of : ApiCall → SessionWorkspace → Bool
is_workspace_of a sw = sw.session_id == a.session_id && sw.source == a.source

-- The directories that the call's session has in the table.
abbrev pub cwds_of : List SessionWorkspace → ApiCall → List Bytes
cwds_of workspaces a = map (λ sw. sw.cwd) (keep (is_workspace_of a) workspaces)

abbrev pub first_or : Bytes → List Bytes → Bytes
first_or blank [] = blank
first_or blank (cwd ∷ cwds) = cwd

-- The WHERE clause of `buildFilters` on a call.
unfoldable pub build_filters : List SessionWorkspace → Filters → ApiCall → Bool
build_filters workspaces f a =
    let needle = trim_space (to_lower f.project_filter) in
    let cwd = to_lower (first_or (codes "(unknown)") (cwds_of workspaces a)) in
    (f.date_from == [] || bytes_ge a.timestamp f.date_from)
    && (f.date_to == [] || bytes_lt a.timestamp f.date_to)
    && (needle == [] || like (codes "%" ++ (needle ++ codes "%")) cwd)

-- What a group is made by: day, directory and model. The directory is the column `sw.cwd`, which GROUP BY
-- takes before the name of a result, so a call without a workspace, where it is NULL, is in another group than
-- one with an empty directory.
pub record GroupKey : Type 0 where
  pub day : Bytes
  pub cwd : Option Bytes
  pub model : Bytes

abbrev pub same_cwd : Option Bytes → Option Bytes → Bool
same_cwd none none = true
same_cwd none (some d) = false
same_cwd (some c) none = false
same_cwd (some c) (some d) = c == d

same_cwd_refl : (c : Option Bytes) → same_cwd c c ≡ true
same_cwd_refl none = refl
same_cwd_refl (some c) = (eq_iff c c).1 refl

same_cwd_eq : (c d : Option Bytes) → same_cwd c d ≡ true → c ≡ d
same_cwd_eq none none h = refl
same_cwd_eq none (some d) h = cc
same_cwd_eq (some c) none h = cc
same_cwd_eq (some c) (some d) h = ap some ((eq_iff c d).0 h)

abbrev pub same_group : GroupKey → GroupKey → Bool
same_group a b = a.day == b.day && same_cwd a.cwd b.cwd && a.model == b.model

same_group_refl : (a : GroupKey) → same_group a a ≡ true
same_group_refl a = ground (arith, eq_iff a.day a.day, same_cwd_refl a.cwd, eq_iff a.model a.model)

pub same_group_iff : (a b : GroupKey) → (same_group a b ≡ true) ↔ (a ≡ b)
same_group_iff a b = (
  λ h.
      let day : a.day ≡ b.day = ground (arith, eq_iff a.day b.day, h) in
      let cwd : a.cwd ≡ b.cwd = same_cwd_eq a.cwd b.cwd (ground (arith, h)) in
      let model : a.model ≡ b.model = ground (arith, eq_iff a.model b.model, h) in
      λ i. record { day = day i; cwd = cwd i; model = model i },
  λ e. subst (λ k. same_group a k ≡ true) e (same_group_refl a),
)

instance abbrev pub group_eq : Eq GroupKey
group_eq = record { equals = same_group; decides = same_group_iff }

-- `sw.cwd` in each row that the left join gives for a call.
abbrev pub joined_cwds : List Bytes → List (Option Bytes)
joined_cwds [] = none ∷ []
joined_cwds (cwd ∷ cwds) = map some (cwd ∷ cwds)

-- substr(timestamp, 1, 10)
abbrev pub key_of : ApiCall → Option Bytes → GroupKey
key_of a cwd = record { day = take 10 a.timestamp; cwd = cwd; model = a.model_normalized }

abbrev pub Groups : Type 0
Groups = Map GroupKey DbModelStats

abbrev pub no_calls : DbModelStats
no_calls = record {
  api_calls = 0;
  prompt_tokens = 0;
  completion_tokens = 0;
  cache_creation_tokens = 0;
  cache_read_tokens = 0;
  user_turns = 0;
}

abbrev pub or_no_calls : Option DbModelStats → DbModelStats
or_no_calls none = no_calls
or_no_calls (some s) = s

-- COUNT(*) and the SUMs, with one more row.
unfoldable pub count_call : ApiCall → DbModelStats → DbModelStats
count_call a s = record {
  api_calls = add64 1 s.api_calls;
  prompt_tokens = add64 a.prompt_tokens s.prompt_tokens;
  completion_tokens = add64 a.completion_tokens s.completion_tokens;
  cache_creation_tokens = add64 a.cache_creation_tokens s.cache_creation_tokens;
  cache_read_tokens = add64 a.cache_read_tokens s.cache_read_tokens;
  user_turns = add64 (if a.is_user_turn == 1 then 1 else 0) s.user_turns;
}

unfoldable pub group_rows : ApiCall → List (Option Bytes) → Groups → Groups
group_rows a [] groups = groups
group_rows a (cwd ∷ cwds) groups =
    let key = key_of a cwd in
    group_rows a cwds (insert key (count_call a (or_no_calls (lookup key groups))) groups)

-- FROM api_calls a LEFT JOIN session_workspaces sw … GROUP BY day, cwd, a.model_normalized
unfoldable pub group_calls : List SessionWorkspace → List ApiCall → Groups → Groups
group_calls workspaces [] groups = groups
group_calls workspaces (a ∷ calls) groups =
    group_calls workspaces calls (group_rows a (joined_cwds (cwds_of workspaces a)) groups)

abbrev pub unknown_day : Bytes
unknown_day = codes "unknown"

abbrev pub day_or_unknown : Bytes → Bytes
day_or_unknown day = if day == [] then unknown_day else day

-- The three keys of the maps.
pub record Place : Type 0 where
  pub day : Bytes
  pub cwd : Bytes
  pub model : Bytes

-- Where a row goes: COALESCE(sw.cwd, ''), and the word for a missing day.
abbrev pub place_of_group : GroupKey → Place
place_of_group key = record {
  day = day_or_unknown key.day;
  cwd = coalesce key.cwd;
  model = key.model;
}

-- `result[day][cwd][model] = &s`, with the maps that are made where they are missing; it replaces a row
-- that has the place already.
unfoldable pub place_row : Place → DbModelStats → ByDay DbModelStats → ByDay DbModelStats
place_row key s result =
    let cwds = or_empty (lookup key.day result) in
    let models = or_empty (lookup key.cwd cwds) in
    insert key.day (insert key.cwd (insert key.model s models) cwds) result

-- The loop over the rows of the result.
unfoldable pub place_rows : Groups → ByDay DbModelStats → ByDay DbModelStats
place_rows [] result = result
place_rows ((key, s) ∷ groups) result = place_rows groups (place_row (place_of_group key) s result)

unfoldable pub filtered {ℓ} : {W : Type ℓ} → Database W → Filters → List ApiCall
filtered db f = keep (build_filters db.session_workspaces f) db.api_calls

unfoldable pub query_daily_project_model_stats {ℓ} :
    {W : Type ℓ} → Database W → Filters → ByDay DbModelStats
query_daily_project_model_stats db f =
    place_rows (group_calls db.session_workspaces (filtered db f) []) []

unfoldable pub add_distinct : List ApiCall → List Bytes → List Bytes
add_distinct [] names = names
add_distinct (a ∷ calls) names =
    let known = add_distinct calls names in
    let added = add_distinct calls (a.log_file ∷ names) in
    if any (λ n. n == a.log_file) names then known else added

-- SELECT COUNT(DISTINCT log_file)
unfoldable pub query_log_file_count {ℓ} : {W : Type ℓ} → Database W → Filters → ℕ
query_log_file_count db f = length (add_distinct (filtered db f) [])

-- A row of the query on the records, which does not ask for the prompt.
unfoldable pub record_of_row : ApiCall → Record
record_of_row a = record {
  model = a.model;
  prompt_tokens = a.prompt_tokens;
  completion_tokens = a.completion_tokens;
  prompt_text = none;
  cache_creation_tokens = a.cache_creation_tokens;
  cache_read_tokens = a.cache_read_tokens;
  is_user_turn = a.is_user_turn == 1;
  timestamp = a.timestamp;
  session_id = a.session_id;
  log_file = a.log_file;
  source = a.source;
}

unfoldable pub query_records {ℓ} : {W : Type ℓ} → Database W → Filters → List Record
query_records db f = map record_of_row (filtered db f)

-- The queries in one transaction, which sees one state of the tables; the workspaces are left out.
unfoldable pub load_aggregated_stats {ℓ} :
    {W : Type ℓ} ⦃w : Float64 W⦄
    → Bytes
    → (Bytes → Bytes → W)
    → Database W
    → Filters
    → AggregatedStats W
load_aggregated_stats home multiplier db f = record {
  derived = build_all_derived_stats home multiplier (query_daily_project_model_stats db f);
  records = query_records db f;
  log_file_count = query_log_file_count db f;
}
