-- ===== src/Examples/StatsService.antt =====
-- The theorems of the statistics service at a few rows of the query.
use copilot_token_cost.Prelude.{
  ℕ, ◌≡◌, refl, Bool, true, none, some, List, [], ◌∷◌, Bytes, bytes_beq, codes, keep, trim_space,
  trim_left, bytes_lt, length, has_prefix, to_lower, strip_slashes, until_slash, Permᴰ, ◌==◌,
  bytes_eq, if◌then◌else◌,
}
use copilot_token_cost.Prelude.Maps.{Map, lookup}
use copilot_token_cost.Prelude.Sorting.{sort_strings}
use copilot_token_cost.Domain.Counters.{of_stats}
use copilot_token_cost.Costing.Aggregate.Total.{total_calls}
use copilot_token_cost.Costing.Periods.{PricingPeriod}
use copilot_token_cost.Examples.{whole_numbers, a_call}
use copilot_token_cost.StatsService.Project.{
  normalize_workspace_path, workspace_path_base_name, is_codespaces_workspace_path, lower_base,
  build_local_project_by_base, or_name, canonical_project_label,
}
use copilot_token_cost.StatsService.Project.Labels.{
  is_local, least_of, named, canonical_project_label_lem,
}
use copilot_token_cost.StatsService.Derived.{
  ByDay, DbModelStats, label_of, or_empty, build_all_derived_stats,
}
use copilot_token_cost.StatsService.Derived.Sums.{sum1}
use copilot_token_cost.StatsService.Derived.Conserved.{
  IsConserved, build_all_derived_stats-IsConserved,
}
use copilot_token_cost.Storage.{ApiCall, SessionWorkspace, Database}
use copilot_token_cost.StatsService.Queries.{
  Filters, like, build_filters, filtered, load_aggregated_stats, query_daily_project_model_stats,
}
use copilot_token_cost.StatsService.Queries.Counted.{
  HasDates, CountsCalls, derived_stats_count_calls,
}
use copilot_token_cost.StatsService.Hourly.{
  StatsPayloadStats, Times, two_digits, build_hourly_stats_map,
}
use copilot_token_cost.StatsService.Hourly.Conserved.{of_payload, IsEntry}
use copilot_token_cost.StatsService.Payload.{AggregatedStats, build_stats_payload}
use copilot_token_cost.StatsService.Payload.Entries.{mapped, build_stats_payload_lem}
use copilot_token_cost.StatsService.Hourly.Viewer.{
  moved, IsClock, viewer_minute, calls_shown, hourly_for_viewer,
}
use copilot_token_cost.Prelude.{arith, ◌/◌, ◌-◌, ◌<◌}
use copilot_token_cost.Prelude.Int64.{word, is_neg}

abbrev home : Bytes
home = codes "/home/me"

abbrev remote : Bytes
remote = codes "/workspaces/Demo"

abbrev local_dir : Bytes
local_dir = codes "/home/me/develop/demo"

canonical_project_label_example :
    canonical_project_label home remote (build_local_project_by_base home (local_dir ∷ remote ∷ []))
    ≡ or_name home remote (
        named home
          (least_of (keep (is_local (lower_base remote)) (sort_strings (remote ∷ local_dir ∷ [])))))
unfolding bytes_beq trim_space normalize_workspace_path workspace_path_base_name
    is_codespaces_workspace_path strip_slashes until_slash has_prefix to_lower
canonical_project_label_example =
    canonical_project_label_lem home remote (remote ∷ local_dir ∷ []) (local_dir ∷ remote ∷ [])
      (Permᴰ.swap refl refl) refl refl refl

abbrev some_rows : DbModelStats
some_rows = record {
  api_calls = 3;
  prompt_tokens = 100;
  completion_tokens = 20;
  cache_creation_tokens = 10;
  cache_read_tokens = 40;
  user_turns = 1;
}

abbrev two_days : ByDay DbModelStats
two_days =
    (
      codes "2026-02-01",
      (remote, (codes "gpt-5", some_rows) ∷ []) ∷ (local_dir, (codes "gpt-5", some_rows) ∷ []) ∷ [],
    )
    ∷ (codes "2026-02-02", (local_dir, (codes "free", some_rows) ∷ []) ∷ [])
    ∷ []

abbrev one_each : Bytes → Bytes → ℕ
one_each model day = 1

build_all_derived_stats-IsConserved_example :
    IsConserved (label_of home two_days) two_days (build_all_derived_stats home one_each two_days)
build_all_derived_stats-IsConserved_example =
    build_all_derived_stats-IsConserved home one_each two_days

-- A clock that reads one text, at ten.
abbrev at_ten : Times Bool
at_ten = record {
  parse = λ layout text. if text == codes "2025-06-01T10:00:00Z" then some true else none;
  hour = λ t shift. two_digits (moved 600 shift / 60);
}

at_ten-IsClock : IsClock at_ten (λ t. 600)
at_ten-IsClock = record { in_day = λ t. omega arith; shows = λ t shift. refl }

abbrev no_periods : List (PricingPeriod ℕ)
no_periods = []

abbrev as_it_is : ℕ → ℕ
as_it_is n = n

hourly_for_viewer_example :
    (out : Map Bytes (StatsPayloadStats ℕ)) × (build_hourly_stats_map as_it_is at_ten no_periods
        (a_call ∷ a_call ∷ [])
        60
      ≡ some out)
    × ((h : ℕ)
        → h < 24
        → IsEntry
            (total_calls (calls_shown at_ten (λ t. 600) 60 h (a_call ∷ a_call ∷ [])))
            (lookup (two_digits h) out))
hourly_for_viewer_example =
    hourly_for_viewer as_it_is at_ten (λ t. 600) no_periods (a_call ∷ a_call ∷ []) 60 at_ten-IsClock
      (omega arith)

-- The hour of a viewer in UTC+01:00, whose offset is -60.
viewer_hour_test : viewer_minute (word - 60) 600 / 60 ≡ 11
unfolding is_neg
viewer_hour_test = refl

abbrev two_days_aggregated : AggregatedStats ℕ
two_days_aggregated = record {
  derived = build_all_derived_stats home one_each two_days;
  records = a_call ∷ [];
  log_file_count = 1;
}

build_stats_payload_example :
    let d = two_days_aggregated.derived in
    let p =
      build_stats_payload as_it_is no_periods at_ten two_days_aggregated (codes "all") [] 60 in
    ((model : Bytes)
      → mapped of_payload (lookup model p.models) ≡ mapped of_stats (lookup model d.models))
    × ((day project : Bytes)
        → mapped of_payload (lookup project (or_empty (lookup day p.daily_projects)))
          ≡ mapped
              (sum1 of_stats (λ _. true))
              (lookup project (or_empty (lookup day d.project_daily_models))))
build_stats_payload_example =
    build_stats_payload_lem as_it_is no_periods at_ten two_days_aggregated (codes "all") [] 60

abbrev a_session : SessionWorkspace
a_session = record {
  session_id = codes "s1";
  cwd = local_dir;
  source = codes "local";
  branch = none;
}

abbrev stored_call : ApiCall
stored_call = record {
  model = codes "gpt-5";
  model_normalized = codes "gpt-5";
  prompt_tokens = 100;
  completion_tokens = 20;
  prompt_text = none;
  cache_creation_tokens = 10;
  cache_read_tokens = 40;
  is_user_turn = 1;
  timestamp = codes "2026-02-01T10:00:00";
  session_id = codes "s1";
  log_file = codes "process-1.log";
  source = codes "local";
}

-- Two calls of a session, and one before the time that is asked for.
abbrev stored : Database ℕ
stored = record {
  api_calls =
      stored_call
      ∷ record stored_call { timestamp = codes "2026-02-01T11:00:00" }
      ∷ record stored_call { timestamp = codes "2026-01-01T11:00:00" }
      ∷ [];
  parsed_logs = [];
  session_workspaces = a_session ∷ [];
  codespace_sync_state = [];
}

abbrev from_february : Filters
from_february = record {
  date_from = codes "2026-02-01";
  date_to = [];
  project_filter = codes "demo";
}

february_calls : length (filtered stored from_february) ≡ 2
unfolding filtered build_filters bytes_beq bytes_lt trim_space trim_left to_lower like
february_calls = refl

february_dates : HasDates (filtered stored from_february)
unfolding filtered build_filters bytes_beq bytes_lt trim_space trim_left to_lower like
february_dates = (refl, (refl, tt))

derived_stats_count_calls_example :
    let raw = query_daily_project_model_stats stored from_february in
    CountsCalls {W = ℕ}
      (label_of home raw)
      stored.session_workspaces
      (filtered stored from_february)
      (load_aggregated_stats home (λ model day. 1) stored from_february).derived
unfolding bytes_beq
derived_stats_count_calls_example =
    derived_stats_count_calls home (λ model day. 1) stored from_february (refl, tt) (refl, tt)
      february_dates
