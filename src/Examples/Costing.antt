-- ===== src/Examples/Costing.antt =====
-- The theorems of the costing service at concrete calls and prices.
use copilot_token_cost.Prelude.{
  ℕ, ◌≤◌, ◌≡◌, refl, true, false, Option, none, some, List, [], ◌∷◌, Bytes, codes, arith, In,
  has_prefix, bytes_lt, bytes_beq, bytes_eq, bytes_ge,
}
use copilot_token_cost.Prelude.Int64.{is_neg, sub64}
use copilot_token_cost.Prelude.Maps.{lookup}
use copilot_token_cost.Domain.{Record, Stats}
use copilot_token_cost.Prelude.Patterns.{matches}
use copilot_token_cost.Costing.Normalize.{
  normalize_model, strip_date, strip_effort, strip_route, after_route, strip_gateway, ends_in_date,
}
use copilot_token_cost.Costing.Normalize.RoundTrip.{
  capi, Route, dressed, IsPlain, IsRoute, IsEffort, IsDate, normalize-dressed,
}
use copilot_token_cost.Costing.Periods.{Pricing, PricingPeriod, get_period, get_pricing, date_of}
use copilot_token_cost.Costing.Periods.Latest.{
  NewestFirst, IsNewestBegun, IsOldest, get_period-latest,
}
use copilot_token_cost.Costing.Cost.{uncached_input, calc_cost}
use copilot_token_cost.Costing.Cost.Monotone.{IsPriced, IsMore, calc_cost_mono}
use copilot_token_cost.Costing.Reattribute.{
  is_premium, takes_turn, reattribute_user_turns, multiplier_of,
}
use copilot_token_cost.Costing.Reattribute.Keeps.{AreFair, count_turns, reattribute_fair}
use copilot_token_cost.Costing.Reattribute.Settled.{IsSettled, reattribute-IsSettled}
use copilot_token_cost.Costing.Aggregate.{aggregate_by_model}
use copilot_token_cost.Costing.Aggregate.ByModel.{counted_from, calls_of, aggregate_by_model-lookup}
use copilot_token_cost.Costing.Aggregate.Total.{total_calls, total_stats, aggregate_by_model-total}
use copilot_token_cost.Examples.{whole_numbers, whole_laws, a_call, a_free_call, one_each}

abbrev a_route : Option Route
a_route = some (record { region = codes "eastus"; pool = codes "pool2"; ib = true })

abbrev gpt : Bytes
gpt = codes "gpt-5"

abbrev high : Option Bytes
high = some (codes "high")

abbrev august : Option Bytes
august = some (codes "-2025-08-07")

gpt-IsPlain : IsPlain gpt
unfolding ends_in_date has_prefix
gpt-IsPlain = record {
  no_colon = (
    λ e. omega (arith, e),
    (
      λ e. omega (arith, e),
      (λ e. omega (arith, e), (λ e. omega (arith, e), (λ e. omega (arith, e), tt))),
    ),
  );
  no_capi = refl;
  no_sweagent = refl;
  no_ib = refl;
  no_date = refl;
}

a_route-IsRoute : IsRoute a_route
a_route-IsRoute = (
  λ e. cc e,
  (refl, (refl, (refl, (refl, (refl, (refl, tt)))))),
  λ e. cc e,
  (refl, (refl, (refl, (refl, (refl, tt))))),
)

high-IsEffort : IsEffort high
high-IsEffort = (λ e. cc e, (refl, (refl, (refl, (refl, tt)))))

august-IsDate : IsDate august
unfolding matches
august-IsDate = (refl, refl)

normalize-dressed_example : normalize_model (dressed capi a_route gpt high august) ≡ gpt
normalize-dressed_example =
    normalize-dressed capi a_route gpt high august gpt-IsPlain a_route-IsRoute high-IsEffort
      august-IsDate

abbrev a_price : Pricing ℕ
a_price = record { input = 3; output = 15; cache_read = 1; cache_write = 4 }

abbrev a_period : Bytes → PricingPeriod ℕ
a_period day = record {
  effective_from = day;
  premium_request_cost = 4;
  model_pricing = (gpt, a_price) ∷ [];
  premium_multiplier = (gpt, 1) ∷ [];
}

abbrev june : PricingPeriod ℕ
june = a_period (codes "2025-06-01")

abbrev january : PricingPeriod ℕ
january = a_period (codes "2025-01-01")

newest_first : NewestFirst (june ∷ january ∷ [])
unfolding bytes_lt
newest_first = ((refl, tt), (tt, tt))

get_period-latest_example :
    (r : PricingPeriod ℕ) × (get_period (june ∷ january ∷ []) a_call.timestamp ≡ some r)
    × In r (june ∷ january ∷ [])
    × IsNewestBegun (june ∷ january ∷ []) (date_of a_call.timestamp) r
    × (bytes_ge (date_of a_call.timestamp) r.effective_from ≡ false
        → IsOldest (june ∷ january ∷ []) r)
get_period-latest_example =
    get_period-latest june (january ∷ []) a_call.timestamp newest_first (λ e. cc e)

abbrev small : Stats ℕ
small = record {
  api_calls = 1;
  user_turns = 1;
  prompt_tokens = 100;
  completion_tokens = 20;
  cache_creation_tokens = 10;
  cache_read_tokens = 40;
  premium_requests = 1;
}

abbrev large : Stats ℕ
large = record small { prompt_tokens = 300; cache_read_tokens = 80 }

priced :
    (p : Pricing ℕ) → get_pricing (june ∷ []) gpt a_call.timestamp ≡ some p → IsPriced whole_laws p
priced p h = record {
  input = record { finite = tt; nonneg = omega arith };
  output = record { finite = tt; nonneg = omega arith };
  cache_read = record { finite = tt; nonneg = omega arith };
  cache_write = record { finite = tt; nonneg = omega arith };
}

small-IsMore : IsMore whole_laws small large
unfolding uncached_input is_neg sub64
small-IsMore = record {
  counted = record { prompt = omega arith; cached = omega arith };
  completed = omega arith;
  uncached = omega arith;
  completion = omega arith;
  read = omega arith;
  creation = omega arith;
}

calc_cost_mono_example :
    calc_cost (june ∷ []) gpt small a_call.timestamp
    ≤ calc_cost (june ∷ []) gpt large a_call.timestamp
calc_cost_mono_example =
    calc_cost_mono whole_laws (june ∷ []) gpt a_call.timestamp small large priced small-IsMore

abbrev a_log : List Record
a_log = a_free_call ∷ a_call ∷ a_free_call ∷ []

reattribute_fair_example :
    AreFair one_each a_log (reattribute_user_turns one_each a_log)
    × (count_turns (reattribute_user_turns one_each a_log) ≤ count_turns a_log)
    × (1 ≤ count_turns a_log → 1 ≤ count_turns (reattribute_user_turns one_each a_log))
reattribute_fair_example = reattribute_fair one_each a_log

reattribute-IsSettled_example : IsSettled one_each (reattribute_user_turns one_each a_log)
reattribute-IsSettled_example = reattribute-IsSettled one_each a_log

free_is_free : is_premium one_each a_free_call ≡ false
unfolding is_premium multiplier_of normalize_model one_each bytes_beq strip_date strip_effort
    strip_route after_route strip_gateway
free_is_free = refl

call_takes : takes_turn one_each a_call ≡ true
unfolding takes_turn multiplier_of normalize_model one_each bytes_beq strip_date strip_effort
    strip_route after_route strip_gateway
call_takes = refl

aggregate_by_model-lookup_example :
    lookup gpt (aggregate_by_model (some one_each) a_log)
    ≡ counted_from (some one_each) none (calls_of (some one_each) gpt a_log)
aggregate_by_model-lookup_example = aggregate_by_model-lookup (some one_each) gpt a_log

aggregate_by_model-total_example :
    total_stats (aggregate_by_model (some one_each) a_log) ≡ total_calls a_log
aggregate_by_model-total_example = aggregate_by_model-total (some one_each) a_log
