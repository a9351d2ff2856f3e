-- ===== src/StatsService/Hourly.antt =====
-- stats_service.go: `buildHourlyStatsMap` and the form of the entries of a payload. `time.Parse` and
-- `Format` are arguments, and so is `RoundN(…, 4)`.
pub mod Conserved
pub mod Viewer
use copilot_token_cost.Prelude.{
  ℕ, ◌+◌, ◌-◌, ◌/◌, ◌%◌, Bool, true, false, Option, none, some, List, [], ◌∷◌, ◌++◌, Bytes, codes,
  map, take, length, ltb, leb, trim_space, ◌==◌, bytes_eq, if◌then◌else◌,
}
use copilot_token_cost.Prelude.Int64.{word, sub64, lt64}
use copilot_token_cost.Prelude.Maps.{Map, lookup, insert}
use copilot_token_cost.Prelude.Floats.{Float64}
use copilot_token_cost.Domain.{Record, Stats, new_stats, add_record}
use copilot_token_cost.Costing.Normalize.{normalize_model}
use copilot_token_cost.Costing.Periods.{
  PricingPeriod, get_premium_multiplier, get_premium_request_cost,
}
use copilot_token_cost.Costing.Cost.{uncached_input, calc_cost, calc_cost_no_cache}

pub record StatsPayloadStats {ℓ} (W : Type ℓ) : Type ℓ where
  pub api_calls : ℕ
  pub user_turns : ℕ
  pub prompt_tokens : ℕ
  pub completion_tokens : ℕ
  pub cache_creation_tokens : ℕ
  pub cache_read_tokens : ℕ
  pub premium_requests : W
  pub premium_request_cost : W
  pub input_uncached : ℕ
  pub cost : W
  pub cost_without_cache : W

-- The literal that every entry is made by.
unfoldable pub payload_of {ℓ} : {W : Type ℓ} → (W → W) → Stats W → W → W → W → StatsPayloadStats W
payload_of round4 s premium_cost cost cost_no_cache = record {
  api_calls = s.api_calls;
  user_turns = s.user_turns;
  prompt_tokens = s.prompt_tokens;
  completion_tokens = s.completion_tokens;
  cache_creation_tokens = s.cache_creation_tokens;
  cache_read_tokens = s.cache_read_tokens;
  premium_requests = s.premium_requests;
  premium_request_cost = round4 premium_cost;
  input_uncached = uncached_input s;
  cost = round4 cost;
  cost_without_cache = round4 cost_no_cache;
}

abbrev pub max_offset_minutes : ℕ
max_offset_minutes = 840

abbrev pub min_offset_minutes : ℕ
min_offset_minutes = word - 840

-- An `int`, as its 64-bit pattern.
unfoldable pub normalize_timezone_offset_minutes : ℕ → ℕ
normalize_timezone_offset_minutes offset =
    if lt64 max_offset_minutes offset
    then max_offset_minutes
    else (if lt64 offset min_offset_minutes then min_offset_minutes else offset)

-- The package time: `parse` takes a layout and a text, `hour` a time and the minutes that are added.
pub record Times {ℓ} (T : Type ℓ) : Type ℓ where
  pub parse : Bytes → Bytes → Option T
  pub hour : T → ℕ → Bytes

abbrev pub layouts : List Bytes
layouts =
    codes "2006-01-02T15:04:05.999999999Z07:00"
    ∷ codes "2006-01-02T15:04:05Z07:00"
    ∷ codes "2006-01-02T15:04:05"
    ∷ codes "2006-01-02T15:04:05.000"
    ∷ []

module _ {ℓ} {T : Type ℓ} (times : Times T) where
  abbrev or_parsed : Option T → Option T → Option T
  or_parsed none later = later
  or_parsed (some t) later = some t

  unfoldable pub parse_layouts : List Bytes → Bytes → Option T
  parse_layouts [] ts = none
  parse_layouts (layout ∷ rest) ts = or_parsed (times.parse layout ts) (parse_layouts rest ts)

  unfoldable pub parse_record_timestamp : Bytes → Option T
  parse_record_timestamp timestamp =
      let ts = trim_space timestamp in
      let cut =
        if leb 19 (length ts)
        then times.parse (codes "2006-01-02T15:04:05") (take 19 ts)
        else none in
      if ts == [] then none else or_parsed (parse_layouts layouts ts) cut

  -- The hour of a record for a viewer, where its time can be read.
  unfoldable pub hour_of : ℕ → Record → Option Bytes
  hour_of offset r = elim (parse_record_timestamp r.timestamp) [
    | none ↦ none
    | some t ↦ some (times.hour t (sub64 0 (normalize_timezone_offset_minutes offset)))
  ]

-- `fmt.Sprintf("%02d", hour)`
unfoldable pub two_digits : ℕ → Bytes
two_digits hour = (48 + hour / 10) ∷ (48 + hour % 10) ∷ []

abbrev pub hours : List Bytes
hours = map two_digits (
    0 ∷ 1 ∷ 2 ∷ 3 ∷ 4 ∷ 5 ∷ 6 ∷ 7 ∷ 8 ∷ 9 ∷ 10 ∷ 11 ∷ 12 ∷ 13 ∷ 14 ∷ 15 ∷ 16 ∷ 17 ∷ 18 ∷ 19 ∷ 20
    ∷ 21 ∷ 22 ∷ 23 ∷ [])

pub record HourlyCostTotals {ℓ} (W : Type ℓ) : Type ℓ where
  pub cost : W
  pub cost_without_cache : W
  pub premium_request_cost : W

pub record Hourly {ℓ} (W : Type ℓ) : Type ℓ where
  pub stats : Map Bytes (Stats W)
  pub costs : Map Bytes (HourlyCostTotals W)

module _ {ℓ} {W : Type ℓ} ⦃f : Float64 W⦄ where
  abbrev pub costs_or_zero : Option (HourlyCostTotals W) → HourlyCostTotals W
  costs_or_zero none = record {
    cost = f.nought;
    cost_without_cache = f.nought;
    premium_request_cost = f.nought;
  }
  costs_or_zero (some c) = c

  -- `rs`
  abbrev pub tokens_of : Record → Stats W
  tokens_of r = record {
    api_calls = 0;
    user_turns = 0;
    prompt_tokens = r.prompt_tokens;
    completion_tokens = r.completion_tokens;
    cache_creation_tokens = r.cache_creation_tokens;
    cache_read_tokens = r.cache_read_tokens;
    premium_requests = f.nought;
  }

  abbrev pub no_hours : Hourly W
  no_hours = record { stats = map (λ hour. (hour, new_stats)) hours; costs = [] }

module _ {ℓ} {W : Type ℓ} ⦃f : Float64 W⦄ (periods : List (PricingPeriod W)) where
  abbrev pub premium_of : Record → W
  premium_of r =
      if r.is_user_turn
      then get_premium_multiplier periods (normalize_model r.model) r.timestamp
      else f.nought

  abbrev pub add_costs : Record → HourlyCostTotals W → HourlyCostTotals W
  add_costs r c =
      let model = normalize_model r.model in
      record {
        cost = f.add c.cost (calc_cost periods model (tokens_of r) r.timestamp);
        cost_without_cache =
            f.add c.cost_without_cache (calc_cost_no_cache periods model (tokens_of r) r.timestamp);
        premium_request_cost =
            f.add c.premium_request_cost
              (f.mul (premium_of r) (get_premium_request_cost periods r.timestamp));
      }

  -- The entry of the hour is a pointer: where there is none, the call ends in a panic, `none`. What is
  -- added to it is what `AddRecord` adds.
  abbrev pub count_at : Bytes → Record → Hourly W → Option (Stats W) → Option (Hourly W)
  count_at hour r h none = none
  count_at hour r h (some s) = some (record {
    stats = insert hour (add_record s r (premium_of r)) h.stats;
    costs = insert hour (add_costs r (costs_or_zero (lookup hour h.costs))) h.costs;
  })

  abbrev pub count_hour : Record → Hourly W → Option Bytes → Option (Hourly W)
  count_hour r h none = some h
  count_hour r h (some hour) = count_at hour r h (lookup hour h.stats)

  unfoldable pub count_hours {κ} :
      {T : Type κ} → Times T → ℕ → List Record → Option (Hourly W) → Option (Hourly W)
  count_hours times offset records none = none
  count_hours times offset [] (some h) = some h
  count_hours times offset (r ∷ records) (some h) =
      count_hours times offset records (count_hour r h (hour_of times offset r))

module _ {ℓ} {W : Type ℓ} ⦃f : Float64 W⦄ (round4 : W → W) where
  -- The entry of the key, `hourly[key]`, which is there for each of the hours.
  abbrev pub hour_entry : Hourly W → Bytes → Option (Stats W) → List (Bytes × StatsPayloadStats W)
  hour_entry h key none = []
  hour_entry h key (some s) =
      let c = costs_or_zero (lookup key h.costs) in
      (key, payload_of round4 s c.premium_request_cost c.cost c.cost_without_cache) ∷ []

  unfoldable pub hour_entries : Hourly W → List Bytes → Map Bytes (StatsPayloadStats W)
  hour_entries h [] = []
  hour_entries h (key ∷ keys) = hour_entry h key (lookup key h.stats) ++ hour_entries h keys

  abbrev pub entries_of : Option (Hourly W) → Option (Map Bytes (StatsPayloadStats W))
  entries_of none = none
  entries_of (some h) = some (hour_entries h hours)

  unfoldable pub build_hourly_stats_map {κ} :
      {T : Type κ}
      → Times T
      → List (PricingPeriod W)
      → List Record
      → ℕ
      → Option (Map Bytes (StatsPayloadStats W))
  build_hourly_stats_map times periods records offset =
      entries_of (count_hours periods times offset records (some no_hours))
