-- ===== src/StatsService/Hourly/Conserved.antt =====
-- What the hours count.
use copilot_token_cost.Prelude.{
  ℕ, ◌≡◌, refl, ap, sym, subst, ◌∙◌, Bool, true, false, Option, none, some, List, [], ◌∷◌, Bytes,
  keep, map, ◌==◌, bytes_eq, eq_iff, if◌then◌else◌, arith, Bool-cases, Option-cases, inl, inr,
}
use mathlib.Core.Option.{some-injective}
use copilot_token_cost.Prelude.Int64.{sub64}
use copilot_token_cost.Prelude.Maps.{Map, lookup, insert, lookup-insert, is_in}
use copilot_token_cost.Prelude.Floats.{Float64}
use copilot_token_cost.Domain.{Record, Stats, new_stats, add_record}
use copilot_token_cost.Domain.Counters.{
  Counters, plus, plus_comm, plus_assoc, IsWord, plus-IsWord, zero-plus, none_counted, of_stats,
  of_record, of_stats-add,
}
use copilot_token_cost.Costing.Aggregate.Total.{total_calls}
use copilot_token_cost.Costing.Periods.{PricingPeriod}
use copilot_token_cost.StatsService.Hourly.{
  StatsPayloadStats, payload_of, normalize_timezone_offset_minutes, parse_record_timestamp, Times,
  hour_of, hours, Hourly, costs_or_zero, premium_of, add_costs, count_at, count_hour, count_hours,
  no_hours, hour_entries, entries_of, build_hourly_stats_map,
}

abbrev pub of_payload {ℓ} : {W : Type ℓ} → StatsPayloadStats W → Counters
of_payload s = record {
  api_calls = s.api_calls;
  user_turns = s.user_turns;
  prompt_tokens = s.prompt_tokens;
  completion_tokens = s.completion_tokens;
  cache_creation_tokens = s.cache_creation_tokens;
  cache_read_tokens = s.cache_read_tokens;
}

-- The record is of that hour.
abbrev pub at_hour : Bytes → Option Bytes → Bool
at_hour key none = false
at_hour key (some hour) = hour == key

abbrev pub calls_at {κ} : {T : Type κ} → Times T → ℕ → Bytes → List Record → List Record
calls_at times offset key rs = keep (λ r. at_hour key (hour_of times offset r)) rs

pub plus-none : (c : Counters) → IsWord c → plus c none_counted ≡ c
plus-none c h = plus_comm c none_counted ∙ zero-plus c h

-- There is an entry, and it has these counters.
abbrev pub HasCounters {ℓ} : {W : Type ℓ} → Counters → Option (Stats W) → Type 0
HasCounters c none = ⊥
HasCounters c (some s) = (of_stats s ≡ c) × IsWord c

entry_of {ℓ} :
    {W : Type ℓ} (c : Counters) (o : Option (Stats W))
    → HasCounters c o
    → (s : Stats W) × (o ≡ some s)
entry_of c none h = absurd h
entry_of c (some s) h = (s, refl)

-- The counters behind a call of an hour.
abbrev next : Bytes → Record → (Bytes → Counters) → Bytes → Counters
next hour r cs key = if hour == key then plus (cs key) (of_record r) else cs key

module _ {ℓ} {W : Type ℓ} ⦃f : Float64 W⦄ where
  abbrev AllCount : (Bytes → Counters) → Map Bytes (Stats W) → Type 0
  AllCount cs m = (key : Bytes) → is_in key hours ≡ true → HasCounters (cs key) (lookup key m)

  add-HasCounters :
      (c : Counters) (s : Stats W) (r : Record) (x : W)
      → HasCounters c (some s)
      → HasCounters (plus c (of_record r)) (some (add_record s r x))
  add-HasCounters c s r x (e, w) = (
    of_stats-add s r x (subst IsWord (sym e) w) ∙ ap (λ k. plus k (of_record r)) e,
    plus-IsWord c (of_record r),
  )

  counted_at :
      (hour : Bytes) (r : Record) (x : W) (m : Map Bytes (Stats W)) (s : Stats W)
      (cs : Bytes → Counters)
      → lookup hour m ≡ some s
      → AllCount cs m
      → AllCount (next hour r cs) (insert hour (add_record s r x) m)
  counted_at hour r x m s cs l all key known = elim (Bool-cases (hour == key)) [
    | inl e ↦
        let same = (eq_iff hour key).0 e in
        let held : HasCounters (cs key) (some s) =
          subst (HasCounters (cs key)) (subst (λ k. lookup k m ≡ some s) same l) (all key known) in
        rw (lookup-insert, e) (add-HasCounters (cs key) s r x held)
    | inr e ↦ rw (lookup-insert, e) (all key known)
  ]

  AllCount-same :
      (cs ds : Bytes → Counters) (m : Map Bytes (Stats W))
      → ((key : Bytes) → is_in key hours ≡ true → IsWord (cs key) → cs key ≡ ds key)
      → AllCount cs m
      → AllCount ds m
  AllCount-same cs ds m same all key known =
      recounted (lookup key m) (all key known) (same key known)
    where
      recounted :
          {c d : Counters} (o : Option (Stats W))
          → HasCounters c o
          → (IsWord c → c ≡ d)
          → HasCounters d o
      recounted none x k = absurd x
      recounted (some s) (e, w) k = (e ∙ k w, subst IsWord (k w) w)

module _ {ℓ κ} {W : Type ℓ} ⦃f : Float64 W⦄ (periods : List (PricingPeriod W)) {T : Type κ}
    (times : Times T) (offset : ℕ) where
  hour_known :
      (r : Record) (hour : Bytes)
      → ((t : T) (o : ℕ) → is_in (times.hour t o) hours ≡ true)
      → hour_of times offset r ≡ some hour
      → is_in hour hours ≡ true
  unfolding hour_of
  hour_known r hour known e = elim (Option-cases (parse_record_timestamp times r.timestamp)) [
    | inl k ↦ cc (rw (hour_of, k) at e)
    | inr (t, k) ↦
        let same = some-injective _ _ (rw (hour_of, k) at e) in
        subst (λ x. is_in x hours ≡ true) same
          (known t (sub64 0 (normalize_timezone_offset_minutes offset)))
  ]

  abbrev behind : (Bytes → Counters) → List Record → Bytes → Counters
  behind cs rs key = plus (cs key) (total_calls (calls_at times offset key rs))

  step_none :
      (r : Record) (rs : List Record) (h : Hourly W)
      → hour_of times offset r ≡ none
      → count_hours periods times offset (r ∷ rs) (some h)
        ≡ count_hours periods times offset rs (some h)
  unfolding count_hours
  step_none r rs h e = ap (λ o. count_hours periods times offset rs (count_hour periods r h o)) e

  abbrev after_call : Bytes → Record → Stats W → Hourly W → Hourly W
  after_call hour r s h = record {
    stats = insert hour (add_record s r (premium_of periods r)) h.stats;
    costs = insert hour (add_costs periods r (costs_or_zero (lookup hour h.costs))) h.costs;
  }

  step_some :
      (r : Record) (rs : List Record) (h : Hourly W) (hour : Bytes) (s : Stats W)
      → hour_of times offset r ≡ some hour
      → lookup hour h.stats ≡ some s
      → count_hours periods times offset (r ∷ rs) (some h)
        ≡ count_hours periods times offset rs (some (after_call hour r s h))
  unfolding count_hours
  step_some r rs h hour s e l =
      ap (λ o. count_hours periods times offset rs (count_hour periods r h o)) e
      ∙ ap (λ o. count_hours periods times offset rs (count_at periods hour r h o)) l

  unread_lem :
      (cs : Bytes → Counters) (r : Record) (rs : List Record) (key : Bytes)
      → hour_of times offset r ≡ none
      → behind cs rs key ≡ behind cs (r ∷ rs) key
  unread_lem cs r rs key e = rw e

  at_hour_lem :
      (cs : Bytes → Counters) (r : Record) (rs : List Record) (hour key : Bytes)
      → hour_of times offset r ≡ some hour
      → behind (next hour r cs) rs key ≡ behind cs (r ∷ rs) key
  at_hour_lem cs r rs hour key e = elim (Bool-cases (hour == key)) [
    | inl k ↦ rw (e, k) (plus_assoc _ _ _)
    | inr k ↦ rw (e, k)
  ]

  count_hours_lem :
      (rs : List Record) (h : Hourly W) (cs : Bytes → Counters)
      → ((t : T) (o : ℕ) → is_in (times.hour t o) hours ≡ true)
      → AllCount cs h.stats
      → (h' : Hourly W) × (count_hours periods times offset rs (some h) ≡ some h')
        × AllCount (behind cs rs) h'.stats
  unfolding count_hours
  count_hours_lem [] h cs known all =
      (h, refl, AllCount-same cs (behind cs []) h.stats (λ key k w. sym (plus-none (cs key) w)) all)
  count_hours_lem (r ∷ rs) h cs known all = elim (Option-cases (hour_of times offset r)) [
    | inl e ↦
        let (h', done, counted) = count_hours_lem rs h cs known all in
        (
          h',
          step_none r rs h e ∙ done,
          AllCount-same (behind cs rs) (behind cs (r ∷ rs)) h'.stats
              (λ key k w. unread_lem cs r rs key e) counted,
        )
    | inr (hour, e) ↦
        let (s, l) =
          entry_of (cs hour) (lookup hour h.stats) (all hour (hour_known r hour known e)) in
        let (h', done, counted) =
          count_hours_lem rs (after_call hour r s h) (next hour r cs) known
            (counted_at hour r (premium_of periods r) h.stats s cs l all) in
        (
          h',
          step_some r rs h hour s e l ∙ done,
          AllCount-same (behind (next hour r cs) rs) (behind cs (r ∷ rs)) h'.stats
              (λ key k w. at_hour_lem cs r rs hour key e) counted,
        )
  ]

pub zero-IsWord : IsWord none_counted
zero-IsWord = omega arith

zero-total_calls : (rs : List Record) → plus none_counted (total_calls rs) ≡ total_calls rs
zero-total_calls [] = zero-plus none_counted zero-IsWord
zero-total_calls (r ∷ rs) = zero-plus _ (plus-IsWord (of_record r) (total_calls rs))

module _ {ℓ} {W : Type ℓ} ⦃f : Float64 W⦄ where
  -- The entry of a payload has these counters.
  abbrev pub IsEntry : Counters → Option (StatsPayloadStats W) → Type 0
  IsEntry c none = ⊥
  IsEntry c (some s) = of_payload s ≡ c

  IsEntry-hour_entries :
      (round4 : W → W) (h : Hourly W) (key : Bytes) (c : Counters) (ks : List Bytes)
      → is_in key ks ≡ true
      → HasCounters c (lookup key h.stats)
      → IsEntry c (lookup key (hour_entries round4 h ks))
  unfolding hour_entries lookup payload_of
  IsEntry-hour_entries round4 h key c [] known has = cc known
  IsEntry-hour_entries round4 h key c (k ∷ ks) known has = elim (Bool-cases (k == key)) [
    | inl e ↦
        let same = (eq_iff k key).0 e in
        let (s, l) = entry_of c (lookup key h.stats) has in
        rw same (rw l (rw ((eq_iff key key).1 refl) (subst (HasCounters c) l has).0))
    | inr e ↦
        let later = IsEntry-hour_entries round4 h key c ks (rw e at known) has in
        elim (Option-cases (lookup k h.stats)) [
          | inl l ↦ rw l later
          | inr (s, l) ↦ rw l (rw e later)
        ]
  ]

all_new {ℓ} :
    (W : Type ℓ) ⦃f : Float64 W⦄ (ks : List Bytes) (key : Bytes)
    → is_in key ks ≡ true
    → HasCounters {W = W} none_counted (lookup key (map (λ k. (k, new_stats)) ks))
unfolding lookup
all_new W [] key known = cc known
all_new W (k ∷ ks) key known = elim (Bool-cases (k == key)) [
  | inl e ↦ rw e (refl, zero-IsWord)
  | inr e ↦ rw e (all_new W ks key (rw e at known))
]

-- Where `Format` gives an hour of the day: the hourly statistics never fail for a missing entry, and the
-- entry of each of the 24 hours counts just the calls that `hour_of` puts in it; a call
-- whose time cannot be read is in none.
pub build_hourly_stats_map_lem {ℓ κ} :
    {W : Type ℓ} ⦃f : Float64 W⦄ {T : Type κ} (round4 : W → W) (times : Times T)
    (periods : List (PricingPeriod W)) (rs : List Record) (offset : ℕ)
    → ((t : T) (o : ℕ) → is_in (times.hour t o) hours ≡ true)
    → (out : Map Bytes (StatsPayloadStats W)) × (build_hourly_stats_map round4 times periods rs
          offset
        ≡ some out)
      × ((key : Bytes)
          → is_in key hours ≡ true
          → IsEntry (total_calls (calls_at times offset key rs)) (lookup key out))
unfolding build_hourly_stats_map
build_hourly_stats_map_lem {W = W} round4 times periods rs offset known =
    let (h, done, all) =
      count_hours_lem periods times offset rs no_hours (λ key. none_counted) known
        (all_new W hours) in
    (
      hour_entries round4 h hours,
      ap (entries_of round4) done,
      λ key k. IsEntry-hour_entries round4 h key _ hours k (
          subst (λ c. HasCounters c (lookup key h.stats))
            (zero-total_calls (calls_at times offset key rs)) (all key k)),
    )
