-- ===== src/StatsService/Hourly/Viewer.antt =====
-- The hours of the hourly statistics on the viewer's clock.
use copilot_token_cost.Prelude.{
  ℕ, ◌+◌, ◌-◌, ◌/◌, ◌%◌, ◌<◌, ◌≡◌, refl, sym, Bool, true, false, Option, none, some, List, [], ◌∷◌,
  Bytes, keep, min, ◌==◌, nat_eq, bytes_eq, bytes_beq, if◌then◌else◌, arith, Option-cases, inl, inr,
}
use copilot_token_cost.Prelude.Int64.{word, sub64, is_neg, lt64}
use copilot_token_cost.Prelude.Maps.{Map, lookup, is_in}
use copilot_token_cost.Prelude.Floats.{Float64}
use copilot_token_cost.Domain.{Record}
use copilot_token_cost.Costing.Aggregate.Total.{total_calls}
use copilot_token_cost.Costing.Periods.{PricingPeriod}
use copilot_token_cost.StatsService.Hourly.{
  StatsPayloadStats, normalize_timezone_offset_minutes, parse_record_timestamp, Times, hour_of,
  two_digits, hours, build_hourly_stats_map,
}
use copilot_token_cost.StatsService.Hourly.Conserved.{
  at_hour, calls_at, IsEntry, build_hourly_stats_map_lem,
}

-- A minute of the day, moved by a signed number of minutes, a 64-bit pattern.
abbrev pub moved : ℕ → ℕ → ℕ
moved minute shift =
    if is_neg shift
    then (minute + (1440 - (word - shift) % 1440)) % 1440
    else (minute + shift) % 1440

-- What the package time does: `Add` moves the clock by the minutes, and `Format("15")` prints its hour in
-- two digits. `minute` is the minute of the day that a time shows in its own zone.
pub record IsClock {κ} {T : Type κ} (times : Times T) (minute : T → ℕ) : Type κ where
  pub in_day : (t : T) → minute t < 1440
  pub shows : (t : T) (shift : ℕ) → times.hour t shift ≡ two_digits (moved (minute t) shift / 60)

-- The minute of the day for a viewer who is that many minutes behind, 14 hours at most; a negative number
-- is for one who is ahead.
abbrev pub viewer_minute : ℕ → ℕ → ℕ
viewer_minute offset minute =
    if is_neg offset
    then (minute + min 840 (word - offset)) % 1440
    else (minute + 1440 - min 840 offset) % 1440

moved_lem :
    (offset minute : ℕ)
    → offset < word
    → minute < 1440
    → moved minute (sub64 0 (normalize_timezone_offset_minutes offset))
      ≡ viewer_minute offset minute
unfolding normalize_timezone_offset_minutes sub64 is_neg lt64
moved_lem offset minute h k = ground arith

same_digits : (a b : ℕ) → a < 24 → b < 24 → (two_digits a == two_digits b) ≡ (a == b)
unfolding two_digits bytes_beq
same_digits a b h k = ground arith

is_in-hours : (h : ℕ) → h < 24 → is_in (two_digits h) hours ≡ true
unfolding two_digits bytes_beq
is_in-hours h k = ground arith

module _ {κ} {T : Type κ} (times : Times T) (minute : T → ℕ) (offset : ℕ) where
  abbrev pub is_shown : ℕ → Option T → Bool
  is_shown h none = false
  is_shown h (some t) = viewer_minute offset (minute t) / 60 == h

  -- The calls whose time, where it can be read, shows that hour to the viewer.
  abbrev pub calls_shown : ℕ → List Record → List Record
  calls_shown h rs = keep (λ r. is_shown h (parse_record_timestamp times r.timestamp)) rs

  shown_lem :
      (h : ℕ) (r : Record)
      → IsClock times minute
      → offset < word
      → h < 24
      → at_hour (two_digits h) (hour_of times offset r)
        ≡ is_shown h (parse_record_timestamp times r.timestamp)
  unfolding hour_of
  shown_lem h r clock small early = elim (Option-cases (parse_record_timestamp times r.timestamp)) [
    | inl e ↦ rw (hour_of, e)
    | inr (t, e) ↦
        let day = clock.in_day t in
        let same = moved_lem offset (minute t) small day in
        rw (hour_of, e, clock.shows t (sub64 0 (normalize_timezone_offset_minutes offset)), same)
          (same_digits (viewer_minute offset (minute t) / 60) h (ground arith) early)
  ]

  calls_lem :
      (h : ℕ) (rs : List Record)
      → IsClock times minute
      → offset < word
      → h < 24
      → calls_at times offset (two_digits h) rs ≡ calls_shown h rs
  calls_lem h [] clock small early = refl
  calls_lem h (r ∷ rs) clock small early =
      rw (shown_lem h r clock small early, calls_lem h rs clock small early)

-- For a clock that moves by whole minutes and prints the hour in two digits, and an offset that is a 64-bit
-- number: the hourly statistics never fail for a missing entry, and the entry of each hour from 0 to 23
-- counts just the calls whose timestamp shows that hour, once it is moved back by the minutes that the
-- viewer is behind, 14 hours at most either way; what is moved is the clock that the timestamp shows in its
-- own zone, and a call whose time cannot be read is in no entry.
pub hourly_for_viewer {ℓ κ} :
    {W : Type ℓ} ⦃f : Float64 W⦄ {T : Type κ} (round4 : W → W) (times : Times T) (minute : T → ℕ)
    (periods : List (PricingPeriod W)) (rs : List Record) (offset : ℕ)
    → IsClock times minute
    → offset < word
    → (out : Map Bytes (StatsPayloadStats W)) × (build_hourly_stats_map round4 times periods rs
          offset
        ≡ some out)
      × ((h : ℕ)
          → h < 24
          → IsEntry
              (total_calls (calls_shown times minute offset h rs))
              (lookup (two_digits h) out))
hourly_for_viewer round4 times minute periods rs offset clock small =
    let (out, done, entries) = build_hourly_stats_map_lem round4 times periods rs offset (λ t o.
      rw (clock.shows t o)
        (is_in-hours (moved (minute t) o / 60) (ground (arith, clock.in_day t)))) in
    (
      out,
      done,
      λ h early.
          rw (sym (calls_lem times minute offset h rs clock small early))
            (entries (two_digits h) (is_in-hours h early)),
    )
