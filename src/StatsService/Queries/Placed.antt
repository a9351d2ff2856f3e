-- ===== src/StatsService/Queries/Placed.antt =====
-- The rows of the query that the nested maps hold: none is lost, and none replaces another.
use copilot_token_cost.Prelude.{
  ◌≡◌, refl, ap, sym, ◌∙◌, Bool, false, ◌&&◌, Option, none, some, [], ◌∷◌, Bytes, ◌==◌, bytes_eq,
  eq_iff, arith, Bool-cases, inl, inr, All, bytes_beq,
}
use copilot_token_cost.Prelude.Maps.{lookup, insert, lookup-insert}
use copilot_token_cost.Prelude.Distinct.{IsDistinct}
use copilot_token_cost.Domain.Counters.{Counters, plus, plus_assoc}
use copilot_token_cost.StatsService.Derived.{DbModelStats, ByDay, or_empty}
use copilot_token_cost.Storage.Calls.{coalesce}
use copilot_token_cost.StatsService.Derived.Sums.{
  of_db, selected, sum_of, sum1, sum2, sum3, zero-sum_of, sum_of-insert, plus_absorb, inner_part,
  inner_part2,
}
use copilot_token_cost.StatsService.Derived.Merged.{plus_next}
use copilot_token_cost.StatsService.Queries.{
  GroupKey, group_eq, Groups, Place, place_of_group, unknown_day, day_or_unknown, place_row,
  place_rows, same_cwd,
}

abbrev pub same_place : Place → Place → Bool
same_place a b = a.day == b.day && a.cwd == b.cwd && a.model == b.model

abbrev pub at_key : Place → ByDay DbModelStats → Option DbModelStats
at_key key result = lookup key.model (or_empty (lookup key.cwd (or_empty (lookup key.day result))))

module _ (p : Bytes → Bytes → Bytes → Bool) where
  abbrev pub chosen : Place → DbModelStats → Counters
  chosen key s = selected (p key.day key.cwd key.model) (of_db s)

  -- A row that is placed where there is none adds its counters.
  sum3-place_row :
      (key : Place) (s : DbModelStats) (result : ByDay DbModelStats)
      → at_key key result ≡ none
      → sum3 of_db p (place_row key s result) ≡ plus (chosen key s) (sum3 of_db p result)
  unfolding place_row
  sum3-place_row key s result h =
      let d = chosen key s in
      let cwds = or_empty (lookup key.day result) in
      let models = or_empty (lookup key.cwd cwds) in
      let in_models =
        sum_of-insert (λ model v. selected (p key.day key.cwd model) (of_db v)) key.model s d models
          (λ x. rw h (sym (plus_absorb d x))) in
      let in_cwds =
        sum_of-insert (λ k m. sum1 of_db (p key.day k) m) key.cwd (insert key.model s models) d cwds
          (λ x.
            ap (λ c. plus c x)
              (in_models ∙ ap (plus d) (inner_part of_db (p key.day) key.cwd (lookup key.cwd cwds)))
            ∙ plus_assoc _ _ x) in
      sum_of-insert (λ k inner. sum2 of_db (p k) inner) key.day
        (insert key.cwd (insert key.model s models) cwds) d result
        (λ x.
          ap (λ c. plus c x)
            (in_cwds ∙ ap (plus d) (inner_part2 of_db p key.day (lookup key.day result)))
          ∙ plus_assoc _ _ x)

-- Another key keeps what it has.
at_key-place_row :
    (key other : Place) (s : DbModelStats) (result : ByDay DbModelStats)
    → same_place key other ≡ false
    → at_key other (place_row key s result) ≡ at_key other result
unfolding place_row
at_key-place_row key other s result h = elim (Bool-cases (key.day == other.day)) [
  | inr e ↦ rw (lookup-insert key.day other.day, e)
  | inl e ↦ elim (Bool-cases (key.cwd == other.cwd)) [
    | inr k ↦
        rw (lookup-insert key.day other.day, e)
          (rw (lookup-insert key.cwd other.cwd, k) (rw ((eq_iff key.day other.day).0 e)))
    | inl k ↦
        let day = (eq_iff key.day other.day).0 e in
        let cwd = (eq_iff key.cwd other.cwd).0 k in
        let m : (key.model == other.model) ≡ false = ground (arith, h, e, k) in
        rw (lookup-insert key.day other.day, e)
          (rw (lookup-insert key.cwd other.cwd, k)
            (rw (lookup-insert key.model other.model, m) (rw (day, cwd))))
  ]
]

-- None of the rows stands in the maps yet.
abbrev IsFresh : ByDay DbModelStats → Groups → Type 0
IsFresh result groups = All (λ g. at_key (place_of_group g.0) result ≡ none) groups

-- No two rows have one place.
abbrev HasOwnPlaces : Groups → Type 0
HasOwnPlaces [] = Unit
HasOwnPlaces ((key, s) ∷ groups) =
    All (λ g. same_place (place_of_group key) (place_of_group g.0) ≡ false) groups
    × HasOwnPlaces groups

place_row-IsFresh :
    (key : Place) (s : DbModelStats) (result : ByDay DbModelStats) (groups : Groups)
    → IsFresh result groups
    → All (λ g. same_place key (place_of_group g.0) ≡ false) groups
    → IsFresh (place_row key s result) groups
place_row-IsFresh key s result [] h k = tt
place_row-IsFresh key s result ((other, t) ∷ groups) (h, hs) (k, ks) = (
  at_key-place_row key (place_of_group other) s result k ∙ h,
  place_row-IsFresh key s result groups hs ks,
)

abbrev pub is_blank : Option Bytes → Bool
is_blank none = false
is_blank (some cwd) = cwd == []

-- The row has not the day that stands for none, nor an empty directory.
abbrev pub IsPlain : GroupKey → Type 0
IsPlain key = ((key.day == unknown_day) ≡ false) × (is_blank key.cwd ≡ false)

abbrev pub ArePlain : Groups → Type 0
ArePlain groups = All (λ g. IsPlain g.0) groups

day_same :
    (a b : Bytes)
    → (a == unknown_day) ≡ false
    → (b == unknown_day) ≡ false
    → (day_or_unknown a == day_or_unknown b) ≡ (a == b)
unfolding bytes_beq
day_same [] [] h k = refl
day_same [] (c ∷ b) h k = ground (arith, eq_iff unknown_day (c ∷ b), eq_iff (c ∷ b) unknown_day, k)
day_same (c ∷ a) [] h k = h
day_same (c ∷ a) (d ∷ b) h k = refl

apart : (a b : GroupKey) → (b == a) ≡ false → (a == b) ≡ false
apart a b e = elim (Bool-cases (a == b)) [
  | inl h ↦
      let same : b ≡ a = sym ((eq_iff a b).0 h) in
      let absurd = (eq_iff b a).1 same in ground (arith, absurd, e)
  | inr h ↦ h
]

cwd_same :
    (a b : Option Bytes)
    → is_blank a ≡ false
    → is_blank b ≡ false
    → (coalesce a == coalesce b) ≡ same_cwd a b
unfolding bytes_beq
cwd_same none none h k = refl
cwd_same none (some []) h k = cc
cwd_same none (some (d ∷ b)) h k = refl
cwd_same (some []) none h k = cc
cwd_same (some (c ∷ a)) none h k = refl
cwd_same (some a) (some b) h k = refl

place_same :
    (a b : GroupKey)
    → IsPlain a
    → IsPlain b
    → same_place (place_of_group a) (place_of_group b) ≡ (a == b)
place_same a b (h, hs) (k, ks) = rw (day_same a.day b.day h k, cwd_same a.cwd b.cwd hs ks)

own_place :
    (key : GroupKey) (groups : Groups)
    → IsPlain key
    → lookup key groups ≡ none
    → ArePlain groups
    → All (λ g. same_place (place_of_group key) (place_of_group g.0) ≡ false) groups
unfolding lookup
own_place key [] u h k = tt
own_place key ((other, t) ∷ groups) u h (k, ks) = elim (Bool-cases (other == key)) [
  | inl e ↦ let absurd : some t ≡ none = rw e at h in ground (arith, absurd)
  | inr e ↦ (place_same key other u k ∙ apart key other e, own_place key groups u (rw e at h) ks)
]

pub own_places : (groups : Groups) → IsDistinct groups → ArePlain groups → HasOwnPlaces groups
own_places [] d h = tt
own_places ((key, s) ∷ groups) (d, ds) (h, hs) =
    (own_place key groups h d hs, own_places groups ds hs)

module _ (p : Bytes → Bytes → Bytes → Bool) where
  -- What the rows add up to, under the days that the maps have them at.
  abbrev pub sum_of_groups : Groups → Counters
  sum_of_groups groups = sum_of (λ key s. chosen p (place_of_group key) s) groups

  pub sum3-place_rows :
      (groups : Groups) (result : ByDay DbModelStats)
      → IsFresh result groups
      → HasOwnPlaces groups
      → sum3 of_db p (place_rows groups result) ≡ plus (sum_of_groups groups) (sum3 of_db p result)
  unfolding place_rows
  sum3-place_rows [] result h k = sym (zero-sum_of _ result)
  sum3-place_rows ((key, s) ∷ groups) result (h, hs) (k, ks) =
      let later = place_row (place_of_group key) s result in
      sum3-place_rows groups later (place_row-IsFresh (place_of_group key) s result groups hs k) ks
      ∙ ap (plus (sum_of_groups groups)) (sum3-place_row p (place_of_group key) s result h)
      ∙ plus_next _ _ _
