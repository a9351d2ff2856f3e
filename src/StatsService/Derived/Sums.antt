-- ===== src/StatsService/Derived/Sums.antt =====
-- The counters of the entries of nested maps, selected by their keys, and what each step adds to them.
use copilot_token_cost.Prelude.{
  ℕ, ◌≡◌, refl, ap, sym, ◌∙◌, Bool, Option, none, some, [], ◌∷◌, Bytes, ◌==◌, Eq, bytes_eq, eq_iff,
  if◌then◌else◌, arith, Bool-cases, Option-cases, inl, inr,
}
use copilot_token_cost.Prelude.Int64.{add64}
use copilot_token_cost.Prelude.Maps.{Map, lookup, insert}
use copilot_token_cost.Prelude.Floats.{Float64}
use copilot_token_cost.Domain.{Stats}
use copilot_token_cost.Domain.Counters.{
  Counters, plus, plus_assoc, plus_left_comm, plus-IsWord, zero-plus, none_counted, of_stats,
  of_stats-merge,
}
use copilot_token_cost.StatsService.Derived.{
  ByModel, ByDay, or_empty, DbModelStats, merged, merge_at, merge_at2, merge_at3, ensure,
}

abbrev pub of_db : DbModelStats → Counters
of_db dbs = record {
  api_calls = dbs.api_calls;
  user_turns = dbs.user_turns;
  prompt_tokens = dbs.prompt_tokens;
  completion_tokens = dbs.completion_tokens;
  cache_creation_tokens = dbs.cache_creation_tokens;
  cache_read_tokens = dbs.cache_read_tokens;
}

abbrev pub selected : Bool → Counters → Counters
selected b c = if b then c else none_counted

-- The sum of what each entry weighs.
abbrev pub sum_of {ℓ κ} : {K : Type κ} {V : Type ℓ} → (K → V → Counters) → Map K V → Counters
sum_of w [] = none_counted
sum_of w ((key, v) ∷ m) = plus (w key v) (sum_of w m)

module _ {ℓ} {V : Type ℓ} (c : V → Counters) where
  abbrev pub sum1 : (Bytes → Bool) → Map Bytes V → Counters
  sum1 p m = sum_of (λ key v. selected (p key) (c v)) m

  abbrev pub sum2 : (Bytes → Bytes → Bool) → Map Bytes (Map Bytes V) → Counters
  sum2 p m = sum_of (λ key models. sum1 (p key) models) m

  abbrev pub sum3 : (Bytes → Bytes → Bytes → Bool) → ByDay V → Counters
  sum3 p m = sum_of (λ key inner. sum2 (p key) inner) m

absorb : (a b : ℕ) → add64 a (add64 0 b) ≡ add64 a b
unfolding add64
absorb a b = omega arith

pub plus_absorb : (a b : Counters) → plus a (plus none_counted b) ≡ plus a b
unfolding plus
plus_absorb a b = λ i. record {
  api_calls = absorb a.api_calls b.api_calls i;
  user_turns = absorb a.user_turns b.user_turns i;
  prompt_tokens = absorb a.prompt_tokens b.prompt_tokens i;
  completion_tokens = absorb a.completion_tokens b.completion_tokens i;
  cache_creation_tokens = absorb a.cache_creation_tokens b.cache_creation_tokens i;
  cache_read_tokens = absorb a.cache_read_tokens b.cache_read_tokens i;
}

pub zero_twice : plus none_counted none_counted ≡ none_counted
unfolding plus add64
zero_twice = refl

module _ {ℓ κ} {K : Type κ} {V : Type ℓ} (w : K → V → Counters) where
  -- A sum is a word.
  pub zero-sum_of : (m : Map K V) → plus none_counted (sum_of w m) ≡ sum_of w m
  zero-sum_of [] = zero_twice
  zero-sum_of ((key, v) ∷ m) = zero-plus _ (plus-IsWord (w key v) (sum_of w m))

  abbrev pub part : K → Option V → Counters
  part key none = none_counted
  part key (some v) = w key v

module _ {ℓ κ} {K : Type κ} {V : Type ℓ} ⦃eq : Eq K⦄ (w : K → V → Counters) where
  -- An entry that weighs more by `d` than the one it replaces makes the sum more by `d`.
  pub sum_of-insert :
      (key : K) (v : V) (d : Counters) (m : Map K V)
      → ((x : Counters) → plus (w key v) x ≡ plus d (plus (part w key (lookup key m)) x))
      → sum_of w (insert key v m) ≡ plus d (sum_of w m)
  unfolding insert lookup
  sum_of-insert key v d [] h = h none_counted ∙ ap (plus d) zero_twice
  sum_of-insert key v d ((j, u) ∷ m) h = elim (Bool-cases (j == key)) [
    | inl e ↦ let same = (eq_iff j key).0 e in rw e (rw same (h (sum_of w m) ∙ rw e))
    | inr e ↦ rw e (
        ap (plus (w j u)) (sum_of-insert key v d m (λ x. h x ∙ rw e))
        ∙ plus_left_comm (w j u) d (sum_of w m))
  ]

-- A map in a map: what there is of the inner one is its part of the sum.
pub inner_part {ℓ} :
    {V : Type ℓ} (c : V → Counters) (p : Bytes → Bytes → Bool) (key : Bytes)
    (o : Option (Map Bytes V))
    → sum1 c (p key) (or_empty o) ≡ part (λ k models. sum1 c (p k) models) key o
inner_part c p key none = refl
inner_part c p key (some m) = refl

pub inner_part2 {ℓ} :
    {V : Type ℓ} (c : V → Counters) (p : Bytes → Bytes → Bytes → Bool) (key : Bytes)
    (o : Option (Map Bytes (Map Bytes V)))
    → sum2 c (p key) (or_empty o) ≡ part (λ k inner. sum2 c (p k) inner) key o
inner_part2 c p key none = refl
inner_part2 c p key (some m) = refl

module _ {ℓ} {W : Type ℓ} ⦃f : Float64 W⦄ where
  abbrev weight : (Bytes → Bool) → Bytes → Stats W → Counters
  weight p key s = selected (p key) (of_stats s)

  merged_lem :
      (p : Bytes → Bool) (key : Bytes) (s : Stats W) (o : Option (Stats W)) (x : Counters)
      → plus (weight p key (merged o s)) x ≡ plus (weight p key s) (plus (part (weight p) key o) x)
  merged_lem p key s none x = sym (plus_absorb (weight p key s) x)
  merged_lem p key s (some e) x = elim (Bool-cases (p key)) [
    | inl b ↦ rw b (
        ap (λ c. plus c x) (of_stats-merge e s)
        ∙ plus_assoc (of_stats e) (of_stats s) x
        ∙ plus_left_comm (of_stats e) (of_stats s) x)
    | inr b ↦ rw b (sym (plus_absorb none_counted x))
  ]

  pub sum1-merge_at :
      (p : Bytes → Bool) (key : Bytes) (s : Stats W) (m : ByModel (Stats W))
      → sum1 of_stats p (merge_at key s m)
        ≡ plus (selected (p key) (of_stats s)) (sum1 of_stats p m)
  unfolding merge_at
  sum1-merge_at p key s m =
      sum_of-insert (weight p) key (merged (lookup key m) s) (weight p key s) m
        (merged_lem p key s (lookup key m))

  pub sum2-merge_at2 :
      (p : Bytes → Bytes → Bool) (outer key : Bytes) (s : Stats W)
      (m : Map Bytes (ByModel (Stats W)))
      → sum2 of_stats p (merge_at2 outer key s m)
        ≡ plus (selected (p outer key) (of_stats s)) (sum2 of_stats p m)
  unfolding merge_at2
  sum2-merge_at2 p outer key s m =
      let held = or_empty (lookup outer m) in
      sum_of-insert (λ k models. sum1 of_stats (p k) models) outer (merge_at key s held)
        (selected (p outer key) (of_stats s)) m
        (λ x.
          ap (λ c. plus c x)
            (sum1-merge_at (p outer) key s held
              ∙ ap (plus (selected (p outer key) (of_stats s)))
                  (inner_part of_stats p outer (lookup outer m)))
          ∙ plus_assoc _ _ x)

  pub sum3-merge_at3 :
      (p : Bytes → Bytes → Bytes → Bool) (day project model : Bytes) (s : Stats W)
      (m : ByDay (Stats W))
      → sum3 of_stats p (merge_at3 day project model s m)
        ≡ plus (selected (p day project model) (of_stats s)) (sum3 of_stats p m)
  unfolding merge_at3
  sum3-merge_at3 p day project model s m =
      let held = or_empty (lookup day m) in
      sum_of-insert (λ k inner. sum2 of_stats (p k) inner) day (merge_at2 project model s held)
        (selected (p day project model) (of_stats s)) m
        (λ x.
          ap (λ c. plus c x)
            (sum2-merge_at2 (p day) project model s held
              ∙ ap (plus (selected (p day project model) (of_stats s)))
                  (inner_part2 of_stats p day (lookup day m)))
          ∙ plus_assoc _ _ x)

pub sum2-ensure {ℓ} :
    {V : Type ℓ} (c : V → Counters) (p : Bytes → Bytes → Bool) (key : Bytes)
    (m : Map Bytes (Map Bytes V))
    → sum2 c p (ensure key m) ≡ sum2 c p m
unfolding ensure
sum2-ensure c p key m = elim (Option-cases (lookup key m)) [
  | inl e ↦ rw e (
      sum_of-insert (λ k models. sum1 c (p k) models) key [] none_counted m
        (λ x. rw e (sym (plus_absorb none_counted x)))
      ∙ zero-sum_of (λ k models. sum1 c (p k) models) m)
  | inr (held, e) ↦ rw e
]
