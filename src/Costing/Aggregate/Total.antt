-- ===== src/Costing/Aggregate/Total.antt =====
-- No call is lost or counted twice.
use copilot_token_cost.Prelude.{
  ℕ, ◌≡◌, refl, ◌∙◌, ap, sym, Bool, true, false, Option, List, [], ◌∷◌, Bytes, ◌==◌, bytes_eq,
  if◌then◌else◌, arith, Bool-cases, inl, inr,
}
use copilot_token_cost.Prelude.Int64.{add64}
use copilot_token_cost.Prelude.Maps.{Map, lookup, insert}
use copilot_token_cost.Prelude.Floats.{Float64}
use copilot_token_cost.Domain.{Record, Stats, new_stats, add_record}
use copilot_token_cost.Domain.Counters.{
  Counters, plus, plus_comm, plus_assoc, plus_left_comm, IsWord, plus-IsWord, zero-plus,
  none_counted, of_stats, of_record,
}
use copilot_token_cost.Costing.Aggregate.{
  model_key, count_record, stats_or_new, aggregate_record, aggregate_from, aggregate_by_model,
}

abbrev pub total_calls : List Record → Counters
total_calls [] = none_counted
total_calls (r ∷ rs) = plus (of_record r) (total_calls rs)

abbrev pub total_stats {ℓ} : {W : Type ℓ} → Map Bytes (Stats W) → Counters
total_stats [] = none_counted
total_stats ((_, s) ∷ m) = plus (of_stats s) (total_stats m)

add_swap : (a b c : ℕ) → add64 (add64 a b) c ≡ add64 b (add64 a c)
unfolding add64
add_swap a b c = omega arith

turn_swap :
    (turn : Bool) (a c : ℕ)
    → add64 (if turn then add64 a 1 else a) c ≡ add64 (if turn then 1 else 0) (add64 a c)
unfolding add64
turn_swap true a c = omega arith
turn_swap false a c = omega arith

zero_twice : plus none_counted none_counted ≡ none_counted
unfolding plus add64
zero_twice = refl

total_calls-IsWord : (rs : List Record) → IsWord (total_calls rs)
total_calls-IsWord [] = omega arith
total_calls-IsWord (r ∷ rs) = plus-IsWord _ _

total_stats-IsWord {ℓ} : {W : Type ℓ} (m : Map Bytes (Stats W)) → IsWord (total_stats m)
total_stats-IsWord [] = omega arith
total_stats-IsWord ((_, s) ∷ m) = plus-IsWord _ _

plus-total_calls : (rs : List Record) → plus (total_calls rs) none_counted ≡ total_calls rs
plus-total_calls rs =
    plus_comm (total_calls rs) none_counted ∙ zero-plus (total_calls rs) (total_calls-IsWord rs)

module _ {ℓ} {W : Type ℓ} ⦃f : Float64 W⦄ where
  pub plus-add_record :
      (s : Stats W) (r : Record) (m : W) (c : Counters)
      → plus (of_stats (add_record s r m)) c ≡ plus (of_record r) (plus (of_stats s) c)
  unfolding plus add_record
  plus-add_record s r m c = λ i. record {
    api_calls = add_swap s.api_calls 1 c.api_calls i;
    user_turns = turn_swap r.is_user_turn s.user_turns c.user_turns i;
    prompt_tokens = add_swap s.prompt_tokens r.prompt_tokens c.prompt_tokens i;
    completion_tokens = add_swap s.completion_tokens r.completion_tokens c.completion_tokens i;
    cache_creation_tokens =
        add_swap s.cache_creation_tokens r.cache_creation_tokens c.cache_creation_tokens i;
    cache_read_tokens = add_swap s.cache_read_tokens r.cache_read_tokens c.cache_read_tokens i;
  }

  -- A call adds itself to the total, whatever the map holds.
  insert_total :
      (key : Bytes) (r : Record) (m : W) (base : Stats W) (aggregated : Map Bytes (Stats W))
      → stats_or_new (lookup key aggregated) ≡ base
      → total_stats (insert key (add_record base r m) aggregated)
        ≡ plus (of_record r) (total_stats aggregated)
  unfolding insert lookup
  insert_total key r m base [] found =
      rw (← found) (plus-add_record new_stats r m none_counted ∙ ap (plus (of_record r)) zero_twice)
  insert_total key r m base ((j, s) ∷ rest) found = elim (Bool-cases (j == key)) [
    | inl e ↦
        let same : s ≡ base = rw e at found in
        rw (e, ← same) (plus-add_record s r m (total_stats rest))
    | inr e ↦
        let later : stats_or_new (lookup key rest) ≡ base = rw e at found in
        rw (e, insert_total key r m base rest later) (plus_left_comm _ _ _)
  ]

module _ {ℓ} {W : Type ℓ} ⦃f : Float64 W⦄ (mult : Option (Bytes → Bytes → W)) where
  aggregate_record-total :
      (aggregated : Map Bytes (Stats W)) (r : Record)
      → total_stats (aggregate_record mult aggregated r)
        ≡ plus (of_record r) (total_stats aggregated)
  unfolding aggregate_record count_record
  aggregate_record-total aggregated r = insert_total (model_key r) r _ _ aggregated refl

  aggregate_from-total :
      (rs : List Record) (aggregated : Map Bytes (Stats W))
      → total_stats (aggregate_from mult aggregated rs)
        ≡ plus (total_calls rs) (total_stats aggregated)
  unfolding aggregate_from
  aggregate_from-total [] aggregated =
      sym (zero-plus (total_stats aggregated) (total_stats-IsWord aggregated))
  aggregate_from-total (r ∷ rs) aggregated =
      aggregate_from-total rs (aggregate_record mult aggregated r)
      ∙ ap (plus (total_calls rs)) (aggregate_record-total aggregated r)
      ∙ plus_left_comm (total_calls rs) (of_record r) (total_stats aggregated)
      ∙ sym (plus_assoc (of_record r) (total_calls rs) (total_stats aggregated))

  -- The counters of all models together are those of all calls: no call is lost or counted twice,
  -- whatever models the log names (sums are those of Go's `int`).
  pub aggregate_by_model-total :
      (rs : List Record) → total_stats (aggregate_by_model mult rs) ≡ total_calls rs
  unfolding aggregate_by_model
  aggregate_by_model-total rs = aggregate_from-total rs [] ∙ plus-total_calls rs
