-- ===== src/Costing/Reattribute/Settled.antt =====
-- What the reattribution reaches: no turn is left where a later record could take it.
use copilot_token_cost.Prelude.{
  ℕ, zero, suc, ◌+◌, ◌≤◌, ◌≡◌, refl, sym, ◌∙◌, Bool, true, false, not, ◌||◌, Option, none, some,
  List, [], ◌∷◌, Bytes, length, every, arith, Bool-cases, inl, inr,
}
use copilot_token_cost.Prelude.Floats.{Float64}
use copilot_token_cost.Domain.{Record}
use copilot_token_cost.Costing.Reattribute.{
  is_premium, takes_turn, prepend, transfer, hand_over, round, rounds, reattribute_user_turns,
}
use copilot_token_cost.Costing.Reattribute.Keeps.{
  count_turns, AreFair, same-takes_turn, rounds-AreFair, round-Kept, rounds-count, AreFair-length,
}

module _ {ℓ} {W : Type ℓ} ⦃f : Float64 W⦄ (mult : Bytes → Bytes → W) where
  abbrev pub no_taker : List Record → Bool
  no_taker = every (λ r. not (takes_turn mult r))

  -- Every turn on a model without premium has no record behind it that takes turns.
  abbrev pub IsSettled : List Record → Type 0
  IsSettled [] = Unit
  IsSettled (r ∷ rs) =
      (r.is_user_turn ≡ true → is_premium mult r ≡ false → no_taker rs ≡ true) × IsSettled rs

  transfer-none : (rs : List Record) → transfer mult rs ≡ none → no_taker rs ≡ true
  unfolding transfer
  transfer-none [] h = refl
  transfer-none (r ∷ rs) h = elim (Bool-cases (takes_turn mult r)) [
    | inl e ↦ ground arith
    | inr e ↦ rw e (transfer-none rs (prepend-none r (transfer mult rs) (rw e at h)))
  ]
    where
      prepend-none : (q : Record) (o : Option (List Record)) → prepend q o ≡ none → o ≡ none
      prepend-none q none k = refl
      prepend-none q (some qs) k = cc

  no_taker-fair : (rs ss : List Record) → AreFair mult rs ss → no_taker rs ≡ no_taker ss
  no_taker-fair [] [] h = refl
  no_taker-fair [] (s ∷ ss) h = absurd h
  no_taker-fair (r ∷ rs) [] h = absurd h
  no_taker-fair (r ∷ rs) (s ∷ ss) (h, hs) =
      rw (same-takes_turn mult r s h.same, no_taker-fair rs ss hs)

  hand_over_settles :
      (r : Record) (rs : List Record) (o : Option (List Record))
      → (o ≡ none → no_taker rs ≡ true)
      → (hand_over r rs o).0.is_user_turn ≡ true
      → no_taker (hand_over r rs o).1 ≡ true
  hand_over_settles r rs none h turn = h refl
  hand_over_settles r rs (some rs') h turn = cc turn

  -- After its round a record is settled with respect to what stands behind it then.
  round_settles :
      (r : Record) (rs : List Record)
      → (round mult r rs).0.is_user_turn ≡ true
      → is_premium mult (round mult r rs).0 ≡ false
      → no_taker (round mult r rs).1 ≡ true
  unfolding round
  round_settles r rs = elim (Bool-cases (not r.is_user_turn || is_premium mult r)) [
    | inl e ↦ rw e (λ turn zeroed. ground arith)
    | inr e ↦
        rw e (λ turn zeroed. hand_over_settles r rs (transfer mult rs) (transfer-none rs) turn)
  ]

  rounds-IsSettled : (n : ℕ) (rs : List Record) → length rs ≤ n → IsSettled (rounds mult n rs)
  unfolding rounds
  rounds-IsSettled zero [] h = tt
  rounds-IsSettled zero (r ∷ rs) h = absurd (omega arith)
  rounds-IsSettled (suc n) [] h = tt
  rounds-IsSettled (suc n) (r ∷ rs) h =
      let (fair, _, _) = round-Kept mult r rs in
      let (r', rs') = round mult r rs in
      let same = no_taker-fair rs' (rounds mult n rs') (rounds-AreFair mult n rs') in
      let fits : length rs' ≤ n = omega (arith, h, AreFair-length mult (r ∷ rs) (r' ∷ rs') fair) in
      ((λ turn zeroed. sym same ∙ round_settles r rs turn zeroed), rounds-IsSettled n rs' fits)

  -- After the reattribution every turn that is left on a model without premium has no record behind it
  -- that could take it.
  pub reattribute-IsSettled : (rs : List Record) → IsSettled (reattribute_user_turns mult rs)
  unfolding reattribute_user_turns
  reattribute-IsSettled rs = rounds-IsSettled (length rs) rs (omega arith)

  -- Where a turn on a model without premium stands right before a turn on a model that takes turns, the
  -- two become one: the reattribution loses at least one turn of the log.
  pub turns_merge :
      (r q : Record) (rs : List Record)
      → r.is_user_turn ≡ true
      → is_premium mult r ≡ false
      → q.is_user_turn ≡ true
      → takes_turn mult q ≡ true
      → count_turns (reattribute_user_turns mult (r ∷ q ∷ rs)) + 1 ≤ count_turns (r ∷ q ∷ rs)
  unfolding reattribute_user_turns rounds round transfer
  turns_merge r q rs hr zeroed hq takes =
      let few = (rounds-count mult (suc (length rs)) (record q { is_user_turn = true } ∷ rs)).0 in
      rw (hr, zeroed, takes) (rw hq (omega (arith, few)))
