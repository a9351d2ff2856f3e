-- ===== src/Costing/Reattribute/Keeps.antt =====
-- What the reattribution leaves alone.
use copilot_token_cost.Prelude.{
  ℕ, zero, suc, ◌+◌, ◌≤◌, ◌≡◌, ◌⊎◌, refl, sym, ap, ◌∙◌, Bool, true, false, not, ◌||◌, Option, none,
  some, List, [], ◌∷◌, Bytes, length, if◌then◌else◌, arith, Bool-cases, inl, inr,
}
use copilot_token_cost.Prelude.Floats.{Float64}
use copilot_token_cost.Domain.{Record}
use copilot_token_cost.Costing.Reattribute.{
  is_premium, takes_turn, prepend, transfer, hand_over, round, rounds, reattribute_user_turns,
}

-- A record with its attribution forgotten.
abbrev pub unattributed : Record → Record
unattributed r = record r { is_user_turn = false }

abbrev pub count_turns : List Record → ℕ
count_turns [] = 0
count_turns (r ∷ rs) = (if r.is_user_turn then 1 else 0) + count_turns rs

module _ {ℓ} {W : Type ℓ} ⦃f : Float64 W⦄ (mult : Bytes → Bytes → W) where
  -- What becomes of one record: nothing changes but the attribution, a turn on a premium model stays,
  -- and a turn appears only on a record whose model takes turns.
  pub record IsFair (r s : Record) : Type 0 where
    pub same : unattributed s ≡ unattributed r
    pub premium_stays : r.is_user_turn ≡ true → is_premium mult r ≡ true → s.is_user_turn ≡ true
    pub from_somewhere :
        s.is_user_turn ≡ true → (r.is_user_turn ≡ true) ⊎ (takes_turn mult r ≡ true)

  -- The lists are of one length, and pair up the fates of the records.
  abbrev pub AreFair : List Record → List Record → Type 0
  AreFair [] [] = Unit
  AreFair (r ∷ rs) (s ∷ ss) = IsFair r s × AreFair rs ss
  AreFair _ _ = ⊥

  pub AreFair-length : (rs ss : List Record) → AreFair rs ss → length ss ≡ length rs
  AreFair-length [] [] h = refl
  AreFair-length [] (s ∷ ss) h = absurd h
  AreFair-length (r ∷ rs) [] h = absurd h
  AreFair-length (r ∷ rs) (s ∷ ss) (_, hs) = ap suc (AreFair-length rs ss hs)

  IsFair-refl : (r : Record) → IsFair r r
  IsFair-refl r = record { same = refl; premium_stays = λ h _. h; from_somewhere = λ h. inl h }

  AreFair-refl : (rs : List Record) → AreFair rs rs
  AreFair-refl [] = tt
  AreFair-refl (r ∷ rs) = (IsFair-refl r, AreFair-refl rs)

  pub same-takes_turn :
      (r s : Record) → unattributed s ≡ unattributed r → takes_turn mult s ≡ takes_turn mult r
  unfolding takes_turn
  same-takes_turn r s e = ap (λ q. takes_turn mult q) e

  same-is_premium :
      (r s : Record) → unattributed s ≡ unattributed r → is_premium mult s ≡ is_premium mult r
  unfolding is_premium
  same-is_premium r s e = ap (λ q. is_premium mult q) e

  IsFair-trans : (r s t : Record) → IsFair r s → IsFair s t → IsFair r t
  IsFair-trans r s t h k = record {
    same = k.same ∙ h.same;
    premium_stays =
        λ turn p. k.premium_stays (h.premium_stays turn p) (same-is_premium r s h.same ∙ p);
    from_somewhere = λ turn. elim (k.from_somewhere turn) [
      | inl was ↦ h.from_somewhere was
      | inr takes ↦ inr (sym (same-takes_turn r s h.same) ∙ takes)
    ];
  }

  AreFair-trans : (rs ss ts : List Record) → AreFair rs ss → AreFair ss ts → AreFair rs ts
  AreFair-trans [] [] [] h k = tt
  AreFair-trans [] [] (t ∷ ts) h k = k
  AreFair-trans [] (s ∷ ss) ts h k = absurd h
  AreFair-trans (r ∷ rs) [] ts h k = absurd h
  AreFair-trans (r ∷ rs) (s ∷ ss) [] h k = k
  AreFair-trans (r ∷ rs) (s ∷ ss) (t ∷ ts) (h, hs) (k, ks) =
      (IsFair-trans r s t h k, AreFair-trans rs ss ts hs ks)

  -- What `transfer` may return for `rs`.
  abbrev Handed : List Record → Option (List Record) → Type 0
  Handed rs none = Unit
  Handed rs (some rs') =
      AreFair rs rs' × (count_turns rs' ≤ 1 + count_turns rs) × (1 ≤ count_turns rs')

  prepend-Handed :
      (r : Record) (rs : List Record) (o : Option (List Record))
      → Handed rs o
      → Handed (r ∷ rs) (prepend r o)
  prepend-Handed r rs none h = tt
  prepend-Handed r rs (some rs') (fair, most, least) =
      ((IsFair-refl r, fair), omega (arith, most), omega (arith, least))

  turn_given : (r : Record) → takes_turn mult r ≡ true → IsFair r (record r { is_user_turn = true })
  turn_given r e = record { same = refl; premium_stays = λ _ _. refl; from_somewhere = λ _. inr e }

  count_turn_bound : (r : Record) → (if r.is_user_turn then 1 else 0) ≤ 1
  count_turn_bound r = ground arith

  transfer-Handed : (rs : List Record) → Handed rs (transfer mult rs)
  unfolding transfer
  transfer-Handed [] = tt
  transfer-Handed (r ∷ rs) = elim (Bool-cases (takes_turn mult r)) [
    | inl e ↦ rw e ((turn_given r e, AreFair-refl rs), omega arith, omega arith)
    | inr e ↦ rw e (prepend-Handed r rs (transfer mult rs) (transfer-Handed rs))
  ]

  -- What a round may return for `rs`.
  abbrev Kept : List Record → Record × List Record → Type 0
  Kept rs (r', rs') =
      AreFair rs (r' ∷ rs')
      × (count_turns (r' ∷ rs') ≤ count_turns rs)
      × (1 ≤ count_turns rs → 1 ≤ count_turns (r' ∷ rs'))

  hand_over-Kept :
      (r : Record) (rs : List Record) (o : Option (List Record))
      → r.is_user_turn ≡ true
      → is_premium mult r ≡ false
      → Handed rs o
      → Kept (r ∷ rs) (hand_over r rs o)
  hand_over-Kept r rs none turn zeroed h = (AreFair-refl (r ∷ rs), omega arith, λ x. x)
  hand_over-Kept r rs (some rs') turn zeroed (fair, most, least) = (
    (
      record { same = refl; premium_stays = λ _ p. cc (p, zeroed); from_somewhere = λ b. cc b },
      fair,
    ),
    rw turn (omega (arith, most)),
    λ _. omega (arith, least),
  )

  pub round-Kept : (r : Record) (rs : List Record) → Kept (r ∷ rs) (round mult r rs)
  unfolding round
  round-Kept r rs = elim (Bool-cases (not r.is_user_turn || is_premium mult r)) [
    | inl e ↦ rw e (AreFair-refl (r ∷ rs), omega arith, λ x. x)
    | inr e ↦
        rw e (
          hand_over-Kept r rs (transfer mult rs) (ground arith) (ground arith) (transfer-Handed rs))
  ]

  pub rounds-AreFair : (n : ℕ) (rs : List Record) → AreFair rs (rounds mult n rs)
  unfolding rounds
  rounds-AreFair zero rs = AreFair-refl rs
  rounds-AreFair (suc n) [] = tt
  rounds-AreFair (suc n) (r ∷ rs) =
      let (fair, _, _) = round-Kept r rs in
      let (r', rs') = round mult r rs in
      AreFair-trans (r ∷ rs) (r' ∷ rs') (r' ∷ rounds mult n rs') fair
        (IsFair-refl r', rounds-AreFair n rs')

  one_left :
      (b : Bool) {m n : ℕ}
      → 1 ≤ (if b then 1 else 0) + m
      → (1 ≤ m → 1 ≤ n)
      → 1 ≤ (if b then 1 else 0) + n
  one_left true h k = omega arith
  one_left false h k = let more = k (omega (arith, h)) in omega (arith, more)

  pub rounds-count :
      (n : ℕ) (rs : List Record)
      → (count_turns (rounds mult n rs) ≤ count_turns rs)
        × (1 ≤ count_turns rs → 1 ≤ count_turns (rounds mult n rs))
  unfolding rounds
  rounds-count zero rs = (omega arith, λ x. x)
  rounds-count (suc n) [] = (omega arith, λ x. x)
  rounds-count (suc n) (r ∷ rs) =
      let (_, most, least) = round-Kept r rs in
      let (most', least') = rounds-count n (round mult r rs).1 in
      (omega (arith, most, most'), λ h. one_left _ (least h) least')

  -- Record by record, only the attribution changes: a turn on a premium model stays, a turn appears
  -- only on a model that takes turns. The turns do not grow in number, and where there was one, one is
  -- left.
  pub reattribute_fair :
      (rs : List Record)
      → let out = reattribute_user_turns mult rs in
        AreFair rs out
        × (count_turns out ≤ count_turns rs)
        × (1 ≤ count_turns rs → 1 ≤ count_turns out)
  unfolding reattribute_user_turns
  reattribute_fair rs =
      let (most, least) = rounds-count (length rs) rs in
      (rounds-AreFair (length rs) rs, most, least)
