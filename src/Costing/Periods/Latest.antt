-- ===== src/Costing/Periods/Latest.antt =====
-- Which period a timestamp falls in, for a price list that runs from the newest period to the oldest.
use copilot_token_cost.Prelude.{
  ◌≡◌, ◌≢◌, inl, inr, refl, ap, sym, subst, suc, true, false, some, List, [], ◌∷◌, Bytes, bytes_lt,
  bytes_beq, bytes_ge, bytes_lt_irrefl, bytes_lt_trans, bytes_eq, All, All-map, All-get, In,
  Bool-cases,
}
use copilot_token_cost.Costing.Periods.{PricingPeriod, in_force, get_period, date_of}

ge_refl : (s : Bytes) → bytes_ge s s ≡ true
ge_refl s = rw bytes_lt_irrefl

ge_of_lt : (s t : Bytes) → bytes_lt s t ≡ true → bytes_ge t s ≡ true
ge_of_lt s t h = elim (Bool-cases (bytes_lt t s)) [
  | inl back ↦ cc (bytes_lt_trans s t s h back, bytes_lt_irrefl s)
  | inr e ↦ rw e
]

module _ {ℓ} {W : Type ℓ} where
  -- From the newest to the oldest, as pricing.json lists them.
  abbrev pub NewestFirst : List (PricingPeriod W) → Type 0
  NewestFirst [] = Unit
  NewestFirst (p ∷ rest) =
      All (λ q. bytes_lt q.effective_from p.effective_from ≡ true) rest × NewestFirst rest

  -- If any period of the list has begun by the date, so has this one, and none that has begun later.
  abbrev pub IsNewestBegun : List (PricingPeriod W) → Bytes → PricingPeriod W → Type 0
  IsNewestBegun periods date p =
      All
        (λ q.
          bytes_ge date q.effective_from ≡ true
          → (bytes_ge date p.effective_from ≡ true)
            × (bytes_ge p.effective_from q.effective_from ≡ true))
        periods

  -- No period of the list begins earlier.
  abbrev pub IsOldest : List (PricingPeriod W) → PricingPeriod W → Type 0
  IsOldest periods p = All (λ q. bytes_ge q.effective_from p.effective_from ≡ true) periods

  module _ (p q : PricingPeriod W) (rest : List (PricingPeriod W)) (date : Bytes) where
    in_force_here : bytes_ge date p.effective_from ≡ true → in_force p (q ∷ rest) date ≡ p
    unfolding in_force
    in_force_here e = rw e

    in_force_later :
        bytes_ge date p.effective_from ≡ false → in_force p (q ∷ rest) date ≡ in_force q rest date
    unfolding in_force
    in_force_later e = rw e

  in_force_last : (p : PricingPeriod W) (date : Bytes) → in_force p [] date ≡ p
  unfolding in_force
  in_force_last p date = refl

  in_force-In :
      (p : PricingPeriod W) (rest : List (PricingPeriod W)) (date : Bytes)
      → In (in_force p rest date) (p ∷ rest)
  in_force-In p [] date = rw in_force_last (0, refl)
  in_force-In p (q ∷ rest) date = elim (Bool-cases (bytes_ge date p.effective_from)) [
    | inl e ↦ rw (in_force_here p q rest date e) (0, refl)
    | inr e ↦
        let later = in_force-In q rest date in
        rw (in_force_later p q rest date e) (suc later.0, later.1)
  ]

  in_force_begun :
      (p : PricingPeriod W) (rest : List (PricingPeriod W)) (date : Bytes)
      → NewestFirst (p ∷ rest)
      → IsNewestBegun (p ∷ rest) date (in_force p rest date)
  in_force_begun p [] date h = rw in_force_last ((λ g. (g, ge_refl _)), tt)
  in_force_begun p (q ∷ rest) date (hp, hs) =
      let Begun = λ (r : PricingPeriod W). IsNewestBegun (p ∷ q ∷ rest) date r in
      elim (Bool-cases (bytes_ge date p.effective_from)) [
        | inl e ↦ subst Begun (sym (in_force_here p q rest date e)) (
          (λ g. (e, ge_refl _)),
          All-map (λ r. bytes_lt r.effective_from p.effective_from ≡ true) _ (q ∷ rest)
              (λ r lt g. (e, ge_of_lt _ _ lt)) hp,
        )
        | inr e ↦
            subst Begun (sym (in_force_later p q rest date e))
              ((λ g. cc (g, e)), in_force_begun q rest date hs)
      ]

  in_force-IsOldest :
      (p : PricingPeriod W) (rest : List (PricingPeriod W)) (date : Bytes)
      → NewestFirst (p ∷ rest)
      → bytes_ge date (in_force p rest date).effective_from ≡ false
      → IsOldest (p ∷ rest) (in_force p rest date)
  in_force-IsOldest p [] date h g = rw in_force_last (ge_refl _, tt)
  in_force-IsOldest p (q ∷ rest) date (hp, hs) g =
      elim (Bool-cases (bytes_ge date p.effective_from)) [
        | inl e ↦
            cc (g, ap (λ r. bytes_ge date r.effective_from) (in_force_here p q rest date e), e)
        | inr e ↦
            let found = in_force-In q rest date in
            let g' : bytes_ge date (in_force q rest date).effective_from ≡ false =
              rw (in_force_later p q rest date e) at g in
            subst (λ (r : PricingPeriod W). IsOldest (p ∷ q ∷ rest) r)
              (sym (in_force_later p q rest date e))
              (
                ge_of_lt _ _ (All-get _ (q ∷ rest) found.0 hp found.1),
                in_force-IsOldest q rest date hs g',
              )
      ]

  -- For a price list from the newest to the oldest that is not empty, and a timestamp that is not empty,
  -- `GetPeriod` returns a period of the list; if any period has begun by the date, it is the one that
  -- began last of those; if none has, it is the oldest of the list.
  pub get_period-latest :
      (p : PricingPeriod W) (rest : List (PricingPeriod W)) (timestamp : Bytes)
      → NewestFirst (p ∷ rest)
      → timestamp ≢ []
      → (r : PricingPeriod W) × (get_period (p ∷ rest) timestamp ≡ some r)
        × In r (p ∷ rest)
        × IsNewestBegun (p ∷ rest) (date_of timestamp) r
        × (bytes_ge (date_of timestamp) r.effective_from ≡ false → IsOldest (p ∷ rest) r)
  unfolding get_period bytes_beq
  get_period-latest p rest [] h n = absurd (n refl)
  get_period-latest p rest (c ∷ s) h n = (
    in_force p rest (date_of (c ∷ s)),
    refl,
    in_force-In p rest _,
    in_force_begun p rest _ h,
    in_force-IsOldest p rest _ h,
  )
