-- ===== src/Prelude/Distinct.antt =====
-- Maps that have a key once.
use mathlib.Core.Path.{◌≡◌, refl, ◌∙◌}
use mathlib.Core.Bool.{false}
use mathlib.Core.Logic.{inl, inr}
use mathlib.Core.List.{[], ◌∷◌}
use mathlib.Core.Option.{none}
use native.Mathlib.Omega.{arith}
use copilot_token_cost.Prelude.Tests.{Eq, ◌==◌, eq_iff, Bool-cases}
use copilot_token_cost.Prelude.Maps.{Map, lookup, insert, lookup-insert}

module _ {ℓ κ} {K : Type κ} {V : Type ℓ} ⦃eq : Eq K⦄ where
  abbrev pub IsDistinct : Map K V → Type ℓ
  IsDistinct [] = Unit
  IsDistinct ((k, v) ∷ m) = (lookup k m ≡ none) × IsDistinct m

  pub insert-IsDistinct : (k : K) (v : V) (m : Map K V) → IsDistinct m → IsDistinct (insert k v m)
  unfolding insert lookup
  insert-IsDistinct k v [] h = (refl, tt)
  insert-IsDistinct k v ((j, w) ∷ m) (h, hs) = elim (Bool-cases (j == k)) [
    | inl e ↦ rw e (h, hs)
    | inr e ↦
        let differs_from : (k == j) ≡ false = ground (arith, eq_iff j k, eq_iff k j, e) in
        rw e (lookup-insert k j v m ∙ rw differs_from h, insert-IsDistinct k v m hs)
  ]
