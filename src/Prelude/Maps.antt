-- ===== src/Prelude/Maps.antt =====
-- Go maps as association lists, in some order of their keys; a program that ranges over a map goes
-- through this list.
use mathlib.Core.Path.{◌≡◌, refl}
use mathlib.Core.Bool.{Bool, true, false}
use mathlib.Core.Logic.{inl, inr}
use mathlib.Core.List.{List, [], ◌∷◌, map}
use mathlib.Core.Option.{Option, none, some}
use native.Mathlib.Omega.{arith}
use copilot_token_cost.Prelude.Tests.{if◌then◌else◌, Eq, ◌==◌, eq_iff, Bool-cases}
use copilot_token_cost.Prelude.Lists.{any}

abbrev pub Map {ℓ κ} : Type ℓ → Type κ → Type (ℓ ⊔ κ)
Map K V = List (K × V)

module _ {ℓ κ} {K : Type ℓ} {V : Type κ} ⦃e : Eq K⦄ where
  -- `v, ok := m[k]`.
  unfoldable pub lookup : K → Map K V → Option V
  lookup k [] = none
  lookup k ((j, v) ∷ m) = if j == k then some v else lookup k m

  -- `m[k] = v`.
  unfoldable pub insert : K → V → Map K V → Map K V
  insert k v [] = (k, v) ∷ []
  insert k v ((j, w) ∷ m) = if j == k then (j, v) ∷ m else (j, w) ∷ insert k v m

  -- `delete(m, k)`.
  unfoldable pub delete : K → Map K V → Map K V
  delete k [] = []
  delete k ((j, w) ∷ m) = let rest = delete k m in if j == k then rest else (j, w) ∷ rest

  pub lookup-insert :
      (key asked : K) (v : V) (m : Map K V)
      → lookup asked (insert key v m) ≡ (if key == asked then some v else lookup asked m)
  unfolding lookup insert
  lookup-insert key asked v [] = refl
  lookup-insert key asked v ((held, w) ∷ m) =
      let later = lookup-insert key asked v m in
      ground (arith, later, eq_iff held key, eq_iff held asked, eq_iff key asked)

  pub lookup-delete :
      (k j : K) (m : Map K V) → lookup j (delete k m) ≡ (if k == j then none else lookup j m)
  unfolding lookup delete
  lookup-delete k j [] = ground arith
  lookup-delete k j ((i, w) ∷ m) =
      ground (arith, eq_iff k j, eq_iff i k, eq_iff i j, lookup-delete k j m)

abbrev pub is_some {ℓ} : {A : Type ℓ} → Option A → Bool
is_some none = false
is_some (some a) = true

abbrev pub keys {ℓ κ} : {K : Type ℓ} {V : Type κ} → Map K V → List K
keys m = map (λ p. p.0) m

module _ {ℓ} {K : Type ℓ} ⦃e : Eq K⦄ where
  -- A key is in the list.
  abbrev pub is_in : K → List K → Bool
  is_in key ks = any (λ k. k == key) ks

module _ {ℓ κ} {K : Type ℓ} {V : Type κ} ⦃e : Eq K⦄ where
  pub is_in-keys : (key : K) (m : Map K V) → is_in key (keys m) ≡ is_some (lookup key m)
  unfolding lookup
  is_in-keys key [] = refl
  is_in-keys key ((j, v) ∷ m) = elim (Bool-cases (j == key)) [
    | inl k ↦ rw k
    | inr k ↦ rw k (is_in-keys key m)
  ]
