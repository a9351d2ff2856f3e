-- ===== src/Prelude/Floats.antt =====
-- All that the program does with a `float64`: the operations of the machine, as an interface.
use mathlib.Core.Bool.{Bool}
use Prim.Native.Nat.{ℕ, ◌<◌, ◌≤◌}
use copilot_token_cost.Prelude.Int64.{sign_bit}

pub record Float64 {ℓ} (W : Type ℓ) : Type ℓ where
  pub nought : W
  pub one : W
  pub add : W → W → W
  pub mul : W → W → W
  pub div : W → W → W
  -- `float64(n)` of an `int`
  pub of_int : ℕ → W
  -- `1e6`
  pub million : W
  -- `a < b` and `a == b`
  pub lt : W → W → Bool
  pub eq : W → W → Bool

-- What IEEE 754 promises of the finite numbers that a price list and a token count give: rounding is
-- monotone, and nothing is a NaN. `IsFinite` leaves out the NaNs and the infinities; `AtMost` is `<=`.
pub record IsMonotone {ℓ} (W : Type ℓ) ⦃f : Float64 W⦄ : Type (ℓ ⊔ 1) where
  pub IsFinite : W → Type 0
  pub AtMost : W → W → Type 0
  pub nought_refl : AtMost f.nought f.nought
  pub of_int_finite : (n : ℕ) → IsFinite (f.div (f.of_int n) f.million)
  pub of_int_nonneg : (n : ℕ) → n < sign_bit → AtMost f.nought (f.div (f.of_int n) f.million)
  pub of_int_mono :
      (m n : ℕ)
      → m ≤ n
      → n < sign_bit
      → AtMost (f.div (f.of_int m) f.million) (f.div (f.of_int n) f.million)
  pub mul_nonneg :
      (x p : W)
      → IsFinite x
      → IsFinite p
      → AtMost f.nought x
      → AtMost f.nought p
      → AtMost f.nought (f.mul x p)
  pub mul_mono :
      (x y p : W)
      → IsFinite x
      → IsFinite y
      → IsFinite p
      → AtMost x y
      → AtMost f.nought p
      → AtMost (f.mul x p) (f.mul y p)
  -- a sum of numbers that are not negative is never a NaN
  pub add_nonneg : (x y : W) → AtMost f.nought x → AtMost f.nought y → AtMost f.nought (f.add x y)
  pub add_mono :
      (x y u v : W)
      → AtMost f.nought x
      → AtMost f.nought u
      → AtMost x y
      → AtMost u v
      → AtMost (f.add x u) (f.add y v)
