-- ===== src/Costing/Reattribute.antt =====
-- internal/costing/service.go: `ReattributeUserTurns`. The slice that the loops change in place is the
-- list that they return.
pub mod Keeps
pub mod Settled
use copilot_token_cost.Prelude.{
  ℕ, zero, suc, Bool, true, false, not, ◌||◌, Option, none, some, List, [], ◌∷◌, Bytes, length,
  if◌then◌else◌,
}
use copilot_token_cost.Prelude.Floats.{Float64}
use copilot_token_cost.Domain.{Record}
use copilot_token_cost.Costing.Normalize.{normalize_model}

abbrev pub prepend : Record → Option (List Record) → Option (List Record)
prepend r none = none
prepend r (some rs) = some (r ∷ rs)

abbrev pub hand_over : Record → List Record → Option (List Record) → Record × List Record
hand_over r rs none = (r, rs)
hand_over r rs (some rs') = (record r { is_user_turn = false }, rs')

module _ {ℓ} {W : Type ℓ} ⦃f : Float64 W⦄ (premium_multiplier : Bytes → Bytes → W) where
  unfoldable pub multiplier_of : Record → W
  multiplier_of r = premium_multiplier (normalize_model r.model) r.timestamp

  -- `premiumMultiplier(model, timestamp) != 0`
  unfoldable pub is_premium : Record → Bool
  unfolding multiplier_of
  is_premium r = not (f.eq (multiplier_of r) f.nought)

  -- `premiumMultiplier(nextModel, …) > 0`
  unfoldable pub takes_turn : Record → Bool
  unfolding multiplier_of
  takes_turn r = f.lt f.nought (multiplier_of r)

  -- The inner loop: the first record that takes the turn gets it; `none` where there is no such record.
  pub transfer : List Record → Option (List Record)
  unfolding takes_turn
  transfer [] = none
  transfer (r ∷ rs) =
      let later = prepend r (transfer rs) in
      if takes_turn r then some (record r { is_user_turn = true } ∷ rs) else later

  -- One round of the outer loop, at the record `r` before the records `rs`.
  pub round : Record → List Record → Record × List Record
  unfolding is_premium transfer
  round r rs = if not r.is_user_turn || is_premium r then (r, rs) else hand_over r rs (transfer rs)

  -- The rounds that are left; `range` fixes their number before the first.
  pub rounds : ℕ → List Record → List Record
  unfolding round
  rounds zero rs = rs
  rounds (suc n) [] = []
  rounds (suc n) (r ∷ rs) = let (r', rs') = round r rs in r' ∷ rounds n rs'

  pub reattribute_user_turns : List Record → List Record
  unfolding rounds
  reattribute_user_turns records = rounds (length records) records
