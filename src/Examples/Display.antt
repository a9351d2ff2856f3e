-- ===== src/Examples/Display.antt =====
-- The commas at a number.
use copilot_token_cost.Prelude.{◌≡◌, refl, Bytes, codes, has_prefix}
use copilot_token_cost.Display.{add_commas, before_dot, from_dot, with_commas, grouped}

abbrev a_number : Bytes
a_number = codes "-1234567.50"

commas_of_millions : add_commas a_number ≡ codes "-1,234,567.50"
unfolding add_commas before_dot from_dot with_commas grouped has_prefix
commas_of_millions = refl
