-- ===== src/Display.antt =====
-- internal/display/display.go: numbers with commas. A text is read byte by byte, as Go's runes of an
-- ASCII text are.
pub mod Commas
use copilot_token_cost.Prelude.{
  ℕ, zero, suc, ◌-◌, ◌%◌, Bool, true, false, ◌&&◌, ◌||◌, List, [], ◌∷◌, ◌++◌, Bytes, length, drop,
  ltb, leb, nat_beq, has_prefix, codes, if◌then◌else◌,
}

-- The text before its first dot, and from there on; `strings.Index` says where that is.
unfoldable pub before_dot : Bytes → Bytes
before_dot [] = []
before_dot (c ∷ s) = let rest = before_dot s in if nat_beq c b'.' then [] else c ∷ rest

unfoldable pub from_dot : Bytes → Bytes
from_dot [] = []
from_dot (c ∷ s) = let rest = from_dot s in if nat_beq c b'.' then c ∷ s else rest

-- The loop from the second byte on: before a byte with a multiple of three bytes from it to the end, a
-- comma.
unfoldable pub grouped : Bytes → Bytes
grouped [] = []
grouped (c ∷ s) =
    let rest = grouped s in if nat_beq (length (c ∷ s) % 3) 0 then b',' ∷ c ∷ rest else c ∷ rest

-- No comma stands before the first byte.
unfoldable pub with_commas : Bytes → Bytes
with_commas [] = []
with_commas (c ∷ s) = c ∷ grouped s

unfoldable pub add_commas : Bytes → Bytes
add_commas s =
    let int_part = before_dot s in
    let dec_part = from_dot s in
    if has_prefix int_part (codes "-")
    then codes "-" ++ (with_commas (drop 1 int_part) ++ dec_part)
    else with_commas int_part ++ dec_part
