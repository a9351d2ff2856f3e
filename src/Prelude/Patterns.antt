-- ===== src/Prelude/Patterns.antt =====
-- What the regular expressions of the program are made of: classes of bytes, literals, and runs.
use copilot_token_cost.Prelude.Tests.{leb, ◌==◌, nat_eq, if◌then◌else◌}
use copilot_token_cost.Prelude.Lists.{length, drop}
use copilot_token_cost.Prelude.Strings.{Bytes, bytes_eq, has_prefix}
use Prim.Native.Nat.{ℕ, suc}
use mathlib.Core.Bool.{Bool, true, false, ◌&&◌, ◌||◌}
use mathlib.Core.List.{List, [], ◌∷◌}
use mathlib.Core.Option.{Option, none, some}

abbrev pub is_lower : ℕ → Bool
is_lower c = leb b'a' c && leb c b'z'

abbrev pub is_digit : ℕ → Bool
is_digit c = leb b'0' c && leb c b'9'

abbrev pub is_lower_digit : ℕ → Bool
is_lower_digit c = is_lower c || is_digit c

-- `\w`
abbrev pub is_word : ℕ → Bool
is_word c = is_lower_digit c || (leb b'A' c && leb c b'Z') || c == b'_'

-- What is left behind `p`, where the text begins with it.
unfoldable pub strip_prefix : Bytes → Bytes → Option Bytes
strip_prefix p s = if has_prefix s p then some (drop (length p) s) else none

unfoldable pub skip_while : (ℕ → Bool) → Bytes → Bytes
skip_while p [] = []
skip_while p (c ∷ s) = let rest = skip_while p s in if p c then rest else c ∷ s

-- `[p]+`
unfoldable pub skip_some : (ℕ → Bool) → Bytes → Option Bytes
skip_some p [] = none
skip_some p (c ∷ s) = if p c then some (skip_while p s) else none

abbrev pub or_else {ℓ} : {A : Type ℓ} → Option A → Option A → Option A
or_else (some a) o = some a
or_else none o = o

infixl 5 ◌>>=◌
abbrev pub ◌>>=◌ {ℓ κ} : {A : Type ℓ} {B : Type κ} → Option A → (A → Option B) → Option B
none >>= f = none
some a >>= f = f a

unfoldable pub count_while : (ℕ → Bool) → Bytes → ℕ
count_while p [] = 0
count_while p (c ∷ s) = let n = count_while p s in if p c then suc n else 0

unfoldable pub matches : List (ℕ → Bool) → Bytes → Bool
matches [] [] = true
matches (p ∷ ps) (c ∷ s) = p c && matches ps s
matches _ _ = false

-- The leftmost place where `f` finds something.
unfoldable pub find_first {ℓ} : {A : Type ℓ} → (Bytes → Option A) → Bytes → Option A
find_first f [] = f []
find_first f (c ∷ s) = or_else (f (c ∷ s)) (find_first f s)

-- `\s`
abbrev pub is_blank : ℕ → Bool
is_blank c = c == 32 || c == 9 || c == 10 || c == 12 || c == 13

-- `[p]*`: what it matches.
unfoldable pub take_while : (ℕ → Bool) → Bytes → Bytes
take_while p [] = []
take_while p (c ∷ s) = let rest = c ∷ take_while p s in if p c then rest else []

-- `([^q]*)q`: what stands in front of the first `q`.
unfoldable pub up_to : ℕ → Bytes → Option Bytes
up_to q [] = none
up_to q (c ∷ s) = let rest = up_to q s >>= λ t. some (c ∷ t) in if c == q then some [] else rest

-- `([^q]+)q`
unfoldable pub up_to_some : ℕ → Bytes → Option Bytes
unfolding up_to
up_to_some q s = up_to q s >>= λ t. if t == [] then none else some t
