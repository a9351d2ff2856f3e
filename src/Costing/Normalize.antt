-- ===== src/Costing/Normalize.antt =====
-- internal/costing/service.go: `NormalizeModel`. Each of its three regular expressions is the matcher
-- that it describes; none of them needs to go back over a choice but the optional `-ib`.
pub mod Lemmas
pub mod RoundTrip
use mathlib.Core.Option
use copilot_token_cost.Prelude.{
  ℕ, zero, suc, ◌+◌, ◌-◌, ◌≡◌, refl, Bool, true, false, ◌&&◌, ◌||◌, Option, none, some, List, [],
  ◌∷◌, Bytes, codes, length, take, drop, leb, ◌==◌, nat_eq, if◌then◌else◌, has_prefix,
}
use copilot_token_cost.Prelude.Patterns.{
  is_lower, is_digit, is_lower_digit, is_word, strip_prefix, skip_while, skip_some, or_else, ◌>>=◌,
  count_while, matches,
}

-- The text behind a match of `^capi-[a-z]+-ptuc-[a-z0-9]+(?:-ib)?-`.
unfoldable pub after_route : Bytes → Option Bytes
unfolding strip_prefix skip_some skip_while has_prefix
after_route s = do
  region ← strip_prefix (codes "capi-") s
  dash ← skip_some is_lower region
  pool ← strip_prefix (codes "-ptuc-") dash
  tail ← skip_some is_lower_digit pool
  or_else (strip_prefix (codes "-ib-") tail) (strip_prefix (codes "-") tail)

unfoldable pub strip_route : Bytes → Bytes
strip_route s = Option.get_or (after_route s) s

abbrev pub effort_mark : Bytes
effort_mark = codes ":defaultReasoningEffort="

-- The length of a match of `:defaultReasoningEffort=\w+` at the head of the text, or 0.
unfoldable pub effort_length : Bytes → ℕ
unfolding count_while has_prefix
effort_length s =
    let n = count_while is_word (drop (length effort_mark) s) in
    if has_prefix s effort_mark then (if n == 0 then 0 else length effort_mark + n) else 0

-- `ReplaceAllString(name, "")` for that expression: the number counts the bytes of the last match
-- that are still to be dropped.
unfoldable pub strip_effort : ℕ → Bytes → Bytes
unfolding effort_length
strip_effort k [] = []
strip_effort (suc k) (c ∷ s) = strip_effort k s
strip_effort zero (c ∷ s) =
    let n = effort_length (c ∷ s) in
    let dropped = strip_effort (n - 1) s in
    let kept = c ∷ strip_effort 0 s in if n == 0 then kept else dropped

abbrev is_dash : ℕ → Bool
is_dash c = c == b'-'

-- `-\d{4}-\d{2}-\d{2}`
abbrev pub date_pattern : List (ℕ → Bool)
date_pattern =
    is_dash ∷ is_digit ∷ is_digit ∷ is_digit ∷ is_digit ∷ is_dash ∷ is_digit ∷ is_digit ∷ is_dash
    ∷ is_digit ∷ is_digit ∷ []

unfoldable pub ends_in_date : Bytes → Bool
unfolding matches
ends_in_date s = matches date_pattern (drop (length s - 11) s)

unfoldable pub strip_date : Bytes → Bytes
unfolding ends_in_date
strip_date s = if ends_in_date s then take (length s - 11) s else s

unfoldable pub strip_gateway : Bytes → Bytes → Bytes
strip_gateway p s = if has_prefix s p then drop (length p) s else s

unfoldable pub normalize_model : Bytes → Bytes
normalize_model name =
    let direct = strip_gateway (codes "capi:") (strip_gateway (codes "sweagent-capi:") name) in
    strip_date (strip_effort 0 (strip_route direct))
