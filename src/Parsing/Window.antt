-- ===== src/Parsing/Window.antt =====
-- internal/parsing: what both parsers do with the lines of a log: the time at the head of a line, and the
-- range of times that is asked for.
pub mod Loop
use copilot_token_cost.Prelude.{
  ℕ, suc, List, ◌∷◌, Bool, true, false, not, ◌&&◌, ◌||◌, Option, none, some, [], ◌∷◌, Bytes, length,
  take, get_elem?, leb, ◌==◌, nat_eq, bytes_eq, if◌then◌else◌, bytes_lt, bytes_ge, ◌≡◌, ◌⊎◌, inl,
  inr, refl, arith,
}
use copilot_token_cost.Domain.{Record}
use copilot_token_cost.Parsing.Prompt.{Decoder}

-- The arguments of a parser. An empty bound is none.
pub record Log : Type 0 where
  pub go : Decoder
  pub log_path : Bytes
  pub min_timestamp : Bytes
  pub max_timestamp : Bytes

-- `line[i] == c`
unfoldable pub has_at : Bytes → ℕ → ℕ → Bool
has_at line i c = elim (get_elem? line i) [ none ↦ false | some d ↦ d == c ]

unfoldable pub has_timestamp : Bytes → Bool
has_timestamp line =
    leb 19 (length line)
    && has_at line 4 b'-'
    && has_at line 7 b'-'
    && has_at line 10 b'T'
    && has_at line 13 b':'
    && has_at line 16 b':'

unfoldable pub read_timestamp : Bytes → Bytes → Bytes
read_timestamp line last = if has_timestamp line then take 19 line else last

abbrev pub is_set : Bytes → Bool
is_set s = not (s == [])

unfoldable pub out_of_range : Log → Bytes → Bool
out_of_range log timestamp =
    is_set timestamp
    && ((is_set log.min_timestamp && bytes_lt timestamp log.min_timestamp)
        || (is_set log.max_timestamp && bytes_ge timestamp log.max_timestamp))

abbrev pub append_some {ℓ} : {A : Type ℓ} → Option A → List A → List A
append_some none rest = rest
append_some (some a) rest = a ∷ rest

module _ {ℓ} {S : Type ℓ} (step : ℕ → Bytes → S → S × Option Record) where
  -- The loop over the lines from index `i` on, where `step` is its body.
  unfoldable pub run_lines : ℕ → List Bytes → S → List Record
  run_lines i [] s = []
  run_lines i (line ∷ ls) s =
      let (next, out) = step i line s in append_some out (run_lines (suc i) ls next)
