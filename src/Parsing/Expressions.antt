-- ===== src/Parsing/Expressions.antt =====
-- internal/parsing/service.go: the regular expressions of the parsers, each as the matcher that it
-- describes, and `strconv.Atoi` on a run of digits.
use copilot_token_cost.Prelude.{
  ℕ, ◌+◌, ◌-◌, ◌*◌, Bool, false, not, ◌&&◌, ◌||◌, Option, none, some, List, [], ◌∷◌, ◌++◌, Bytes,
  codes, length, take, drop, get_elem?, leb, ◌==◌, nat_eq, bytes_eq, if◌then◌else◌, min, every,
}
use copilot_token_cost.Prelude.Int64.{sign_bit}
use copilot_token_cost.Prelude.Patterns.{
  is_digit, is_word, is_blank, strip_prefix, skip_while, skip_some, take_while, up_to, up_to_some,
  or_else, ◌>>=◌, matches, find_first,
}

-- `"key"`
abbrev pub quoted : Bytes → Bytes
quoted key = b'"' ∷ (key ++ b'"' ∷ [])

-- What is left behind `"key"\s*:\s*` at the head of the text.
unfoldable pub after_key : Bytes → Bytes → Option Bytes
after_key key s = do
  rest ← strip_prefix (quoted key) s
  value ← strip_prefix (codes ":") (skip_while is_blank rest)
  some (skip_while is_blank value)

-- `(\d+)` at the head of the text.
abbrev pub digits_here : Bytes → Option Bytes
digits_here s = let run = take_while is_digit s in if run == [] then none else some run

-- `"key"\s*:\s*(\d+)`
unfoldable pub match_number : Bytes → Bytes → Option Bytes
match_number key = find_first (λ s. after_key key s >>= digits_here)

-- The value of digits, behind those that have given `n`.
unfoldable pub value_from : ℕ → Bytes → ℕ
value_from n [] = n
value_from n (c ∷ s) = value_from (n * 10 + (c - b'0')) s

-- strconv.Atoi, with its error ignored: out of range is the largest `int`.
unfoldable pub atoi : Bytes → ℕ
atoi s = min (value_from 0 s) (sign_bit - 1)

-- reModelJSON: `"model"\s*:\s*"([^"]+)"`
unfoldable pub match_model : Bytes → Option Bytes
match_model =
    find_first
      (λ s. after_key (codes "model") s >>= λ v. strip_prefix (b'"' ∷ []) v >>= up_to_some b'"')

-- reInitiator
unfoldable pub match_initiator : Bytes → Option Bytes
match_initiator =
    find_first
      (λ s. strip_prefix (codes "PremiumRequestProcessor: Setting X-Initiator to '") s >>= up_to 39)

-- reInitiatorTelemetry: `^\s*"initiator"\s*:\s*"([^"]+)"`
unfoldable pub match_initiator_telemetry : Bytes → Option Bytes
match_initiator_telemetry line = after_key (codes "initiator") (skip_while is_blank line) >>= λ v.
    strip_prefix (b'"' ∷ []) v >>= up_to_some b'"'

abbrev is_colon : ℕ → Bool
is_colon c = c == b':'

abbrev is_hyphen : ℕ → Bool
is_hyphen c = c == b'-'

abbrev is_t : ℕ → Bool
is_t c = c == b'T'

-- `\d{4}-\d{2}-\d{2}T\d{2}:\d{2}:\d{2}`
abbrev pub time_pattern : List (ℕ → Bool)
time_pattern =
    is_digit ∷ is_digit ∷ is_digit ∷ is_digit ∷ is_hyphen ∷ is_digit ∷ is_digit ∷ is_hyphen
    ∷ is_digit ∷ is_digit ∷ is_t ∷ is_digit ∷ is_digit ∷ is_colon ∷ is_digit ∷ is_digit ∷ is_colon
    ∷ is_digit ∷ is_digit ∷ []

-- `Flushed \d+ events to session`
unfoldable pub after_flushed : Bytes → Option Bytes
after_flushed s = do
  count ← strip_prefix (codes "Flushed ") s
  events ← skip_some is_digit count
  strip_prefix (codes " events to session") events

-- `(?:Workspace initialized|Created ACP session|Flushed \d+ events to session)`
unfoldable pub after_session_mark : Bytes → Option Bytes
after_session_mark s =
    or_else (strip_prefix (codes "Workspace initialized") s)
      (or_else (strip_prefix (codes "Created ACP session") s) (after_flushed s))

-- `[0-9a-f-]`
abbrev pub is_id_char : ℕ → Bool
is_id_char c = is_digit c || (leb b'a' c && leb c b'f') || is_hyphen c

abbrev pub is_word_at : Bytes → ℕ → Bool
is_word_at s i = elim (get_elem? s i) [ none ↦ false | some c ↦ is_word c ]

-- `\b`
abbrev pub is_boundary : Bool → Bool → Bool
is_boundary before behind = if before then not behind else behind

-- `([0-9a-f-]{36})\b`
unfoldable pub id_here : Bytes → Option Bytes
id_here s =
    if leb 36 (length s)
      && every is_id_char (take 36 s)
      && is_boundary (is_word_at s 35) (is_word_at s 36)
    then some (take 36 s)
    else none

-- `[: ]+` in front of the identifier
unfoldable pub session_here : Bytes → Option Bytes
session_here s =
    after_session_mark s >>= λ rest. skip_some (λ c. is_colon c || c == b' ') rest >>= id_here

-- `[^"]*` is greedy: the last place on this side of a quote where the rest matches.
unfoldable pub last_session : Bytes → Option Bytes
last_session [] = none
last_session (c ∷ s) =
    let later = last_session s in or_else (if c == b'"' then none else later) (session_here (c ∷ s))

-- reSession
unfoldable pub match_session : Bytes → Option Bytes
match_session line =
    if leb 19 (length line) && matches time_pattern (take 19 line)
    then last_session (drop 19 line)
    else none

-- `(?:\\.|[^"\\])*"`: what it matches, and what is behind it.
unfoldable pub literal_tail : Bytes → Option (Bytes × Bytes)
literal_tail [] = none
literal_tail (c ∷ []) = if c == b'"' then some (c ∷ [], []) else none
literal_tail (c ∷ d ∷ s) =
    let plain = literal_tail (d ∷ s) >>= λ (t, rest). some (c ∷ t, rest) in
    let escaped = literal_tail s >>= λ (t, rest). some (c ∷ d ∷ t, rest) in
    if c == b'"' then some (c ∷ [], d ∷ s) else if c == 92 then escaped else plain

abbrev pub without_comma : Bytes → Bytes
without_comma [] = []
without_comma (c ∷ s) = if c == b',' then s else c ∷ s

-- `\s*,?\s*$`
unfoldable pub ends_value : Bytes → Bool
ends_value s = skip_while is_blank (without_comma (skip_while is_blank s)) == []

-- reStatementLine: the string literal with its quotes.
unfoldable pub match_statement : Bytes → Option Bytes
match_statement = find_first (λ s. do
  value ← after_key (codes "statement") s
  body ← strip_prefix (b'"' ∷ []) value
  (t, rest) ← literal_tail body
  if ends_value rest then some (b'"' ∷ t) else none)
