-- ===== src/Parsing/Prompt.antt =====
-- internal/parsing/service.go: the text of a prompt in the lines of a log. What the parsers call of the Go
-- library is a `Decoder`, where `none` stands for an error.
use copilot_token_cost.Prelude.{
  ℕ, zero, suc, ◌+◌, ◌-◌, Bool, true, false, ◌||◌, Option, none, some, List, [], ◌∷◌, ◌++◌, Bytes,
  codes, length, take, drop, get_elem?, any, min, reverse, ◌==◌, nat_eq, if◌then◌else◌, bytes_eq,
  trim_space, contains,
}
use copilot_token_cost.Prelude.Patterns.{or_else, ◌>>=◌, skip_while}
use copilot_token_cost.Parsing.Expressions.{quoted, match_statement}
use copilot_token_cost.Parsing.Content.{Json, prompt_text_ptr}
use copilot_token_cost.Parsing.Payload.{extract_prompt_text_from_payload}

-- The fields of `assistantUsageEvent`; a token count is a Go `int`.
pub record UsageEvent : Type 0 where
  pub kind : Bytes
  pub model : Bytes
  pub initiator : Bytes
  pub input_tokens : ℕ
  pub output_tokens : ℕ
  pub cache_read_tokens : ℕ
  pub cache_write_tokens : ℕ
  pub session_id : Bytes

pub record Decoder : Type 0 where
  -- json.Unmarshal into an interface{} and into an `assistantUsageEvent`
  pub unmarshal : Bytes → Option Json
  pub unmarshal_event : Bytes → Option UsageEvent
  -- strconv.Unquote
  pub unquote : Bytes → Option Bytes
  -- filepath.Base
  pub base : Bytes → Bytes

-- `\"key\"`, as it stands inside a string of JSON.
abbrev pub escaped : Bytes → Bytes
escaped key = 92 ∷ b'"' ∷ (key ++ 92 ∷ b'"' ∷ [])

abbrev pub indicators : List Bytes
indicators =
    quoted (codes "user")
    ∷ escaped (codes "user")
    ∷ quoted (codes "messages")
    ∷ escaped (codes "messages")
    ∷ quoted (codes "prompt")
    ∷ quoted (codes "statement")
    ∷ escaped (codes "statement")
    ∷ []

unfoldable pub contains_prompt_indicator : Bytes → Bool
contains_prompt_indicator line = any (λ indicator. contains line indicator) indicators

-- strings.ReplaceAll(line, `\"`, `"`)
unfoldable pub unescape_quotes : Bytes → Bytes
unescape_quotes [] = []
unescape_quotes (c ∷ []) = c ∷ []
unescape_quotes (c ∷ d ∷ s) =
    let replaced = b'"' ∷ unescape_quotes s in
    let passed = c ∷ unescape_quotes (d ∷ s) in
    if c == 92 then (if d == b'"' then replaced else passed) else passed

abbrev is_not_open : ℕ → Bool
is_not_open c = if c == b'{' then false else true

abbrev is_not_close : ℕ → Bool
is_not_close c = if c == b'}' then false else true

-- `trimmed[start:end+1]`, from the first `{` to the last `}`, where that is behind it.
unfoldable pub braced : Bytes → Option Bytes
braced trimmed =
    let from_open = skip_while is_not_open trimmed in
    let to_close = reverse (skip_while is_not_close (reverse from_open)) in
    if to_close == [] then none else some to_close

module _ (go : Decoder) where
  abbrev pub prompt_of_text : Bytes → Option Bytes
  prompt_of_text candidate =
      go.unmarshal candidate >>= extract_prompt_text_from_payload go.unmarshal

  unfoldable pub extract_prompt_text_from_json_line : Bytes → Option Bytes
  extract_prompt_text_from_json_line line =
      or_else (prompt_of_text (trim_space line)) (braced (trim_space line) >>= prompt_of_text)

  unfoldable pub extract_prompt_text_from_line : Bytes → Option Bytes
  extract_prompt_text_from_line line =
      let unescaped = extract_prompt_text_from_json_line (unescape_quotes line) in
      if contains_prompt_indicator line
      then or_else (extract_prompt_text_from_json_line line)
          (if contains line (92 ∷ b'"' ∷ []) then unescaped else none)
      else none

  unfoldable pub extract_prompt_text_from_statement_line : Bytes → Option Bytes
  extract_prompt_text_from_statement_line line =
      match_statement line >>= go.unquote >>= prompt_text_ptr

  abbrev pub names_problem : Bytes → Bool
  names_problem line =
      contains line (quoted (codes "problem")) || contains line (escaped (codes "problem"))

  -- A line of the log by its index, which the callers keep in range.
  unfoldable pub extract_prompt_text_from_problem_statement_line : List Bytes → ℕ → Option Bytes
  extract_prompt_text_from_problem_statement_line lines index =
      get_elem? lines index >>= extract_prompt_text_from_statement_line >>= λ prompt.
      if any names_problem (drop (index - 6) (take index lines)) then some prompt else none

  -- What the two ways of reading the line at an index give.
  unfoldable pub prompt_at : List Bytes → ℕ → Option Bytes
  prompt_at lines i =
      or_else (get_elem? lines i >>= extract_prompt_text_from_line)
        (extract_prompt_text_from_problem_statement_line lines i)

  -- The first of the `n + 1` lines from `i` backwards, and of the `n` lines from `i` onwards.
  unfoldable pub search_back : List Bytes → ℕ → ℕ → Option Bytes
  search_back lines zero i = prompt_at lines i
  search_back lines (suc n) i = or_else (prompt_at lines i) (search_back lines n (i - 1))

  unfoldable pub search_on : List Bytes → ℕ → ℕ → Option Bytes
  search_on lines zero i = none
  search_on lines (suc n) i = or_else (prompt_at lines i) (search_on lines n (i + 1))

  unfoldable pub extract_prompt_text_near_line : List Bytes → ℕ → Option Bytes
  extract_prompt_text_near_line lines center =
      or_else (search_back lines (min 20 center) center)
        (search_on lines (min (center + 6) (length lines) - (center + 1)) (center + 1))
