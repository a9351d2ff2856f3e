-- ===== src/Parsing/Payload.antt =====
-- internal/parsing/service.go: `extractPromptTextFromPayload`, which decodes strings that hold JSON and
-- goes on in what they give. `unmarshal` is json.Unmarshal into an interface{}, with `none` for its error.
pub mod Nested
use copilot_token_cost.Prelude.{
  ℕ, zero, suc, ◌+◌, Option, none, some, [], ◌∷◌, Bytes, max, ltb, ◌==◌, bytes_eq, if◌then◌else◌,
  trim_space,
}
use copilot_token_cost.Prelude.Patterns.{◌>>=◌}
use copilot_token_cost.Parsing.Content.{
  Json, null, boolean, number, string, array, object, Items, nil, cons, Fields, end, field,
  prompt_of_payload, looks_nested,
}

-- The number of ASCII bytes.
unfoldable pub ascii_count : Bytes → ℕ
ascii_count [] = 0
ascii_count (c ∷ s) = (if ltb c 128 then 1 else 0) + ascii_count s

-- The most ASCII bytes that a string of the value has.
unfoldable mutual
  pub weight : Json → ℕ
  weight (string s) = ascii_count s
  weight (array v) = items_weight v
  weight (object v) = fields_weight v
  weight _ = 0

  pub items_weight : Items → ℕ
  items_weight nil = 0
  items_weight (cons j js) = max (weight j) (items_weight js)

  pub fields_weight : Fields → ℕ
  fields_weight end = 0
  fields_weight (field k j fs) = max (weight j) (fields_weight fs)

module _ (unmarshal : Bytes → Option Json) where
  -- The case of a string, where `extract` is the call on what it holds.
  abbrev pub prompt_in_string : (Json → Option Bytes) → Bytes → Option Bytes
  prompt_in_string extract s =
      let trimmed = trim_space s in
      if trimmed == []
      then none
      else if looks_nested trimmed
      then unmarshal trimmed >>= extract
      else none

  -- With at most `n` strings inside each other.
  unfoldable pub extract_within : ℕ → Json → Option Bytes
  extract_within zero payload = prompt_of_payload (λ s. none) payload
  extract_within (suc n) payload = prompt_of_payload (prompt_in_string (extract_within n)) payload

  unfoldable pub extract_prompt_text_from_payload : Json → Option Bytes
  extract_prompt_text_from_payload payload = extract_within (suc (weight payload)) payload
