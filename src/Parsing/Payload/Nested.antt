-- ===== src/Parsing/Payload/Nested.antt =====
-- The fuel of the nested strings is enough: the function satisfies the equation of the source.
use copilot_token_cost.Prelude.{
  ℕ, zero, suc, ◌+◌, ◌≤◌, ◌<◌, ◌≡◌, refl, ap, inl, inr, Option-cases, Option, some, [], ◌∷◌, ◌++◌,
  Bytes, bytes_eq, trim_space, trim_left, reverse, arith,
}
use mathlib.Core.List.{reverse-cons}
use copilot_token_cost.Prelude.Patterns.{or_else}
use copilot_token_cost.Parsing.Content.{
  Json, null, boolean, number, string, array, object, Items, nil, cons, Fields, end, field,
  prompt_of_payload, prompt_of_children, prompt_of_items, prompt_of_fields,
}
use copilot_token_cost.Parsing.Payload.{
  ascii_count, weight, items_weight, fields_weight, prompt_in_string, extract_within,
  extract_prompt_text_from_payload,
}

-- What encoding/json does: the ASCII bytes of a string that it gives stand in the text, between quotes.
abbrev pub IsShrinking : (Bytes → Option Json) → Type 0
IsShrinking unmarshal =
    (s : Bytes) (payload : Json) → unmarshal s ≡ some payload → weight payload < ascii_count s

ascii_count-append : (s t : Bytes) → ascii_count (s ++ t) ≡ ascii_count s + ascii_count t
unfolding ascii_count
ascii_count-append [] t = omega arith
ascii_count-append (c ∷ s) t = omega (arith, ascii_count-append s t)

ascii_count-reverse : (s : Bytes) → ascii_count (reverse s) ≡ ascii_count s
unfolding ascii_count
ascii_count-reverse [] = refl
ascii_count-reverse (c ∷ s) =
    rw (reverse-cons, ascii_count-append (reverse s) (c ∷ []))
      (omega (arith, ascii_count-reverse s))

ascii_count-trim_left : (s : Bytes) → ascii_count (trim_left s) ≤ ascii_count s
unfolding ascii_count trim_left
ascii_count-trim_left [] = omega arith
ascii_count-trim_left (c ∷ s) = ground (arith, ascii_count-trim_left s)

ascii_count-trim_space : (s : Bytes) → ascii_count (trim_space s) ≤ ascii_count s
unfolding trim_space
ascii_count-trim_space s = omega (
  arith,
  ascii_count-reverse (trim_left (reverse (trim_left s))),
  ascii_count-trim_left (reverse (trim_left s)),
  ascii_count-reverse (trim_left s),
  ascii_count-trim_left s,
)

-- Two functions that agree on the strings of a payload give the same prompt.
module _ (n : ℕ) (f g : Bytes → Option Bytes)
    (same : (s : Bytes) → ascii_count s ≤ n → f s ≡ g s) where
  mutual
    unfolding prompt_of_payload weight

    payload_same : (j : Json) → weight j ≤ n → prompt_of_payload f j ≡ prompt_of_payload g j
    payload_same null h = refl
    payload_same (boolean b) h = refl
    payload_same (number b) h = refl
    payload_same (string s) h = same s h
    payload_same (array v) h = items_same v h
    payload_same (object v) h = ap (or_else (prompt_of_fields v)) (children_same v h)

    children_same :
        (v : Fields) → fields_weight v ≤ n → prompt_of_children f v ≡ prompt_of_children g v
    children_same end h = refl
    children_same (field k j fs) h =
        rw (payload_same j (omega arith), children_same fs (omega arith))

    items_same : (v : Items) → items_weight v ≤ n → prompt_of_items f v ≡ prompt_of_items g v
    items_same nil h = refl
    items_same (cons j js) h = rw (payload_same j (omega arith), items_same js (omega arith))

module _ (unmarshal : Bytes → Option Json) (shrinks : IsShrinking unmarshal) where
  -- A string is searched alike by functions that agree on payloads of less weight.
  string_same :
      (n : ℕ) (f g : Json → Option Bytes)
      → ((j : Json) → weight j < n → f j ≡ g j)
      → (s : Bytes) → ascii_count s ≤ n
      → prompt_in_string unmarshal f s ≡ prompt_in_string unmarshal g s
  string_same n f g same s h = elim (Option-cases (unmarshal (trim_space s))) [
    | inl e ↦ rw e
    | inr (payload, e) ↦
        let shorter = shrinks (trim_space s) payload e in
        rw (e, same payload (omega (arith, ascii_count-trim_space s, shorter)))
  ]

  -- Fuel above the weight does not change what is found.
  enough_fuel :
      (n m : ℕ) (j : Json)
      → weight j < n
      → weight j < m
      → extract_within unmarshal n j ≡ extract_within unmarshal m j
  unfolding extract_within
  enough_fuel zero m j h k = ground arith
  enough_fuel (suc n) zero j h k = ground arith
  enough_fuel (suc n) (suc m) j h k =
      payload_same (weight j) (prompt_in_string unmarshal (extract_within unmarshal n))
        (prompt_in_string unmarshal (extract_within unmarshal m))
        (string_same (weight j) (extract_within unmarshal n) (extract_within unmarshal m)
          (λ p l. enough_fuel n m p (omega arith) (omega arith)))
        j (omega arith)

  -- Under the hypothesis on the decoder, the search for a prompt satisfies the equation by which the source
  -- defines it, however deep JSON stands inside strings of JSON: the prompt of a payload is what its own
  -- body gives, where a string that looks like JSON is decoded and searched in the same way.
  pub extract_prompt_lem :
      (payload : Json)
      → extract_prompt_text_from_payload unmarshal payload
        ≡ prompt_of_payload
            (prompt_in_string unmarshal (extract_prompt_text_from_payload unmarshal))
            payload
  unfolding extract_prompt_text_from_payload extract_within
  extract_prompt_lem payload =
      payload_same (weight payload)
        (prompt_in_string unmarshal (extract_within unmarshal (weight payload)))
        (prompt_in_string unmarshal (extract_prompt_text_from_payload unmarshal))
        (string_same (weight payload) (extract_within unmarshal (weight payload))
          (extract_prompt_text_from_payload unmarshal)
          (λ p l. enough_fuel (weight payload) (suc (weight p)) p l (omega arith)))
        payload (omega arith)
