-- ===== src/Parsing/Content.antt =====
-- internal/parsing/service.go: the text of a prompt in a decoded JSON value. An object is its fields, with
-- distinct keys, in the order in which a range over the map passes them.
use copilot_token_cost.Prelude.{
  Bool, false, ◌&&◌, ◌||◌, Option, none, some, List, [], ◌∷◌, Bytes, codes, length, any, ◌==◌,
  nat_eq, bytes_eq, if◌then◌else◌, trim_space, to_lower, equal_fold, has_prefix, has_suffix, join,
}
use copilot_token_cost.Prelude.Patterns.{or_else}

mutual
  pub data Json : Type 0 where
    null : Json
    boolean : Bool → Json
    number : Bytes → Json
    string : Bytes → Json
    array : Items → Json
    object : Fields → Json

  pub data Items : Type 0 where
    nil : Items
    cons : Json → Items → Items

  pub data Fields : Type 0 where
    end : Fields
    field : Bytes → Json → Fields → Fields

-- `v[key]`: a missing key gives nil, as null does.
unfoldable pub value_at : Bytes → Fields → Json
value_at key end = null
value_at key (field k v fs) = if k == key then v else value_at key fs

unfoldable pub is_user_initiator : Bytes → Bool
is_user_initiator initiator = equal_fold (trim_space initiator) (codes "user")

unfoldable pub prompt_text_ptr : Bytes → Option Bytes
prompt_text_ptr value =
    let trimmed = trim_space value in if trimmed == [] then none else some trimmed

abbrev pub one_of : List Bytes → Bytes → Bool
one_of names s = any (λ name. name == s) names

unfoldable pub is_user_label : Bytes → Bool
is_user_label label =
    one_of (codes "user" ∷ codes "human" ∷ codes "end-user" ∷ codes "end_user" ∷ [])
      (to_lower (trim_space label))

abbrev pub labels_user : Json → Bool
labels_user (string label) = is_user_label label
labels_user _ = false

abbrev pub is_true : Json → Bool
is_true (boolean b) = b
is_true _ = false

abbrev pub role_keys : List Bytes
role_keys =
    codes "role"
    ∷ codes "author"
    ∷ codes "speaker"
    ∷ codes "initiator"
    ∷ codes "sender"
    ∷ codes "actor"
    ∷ codes "origin"
    ∷ codes "from"
    ∷ codes "kind"
    ∷ codes "type"
    ∷ []

unfoldable pub has_user_context : Fields → Bool
has_user_context v =
    any (λ key. labels_user (value_at key v)) role_keys
    || any (λ key. is_true (value_at key v)) (codes "is_user" ∷ codes "isUser" ∷ [])

abbrev pub text_of : Json → Option Bytes
text_of (string s) = some s
text_of _ = none

abbrev pub text_at : Bytes → Fields → Option Bytes
text_at key v = text_of (value_at key v)

abbrev pub trimmed_text : Option Bytes → Bytes
trimmed_text none = []
trimmed_text (some text) = trim_space text

unfoldable pub prompt_text_part : Json → Bytes
prompt_text_part (string v) = trim_space v
prompt_text_part (object v) = trimmed_text (
    or_else (text_at (codes "text") v) (
      or_else (text_at (codes "input_text") v)
        (or_else (text_at (codes "statement") v) (text_at (codes "content") v))))
prompt_text_part _ = []

unfoldable pub prompt_parts : Items → List Bytes
prompt_parts nil = []
prompt_parts (cons item items) =
    let part = prompt_text_part item in
    let parts = prompt_parts items in if part == [] then parts else part ∷ parts

unfoldable mutual
  pub prompt_text_from_content : Json → Option Bytes
  prompt_text_from_content (string v) = prompt_text_ptr v
  prompt_text_from_content (array v) =
      let parts = prompt_parts v in
      if length parts == 0 then none else prompt_text_ptr (join parts (codes "\n"))
  prompt_text_from_content (object v) = or_else (prompt_text_at (codes "text") v) (
      or_else (prompt_text_at (codes "input_text") v)
        (or_else (prompt_text_at (codes "statement") v) (prompt_text_at (codes "content") v)))
  prompt_text_from_content _ = none

  -- `promptTextFromContent(v[key])`, which is nil on a missing key.
  pub prompt_text_at : Bytes → Fields → Option Bytes
  prompt_text_at key end = none
  prompt_text_at key (field k v fs) =
      let here = prompt_text_from_content v in
      let later = prompt_text_at key fs in if k == key then here else later

-- What an object gives before its children are asked.
unfoldable pub prompt_of_fields : Fields → Option Bytes
prompt_of_fields v =
    let of_user = or_else (prompt_text_at (codes "content") v) (
      or_else (prompt_text_at (codes "text") v)
        (or_else (prompt_text_at (codes "prompt") v) (prompt_text_at (codes "statement") v))) in
    or_else (if has_user_context v then of_user else none) (
      or_else (prompt_text_at (codes "user_prompt") v)
        (or_else (prompt_text_at (codes "prompt_text") v) (prompt_text_at (codes "problem") v)))

-- The body of `extractPromptTextFromPayload`, where `deeper` is what it does with a string.
unfoldable mutual
  pub prompt_of_payload : (Bytes → Option Bytes) → Json → Option Bytes
  prompt_of_payload deeper (object v) = or_else (prompt_of_fields v) (prompt_of_children deeper v)
  prompt_of_payload deeper (array v) = prompt_of_items deeper v
  prompt_of_payload deeper (string v) = deeper v
  prompt_of_payload deeper _ = none

  pub prompt_of_children : (Bytes → Option Bytes) → Fields → Option Bytes
  prompt_of_children deeper end = none
  prompt_of_children deeper (field k child fs) =
      or_else (prompt_of_payload deeper child) (prompt_of_children deeper fs)

  pub prompt_of_items : (Bytes → Option Bytes) → Items → Option Bytes
  prompt_of_items deeper nil = none
  prompt_of_items deeper (cons child items) =
      or_else (prompt_of_payload deeper child) (prompt_of_items deeper items)

abbrev pub is_wrapped : Bytes → Bytes → Bytes → Bool
is_wrapped opening closing s = has_prefix s opening && has_suffix s closing

-- A string that may hold JSON: `{…}` or `[…]`.
unfoldable pub looks_nested : Bytes → Bool
looks_nested s = is_wrapped (codes "{") (codes "}") s || is_wrapped (codes "[") (codes "]") s
