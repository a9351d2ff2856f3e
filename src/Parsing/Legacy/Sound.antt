-- ===== src/Parsing/Legacy/Sound.antt =====
-- What holds of every record that the parser of the older logs gives.
use copilot_token_cost.Prelude.{
  ℕ, ◌+◌, ◌-◌, ◌<◌, ◌≡◌, ◌⊎◌, inl, inr, refl, Bool, true, false, not, ◌&&◌, Option, none, some,
  List, [], ◌∷◌, Bytes, All, ◌==◌, bytes_eq, if◌then◌else◌, Bool-cases, Option-cases, lines, codes,
  contains, arith,
}
use copilot_token_cost.Prelude.Int64.{sign_bit}
use copilot_token_cost.Prelude.Patterns.{or_else}
use copilot_token_cost.Domain.{Record}
use copilot_token_cost.Parsing.Expressions.{quoted, atoi, match_model, match_number}
use copilot_token_cost.Parsing.Window.{Log, out_of_range}
use copilot_token_cost.Parsing.Window.Loop.{
  Optional, All-run_lines, IsTime, InRange, read_timestamp-IsTime, out_of_range-InRange,
}
use copilot_token_cost.Parsing.Legacy.{
  Scan, Tokens, unknown, read_model, names_family, scan_model, model_at, or_last, fill_tokens,
  fill_block, tokens_at, number_in, no_tokens, record_of, usage_line, emit_record, between,
  is_complete, cache_read_in, scan_line, read_line, first_scan, parse_regex_records,
}

-- A count that a Go `int` holds, and not a negative one.
abbrev pub IsCount : ℕ → Type 0
IsCount n = n < sign_bit

-- A model that the parser takes: the one that stands for none, or one of a known family.
abbrev pub IsModel : Bytes → Type 0
IsModel model = (model ≡ unknown) ⊎ (names_family model ≡ true)

pub record IsSound (log : Log) (r : Record) : Type 0 where
  pub model : IsModel r.model
  pub time : IsTime r.timestamp
  pub in_range : InRange log r.timestamp
  pub log_file : r.log_file ≡ log.go.base log.log_path
  pub prompt_tokens : IsCount r.prompt_tokens
  pub completion_tokens : IsCount r.completion_tokens
  pub cache_creation_tokens : IsCount r.cache_creation_tokens
  pub cache_read_tokens : IsCount r.cache_read_tokens

atoi-IsCount : (digits : Bytes) → IsCount (atoi digits)
unfolding atoi
atoi-IsCount digits = omega arith

read_model-IsModel : (line last : Bytes) → IsModel last → IsModel (read_model line last)
unfolding read_model
read_model-IsModel line last h = elim (Option-cases (match_model line)) [
  | inl e ↦ rw e (ground (arith, h))
  | inr (candidate, e) ↦ rw e (ground (arith, h))
]

scan_model-IsModel :
    (range : List Bytes) (last : Bytes) → IsModel last → IsModel (scan_model range last)
unfolding scan_model
scan_model-IsModel [] last h = h
scan_model-IsModel (line ∷ range) last h = elim (Option-cases (match_model line)) [
  | inl e ↦ rw e (scan_model-IsModel range last h)
  | inr (candidate, e) ↦ rw e (ground (arith, scan_model-IsModel range last h))
]

model_at-IsModel :
    (all : List Bytes) (i : ℕ) (last : Bytes) → IsModel last → IsModel (model_at all i last)
unfolding model_at
model_at-IsModel all i last h =
    ground (arith, h, scan_model-IsModel (between (i + 16) (i + 120) all) last h)

Optional-or_else {ℓ κ} :
    {A : Type ℓ} (P : A → Type κ) (o p : Option A)
    → Optional P o
    → Optional P p
    → Optional P (or_else o p)
Optional-or_else P none p h k = k
Optional-or_else P (some a) p h k = h

number_in-IsCount : (key line : Bytes) → Optional IsCount (number_in key line)
number_in-IsCount key line = elim (Option-cases (match_number key line)) [
  | inl e ↦ rw e tt
  | inr (digits, e) ↦ rw e (atoi-IsCount digits)
]

-- The counts of the cache that are set.
abbrev HasCounts : Tokens → Type 0
HasCounts t = Optional IsCount t.cache_creation × Optional IsCount t.cache_read

fill_tokens-HasCounts : (line : Bytes) (t : Tokens) → HasCounts t → HasCounts (fill_tokens line t)
unfolding fill_tokens
fill_tokens-HasCounts line t (creation, read) = (
  Optional-or_else IsCount t.cache_creation (number_in (codes "cache_creation_input_tokens") line)
      creation (number_in-IsCount (codes "cache_creation_input_tokens") line),
  Optional-or_else IsCount t.cache_read (cache_read_in line) read (
      Optional-or_else IsCount (number_in (codes "cache_read_input_tokens") line)
        (number_in (codes "cached_tokens") line)
        (number_in-IsCount (codes "cache_read_input_tokens") line)
        (number_in-IsCount (codes "cached_tokens") line)),
)

if-HasCounts :
    (b : Bool) (t u : Tokens) → HasCounts t → HasCounts u → HasCounts (if b then t else u)
if-HasCounts true t u h k = h
if-HasCounts false t u h k = k

fill_block-HasCounts :
    (known : Bool) (block : List Bytes) (t : Tokens)
    → HasCounts t
    → HasCounts (fill_block known block t)
unfolding fill_block
fill_block-HasCounts known [] t h = h
fill_block-HasCounts known (line ∷ block) t h =
    let filled = fill_tokens-HasCounts line t h in
    if-HasCounts (is_complete (fill_tokens line t) && known) (fill_tokens line t)
      (fill_block known block (fill_tokens line t)) filled
      (fill_block-HasCounts known block (fill_tokens line t) filled)

tokens_at-HasCounts :
    (all : List Bytes) (i : ℕ) (line : Bytes) (known : Bool)
    → HasCounts (tokens_at all i line known)
unfolding tokens_at
tokens_at-HasCounts all i line known =
    let own = fill_tokens-HasCounts line no_tokens (tt, tt) in
    if-HasCounts (is_complete (fill_tokens line no_tokens) && known) (fill_tokens line no_tokens)
      (fill_block known (between (i - 10) (i + 16) all) (fill_tokens line no_tokens)) own
      (fill_block-HasCounts known (between (i - 10) (i + 16) all) (fill_tokens line no_tokens) own)

or_last-IsCount : (o : Option ℕ) → Optional IsCount o → IsCount (or_last o 0)
or_last-IsCount none h = omega arith
or_last-IsCount (some n) h = h

-- What the loop keeps of its variables.
record IsRead (s : Scan) : Type 0 where
  model : IsModel s.last_model
  time : IsTime s.last_timestamp

abbrev Keeps : Log → Scan × Option Record → Type 0
Keeps log r = IsRead r.0 × Optional (IsSound log) r.1

read_line-IsRead :
    (log : Log) (all : List Bytes) (i : ℕ) (line : Bytes) (s : Scan)
    → IsRead s
    → IsRead (read_line log.go all i line s)
unfolding read_line
read_line-IsRead log all i line s h = record {
  model = read_model-IsModel line s.last_model h.model;
  time = read_timestamp-IsTime line s.last_timestamp h.time;
}

emit_record-Keeps :
    (log : Log) (all : List Bytes) (i : ℕ) (s : Scan) (t : Tokens) (p c : Option Bytes)
    → IsRead s
    → HasCounts t
    → InRange log s.last_timestamp
    → Keeps log (emit_record log all i s t p c)
unfolding record_of
emit_record-Keeps log all i s t (some p) (some c) h counts r = (
  record { model = h.model; time = h.time },
  record {
    model = h.model;
    time = h.time;
    in_range = r;
    log_file = refl;
    prompt_tokens = atoi-IsCount p;
    completion_tokens = atoi-IsCount c;
    cache_creation_tokens = or_last-IsCount t.cache_creation counts.0;
    cache_read_tokens = or_last-IsCount t.cache_read counts.1;
  },
)
emit_record-Keeps log all i s t none c h counts r = (h, tt)
emit_record-Keeps log all i s t (some p) none h counts r = (h, tt)

usage_line-Keeps :
    (log : Log) (all : List Bytes) (i : ℕ) (line : Bytes) (s : Scan)
    → IsRead s
    → Keeps log (usage_line log all i line s)
unfolding usage_line
usage_line-Keeps log all i line s h = elim (Bool-cases (out_of_range log s.last_timestamp)) [
  | inl e ↦ rw e (record { model = h.model; time = h.time }, tt)
  | inr e ↦
      let t = tokens_at all i line (not (s.last_model == unknown)) in
      rw e (
        emit_record-Keeps log all i (record s { last_model = model_at all i s.last_model }) t
          t.prompt_match t.comp_match
          (record { model = model_at-IsModel all i s.last_model h.model; time = h.time })
          (tokens_at-HasCounts all i line (not (s.last_model == unknown)))
          (out_of_range-InRange log s.last_timestamp e))
]

scan_line-Keeps :
    (log : Log) (all : List Bytes) (i : ℕ) (line : Bytes) (s : Scan)
    → IsRead s
    → Keeps log (scan_line log all i line s)
unfolding scan_line
scan_line-Keeps log all i line s h =
    let read = read_line-IsRead log all i line s h in
    elim (Bool-cases (contains line (quoted (codes "completion_tokens")))) [
      | inl e ↦ rw e (usage_line-Keeps log all i line (read_line log.go all i line s) read)
      | inr e ↦ rw e (read, tt)
    ]

-- Whatever the log holds, every record of the parser of the older logs is sound: its model is `unknown` or
-- names a known family, its file is the base name of the log, its four token counts are not negative as 64-bit integers, its time is empty or
-- has the form of a time, and a time that is not empty lies at or after the lower bound and before the
-- upper bound, as far as these are given.
pub parse_regex_records-IsSound :
    (log : Log) (content : Bytes) → All (IsSound log) (parse_regex_records log content)
unfolding parse_regex_records
parse_regex_records-IsSound log content =
    All-run_lines (scan_line log (lines content)) IsRead (IsSound log)
      (scan_line-Keeps log (lines content)) 0 (lines content) first_scan
      (record { model = inl refl; time = inl refl })
