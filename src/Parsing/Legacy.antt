-- ===== src/Parsing/Legacy.antt =====
-- internal/parsing/regex.go: `parseRegexRecords`, the parser of the older logs.
pub mod Sound
pub mod Turns
use copilot_token_cost.Prelude.{
  ℕ, zero, suc, ◌+◌, ◌-◌, Bool, true, false, not, ◌&&◌, ◌||◌, Option, none, some, List, [], ◌∷◌,
  ◌++◌, Bytes, codes, take, drop, any, ◌==◌, bytes_eq, if◌then◌else◌, trim_space, contains,
  has_prefix, lines, map,
}
use copilot_token_cost.Prelude.Maps.{is_some}
use copilot_token_cost.Prelude.Patterns.{or_else, ◌>>=◌}
use copilot_token_cost.Domain.{Record}
use copilot_token_cost.Parsing.Expressions.{
  quoted, match_number, atoi, match_model, match_initiator, match_initiator_telemetry,
  match_session,
}
use copilot_token_cost.Parsing.Content.{is_user_initiator}
use copilot_token_cost.Parsing.Prompt.{Decoder, prompt_at, extract_prompt_text_near_line}
use copilot_token_cost.Parsing.Window.{Log, read_timestamp, out_of_range, run_lines}

-- The variables that the loop carries from line to line.
pub record Scan : Type 0 where
  pub last_model : Bytes
  pub last_timestamp : Bytes
  pub last_session : Bytes
  pub last_initiator : Bytes
  pub last_prompt_text : Option Bytes

abbrev pub unknown : Bytes
unknown = codes "unknown"

abbrev pub agent : Bytes
agent = codes "agent"

abbrev pub first_scan : Scan
first_scan = record {
  last_model = unknown;
  last_timestamp = [];
  last_session = [];
  last_initiator = agent;
  last_prompt_text = none;
}

abbrev pub or_last {ℓ} : {A : Type ℓ} → Option A → A → A
or_last none last = last
or_last (some a) last = a

unfoldable pub read_session : Bytes → Bytes → Bytes
read_session line last =
    if contains line (codes "Workspace initialized")
      || contains line (codes "Created ACP session")
      || contains line (codes "Flushed ")
    then or_last (match_session line) last
    else last

abbrev pub trimmed_or_last : Option Bytes → Bytes → Bytes
trimmed_or_last none last = last
trimmed_or_last (some m) last = trim_space m

unfoldable pub read_initiator : Bytes → Bytes → Bytes
read_initiator line last =
    let set =
      if contains line (codes "PremiumRequestProcessor: Setting X-Initiator")
      then trimmed_or_last (match_initiator line) last
      else last in
    if contains line (quoted (codes "initiator"))
    then trimmed_or_last (match_initiator_telemetry line) set
    else set

unfoldable pub names_family : Bytes → Bool
names_family candidate =
    contains candidate (codes "claude")
    || contains candidate (codes "gpt")
    || contains candidate (codes "gemini")

abbrev pub model_or_last : Option Bytes → Bytes → Bytes
model_or_last none last = last
model_or_last (some candidate) last =
    if not (has_prefix candidate (codes "{")) && names_family candidate then candidate else last

unfoldable pub read_model : Bytes → Bytes → Bytes
read_model line last =
    if contains line (quoted (codes "model")) then model_or_last (match_model line) last else last

-- What the loop reads from a line before it looks for tokens; the line stands at index `i`.
unfoldable pub read_line : Decoder → List Bytes → ℕ → Bytes → Scan → Scan
read_line go all i line s = record {
  last_model = read_model line s.last_model;
  last_timestamp = read_timestamp line s.last_timestamp;
  last_session = read_session line s.last_session;
  last_initiator = read_initiator line s.last_initiator;
  last_prompt_text = or_else (prompt_at go all i) s.last_prompt_text;
}

-- `promptMatch`, `compMatch`, and the two cache counts with the flags that say whether they are set.
pub record Tokens : Type 0 where
  pub prompt_match : Option Bytes
  pub comp_match : Option Bytes
  pub cache_creation : Option ℕ
  pub cache_read : Option ℕ

abbrev pub number_in : Bytes → Bytes → Option ℕ
number_in key line = match_number key line >>= λ digits. some (atoi digits)

abbrev pub cache_read_in : Bytes → Option ℕ
cache_read_in line =
    or_else (number_in (codes "cache_read_input_tokens") line)
      (number_in (codes "cached_tokens") line)

abbrev pub no_tokens : Tokens
no_tokens = record {
  prompt_match = none;
  comp_match = none;
  cache_creation = none;
  cache_read = none;
}

-- A line fills in what is not set.
unfoldable pub fill_tokens : Bytes → Tokens → Tokens
fill_tokens line t = record {
  prompt_match = or_else t.prompt_match (match_number (codes "prompt_tokens") line);
  comp_match = or_else t.comp_match (match_number (codes "completion_tokens") line);
  cache_creation = or_else t.cache_creation (number_in (codes "cache_creation_input_tokens") line);
  cache_read = or_else t.cache_read (cache_read_in line);
}

abbrev pub is_complete : Tokens → Bool
is_complete t =
    is_some t.prompt_match
    && is_some t.comp_match
    && is_some t.cache_creation
    && is_some t.cache_read

-- The loop over the block; `known` says that the model is known.
unfoldable pub fill_block : Bool → List Bytes → Tokens → Tokens
fill_block known [] t = t
fill_block known (line ∷ block) t =
    let filled = fill_tokens line t in
    let rest = fill_block known block filled in if is_complete filled && known then filled else rest

abbrev pub family_or : Option Bytes → Bytes → Bytes
family_or none later = later
family_or (some candidate) later = if names_family candidate then candidate else later

-- The loop over the extended range: the first model of a known family.
unfoldable pub scan_model : List Bytes → Bytes → Bytes
scan_model [] last = last
scan_model (line ∷ range) last = family_or (match_model line) (scan_model range last)

-- `lines[first:last]`, with the bounds clamped to the lines.
abbrev pub between : ℕ → ℕ → List Bytes → List Bytes
between first last all = drop first (take last all)

unfoldable pub tokens_at : List Bytes → ℕ → Bytes → Bool → Tokens
tokens_at all i line known =
    let own = fill_tokens line no_tokens in
    let filled = fill_block known (between (i - 10) (i + 16) all) own in
    if is_complete own && known then own else filled

unfoldable pub model_at : List Bytes → ℕ → Bytes → Bytes
model_at all i last =
    let scanned = scan_model (between (i + 16) (i + 120) all) last in
    if last == unknown then scanned else last

unfoldable pub record_of : Log → List Bytes → ℕ → Scan → Tokens → Bytes → Bytes → Record
record_of log all i s t prompt_digits comp_digits = record {
  model = s.last_model;
  prompt_tokens = atoi prompt_digits;
  completion_tokens = atoi comp_digits;
  prompt_text = or_else (extract_prompt_text_near_line log.go all i) s.last_prompt_text;
  cache_creation_tokens = or_last t.cache_creation 0;
  cache_read_tokens = or_last t.cache_read 0;
  is_user_turn = is_user_initiator s.last_initiator;
  timestamp = s.last_timestamp;
  session_id = s.last_session;
  log_file = log.go.base log.log_path;
  source = [];
}

abbrev pub reset_initiator : Scan → Scan
reset_initiator s = record s { last_initiator = agent }

abbrev pub emit_record :
    Log → List Bytes → ℕ → Scan → Tokens → Option Bytes → Option Bytes → Scan × Option Record
emit_record log all i s t (some p) (some c) =
    (reset_initiator s, some (record_of log all i s t p c))
emit_record log all i s t _ _ = (s, none)

-- A line with `"completion_tokens"`, behind what has been read from it.
unfoldable pub usage_line : Log → List Bytes → ℕ → Bytes → Scan → Scan × Option Record
usage_line log all i line s =
    let t = tokens_at all i line (not (s.last_model == unknown)) in
    let modelled = record s { last_model = model_at all i s.last_model } in
    if out_of_range log s.last_timestamp
    then (reset_initiator s, none)
    else emit_record log all i modelled t t.prompt_match t.comp_match

unfoldable pub scan_line : Log → List Bytes → ℕ → Bytes → Scan → Scan × Option Record
scan_line log all i line s =
    let read = read_line log.go all i line s in
    if contains line (quoted (codes "completion_tokens"))
    then usage_line log all i line read
    else (read, none)

unfoldable pub parse_regex_records : Log → Bytes → List Record
parse_regex_records log content =
    let all = lines content in run_lines (scan_line log all) 0 all first_scan
