-- ===== src/Parsing/Telemetry.antt =====
-- internal/parsing/telemetry.go: `parseTelemetryRecords`, and `ParseLogContent` of service.go, which
-- chooses between the parsers.
pub mod Sound
pub mod Uncached
use copilot_token_cost.Prelude.{
  ℕ, zero, suc, ◌+◌, ◌-◌, Bool, true, false, not, ◌&&◌, ◌||◌, Option, none, some, List, [], ◌∷◌,
  Bytes, codes, take, drop, leb, length, keep, ◌==◌, nat_eq, bytes_eq, if◌then◌else◌, trim_space,
  contains, lines, join,
}
use copilot_token_cost.Prelude.Int64.{add64}
use copilot_token_cost.Prelude.Patterns.{or_else, ◌>>=◌}
use copilot_token_cost.Domain.{Record}
use copilot_token_cost.Parsing.Expressions.{quoted}
use copilot_token_cost.Parsing.Content.{is_user_initiator}
use copilot_token_cost.Parsing.Prompt.{
  UsageEvent, Decoder, prompt_at, extract_prompt_text_near_line,
}
use copilot_token_cost.Parsing.Window.{Log, read_timestamp, out_of_range, run_lines}
use copilot_token_cost.Parsing.Legacy.{unknown, parse_regex_records}

abbrev pub usage_mark : Bytes
usage_mark = codes "assistant_usage"

-- The index, from `j` on, of the first line that is an opening brace.
unfoldable pub opening_brace : ℕ → List Bytes → Option ℕ
opening_brace j [] = none
opening_brace j (line ∷ ls) =
    let later = opening_brace (suc j) ls in if trim_space line == codes "{" then some j else later

-- `blockStart`, which is looked for from the line in front of index `i` to two lines behind it.
unfoldable pub block_start : List Bytes → ℕ → Option ℕ
block_start all i = opening_brace (i - 1) (drop (i - 1) (take (i + 3) all))

-- strings.Count of a single byte
abbrev pub count_of : ℕ → Bytes → ℕ
count_of c s = length (keep (λ d. d == c) s)

-- The block up to the line where `depth`, which is `opened - closed`, is no longer positive.
unfoldable pub block_lines : ℕ → ℕ → List Bytes → List Bytes
block_lines opened closed [] = []
block_lines opened closed (line ∷ ls) =
    let trimmed = trim_space line in
    let opened_now = opened + count_of b'{' trimmed in
    let closed_now = closed + count_of b'}' trimmed in
    let rest = block_lines opened_now closed_now ls in
    line ∷ (if leb opened_now closed_now then [] else rest)

-- The event of the block, if it is one of a call.
unfoldable pub event_at : Decoder → List Bytes → ℕ → Option UsageEvent
event_at go all i = do
  start ← block_start all i
  event ← go.unmarshal_event (join (block_lines 0 0 (drop start all)) (codes "\n"))
  if event.kind == usage_mark then some event else none

-- `lastTimestamp` and `lastPromptText`.
pub record Cursor : Type 0 where
  pub last_timestamp : Bytes
  pub last_prompt_text : Option Bytes

abbrev pub first_cursor : Cursor
first_cursor = record { last_timestamp = []; last_prompt_text = none }

unfoldable pub read_cursor : Decoder → List Bytes → ℕ → Bytes → Cursor → Cursor
read_cursor go all i line s = record {
  last_timestamp = read_timestamp line s.last_timestamp;
  last_prompt_text = or_else (prompt_at go all i) s.last_prompt_text;
}

unfoldable pub record_of_event : Log → List Bytes → ℕ → Cursor → UsageEvent → Record
record_of_event log all i s event = record {
  model = if event.model == [] then unknown else event.model;
  prompt_tokens = add64 (add64 event.input_tokens event.cache_read_tokens) event.cache_write_tokens;
  completion_tokens = event.output_tokens;
  prompt_text = or_else (extract_prompt_text_near_line log.go all i) s.last_prompt_text;
  cache_creation_tokens = event.cache_write_tokens;
  cache_read_tokens = event.cache_read_tokens;
  is_user_turn = is_user_initiator event.initiator;
  timestamp = s.last_timestamp;
  session_id = event.session_id;
  log_file = log.go.base log.log_path;
  source = [];
}

abbrev pub clear_prompt : Cursor → Cursor
clear_prompt s = record s { last_prompt_text = none }

abbrev pub emit_event : Log → List Bytes → ℕ → Cursor → Option UsageEvent → Cursor × Option Record
emit_event log all i s none = (s, none)
emit_event log all i s (some event) =
    if out_of_range log s.last_timestamp
    then (s, none)
    else (clear_prompt s, some (record_of_event log all i s event))

unfoldable pub telemetry_line : Log → List Bytes → ℕ → Bytes → Cursor → Cursor × Option Record
telemetry_line log all i line s =
    let read = read_cursor log.go all i line s in
    if contains line (quoted usage_mark)
    then emit_event log all i read (event_at log.go all i)
    else (read, none)

unfoldable pub parse_telemetry_records : Log → Bytes → List Record
parse_telemetry_records log content =
    let all = lines content in run_lines (telemetry_line log all) 0 all first_cursor

unfoldable pub parse_log_content : Log → Bytes → List Record
parse_log_content log content =
    let records = parse_telemetry_records log content in
    let legacy = parse_regex_records log content in
    if contains content (quoted usage_mark) && not (length records == 0) then records else legacy
