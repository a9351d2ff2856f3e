-- ===== src/Examples/Parsing.antt =====
-- The theorems of the log parsers at small logs.
use copilot_token_cost.Prelude.{
  ℕ, ◌≡◌, refl, Bool, true, false, Option, none, some, [], ◌∷◌, Bytes, codes, length, lines, join,
  drop, All, map, arith, bytes_beq, sym, bytes_eq, ◌==◌, if◌then◌else◌, bytes_lt, has_prefix,
  contains, lines_from, trim_space, trim_left, to_lower, equal_fold,
}
use mathlib.Core.Option.{some-injective}
use copilot_token_cost.Prelude.Patterns.{
  strip_prefix, skip_while, skip_some, take_while, up_to, up_to_some, find_first, matches,
}
use copilot_token_cost.Domain.{Record}
use copilot_token_cost.Parsing.Expressions.{
  after_key, match_number, value_from, atoi, match_model, match_initiator,
  match_initiator_telemetry, after_flushed, after_session_mark, id_here, session_here, last_session,
  match_session, literal_tail, ends_value, match_statement,
}
use copilot_token_cost.Parsing.Content.{Json, string, object, end, field}
use copilot_token_cost.Parsing.Prompt.{UsageEvent, Decoder}
use copilot_token_cost.Parsing.Window.{Log, run_lines}
use copilot_token_cost.Parsing.Legacy.{parse_regex_records}
use copilot_token_cost.Parsing.Legacy.Sound.{IsSound, parse_regex_records-IsSound}
use copilot_token_cost.Parsing.Telemetry.{parse_telemetry_records, parse_log_content}
use copilot_token_cost.Parsing.Telemetry.Sound.{
  IsDated, event_at-Decodes, parse_log_content-IsDated,
}
use copilot_token_cost.Parsing.Telemetry.Uncached.{HasSmallEvents, IsCounted, telemetry_counted}
use copilot_token_cost.Parsing.Range.{Access, parse_log_file_in_range}
use copilot_token_cost.Parsing.Range.Stable.{IsStable, IsParsed, parse_log_file-IsParsed}
use copilot_token_cost.Parsing.Legacy.{
  scan_line, usage_line, read_line, record_of, tokens_at, fill_tokens, fill_block, model_at,
  scan_model, read_model, read_initiator, read_session, names_family,
}
use copilot_token_cost.Parsing.Window.{read_timestamp, has_timestamp, has_at, out_of_range}
use copilot_token_cost.Parsing.Telemetry.{telemetry_line, read_cursor, event_at}
use copilot_token_cost.Parsing.Content.{is_user_initiator}
use copilot_token_cost.Parsing.Prompt.{
  prompt_at, extract_prompt_text_near_line, search_back, search_on, extract_prompt_text_from_line,
  contains_prompt_indicator, extract_prompt_text_from_problem_statement_line,
  extract_prompt_text_from_statement_line,
}
use copilot_token_cost.Examples.{whole_numbers}

session_of_line :
    match_session (
      codes
        "2026-02-01T10:00:00.000Z [INFO] Flushed 12 events to session 01234567-89ab-cdef-0123-456789abcdef")
    ≡ some (codes "01234567-89ab-cdef-0123-456789abcdef")
unfolding match_session last_session session_here id_here after_session_mark after_flushed
    strip_prefix skip_some skip_while has_prefix matches
session_of_line = refl

statement_of_line :
    match_statement (codes "  \"statement\": \"fix \\\"it\\\"\" , ")
    ≡ some (codes "\"fix \\\"it\\\"\"")
unfolding match_statement find_first after_key strip_prefix literal_tail ends_value skip_while
    has_prefix bytes_beq
statement_of_line = refl

number_of_line :
    match_number (codes "prompt_tokens") (codes "\"x\", \"prompt_tokens\" : 123,")
    ≡ some (codes "123")
unfolding match_number find_first after_key strip_prefix take_while skip_while has_prefix bytes_beq
number_of_line = refl

number_read : atoi (codes "9223372036854775999") ≡ 9223372036854775807
unfolding atoi value_from
number_read = refl

-- A string of JSON that holds JSON, and what the decoder makes of it.
abbrev nested_text : Bytes
nested_text = codes "{\"user_prompt\":\"hi\"}"

abbrev nested : Json
nested = object (field (codes "user_prompt") (string (codes "hi")) end)

abbrev decode : Bytes → Option Json
decode s = if s == nested_text then some nested else none

abbrev an_event : UsageEvent
an_event = record {
  kind = codes "assistant_usage";
  model = codes "gpt-5";
  initiator = codes "user";
  input_tokens = 100;
  output_tokens = 20;
  cache_read_tokens = 40;
  cache_write_tokens = 10;
  session_id = codes "s1";
}

abbrev a_decoder : Decoder
a_decoder = record {
  unmarshal = decode;
  unmarshal_event = λ block. some an_event;
  unquote = λ s. some s;
  base = λ path. path;
}

abbrev a_log : Log
a_log = record {
  go = a_decoder;
  log_path = codes "process-1.log";
  min_timestamp = codes "2026-02-01";
  max_timestamp = codes "2026-02-02";
}

abbrev old_content : Bytes
old_content =
    join
      (codes "2026-02-01T10:00:00.000Z PremiumRequestProcessor: Setting X-Initiator to 'user'"
        ∷ codes "\"model\": \"gpt-5\","
        ∷ codes "\"prompt_tokens\": 100,"
        ∷ codes "\"completion_tokens\": 20"
        ∷ codes "\"completion_tokens\": 7"
        ∷ [])
      (codes "\n")

abbrev new_content : Bytes
new_content =
    join
      (codes "2026-02-01T10:00:00.000Z [Telemetry] cli.telemetry:"
        ∷ codes "{"
        ∷ codes "\"kind\": \"assistant_usage\""
        ∷ codes "}"
        ∷ [])
      (codes "\n")

parse_regex_records-IsSound_example : All (IsSound a_log) (parse_regex_records a_log old_content)
parse_regex_records-IsSound_example = parse_regex_records-IsSound a_log old_content

parse_log_content-IsDated_example : All (IsDated a_log) (parse_log_content a_log new_content)
parse_log_content-IsDated_example = parse_log_content-IsDated a_log new_content

events_small : HasSmallEvents a_log (lines new_content)
events_small i event h =
    let (j, found, block, decoded, kind) = event_at-Decodes a_log (lines new_content) i event h in
    let same : an_event ≡ event = some-injective _ _ decoded in rw (sym same) (omega arith)

telemetry_counted_example :
    All
      (λ r. (event : UsageEvent) × IsCounted {W = ℕ} a_log (lines new_content) 1 event r)
      (parse_telemetry_records a_log new_content)
telemetry_counted_example = telemetry_counted a_log new_content 1 events_small

abbrev a_file : Access
a_file = record {
  read_file = some old_content;
  read_again = some old_content;
  opens = true;
  size = some (length old_content);
  seeks = true;
  read_all = λ n. some (drop n old_content);
}

a_file-IsStable : IsStable old_content a_file
a_file-IsStable = record {
  read_file = refl;
  read_again = refl;
  opens = refl;
  size = refl;
  seeks = refl;
  read_all = λ n. refl;
}

parse_log_file-IsParsed_example : IsParsed a_log old_content (parse_log_file_in_range a_log a_file)
parse_log_file-IsParsed_example = parse_log_file-IsParsed a_log old_content a_file a_file-IsStable

-- What a row of the two logs shows: the model, the tokens, and whether the user asked.
abbrev shown : Record → Bytes × ℕ × ℕ × Bool
shown r = (r.model, r.prompt_tokens, r.completion_tokens, r.is_user_turn)

old_records :
    map shown (parse_log_content a_log old_content)
    ≡ (codes "gpt-5", 100, 20, true) ∷ (codes "gpt-5", 100, 7, false) ∷ []
unfolding parse_log_content parse_telemetry_records telemetry_line read_cursor event_at
    parse_regex_records scan_line usage_line read_line record_of tokens_at fill_tokens fill_block
    model_at scan_model read_model read_initiator read_session names_family run_lines read_timestamp
    has_timestamp has_at out_of_range match_number match_model match_initiator
    match_initiator_telemetry match_session find_first after_key strip_prefix up_to up_to_some
    skip_while take_while atoi value_from lines lines_from join contains has_prefix bytes_beq
    bytes_lt trim_space trim_left to_lower equal_fold is_user_initiator prompt_at
    extract_prompt_text_near_line search_back search_on extract_prompt_text_from_line
    contains_prompt_indicator extract_prompt_text_from_problem_statement_line
    extract_prompt_text_from_statement_line match_statement
old_records = refl
