-- ===== src/Parsing/Telemetry/Sound.antt =====
-- What holds of every record that the telemetry gives, and of every record of a log, whichever parser reads it.
use copilot_token_cost.Prelude.{
  ℕ, ◌≡◌, ◌≢◌, ◌∙◌, inl, inr, refl, sym, ap, subst, drop, join, true, not, ◌&&◌, Option, none, some,
  List, [], ◌∷◌, Bytes, codes, contains, has_prefix, length, All, All-map, ◌==◌, nat_eq, bytes_eq,
  bytes_beq_iff, if◌then◌else◌, Bool-cases, Option-cases, lines, arith,
}
use mathlib.Core.Option.{some-injective}
use copilot_token_cost.Prelude.Int64.{add64}
use copilot_token_cost.Prelude.Patterns.{◌>>=◌}
use copilot_token_cost.Domain.{Record}
use copilot_token_cost.Parsing.Expressions.{quoted}
use copilot_token_cost.Parsing.Prompt.{UsageEvent}
use copilot_token_cost.Parsing.Window.{Log, out_of_range}
use copilot_token_cost.Parsing.Window.Loop.{
  Optional, All-run_lines, IsTime, InRange, read_timestamp-IsTime, out_of_range-InRange,
}
use copilot_token_cost.Parsing.Legacy.{unknown, names_family, parse_regex_records}
use copilot_token_cost.Parsing.Legacy.Sound.{IsModel, IsSound, parse_regex_records-IsSound}
use copilot_token_cost.Parsing.Telemetry.{
  usage_mark, block_start, block_lines, event_at, Cursor, read_cursor, record_of_event, emit_event,
  telemetry_line, first_cursor, parse_telemetry_records, parse_log_content,
}

-- The record's time and model, and the log that it comes from.
pub record IsDated (log : Log) (r : Record) : Type 0 where
  pub time : IsTime r.timestamp
  pub in_range : InRange log r.timestamp
  pub model : r.model ≢ []
  pub log_file : r.log_file ≡ log.go.base log.log_path

-- A block of JSON in the lines decodes to the event of a call.
abbrev pub Decodes : Log → List Bytes → UsageEvent → Type 0
Decodes log all event =
    (i : ℕ) × (event_at log.go all i ≡ some event)
    × (block : Bytes) × (log.go.unmarshal_event block ≡ some event)
    × (event.kind ≡ usage_mark)

-- The record has what the event says.
pub record IsOfEvent (log : Log) (all : List Bytes) (event : UsageEvent) (r : Record) : Type 0 where
  pub decodes : Decodes log all event
  pub prompt_tokens :
      r.prompt_tokens
      ≡ add64 (add64 event.input_tokens event.cache_read_tokens) event.cache_write_tokens
  pub completion_tokens : r.completion_tokens ≡ event.output_tokens
  pub cache_creation_tokens : r.cache_creation_tokens ≡ event.cache_write_tokens
  pub cache_read_tokens : r.cache_read_tokens ≡ event.cache_read_tokens
  pub session_id : r.session_id ≡ event.session_id

abbrev pub HasEvent : Log → List Bytes → Record → Type 0
HasEvent log all r = (event : UsageEvent) × IsOfEvent log all event r

accepted :
    (o : Option UsageEvent) (event : UsageEvent)
    → (o >>= λ held. if held.kind == usage_mark then some held else none) ≡ some event
    → (o ≡ some event) × (event.kind ≡ usage_mark)
accepted none event h = cc
accepted (some held) event h = elim (Bool-cases (held.kind == usage_mark)) [
  | inl k ↦
      let same : held ≡ event = some-injective _ _ (rw k at h) in
      (
        ap some same,
        subst (λ e. e.kind ≡ usage_mark) same ((bytes_beq_iff held.kind usage_mark).0 k),
      )
  | inr k ↦ let absurd : none ≡ some event = rw k at h in cc
]

pub event_at-Decodes :
    (log : Log) (all : List Bytes) (i : ℕ) (event : UsageEvent)
    → event_at log.go all i ≡ some event
    → Decodes log all event
unfolding event_at
event_at-Decodes log all i event h = elim (Option-cases (block_start all i)) [
  | inl e ↦ let absurd : none ≡ some event = rw e at h in cc
  | inr (start, e) ↦
      let block = join (block_lines 0 0 (drop start all)) (codes "\n") in
      let found = accepted (log.go.unmarshal_event block) event (rw e at h) in
      (i, h, block, found.0, found.1)
]

record_of_event_model :
    (event : UsageEvent) → (if event.model == [] then unknown else event.model) ≢ []
record_of_event_model event = elim (Bool-cases (event.model == [])) [
  | inl e ↦ rw e (λ h. cc)
  | inr e ↦ rw e (λ h. ground (arith, bytes_beq_iff event.model [], e, h))
]

abbrev Keeps : Log → List Bytes → Cursor × Option Record → Type 0
Keeps log all r = IsTime r.0.last_timestamp × Optional (λ o. IsDated log o × HasEvent log all o) r.1

emit_event-Keeps :
    (log : Log) (all : List Bytes) (i : ℕ) (s : Cursor) (o : Option UsageEvent)
    → ((event : UsageEvent) → o ≡ some event → Decodes log all event)
    → IsTime s.last_timestamp
    → Keeps log all (emit_event log all i s o)
unfolding record_of_event
emit_event-Keeps log all i s none d h = (h, tt)
emit_event-Keeps log all i s (some event) d h =
    elim (Bool-cases (out_of_range log s.last_timestamp)) [
      | inl e ↦ rw e (h, tt)
      | inr e ↦ rw e (
        h,
        (
          record {
            time = h;
            in_range = out_of_range-InRange log s.last_timestamp e;
            model = record_of_event_model event;
            log_file = refl;
          },
          (
            event,
            record {
              decodes = d event refl;
              prompt_tokens = refl;
              completion_tokens = refl;
              cache_creation_tokens = refl;
              cache_read_tokens = refl;
              session_id = refl;
            },
          ),
        ),
      )
    ]

telemetry_line-Keeps :
    (log : Log) (all : List Bytes) (i : ℕ) (line : Bytes) (s : Cursor)
    → IsTime s.last_timestamp
    → Keeps log all (telemetry_line log all i line s)
unfolding telemetry_line read_cursor
telemetry_line-Keeps log all i line s h =
    let read = read_timestamp-IsTime line s.last_timestamp h in
    elim (Bool-cases (contains line (quoted usage_mark))) [
      | inl e ↦ rw e (
          emit_event-Keeps log all i (read_cursor log.go all i line s) (event_at log.go all i)
            (event_at-Decodes log all i) read)
      | inr e ↦ rw e (read, tt)
    ]

pub parse_telemetry_records-Keeps :
    (log : Log) (content : Bytes)
    → All
        (λ r. IsDated log r × HasEvent log (lines content) r)
        (parse_telemetry_records log content)
unfolding parse_telemetry_records
parse_telemetry_records-Keeps log content =
    All-run_lines (telemetry_line log (lines content)) (λ s. IsTime s.last_timestamp)
      (λ r. IsDated log r × HasEvent log (lines content) r)
      (telemetry_line-Keeps log (lines content)) 0 (lines content) first_cursor (inl refl)

names_family_ne : (model : Bytes) → names_family model ≡ true → model ≢ []
unfolding names_family contains has_prefix
names_family_ne [] h = cc
names_family_ne (c ∷ model) h = λ e. cc

IsModel-ne : (model : Bytes) → IsModel model → model ≢ []
IsModel-ne model (inl e) = λ k. let absurd : unknown ≡ [] = sym e ∙ k in cc
IsModel-ne model (inr h) = names_family_ne model h

-- Whatever the log holds and whichever parser reads it, every record has a model, has the base name of the
-- log as its file, and has a time that is empty or has the form of a time; a time that is not empty lies
-- at or after the lower bound and before the upper bound, as far as these are given.
pub parse_log_content-IsDated :
    (log : Log) (content : Bytes) → All (IsDated log) (parse_log_content log content)
unfolding parse_log_content
parse_log_content-IsDated log content =
    let records = parse_telemetry_records log content in
    let from_events =
      All-map (λ r. IsDated log r × HasEvent log (lines content) r) (IsDated log) records
        (λ r h. h.0) (parse_telemetry_records-Keeps log content) in
    elim (Bool-cases (contains content (quoted usage_mark) && not (length records == 0))) [
      | inl e ↦ rw e from_events
      | inr e ↦ rw e (
          All-map (IsSound log) (IsDated log) (parse_regex_records log content)
            (λ r h. record {
              time = h.time;
              in_range = h.in_range;
              model = IsModel-ne r.model h.model;
              log_file = h.log_file;
            })
            (parse_regex_records-IsSound log content))
    ]
