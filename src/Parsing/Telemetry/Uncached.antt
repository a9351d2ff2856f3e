-- ===== src/Parsing/Telemetry/Uncached.antt =====
-- What the costs take of a record of the telemetry: the input that no cache holds.
use copilot_token_cost.Prelude.{
  ℕ, ◌+◌, ◌<◌, ◌≡◌, ◌∙◌, some, List, Bytes, All, All-map, lines, if◌then◌else◌, arith,
}
use copilot_token_cost.Prelude.Int64.{add64, sub64, is_neg, sign_bit}
use copilot_token_cost.Prelude.Floats.{Float64}
use copilot_token_cost.Domain.{Record, new_stats, add_record}
use copilot_token_cost.Costing.Cost.{uncached_input}
use copilot_token_cost.Parsing.Prompt.{UsageEvent}
use copilot_token_cost.Parsing.Window.{Log}
use copilot_token_cost.Parsing.Telemetry.{event_at, parse_telemetry_records}
use copilot_token_cost.Parsing.Telemetry.Sound.{
  IsDated, IsOfEvent, HasEvent, parse_telemetry_records-Keeps,
}

-- The prompt tokens of an event, which are those read from and written to the cache and all others.
abbrev pub all_input : UsageEvent → ℕ
all_input event = event.input_tokens + event.cache_read_tokens + event.cache_write_tokens

-- No event in the lines has more prompt tokens than an `int` holds.
abbrev pub HasSmallEvents : Log → List Bytes → Type 0
HasSmallEvents log all =
    (i : ℕ) (event : UsageEvent) → event_at log.go all i ≡ some event → all_input event < sign_bit

uncached_of_sum :
    (a b c : ℕ)
    → a + b + c < sign_bit
    → let v = sub64 (sub64 (add64 0 (add64 (add64 a b) c)) (add64 0 b)) (add64 0 c) in
      (if is_neg v then 0 else v) ≡ a
unfolding add64 sub64 is_neg
uncached_of_sum a b c h = ground arith

add64_sum : (a b c : ℕ) → a + b + c < sign_bit → add64 (add64 a b) c ≡ a + b + c
unfolding add64
add64_sum a b c h = omega arith

module _ {ℓ} {W : Type ℓ} ⦃f : Float64 W⦄ where
  -- The record counts every prompt token of its event once, and the costs find its input again.
  pub record IsCounted (log : Log) (all : List Bytes) (multiplier : W) (event : UsageEvent)
      (r : Record) : Type 0 where
    pub of_event : IsOfEvent log all event r
    pub prompt_tokens : r.prompt_tokens ≡ all_input event
    pub uncached : uncached_input (add_record new_stats r multiplier) ≡ event.input_tokens

  of_record :
      (log : Log) (all : List Bytes) (multiplier : W)
      → HasSmallEvents log all
      → (r : Record) → IsDated log r × HasEvent log all r
      → (event : UsageEvent) × IsCounted log all multiplier event r
  unfolding add_record uncached_input
  of_record log all multiplier small r (dated, (event, from_event)) =
      let (i, found, block, decoded, kind) = from_event.decodes in
      let bound = small i event found in
      (
        event,
        record {
          of_event = from_event;
          prompt_tokens =
              from_event.prompt_tokens
              ∙ add64_sum event.input_tokens event.cache_read_tokens event.cache_write_tokens bound;
          uncached =
              rw
                (
                  from_event.prompt_tokens, from_event.cache_read_tokens,
                  from_event.cache_creation_tokens,
                )
                (uncached_of_sum event.input_tokens event.cache_read_tokens event.cache_write_tokens
                  bound);
        },
      )

  -- Where no event of a log has more prompt tokens than a 64-bit integer holds, every record that the telemetry gives
  -- is that of an event which a block of the log decodes to: its prompt tokens are those of the input, read
  -- from the cache and written to it, and the uncached input that the costs compute from the record alone is
  -- the input of the event.
  pub telemetry_counted :
      (log : Log) (content : Bytes) (multiplier : W)
      → HasSmallEvents log (lines content)
      → All
          (λ r. (event : UsageEvent) × IsCounted log (lines content) multiplier event r)
          (parse_telemetry_records log content)
  telemetry_counted log content multiplier small =
      All-map (λ r. IsDated log r × HasEvent log (lines content) r)
        (λ r. (event : UsageEvent) × IsCounted log (lines content) multiplier event r)
        (parse_telemetry_records log content) (of_record log (lines content) multiplier small)
        (parse_telemetry_records-Keeps log content)
