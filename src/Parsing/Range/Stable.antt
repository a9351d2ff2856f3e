-- ===== src/Parsing/Range/Stable.antt =====
-- What is read of a file that does not change while it is read.
use copilot_token_cost.Prelude.{
  ℕ, ◌-◌, ◌≡◌, ◌≢◌, ◌⊎◌, inl, inr, refl, true, false, not, ◌&&◌, some, List, [], ◌∷◌, Bytes, length,
  drop, leb, ◌==◌, nat_eq, nat_beq, bytes_eq, if◌then◌else◌, Bool-cases, arith,
}
use copilot_token_cost.Domain.{Record}
use copilot_token_cost.Parsing.Window.{Log, is_set}
use copilot_token_cost.Parsing.Telemetry.{parse_log_content}
use copilot_token_cost.Parsing.Range.{
  Access, tail_bytes, whole_lines, read_log_content_for_range, retried, parse_log_file_in_range,
}

-- Every call succeeds and sees `content`.
pub record IsStable (content : Bytes) (file : Access) : Type 0 where
  pub read_file : file.read_file ≡ some content
  pub read_again : file.read_again ≡ some content
  pub opens : file.opens ≡ true
  pub size : file.size ≡ some (length content)
  pub seeks : file.seeks ≡ true
  pub read_all : (n : ℕ) → file.read_all n ≡ some (drop n content)

-- The end of a large log, from a line on.
abbrev pub tail_content : Bytes → Bytes
tail_content content = whole_lines (drop (length content - tail_bytes) content)

-- The whole log is parsed, or its end, which is then not without records.
abbrev pub IsParsed : Log → Bytes → List Record → Type 0
IsParsed log content records =
    (records ≡ parse_log_content log content)
    ⊎ ((records ≡ parse_log_content log (tail_content content)) × (records ≢ []))

retried-IsParsed :
    (log : Log) (content : Bytes) (file : Access)
    → IsStable content file
    → (records : List Record) → records ≡ parse_log_content log (tail_content content)
    → IsParsed log content
        (if length records == 0 then retried log records file.read_again else records)
retried-IsParsed log content file h [] e = rw h.read_again (inl refl)
retried-IsParsed log content file h (r ∷ rs) e =
    let more : nat_beq (length (r ∷ rs)) 0 ≡ false = ground arith in rw more (inr (e, λ k. cc))

-- A log that does not change while it is read, of any size and with any bounds, is parsed as a whole, or
-- its last 4 MiB are, from the first line that begins there on, which is the case only where they give some
-- record. So where the log has no record in the end that is read, no record of the whole is lost.
pub parse_log_file-IsParsed :
    (log : Log) (content : Bytes) (file : Access)
    → IsStable content file
    → IsParsed log content (parse_log_file_in_range log file)
unfolding parse_log_file_in_range read_log_content_for_range
parse_log_file-IsParsed log content file h =
    elim (Bool-cases (not (is_set log.min_timestamp) && not (is_set log.max_timestamp))) [
      | inl e ↦ rw (e, h.read_file) (inl refl)
      | inr e ↦ elim (Bool-cases (leb (length content) tail_bytes)) [
        | inl k ↦ rw (e, h.opens, h.size, k, h.read_all 0) (inl refl)
        | inr k ↦
            rw (e, h.opens, h.size, k, h.seeks, h.read_all (length content - tail_bytes))
              (retried-IsParsed log content file h (parse_log_content log (tail_content content))
                refl)
      ]
    ]
