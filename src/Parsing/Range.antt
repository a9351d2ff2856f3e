-- ===== src/Parsing/Range.antt =====
-- main.go: `readLogContentForRange` and `parseLogFileInRange`, which read the end of a large log only.
pub mod Stable
use copilot_token_cost.Prelude.{
  ℕ, ◌-◌, ◌*◌, ◌^◌, Bool, true, false, not, ◌&&◌, ◌||◌, Option, none, some, List, [], ◌∷◌, Bytes,
  length, leb, ◌==◌, nat_eq, bytes_eq, if◌then◌else◌,
}
use copilot_token_cost.Prelude.Patterns.{◌>>=◌}
use copilot_token_cost.Domain.{Record}
use copilot_token_cost.Parsing.Window.{Log, is_set}
use copilot_token_cost.Parsing.Telemetry.{parse_log_content}

-- What the calls on the file give, with `none` for an error: os.ReadFile in the first function and in the
-- second, os.Open, the size that Stat gives, Seek, and io.ReadAll from an offset on.
pub record Access : Type 0 where
  pub read_file : Option Bytes
  pub read_again : Option Bytes
  pub opens : Bool
  pub size : Option ℕ
  pub seeks : Bool
  pub read_all : ℕ → Option Bytes

abbrev pub tail_bytes : ℕ
tail_bytes = 4 * 1024 * 1024

-- `data[idx+1:]` for the first newline, or all of the data.
unfoldable pub behind_newline : Bytes → Option Bytes
behind_newline [] = none
behind_newline (c ∷ s) = let later = behind_newline s in if c == b'\n' then some s else later

abbrev pub whole_lines : Bytes → Bytes
whole_lines bytes = elim (behind_newline bytes) [ none ↦ bytes | some rest ↦ rest ]

-- The content and `tailUsed`.
abbrev pub all_of : Bytes → Option (Bytes × Bool)
all_of bytes = some (bytes, false)

abbrev pub tail_of : Bytes → Option (Bytes × Bool)
tail_of bytes = some (whole_lines bytes, true)

abbrev pub read_sized : Access → ℕ → Option (Bytes × Bool)
read_sized file size =
    if leb size tail_bytes
    then file.read_all 0 >>= all_of
    else if file.seeks
    then file.read_all (size - tail_bytes) >>= tail_of
    else none

unfoldable pub read_log_content_for_range : Log → Access → Option (Bytes × Bool)
read_log_content_for_range log file =
    if not (is_set log.min_timestamp) && not (is_set log.max_timestamp)
    then file.read_file >>= all_of
    else if file.opens
    then file.size >>= read_sized file
    else none

-- The records of the whole file, where the end of it has none.
abbrev pub retried : Log → List Record → Option Bytes → List Record
retried log records none = records
retried log records (some bytes) = parse_log_content log bytes

abbrev pub parse_read : Log → Access → Option (Bytes × Bool) → List Record
parse_read log file none = []
parse_read log file (some (content, tail_used)) =
    let records = parse_log_content log content in
    let again = retried log records file.read_again in
    if tail_used && length records == 0 then again else records

unfoldable pub parse_log_file_in_range : Log → Access → List Record
parse_log_file_in_range log file = parse_read log file (read_log_content_for_range log file)
