-- ===== src/Termstatus.antt =====
-- internal/termstatus/renderer.go: the status line of a terminal. A message is the formatted text, the
-- clock is an argument, and what was written is a field; the mutex makes each operation one step.
pub mod Modes
use copilot_token_cost.Prelude.{
  ℕ, ◌-◌, Bool, true, false, not, ◌&&◌, ◌||◌, Option, none, some, List, [], ◌∷◌, ◌++◌, Bytes, codes,
  trim_space, to_lower, fields, join, ltb, ◌==◌, bytes_eq, if◌then◌else◌,
}

pub data Mode : Type 0 where
  compact verbose errors : Mode

pub record Renderer : Type 0 where
  pub written : Bytes
  pub mode : Mode
  pub tty : Bool
  pub progress_active : Bool
  pub last_progress : Bytes
  -- in nanoseconds; `none` is the zero time
  pub last_line_at : Option ℕ
  pub min_line_gap : ℕ

-- `none` is the empty text.
unfoldable pub normalize_mode : Bytes → Option Mode
normalize_mode mode =
    let name = to_lower (trim_space mode) in
    if name == [] || name == codes "compact"
    then some compact
    else (if name == codes "verbose"
        then some verbose
        else (if name == codes "errors" then some errors else none))

abbrev pub or_compact : Option Mode → Mode
or_compact none = compact
or_compact (some m) = m

unfoldable pub new : Bytes → Bool → Renderer
new mode tty = record {
  written = [];
  mode = or_compact (normalize_mode mode);
  tty = tty;
  progress_active = false;
  last_progress = [];
  last_line_at = none;
  min_line_gap = 1_000_000_000;
}

unfoldable pub normalize_message : Bytes → Bytes
normalize_message msg =
    let trimmed = trim_space msg in if trimmed == [] then [] else join (fields trimmed) (codes " ")

unfoldable pub write : Bytes → Renderer → Renderer
write text r = record r { written = r.written ++ text }

unfoldable pub write_line : Bytes → Renderer → Renderer
write_line msg r = write (msg ++ b'\n' ∷ []) r

-- `\r\033[2K`
abbrev pub clear_line : Bytes
clear_line = 13 ∷ 27 ∷ codes "[2K"

abbrev pub is_recent : ℕ → Renderer → Option ℕ → Bool
is_recent now r none = false
is_recent now r (some t) = ltb (now - t) r.min_line_gap

unfoldable pub write_progress : Bytes → ℕ → Renderer → Renderer
write_progress msg now r =
    let shown = record (write (clear_line ++ msg) r) {
      progress_active = true;
      last_progress = msg;
    } in
    let logged = record (write_line msg r) { last_progress = msg; last_line_at = some now } in
    if r.tty
    then shown
    else (if msg == r.last_progress && is_recent now r r.last_line_at then r else logged)

unfoldable pub flush_progress_line : Renderer → Renderer
flush_progress_line r =
    if r.progress_active && r.tty
    then record (write (clear_line ++ b'\n' ∷ []) r) { progress_active = false }
    else r

abbrev pub progress_in : Mode → Bytes → ℕ → Renderer → Renderer
progress_in verbose msg now r = write_line msg r
progress_in errors msg now r = r
progress_in compact msg now r = write_progress msg now r

unfoldable pub progressf : Bytes → ℕ → Renderer → Renderer
progressf text now r =
    let msg = normalize_message text in if msg == [] then r else progress_in r.mode msg now r

unfoldable pub infof : Bytes → Renderer → Renderer
infof text r =
    let msg = normalize_message text in
    if msg == [] then r else write_line msg (flush_progress_line r)

unfoldable pub errorf : Bytes → Renderer → Renderer
errorf text r =
    let msg = normalize_message text in
    if msg == [] then r else write_line msg (flush_progress_line r)

unfoldable pub close : Renderer → Renderer
close r = flush_progress_line r

-- The calls of a program, in the order in which they get the mutex.
pub data Call : Type 0 where
  progress : (text : Bytes) (now : ℕ) → Call
  info : (text : Bytes) → Call
  error : (text : Bytes) → Call
  closing : Call

unfoldable pub apply : Call → Renderer → Renderer
apply (progress text now) r = progressf text now r
apply (info text) r = infof text r
apply (error text) r = errorf text r
apply closing r = close r

unfoldable pub run : List Call → Renderer → Renderer
run [] r = r
run (c ∷ calls) r = run calls (apply c r)
