-- ===== src/Termstatus/Modes.antt =====
-- What the modes of a renderer show.
use copilot_token_cost.Prelude.{
  ℕ, ◌≡◌, refl, sym, ◌∙◌, ap, Bool, true, false, ◌&&◌, List, [], ◌∷◌, Bytes, keep, ◌==◌, bytes_eq,
  Bool-cases, inl, inr,
}
use copilot_token_cost.Termstatus.{
  Mode, compact, verbose, errors, Renderer, normalize_message, write, write_line, write_progress,
  flush_progress_line, progress_in, progressf, infof, errorf, close, Call, progress, info, error,
  closing, apply, run, is_recent, new,
}

abbrev pub is_report : Call → Bool
is_report (progress text now) = false
is_report (info text) = true
is_report (error text) = true
is_report closing = true

-- No progress line is open but on a terminal, in compact mode.
pub record IsRendered (r : Renderer) : Type 0 where
  pub on_terminal : r.progress_active ≡ true → r.tty ≡ true
  pub in_compact : r.progress_active ≡ true → r.mode ≡ compact

write-IsRendered : (text : Bytes) (r : Renderer) → IsRendered r → IsRendered (write text r)
unfolding write
write-IsRendered text r h = record { on_terminal = h.on_terminal; in_compact = h.in_compact }

write_line-IsRendered : (msg : Bytes) (r : Renderer) → IsRendered r → IsRendered (write_line msg r)
unfolding write_line
write_line-IsRendered msg r h = write-IsRendered _ r h

flush-IsRendered : (r : Renderer) → IsRendered r → IsRendered (flush_progress_line r)
unfolding flush_progress_line
flush-IsRendered r h = elim (Bool-cases (r.progress_active && r.tty)) [
  | inl e ↦ rw e (record { on_terminal = λ k. cc k; in_compact = λ k. cc k })
  | inr e ↦ rw e h
]

-- After a flush no progress line is open.
flushed : (r : Renderer) → IsRendered r → (flush_progress_line r).progress_active ≡ false
unfolding flush_progress_line
flushed r h = elim (Bool-cases r.progress_active) [ inl e ↦ rw (e, h.on_terminal e) | inr e ↦ rw e ]

flush_closed : (r : Renderer) → r.progress_active ≡ false → flush_progress_line r ≡ r
unfolding flush_progress_line
flush_closed r e = rw e

progress_in-IsRendered :
    (m : Mode) (msg : Bytes) (now : ℕ) (r : Renderer)
    → r.mode ≡ m
    → IsRendered r
    → IsRendered (progress_in m msg now r)
unfolding write_progress write write_line
progress_in-IsRendered verbose msg now r e h = write_line-IsRendered msg r h
progress_in-IsRendered errors msg now r e h = h
progress_in-IsRendered compact msg now r e h = elim (Bool-cases r.tty) [
  | inl t ↦ simp t (record { on_terminal = λ k. refl; in_compact = λ k. e })
  | inr t ↦ elim (Bool-cases (msg == r.last_progress && is_recent now r r.last_line_at)) [
    | inl b ↦ simp (t, b) h
    | inr b ↦
        simp (t, b)
          (record { on_terminal = λ k. sym t ∙ h.on_terminal k; in_compact = h.in_compact })
  ]
]

apply-IsRendered : (c : Call) (r : Renderer) → IsRendered r → IsRendered (apply c r)
unfolding apply progressf infof errorf close
apply-IsRendered (progress text now) r h = elim (Bool-cases (normalize_message text == [])) [
  | inl e ↦ rw e h
  | inr e ↦ rw e (progress_in-IsRendered r.mode (normalize_message text) now r refl h)
]
apply-IsRendered (info text) r h = elim (Bool-cases (normalize_message text == [])) [
  | inl e ↦ rw e h
  | inr e ↦ rw e (write_line-IsRendered _ _ (flush-IsRendered r h))
]
apply-IsRendered (error text) r h = elim (Bool-cases (normalize_message text == [])) [
  | inl e ↦ rw e h
  | inr e ↦ rw e (write_line-IsRendered _ _ (flush-IsRendered r h))
]
apply-IsRendered closing r h = flush-IsRendered r h

run-IsRendered : (calls : List Call) (r : Renderer) → IsRendered r → IsRendered (run calls r)
unfolding run
run-IsRendered [] r h = h
run-IsRendered (c ∷ calls) r h = run-IsRendered calls (apply c r) (apply-IsRendered c r h)

new-IsRendered : (mode : Bytes) (tty : Bool) → IsRendered (new mode tty)
unfolding new
new-IsRendered mode tty = record { on_terminal = λ k. cc k; in_compact = λ k. cc k }

-- Whatever calls a new renderer gets, a progress line is open only on a terminal in compact mode, and
-- a close leaves none open; a second close writes nothing more.
pub run_closes :
    (mode : Bytes) (tty : Bool) (calls : List Call)
    → let r = run calls (new mode tty) in
      IsRendered r × ((close r).progress_active ≡ false) × (close (close r) ≡ close r)
unfolding close
run_closes mode tty calls =
    let h = run-IsRendered calls (new mode tty) (new-IsRendered mode tty) in
    let shut = flushed (run calls (new mode tty)) h in (h, shut, flush_closed _ shut)

flush_mode : (r : Renderer) → (flush_progress_line r).mode ≡ r.mode
unfolding flush_progress_line write
flush_mode r = elim (Bool-cases (r.progress_active && r.tty)) [ inl e ↦ rw e | inr e ↦ rw e ]

apply_mode : (c : Call) (r : Renderer) → is_report c ≡ true → (apply c r).mode ≡ r.mode
unfolding apply infof errorf close write_line write
apply_mode (progress text now) r h = cc h
apply_mode (info text) r h = elim (Bool-cases (normalize_message text == [])) [
  | inl e ↦ rw e
  | inr e ↦ rw e (flush_mode r)
]
apply_mode (error text) r h = elim (Bool-cases (normalize_message text == [])) [
  | inl e ↦ rw e
  | inr e ↦ rw e (flush_mode r)
]
apply_mode closing r h = flush_mode r

progress_ignored :
    (text : Bytes) (now : ℕ) (r : Renderer) → r.mode ≡ errors → apply (progress text now) r ≡ r
unfolding apply progressf
progress_ignored text now r h = elim (Bool-cases (normalize_message text == [])) [
  | inl e ↦ rw e
  | inr e ↦ rw e (ap (λ m. progress_in m (normalize_message text) now r) h)
]

-- In the mode for errors the calls for progress are as if they had not been made: what is written, and
-- all else, is that of the other calls alone.
pub run_errors :
    (calls : List Call) (r : Renderer)
    → r.mode ≡ errors
    → run calls r ≡ run (keep is_report calls) r
unfolding run
run_errors [] r h = refl
run_errors (progress text now ∷ calls) r h =
    ap (run calls) (progress_ignored text now r h) ∙ run_errors calls r h
run_errors (info text ∷ calls) r h =
    run_errors calls (apply (info text) r) (apply_mode (info text) r refl ∙ h)
run_errors (error text ∷ calls) r h =
    run_errors calls (apply (error text) r) (apply_mode (error text) r refl ∙ h)
run_errors (closing ∷ calls) r h =
    run_errors calls (apply closing r) (apply_mode closing r refl ∙ h)
