-- ===== src/Dashboard/Watch/Passes.antt =====
-- When the watch on the local logs refreshes the snapshot.
use copilot_token_cost.Prelude.{
  ℕ, ◌≡◌, ◌↔◌, inl, inr, refl, sym, ap, subst, ◌∙◌, true, false, Option, none, some, List, [], ◌∷◌,
  Bytes, All, All-map, ◌==◌, bytes_eq, nat_eq, Bool-cases, arith,
}
use copilot_token_cost.Prelude.Maps.{lookup}
use copilot_token_cost.Dashboard.Sync.{WebActionError, in_progress}
use copilot_token_cost.Prelude.Distinct.{IsDistinct}
use copilot_token_cost.Dashboard.Watch.{
  Logs, Look, Watch, scan_local_process_logs, local_process_logs_changed, local_process_logs_shrank,
  disappeared_from, refresh, refresh_local_streaming_status, finish_pass, report_error,
  after_refresh, pass_over_logs, watch_pass, run_passes,
}
use copilot_token_cost.Dashboard.Watch.Changes.{HasSameLogs, changed_iff, unshrunk, scan-IsDistinct}

module _ (look : Look) where
  status_stream :
      (n : ℕ) (chunk recopy : Bytes) (e : Option Bytes) (w : Watch)
      → (refresh_local_streaming_status look n chunk recopy e w).local_stream ≡ w.local_stream
  unfolding refresh_local_streaming_status
  status_stream n chunk recopy none w = refl
  status_stream n chunk recopy (some e) w = refl

  after_refresh_stream :
      (current : Logs) (gone : List Bytes) (chunk recopy : Bytes) (e : Option WebActionError)
      (w : Watch)
      → (after_refresh look current gone chunk recopy e w).local_stream ≡ w.local_stream
  unfolding after_refresh report_error finish_pass
  after_refresh_stream current gone chunk recopy none w = status_stream _ chunk recopy none _
  after_refresh_stream current gone chunk recopy (some e) w =
      elim (Bool-cases (e.reason == in_progress)) [
        | inl k ↦ rw (report_error, k)
        | inr k ↦ rw (report_error, k) (status_stream _ [] [] (some e.message) w)
      ]

  pass_stream :
      (current : Logs) (w : Watch) → (pass_over_logs look current w).0.local_stream ≡ current
  unfolding pass_over_logs finish_pass
  pass_stream current w =
      let gone = disappeared_from w.local_stream current in
      let seen : Watch = record w { local_stream = current } in
      let (sync, e) = refresh look w in
      let refreshed : Watch = record seen { sync = sync } in
      elim (Bool-cases (local_process_logs_shrank w.local_stream current)) [
        | inl k ↦ rw k (after_refresh_stream current gone w.local_chunk_at look.tick e refreshed)
        | inr k ↦ elim (Bool-cases (local_process_logs_changed w.local_stream current)) [
          | inl l ↦ rw (k, l) (after_refresh_stream current gone look.tick [] e refreshed)
          | inr l ↦ rw (k, l) (status_stream _ w.local_chunk_at [] none _)
        ]
      ]

  -- A pass that sees the logs as the last one did calls no refresh.
  quiet :
      (current : Logs) (w : Watch)
      → IsDistinct w.local_stream
      → IsDistinct current
      → HasSameLogs w.local_stream current
      → (pass_over_logs look current w).1 ≡ none
  unfolding pass_over_logs
  quiet current w d k same =
      rw (unshrunk w.local_stream current d same, (changed_iff w.local_stream current d k).1 same)

  loud :
      (current : Logs) (w : Watch)
      → IsDistinct w.local_stream
      → IsDistinct current
      → (pass_over_logs look current w).1 ≡ none
      → HasSameLogs w.local_stream current
  unfolding pass_over_logs
  loud current w d k h = elim (Bool-cases (local_process_logs_shrank w.local_stream current)) [
    | inl e ↦ let absurd : some true ≡ none = rw e at h in ground (arith, absurd)
    | inr e ↦ elim (Bool-cases (local_process_logs_changed w.local_stream current)) [
      | inl l ↦ let absurd : some false ≡ none = rw (e, l) at h in ground (arith, absurd)
      | inr l ↦ (changed_iff w.local_stream current d k).0 l
    ]
  ]

  -- A pass whose scan succeeds refreshes the snapshot, by force or not, exactly where some log is new, is
  -- gone, or has another size or time than the scan before has it.
  pub refresh_called_iff :
      (w : Watch) (current : Logs)
      → IsDistinct w.local_stream
      → scan_local_process_logs look.matches ≡ inr current
      → ((watch_pass look w).1 ≡ none) ↔ HasSameLogs w.local_stream current
  unfolding watch_pass
  refresh_called_iff w current d e =
      let k = scan-IsDistinct look.matches current e in
      rw e (loud current w d k, quiet current w d k)

-- A pass sees the logs as they are in `current`.
abbrev pub Sees : Logs → Look → Type 0
Sees current look =
    (found : Logs) × (scan_local_process_logs look.matches ≡ inr found) × HasSameLogs current found

run_quiet :
    (looks : List Look) (w : Watch)
    → IsDistinct w.local_stream
    → All (Sees w.local_stream) looks
    → All (λ called. called ≡ none) (run_passes looks w).1
unfolding run_passes watch_pass
run_quiet [] w d h = tt
run_quiet (look ∷ looks) w d ((found, e, same), hs) =
    let next : Watch = (pass_over_logs look found w).0 in
    let k = scan-IsDistinct look.matches found e in
    let kept : next.local_stream ≡ found = pass_stream look found w in
    rw e (
      quiet look found w d k same,
      run_quiet looks next (subst IsDistinct (sym kept) k) (
          All-map (Sees w.local_stream) (Sees next.local_stream) looks
            (λ l (m, f, alike).
              (m, f, λ path. ap (lookup path) kept ∙ sym (same path) ∙ alike path))
            hs),
    )

-- After a pass whose scan succeeds, no later pass calls a refresh while the logs stay as they are, whatever
-- the refresh of that pass answered: a refresh that failed, or found another sync in progress, is not tried
-- again until a log changes.
pub no_second_refresh :
    (look : Look) (looks : List Look) (w : Watch) (current : Logs)
    → scan_local_process_logs look.matches ≡ inr current
    → All (Sees current) looks
    → All (λ called. called ≡ none) (run_passes looks (watch_pass look w).0).1
unfolding watch_pass
no_second_refresh look looks w current e h =
    let kept = pass_stream look current w in
    rw e (
      run_quiet looks (pass_over_logs look current w).0
        (subst IsDistinct (sym kept) (scan-IsDistinct look.matches current e))
        (subst (λ logs. All (Sees logs) looks) (sym kept) h))
