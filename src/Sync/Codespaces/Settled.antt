-- ===== src/Sync/Codespaces/Settled.antt =====
-- What one tick leaves for the next.
use copilot_token_cost.Prelude.{
  zero, suc, ◌+◌, ◌≡◌, refl, ◌∙◌, ap, Bool, true, false, not, ◌&&◌, none, some, List, [], ◌∷◌,
  Bytes, keep, length, ltb, ◌==◌, bytes_eq, eq_iff, if◌then◌else◌, arith, Bool-cases, inl, inr, All,
  In,
}
use copilot_token_cost.Prelude.Floats.{Float64}
use copilot_token_cost.Storage.{Database}
use copilot_token_cost.Storage.Parsed.{get_codespace_last_used}
use copilot_token_cost.Sync.Logs.{sync_logs_to_db}
use copilot_token_cost.Sync.Codespaces.{CodespaceInfo, available, list_codespaces}
use copilot_token_cost.Sync.Codespaces.Copy.{copy_codespace_data}
use copilot_token_cost.Sync.Codespaces.Tick.{
  Remote, incomplete, Tally, job_of, is_unchanged, pending_of, sync_copy, sync_result, sync_results,
  sync_codespaces_to_db_tick,
}
use copilot_token_cost.Sync.Codespaces.Recorded.{sync_states, used-upsert, used-states}

-- The copy of a codespace comes about.
abbrev pub is_copied : Remote → CodespaceInfo → Bool
is_copied remote cs = copy_codespace_data (remote.copying cs)

-- The listing has one date for a name.
abbrev pub IsDated : CodespaceInfo → CodespaceInfo → Type 0
IsDated cs g = (g.name == cs.name) ≡ true → g.last_used_at ≡ cs.last_used_at

keep-IsDated :
    (cs : CodespaceInfo) (q : CodespaceInfo → Bool) (all : List CodespaceInfo)
    → All (IsDated cs) all
    → All (IsDated cs) (keep q all)
keep-IsDated cs q [] h = tt
keep-IsDated cs q (g ∷ all) (h, hs) = elim (Bool-cases (q g)) [
  | inl e ↦ rw e (h, keep-IsDated cs q all hs)
  | inr e ↦ rw e (keep-IsDated cs q all hs)
]

module _ {ℓ} {W : Type ℓ} ⦃f : Float64 W⦄ (remote : Remote) where
  used-sync_copy :
      (g : CodespaceInfo) (name : Bytes) (t : Tally W)
      → get_codespace_last_used name (sync_copy remote g t).database
        ≡ (if g.name == name then g.last_used_at else get_codespace_last_used name t.database)
  unfolding sync_copy
  used-sync_copy g name t =
      used-upsert g.name name g.last_used_at (sync_logs_to_db (job_of remote g) t.database).0
      ∙ ap (λ u. if g.name == name then g.last_used_at else u)
          (used-states name _ _ (sync_states (job_of remote g) t.database))

  used-sync_result :
      (g : CodespaceInfo) (name : Bytes) (t : Tally W)
      → get_codespace_last_used name (sync_result remote g t).database ≡ (
          if is_copied remote g && g.name == name
          then g.last_used_at
          else get_codespace_last_used name t.database)
  unfolding sync_result
  used-sync_result g name t = elim (Bool-cases (is_copied remote g)) [
    | inl e ↦ rw e (used-sync_copy g name t)
    | inr e ↦ rw e
  ]

  -- A row that is right stays right.
  used_stays :
      (cs : CodespaceInfo) (rest : List CodespaceInfo) (t : Tally W)
      → All (IsDated cs) rest
      → get_codespace_last_used cs.name t.database ≡ cs.last_used_at
      → get_codespace_last_used cs.name (sync_results remote rest t).database ≡ cs.last_used_at
  unfolding sync_results
  used_stays cs [] t d h = h
  used_stays cs (g ∷ rest) t (d, ds) h =
      used_stays cs rest (sync_result remote g t) ds (used-sync_result g cs.name t ∙ one)
    where
      one :
          (if is_copied remote g && g.name == cs.name
            then g.last_used_at
            else get_codespace_last_used cs.name t.database)
          ≡ cs.last_used_at
      one = elim (Bool-cases (is_copied remote g && g.name == cs.name)) [
        | inl e ↦ rw e (d (ground (arith, e)))
        | inr e ↦ rw e h
      ]

  used_reached :
      (cs : CodespaceInfo) (rest : List CodespaceInfo) (t : Tally W) (i : In cs rest)
      → All (IsDated cs) rest
      → is_copied remote cs ≡ true
      → get_codespace_last_used cs.name (sync_results remote rest t).database ≡ cs.last_used_at
  unfolding sync_results
  used_reached cs [] t (i, h) d c = cc h
  used_reached cs (g ∷ rest) t (zero, h) d c =
      used_stays cs rest (sync_result remote g t) d.1 (used-sync_result g cs.name t ∙ now)
    where
      same : g ≡ cs
      same = cc h

      now :
          (if is_copied remote g && g.name == cs.name
            then g.last_used_at
            else get_codespace_last_used cs.name t.database)
          ≡ cs.last_used_at
      now = rw same (rw (c, (eq_iff cs.name cs.name).1 refl))
  used_reached cs (g ∷ rest) t (suc i, h) (_, ds) c =
      used_reached cs rest (sync_result remote g t) (i, h) ds c

  failed-sync_result :
      (cs : CodespaceInfo) (t : Tally W)
      → (sync_result remote cs t).failed ≡ t.failed + (if is_copied remote cs then 0 else 1)
  unfolding sync_result sync_copy
  failed-sync_result cs t = elim (Bool-cases (is_copied remote cs)) [
    | inl e ↦ rw e (omega arith)
    | inr e ↦ rw e
  ]

  -- The loop counts the copies that fail.
  failed-sync_results :
      (rest : List CodespaceInfo) (t : Tally W)
      → (sync_results remote rest t).failed
        ≡ t.failed + length (keep (λ cs. not (is_copied remote cs)) rest)
  unfolding sync_results
  failed-sync_results [] t = omega arith
  failed-sync_results (cs ∷ rest) t =
      let one = failed-sync_result cs t in
      let later = failed-sync_results rest (sync_result remote cs t) in
      elim (Bool-cases (is_copied remote cs)) [
        | inl e ↦ later ∙ rw (one, e) (omega arith)
        | inr e ↦ later ∙ rw (one, e) (omega arith)
      ]

  -- Where codespaces are listed, the tick reports no error if the copy of every pending one comes
  -- about; otherwise the error says how many of them did not.
  pub tick_errors :
      (db : Database W) (codespaces : List CodespaceInfo)
      → list_codespaces remote.include_stopped remote.listed ≡ some codespaces
      → let (final, total, error) = sync_codespaces_to_db_tick remote db in
        let pending = pending_of remote db codespaces in
        let broken = keep (λ cs. not (is_copied remote cs)) pending in
        error ≡ (
          if ltb 0 (length broken)
          then some (incomplete (length broken) (length pending))
          else none)
  unfolding sync_codespaces_to_db_tick
  tick_errors db codespaces listed =
      let start : Tally W = record { database = db; total = 0; failed = 0 } in
      let broken = keep (λ cs. not (is_copied remote cs)) (pending_of remote db codespaces) in
      let count : (sync_results remote (pending_of remote db codespaces) start).failed
          ≡ length broken =
        failed-sync_results (pending_of remote db codespaces) start ∙ omega arith in
      rw (listed, count)

  recorded_skips :
      (final : Database W) (cs : CodespaceInfo) (next : Remote) (rest : List CodespaceInfo)
      → (cs.state == available) ≡ false
      → (cs.last_used_at == []) ≡ false
      → get_codespace_last_used cs.name final ≡ cs.last_used_at
      → pending_of next final (cs ∷ rest) ≡ pending_of next final rest
  unfolding pending_of is_unchanged
  recorded_skips final cs next rest stopped dated used =
      rw (stopped, dated, used, (eq_iff cs.last_used_at cs.last_used_at).1 refl)

  pending-IsDated :
      (cs : CodespaceInfo) (db : Database W) (all : List CodespaceInfo)
      → All (IsDated cs) all
      → All (IsDated cs) (pending_of remote db all)
  unfolding pending_of
  pending-IsDated cs db all h = keep-IsDated cs _ all h

  -- Where a stopped codespace with a date is pending and its copy comes about, and the listing has one
  -- date for its name: the next tick skips it, whatever it lists; a forced tick skips it too, since it looks
  -- at the codespace's date alike, so that to force a sync does not read a stopped codespace again.
  pub tick_settles :
      (db : Database W) (codespaces : List CodespaceInfo) (cs : CodespaceInfo) (next : Remote)
      (rest : List CodespaceInfo)
      → list_codespaces remote.include_stopped remote.listed ≡ some codespaces
      → In cs (pending_of remote db codespaces)
      → is_copied remote cs ≡ true
      → (cs.state == available) ≡ false
      → (cs.last_used_at == []) ≡ false
      → All (IsDated cs) codespaces
      → let final = (sync_codespaces_to_db_tick remote db).0 in
        pending_of next final (cs ∷ rest) ≡ pending_of next final rest
  unfolding sync_codespaces_to_db_tick
  tick_settles db codespaces cs next rest listed pending copied stopped dated dates =
      let start : Tally W = record { database = db; total = 0; failed = 0 } in
      rw listed (
        recorded_skips (sync_results remote (pending_of remote db codespaces) start).database cs
          next rest stopped dated
          (used_reached cs (pending_of remote db codespaces) start pending
            (pending-IsDated cs db codespaces dates) copied))
