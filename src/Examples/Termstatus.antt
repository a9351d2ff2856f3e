-- ===== src/Examples/Termstatus.antt =====
-- The theorems of the status line at a few calls.
use copilot_token_cost.Prelude.{◌≡◌, true, false, List, [], ◌∷◌, codes}
use copilot_token_cost.Termstatus.{Renderer, errors, Call, progress, info, close, new, run}
use copilot_token_cost.Termstatus.Modes.{IsRendered, run_closes}

abbrev three_calls : List Call
three_calls =
    progress (codes "syncing 1/2") 0 ∷ progress (codes "syncing 2/2") 5 ∷ info (codes "done") ∷ []

run_closes_example :
    let r = run three_calls (new (codes "compact") true) in
    IsRendered r × ((close r).progress_active ≡ false) × (close (close r) ≡ close r)
run_closes_example = run_closes (codes "compact") true three_calls

abbrev quiet : Renderer
quiet = record (new [] true) { mode = errors }
