-- ===== src/Examples/Storage.antt =====
-- The theorems of the storage service at concrete tables.
use copilot_token_cost.Prelude.{◌+◌, ◌≡◌, List, [], ◌∷◌, Bytes, codes, length, keep, All}
use copilot_token_cost.Domain.{Record}
use copilot_token_cost.Costing.Normalize.{normalize_model}
use copilot_token_cost.Storage.{ApiCall}
use copilot_token_cost.Storage.Calls.{row_of, prompt_text_for_storage, upsert_records}
use copilot_token_cost.Storage.Resync.{find, resync}
use copilot_token_cost.Storage.Cleanup.{cleanup_rows}
use copilot_token_cost.Storage.Sound.{is_sole, IsWanted, is_good, cleanup_rows_lem}
use copilot_token_cost.Examples.{a_call, a_free_call}

abbrev local : Bytes
local = codes "local"

abbrev pub a_row : ApiCall
a_row = row_of normalize_model prompt_text_for_storage local a_call

-- The same call, before its model was known.
abbrev pub an_unknown_row : ApiCall
an_unknown_row = record a_row { model = codes "unknown"; model_normalized = codes "unknown" }

abbrev two_calls : List Record
two_calls = a_call ∷ a_free_call ∷ a_call ∷ []

resync_example :
    let once =
      upsert_records normalize_model prompt_text_for_storage local two_calls (a_row ∷ []) in
    let twice = upsert_records normalize_model prompt_text_for_storage local two_calls once in
    (length twice ≡ length once) × ((k : ApiCall) → find k twice ≡ find k once)
resync_example = resync normalize_model prompt_text_for_storage local two_calls (a_row ∷ [])

cleanup_rows_example :
    let (left, total) = cleanup_rows (an_unknown_row ∷ a_row ∷ []) in
    All (IsWanted left) left
    × (keep is_good left ≡ keep is_good (an_unknown_row ∷ a_row ∷ []))
    × (keep (is_sole (an_unknown_row ∷ a_row ∷ [])) left
        ≡ keep (is_sole (an_unknown_row ∷ a_row ∷ [])) (an_unknown_row ∷ a_row ∷ []))
    × (length left + total ≡ 2)
cleanup_rows_example = cleanup_rows_lem (an_unknown_row ∷ a_row ∷ [])
