-- ===== src/Examples/ImportExport.antt =====
-- The import at two small databases; a call of the second has no time.
use copilot_token_cost.Prelude.{
  ℕ, ◌≡◌, refl, true, none, some, ◌||◌, [], ◌∷◌, ◌++◌, codes, length, map, bytes_beq,
}
use copilot_token_cost.ImportExport.{
  StoredCall, StoredTables, Columns, same_stored_key, imported_call, insert_calls, insert_stored,
  import_sqlite_db,
}
use copilot_token_cost.ImportExport.Merged.{IsUnique, holds, Extends, keyless, import_sqlite_db_lem}

abbrev all_columns : Columns
all_columns = record {
  target_prompt_text = true;
  import_prompt_text = true;
  import_source = true;
  import_branch = true;
}

abbrev a_stored_call : StoredCall
a_stored_call = record {
  model = codes "gpt-5";
  model_normalized = codes "gpt-5";
  prompt_tokens = 100;
  completion_tokens = 20;
  prompt_text = none;
  cache_creation_tokens = none;
  cache_read_tokens = some 40;
  is_user_turn = some 1;
  timestamp = some (codes "2026-02-01T10:00:00");
  session_id = none;
  log_file = some (codes "process-1.log");
  source = some (codes "local");
}

abbrev held : StoredTables ℕ
held = record { api_calls = a_stored_call ∷ []; parsed_logs = []; session_workspaces = [] }

abbrev other : StoredTables ℕ
other = record held {
  api_calls = a_stored_call ∷ record a_stored_call { timestamp = none } ∷ [];
  parsed_logs =
      record {
        log_file = codes "process-1.log";
        mtime = 5;
        source = some (codes "local");
        record_count = some 2;
      }
      ∷ [];
}

abbrev imported_again : StoredTables ℕ
imported_again =
    (import_sqlite_db all_columns [] other (import_sqlite_db all_columns [] other held).0).0

-- The second import adds the call without a time again.
imported_twice : length imported_again.api_calls ≡ 3
unfolding import_sqlite_db insert_calls insert_stored imported_call same_stored_key bytes_beq
imported_twice = refl

import_sqlite_db_example :
    let (after, count) = import_sqlite_db all_columns [] other held in
    let calls = map (imported_call all_columns []) other.api_calls in
    IsUnique after.api_calls
    × Extends held.api_calls after.api_calls
    × ((k : StoredCall) → holds k after.api_calls ≡ (holds k held.api_calls || holds k calls))
    × ((import_sqlite_db all_columns [] other after).0.api_calls ≡ after.api_calls ++ keyless calls)
    × (count ≡ length other.parsed_logs)
import_sqlite_db_example = import_sqlite_db_lem all_columns [] other held (refl, tt)
