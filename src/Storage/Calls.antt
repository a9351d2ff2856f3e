-- ===== src/Storage/Calls.antt =====
-- internal/storage/service.go: the statements on api_calls that insert, count and clear.
use copilot_token_cost.Prelude.{
  ℕ, Bool, not, ◌&&◌, Option, none, some, List, [], ◌∷◌, ◌++◌, Bytes, length, keep, any, trim_space,
  ◌==◌, nat_eq, bytes_eq, if◌then◌else◌,
}
use copilot_token_cost.Domain.{Record}
use copilot_token_cost.Storage.{ApiCall, Database}

-- UNIQUE(timestamp, model, prompt_tokens, completion_tokens, log_file, source)
unfoldable pub same_call : ApiCall → ApiCall → Bool
same_call a b =
    a.timestamp == b.timestamp
    && a.model == b.model
    && a.prompt_tokens == b.prompt_tokens
    && a.completion_tokens == b.completion_tokens
    && a.log_file == b.log_file
    && a.source == b.source

-- main.go: `promptTextForStorage`; `none` is NULL.
unfoldable pub prompt_text_for_storage : Option Bytes → Option Bytes
prompt_text_for_storage none = none
prompt_text_for_storage (some text) =
    let trimmed = trim_space text in if trimmed == [] then none else some trimmed

-- The row that a record is bound to.
unfoldable pub row_of : (Bytes → Bytes) → (Option Bytes → Option Bytes) → Bytes → Record → ApiCall
row_of normalize prompt_text_for_record source r = record {
  model = r.model;
  model_normalized = normalize r.model;
  prompt_tokens = r.prompt_tokens;
  completion_tokens = r.completion_tokens;
  prompt_text = prompt_text_for_record r.prompt_text;
  cache_creation_tokens = r.cache_creation_tokens;
  cache_read_tokens = r.cache_read_tokens;
  is_user_turn = if r.is_user_turn then 1 else 0;
  timestamp = r.timestamp;
  session_id = r.session_id;
  log_file = r.log_file;
  source = source;
}

-- COALESCE(text, '')
abbrev pub coalesce : Option Bytes → Bytes
coalesce none = []
coalesce (some t) = t

-- ON CONFLICT … DO UPDATE SET: the old row and the row that was refused.
unfoldable pub on_conflict : ApiCall → ApiCall → ApiCall
on_conflict old excluded = record old {
  prompt_text =
      if coalesce old.prompt_text == [] && not (coalesce excluded.prompt_text == [])
      then excluded.prompt_text
      else old.prompt_text;
  session_id = if not (excluded.session_id == []) then excluded.session_id else old.session_id;
  is_user_turn = excluded.is_user_turn;
}

-- The statement of `BeginLogSyncTx`.
unfoldable pub upsert_call : ApiCall → List ApiCall → List ApiCall
upsert_call row [] = row ∷ []
upsert_call row (old ∷ rows) =
    if same_call old row then on_conflict old row ∷ rows else old ∷ upsert_call row rows

-- INSERT OR IGNORE, the statement of `InsertRecords`, which binds a value to each column of the constraint.
unfoldable pub insert_or_ignore : ApiCall → List ApiCall → List ApiCall
insert_or_ignore row rows = if any (λ old. same_call old row) rows then rows else rows ++ row ∷ []

module _ (normalize : Bytes → Bytes) (prompt_text_for_record : Option Bytes → Option Bytes) where
  -- `for … { InsertRecord(r) }` inside the transaction of a log sync.
  unfoldable pub upsert_records : Bytes → List Record → List ApiCall → List ApiCall
  upsert_records source [] rows = rows
  upsert_records source (r ∷ rs) rows =
      upsert_records source rs (upsert_call (row_of normalize prompt_text_for_record source r) rows)

  unfoldable pub insert_rows : Bytes → List Record → List ApiCall → List ApiCall
  insert_rows source [] rows = rows
  insert_rows source (r ∷ rs) rows =
      insert_rows source rs
        (insert_or_ignore (row_of normalize prompt_text_for_record source r) rows)

  -- `InsertRecords`, where the transaction begins and its statement is prepared.
  unfoldable pub insert_records {ℓ} : {W : Type ℓ} → List Record → Bytes → Database W → Database W
  insert_records records source db = record db {
    api_calls = insert_rows source records db.api_calls;
  }

-- SELECT COUNT(*) FROM api_calls WHERE source = ?
unfoldable pub count_api_calls_by_source {ℓ} : {W : Type ℓ} → Bytes → Database W → ℕ
count_api_calls_by_source source db = length (keep (λ c. c.source == source) db.api_calls)
