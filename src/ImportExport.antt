-- ===== src/ImportExport.antt =====
-- import_export.go: `importSQLiteDB`, which copies the tables of another database file. Its statements are
-- what their SQL says and do not fail; the rows of a SELECT come in the order of the table. A column that may
-- be NULL is an Option here, since the other file need not be one that this program wrote.
pub mod Merged
use copilot_token_cost.Prelude.{
  ℕ, Bool, true, false, not, ◌&&◌, Option, none, some, List, [], ◌∷◌, ◌++◌, Bytes, codes, length,
  keep, map, any, ◌==◌, nat_eq, bytes_eq, if◌then◌else◌,
}
use copilot_token_cost.Prelude.Patterns.{or_else}

pub record StoredCall : Type 0 where
  pub model : Bytes
  pub model_normalized : Bytes
  pub prompt_tokens : ℕ
  pub completion_tokens : ℕ
  pub prompt_text : Option Bytes
  pub cache_creation_tokens : Option ℕ
  pub cache_read_tokens : Option ℕ
  pub is_user_turn : Option ℕ
  pub timestamp : Option Bytes
  pub session_id : Option Bytes
  pub log_file : Option Bytes
  pub source : Option Bytes

pub record StoredWorkspace : Type 0 where
  pub session_id : Bytes
  pub cwd : Bytes
  pub source : Option Bytes
  pub branch : Option Bytes

-- `parsed_at` is left out; `mtime` is a float.
pub record StoredLog {ℓ} (W : Type ℓ) : Type ℓ where
  pub log_file : Bytes
  pub mtime : W
  pub source : Option Bytes
  pub record_count : Option ℕ

-- The tables that an import reads and writes.
pub record StoredTables {ℓ} (W : Type ℓ) : Type ℓ where
  pub api_calls : List StoredCall
  pub session_workspaces : List StoredWorkspace
  pub parsed_logs : List (StoredLog W)

-- Equality in a constraint: a NULL is equal to nothing, not even to a NULL.
abbrev pub sql_eq : Option Bytes → Option Bytes → Bool
sql_eq none other = false
sql_eq (some a) none = false
sql_eq (some a) (some b) = a == b

-- UNIQUE(timestamp, model, prompt_tokens, completion_tokens, log_file, source)
unfoldable pub same_stored_key : StoredCall → StoredCall → Bool
same_stored_key a b =
    sql_eq a.timestamp b.timestamp
    && a.model == b.model
    && a.prompt_tokens == b.prompt_tokens
    && a.completion_tokens == b.completion_tokens
    && sql_eq a.log_file b.log_file
    && sql_eq a.source b.source

-- The columns that the tables of the two databases have: those of older files have fewer.
pub record Columns : Type 0 where
  pub target_prompt_text : Bool
  pub import_prompt_text : Bool
  pub import_source : Bool
  pub import_branch : Bool

-- `sourceOverride`, which is empty where there is none.
abbrev pub source_or : Bytes → Option Bytes → Option Bytes
source_or source_override source = if source_override == [] then source else some source_override

-- A row of the SELECT on api_calls.
unfoldable pub imported_call : Columns → Bytes → StoredCall → StoredCall
imported_call columns source_override a = record a {
  source = source_or source_override a.source;
  prompt_text =
      if columns.target_prompt_text && columns.import_prompt_text then a.prompt_text else none;
}

unfoldable pub imported_workspace : Columns → Bytes → StoredWorkspace → StoredWorkspace
imported_workspace columns source_override w =
    let local = some (codes "local") in
    record w {
      source =
          source_or source_override
            (if columns.import_source then or_else w.source local else local);
      branch = if columns.import_branch then w.branch else none;
    }

unfoldable pub imported_log {ℓ} : {W : Type ℓ} → Bytes → StoredLog W → StoredLog W
imported_log source_override p = record p { source = source_or source_override p.source }

-- INSERT OR IGNORE of one row.
unfoldable pub insert_stored : StoredCall → List StoredCall → List StoredCall
insert_stored row rows =
    if any (λ old. same_stored_key old row) rows then rows else rows ++ row ∷ []

-- INSERT OR IGNORE … SELECT
unfoldable pub insert_calls : List StoredCall → List StoredCall → List StoredCall
insert_calls [] rows = rows
insert_calls (a ∷ calls) rows = insert_calls calls (insert_stored a rows)

-- PRIMARY KEY (session_id, source)
abbrev pub is_session : StoredWorkspace → StoredWorkspace → Bool
is_session w old = old.session_id == w.session_id && sql_eq old.source w.source

-- INSERT OR REPLACE … SELECT: the row with the key goes, and the new one comes last.
unfoldable pub replace_workspaces :
    List StoredWorkspace → List StoredWorkspace → List StoredWorkspace
replace_workspaces [] rows = rows
replace_workspaces (w ∷ workspaces) rows =
    replace_workspaces workspaces (keep (λ old. not (is_session w old)) rows ++ w ∷ [])

-- PRIMARY KEY (log_file, source)
abbrev pub is_stored_log {ℓ} : {W : Type ℓ} → StoredLog W → StoredLog W → Bool
is_stored_log p old = old.log_file == p.log_file && sql_eq old.source p.source

unfoldable pub replace_logs {ℓ} :
    {W : Type ℓ} → List (StoredLog W) → List (StoredLog W) → List (StoredLog W)
replace_logs [] rows = rows
replace_logs (p ∷ logs) rows =
    replace_logs logs (keep (λ old. not (is_stored_log p old)) rows ++ p ∷ [])

-- The database behind the call, and `SELECT changes()`, which is the number of rows that the last statement
-- inserted.
unfoldable pub import_sqlite_db {ℓ} :
    {W : Type ℓ} → Columns → Bytes → StoredTables W → StoredTables W → StoredTables W × ℕ
import_sqlite_db columns source_override imported db = (
  record {
    api_calls =
        insert_calls (map (imported_call columns source_override) imported.api_calls) db.api_calls;
    session_workspaces =
        replace_workspaces
          (map (imported_workspace columns source_override) imported.session_workspaces)
          db.session_workspaces;
    parsed_logs =
        replace_logs (map (imported_log source_override) imported.parsed_logs) db.parsed_logs;
  },
  length imported.parsed_logs,
)
