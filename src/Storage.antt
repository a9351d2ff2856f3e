-- ===== src/Storage.antt =====
-- internal/storage/service.go: the tables of the database and the statements that change them.
-- A statement is what its SQL says; the engine that runs it is not modelled. Tables are lists of rows in
-- the order of their insertion; `id`, `parsed_at` and `last_synced_at`, which nothing reads, are left out.
pub mod Calls
pub mod Parsed
pub mod Cleanup
pub mod Unique
pub mod Resync
pub mod Sound
use copilot_token_cost.Prelude.{
  ℕ, Bool, true, false, Option, none, some, List, [], ◌∷◌, Bytes, if◌then◌else◌,
}

-- A row of api_calls in which no column but the prompt is NULL, as the sync of the logs writes them: it binds a
-- value to each. A NULL in the others, which an imported file can bring, is outside the model.
pub record ApiCall : Type 0 where
  pub model : Bytes
  pub model_normalized : Bytes
  pub prompt_tokens : ℕ
  pub completion_tokens : ℕ
  pub prompt_text : Option Bytes
  pub cache_creation_tokens : ℕ
  pub cache_read_tokens : ℕ
  pub is_user_turn : ℕ
  pub timestamp : Bytes
  pub session_id : Bytes
  pub log_file : Bytes
  pub source : Bytes

-- A row of parsed_logs; `mtime` is a float.
pub record ParsedLog {ℓ} (W : Type ℓ) : Type ℓ where
  pub log_file : Bytes
  pub mtime : W
  pub source : Bytes
  pub record_count : ℕ

-- A row of session_workspaces.
pub record SessionWorkspace : Type 0 where
  pub session_id : Bytes
  pub cwd : Bytes
  pub source : Bytes
  pub branch : Option Bytes

-- A row of codespace_sync_state.
pub record CodespaceState : Type 0 where
  pub codespace_name : Bytes
  pub last_used_at : Bytes

pub record Database {ℓ} (W : Type ℓ) : Type ℓ where
  pub api_calls : List ApiCall
  pub parsed_logs : List (ParsedLog W)
  pub session_workspaces : List SessionWorkspace
  pub codespace_sync_state : List CodespaceState
