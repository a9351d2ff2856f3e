-- ===== src/Storage/Parsed.antt =====
-- internal/storage/service.go: parsed_logs, session_workspaces and codespace_sync_state.
use copilot_token_cost.Prelude.{
  ℕ, Bool, not, ◌&&◌, none, some, List, [], ◌∷◌, ◌++◌, Bytes, keep, any, map, trim_space, ◌==◌,
  nat_eq, bytes_eq, if◌then◌else◌,
}
use copilot_token_cost.Prelude.Maps.{Map, insert}
use copilot_token_cost.Prelude.Floats.{Float64}
use copilot_token_cost.Storage.{ParsedLog, CodespaceState, Database}

abbrev pub first_used : List CodespaceState → Bytes
first_used [] = []
first_used (s ∷ rest) = s.last_used_at

module _ {ℓ} {W : Type ℓ} where
  -- PRIMARY KEY (log_file, source)
  abbrev pub is_log : Bytes → Bytes → ParsedLog W → Bool
  is_log log_file source p = p.log_file == log_file && p.source == source

  -- INSERT OR REPLACE: the row with that key goes, and the new one comes last.
  unfoldable pub mark_log_parsed : Bytes → W → ℕ → Bytes → Database W → Database W
  mark_log_parsed log_file mtime record_count source db = record db {
    parsed_logs =
        keep (λ p. not (is_log log_file source p)) db.parsed_logs
        ++ record {
          log_file = log_file;
          mtime = mtime;
          source = source;
          record_count = record_count;
        }
          ∷ [];
  }

  unfoldable pub is_log_parsed : ⦃f : Float64 W⦄ → Bytes → W → Bytes → Database W → Bool
  is_log_parsed ⦃f⦄ log_file mtime source db =
      any (λ p. is_log log_file source p && f.eq p.mtime mtime) db.parsed_logs

  unfoldable pub delete_parsed_logs_by_source : Bytes → Database W → Database W
  delete_parsed_logs_by_source source db = record db {
    parsed_logs = keep (λ p. not (p.source == source)) db.parsed_logs;
  }

  -- `parsedMtimeByFile[file] = mtime` for each row of the source.
  unfoldable pub mtimes_of : List (ParsedLog W) → Map Bytes W → Map Bytes W
  mtimes_of [] m = m
  mtimes_of (p ∷ ps) m = mtimes_of ps (insert p.log_file p.mtime m)

  unfoldable pub parsed_mtime_by_file : Bytes → Database W → Map Bytes W
  unfolding mtimes_of
  parsed_mtime_by_file source db = mtimes_of (keep (λ p. p.source == source) db.parsed_logs) []

  -- The keys of the map of known files.
  unfoldable pub known_log_files : Bytes → Database W → List Bytes
  known_log_files source db = map (λ p. p.log_file) (keep (λ p. p.source == source) db.parsed_logs)

  -- A blank branch is stored as NULL.
  unfoldable pub upsert_session_workspace : Bytes → Bytes → Bytes → Bytes → Database W → Database W
  upsert_session_workspace session_id cwd branch source db = record db {
    session_workspaces =
        keep (λ w. not (w.session_id == session_id && w.source == source)) db.session_workspaces
        ++ record {
          session_id = session_id;
          cwd = cwd;
          source = source;
          branch = if trim_space branch == [] then none else some branch;
        }
          ∷ [];
  }

  unfoldable pub clear_source : Bytes → Database W → Database W
  clear_source source db = record db {
    api_calls = keep (λ c. not (c.source == source)) db.api_calls;
    parsed_logs = keep (λ p. not (p.source == source)) db.parsed_logs;
    session_workspaces = keep (λ w. not (w.source == source)) db.session_workspaces;
  }

  -- No row is the empty text.
  unfoldable pub get_codespace_last_used : Bytes → Database W → Bytes
  get_codespace_last_used name db =
      first_used (keep (λ s. s.codespace_name == name) db.codespace_sync_state)

  unfoldable pub upsert_codespace_sync_state : Bytes → Bytes → Database W → Database W
  upsert_codespace_sync_state name last_used_at db = record db {
    codespace_sync_state =
        keep (λ s. not (s.codespace_name == name)) db.codespace_sync_state
        ++ record { codespace_name = name; last_used_at = last_used_at } ∷ [];
  }
