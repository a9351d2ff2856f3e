-- ===== src/Sync/Logs.antt =====
-- internal/sync/service.go: `SyncLogsToDB`. Times are nanoseconds since 1970. The directory, the parser,
-- the session files and the faults of the database are arguments; messages are left out.
pub mod Failed
pub mod Unique
pub mod Again
pub mod Twice
use copilot_token_cost.Prelude.{
  ℕ, zero, suc, ◌+◌, ◌/◌, Bool, true, false, not, ◌&&◌, ◌||◌, Option, none, some, List, [], ◌∷◌,
  Bytes, length, ltb, ◌==◌, bytes_eq, if◌then◌else◌,
}
use copilot_token_cost.Prelude.Maps.{Map, lookup}
use copilot_token_cost.Prelude.Floats.{Float64}
use copilot_token_cost.Domain.{Record}
use copilot_token_cost.Storage.{Database}
use copilot_token_cost.Storage.Calls.{upsert_records}
use copilot_token_cost.Storage.Parsed.{
  mark_log_parsed, delete_parsed_logs_by_source, parsed_mtime_by_file, upsert_session_workspace,
}
use copilot_token_cost.Storage.Cleanup.{cleanup_unknown_duplicates}

-- What `os.Lstat` says of a match of process-*.log; `stat_fails` stands for its error.
pub record LogFile : Type 0 where
  pub filename : Bytes
  pub stat_fails : Bool
  pub is_symlink : Bool
  pub is_regular : Bool
  pub mod_time : ℕ

pub record WorkspaceMeta : Type 0 where
  pub session_id : Bytes
  pub cwd : Bytes
  pub branch : Bytes

-- The dependencies that main.go sets, and the arguments of the call.
pub record Job : Type 0 where
  -- ParseLogFileInRange, at the timestamps of the window, and ReattributeUserTurns behind it
  pub records_of : LogFile → List Record
  pub normalize_model : Bytes → Bytes
  pub prompt_text_for_storage : Option Bytes → Option Bytes
  -- the sorted matches, and what LoadSessionWorkspaces finds
  pub files : List LogFile
  pub workspaces : List WorkspaceMeta
  pub force : Bool
  pub source : Bytes
  pub min_time : Option ℕ
  pub max_time : Option ℕ
  -- whether `BeginLogSyncTx` and `Commit` succeed
  pub begins : Bool
  pub commits : Bool

-- The variables of the loop: the database as the open transaction sees it, if there is one.
pub record Progress {ℓ} (W : Type ℓ) : Type ℓ where
  pub tx : Option (Database W)
  pub total_inserted : ℕ
  pub parsed_count : ℕ

abbrev pub before : ℕ → Option ℕ → Bool
before t none = false
before t (some min) = ltb t min

abbrev pub not_before : ℕ → Option ℕ → Bool
not_before t none = false
not_before t (some max) = not (ltb t max)

module _ {ℓ} {W : Type ℓ} ⦃f : Float64 W⦄ where
  -- `float64(info.ModTime().UnixMilli()) / 1000.0`
  unfoldable pub mtime_of : LogFile → W
  mtime_of file = f.div (f.of_int (file.mod_time / 1_000_000)) (f.of_int 1000)

  abbrev pub is_parsed_at : W → Option W → Bool
  is_parsed_at mtime none = false
  is_parsed_at mtime (some parsed) = f.eq parsed mtime

  -- The conditions under which the loop goes on to the next file.
  unfoldable pub skips : Job → Map Bytes W → LogFile → Bool
  skips job parsed file =
      file.stat_fails
      || file.is_symlink
      || not file.is_regular
      || (not job.force
          && (before file.mod_time job.min_time || not_before file.mod_time job.max_time))
      || (not job.force && is_parsed_at (mtime_of file) (lookup file.filename parsed))

  -- The body of the loop for a file that is parsed, in the transaction.
  unfoldable pub parse_file : Job → LogFile → Database W → Database W
  parse_file job file db =
      let records = job.records_of file in
      let inserted = record db {
        api_calls =
            upsert_records job.normalize_model job.prompt_text_for_storage job.source records
              db.api_calls;
      } in
      mark_log_parsed file.filename (mtime_of file) (length records) job.source inserted

  abbrev pub database_of : Database W → Option (Database W) → Database W
  database_of db none = db
  database_of db (some tx) = tx

  abbrev pub is_open : Option (Database W) → Bool
  is_open none = false
  is_open (some tx) = true

  -- The loop over the matches; `none` is the return where no transaction can be begun.
  unfoldable pub sync_files :
      Job → Map Bytes W → Database W → List LogFile → Progress W → Option (Progress W)
  sync_files job parsed db [] p = some p
  sync_files job parsed db (file ∷ files) p =
      let next = sync_files job parsed db files p in
      let done = sync_files job parsed db files (record {
        tx = some (parse_file job file (database_of db p.tx));
        total_inserted = p.total_inserted + length (job.records_of file);
        parsed_count = p.parsed_count + 1;
      }) in
      if skips job parsed file then next else (if is_open p.tx || job.begins then done else none)

  unfoldable pub upsert_workspaces : Bytes → List WorkspaceMeta → Database W → Database W
  upsert_workspaces source [] db = db
  upsert_workspaces source (w ∷ ws) db =
      upsert_workspaces source ws (upsert_session_workspace w.session_id w.cwd w.branch source db)

  -- Behind the loop, once the transaction is done with.
  unfoldable pub finish : Job → ℕ → ℕ → Database W → Database W × ℕ
  finish job parsed_count total db =
      let with_workspaces =
        if ltb 0 parsed_count then upsert_workspaces job.source job.workspaces db else db in
      ((cleanup_unknown_duplicates with_workspaces).0, total)

  -- A transaction that cannot be committed is rolled back.
  abbrev pub close : Job → Database W → Progress W → Option (Database W) → Database W × ℕ
  close job db p none = finish job p.parsed_count p.total_inserted db
  close job db p (some tx) =
      if job.commits then finish job p.parsed_count p.total_inserted tx else (db, 0)

  abbrev pub conclude : Job → Database W → Option (Progress W) → Database W × ℕ
  conclude job db none = (db, 0)
  conclude job db (some p) = close job db p p.tx

  -- The database when the loop begins.
  unfoldable pub prepared : Job → Database W → Database W
  prepared job db = if job.force then delete_parsed_logs_by_source job.source db else db

  -- The database after the call, and the number that it returns.
  unfoldable pub sync_logs_to_db : Job → Database W → Database W × ℕ
  sync_logs_to_db job db =
      let start = prepared job db in
      let parsed = if job.force then [] else parsed_mtime_by_file job.source start in
      conclude job start (
        sync_files job parsed start job.files
          (record { tx = none; total_inserted = 0; parsed_count = 0 }))
