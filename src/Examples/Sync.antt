-- ===== src/Examples/Sync.antt =====
-- The theorems of the sync at a directory with two logs.
use copilot_token_cost.Prelude.{
  ℕ, ◌≡◌, refl, true, false, none, [], ◌∷◌, codes, inr, bytes_beq, eq_iff, nat_eq,
}
use copilot_token_cost.Prelude.Maps.{lookup}
use copilot_token_cost.Costing.Normalize.{normalize_model}
use copilot_token_cost.Storage.{Database}
use copilot_token_cost.Storage.Calls.{prompt_text_for_storage}
use copilot_token_cost.Sync.Logs.{LogFile, Job, prepared, sync_logs_to_db, mtime_of, skips}
use copilot_token_cost.Sync.Logs.Failed.{skips_all, sync_failed}
use copilot_token_cost.Sync.Logs.Again.{HasDistinctNames}
use copilot_token_cost.Storage.Parsed.{parsed_mtime_by_file}
use copilot_token_cost.Sync.Logs.Twice.{sync_twice}
use copilot_token_cost.Examples.{whole_numbers, a_call, a_free_call}

abbrev first_log : LogFile
first_log = record {
  filename = codes "process-1.log";
  stat_fails = false;
  is_symlink = false;
  is_regular = true;
  mod_time = 1_750_000_000_000_000_000;
}

abbrev second_log : LogFile
second_log = record first_log { filename = codes "process-2.log" }

abbrev pub a_job : Job
a_job = record {
  records_of = λ file. a_call ∷ a_free_call ∷ [];
  normalize_model = normalize_model;
  prompt_text_for_storage = prompt_text_for_storage;
  files = first_log ∷ second_log ∷ [];
  workspaces = record { session_id = codes "s1"; cwd = codes "/work"; branch = codes "main" } ∷ [];
  force = false;
  source = codes "local";
  min_time = none;
  max_time = none;
  begins = true;
  commits = true;
}

abbrev pub empty : Database ℕ
empty = record {
  api_calls = [];
  parsed_logs = [];
  session_workspaces = [];
  codespace_sync_state = [];
}

abbrev a_failing_job : Job
a_failing_job = record a_job { commits = false }

failing_parses :
    skips_all a_failing_job
      (parsed_mtime_by_file (codes "local") (prepared a_failing_job empty))
      a_failing_job.files
    ≡ false
unfolding skips prepared parsed_mtime_by_file lookup
failing_parses = refl

sync_failed_example :
    (sync_logs_to_db a_failing_job empty ≡ (prepared a_failing_job empty, 0))
    × ((prepared a_failing_job empty).api_calls ≡ empty.api_calls)
    × (a_failing_job.force ≡ false → prepared a_failing_job empty ≡ empty)
sync_failed_example = sync_failed a_failing_job empty (inr refl) failing_parses

distinct_names : HasDistinctNames a_job.files
unfolding bytes_beq
distinct_names = ((refl, tt), (tt, tt))

same_mtime : (file : LogFile) → whole_numbers.eq (mtime_of file) (mtime_of file) ≡ true
same_mtime file = (eq_iff {A = ℕ} ⦃e = nat_eq⦄ (mtime_of file) (mtime_of file)).1 refl

sync_twice_example :
    let final = (sync_logs_to_db a_job empty).0 in sync_logs_to_db a_job final ≡ (final, 0)
sync_twice_example = sync_twice a_job empty refl refl refl distinct_names same_mtime
