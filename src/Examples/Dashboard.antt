-- ===== src/Examples/Dashboard.antt =====
-- The theorems of the dashboard at a few events and delays.
use copilot_token_cost.Prelude.{
  ◌≡◌, ◌↔◌, inr, refl, All, true, false, none, List, [], ◌∷◌, codes, nat_eq,
}
use copilot_token_cost.Prelude.Maps.{lookup, insert}
use copilot_token_cost.Dashboard.Subscribers.{
  Event, subscribed, unsubscribed, broadcasted, read_by, after_events,
}
use copilot_token_cost.Dashboard.Subscribers.Latest.{view, after_events_lem}
use copilot_token_cost.Dashboard.Watch.{
  Logs, found, Look, Watch, scan_from, scan_local_process_logs, watch_pass, run_passes,
}
use copilot_token_cost.Dashboard.Watch.Changes.{HasSameLogs}
use copilot_token_cost.Dashboard.Watch.Passes.{Sees, refresh_called_iff, no_second_refresh}
use copilot_token_cost.Dashboard.Sync.{SyncState, directory, tick_failed, sync_codespaces_snapshot}
use copilot_token_cost.Dashboard.Sync.Settled.{IsSettled}
use copilot_token_cost.Dashboard.Sync.Actions.{codespaces-IsSettled}

abbrev some_events : List Event
some_events =
    broadcasted (λ ch. true) (codes "three")
    ∷ unsubscribed 0
    ∷ broadcasted (λ ch. false) (codes "two")
    ∷ subscribed
    ∷ read_by 0
    ∷ broadcasted (λ ch. false) (codes "one")
    ∷ subscribed
    ∷ []

after_events_example : lookup 1 (after_events some_events).buffers ≡ view 1 some_events
after_events_example = after_events_lem 1 some_events

abbrev not_synced : SyncState
not_synced = record {
  locked = false;
  sync_status = [];
  snapshot_status = none;
  has_success = true;
  last_success = none;
}

codespaces-IsSettled_example : IsSettled (codes "codespaces") not_synced (
    sync_codespaces_snapshot
      (codes "now")
      (codes "auto")
      false
      none
      (tick_failed (codes "timed out"))
      not_synced)
codespaces-IsSettled_example =
    codespaces-IsSettled (codes "now") (codes "auto") false none (tick_failed (codes "timed out"))
      not_synced

abbrev one_log : Logs
one_log = (codes "process-1.log", record { size = 10; mtime = 5 }) ∷ []

-- A pass that finds another sync in progress.
abbrev busy_look : Look
busy_look = record {
  print_int = λ n. codes "1";
  stamp = λ t. codes "2026-02-01T10:00:00Z";
  now = codes "now";
  tick = codes "2026-02-01T10:00:05Z";
  sample_hash = λ path. inr (codes "h");
  logs_dir = codes "/logs";
  matches = inr ((codes "process-1.log", found false true (record { size = 10; mtime = 5 })) ∷ []);
  ping = none;
  stat = directory;
  busy = true;
}

abbrev empty_watch : Watch
empty_watch = record {
  local_stream = [];
  local_chunk_at = [];
  rows = [];
  sync = not_synced;
  indicators = [];
}

busy_scan : scan_local_process_logs busy_look.matches ≡ inr one_log
unfolding scan_local_process_logs scan_from insert
busy_scan = refl

refresh_called_iff_example :
    ((watch_pass busy_look empty_watch).1 ≡ none) ↔ HasSameLogs empty_watch.local_stream one_log
refresh_called_iff_example = refresh_called_iff busy_look empty_watch one_log tt busy_scan

abbrev free_look : Look
free_look = record busy_look { busy = false }

free_look-Sees : Sees one_log free_look
free_look-Sees = (one_log, busy_scan, λ path. refl)

no_second_refresh_example :
    All
      (λ called. called ≡ none)
      (run_passes (free_look ∷ free_look ∷ []) (watch_pass busy_look empty_watch).0).1
no_second_refresh_example =
    no_second_refresh busy_look (free_look ∷ free_look ∷ []) empty_watch one_log busy_scan
      (free_look-Sees, (free_look-Sees, tt))
