-- ===== src/Examples/Cards.antt =====
-- A card whose worker is reclaimed and redispatched (hollysys_controller/store.py).
use hermes_agents_by_kanban.Prelude.{◌≡◌, refl, none, some, [], ◌∷◌, text_eq, pair_eq, arith}
use hermes_agents_by_kanban.Table.{lookup}
use hermes_agents_by_kanban.Store.Attempts.{
  CardRuntime, ManagedCard, CardStore, card_runtime, current_attempt, latest_where,
}
use hermes_agents_by_kanban.Store.Attempts.Events.{
  EventKind, claimed, heartbeat, reclaimed, CardEvent,
}
use hermes_agents_by_kanban.Store.Attempts.Recording.{
  is_new_session, record_card_runtime_event, new_attempt_row,
}
use hermes_agents_by_kanban.Store.Attempts.Watchdog.{update_worker_watchdog}
use hermes_agents_by_kanban.Store.Attempts.History.{AllContinue}
use hermes_agents_by_kanban.Store.Attempts.Numbering.{IsNumbered}
use hermes_agents_by_kanban.Store.Attempts.Steps.{
  CardSteps, here, happened, watched, CardSteps-AllContinue, CardSteps-IsNumbered,
}
use hermes_agents_by_kanban.Store.Attempts.Finished.{late_event_ignored}
use hermes_agents_by_kanban.Store.Attempts.Counted.{watchdog_counts_once, redispatch_count_of}
use mathlib.Core.Bool.{true}

abbrev card : ManagedCard
card = record {
  run_key = "run";
  stage = "implement";
  iteration = 1;
  idempotency_key = "run:implement:1";
  parent_card_id = none;
  purpose = "work";
  created_at = 5;
}

abbrev no_attempts : CardStore
no_attempts = record {
  run_keys = "run" ∷ [];
  managed_cards = (("app", "c-1"), card) ∷ [];
  card_runtime = [];
  card_attempts = [];
  attempt_metrics = [];
}

abbrev event : EventKind → CardEvent
event kind = record {
  board = "app";
  card_id = "c-1";
  kind = kind;
  created_at = 10;
  worker_session_id = some "kanban-run:1";
  worker_pid = some 100;
  lease_seconds = 60;
  run_id = some "app:1";
  runtime_metrics = [];
  summary = none;
}

abbrev claimed_store : CardStore
claimed_store = (record_card_runtime_event 11 (event claimed) no_attempts).1

abbrev reclaimed_store : CardStore
reclaimed_store = (record_card_runtime_event 70 (event reclaimed) claimed_store).1

abbrev watched_store : CardStore
watched_store =
    (update_worker_watchdog 80 "app" "c-1" "redispatched" (some 60) (some "stale") true
      reclaimed_store).1

card_history : CardSteps no_attempts watched_store
card_history =
    watched 80 "app" "c-1" "redispatched" (some 60) (some "stale") true
      (happened 70 (event reclaimed) (happened 11 (event claimed) here))

no_attempts-IsNumbered : IsNumbered no_attempts.card_attempts
unfolding lookup
no_attempts-IsNumbered = record { distinct = λ i j row q e f b c a. ground arith }

CardSteps-AllContinue_example : AllContinue no_attempts.card_attempts watched_store.card_attempts
CardSteps-AllContinue_example = CardSteps-AllContinue card_history

CardSteps-IsNumbered_example : IsNumbered watched_store.card_attempts
CardSteps-IsNumbered_example = CardSteps-IsNumbered card_history no_attempts-IsNumbered

abbrev finished_row : CardRuntime
finished_row = record {
  profile = none;
  dispatch_key = none;
  worker_pid = some 100;
  worker_started_at = some 10;
  worker_session_id = some "kanban-run:1";
  last_heartbeat_at = none;
  last_progress_event_at = some 10;
  deadline_at = some 70;
  last_event_kind = some "reclaimed";
  attempt = 1;
  redispatch_count = 0;
  worktree = none;
  branch = none;
  mr_iid = none;
  head_sha = none;
  attempt_status = "finished";
  finished_at = some 10;
  terminal_reason = some "reclaimed";
  updated_at = 70;
}

abbrev finished_store : CardStore
finished_store = record no_attempts { card_runtime = (("app", "c-1"), finished_row) ∷ [] }

late_event_ignored_example :
    (record_card_runtime_event 75 (event heartbeat) finished_store).1.card_runtime
    ≡ finished_store.card_runtime
unfolding card_runtime lookup is_new_session
late_event_ignored_example =
    late_event_ignored 75 (event heartbeat) finished_row finished_store refl refl refl refl

abbrev attempted_store : CardStore
attempted_store = record finished_store {
  card_attempts = ("app:1", new_attempt_row 11 (event claimed) "run" 1) ∷ [];
}

watchdog_counts_once_example :
    redispatch_count_of (
      card_runtime "app" "c-1"
        (update_worker_watchdog 90 "app" "c-1" "redispatched" none
          (some "again")
          true
          (update_worker_watchdog 80 "app" "c-1" "stale"
            (some 60)
            (some "stale")
            true
            attempted_store).1).1)
    ≡ redispatch_count_of (
        card_runtime "app" "c-1"
          (update_worker_watchdog 80 "app" "c-1" "stale"
            (some 60)
            (some "stale")
            true
            attempted_store).1)
unfolding current_attempt latest_where new_attempt_row
watchdog_counts_once_example =
    watchdog_counts_once 80 90 "app" "c-1" "stale" "redispatched" (some 60) none (some "stale")
      (some "again") attempted_store refl
