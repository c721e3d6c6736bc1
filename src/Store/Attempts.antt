-- ===== src/Store/Attempts.antt =====
-- The tables managed_cards, card_runtime, card_attempts and attempt_metrics of
-- hollysys_controller/store.py: the cards of a run, what runs on each of them now, and each attempt.
pub mod Events
pub mod Recording
pub mod Watchdog
pub mod History
pub mod Numbering
pub mod Writes
pub mod Steps
pub mod Finished
pub mod Redispatch
pub mod Counted
use hermes_agents_by_kanban.Prelude.{
  ℕ, suc, max, String, Bool, true, false, ◌&&◌, Option, none, some, List, [], ◌∷◌, ◌==◌, ltb,
  if◌then◌else◌, text_eq, pair_eq,
}
use hermes_agents_by_kanban.Table.{Table, lookup, put}
use hermes_agents_by_kanban.Exec.{Exec}

-- The value of the column status of card_attempts.
pub data AttemptStatus : Type 0 where
  running exited reclaimed blocked completion_recorded : AttemptStatus
  crashed rate_limited timed_out gave_up spawn_auto_blocked : AttemptStatus

-- CREATE TABLE card_attempts, keyed by run_id; the columns profile and dispatch_key, which no method
-- writes, are left out.
pub record CardAttempt : Type 0 where
  pub board : String
  pub card_id : String
  pub run_key : String
  pub attempt : ℕ
  pub worker_pid : Option ℕ
  pub worker_session_id : Option String
  pub started_at : Option ℕ
  pub blocked_at : Option ℕ
  pub completion_at : Option ℕ
  pub exited_at : Option ℕ
  pub last_heartbeat_at : Option ℕ
  pub last_progress_at : Option ℕ
  pub status : AttemptStatus
  pub terminal_reason : Option String
  pub recovery_reason : Option String
  pub redispatched_from_run_id : Option String
  pub created_at : ℕ
  pub updated_at : ℕ

-- CREATE TABLE card_runtime, keyed by board and card_id
pub record CardRuntime : Type 0 where
  pub profile : Option String
  pub dispatch_key : Option String
  pub worker_pid : Option ℕ
  pub worker_started_at : Option ℕ
  pub worker_session_id : Option String
  pub last_heartbeat_at : Option ℕ
  pub last_progress_event_at : Option ℕ
  pub deadline_at : Option ℕ
  pub last_event_kind : Option String
  pub attempt : ℕ
  pub redispatch_count : ℕ
  pub worktree : Option String
  pub branch : Option String
  pub mr_iid : Option ℕ
  pub head_sha : Option String
  pub attempt_status : String
  pub finished_at : Option ℕ
  pub terminal_reason : Option String
  pub updated_at : ℕ

-- CREATE TABLE managed_cards, keyed by board and card_id
pub record ManagedCard : Type 0 where
  pub run_key : String
  pub stage : String
  pub iteration : ℕ
  pub idempotency_key : String
  pub parent_card_id : Option String
  pub purpose : String
  pub created_at : ℕ

-- CREATE TABLE attempt_metrics, keyed by run_id and metric
pub record AttemptMetric : Type 0 where
  pub duration_ms : ℕ
  pub summary : Option String
  pub recorded_at : ℕ

-- `run_keys` are the keys of the table runs.
pub record CardStore : Type 0 where
  pub run_keys : List String
  pub managed_cards : Table (String × String) ManagedCard
  pub card_runtime : Table (String × String) CardRuntime
  pub card_attempts : Table String CardAttempt
  pub attempt_metrics : Table (String × String) AttemptMetric

pub data AttemptError : Type 0 where
  unknown_managed_card unknown_card_runtime : String → String → AttemptError
  attempt_run_id_conflict : String → AttemptError
  constraint_failed : String → AttemptError

abbrev pub AttemptExec : Type 0 → Type 0
AttemptExec A = Exec AttemptError CardStore A

-- WHERE board=? AND card_id=?
abbrev pub is_of_card : String → String → CardAttempt → Bool
is_of_card board card_id row = row.board == board && row.card_id == card_id

-- SELECT MAX(attempt) ... WHERE board=? AND card_id=?, or 0
unfoldable pub last_attempt : String → String → Table String CardAttempt → ℕ
last_attempt board card_id [] = 0
last_attempt board card_id ((run_id, row) ∷ rows) =
    let rest = last_attempt board card_id rows in
    if is_of_card board card_id row then max row.attempt rest else rest

-- The row with the larger attempt; of equals, the first.
abbrev pub later_row :
    String × CardAttempt → Option (String × CardAttempt) → Option (String × CardAttempt)
later_row r none = some r
later_row r (some q) = if ltb r.1.attempt q.1.attempt then some q else some r

-- ORDER BY attempt DESC LIMIT 1, of the rows of the card that pass `test`
unfoldable pub latest_where :
    (String → CardAttempt → Bool)
    → String
    → String
    → Table String CardAttempt
    → Option (String × CardAttempt)
latest_where test board card_id [] = none
latest_where test board card_id ((run_id, row) ∷ rows) =
    let rest = latest_where test board card_id rows in
    if is_of_card board card_id row && test run_id row then later_row (run_id, row) rest else rest

unfoldable pub current_attempt :
    String → String → Table String CardAttempt → Option (String × CardAttempt)
current_attempt = latest_where (λ run_id row. true)

unfoldable pub card_runtime : String → String → CardStore → Option CardRuntime
card_runtime board card_id s = lookup (board, card_id) s.card_runtime

unfoldable pub put_runtime : String → String → CardRuntime → CardStore → CardStore
put_runtime board card_id row s = record s {
  card_runtime = put (board, card_id) row s.card_runtime;
}

unfoldable pub put_attempt : String → CardAttempt → CardStore → CardStore
put_attempt run_id row s = record s { card_attempts = put run_id row s.card_attempts }

unfoldable pub put_metric : String → String → AttemptMetric → CardStore → CardStore
put_metric run_id metric row s = record s {
  attempt_metrics = put (run_id, metric) row s.attempt_metrics;
}
