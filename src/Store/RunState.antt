-- ===== src/Store/RunState.antt =====
-- RUN_STATES and TERMINAL_RUN_STATES of hollysys_controller/store.py, and the sets of states that
-- its methods test against.
use hermes_agents_by_kanban.Prelude.{Bool, true, false, String}

-- The text in the column `state`. `other` is a text that is none of RUN_STATES.
pub data RunState : Type 0 where
  active transition_pending human_blocked retry_wait dependency_degraded merge_wait : RunState
  abort_requested aborting exception : RunState
  completed completed_ready completed_with_findings completed_test_failed : RunState
  aborted completed_before_abort : RunState
  other : String → RunState

-- TERMINAL_RUN_STATES
abbrev pub is_terminal : RunState → Bool
is_terminal completed = true
is_terminal completed_ready = true
is_terminal completed_with_findings = true
is_terminal completed_test_failed = true
is_terminal aborted = true
is_terminal completed_before_abort = true
is_terminal _ = false

-- RUN_STATES
abbrev pub is_run_state : RunState → Bool
is_run_state (other _) = false
is_run_state _ = true

-- The states from which a delivery can be completed, less `exception`.
abbrev pub is_unfinished : RunState → Bool
is_unfinished active = true
is_unfinished transition_pending = true
is_unfinished human_blocked = true
is_unfinished retry_wait = true
is_unfinished dependency_degraded = true
is_unfinished merge_wait = true
is_unfinished _ = false

-- The expected states of `mark_completed`.
abbrev pub is_completable : RunState → Bool
is_completable exception = true
is_completable s = is_unfinished s

-- The terminal states of the code flow.
abbrev pub is_flow_completed : RunState → Bool
is_flow_completed completed_ready = true
is_flow_completed completed_with_findings = true
is_flow_completed completed_test_failed = true
is_flow_completed _ = false

-- The states that `active_reconcile_run_keys` selects.
abbrev pub is_reconciled : RunState → Bool
is_reconciled active = true
is_reconciled transition_pending = true
is_reconciled retry_wait = true
is_reconciled dependency_degraded = true
is_reconciled merge_wait = true
is_reconciled _ = false

-- The states from which an abort can be requested and confirmed.
abbrev pub is_abortable : RunState → Bool
is_abortable active = true
is_abortable dependency_degraded = true
is_abortable merge_wait = true
is_abortable exception = true
is_abortable _ = false

-- An abort that has been confirmed and has not ended.
abbrev pub is_abort_open : RunState → Bool
is_abort_open abort_requested = true
is_abort_open aborting = true
is_abort_open _ = false

-- The two ends of an abort.
abbrev pub is_abort_ended : RunState → Bool
is_abort_ended aborted = true
is_abort_ended completed_before_abort = true
is_abort_ended _ = false

-- The states that wait for the time `next_retry_at`.
abbrev pub is_waiting : RunState → Bool
is_waiting dependency_degraded = true
is_waiting merge_wait = true
is_waiting retry_wait = true
is_waiting _ = false

abbrev pub is_exception : RunState → Bool
is_exception exception = true
is_exception _ = false

abbrev pub is_abort_requested : RunState → Bool
is_abort_requested abort_requested = true
is_abort_requested _ = false

abbrev pub is_completed : RunState → Bool
is_completed completed = true
is_completed _ = false

abbrev pub is_completed_before_abort : RunState → Bool
is_completed_before_abort completed_before_abort = true
is_completed_before_abort _ = false
