-- ===== src/Store/Attempts/Events.antt =====
-- The kinds of the events that `record_card_runtime_event` of hollysys_controller/store.py reads.
use hermes_agents_by_kanban.Prelude.{ℕ, String, Bool, true, false, Option, List}
use hermes_agents_by_kanban.Store.Attempts.{AttemptStatus}

pub data EventKind : Type 0 where
  claimed started worker_started heartbeat worker_heartbeat progress : EventKind
  completed blocked reclaimed crashed rate_limited timed_out : EventKind
  gave_up spawn_auto_blocked worker_exited : EventKind
  other : String → EventKind

abbrev pub kind_text : EventKind → String
kind_text claimed = "claimed"
kind_text started = "started"
kind_text worker_started = "worker_started"
kind_text heartbeat = "heartbeat"
kind_text worker_heartbeat = "worker_heartbeat"
kind_text progress = "progress"
kind_text completed = "completed"
kind_text blocked = "blocked"
kind_text reclaimed = "reclaimed"
kind_text crashed = "crashed"
kind_text rate_limited = "rate_limited"
kind_text timed_out = "timed_out"
kind_text gave_up = "gave_up"
kind_text spawn_auto_blocked = "spawn_auto_blocked"
kind_text worker_exited = "worker_exited"
kind_text (other text) = text

-- started
abbrev pub is_started : EventKind → Bool
is_started claimed = true
is_started started = true
is_started worker_started = true
is_started _ = false

-- heartbeat
abbrev pub is_heartbeat : EventKind → Bool
is_heartbeat heartbeat = true
is_heartbeat worker_heartbeat = true
is_heartbeat _ = false

-- terminal
abbrev pub is_terminal_event : EventKind → Bool
is_terminal_event completed = true
is_terminal_event blocked = true
is_terminal_event reclaimed = true
is_terminal_event crashed = true
is_terminal_event rate_limited = true
is_terminal_event timed_out = true
is_terminal_event gave_up = true
is_terminal_event spawn_auto_blocked = true
is_terminal_event _ = false

abbrev pub is_progress : EventKind → Bool
is_progress progress = true
is_progress _ = false

-- progress = started or kind in {...}
abbrev pub is_progress_event : EventKind → Bool
is_progress_event progress = true
is_progress_event claimed = true
is_progress_event started = true
is_progress_event worker_started = true
is_progress_event kind = is_terminal_event kind

abbrev pub is_blocked : EventKind → Bool
is_blocked blocked = true
is_blocked _ = false

abbrev pub is_completed_event : EventKind → Bool
is_completed_event completed = true
is_completed_event _ = false

abbrev pub is_worker_exited : EventKind → Bool
is_worker_exited worker_exited = true
is_worker_exited _ = false

-- kind in {"worker_exited", "reclaimed"}
abbrev pub is_exit : EventKind → Bool
is_exit worker_exited = true
is_exit reclaimed = true
is_exit _ = false

-- The keyword arguments. Of `runtime_metrics`, those that are numbers and not negative, in
-- milliseconds; `summary` is the encoding of what `progress_summary` may show.
pub record CardEvent : Type 0 where
  pub board : String
  pub card_id : String
  pub kind : EventKind
  pub created_at : ℕ
  pub worker_session_id : Option String
  pub worker_pid : Option ℕ
  pub lease_seconds : ℕ
  pub run_id : Option String
  pub runtime_metrics : List (String × ℕ)
  pub summary : Option String

-- The status of an attempt that the event creates.
abbrev pub first_status : EventKind → AttemptStatus
first_status worker_exited = AttemptStatus.exited
first_status reclaimed = AttemptStatus.reclaimed
first_status blocked = AttemptStatus.blocked
first_status completed = AttemptStatus.completion_recorded
first_status crashed = AttemptStatus.crashed
first_status rate_limited = AttemptStatus.rate_limited
first_status timed_out = AttemptStatus.timed_out
first_status gave_up = AttemptStatus.gave_up
first_status spawn_auto_blocked = AttemptStatus.spawn_auto_blocked
first_status _ = AttemptStatus.running

-- WHEN 'worker_exited' AND status!='reclaimed' THEN 'exited'
abbrev pub after_exit : AttemptStatus → AttemptStatus
after_exit AttemptStatus.reclaimed = AttemptStatus.reclaimed
after_exit _ = AttemptStatus.exited

abbrev pub is_reclaimed : AttemptStatus → Bool
is_reclaimed AttemptStatus.reclaimed = true
is_reclaimed _ = false

-- The CASE of the UPDATE.
abbrev pub next_status : EventKind → AttemptStatus → AttemptStatus
next_status worker_exited status = after_exit status
next_status reclaimed status = AttemptStatus.reclaimed
next_status blocked status = AttemptStatus.blocked
next_status completed status = AttemptStatus.completion_recorded
next_status crashed status = AttemptStatus.crashed
next_status rate_limited status = AttemptStatus.rate_limited
next_status timed_out status = AttemptStatus.timed_out
next_status gave_up status = AttemptStatus.gave_up
next_status spawn_auto_blocked status = AttemptStatus.spawn_auto_blocked
next_status _ status = status
