-- ===== src/Store/RunControl.antt =====
-- The methods of hollysys_controller/store.py on run_control. `now` is `int(time.time())`.
pub mod Cases
pub mod Concurrency
pub mod Startable
use hermes_agents_by_kanban.Prelude.{
  ℕ, ◌+◌, ◌≡◌, String, Bool, true, false, Option, none, some, ◌==◌, coalesce, clip, is_sha,
  is_sha_or_none, if◌then◌else◌, text_eq, nat_eq,
}
use hermes_agents_by_kanban.Table.{lookup, put, lookup-put}
use hermes_agents_by_kanban.Exec.{pure, connect, get_state, ◌>>=◌, ◌>>◌, require, modify}
use hermes_agents_by_kanban.Store.RunState.{
  RunState, active, exception, completed, completed_ready, is_terminal, is_run_state, is_unfinished,
  is_completable, is_flow_completed, is_exception,
}
use hermes_agents_by_kanban.Store.Runs.{
  RunControl, RunStore, RunExec, found, invalid_run_state, unknown_run, invalid_run_transition,
  stale_run_version, stale_run_row, invalid_checked_head, invalid_merge_commit_sha,
  invalid_flow_state,
}

-- The columns that INSERT OR IGNORE leaves to their defaults.
abbrev pub new_row : ℕ → RunControl
new_row now = record {
  state = active;
  state_version = 1;
  terminal_at = none;
  last_transition_reason = none;
  next_retry_at = none;
  compliance = none;
  completion_source = none;
  checked_head = none;
  merge_commit_sha = none;
  abort_requested_by = none;
  abort_reason = none;
  abort_requested_at = none;
  aborted_at = none;
  updated_at = now;
}

unfoldable pub run_control : String → RunStore → Option RunControl
run_control run_key s = lookup run_key s.run_control

unfoldable pub put_control : String → RunControl → RunStore → RunStore
put_control run_key row s = record s { run_control = put run_key row s.run_control }

pub run_control-put_control :
    (k j : String) (row : RunControl) (s : RunStore)
    → run_control j (put_control k row s) ≡ (if k == j then some row else run_control j s)
unfolding run_control put_control
run_control-put_control k j row s = lookup-put k j row s.run_control

abbrev pub insert_or_ignore : String → ℕ → Option RunControl → RunStore → RunStore
insert_or_ignore run_key now none s = put_control run_key (new_row now) s
insert_or_ignore run_key now (some row) s = s

unfoldable pub ensure_run_control : ℕ → String → RunStore → RunStore
ensure_run_control now run_key s = insert_or_ignore run_key now (run_control run_key s) s

-- The keyword arguments of `transition_run`, less `expected_states`.
pub record Transition : Type 0 where
  pub new_state : RunState
  pub reason : String
  pub expected_version : Option ℕ
  pub next_retry_at : Option ℕ
  pub compliance : Option String
  pub completion_source : Option String
  pub checked_head : Option String
  pub merge_commit_sha : Option String

-- The SET clause of the UPDATE.
unfoldable pub transition_row : ℕ → Transition → RunControl → RunControl
transition_row now t row = record row {
  state = t.new_state;
  state_version = row.state_version + 1;
  terminal_at = if is_terminal t.new_state then some now else none;
  last_transition_reason = some (clip 1000 t.reason);
  next_retry_at = t.next_retry_at;
  compliance = coalesce t.compliance row.compliance;
  completion_source = coalesce t.completion_source row.completion_source;
  checked_head = coalesce t.checked_head row.checked_head;
  merge_commit_sha = coalesce t.merge_commit_sha row.merge_commit_sha;
  updated_at = now;
}

-- expected_version is None or version == expected_version
abbrev pub is_expected : Option ℕ → ℕ → Bool
is_expected none version = true
is_expected (some n) version = version == n

abbrev expected_or : Option ℕ → ℕ → ℕ
expected_or none version = version
expected_or (some n) version = n

-- UPDATE ... WHERE run_key=? AND state_version=?, the test of `rowcount`, and the SELECT after it.
unfoldable pub update_version : ℕ → String → ℕ → Transition → RunExec RunControl
update_version now run_key version t = do
  s ← get_state
  row ← found (stale_run_row run_key) (run_control run_key s)
  require (row.state_version == version) (stale_run_row run_key)
  modify (put_control run_key (transition_row now t row))
  pure (transition_row now t row)

-- The SELECT and the UPDATE are not one transaction: a write of another connection, `meanwhile`,
-- may be committed between them.
unfoldable pub transition_run :
    (RunStore → RunStore) → ℕ → String → (RunState → Bool) → Transition → RunExec RunControl
unfolding update_version
transition_run meanwhile now run_key expected_states t = do
  require (is_run_state t.new_state) (invalid_run_state t.new_state)
  s ← get_state
  row ← found (unknown_run run_key) (run_control run_key s)
  require (expected_states row.state) (invalid_run_transition row.state t.new_state)
  require (is_expected t.expected_version row.state_version)
      (stale_run_version (expected_or t.expected_version row.state_version) row.state_version)
  modify meanwhile
  connect (update_version now run_key row.state_version t)

-- current["state"] in TERMINAL_RUN_STATES: return current
abbrev pub unless_terminal : RunControl → RunExec RunControl → RunExec RunControl
unless_terminal current m = elim (is_terminal current.state) [ true ↦ pure current | false ↦ m ]

abbrev pub completion : Bool → String → String → Option String → String → Transition
completion external compliance checked_head merge_commit_sha reason = record {
  new_state = completed;
  reason = reason;
  expected_version = none;
  next_retry_at = none;
  compliance = some compliance;
  completion_source = some (if external then "external" else "controller");
  checked_head = some checked_head;
  merge_commit_sha = merge_commit_sha;
}

unfoldable pub mark_completed :
    (RunStore → RunStore)
    → ℕ
    → String
    → Bool
    → String
    → String
    → Option String
    → String
    → RunExec RunControl
mark_completed meanwhile now run_key external compliance checked_head merge_commit_sha reason = do
  require (is_sha checked_head) invalid_checked_head
  require (is_sha_or_none merge_commit_sha) invalid_merge_commit_sha
  s ← get_state
  current ← found (unknown_run run_key) (run_control run_key s)
  unless_terminal current (
      transition_run meanwhile now run_key is_completable
        (completion external compliance checked_head merge_commit_sha reason))

-- allowed[state]
abbrev pub flow_compliance : RunState → String
flow_compliance completed_ready = "verified"
flow_compliance _ = "unverified"

abbrev pub flow_completion : RunState → String → String → Transition
flow_completion state checked_head reason = record {
  new_state = state;
  reason = reason;
  expected_version = none;
  next_retry_at = none;
  compliance = some (flow_compliance state);
  completion_source = some "controller";
  checked_head = some checked_head;
  merge_commit_sha = none;
}

unfoldable pub mark_flow_completed :
    (RunStore → RunStore) → ℕ → String → RunState → String → String → RunExec RunControl
mark_flow_completed meanwhile now run_key state checked_head reason = do
  require (is_flow_completed state) (invalid_flow_state state)
  require (is_sha checked_head) invalid_checked_head
  s ← get_state
  current ← found (unknown_run run_key) (run_control run_key s)
  unless_terminal current (
      transition_run meanwhile now run_key is_unfinished
        (flow_completion state checked_head reason))

abbrev pub to_exception : String → Transition
to_exception reason = record {
  new_state = exception;
  reason = reason;
  expected_version = none;
  next_retry_at = none;
  compliance = none;
  completion_source = none;
  checked_head = none;
  merge_commit_sha = none;
}

abbrev pub unless_exception : RunControl → RunExec RunControl → RunExec RunControl
unless_exception current m = elim (is_exception current.state) [ true ↦ pure current | false ↦ m ]

unfoldable pub set_run_exception : (RunStore → RunStore) → ℕ → String → String → RunExec RunControl
set_run_exception meanwhile now run_key reason = do
  s ← get_state
  current ← found (unknown_run run_key) (run_control run_key s)
  unless_exception current
      (transition_run meanwhile now run_key is_unfinished (to_exception reason))
