-- ===== src/Service/Dependencies.antt =====
-- The dependency errors of hollysys_controller/service.py: an error opens an outage and degrades the
-- runs that it stops, and a recovery takes them up again. `meanwhile` is what other connections write
-- while `transition_run` runs, `now` is `int(time.time())`, and `fresh` is `uuid.uuid4().hex`.
pub mod Handling
pub mod Recovery
pub mod Links
pub mod Settling
pub mod Postponing
pub mod Opening
pub mod Stranded
use hermes_agents_by_kanban.Prelude.{
  ℕ, min, String, Bool, true, false, not, ◌&&◌, ◌||◌, Option, none, some, List, [], ◌∷◌, ◌==◌, ltb,
  leb, contains, length, if◌then◌else◌, text_eq,
}
use Prim.Native.Char.{code}
use Prim.Native.String.{◌++◌ as then_text}
use text.Mathlib.Text.{starts_with}
use hermes_agents_by_kanban.Prelude
use hermes_agents_by_kanban.Exec.{Result, ok, err, Exec, pure, get_state, modify, ◌>>=◌, ◌>>◌}
use hermes_agents_by_kanban.Store.RunState.{
  RunState, active, dependency_degraded, merge_wait, is_abort_open,
}
use hermes_agents_by_kanban.Store.Runs.{RunControl, RunStore, StoreError, RunExec}
use hermes_agents_by_kanban.Store.RunControl.{Transition, run_control, transition_run}
use hermes_agents_by_kanban.Store.Outage.{
  Outage, OutageStore, OverflowError, DependencyFailure, record_dependency_failure,
  associate_outage_run, recover_dependency, mark_dependency_half_open, open_dependency_outages,
  outage_run_keys,
}
use hermes_agents_by_kanban.Store.Outbox.{Outbox, enqueue}

-- The subclasses of DependencyError.
pub data DependencyErrorKind : Type 0 where
  transient rate_limited auth contract : DependencyErrorKind

abbrev pub error_class : DependencyErrorKind → String
error_class transient = "dependency_transient"
error_class rate_limited = "dependency_rate_limited"
error_class auth = "dependency_auth"
error_class contract = "dependency_contract"

-- An error with its context; `text` is `_error_text(error)`.
pub record DependencyError : Type 0 where
  pub kind : DependencyErrorKind
  pub text : String
  pub dependency : String
  pub endpoint : Option String
  pub retry_after_seconds : Option ℕ
  pub error_code : Option String

-- The fields of the configuration that are read here; `minimal` is
-- `notification_level == NotificationLevel.MINIMAL`.
pub record Settings : Type 0 where
  pub dependency_backoff_initial_seconds : ℕ
  pub dependency_backoff_max_seconds : ℕ
  pub dependency_circuit_failure_threshold : ℕ
  pub minimal : Bool

-- The payloads of the notices about a run and an outage of a dependency, as JSON texts; none where
-- the history of the run cannot be read.
pub record Notices : Type 0 where
  pub outage : String → String → Outage → Option String
  pub recovered : ℕ → String → String → Outage → Option String

pub record World : Type 0 where
  pub outages : OutageStore
  pub runs : RunStore
  pub outbox : Outbox
  pub last_reconcile_error : Option String

pub data ServiceError : Type 0 where
  dependency_contract : DependencyError → ServiceError
  store_error : StoreError → ServiceError
  overflow_error : OverflowError → ServiceError

abbrev pub ServiceExec : Type 0 → Type 0
ServiceExec A = Exec ServiceError World A

abbrev pub on_runs_result :
    {A : Type 0} → World → Result StoreError A × RunStore → Result ServiceError A × World
on_runs_result w (ok a, runs) = (ok a, record w { runs = runs })
on_runs_result w (err e, runs) = (err (store_error e), record w { runs = runs })

-- A method of the store on the tables of runs.
abbrev pub on_runs : {A : Type 0} → RunExec A → ServiceExec A
on_runs m w = on_runs_result w (m w.runs)

abbrev pub is_contract_error : DependencyErrorKind → Bool
is_contract_error contract = true
is_contract_error _ = false

abbrev pub is_transient : DependencyErrorKind → Bool
is_transient transient = true
is_transient _ = false

-- isinstance(error, (DependencyAuthError, DependencyRateLimitedError))
abbrev pub is_host_wide : DependencyErrorKind → Bool
is_host_wide auth = true
is_host_wide rate_limited = true
is_host_wide _ = false

unfoldable pub scoped : String → String → String
scoped dependency run_key = then_text dependency (then_text ":" run_key)

-- if run_key: ... else request
abbrev pub scope_of : String → Option String → String
scope_of dependency none = scoped dependency "request"
scope_of dependency (some run_key) =
    if run_key == "" then scoped dependency "request" else scoped dependency run_key

unfoldable pub dependency_scope : Option String → DependencyError → String
dependency_scope run_key e =
    if e.dependency == "gitlab" && is_host_wide e.kind
    then e.dependency
    else scope_of e.dependency run_key

-- outage["dependency"] == dependency and next_retry_at > now, of any of the open outages
unfoldable pub any_blocked : ℕ → String → List (String × Outage) → Bool
any_blocked now dependency [] = false
any_blocked now dependency ((other, row) ∷ rows) =
    (other == dependency && ltb now row.next_retry_at) || any_blocked now dependency rows

unfoldable pub dependency_retry_blocked : ℕ → String → World → Bool
dependency_retry_blocked now dependency w =
    any_blocked now dependency (open_dependency_outages w.outages)

unfoldable pub failure_of : Settings → DependencyError → DependencyFailure
failure_of config e = record {
  error = e.text;
  initial_backoff_seconds = config.dependency_backoff_initial_seconds;
  maximum_backoff_seconds = config.dependency_backoff_max_seconds;
  error_class = error_class e.kind;
  endpoint = e.endpoint;
  retry_after_seconds = e.retry_after_seconds;
}

abbrev pub on_outages_result :
    {A : Type 0} → World → Result OverflowError A × OutageStore → Result ServiceError A × World
on_outages_result w (ok a, outages) = (ok a, record w { outages = outages })
on_outages_result w (err e, outages) = (err (overflow_error e), record w { outages = outages })

-- self.store.record_dependency_failure
unfoldable pub open_outage : Settings → ℕ → String → String → DependencyError → ServiceExec Outage
open_outage config now fresh dependency e w =
    on_outages_result w
      (record_dependency_failure now fresh dependency (failure_of config e) w.outages)

unfoldable pub associate : ℕ → String → String → String → World → World
associate now dependency outage_id run_key w = record w {
  outages = associate_outage_run now dependency outage_id run_key w.outages;
}

abbrev pub or_unavailable : Option String → String
or_unavailable none = "unavailable"
or_unavailable (some code) = if code == "" then "unavailable" else code

-- f"{context.dependency}:{error.error_class}:{context.error_code or 'unavailable'}"
unfoldable pub degraded_reason : DependencyError → String
degraded_reason e = scoped e.dependency (scoped (error_class e.kind) (or_unavailable e.error_code))

unfoldable pub retry_transition : RunState → String → ℕ → ℕ → Transition
retry_transition state reason version next_retry_at = record {
  new_state = state;
  reason = reason;
  expected_version = some version;
  next_retry_at = some next_retry_at;
  compliance = none;
  completion_source = none;
  checked_head = none;
  merge_commit_sha = none;
}

abbrev pub is_live : RunState → Bool
is_live active = true
is_live merge_wait = true
is_live dependency_degraded = true
is_live _ = false

abbrev pub is_degraded : RunState → Bool
is_degraded dependency_degraded = true
is_degraded _ = false

-- expected_states={state}, for the two sets of states from which it is called.
unfoldable pub is_same_state : RunState → RunState → Bool
is_same_state RunState.active RunState.active = true
is_same_state RunState.merge_wait RunState.merge_wait = true
is_same_state RunState.dependency_degraded RunState.dependency_degraded = true
is_same_state RunState.abort_requested RunState.abort_requested = true
is_same_state RunState.aborting RunState.aborting = true
is_same_state _ _ = false

abbrev pub is_silent : Settings → Outage → Bool
is_silent config outage = config.minimal && not (outage.error_class == "dependency_auth")

abbrev pub enqueue_found : ℕ → String → String → String → Option String → World → World
enqueue_found now key run_key event none w = w
enqueue_found now key run_key event (some payload) w = record w {
  outbox = enqueue now key run_key event payload w.outbox;
}

module _ (meanwhile : RunStore → RunStore) (now : ℕ) where
  unfoldable pub transition_from :
      String → RunControl → RunState → String → ℕ → ServiceExec RunControl
  transition_from run_key control state reason next_retry_at = on_runs (
      transition_run meanwhile now run_key (is_same_state control.state)
        (retry_transition state reason control.state_version next_retry_at))

module _ (config : Settings) (notices : Notices) (now : ℕ) where
  unfoldable pub enqueue_dependency_outage : String → String → Outage → World → World
  enqueue_dependency_outage run_key dependency outage w =
      if is_silent config outage
      then w
      else enqueue_found now (scoped run_key (scoped "dependency-outage" outage.outage_id)) run_key
          "dependency-outage" (notices.outage run_key dependency outage) w
