-- ===== src/Service/Reconciling.antt =====
-- One reconciliation of a run in hollysys_controller/service.py: `_reconcile_run_with_policy`, which
-- turns what goes wrong with a run into a state of that run, and `consume_reconcile_once`, which does
-- so for the next run of the queue. `act` stands for `_reconcile_run`: it may write all tables, and it
-- may raise.

pub mod Handlers
pub mod Degrading
pub mod Kept
pub mod Contained
pub mod Queue
use hermes_agents_by_kanban.Prelude.{
  ℕ, ◌*◌, max, String, Bool, true, false, Option, none, some, List, [], ◌∷◌, ◌==◌, text_eq,
  contains, if◌then◌else◌, ◌||◌,
}
use Prim.Native.String.{◌++◌ as then_text}
use hermes_agents_by_kanban.Exec.{
  Result, ok, err, Exec, pure, raise, get_state, modify, ◌>>=◌, ◌>>◌,
}
use hermes_agents_by_kanban.Store.RunState.{RunState, active, dependency_degraded, merge_wait}
use hermes_agents_by_kanban.Store.Runs.{
  RunControl, RunStore, StoreError, abort_mismatch, database_error,
}
use hermes_agents_by_kanban.Store.RunControl.{run_control, set_run_exception}
use hermes_agents_by_kanban.Store.Reconcile.{
  Intent, ReconcileStore, ReconcileError, ReconcileExec, claim_reconcile, update_reconcile_step,
  finish_reconcile,
}
use hermes_agents_by_kanban.Service.Dependencies.{
  DependencyError, Settings, Notices, World, ServiceError, dependency_contract, store_error,
  overflow_error, ServiceExec, on_runs, is_contract_error, is_live, scoped,
  dependency_retry_blocked, enqueue_found,
}
use hermes_agents_by_kanban.Service.Dependencies.Handling.{handle_dependency_error}
use hermes_agents_by_kanban.Service.Dependencies.Recovery.{recover_run_dependency}

-- What `_reconcile_run` raises, by the handlers that catch it, with the texts of the errors.
pub data RunFailure : Type 0 where
  dependency_failure : DependencyError → RunFailure
  policy_failure invalid_value fatal unexpected : String → RunFailure

pub data Interruption : Type 0 where
  superseded : Interruption
  failed : RunFailure → Interruption

-- What leaves `_reconcile_run_with_policy`: a ControllerFatalError, or an error of a handler.
pub data PolicyError : Type 0 where
  controller_fatal : String → PolicyError
  unhandled : ServiceError → PolicyError

-- The tables, `_reconciling_runs`, and the time of the last reconciliation that ended well.
pub record Host : Type 0 where
  pub world : World
  pub queue : ReconcileStore
  pub reconciling_runs : List String
  pub last_reconcile_at : Option ℕ

abbrev pub HostExec : Type 0 → Type 0 → Type 0
HostExec E A = Exec E Host A

-- The texts of errors of the store, and the suffix of the key of a notice with its payload. There is no
-- notice where the run has no record, and reading the card of the run may raise.
pub record Failures : Type 0 where
  pub error_text : StoreError → String
  pub suffix : RunFailure → String
  pub payload : String → RunFailure → Result ServiceError (Option String)

unfoldable pub discard : String → List String → List String
discard k [] = []
discard k (j ∷ js) = let rest = discard k js in if j == k then rest else j ∷ rest

abbrev pub on_world_result :
    {E A : Type 0} → (ServiceError → E) → Host → Result ServiceError A × World → Result E A × Host
on_world_result f h (ok a, w) = (ok a, record h { world = w })
on_world_result f h (err e, w) = (err (f e), record h { world = w })

-- A method of Service.Dependencies, with the errors that it raises here.
abbrev pub on_world : {E A : Type 0} → (ServiceError → E) → ServiceExec A → HostExec E A
on_world f m h = on_world_result f h (m h.world)

abbrev pub is_known_run : Option RunControl → Bool
is_known_run none = false
is_known_run (some row) = is_live row.state

abbrev pub failure_text : RunFailure → String
failure_text (dependency_failure e) = e.text
failure_text (policy_failure text) = text
failure_text (invalid_value text) = text
failure_text (fatal text) = text
failure_text (unexpected text) = text

-- Which of the handlers takes an error of the store: most are ValueErrors.
abbrev pub raised_by_store : Failures → StoreError → RunFailure
raised_by_store failures abort_mismatch = unexpected (failures.error_text abort_mismatch)
raised_by_store failures database_error = unexpected (failures.error_text database_error)
raised_by_store failures e = invalid_value (failures.error_text e)

abbrev pub as_failure : Failures → ServiceError → RunFailure
as_failure failures (dependency_contract e) = dependency_failure e
as_failure failures (store_error e) = raised_by_store failures e
as_failure failures (overflow_error e) = unexpected "int too large to convert to float"

module _ (text_lt : String → String → Bool) (config : Settings) (notices : Notices)
    (failures : Failures) (meanwhile : RunStore → RunStore) (now : ℕ) where
  abbrev pub enqueue_read :
      String → RunFailure → Result ServiceError (Option String) → ServiceExec (Unit {0})
  enqueue_read run_key failure (err e) w = (err e, w)
  enqueue_read run_key failure (ok payload) w = (
    ok tt,
    enqueue_found now (scoped run_key (scoped "controller-failure" (failures.suffix failure)))
        run_key "controller-failure" payload w,
  )

  unfoldable pub enqueue_controller_failure : String → RunFailure → ServiceExec (Unit {0})
  enqueue_controller_failure run_key failure =
      enqueue_read run_key failure (failures.payload run_key failure)

  abbrev pub record_if : Bool → String → RunFailure → ServiceExec (Unit {0})
  record_if true run_key failure = do
    row ← on_runs (set_run_exception meanwhile now run_key (failure_text failure))
    enqueue_controller_failure run_key failure
  record_if false run_key failure = pure tt

  unfoldable pub record_run_exception : String → RunFailure → ServiceExec (Unit {0})
  record_run_exception run_key failure = do
    w ← get_state
    record_if (is_known_run (run_control run_key w.runs)) run_key failure

  module _ (act : String → HostExec Interruption (Unit {0})) where
    abbrev pub released : String → Host → Host
    released run_key h = record h { reconciling_runs = discard run_key h.reconciling_runs }

    -- except ReconcileSuperseded: return False; finally: self._finish_reconcile(run_key)
    abbrev pub finally_released :
        String → Result Interruption (Unit {0}) × Host → Result RunFailure Bool × Host
    finally_released run_key (ok done, h) = (ok true, released run_key h)
    finally_released run_key (err superseded, h) = (ok false, released run_key h)
    finally_released run_key (err (failed e), h) = (err e, released run_key h)

    -- if not self._begin_reconcile(run_key): return False
    unfoldable pub reconcile_run : String → HostExec RunFailure Bool
    reconcile_run run_key h =
        if contains h.reconciling_runs run_key
        then (ok false, h)
        else finally_released run_key
            (act run_key (record h { reconciling_runs = run_key ∷ h.reconciling_runs }))

    abbrev pub recover_if : Bool → String → HostExec RunFailure (Unit {0})
    recover_if true run_key = on_world (as_failure failures) (
        recover_run_dependency text_lt config notices meanwhile now run_key "kanban"
        >> recover_run_dependency text_lt config notices meanwhile now run_key "gitlab")
    recover_if false run_key = pure tt

    abbrev pub reconcile_and_recover : String → HostExec RunFailure (Unit {0})
    reconcile_and_recover run_key =
        reconcile_run run_key >>= λ reconciled. recover_if reconciled run_key

    -- The outage of a dependency error comes back, and is not used.
    abbrev pub handle_dependency :
        String → String → String → DependencyError → ServiceExec (Unit {0})
    handle_dependency run_key fresh fresh_global e =
        if is_contract_error e.kind
        then record_run_exception run_key (dependency_failure e)
        else handle_dependency_error text_lt config notices meanwhile now run_key fresh fresh_global
            e
          >> pure tt

    abbrev pub handle_failure :
        String
        → String
        → String
        → Result RunFailure (Unit {0}) × Host
        → Result PolicyError (Unit {0}) × Host
    handle_failure run_key fresh fresh_global (ok done, h) = (ok tt, h)
    handle_failure run_key fresh fresh_global (err (dependency_failure e), h) =
        on_world unhandled (handle_dependency run_key fresh fresh_global e) h
    handle_failure run_key fresh fresh_global (err (policy_failure text), h) =
        on_world unhandled (record_run_exception run_key (policy_failure text)) h
    handle_failure run_key fresh fresh_global (err (invalid_value text), h) =
        on_world unhandled (record_run_exception run_key (invalid_value text)) h
    handle_failure run_key fresh fresh_global (err (fatal text), h) =
        (err (controller_fatal text), h)
    handle_failure run_key fresh fresh_global (err (unexpected text), h) =
        (err (controller_fatal (scoped "run_reconcile_failed" (scoped run_key text))), h)

    unfoldable pub reconcile_run_with_policy :
        String → String → String → HostExec PolicyError (Unit {0})
    reconcile_run_with_policy run_key fresh fresh_global h =
        if dependency_retry_blocked now "gitlab" h.world
        then (ok tt, h)
        else handle_failure run_key fresh fresh_global (reconcile_and_recover run_key h)
