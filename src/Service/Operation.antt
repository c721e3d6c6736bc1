-- ===== src/Service/Operation.antt =====
-- `_operation` of hollysys_controller/service.py: a change outside the database, made under a key of
-- the store's operations. `action` is the callable that makes the change. It may read and write the
-- run tables and the outside world, of any type `W`; it does not touch the row of its own operation.
pub mod Replay
pub mod Failure
use hermes_agents_by_kanban.Prelude.{
  ℕ, String, Bool, true, false, Option, none, some, ◌==◌, text_eq, nat_eq, if◌then◌else◌,
}
use hermes_agents_by_kanban.Exec.{Result, ok, err, Exec}
use hermes_agents_by_kanban.Store.RunState.{RunState, active, dependency_degraded, merge_wait}
use hermes_agents_by_kanban.Store.Runs.{RunControl, RunStore}
use hermes_agents_by_kanban.Store.RunControl.{run_control}
use hermes_agents_by_kanban.Store.Operations.{
  Operations, OperationError, Expectation, operation_result, finish_operation,
  mark_operation_uncertain, block_operation, supersede_operation, fail_operation,
}

-- The exceptions that `action` raises, by the `except` clause that takes them; `policy_error` is for
-- RunPolicyError, ValidationError, ValueError and TypeError, `unclassified` for any other.
pub data ActionError : Type 0 where
  reconcile_superseded dependency_error merge_blocked checked_head_conflict policy_error
        unclassified :
      String → ActionError

pub data OperationFailure : Type 0 where
  not_mutable version_changed stale_result : String → OperationFailure
  rejected : OperationError → OperationFailure
  raised : ActionError → OperationFailure
  failed_without_classification : String → String → OperationFailure

pub record World (W : Type 0) : Type 0 where
  pub runs : RunStore
  pub operations : Operations
  pub outside : W

-- state in {"active", "dependency_degraded", "merge_wait"}
abbrev pub is_mutable : RunState → Bool
is_mutable active = true
is_mutable dependency_degraded = true
is_mutable merge_wait = true
is_mutable _ = false

abbrev pub state_of : Option RunControl → RunState
state_of none = active
state_of (some row) = row.state

-- int(control.get("state_version") or 1)
abbrev pub version_of : Option RunControl → ℕ
version_of none = 1
version_of (some row) = if row.state_version == 0 then 1 else row.state_version

-- The version of the run, where `_assert_reconcile_mutable` does not raise.
unfoldable pub mutable_version : String → RunStore → Option ℕ
mutable_version run_key s =
    let control = run_control run_key s in
    if is_mutable (state_of control) then some (version_of control) else none

-- The check before the operation (`changed` is version_changed) and after it (stale_result).
abbrev pub check_version :
    (String → OperationFailure) → String → ℕ → Option ℕ → Option OperationFailure
check_version changed run_key expected none = some (not_mutable run_key)
check_version changed run_key expected (some version) =
    if version == expected then none else some (changed run_key)

unfoldable pub check_run :
    (String → OperationFailure) → Option String → Option ℕ → RunStore → Option OperationFailure
check_run changed none expected s = none
check_run changed (some run_key) none s = none
check_run changed (some run_key) (some expected) s =
    check_version changed run_key expected (mutable_version run_key s)

-- What the `except` clauses write.
unfoldable pub record_failure : ℕ → String → ActionError → Operations → Operations
record_failure now key (reconcile_superseded text) s = s
record_failure now key (dependency_error text) s = mark_operation_uncertain now key text s
record_failure now key (merge_blocked text) s = block_operation now key text s
record_failure now key (checked_head_conflict text) s = supersede_operation now key text s
record_failure now key (policy_error text) s = fail_operation now key text s
record_failure now key (unclassified text) s = mark_operation_uncertain now key text s

abbrev pub raised_as : String → ActionError → OperationFailure
raised_as kind (unclassified text) = failed_without_classification kind text
raised_as kind (reconcile_superseded text) = raised (reconcile_superseded text)
raised_as kind (dependency_error text) = raised (dependency_error text)
raised_as kind (merge_blocked text) = raised (merge_blocked text)
raised_as kind (checked_head_conflict text) = raised (checked_head_conflict text)
raised_as kind (policy_error text) = raised (policy_error text)

abbrev pub Action : Type 0 → Type 0 → Type 0
Action W Json = Exec ActionError (RunStore × W) Json

abbrev pub Reply : Type 0 → Type 0 → Type 0
Reply W Json = Result OperationFailure Json × World W

module _ {W Json : Type 0} (dumps sorted : Json → String) (loads : String → Json) where
  abbrev pub unless_stale : Json → World W → Option OperationFailure → Reply W Json
  unless_stale result w none = (ok result, w)
  unless_stale result w (some stale) = (err stale, w)

  abbrev pub conclude :
      ℕ
      → String
      → Expectation
      → Option String
      → Operations
      → Result ActionError Json × (RunStore × W)
      → Reply W Json
  conclude now key x run_key operations (ok result, (runs, outside)) =
      unless_stale result
        record {
          runs = runs;
          operations = finish_operation dumps sorted loads now key result operations;
          outside = outside;
        }
        (check_run stale_result run_key x.state_version runs)
  conclude now key x run_key operations (err e, (runs, outside)) = (
    err (raised_as x.kind e),
    record { runs = runs; operations = record_failure now key e operations; outside = outside },
  )

  -- `begun` is what `operation_result` gives; `previous` is not run again.
  abbrev pub perform :
      ℕ
      → String
      → Expectation
      → Option String
      → Action W Json
      → World W
      → Result OperationError (Option Json) × Operations
      → Reply W Json
  perform now key x run_key action w (err e, operations) =
      (err (rejected e), record w { operations = operations })
  perform now key x run_key action w (ok (some previous), operations) =
      (ok previous, record w { operations = operations })
  perform now key x run_key action w (ok none, operations) =
      conclude now key x run_key operations (action (w.runs, w.outside))

  abbrev pub admit : World W → Reply W Json → Option OperationFailure → Reply W Json
  admit w reply none = reply
  admit w reply (some refusal) = (err refusal, w)

  unfoldable pub operation :
      ℕ → String → Expectation → Json → Option String → Action W Json → World W → Reply W Json
  operation now key x payload run_key action w =
      admit w
        (perform now key x run_key action w
          (operation_result dumps sorted loads now key x payload w.operations))
        (check_run version_changed run_key x.state_version w.runs)
