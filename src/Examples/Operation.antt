-- ===== src/Examples/Operation.antt =====
-- An operation that is made once, and one that fails (hollysys_controller/service.py, _operation).
use hermes_agents_by_kanban.Prelude.{ℕ, ◌+◌, ◌≡◌, refl, String, none, some, [], text_eq}
use hermes_agents_by_kanban.Examples.Codec.{mark, unmark, mark_filled, unmark-mark}
use hermes_agents_by_kanban.Table.{lookup, put}
use hermes_agents_by_kanban.Exec.{ok, err}
use hermes_agents_by_kanban.Store.Runs.{RunStore}
use hermes_agents_by_kanban.Store.RunControl.{run_control}
use hermes_agents_by_kanban.Store.Operations.{
  Operation, uncertain, Expectation, operation_result, finish_operation, resume, update_operation,
}
use hermes_agents_by_kanban.Service.Operation.{
  World, Action, dependency_error, operation, check_run, mutable_version, raised_as,
}
use hermes_agents_by_kanban.Service.Operation.Replay.{operation_once}
use hermes_agents_by_kanban.Service.Operation.Failure.{operation_failed}

abbrev expectation : Expectation
expectation = record { kind = "merge"; state_version = some 1; head_sha = none }

-- Outside is the number of merges that were made.
abbrev merge : Action ℕ String
merge (runs, n) = (ok "merged", (runs, n + 1))

abbrev time_out : Action ℕ String
time_out (runs, n) = (err (dependency_error "timeout"), (runs, n + 1))

abbrev empty_runs : RunStore
empty_runs = record { run_control = []; abort_requests = []; merge_wait = [] }

abbrev before : World ℕ
before = record { runs = empty_runs; operations = []; outside = 0 }

abbrev after : World ℕ
after = (operation mark mark unmark 10 "merge:1" expectation "{}" (some "run") merge before).1

operation_once_example :
    operation mark mark unmark 50 "merge:1" expectation "{}" (some "run") time_out after
    ≡ (ok "merged", after)
unfolding mark unmark operation operation_result resume check_run mutable_version run_control lookup
    put finish_operation update_operation
operation_once_example =
    operation_once mark mark unmark unmark-mark mark_filled 10 50 "merge:1" expectation "{}"
      "merged" (some "run") merge time_out before after refl refl

operation_failed_example :
    let (reply, w) =
      operation mark mark unmark 10 "merge:1" expectation "{}" (some "run") time_out before in
    (reply ≡ err (raised_as "merge" (dependency_error "timeout")))
    × (row : Operation) × (lookup "merge:1" w.operations ≡ some row)
    × (row.status ≡ uncertain)
    × (row.expected_state_version ≡ some 1)
unfolding operation_result resume check_run mutable_version run_control lookup
operation_failed_example =
    operation_failed mark mark unmark 10 "merge:1" expectation "{}" (some "run") time_out before
      (dependency_error "timeout") empty_runs 1 refl refl refl
