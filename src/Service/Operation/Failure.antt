-- ===== src/Service/Operation/Failure.antt =====
-- What an operation of hollysys_controller/service.py leaves in its record where its action raises.
use hermes_agents_by_kanban.Prelude.{
  ℕ, ◌≡◌, refl, String, Option, none, some, ◌∙◌, ap, text_eq, nat_eq, option_beq_iff,
}
use hermes_agents_by_kanban.Table.{lookup}
use hermes_agents_by_kanban.Exec.{ok, err}
use hermes_agents_by_kanban.Store.Runs.{RunStore}
use hermes_agents_by_kanban.Store.Operations.{
  Operation, Operations, OperationStatus, executing, failed, blocked, superseded, uncertain,
  Expectation, operation_result, mark_operation_uncertain, block_operation, supersede_operation,
  fail_operation,
}
use hermes_agents_by_kanban.Store.Operations.Replay.{
  operation_result_begun, lookup-update_operation, lookup-begun,
}
use hermes_agents_by_kanban.Service.Operation.{
  World, Action, ActionError, reconcile_superseded, dependency_error, merge_blocked,
  checked_head_conflict, policy_error, unclassified, version_changed, check_run, raised_as,
  record_failure, operation, conclude, perform,
}

abbrev pub status_after : ActionError → OperationStatus
status_after (reconcile_superseded text) = executing
status_after (dependency_error text) = uncertain
status_after (merge_blocked text) = blocked
status_after (checked_head_conflict text) = superseded
status_after (policy_error text) = failed
status_after (unclassified text) = uncertain

-- The row after the failure: settled as the exception says, for the same state version.
FailedAs : ActionError → Operation → Option Operation → Type 0
FailedAs e row o =
    (row' : Operation) × (o ≡ some row')
    × (row'.status ≡ status_after e)
    × (row'.expected_state_version ≡ row.expected_state_version)
    × (row'.attempts ≡ row.attempts)

record_failure-FailedAs :
    (now : ℕ) (key : String) (e : ActionError) (s : Operations) (row : Operation)
    → lookup key s ≡ some row
    → row.status ≡ executing
    → FailedAs e row (lookup key (record_failure now key e s))
unfolding FailedAs record_failure mark_operation_uncertain block_operation supersede_operation
    fail_operation
record_failure-FailedAs now key (reconcile_superseded text) s row p q = (row, p, q, refl, refl)
record_failure-FailedAs now key (dependency_error text) s row p q =
    (_, lookup-update_operation key _ s row p, refl, refl, refl)
record_failure-FailedAs now key (merge_blocked text) s row p q =
    (_, lookup-update_operation key _ s row p, refl, refl, refl)
record_failure-FailedAs now key (checked_head_conflict text) s row p q =
    (_, lookup-update_operation key _ s row p, refl, refl, refl)
record_failure-FailedAs now key (policy_error text) s row p q =
    (_, lookup-update_operation key _ s row p, refl, refl, refl)
record_failure-FailedAs now key (unclassified text) s row p q =
    (_, lookup-update_operation key _ s row p, refl, refl, refl)

module _ {W Json : Type 0} (dumps sorted : Json → String) (loads : String → Json) where
  operation_acts :
      (now : ℕ) (key : String) (x : Expectation) (payload : Json) (run_key : Option String)
      (action : Action W Json) (w : World W) (e : ActionError) (runs : RunStore) (outside : W)
      → check_run version_changed run_key x.state_version w.runs ≡ none
      → (operation_result dumps sorted loads now key x payload w.operations).0 ≡ ok none
      → action (w.runs, w.outside) ≡ (err e, (runs, outside))
      → operation dumps sorted loads now key x payload run_key action w
        ≡ conclude dumps sorted loads now key x run_key
            (operation_result dumps sorted loads now key x payload w.operations).1
            (err e, (runs, outside))
  unfolding operation
  operation_acts now key x payload run_key action w e runs outside c p a =
      let begun = operation_result dumps sorted loads now key x payload w.operations in
      rw c (
        ap (λ r. perform dumps sorted loads now key x run_key action w (r, begun.1)) p
        ∙ ap (conclude dumps sorted loads now key x run_key begun.1) a)

  -- Where the action raises, the operation raises too, and its row says how it ended: uncertain after
  -- a dependency's error or one of no known class, blocked, superseded or failed after the others, and
  -- still executing where the run was superseded. The row stands for the caller's state version.
  pub operation_failed :
      (now : ℕ) (key : String) (x : Expectation) (payload : Json) (run_key : Option String)
      (action : Action W Json) (w : World W) (e : ActionError) (runs : RunStore) (outside : W)
      → check_run version_changed run_key x.state_version w.runs ≡ none
      → (operation_result dumps sorted loads now key x payload w.operations).0 ≡ ok none
      → action (w.runs, w.outside) ≡ (err e, (runs, outside))
      → let (reply, w') = operation dumps sorted loads now key x payload run_key action w in
        (reply ≡ err (raised_as x.kind e))
        × (row : Operation) × (lookup key w'.operations ≡ some row)
        × (row.status ≡ status_after e)
        × (row.expected_state_version ≡ x.state_version)
  unfolding FailedAs
  operation_failed now key x payload run_key action w e runs outside c p a =
      let s = (operation_result dumps sorted loads now key x payload w.operations).1 in
      let acts = operation_acts now key x payload run_key action w e runs outside c p a in
      let (row, written, began, m) =
        operation_result_begun dumps sorted loads now key x payload w.operations p in
      let (row', at, status, version, attempts) =
        record_failure-FailedAs now key e s row (lookup-begun key row w.operations s written)
          began in
      (
        ap (λ r. r.0) acts,
        row',
        ap (λ r. lookup key r.1.operations) acts ∙ at,
        status,
        version ∙ (option_beq_iff row.expected_state_version x.state_version).0 m.2,
      )
