-- ===== src/Service/Operation/Replay.antt =====
-- An operation of hollysys_controller/service.py that has finished is not made a second time.
use hermes_agents_by_kanban.Prelude.{
  ℕ, ◌≡◌, refl, String, false, Option, none, some, arith, ◌==◌, text_eq, nat_eq, ◌∙◌, ap, sym,
  subst,
}
use hermes_agents_by_kanban.Table.{put}
use hermes_agents_by_kanban.Exec.{Result, ok, err}
use hermes_agents_by_kanban.Store.Runs.{RunStore}
use hermes_agents_by_kanban.Store.Operations.{
  Operation, Operations, OperationError, Expectation, operation_result, finish_operation,
  stored_result, is_same_operation,
}
use hermes_agents_by_kanban.Store.Operations.Replay.{
  Matches, finished, operation_result_begun, lookup-finish_operation, operation_result_replays,
  operation_result_again, lookup-begun,
}
use hermes_agents_by_kanban.Service.Operation.{
  World, Action, Reply, ActionError, OperationFailure, version_changed, stale_result, check_run,
  perform, conclude, unless_stale, operation, admit,
}

module _ {Json : Type 0} (dumps sorted : Json → String) (loads : String → Json) where
  stored_finished :
      (now : ℕ) (r : Json) (row : Operation)
      → (dumps r == "") ≡ false
      → stored_result (finished dumps sorted loads now r row) ≡ some (dumps r)
  unfolding stored_result
  stored_finished now r row filled = rw filled refl

  finished-Matches :
      (now : ℕ) (x : Expectation) (payload r : Json) (row : Operation)
      → Matches dumps sorted loads x payload row
      → Matches dumps sorted loads x payload (finished dumps sorted loads now r row)
  unfolding is_same_operation
  finished-Matches now x payload r row m = m

  finished_replays :
      (now later : ℕ) (key : String) (x : Expectation) (payload r : Json) (s s' : Operations)
      (row : Operation)
      → (dumps r == "") ≡ false
      → s' ≡ put key row s
      → Matches dumps sorted loads x payload row
      → operation_result dumps sorted loads later key x payload
          (finish_operation dumps sorted loads now key r s')
        ≡ (ok (some (loads (dumps r))), finish_operation dumps sorted loads now key r s')
  finished_replays now later key x payload r s s' row filled e m =
      operation_result_replays dumps sorted loads later key x payload
        (finish_operation dumps sorted loads now key r s') (finished dumps sorted loads now r row)
        (dumps r)
        (lookup-finish_operation dumps sorted loads now key r s' row (lookup-begun key row s s' e))
        (finished-Matches now x payload r row m) (stored_finished now r row filled)

module _ {W Json : Type 0} (dumps sorted : Json → String) (loads : String → Json)
    (loads-dumps : (r : Json) → loads (dumps r) ≡ r)
    (dumps_filled : (r : Json) → (dumps r == "") ≡ false) where
  -- The state after a call that returned answers the same call with the same result.
  Answered : ℕ → String → Expectation → Json → Json → World W → Type 0
  Answered later key x payload r w =
      operation_result dumps sorted loads later key x payload w.operations
      ≡ (ok (some r), w.operations)

  reply_value : (q r : Json) {v w : World W} → Path (Reply W Json) (ok q, v) (ok r, w) → q ≡ r
  reply_value q r e = ground arith

  admit_ok :
      (r : Json) (v w : World W) (reply : Reply W Json) (o : Option OperationFailure)
      → admit dumps sorted loads v reply o ≡ (ok r, w)
      → reply ≡ (ok r, w)
  admit_ok r v w reply none e = e
  admit_ok r v w reply (some f) e = ground arith

  unless_stale_ok :
      (q r : Json) (v w : World W) (o : Option OperationFailure)
      → unless_stale dumps sorted loads q v o ≡ (ok r, w)
      → (q ≡ r) × (v ≡ w)
  unless_stale_ok q r v w none e = (ground arith, ap (λ (p : Reply W Json). p.1) e)
  unless_stale_ok q r v w (some f) e = ground arith

  conclude-Answered :
      (now later : ℕ) (key : String) (x : Expectation) (payload r : Json) (run_key : Option String)
      (s s' : Operations) (row : Operation) (reply : Result ActionError Json × (RunStore × W))
      (w : World W)
      → s' ≡ put key row s
      → Matches dumps sorted loads x payload row
      → conclude dumps sorted loads now key x run_key s' reply ≡ (ok r, w)
      → Answered later key x payload r w
  unfolding Answered
  conclude-Answered now later key x payload r run_key s s' row (ok q, (runs, outside)) w e m c =
      let concluded : World W = record {
        runs = runs;
        operations = finish_operation dumps sorted loads now key q s';
        outside = outside;
      } in
      let (same, after) =
        unless_stale_ok q r concluded w (check_run stale_result run_key x.state_version runs) c in
      subst (λ y. Answered later key x payload y w) same
        (subst (λ v. Answered later key x payload q v) after
          (finished_replays dumps sorted loads now later key x payload q s s' row (dumps_filled q) e
              m
            ∙ ap (λ y. (ok (some y), finish_operation dumps sorted loads now key q s'))
                (loads-dumps q)))
  conclude-Answered now later key x payload r run_key s s' row (err q, (runs, outside)) w e m c =
      ground arith

  perform-Answered :
      (now later : ℕ) (key : String) (x : Expectation) (payload r : Json) (run_key : Option String)
      (action : Action W Json) (v w : World W) (s' : Operations)
      (o : Result OperationError (Option Json))
      → operation_result dumps sorted loads now key x payload v.operations ≡ (o, s')
      → perform dumps sorted loads now key x run_key action v (o, s') ≡ (ok r, w)
      → Answered later key x payload r w
  unfolding Answered
  perform-Answered now later key x payload r run_key action v w s' (err f) e p = ground arith
  perform-Answered now later key x payload r run_key action v w s' (ok (some q)) e p =
      let replied = ap (λ (t : Result OperationError (Option Json) × Operations). t.0) e in
      let unchanged : v.operations ≡ s' =
        ap (λ (t : Result OperationError (Option Json) × Operations). t.1)
          (sym (
              operation_result_again dumps sorted loads now now key x payload v.operations q
                replied)
            ∙ e) in
      subst (λ y. Answered later key x payload y w) (reply_value q r p)
        (subst (λ u. Answered later key x payload q u) (ap (λ (t : Reply W Json). t.1) p)
          (subst (λ t. operation_result dumps sorted loads later key x payload t ≡ (ok (some q), t))
            unchanged
            (operation_result_again dumps sorted loads now later key x payload v.operations q
              replied)))
  perform-Answered now later key x payload r run_key action v w s' (ok none) e p =
      let (row, written, began, m) =
        operation_result_begun dumps sorted loads now key x payload v.operations
          (ap (λ (t : Result OperationError (Option Json) × Operations). t.0) e) in
      conclude-Answered now later key x payload r run_key v.operations s' row
        (action (v.runs, v.outside)) w
        (sym (ap (λ (t : Result OperationError (Option Json) × Operations). t.1) e) ∙ written) m p

  -- An operation that returned is not made again: as long as the run is in the state and at the
  -- version that the call expects, the same call at any other time, with whatever action, gives the
  -- same result, and no table and nothing outside changes.
  pub operation_once :
      (now later : ℕ) (key : String) (x : Expectation) (payload r : Json) (run_key : Option String)
      (action again : Action W Json) (v w : World W)
      → operation dumps sorted loads now key x payload run_key action v ≡ (ok r, w)
      → check_run version_changed run_key x.state_version w.runs ≡ none
      → operation dumps sorted loads later key x payload run_key again w ≡ (ok r, w)
  unfolding operation Answered
  operation_once now later key x payload r run_key action again v w e c =
      let begun = operation_result dumps sorted loads now key x payload v.operations in
      let answered =
        perform-Answered now later key x payload r run_key action v w begun.1 begun.0 refl (
          admit_ok r v w (perform dumps sorted loads now key x run_key action v begun)
            (check_run version_changed run_key x.state_version v.runs) e) in
      rw c (ap (perform dumps sorted loads later key x run_key again w) answered)
