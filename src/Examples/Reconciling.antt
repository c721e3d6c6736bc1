-- ===== src/Examples/Reconciling.antt =====
-- A run whose reconciliation raises an error of its own (hollysys_controller/service.py).
use hermes_agents_by_kanban.Prelude.{
  ◌<◌, arith, ◌≡◌, refl, String, false, none, some, [], ◌∷◌, contains, text_eq,
}
use hermes_agents_by_kanban.Exec.{ok, err}
use hermes_agents_by_kanban.Table.{lookup}
use hermes_agents_by_kanban.Store.RunState.{exception}
use hermes_agents_by_kanban.Store.RunControl.{new_row, run_control}
use hermes_agents_by_kanban.Store.Outage.{Outage, open_dependency_outages, open_rows}
use hermes_agents_by_kanban.Store.Reconcile.{
  Intent, ReconcileStore, new_intent, claim_reconcile, first_claimable, lease, is_claimable,
  update_intent, intent_by_id,
}
use hermes_agents_by_kanban.Service.Dependencies.{dependency_retry_blocked, any_blocked}
use hermes_agents_by_kanban.Service.Dependencies.Settling.{alone}
use hermes_agents_by_kanban.Service.Reconciling.{
  RunFailure, policy_failure, Interruption, failed, Host, HostExec, Failures, reconcile_and_recover,
  reconcile_run_with_policy,
}
use hermes_agents_by_kanban.Service.Reconciling.Handlers.{IsIn}
use hermes_agents_by_kanban.Service.Reconciling.Contained.{
  Contained, reconcile_run_with_policy-Contained, reconcile_run_with_policy-state,
}
use hermes_agents_by_kanban.Service.Reconciling.Queue.{ConsumeError, consume_reconcile_once}
use hermes_agents_by_kanban.Service.Reconciling.Queue.Held.{Keeps}
use hermes_agents_by_kanban.Service.Reconciling.Queue.Released.{
  Concluded, consume_reconcile_once-Concluded,
}
use hermes_agents_by_kanban.Examples.Dependencies.{text_before, settings, notices, quiet_world}

abbrev quiet_failures : Failures
quiet_failures = record {
  error_text = λ e. "store";
  suffix = λ f. "0123456789ab";
  payload = λ run_key f. ok (some "failed");
}

abbrev moved : RunFailure
moved = policy_failure "merge_request_head_moved"

-- What the reconciliation does here.
abbrev raise_moved : String → HostExec Interruption (Unit {0})
raise_moved run_key h = (err (failed moved), h)

abbrev first_intent : Intent
first_intent = new_intent 10 "i-1" "run" "kanban-event" none

abbrev quiet_host : Host
quiet_host = record {
  world = quiet_world;
  queue = record { run_keys = "run" ∷ []; intents = first_intent ∷ [] };
  reconciling_runs = [];
  last_reconcile_at = none;
}

abbrev started_host : Host
started_host = record quiet_host { reconciling_runs = "run" ∷ [] }

quiet_free : contains quiet_host.reconciling_runs "run" ≡ false
unfolding contains
quiet_free = refl

reconcile_run_with_policy-Contained_example :
    (let after =
        reconcile_run_with_policy text_before settings notices quiet_failures alone 20 raise_moved
          "run" "o-1" "o-2" quiet_host in
      let body =
        reconcile_and_recover text_before settings notices quiet_failures alone 20 raise_moved "run"
          quiet_host in
      Contained quiet_failures "run" body after.0
      × (contains after.1.reconciling_runs "run" ≡ false))
reconcile_run_with_policy-Contained_example =
    reconcile_run_with_policy-Contained text_before settings notices quiet_failures 20 raise_moved
      "run" "o-1" "o-2" quiet_host quiet_free

no_outage :
    (d : String) (o : Outage)
    → lookup d quiet_world.outages.dependency_outages ≡ some o
    → o.failures < 1024
unfolding lookup
no_outage d o e = ground arith

reconcile_run_with_policy-state_example :
    IsIn exception "run"
      (reconcile_run_with_policy text_before settings notices quiet_failures alone 20 raise_moved
        "run" "o-1" "o-2" quiet_host).1.world.runs
unfolding run_control lookup dependency_retry_blocked any_blocked open_dependency_outages open_rows
reconcile_run_with_policy-state_example =
    reconcile_run_with_policy-state text_before settings notices quiet_failures 20 raise_moved "run"
      "o-1" "o-2" moved (new_row 10) quiet_host started_host refl quiet_free refl no_outage refl
      refl

abbrev claimed_intent : Intent
claimed_intent = lease text_before 20 "boot:0" 60 first_intent

abbrev always_text : ConsumeError → String
always_text e = "error"

-- Nothing is written meanwhile.
abbrev quiet_queue : ReconcileStore → ReconcileStore
quiet_queue q = q

quiet_queue-Keeps : Keeps quiet_queue
unfolding Keeps
quiet_queue-Keeps q id i e = (i, e)

consume_reconcile_once-Concluded_example :
    (let after =
        consume_reconcile_once text_before settings notices quiet_failures always_text alone
          quiet_queue 20 21 "1000" 60 raise_moved "boot:0" "o-1" "o-2" quiet_host in
      Concluded always_text "i-1" after.0 after.1)
unfolding claim_reconcile first_claimable is_claimable update_intent intent_by_id
consume_reconcile_once-Concluded_example =
    consume_reconcile_once-Concluded text_before settings notices quiet_failures always_text alone
      quiet_queue 20 21 "1000" 60 raise_moved "boot:0" "o-1" "o-2" (λ k id h held. held)
      quiet_queue-Keeps claimed_intent quiet_host refl
