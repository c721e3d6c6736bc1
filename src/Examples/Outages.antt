-- ===== src/Examples/Outages.antt =====
-- A dependency that fails twice, is probed and recovers (hollysys_controller/store.py).
use hermes_agents_by_kanban.Prelude.{none, [], text_eq, arith}
use hermes_agents_by_kanban.Table.{lookup}
use hermes_agents_by_kanban.Store.Outage.{
  OutageStore, DependencyFailure, record_dependency_failure, recover_dependency,
  mark_dependency_half_open,
}
use hermes_agents_by_kanban.Store.Outage.Circuit.{
  AllCircuits, OutageSteps, here, failing, recovering, probed, OutageSteps-AllCircuits,
}

abbrev quiet_store : OutageStore
quiet_store = record {
  dependency_outages = [];
  dependency_outage_runs = [];
  dependency_outage_history = [];
}

quiet_store-AllCircuits : AllCircuits quiet_store
unfolding lookup
quiet_store-AllCircuits = record { at_dependency = λ d row e. ground arith }

abbrev unreachable : DependencyFailure
unreachable = record {
  error = "connection refused";
  initial_backoff_seconds = 5;
  maximum_backoff_seconds = 300;
  error_class = "dependency_transient";
  endpoint = none;
  retry_after_seconds = none;
}

abbrev failed_once : OutageStore
failed_once = (record_dependency_failure 100 "o-1" "gitlab" unreachable quiet_store).1

abbrev failed_twice : OutageStore
failed_twice = (record_dependency_failure 110 "o-2" "gitlab" unreachable failed_once).1

abbrev probed_store : OutageStore
probed_store = (mark_dependency_half_open 130 "gitlab" failed_twice).1

abbrev recovered_store : OutageStore
recovered_store = (recover_dependency 131 "gitlab" probed_store).1

outage_history : OutageSteps quiet_store recovered_store
outage_history = recovering 131 "gitlab" (
    probed 130 "gitlab"
      (failing 110 "o-2" "gitlab" unreachable (failing 100 "o-1" "gitlab" unreachable here)))

OutageSteps-AllCircuits_example : AllCircuits recovered_store
OutageSteps-AllCircuits_example = OutageSteps-AllCircuits outage_history quiet_store-AllCircuits
