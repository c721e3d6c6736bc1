-- ===== src/Service/Reconciling/Kept.antt =====
-- What the handlers of `_reconcile_run_with_policy` leave alone (hollysys_controller/service.py).
use hermes_agents_by_kanban.Prelude.{ℕ, ◌≡◌, refl, String, Bool, true, false, text_eq}
use hermes_agents_by_kanban.Exec.{Result, ok, err, continue, ◌>>◌}
use hermes_agents_by_kanban.Store.Runs.{RunStore}
use hermes_agents_by_kanban.Service.Dependencies.{
  Settings, Notices, World, ServiceError, ServiceExec,
}
use hermes_agents_by_kanban.Service.Reconciling.{
  RunFailure, dependency_failure, policy_failure, invalid_value, fatal, unexpected, Interruption,
  unhandled, Host, HostExec, Failures, on_world, on_world_result, recover_if, handle_dependency,
  handle_failure, record_run_exception, as_failure,
}
use hermes_agents_by_kanban.Service.Dependencies.Recovery.{recover_run_dependency}

-- Only the tables of World have been written.
pub record Kept (h h' : Host) : Type 0 where
  pub same_runs : h'.reconciling_runs ≡ h.reconciling_runs
  pub same_queue : h'.queue ≡ h.queue

Kept-refl : (h : Host) → Kept h h
Kept-refl h = record { same_runs = refl; same_queue = refl }

on_world_result-Kept :
    {E A : Type 0} (f : ServiceError → E) (h : Host) (p : Result ServiceError A × World)
    → Kept h (on_world_result f h p).1
on_world_result-Kept f h (ok a, w) = record { same_runs = refl; same_queue = refl }
on_world_result-Kept f h (err e, w) = record { same_runs = refl; same_queue = refl }

on_world-Kept :
    {E A : Type 0} (f : ServiceError → E) (m : ServiceExec A) (h : Host) → Kept h (on_world f m h).1
on_world-Kept f m h = on_world_result-Kept f h (m h.world)

module _ (text_lt : String → String → Bool) (config : Settings) (notices : Notices)
    (failures : Failures) (meanwhile : RunStore → RunStore) (now : ℕ)
    (act : String → HostExec Interruption (Unit {0})) (k fresh fresh_global : String) where
  pub handle_failure-Kept :
      (r : Result RunFailure (Unit {0})) (h : Host)
      → Kept h
          (handle_failure text_lt config notices failures meanwhile now act k fresh fresh_global
            (r, h)).1
  handle_failure-Kept (ok done) h = Kept-refl h
  handle_failure-Kept (err (dependency_failure e)) h =
      on_world-Kept unhandled
        (handle_dependency text_lt config notices failures meanwhile now act k fresh fresh_global e)
        h
  handle_failure-Kept (err (policy_failure text)) h =
      on_world-Kept unhandled
        (record_run_exception text_lt config notices failures meanwhile now k (policy_failure text))
        h
  handle_failure-Kept (err (invalid_value text)) h =
      on_world-Kept unhandled
        (record_run_exception text_lt config notices failures meanwhile now k (invalid_value text))
        h
  handle_failure-Kept (err (fatal text)) h = Kept-refl h
  handle_failure-Kept (err (unexpected text)) h = Kept-refl h

  recover_if-Kept :
      (b : Bool) (h : Host)
      → Kept h (recover_if text_lt config notices failures meanwhile now act b k h).1
  recover_if-Kept true h =
      on_world-Kept (as_failure failures)
        (recover_run_dependency text_lt config notices meanwhile now k "kanban"
          >> recover_run_dependency text_lt config notices meanwhile now k "gitlab")
        h
  recover_if-Kept false h = Kept-refl h

  pub continued-Kept :
      (p : Result RunFailure Bool × Host)
      → Kept p.1
          (continue p.0
            (λ b. recover_if text_lt config notices failures meanwhile now act b k)
            p.1).1
  continued-Kept (ok b, h) = recover_if-Kept b h
  continued-Kept (err e, h) = Kept-refl h
