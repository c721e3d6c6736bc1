-- ===== src/Service/Dependencies/Handling.antt =====
-- An error of a dependency opens an outage and degrades the run (hollysys_controller/service.py).
use hermes_agents_by_kanban.Prelude.{
  ℕ, String, Bool, true, false, not, ◌&&◌, is_some, Option, none, some, List, [], ◌∷◌, ◌==◌, leb,
  contains, length, if◌then◌else◌, text_eq,
}
use text.Mathlib.Text.{starts_with}
use hermes_agents_by_kanban.Exec.{ok, err, pure, get_state, modify, ◌>>=◌, ◌>>◌}
use hermes_agents_by_kanban.Store.RunState.{dependency_degraded, is_abort_open}
use hermes_agents_by_kanban.Store.Runs.{RunControl, RunStore}
use hermes_agents_by_kanban.Store.RunControl.{run_control}
use hermes_agents_by_kanban.Store.Outage.{
  Outage, OutageStore, open_dependency_outages, outage_run_keys,
}
use hermes_agents_by_kanban.Service.Dependencies.{
  error_class, DependencyError, Settings, Notices, World, dependency_contract, ServiceExec,
  is_contract_error, is_transient, scoped, dependency_scope, open_outage, associate,
  degraded_reason, is_live, transition_from, enqueue_dependency_outage,
}

-- Adding all elements of a list to a set.
unfoldable pub add_all : List String → List String → List String
add_all [] set = set
add_all (k ∷ ks) set = let rest = add_all ks set in if contains rest k then rest else k ∷ rest

unfoldable pub associate_all : ℕ → String → String → List String → World → World
associate_all now dependency outage_id [] w = w
associate_all now dependency outage_id (k ∷ ks) w =
    associate_all now dependency outage_id ks (associate now dependency outage_id k w)

module _ (text_lt : String → String → Bool) where
  -- The runs of the open outages of single runs that are transient errors of gitlab.
  unfoldable pub corroborating_of : OutageStore → List (String × Outage) → List String
  corroborating_of s [] = []
  corroborating_of s ((dependency, row) ∷ rows) =
      let rest = corroborating_of s rows in
      if starts_with dependency "gitlab:"
        && not (dependency == "gitlab:request")
        && row.error_class == "dependency_transient"
      then add_all (outage_run_keys text_lt dependency row.outage_id s) rest
      else rest

  unfoldable pub corroborating_runs : World → List String
  corroborating_runs w = corroborating_of w.outages (open_dependency_outages w.outages)

module _ (text_lt : String → String → Bool) (config : Settings) (notices : Notices)
    (meanwhile : RunStore → RunStore) (now : ℕ) where
  -- Enough runs with the same error open the outage of the whole host.
  abbrev pub open_global_for : String → DependencyError → List String → ServiceExec (Unit {0})
  open_global_for fresh e affected = do
    row ← open_outage config now fresh "gitlab" e
    modify (associate_all now "gitlab" row.outage_id affected)

  unfoldable pub open_global : String → DependencyError → ServiceExec (Unit {0})
  open_global fresh e w =
      let affected = corroborating_runs text_lt w in
      if leb config.dependency_circuit_failure_threshold (length affected)
      then open_global_for fresh e affected w
      else (ok tt, w)

  unfoldable pub corroborate : String → String → DependencyError → ServiceExec (Unit {0})
  corroborate fresh dependency e w =
      if e.dependency == "gitlab" && not (dependency == "gitlab") && is_transient e.kind
      then open_global fresh e w
      else (ok tt, w)

  abbrev pub degrade_if :
      Bool → Bool → String → DependencyError → Outage → RunControl → ServiceExec (Unit {0})
  degrade_if true abort run_key e outage control = do
    row ←
        transition_from meanwhile now run_key control dependency_degraded (degraded_reason e)
          outage.next_retry_at
    pure tt
  degrade_if false true run_key e outage control = do
    row ←
        transition_from meanwhile now run_key control control.state (degraded_reason e)
          outage.next_retry_at
    pure tt
  degrade_if false false run_key e outage control = pure tt

  abbrev pub degrade_found :
      String → DependencyError → Outage → Option RunControl → ServiceExec (Unit {0})
  degrade_found run_key e outage none = pure tt
  degrade_found run_key e outage (some control) =
      degrade_if (is_live control.state) (is_abort_open control.state) run_key e outage control

  -- if control and control["state"] in {...}: transition_run(...)
  unfoldable pub degrade : String → DependencyError → Outage → ServiceExec (Unit {0})
  degrade run_key e outage = do
    w ← get_state
    degrade_found run_key e outage (run_control run_key w.runs)

  abbrev pub tell_outage : String → String → DependencyError → Outage → World → World
  tell_outage run_key dependency e outage w =
      record (enqueue_dependency_outage config notices now run_key dependency outage w) {
        last_reconcile_error = some (scoped e.dependency (scoped (error_class e.kind) e.text));
      }

  abbrev pub handle_open : String → String → String → DependencyError → Outage → ServiceExec Outage
  handle_open run_key fresh dependency e outage = do
    modify (associate now dependency outage.outage_id run_key)
    corroborate fresh dependency e
    degrade run_key e outage
    modify (tell_outage run_key dependency e outage)
    pure outage

  -- `fresh` is for the outage of the scope, `fresh_global` for that of the host.
  unfoldable pub handle_dependency_error :
      String → String → String → DependencyError → ServiceExec Outage
  handle_dependency_error run_key fresh fresh_global e w =
      let dependency = dependency_scope (some run_key) e in
      if is_contract_error e.kind
      then (err (dependency_contract e), w)
      else (open_outage config now fresh dependency e >>= λ outage.
            handle_open run_key fresh_global dependency e outage)
          w

  abbrev pub tell_request : DependencyError → World → World
  tell_request e w = record w {
    last_reconcile_error = some (scoped e.dependency (scoped (error_class e.kind) e.text));
  }

  -- An outage of no run.
  unfoldable pub open_request_outage : String → DependencyError → ServiceExec Outage
  open_request_outage fresh e = do
    outage ← open_outage config now fresh (dependency_scope none e) e
    modify (tell_request e)
    pure outage

  -- if run_key and self.store.run_control(run_key) is not None
  abbrev pub is_of_run : Option String → World → Bool
  is_of_run none w = false
  is_of_run (some run_key) w = not (run_key == "") && is_some (run_control run_key w.runs)

  abbrev pub key_or_empty : Option String → String
  key_or_empty none = ""
  key_or_empty (some run_key) = run_key

  unfoldable pub record_request_dependency_error :
      Option String → String → String → DependencyError → ServiceExec Outage
  record_request_dependency_error run_key fresh fresh_global e w =
      if is_of_run run_key w
      then handle_dependency_error (key_or_empty run_key) fresh fresh_global e w
      else open_request_outage fresh e w
