-- ===== src/Service/Dependencies/Recovery.antt =====
-- The recovery of dependencies, and what it does to the runs (hollysys_controller/service.py).
use hermes_agents_by_kanban.Prelude.{
  ℕ, min, String, Bool, true, false, not, ◌&&◌, ◌||◌, Option, none, some, List, [], ◌∷◌, ◌==◌, ltb,
  leb, contains, length, if◌then◌else◌, text_eq,
}
use Prim.Native.Char.{code}
use Prim.Native.String.{◌++◌ as then_text}
use hermes_agents_by_kanban.Prelude
use hermes_agents_by_kanban.Exec.{Result, ok, pure, get_state, modify, ◌>>=◌, ◌>>◌}
use hermes_agents_by_kanban.Store.RunState.{active, dependency_degraded}
use hermes_agents_by_kanban.Store.Runs.{RunControl, RunStore}
use hermes_agents_by_kanban.Store.RunControl.{Transition, run_control, transition_run}
use hermes_agents_by_kanban.Store.Outage.{
  Outage, OutageStore, recover_dependency, mark_dependency_half_open, open_dependency_outages,
  outage_run_keys,
}
use hermes_agents_by_kanban.Service.Dependencies.{
  DependencyError, Settings, Notices, World, ServiceError, ServiceExec, on_runs, scoped,
  open_outage, degraded_reason, retry_transition, is_degraded, is_same_state, is_silent,
  enqueue_found, transition_from, enqueue_dependency_outage,
}

unfoldable pub recovered_transition : String → ℕ → Transition
recovered_transition reason version = record {
  new_state = active;
  reason = reason;
  expected_version = some version;
  next_retry_at = none;
  compliance = none;
  completion_source = none;
  checked_head = none;
  merge_commit_sha = none;
}

-- before the first colon
unfoldable pub base_dependency : String → String
base_dependency String.[] = ""
base_dependency (String.◌∷◌ c s) =
    let rest = base_dependency s in if Prelude.nat_beq (code c) b':' then "" else String.◌∷◌ c rest

unfoldable pub least_retry : ℕ → List (String × Outage) → ℕ
least_retry least [] = least
least_retry least ((dependency, row) ∷ rows) = least_retry (min least row.next_retry_at) rows

-- The open outage of the dependency that is due.
unfoldable pub due_outage : ℕ → String → List (String × Outage) → Option Outage
due_outage now dependency [] = none
due_outage now dependency ((other, row) ∷ rows) =
    if other == dependency && leb row.next_retry_at now
    then some row
    else due_outage now dependency rows

module _ (text_lt : String → String → Bool) where
  -- The open outages that the run is associated with.
  unfoldable pub remaining_of :
      OutageStore → String → List (String × Outage) → List (String × Outage)
  remaining_of s run_key [] = []
  remaining_of s run_key ((dependency, row) ∷ rows) =
      let rest = remaining_of s run_key rows in
      if contains (outage_run_keys text_lt dependency row.outage_id s) run_key
      then (dependency, row) ∷ rest
      else rest

  unfoldable pub remaining : World → String → List (String × Outage)
  remaining w run_key = remaining_of w.outages run_key (open_dependency_outages w.outages)

module _ (text_lt : String → String → Bool) (config : Settings) (notices : Notices)
    (meanwhile : RunStore → RunStore) (now : ℕ) where
  unfoldable pub enqueue_dependency_recovered : String → String → Outage → World → World
  enqueue_dependency_recovered run_key dependency outage w =
      if is_silent config outage
      then w
      else enqueue_found now (scoped run_key (scoped "dependency-recovered" outage.outage_id))
          run_key "dependency-recovered" (notices.recovered now run_key dependency outage) w

  abbrev pub settle_run :
      String → String → RunControl → List (String × Outage) → ServiceExec RunControl
  settle_run dependency run_key control [] = on_runs (
      transition_run meanwhile now run_key (is_same_state dependency_degraded) (
        recovered_transition (then_text (base_dependency dependency) "_dependency_recovered")
          control.state_version))
  settle_run dependency run_key control ((other, row) ∷ rows) = on_runs (
      transition_run meanwhile now run_key (is_same_state dependency_degraded) (
        retry_transition dependency_degraded "dependency_recovery_partial" control.state_version
          (least_retry row.next_retry_at rows)))

  abbrev pub settle_if : Bool → String → String → RunControl → ServiceExec (Unit {0})
  settle_if true dependency run_key control = do
    w ← get_state
    row ← settle_run dependency run_key control (remaining text_lt w run_key)
    pure tt
  settle_if false dependency run_key control = pure tt

  abbrev pub settle_found : String → String → Option RunControl → ServiceExec (Unit {0})
  settle_found dependency run_key none = pure tt
  settle_found dependency run_key (some control) =
      settle_if (is_degraded control.state) dependency run_key control

  -- The body of the loop.
  unfoldable pub settle_one : String → Outage → String → ServiceExec (Unit {0})
  settle_one dependency recovered run_key = do
    w ← get_state
    settle_found dependency run_key (run_control run_key w.runs)
    modify (enqueue_dependency_recovered run_key dependency recovered)

  unfoldable pub settle_each : String → Outage → List String → ServiceExec (Unit {0})
  settle_each dependency recovered [] = pure tt
  settle_each dependency recovered (k ∷ ks) =
      settle_one dependency recovered k >> settle_each dependency recovered ks

  unfoldable pub finish_dependency_recovery : String → Outage → ServiceExec (Unit {0})
  finish_dependency_recovery dependency recovered = do
    w ← get_state
    settle_each dependency recovered
        (outage_run_keys text_lt dependency recovered.outage_id w.outages)

  abbrev pub finish_recovered :
      String → World → Option Outage × OutageStore → Result ServiceError (Unit {0}) × World
  finish_recovered dependency w (none, outages) = (ok tt, record w { outages = outages })
  finish_recovered dependency w (some recovered, outages) =
      finish_dependency_recovery dependency recovered (record w { outages = outages })

  -- recover_dependency, and _finish_dependency_recovery if it recovered
  unfoldable pub recover_and_finish : String → ServiceExec (Unit {0})
  recover_and_finish dependency w =
      finish_recovered dependency w (recover_dependency now dependency w.outages)

  abbrev pub recover_due : String → String → Option Outage → ServiceExec (Unit {0})
  recover_due run_key dependency none w = (ok tt, w)
  recover_due run_key dependency (some row) w =
      if contains (outage_run_keys text_lt dependency row.outage_id w.outages) run_key
      then recover_and_finish dependency w
      else (ok tt, w)

  unfoldable pub recover_run_dependency : String → String → ServiceExec (Unit {0})
  recover_run_dependency run_key dependency w =
      let scope = scoped dependency run_key in
      recover_due run_key scope (due_outage now scope (open_dependency_outages w.outages)) w

  -- One run of the loop over the runs of an outage that goes on.
  abbrev pub postpone_if :
      Bool → String → DependencyError → Outage → RunControl → ServiceExec (Unit {0})
  postpone_if true run_key e updated control = do
    row ←
        transition_from meanwhile now run_key control dependency_degraded (degraded_reason e)
          updated.next_retry_at
    pure tt
  postpone_if false run_key e updated control = pure tt

  abbrev pub postpone_found :
      String → DependencyError → Outage → Option RunControl → ServiceExec (Unit {0})
  postpone_found run_key e updated none = pure tt
  postpone_found run_key e updated (some control) =
      postpone_if (is_degraded control.state) run_key e updated control

  unfoldable pub postpone_one : DependencyError → Outage → String → ServiceExec (Unit {0})
  postpone_one e updated run_key = do
    w ← get_state
    postpone_found run_key e updated (run_control run_key w.runs)
    modify (enqueue_dependency_outage config notices now run_key "gitlab" updated)

  unfoldable pub postpone_each : DependencyError → Outage → List String → ServiceExec (Unit {0})
  postpone_each e updated [] = pure tt
  postpone_each e updated (k ∷ ks) = postpone_one e updated k >> postpone_each e updated ks

  abbrev pub postpone_opened : DependencyError → Outage → ServiceExec (Unit {0})
  postpone_opened e updated w =
      postpone_each e updated (outage_run_keys text_lt "gitlab" updated.outage_id w.outages) w

  -- `health` is what `self.gitlab.health()` raises, or none.
  abbrev pub probe_gitlab : String → Option DependencyError → ServiceExec (Unit {0})
  probe_gitlab fresh none = recover_and_finish "gitlab"
  probe_gitlab fresh (some e) =
      open_outage config now fresh "gitlab" e >>= λ updated. postpone_opened e updated

  abbrev pub mark_half_open : World → World
  mark_half_open w =
      let (changed, outages) = mark_dependency_half_open now "gitlab" w.outages in
      record w { outages = outages }

  abbrev pub recover_gitlab_due :
      String → Option DependencyError → Option Outage → ServiceExec (Unit {0})
  recover_gitlab_due fresh health none w = (ok tt, w)
  recover_gitlab_due fresh health (some row) w = probe_gitlab fresh health (mark_half_open w)

  unfoldable pub recover_gitlab_circuit : String → Option DependencyError → ServiceExec (Unit {0})
  recover_gitlab_circuit fresh health w =
      recover_gitlab_due fresh health (due_outage now "gitlab" (open_dependency_outages w.outages))
        w
