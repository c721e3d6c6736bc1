-- ===== src/Service/Reconciling/Handlers.antt =====
-- What the handlers of `_reconcile_run_with_policy` do to the run (hollysys_controller/service.py),
-- while no other connection writes.
use hermes_agents_by_kanban.Prelude.{
  ℕ, ◌≡◌, refl, ◌⊎◌, inl, inr, String, Bool, true, false, Option, none, some, arith, text_eq,
  beq_refl, Bool-cases, Option-cases,
}
use hermes_agents_by_kanban.Exec.{Result, ok, err}
use hermes_agents_by_kanban.Store.RunState.{
  RunState, active, merge_wait, dependency_degraded, exception, is_exception, is_unfinished,
}
use hermes_agents_by_kanban.Store.Runs.{RunControl, RunStore}
use hermes_agents_by_kanban.Store.RunControl.{
  Transition, run_control, put_control, run_control-put_control, transition_row, transition_run,
  set_run_exception, to_exception, unless_exception,
}
use hermes_agents_by_kanban.Service.Dependencies.{
  Settings, Notices, World, ServiceError, is_live, enqueue_found,
}
use hermes_agents_by_kanban.Service.Dependencies.Settling.{alone}
use hermes_agents_by_kanban.Service.Reconciling.{
  RunFailure, Failures, record_run_exception, failure_text, enqueue_read,
  enqueue_controller_failure,
}

-- The run of the key is in a state.
pub record IsIn (q : RunState) (k : String) (s : RunStore) : Type 0 where
  pub row : RunControl
  pub found : run_control k s ≡ some row
  pub in_state : row.state ≡ q

pub written-IsIn :
    (now : ℕ) (k : String) (t : Transition) (row : RunControl) (s : RunStore)
    → IsIn t.new_state k (put_control k (transition_row now t row) s)
unfolding transition_row
written-IsIn now k t row s = record {
  row = transition_row now t row;
  found = ground (arith, run_control-put_control k k (transition_row now t row) s, beq_refl k);
  in_state = refl;
}

pub same-IsIn : (q : RunState) (k : String) (s s' : RunStore) → s' ≡ s → IsIn q k s → IsIn q k s'
same-IsIn q k s s' e i = rw e i

live_unfinished :
    (q : RunState) → is_live q ≡ true → (is_exception q ≡ false) × (is_unfinished q ≡ true)
live_unfinished active h = (refl, refl)
live_unfinished merge_wait h = (refl, refl)
live_unfinished dependency_degraded h = (refl, refl)
live_unfinished _ h = ground arith

set_run_exception-alone :
    (now : ℕ) (k reason : String) (row : RunControl) (s : RunStore)
    → run_control k s ≡ some row
    → is_live row.state ≡ true
    → set_run_exception alone now k reason s ≡ (
      ok (transition_row now (to_exception reason) row),
      put_control k (transition_row now (to_exception reason) row) s,
    )
unfolding set_run_exception transition_run
set_run_exception-alone now k reason row s e l =
    let (other, unfinished) = live_unfinished row.state l in
    rw (e, unless_exception, other, e, unfinished, e, beq_refl row.state_version) refl

module _ (text_lt : String → String → Bool) (config : Settings) (notices : Notices)
    (failures : Failures) (now : ℕ) where
  found-runs :
      (key k event : String) (o : Option String) (w : World)
      → (enqueue_found now key k event o w).runs ≡ w.runs
  found-runs key k event none w = refl
  found-runs key k event (some payload) w = refl

  -- A notice is queued, or reading the card of the run raises.
  read-runs :
      (k : String) (f : RunFailure) (o : Result ServiceError (Option String)) (w : World)
      → (enqueue_read text_lt config notices failures alone now k f o w).1.runs ≡ w.runs
  read-runs k f (err e) w = refl
  read-runs k f (ok payload) w = found-runs _ k _ payload w

  read-result :
      (k : String) (f : RunFailure) (o : Result ServiceError (Option String)) (w : World)
      → failures.payload k f ≡ o
      → ((enqueue_read text_lt config notices failures alone now k f o w).0 ≡ ok tt)
        ⊎ ((e : ServiceError) × (failures.payload k f ≡ err e)
            × ((enqueue_read text_lt config notices failures alone now k f o w).0 ≡ err e))
  read-result k f (ok payload) w p = inl refl
  read-result k f (err e) w p = inr (e, p, refl)

  -- A run that fails by itself is stopped.
  pub recorded-IsIn :
      (k : String) (f : RunFailure) (row : RunControl) (w : World)
      → run_control k w.runs ≡ some row
      → is_live row.state ≡ true
      → IsIn exception k
          (record_run_exception text_lt config notices failures alone now k f w).1.runs
  unfolding record_run_exception enqueue_controller_failure
  recorded-IsIn k f row w e l =
      rw (e, l, set_run_exception-alone now k (failure_text f) row w.runs e l)
        (same-IsIn exception k _ _ (read-runs k f (failures.payload k f) _)
          (written-IsIn now k (to_exception (failure_text f)) row w.runs))

  -- Recording an error fails only where reading the card of the run does.
  pub record_run_exception-result :
      (k : String) (f : RunFailure) (w : World)
      → ((record_run_exception text_lt config notices failures alone now k f w).0 ≡ ok tt)
        ⊎ ((e : ServiceError) × (failures.payload k f ≡ err e)
            × ((record_run_exception text_lt config notices failures alone now k f w).0 ≡ err e))
  unfolding record_run_exception enqueue_controller_failure
  record_run_exception-result k f w = elim (Option-cases (run_control k w.runs)) [
    | inl e ↦ rw e (inl refl)
    | inr (row, e) ↦ elim (Bool-cases (is_live row.state)) [
      | inr l ↦ rw (e, l) (inl refl)
      | inl l ↦
          rw (e, l, set_run_exception-alone now k (failure_text f) row w.runs e l)
            (read-result k f (failures.payload k f) _ refl)
    ]
  ]
