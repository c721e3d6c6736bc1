-- ===== src/Store/RunControl/Cases.antt =====
-- How the methods of hollysys_controller/store.py that complete a run end: they leave the store
-- alone, or they are one transition.
use hermes_agents_by_kanban.Prelude.{
  ℕ, ◌≡◌, refl, ◌⊎◌, inl, inr, String, Bool, true, Option, arith, is_sha, is_sha_or_none,
}
use hermes_agents_by_kanban.Exec.{Result, ok, err}
use hermes_agents_by_kanban.Store.RunState.{
  RunState, is_completable, is_unfinished, is_flow_completed,
}
use hermes_agents_by_kanban.Store.Runs.{RunStore}
use hermes_agents_by_kanban.Store.RunControl.{
  transition_run, completion, flow_completion, to_exception, mark_completed, mark_flow_completed,
  set_run_exception,
}

pub Result-cases {ℓ} :
    {E A S : Type ℓ} (p : Result E A × S)
    → ((a : A) × (s : S) × (p ≡ (ok a, s))) ⊎ ((e : E) × (s : S) × (p ≡ (err e, s)))
Result-cases (ok a, s) = inl (a, s, refl)
Result-cases (err e, s) = inr (e, s, refl)

module _ (meanwhile : RunStore → RunStore) (now : ℕ) (k : String) (s : RunStore) where
  pub mark_completed_cases :
      (external : Bool) (compliance head : String) (merge : Option String) (reason : String)
      → ((mark_completed meanwhile now k external compliance head merge reason s).1 ≡ s)
        ⊎ ((mark_completed meanwhile now k external compliance head merge reason s
              ≡ transition_run meanwhile now k is_completable
                  (completion external compliance head merge reason)
                  s)
            × (is_sha head ≡ true)
            × (is_sha_or_none merge ≡ true))
  unfolding mark_completed
  mark_completed_cases external compliance head merge reason = ground arith

  pub mark_flow_completed_cases :
      (state : RunState) (head reason : String)
      → ((mark_flow_completed meanwhile now k state head reason s).1 ≡ s)
        ⊎ ((mark_flow_completed meanwhile now k state head reason s
              ≡ transition_run meanwhile now k is_unfinished (flow_completion state head reason) s)
            × (is_flow_completed state ≡ true)
            × (is_sha head ≡ true))
  unfolding mark_flow_completed
  mark_flow_completed_cases state head reason = ground arith

  pub set_run_exception_cases :
      (reason : String)
      → ((set_run_exception meanwhile now k reason s).1 ≡ s)
        ⊎ (set_run_exception meanwhile now k reason s
            ≡ transition_run meanwhile now k is_unfinished (to_exception reason) s)
  unfolding set_run_exception
  set_run_exception_cases reason = ground arith
