-- ===== src/Store/History/Control.antt =====
-- Each method on run_control lets runs advance.
use hermes_agents_by_kanban.Prelude.{
  ℕ, ◌+◌, ◌≡◌, refl, ◌⊎◌, inl, inr, String, Bool, true, false, Option, none, arith, Option-cases,
  Bool-cases, eq_iff,
}
use hermes_agents_by_kanban.Store.RunState.{
  RunState, is_terminal, is_completable, is_unfinished, is_abortable, is_abort_open,
  is_abort_requested,
}
use hermes_agents_by_kanban.Store.Runs.{RunControl, RunStore}
use hermes_agents_by_kanban.Store.RunControl.{
  run_control, put_control, new_row, insert_or_ignore, ensure_run_control, Transition,
  transition_row, transition_run, mark_completed, mark_flow_completed, set_run_exception,
  run_control-put_control,
}
use hermes_agents_by_kanban.Store.RunControl.Concurrency.{
  Advances, Advances-refl, Advances-trans, put_control-Advances, Applied, transition_run-Applied,
  transition_run_error,
}
use hermes_agents_by_kanban.Store.RunControl.Cases.{
  Result-cases, mark_completed_cases, mark_flow_completed_cases, set_run_exception_cases,
}
use hermes_agents_by_kanban.Store.Abort.{update_if}

pub same_control-Advances : (s t : RunStore) → t.run_control ≡ s.run_control → Advances s t
unfolding run_control
same_control-Advances s t e = record {
  at_key = λ k row p. (row, (rw e p), record { advanced = inl refl });
}

pub ensure-Advances :
    (now : ℕ) (k : String) (s : RunStore) → Advances s (ensure_run_control now k s)
unfolding ensure_run_control
ensure-Advances now k s = elim (Option-cases (run_control k s)) [
  | inl e ↦ rw (e, insert_or_ignore) (added e)
  | inr (row, e) ↦ rw (e, insert_or_ignore) (Advances-refl s)
]
  where
    added : run_control k s ≡ none → Advances s (put_control k (new_row now) s)
    added e = record {
      at_key = λ j row p. (
        row,
        ground (arith, run_control-put_control k j (new_row now) s, eq_iff k j),
        record { advanced = inl refl },
      );
    }

pub update_if-Advances :
    (test : RunState → Bool) (f : RunControl → RunControl) (k : String) (s : RunStore)
    → ((q : RunState) → test q ≡ true → is_terminal q ≡ false)
    → ((row : RunControl) → (f row).state_version ≡ row.state_version + 1)
    → Advances s (update_if test f k (run_control k s) s)
update_if-Advances test f k s live up = elim (Option-cases (run_control k s)) [
  | inl e ↦ rw e (Advances-refl s)
  | inr (row, e) ↦ elim (Bool-cases (test row.state)) [
    | inl p ↦
        rw (e, p)
          (put_control-Advances k row (f row) s e (omega (arith, up row)) (live row.state p))
    | inr p ↦ rw (e, p) (Advances-refl s)
  ]
]

pub abortable_live : (q : RunState) → is_abortable q ≡ true → is_terminal q ≡ false
abortable_live q h = ground arith

pub requested_live : (q : RunState) → is_abort_requested q ≡ true → is_terminal q ≡ false
requested_live q h = ground arith

pub open_live : (q : RunState) → is_abort_open q ≡ true → is_terminal q ≡ false
open_live q h = ground arith

pub unfinished_live : (q : RunState) → is_unfinished q ≡ true → is_terminal q ≡ false
unfinished_live q h = ground arith

pub completable_live : (q : RunState) → is_completable q ≡ true → is_terminal q ≡ false
completable_live q h = ground arith

module _ (meanwhile : RunStore → RunStore) (now : ℕ) (k : String) (s : RunStore)
    (others : Advances s (meanwhile s)) where
  Applied-Advances :
      (expected : RunState → Bool) (t : Transition) (row' : RunControl) (s' : RunStore)
      → ((q : RunState) → expected q ≡ true → is_terminal q ≡ false)
      → Applied meanwhile now k expected t s row' s'
      → Advances s s'
  unfolding transition_row
  Applied-Advances expected t row' s' live a = rw (a.stored) (
      Advances-trans others (
        put_control-Advances k a.row row' (meanwhile s) a.still (rw a.written (omega arith))
          (live a.row.state a.from_expected)))

  pub transition-Advances :
      (expected : RunState → Bool) (t : Transition)
      → ((q : RunState) → expected q ≡ true → is_terminal q ≡ false)
      → Advances s (transition_run meanwhile now k expected t s).1
  transition-Advances expected t live =
      elim (Result-cases (transition_run meanwhile now k expected t s)) [
        | inl (row', s', e) ↦ rw e (
            Applied-Advances expected t row' s' live
              (transition_run-Applied meanwhile now k expected t s others row' s' e))
        | inr (x, s', e) ↦
            rw e (stays s' (transition_run_error meanwhile now k expected t s x s' e))
      ]
    where
      stays : (s' : RunStore) → (s' ≡ s) ⊎ (s' ≡ meanwhile s) → Advances s s'
      stays s' (inl p) = rw p (Advances-refl s)
      stays s' (inr p) = rw p others

  pub completed-Advances :
      (external : Bool) (compliance head : String) (merge : Option String) (reason : String)
      → Advances s (mark_completed meanwhile now k external compliance head merge reason s).1
  completed-Advances external compliance head merge reason =
      elim (mark_completed_cases meanwhile now k s external compliance head merge reason) [
        | inl e ↦ rw e (Advances-refl s)
        | inr (e, _, _) ↦ rw e (transition-Advances is_completable _ completable_live)
      ]

  pub flow_completed-Advances :
      (state : RunState) (head reason : String)
      → Advances s (mark_flow_completed meanwhile now k state head reason s).1
  flow_completed-Advances state head reason =
      elim (mark_flow_completed_cases meanwhile now k s state head reason) [
        | inl e ↦ rw e (Advances-refl s)
        | inr (e, _, _) ↦ rw e (transition-Advances is_unfinished _ unfinished_live)
      ]

  pub exception-Advances :
      (reason : String) → Advances s (set_run_exception meanwhile now k reason s).1
  exception-Advances reason = elim (set_run_exception_cases meanwhile now k s reason) [
    | inl e ↦ rw e (Advances-refl s)
    | inr e ↦ rw e (transition-Advances is_unfinished _ unfinished_live)
  ]
