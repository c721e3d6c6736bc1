-- ===== src/Store/History/Keeps.antt =====
-- Each method keeps what holds of the tables between two statements.
use hermes_agents_by_kanban.Prelude.{
  ℕ, ◌≡◌, ◌⊎◌, inl, inr, String, Bool, true, Option, arith, Option-cases, Bool-cases, text_eq,
}
use hermes_agents_by_kanban.Store.RunState.{
  RunState, is_run_state, is_completable, is_unfinished, is_abort_open,
}
use hermes_agents_by_kanban.Store.Runs.{RunControl, RunStore}
use hermes_agents_by_kanban.Store.Startup.{
  is_compliance, unknown_run_state, invalid_state_version, terminal_timestamp_mismatch,
  retry_schedule_mismatch, completed_metadata_missing, flow_completion_metadata_missing,
  abort_metadata_missing, abort_terminal_timestamp_missing, completed_before_abort_head_missing,
  invalid_merge_commit,
}
use hermes_agents_by_kanban.Store.RunControl.{
  run_control, put_control, ensure_run_control, Transition, transition_row, transition_run,
  mark_completed, mark_flow_completed, set_run_exception,
}
use hermes_agents_by_kanban.Store.RunControl.Concurrency.{
  Advances, Applied, transition_run-Applied, transition_run_error,
}
use hermes_agents_by_kanban.Store.RunControl.Startable.{
  RowInv, ControlInv, RowInv-lookup, put_control-ControlInv, ensure_run_control-ControlInv,
  completion-RowInv, flow_completion-RowInv, to_exception-RowInv,
}
use hermes_agents_by_kanban.Store.RunControl.Cases.{
  Result-cases, mark_completed_cases, mark_flow_completed_cases, set_run_exception_cases,
}
use hermes_agents_by_kanban.Store.Abort.{update_if}
use hermes_agents_by_kanban.Store.Abort.Filled.{RequestsInv}
use hermes_agents_by_kanban.Store.History.{IsInterim}

-- What holds between two statements: the next start accepts run_control, only a run that has ended
-- has a merge commit, every abort request has a sender and a reason, and a run has one pending
-- request at most.
pub record RunsInv (s : RunStore) : Type 0 where
  pub control : ControlInv s
  pub requests : RequestsInv s

-- A statement on run_control leaves the requests alone.
pub put_control-RunsInv :
    (k : String) (row : RunControl) (s : RunStore)
    → RunsInv s
    → RowInv row
    → RunsInv (put_control k row s)
unfolding put_control
put_control-RunsInv k row s v w = record {
  control = put_control-ControlInv k row s v.control w;
  requests = record { filled = v.requests.filled; one_pending = v.requests.one_pending };
}

ensure-requests :
    (now : ℕ) (k : String) (s : RunStore)
    → (ensure_run_control now k s).abort_requests ≡ s.abort_requests
unfolding ensure_run_control put_control
ensure-requests now k s = ground arith

pub ensure-RunsInv :
    (now : ℕ) (k : String) (s : RunStore) → RunsInv s → RunsInv (ensure_run_control now k s)
ensure-RunsInv now k s v = record {
  control = ensure_run_control-ControlInv now k s v.control;
  requests = record {
    filled = rw (ensure-requests now k s) v.requests.filled;
    one_pending = λ j. rw (ensure-requests now k s) (v.requests.one_pending j);
  };
}

pub update_if-RunsInv :
    (test : RunState → Bool) (f : RunControl → RunControl) (k : String) (s : RunStore)
    → ((row : RunControl) → test row.state ≡ true → RowInv row → RowInv (f row))
    → RunsInv s
    → RunsInv (update_if test f k (run_control k s) s)
update_if-RunsInv test f k s keep v = elim (Option-cases (run_control k s)) [
  | inl e ↦ rw e v
  | inr (row, e) ↦ elim (Bool-cases (test row.state)) [
    | inl p ↦
        rw (e, p)
          (put_control-RunsInv k (f row) s v (keep row p (RowInv-lookup s k row v.control e)))
    | inr p ↦ rw (e, p) v
  ]
]

-- A transition that `IsInterim` allows writes a row that the next start accepts.
interim-RowInv :
    (now : ℕ) (expected : RunState → Bool) (t : Transition) (row : RunControl)
    → IsInterim expected t
    → is_run_state t.new_state ≡ true
    → expected row.state ≡ true
    → RowInv row
    → RowInv (transition_row now t row)
unfolding transition_row unknown_run_state invalid_state_version terminal_timestamp_mismatch
    retry_schedule_mismatch completed_metadata_missing flow_completion_metadata_missing
    abort_metadata_missing abort_terminal_timestamp_missing completed_before_abort_head_missing
    invalid_merge_commit
interim-RowInv now expected t row i known from v = ground (
  arith,
  i.from_live row.state from,
  i.to_live,
  i.scheduled,
  i.unscheduled,
  i.no_merge,
  λ (h : is_abort_open t.new_state ≡ true). i.same_abort h row.state from,
)

module _ (meanwhile : RunStore → RunStore) (now : ℕ) (k : String) (s : RunStore)
    (others : Advances s (meanwhile s)) (v : RunsInv s) (v' : RunsInv (meanwhile s)) where
  transition-RunsInv :
      (expected : RunState → Bool) (t : Transition)
      → ((row : RunControl)
          → is_run_state t.new_state ≡ true
          → expected row.state ≡ true
          → RowInv row
          → RowInv (transition_row now t row))
      → RunsInv (transition_run meanwhile now k expected t s).1
  transition-RunsInv expected t keep =
      elim (Result-cases (transition_run meanwhile now k expected t s)) [
        | inl (row', s', e) ↦
            rw e (
              applied row' s'
                (transition_run-Applied meanwhile now k expected t s others row' s' e))
        | inr (x, s', e) ↦
            rw e (stays s' (transition_run_error meanwhile now k expected t s x s' e))
      ]
    where
      applied :
          (row' : RunControl) (s' : RunStore)
          → Applied meanwhile now k expected t s row' s'
          → RunsInv s'
      applied row' s' a =
          rw (a.stored, a.written)
            (put_control-RunsInv k _ (meanwhile s) v' (
              keep a.row a.to_known a.from_expected
                (RowInv-lookup (meanwhile s) k a.row v'.control a.still)))

      stays : (s' : RunStore) → (s' ≡ s) ⊎ (s' ≡ meanwhile s) → RunsInv s'
      stays s' (inl p) = rw p v
      stays s' (inr p) = rw p v'

  pub interim-RunsInv :
      (expected : RunState → Bool) (t : Transition)
      → IsInterim expected t
      → RunsInv (transition_run meanwhile now k expected t s).1
  interim-RunsInv expected t i =
      transition-RunsInv expected t
        (λ row known from w. interim-RowInv now expected t row i known from w)

  pub completed-RunsInv :
      (external : Bool) (compliance head : String) (merge : Option String) (reason : String)
      → is_compliance compliance ≡ true
      → RunsInv (mark_completed meanwhile now k external compliance head merge reason s).1
  completed-RunsInv external compliance head merge reason c =
      elim (mark_completed_cases meanwhile now k s external compliance head merge reason) [
        | inl e ↦ rw e v
        | inr (e, h, m) ↦ rw e (
            transition-RunsInv is_completable _ (λ row _ from w.
              completion-RowInv now external compliance head merge reason row c h m from w))
      ]

  pub flow_completed-RunsInv :
      (state : RunState) (head reason : String)
      → RunsInv (mark_flow_completed meanwhile now k state head reason s).1
  flow_completed-RunsInv state head reason =
      elim (mark_flow_completed_cases meanwhile now k s state head reason) [
        | inl e ↦ rw e v
        | inr (e, f, h) ↦ rw e (
            transition-RunsInv is_unfinished _
              (λ row _ from w. flow_completion-RowInv now state head reason row f h from w))
      ]

  pub exception-RunsInv : (reason : String) → RunsInv (set_run_exception meanwhile now k reason s).1
  exception-RunsInv reason = elim (set_run_exception_cases meanwhile now k s reason) [
    | inl e ↦ rw e v
    | inr e ↦ rw e (
        transition-RunsInv is_unfinished _
          (λ row _ from w. to_exception-RowInv now reason row from w))
  ]
