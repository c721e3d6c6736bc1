-- ===== src/Store/History.antt =====
-- Every way in which the methods of hollysys_controller/store.py change run_control, abort_requests
-- and merge_wait, as a relation between stores, with the writes of other connections in between.
mod Control
mod Aborts
pub mod Keeps
mod KeepsAborts
pub mod Advance
pub mod Invariant
use hermes_agents_by_kanban.Prelude.{
  ℕ, ◌≡◌, String, Bool, true, false, not, ◌&&◌, ◌||◌, Option, none, ◌==◌, text_eq, is_some, List,
}
use hermes_agents_by_kanban.Store.RunState.{
  RunState, is_terminal, is_run_state, is_waiting, is_abort_open,
}
use hermes_agents_by_kanban.Store.Runs.{RunStore}
use hermes_agents_by_kanban.Store.Startup.{is_compliance}
use hermes_agents_by_kanban.Store.RunControl.{
  Transition, ensure_run_control, transition_run, mark_completed, mark_flow_completed,
  set_run_exception,
}
use hermes_agents_by_kanban.Store.Abort.{
  NewAbort, is_filled, Confirmation, create_abort_request, confirm_abort_request, mark_aborting,
  finish_abort,
}
use hermes_agents_by_kanban.Store.MergeWait.{Blocker, set_merge_wait, clear_merge_wait}

-- How service.py calls `transition_run`: between states that are not terminal, into a waiting state
-- with the time of the retry and into no other with one, with no merge commit; an abort that is
-- open goes on only as the state that it was.
pub record IsInterim (expected_states : RunState → Bool) (t : Transition) : Type 0 where
  pub from_live : (q : RunState) → expected_states q ≡ true → is_terminal q ≡ false
  pub to_live : is_terminal t.new_state ≡ false
  pub scheduled : is_waiting t.new_state ≡ true → is_some t.next_retry_at ≡ true
  pub unscheduled :
      is_waiting t.new_state ≡ false → is_abort_open t.new_state ≡ false → t.next_retry_at ≡ none
  pub no_merge : t.merge_commit_sha ≡ none
  pub same_abort :
      is_abort_open t.new_state ≡ true
      → (q : RunState) → expected_states q ≡ true
      → is_abort_open q ≡ true

pub data Steps : RunStore → RunStore → Type 0 where
  here : {s : RunStore} → Steps s s
  ensured :
      {s t : RunStore} (now : ℕ) (k : String) → Steps s t → Steps s (ensure_run_control now k t)
  transitioned :
      {s t : RunStore} (meanwhile : RunStore → RunStore) (now : ℕ) (k : String)
      (expected_states : RunState → Bool) (x : Transition)
      → IsInterim expected_states x
      → Steps s t
      → Steps t (meanwhile t)
      → Steps s (transition_run meanwhile now k expected_states x t).1
  completing :
      {s t : RunStore} (meanwhile : RunStore → RunStore) (now : ℕ) (k : String) (external : Bool)
      (compliance head : String) (merge : Option String) (reason : String)
      → is_compliance compliance ≡ true
      → Steps s t
      → Steps t (meanwhile t)
      → Steps s (mark_completed meanwhile now k external compliance head merge reason t).1
  flow_completing :
      {s t : RunStore} (meanwhile : RunStore → RunStore) (now : ℕ) (k : String) (state : RunState)
      (head reason : String)
      → Steps s t
      → Steps t (meanwhile t)
      → Steps s (mark_flow_completed meanwhile now k state head reason t).1
  excepting :
      {s t : RunStore} (meanwhile : RunStore → RunStore) (now : ℕ) (k reason : String)
      → Steps s t
      → Steps t (meanwhile t)
      → Steps s (set_run_exception meanwhile now k reason t).1
  abort_created :
      {s t : RunStore} (now : ℕ) (a : NewAbort)
      → is_filled a ≡ true
      → Steps s t
      → Steps s (create_abort_request now a t).1
  abort_confirmed :
      {s t : RunStore} (now : ℕ) (c : Confirmation)
      → Steps s t
      → Steps s (confirm_abort_request now c t).1
  aborting_marked :
      {s t : RunStore} (now : ℕ) (k : String) → Steps s t → Steps s (mark_aborting now k t)
  abort_finished :
      {s t : RunStore} (now : ℕ) (k : String) (state : RunState) (head merge : Option String)
      → Steps s t
      → Steps s (finish_abort now k state head merge t).1
  wait_set :
      {s t : RunStore} (now : ℕ) (k : String) (b : Blocker)
      → Steps s t
      → Steps s (set_merge_wait now k b t).1
  wait_cleared : {s t : RunStore} (k : String) → Steps s t → Steps s (clear_merge_wait k t)
