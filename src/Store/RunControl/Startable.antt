-- ===== src/Store/RunControl/Startable.antt =====
-- The methods on run_control keep a store that the next start accepts.
use hermes_agents_by_kanban.Prelude.{
  ℕ, ◌≡◌, refl, inl, inr, String, Bool, true, false, Option, none, some, arith, Option-cases,
  is_sha, is_sha_or_none, if◌then◌else◌, text_eq,
}
use hermes_agents_by_kanban.Store.RunState.{
  RunState, is_terminal, is_completable, is_unfinished, is_flow_completed, completed_ready,
}
use hermes_agents_by_kanban.Store.Runs.{RunControl, RunStore}
use hermes_agents_by_kanban.Store.Startup.{
  IsStartable, lookup-IsStartable, startup_failure, startup_failure-put, is_compliance, is_source,
  unknown_run_state, invalid_state_version, terminal_timestamp_mismatch, retry_schedule_mismatch,
  completed_metadata_missing, flow_completion_metadata_missing, abort_metadata_missing,
  abort_terminal_timestamp_missing, completed_before_abort_head_missing, invalid_merge_commit,
}
use hermes_agents_by_kanban.Store.RunControl.{
  run_control, put_control, run_control-put_control, new_row, insert_or_ignore, ensure_run_control,
  transition_row, completion, flow_completion, flow_compliance, to_exception,
}

-- What holds of each row: the next start accepts it, and only a run that has ended has a merge
-- commit.
pub record RowInv (row : RunControl) : Type 0 where
  pub startable : IsStartable row
  pub early : is_terminal row.state ≡ false → row.merge_commit_sha ≡ none

-- The source that `mark_completed` writes is one that the next start knows.
source_known : (external : Bool) → is_source (if external then "external" else "controller") ≡ true
source_known true = refl
source_known false = refl

flow_compliance_known : (state : RunState) → is_compliance (flow_compliance state) ≡ true
flow_compliance_known completed_ready = refl
flow_compliance_known _ = refl

pub completion-RowInv :
    (now : ℕ) (external : Bool) (compliance head : String) (merge : Option String) (reason : String)
    (row : RunControl)
    → is_compliance compliance ≡ true
    → is_sha head ≡ true
    → is_sha_or_none merge ≡ true
    → is_completable row.state ≡ true
    → RowInv row
    → RowInv (transition_row now (completion external compliance head merge reason) row)
unfolding transition_row unknown_run_state invalid_state_version terminal_timestamp_mismatch
    retry_schedule_mismatch completed_metadata_missing flow_completion_metadata_missing
    abort_metadata_missing abort_terminal_timestamp_missing completed_before_abort_head_missing
    invalid_merge_commit
completion-RowInv now external compliance head merge reason row c h m f v =
    ground (arith, source_known external)

pub flow_completion-RowInv :
    (now : ℕ) (state : RunState) (head reason : String) (row : RunControl)
    → is_flow_completed state ≡ true
    → is_sha head ≡ true
    → is_unfinished row.state ≡ true
    → RowInv row
    → RowInv (transition_row now (flow_completion state head reason) row)
unfolding transition_row unknown_run_state invalid_state_version terminal_timestamp_mismatch
    retry_schedule_mismatch completed_metadata_missing flow_completion_metadata_missing
    abort_metadata_missing abort_terminal_timestamp_missing completed_before_abort_head_missing
    invalid_merge_commit
flow_completion-RowInv now state head reason row c h f v =
    ground (arith, flow_compliance_known state)

pub to_exception-RowInv :
    (now : ℕ) (reason : String) (row : RunControl)
    → is_unfinished row.state ≡ true
    → RowInv row
    → RowInv (transition_row now (to_exception reason) row)
unfolding transition_row unknown_run_state invalid_state_version terminal_timestamp_mismatch
    retry_schedule_mismatch completed_metadata_missing flow_completion_metadata_missing
    abort_metadata_missing abort_terminal_timestamp_missing completed_before_abort_head_missing
    invalid_merge_commit
to_exception-RowInv now reason row m v = ground arith

-- What holds of the table run_control between two statements.
pub record ControlInv (s : RunStore) : Type 0 where
  pub starts : startup_failure s.run_control ≡ none
  pub early :
      (k : String) (row : RunControl)
      → run_control k s ≡ some row
      → is_terminal row.state ≡ false
      → row.merge_commit_sha ≡ none

pub RowInv-lookup :
    (s : RunStore) (k : String) (row : RunControl)
    → ControlInv s
    → run_control k s ≡ some row
    → RowInv row
unfolding run_control
RowInv-lookup s k row v e = record {
  startable = lookup-IsStartable k s.run_control v.starts e;
  early = v.early k row e;
}

put_control-early :
    (k j : String) (row q : RunControl) (s : RunStore)
    → ControlInv s
    → RowInv row
    → run_control j (put_control k row s) ≡ some q
    → is_terminal q.state ≡ false
    → q.merge_commit_sha ≡ none
put_control-early k j row q s v w e open_run =
    ground (arith, run_control-put_control k j row s, v.early j q, w.early)

pub put_control-ControlInv :
    (k : String) (row : RunControl) (s : RunStore)
    → ControlInv s
    → RowInv row
    → ControlInv (put_control k row s)
unfolding put_control
put_control-ControlInv k row s v w = record {
  starts = startup_failure-put k row s.run_control v.starts w.startable;
  early = λ j q. put_control-early k j row q s v w;
}

new_row-RowInv : (now : ℕ) → RowInv (new_row now)
unfolding unknown_run_state invalid_state_version terminal_timestamp_mismatch
    retry_schedule_mismatch completed_metadata_missing flow_completion_metadata_missing
    abort_metadata_missing abort_terminal_timestamp_missing completed_before_abort_head_missing
    invalid_merge_commit
new_row-RowInv now = ground arith

pub ensure_run_control-ControlInv :
    (now : ℕ) (k : String) (s : RunStore) → ControlInv s → ControlInv (ensure_run_control now k s)
unfolding ensure_run_control
ensure_run_control-ControlInv now k s v = elim (Option-cases (run_control k s)) [
  | inl e ↦
      rw (e, insert_or_ignore) (put_control-ControlInv k (new_row now) s v (new_row-RowInv now))
  | inr (row, e) ↦ rw (e, insert_or_ignore) v
]
