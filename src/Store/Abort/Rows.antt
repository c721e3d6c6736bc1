-- ===== src/Store/Abort/Rows.antt =====
-- The rows that an abort writes to run_control are rows that the next start accepts.
use hermes_agents_by_kanban.Prelude.{
  ℕ, ◌≡◌, String, true, false, not, ◌||◌, Option, arith, ◌==◌, text_eq, is_sha_or_none,
}
use hermes_agents_by_kanban.Store.RunState.{
  RunState, is_abortable, is_abort_open, is_abort_ended, is_abort_requested,
  is_completed_before_abort,
}
use hermes_agents_by_kanban.Store.Runs.{RunControl, AbortRequest}
use hermes_agents_by_kanban.Store.Startup.{
  unknown_run_state, invalid_state_version, terminal_timestamp_mismatch, retry_schedule_mismatch,
  completed_metadata_missing, flow_completion_metadata_missing, abort_metadata_missing,
  abort_terminal_timestamp_missing, completed_before_abort_head_missing, invalid_merge_commit,
}
use hermes_agents_by_kanban.Store.RunControl.Startable.{RowInv}
use hermes_agents_by_kanban.Store.Abort.{
  Confirmation, request_abort_row, aborting_row, abort_end_row, is_some_sha,
}

pub request_abort-RowInv :
    (now : ℕ) (c : Confirmation) (r : AbortRequest) (row : RunControl)
    → is_abortable row.state ≡ true
    → (c.sender == "") ≡ false
    → (r.reason == "") ≡ false
    → RowInv row
    → RowInv (request_abort_row now c r row)
unfolding unknown_run_state invalid_state_version terminal_timestamp_mismatch
    retry_schedule_mismatch completed_metadata_missing flow_completion_metadata_missing
    abort_metadata_missing abort_terminal_timestamp_missing completed_before_abort_head_missing
    invalid_merge_commit
request_abort-RowInv now c r row from sender reason v = ground arith

pub aborting-RowInv :
    (now : ℕ) (row : RunControl)
    → is_abort_requested row.state ≡ true
    → RowInv row
    → RowInv (aborting_row now row)
unfolding unknown_run_state invalid_state_version terminal_timestamp_mismatch
    retry_schedule_mismatch completed_metadata_missing flow_completion_metadata_missing
    abort_metadata_missing abort_terminal_timestamp_missing completed_before_abort_head_missing
    invalid_merge_commit
aborting-RowInv now row from v = ground arith

pub abort_end-RowInv :
    (now : ℕ) (state : RunState) (head merge : Option String) (row : RunControl)
    → is_abort_ended state ≡ true
    → (not (is_completed_before_abort state) || is_some_sha head) ≡ true
    → is_sha_or_none merge ≡ true
    → is_abort_open row.state ≡ true
    → RowInv row
    → RowInv (abort_end_row now state head merge row)
unfolding unknown_run_state invalid_state_version terminal_timestamp_mismatch
    retry_schedule_mismatch completed_metadata_missing flow_completion_metadata_missing
    abort_metadata_missing abort_terminal_timestamp_missing completed_before_abort_head_missing
    invalid_merge_commit
abort_end-RowInv now state head merge row to h m from v = ground arith
