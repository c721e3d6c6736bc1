-- ===== src/Store/Abort.antt =====
-- The abort of a run in hollysys_controller/store.py: a request, its confirmation by the same sender
-- in the same channel with the token, the execution, and its end.
pub mod Cases
pub mod Filled
pub mod Requests
pub mod Rows
use hermes_agents_by_kanban.Prelude.{
  ℕ, ◌+◌, String, Bool, true, false, not, ◌&&◌, ◌||◌, Option, none, some, List, [], ◌∷◌, ◌++◌, map,
  ◌==◌, coalesce, is_sha, is_sha_or_none, if◌then◌else◌, text_eq, option_beq, ltb, leb,
}
use hermes_agents_by_kanban.Table.{delete}
use hermes_agents_by_kanban.Exec.{
  pure, connect, get_state, ◌>>=◌, ◌>>◌, require, modify, raise, Exec,
}
use hermes_agents_by_kanban.Store.RunState.{
  RunState, abort_requested, aborting, is_abortable, is_abort_open, is_abort_ended,
  is_abort_requested, is_completed_before_abort,
}
use hermes_agents_by_kanban.Store.Runs.{
  RunControl, RunStore, RunExec, AbortRequest, AbortStatus, pending, expired, confirmed, found,
  unknown_run, invalid_checked_head, invalid_merge_commit_sha, invalid_abort_state,
  cannot_request_abort, no_pending_abort, abort_token_expired, abort_mismatch, run_not_active,
  database_error,
}
use hermes_agents_by_kanban.Store.RunControl.{run_control, put_control, ensure_run_control}

abbrev pub is_pending : AbortStatus → Bool
is_pending pending = true
is_pending _ = false

-- The arguments of `create_abort_request`.
pub record NewAbort : Type 0 where
  pub request_id : String
  pub run_key : String
  pub token_hash : String
  pub sender : String
  pub chat_id : String
  pub thread_id : Option String
  pub reason : String
  pub expires_at : ℕ

-- The request validation lets no empty sender and no empty reason through.
abbrev pub is_filled : NewAbort → Bool
is_filled a = not (a.sender == "") && not (a.reason == "")

unfoldable pub pends_for : String → AbortRequest → Bool
pends_for run_key r = r.run_key == run_key && is_pending r.status

-- UPDATE abort_requests SET status='expired' WHERE run_key=? AND status='pending'
unfoldable pub expire_request : ℕ → String → AbortRequest → AbortRequest
expire_request now run_key r =
    if pends_for run_key r then record r { status = expired; updated_at = now } else r

unfoldable pub has_request : String → List AbortRequest → Bool
has_request id [] = false
has_request id (r ∷ rs) = r.request_id == id || has_request id rs

abbrev pub new_request : ℕ → NewAbort → AbortRequest
new_request now a = record {
  request_id = a.request_id;
  run_key = a.run_key;
  token_hash = a.token_hash;
  sender = a.sender;
  chat_id = a.chat_id;
  thread_id = a.thread_id;
  reason = a.reason;
  expires_at = a.expires_at;
  status = pending;
  confirm_message_id = none;
  created_at = now;
  updated_at = now;
}

unfoldable pub add_request : ℕ → NewAbort → RunStore → RunStore
add_request now a s = record s {
  abort_requests = map (expire_request now a.run_key) s.abort_requests ++ new_request now a ∷ [];
}

-- `ensure_run_control` is a transaction of its own. A second request with one id breaks the
-- primary key.
unfoldable pub create_abort_request : ℕ → NewAbort → RunExec (String × String × ℕ × String)
create_abort_request now a = do
  modify (ensure_run_control now a.run_key)
  connect do
    s ← get_state
    row ← found (unknown_run a.run_key) (run_control a.run_key s)
    require (is_abortable row.state) (cannot_request_abort a.run_key row.state)
    require (not (has_request a.request_id s.abort_requests)) database_error
    modify (add_request now a)
    pure (a.request_id, a.run_key, a.expires_at, a.reason)

-- ORDER BY created_at DESC LIMIT 1, over the pending requests of the run
abbrev pub later : AbortRequest → Option AbortRequest → Option AbortRequest
later r none = some r
later r (some q) = if ltb q.created_at r.created_at then some r else some q

unfoldable pub latest_pending : String → List AbortRequest → Option AbortRequest
unfolding pends_for
latest_pending run_key [] = none
latest_pending run_key (r ∷ rs) =
    let rest = latest_pending run_key rs in if pends_for run_key r then later r rest else rest

-- The arguments of `confirm_abort_request`.
pub record Confirmation : Type 0 where
  pub run_key : String
  pub token_hash : String
  pub sender : String
  pub chat_id : String
  pub thread_id : Option String
  pub message_id : String

-- thread_id or None
abbrev pub or_none : Option String → Option String
or_none none = none
or_none (some t) = if t == "" then none else some t

unfoldable pub confirms : Confirmation → AbortRequest → Bool
confirms c r =
    r.token_hash == c.token_hash
    && r.sender == c.sender
    && r.chat_id == c.chat_id
    && option_beq (or_none r.thread_id) (or_none c.thread_id)

unfoldable pub set_request : String → (AbortRequest → AbortRequest) → AbortRequest → AbortRequest
set_request id f r = if r.request_id == id then f r else r

unfoldable pub write_request : String → (AbortRequest → AbortRequest) → RunStore → RunStore
write_request id f s = record s { abort_requests = map (set_request id f) s.abort_requests }

abbrev pub expire : ℕ → AbortRequest → AbortRequest
expire now r = record r { status = expired; updated_at = now }

abbrev pub confirm : ℕ → Confirmation → AbortRequest → AbortRequest
confirm now c r = record r {
  status = confirmed;
  confirm_message_id = some c.message_id;
  updated_at = now;
}

abbrev pub request_abort_row : ℕ → Confirmation → AbortRequest → RunControl → RunControl
request_abort_row now c r row = record row {
  state = abort_requested;
  abort_requested_by = some c.sender;
  abort_reason = some r.reason;
  abort_requested_at = some now;
  state_version = row.state_version + 1;
  last_transition_reason = some "human_abort_confirmed";
  terminal_at = none;
  next_retry_at = none;
  updated_at = now;
}

-- UPDATE run_control ... WHERE run_key=? AND <the state>
abbrev pub update_if :
    (RunState → Bool) → (RunControl → RunControl) → String → Option RunControl → RunStore → RunStore
update_if test f run_key none s = s
update_if test f run_key (some row) s = if test row.state then put_control run_key (f row) s else s

unfoldable pub request_abort : ℕ → Confirmation → AbortRequest → RunStore → RunStore
request_abort now c r s =
    update_if is_abortable (request_abort_row now c r) c.run_key (run_control c.run_key s) s

-- The UPDATE to 'expired', and the error after it.
abbrev pub reject_expired : ℕ → AbortRequest → RunExec (Option RunControl)
reject_expired now r = do
  modify (write_request r.request_id (expire now))
  raise abort_token_expired

abbrev pub accept_confirmation : ℕ → Confirmation → AbortRequest → RunExec (Option RunControl)
accept_confirmation now c r = do
  require (confirms c r) abort_mismatch
  modify (write_request r.request_id (confirm now c))
  modify (request_abort now c r)
  s' ← get_state
  pure (run_control c.run_key s')

-- The block in the transaction: the control row after the updates.
unfoldable pub confirm_block : ℕ → Confirmation → RunExec (Option RunControl)
unfolding write_request request_abort
confirm_block now c = do
  s ← get_state
  r ← found no_pending_abort (latest_pending c.run_key s.abort_requests)
  if ltb r.expires_at now then reject_expired now r else accept_confirmation now c r

unfoldable pub confirm_abort_request : ℕ → Confirmation → RunExec RunControl
unfolding confirm_block
confirm_abort_request now c = do
  control ← connect (confirm_block now c)
  row ← found run_not_active control
  require (is_abort_requested row.state) run_not_active
  pure row

abbrev pub aborting_row : ℕ → RunControl → RunControl
aborting_row now row = record row {
  state = aborting;
  state_version = row.state_version + 1;
  last_transition_reason = some "abort_execution_started";
  terminal_at = none;
  next_retry_at = none;
  updated_at = now;
}

unfoldable pub mark_aborting : ℕ → String → RunStore → RunStore
mark_aborting now run_key s =
    update_if is_abort_requested (aborting_row now) run_key (run_control run_key s) s

abbrev pub abort_end_row : ℕ → RunState → Option String → Option String → RunControl → RunControl
abort_end_row now state checked_head merge_commit_sha row = record row {
  state = state;
  aborted_at = some now;
  terminal_at = some now;
  state_version = row.state_version + 1;
  last_transition_reason =
      some (
        if is_completed_before_abort state then "merged_before_abort" else "human_abort_completed");
  checked_head = coalesce checked_head row.checked_head;
  merge_commit_sha = coalesce merge_commit_sha row.merge_commit_sha;
  next_retry_at = none;
  updated_at = now;
}

abbrev pub is_some_sha : Option String → Bool
is_some_sha none = false
is_some_sha (some h) = is_sha h

-- The UPDATE, and the DELETE from merge_wait if it changed the row.
abbrev pub end_abort :
    ℕ → String → RunState → Option String → Option String → Option RunControl → RunStore → RunStore
end_abort now run_key state checked_head merge_commit_sha none s = s
end_abort now run_key state checked_head merge_commit_sha (some row) s =
    let s' = put_control run_key (abort_end_row now state checked_head merge_commit_sha row) s in
    if is_abort_open row.state then record s' { merge_wait = delete run_key s'.merge_wait } else s

unfoldable pub finish_abort :
    ℕ → String → RunState → Option String → Option String → RunExec (Unit {0})
finish_abort now run_key state checked_head merge_commit_sha = do
  require (is_abort_ended state) (invalid_abort_state state)
  require (not (is_completed_before_abort state) || is_some_sha checked_head) invalid_checked_head
  require (is_sha_or_none merge_commit_sha) invalid_merge_commit_sha
  s ← get_state
  modify (end_abort now run_key state checked_head merge_commit_sha (run_control run_key s))
