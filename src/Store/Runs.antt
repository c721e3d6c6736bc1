-- ===== src/Store/Runs.antt =====
-- The tables run_control, abort_requests and merge_wait of hollysys_controller/store.py, and the
-- errors that the methods on them raise.
use hermes_agents_by_kanban.Prelude.{ℕ, String, Option, none, some, List}
use hermes_agents_by_kanban.Table.{Table}
use hermes_agents_by_kanban.Exec.{Exec, raise, pure}
use hermes_agents_by_kanban.Store.RunState.{RunState}

-- CREATE TABLE run_control, keyed by run_key
pub record RunControl : Type 0 where
  pub state : RunState
  pub state_version : ℕ
  pub terminal_at : Option ℕ
  pub last_transition_reason : Option String
  pub next_retry_at : Option ℕ
  pub compliance : Option String
  pub completion_source : Option String
  pub checked_head : Option String
  pub merge_commit_sha : Option String
  pub abort_requested_by : Option String
  pub abort_reason : Option String
  pub abort_requested_at : Option ℕ
  pub aborted_at : Option ℕ
  pub updated_at : ℕ

pub data AbortStatus : Type 0 where
  pending expired confirmed : AbortStatus

-- CREATE TABLE abort_requests
pub record AbortRequest : Type 0 where
  pub request_id : String
  pub run_key : String
  pub token_hash : String
  pub sender : String
  pub chat_id : String
  pub thread_id : Option String
  pub reason : String
  pub expires_at : ℕ
  pub status : AbortStatus
  pub confirm_message_id : Option String
  pub created_at : ℕ
  pub updated_at : ℕ

-- CREATE TABLE merge_wait, keyed by run_key
pub record MergeWait : Type 0 where
  pub mr_iid : ℕ
  pub head_sha : Option String
  pub blocker_kind : String
  pub blocker : String
  pub blocker_url : Option String
  pub blocker_owner : Option String
  pub blocker_updated_at : Option String
  pub first_seen_at : ℕ
  pub last_checked_at : ℕ
  pub next_retry_at : ℕ

pub record RunStore : Type 0 where
  pub run_control : Table String RunControl
  pub abort_requests : List AbortRequest
  pub merge_wait : Table String MergeWait

pub data StoreError : Type 0 where
  invalid_run_state : RunState → StoreError
  unknown_run : String → StoreError
  invalid_run_transition : RunState → RunState → StoreError
  stale_run_version : ℕ → ℕ → StoreError
  stale_run_row : String → StoreError
  invalid_checked_head invalid_merge_commit_sha : StoreError
  invalid_flow_state invalid_abort_state : RunState → StoreError
  cannot_request_abort : String → RunState → StoreError
  no_pending_abort abort_token_expired abort_mismatch run_not_active database_error : StoreError

abbrev pub RunExec : Type 0 → Type 0
RunExec A = Exec StoreError RunStore A

-- if row is None: raise e
abbrev pub found : {A : Type 0} → StoreError → Option A → RunExec A
found e none = raise e
found e (some a) = pure a
