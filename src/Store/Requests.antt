-- ===== src/Store/Requests.antt =====
-- The table requests of hollysys_controller/store.py: the commands that reach the controller, each
-- under the key of its message. Payloads and responses are JSON texts; `Json`, its `dumps` (with
-- sorted keys and without) and its `loads` are Python's.
pub mod Lifetime
pub mod Replay
use hermes_agents_by_kanban.Prelude.{
  ℕ, String, Bool, true, false, ◌||◌, Option, none, some, ◌==◌, clip, if◌then◌else◌, text_eq,
}
use hermes_agents_by_kanban.Table.{Table, lookup, put}
use hermes_agents_by_kanban.Exec.{
  Exec, pure, raise, connect, get_state, require, modify, ◌>>=◌, ◌>>◌,
}

pub data RequestStatus : Type 0 where
  running done failed : RequestStatus

-- CREATE TABLE requests, keyed by request_key
pub record Request : Type 0 where
  pub kind : String
  pub run_key : Option String
  pub payload : String
  pub status : RequestStatus
  pub response : Option String
  pub error : Option String
  pub created_at : ℕ
  pub updated_at : ℕ

abbrev pub Requests : Type 0
Requests = Table String Request

pub data RequestError : Type 0 where
  request_key_reused request_not_running request_run_key_changed : String → RequestError
  -- The stored error, or none for the default text.
  request_failed : String → Option String → RequestError

abbrev pub RequestExec : Type 0 → Type 0
RequestExec A = Exec RequestError Requests A

abbrev pub is_running : RequestStatus → Bool
is_running running = true
is_running done = false
is_running failed = false

-- row["response"] or row["error"], where it is not empty
abbrev pub filled : Option String → Option String
filled none = none
filled (some t) = if t == "" then none else some t

-- row["run_key"] not in {None, run_key}
abbrev pub is_other_run : String → Option String → Bool
is_other_run run_key none = false
is_other_run run_key (some bound) = if bound == run_key then false else true

unfoldable pub new_request : ℕ → String → String → Request
new_request now kind encoded = record {
  kind = kind;
  run_key = none;
  payload = encoded;
  status = running;
  response = none;
  error = none;
  created_at = now;
  updated_at = now;
}

-- UPDATE requests SET ... WHERE request_key=?
abbrev pub write_back : String → (Request → Request) → Requests → Option Request → Requests
write_back key f s none = s
write_back key f s (some row) = put key (f row) s

unfoldable pub update_request : String → (Request → Request) → Requests → Requests
update_request key f s = write_back key f s (lookup key s)

unfoldable pub fail_row : ℕ → String → Request → Request
fail_row now error row = record row {
  status = failed;
  error = some (clip 2000 error);
  updated_at = now;
}

unfoldable pub fail_request : ℕ → String → String → Requests → Requests
fail_request now key error = update_request key (fail_row now error)

unfoldable pub bind_row : ℕ → String → Request → Request
bind_row now run_key row = record row { run_key = some run_key; updated_at = now }

abbrev pub bind_found : ℕ → String → String → Option Request → RequestExec (Unit {0})
bind_found now key run_key none = raise (request_not_running key)
bind_found now key run_key (some row) = do
  require (is_running row.status) (request_not_running key)
  require (if is_other_run run_key row.run_key then false else true) (request_run_key_changed key)
  modify (put key (bind_row now run_key row))

unfoldable pub bind_request_run : ℕ → String → String → RequestExec (Unit {0})
bind_request_run now key run_key =
    connect do s ← get_state; bind_found now key run_key (lookup key s)

unfoldable pub finish_row : ℕ → String → Request → Request
finish_row now response row = record row {
  status = done;
  response = some response;
  error = none;
  updated_at = now;
}

module _ {Json : Type 0} (dumps sorted : Json → String) (loads : String → Json) where
  unfoldable pub finish_request : ℕ → String → Json → Requests → Requests
  finish_request now key response = update_request key (finish_row now (dumps response))

  -- What a row with the same payload answers: only a running row, or one that is done with no
  -- response, lets the caller go on.
  abbrev pub answer : String → RequestStatus → Request → Option String → RequestExec (Option Json)
  answer key done row (some response) = pure (some (loads response))
  answer key done row none = pure none
  answer key failed row response = raise (request_failed key (filled row.error))
  answer key running row response = pure none

  abbrev pub begin_found : ℕ → String → String → Json → Option Request → RequestExec (Option Json)
  begin_found now key kind payload none =
      modify (put key (new_request now kind (sorted payload))) >> pure none
  begin_found now key kind payload (some row) = do
    require (row.payload == sorted payload) (request_key_reused key)
    answer key row.status row (filled row.response)

  unfoldable pub begin_request : ℕ → String → String → Json → RequestExec (Option Json)
  begin_request now key kind payload =
      connect do s ← get_state; begin_found now key kind payload (lookup key s)
