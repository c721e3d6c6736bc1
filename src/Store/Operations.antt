-- ===== src/Store/Operations.antt =====
-- The table operations of hollysys_controller/store.py: the idempotency record of every change that
-- the controller makes outside its database. Payloads and results are kept as JSON texts; `Json`, its
-- `dumps` (with sorted keys and without) and its `loads` are Python's.
pub mod Replay
use hermes_agents_by_kanban.Prelude.{
  ℕ, ◌+◌, String, Bool, true, false, not, ◌&&◌, ◌||◌, Option, none, some, ◌==◌, ltb, clip,
  if◌then◌else◌, text_eq, nat_eq, option_beq, coalesce,
}
use hermes_agents_by_kanban.Table.{Table, lookup, put}
use hermes_agents_by_kanban.Exec.{
  Exec, pure, raise, connect, get_state, require, modify, ◌>>=◌, ◌>>◌,
}

pub data OperationStatus : Type 0 where
  executing running done failed blocked superseded uncertain : OperationStatus

-- CREATE TABLE operations, keyed by operation_key
pub record Operation : Type 0 where
  pub kind : String
  pub payload : String
  pub status : OperationStatus
  pub result : Option String
  pub error : Option String
  pub expected_state_version : Option ℕ
  pub expected_head_sha : Option String
  pub uncertain_at : Option ℕ
  pub attempts : ℕ
  pub created_at : ℕ
  pub updated_at : ℕ

abbrev pub Operations : Type 0
Operations = Table String Operation

pub data OperationError : Type 0 where
  operation_key_reused operation_expectation_changed : String → OperationError

abbrev pub OperationExec : Type 0 → Type 0
OperationExec A = Exec OperationError Operations A

-- What a caller passes beside the payload.
pub record Expectation : Type 0 where
  pub kind : String
  pub state_version : Option ℕ
  pub head_sha : Option String

abbrev pub is_done : OperationStatus → Bool
is_done done = true
is_done executing = false
is_done running = false
is_done failed = false
is_done blocked = false
is_done superseded = false
is_done uncertain = false

-- row["status"] in {"executing", "running", "uncertain"}
abbrev pub is_unsettled : OperationStatus → Bool
is_unsettled executing = true
is_unsettled running = true
is_unsettled uncertain = true
is_unsettled done = false
is_unsettled failed = false
is_unsettled blocked = false
is_unsettled superseded = false

unfoldable pub version_advanced : Option ℕ → Option ℕ → Bool
version_advanced (some stored) (some expected) = ltb stored expected
version_advanced (some stored) none = false
version_advanced none expected = false

-- A text that Python counts as true.
abbrev pub filled_text : Option String → Option String
filled_text none = none
filled_text (some t) = if t == "" then none else some t

-- row["result"], where row["status"] == "done" and it is not empty
unfoldable pub stored_result : Operation → Option String
stored_result row = if is_done row.status then filled_text row.result else none

unfoldable pub new_operation : ℕ → String → Expectation → Operation
new_operation now encoded x = record {
  kind = x.kind;
  payload = encoded;
  status = executing;
  result = none;
  error = none;
  expected_state_version = x.state_version;
  expected_head_sha = x.head_sha;
  uncertain_at = none;
  attempts = 1;
  created_at = now;
  updated_at = now;
}

unfoldable pub retried : ℕ → Expectation → Operation → Operation
retried now x row = record row {
  status = executing;
  uncertain_at = if is_unsettled row.status then some now else row.uncertain_at;
  attempts = row.attempts + 1;
  expected_state_version = x.state_version;
  updated_at = now;
}

unfoldable pub operation_record : String → Operations → Option Operation
operation_record key s = lookup key s

abbrev pub write_back :
    String → (Operation → Operation) → Operations → Option Operation → Operations
write_back key f s none = s
write_back key f s (some row) = put key (f row) s

-- UPDATE operations SET ... WHERE operation_key=?
unfoldable pub update_operation : String → (Operation → Operation) → Operations → Operations
update_operation key f s = write_back key f s (lookup key s)

unfoldable pub block_operation : ℕ → String → String → Operations → Operations
block_operation now key error =
    update_operation key
      λ row. record row { status = blocked; error = some (clip 2000 error); updated_at = now }

unfoldable pub fail_operation : ℕ → String → String → Operations → Operations
fail_operation now key error =
    update_operation key
      λ row. record row { status = failed; error = some (clip 2000 error); updated_at = now }

unfoldable pub supersede_operation : ℕ → String → String → Operations → Operations
supersede_operation now key error =
    update_operation key
      λ row. record row { status = superseded; error = some (clip 2000 error); updated_at = now }

unfoldable pub mark_operation_uncertain : ℕ → String → String → Operations → Operations
mark_operation_uncertain now key error = update_operation key λ row. record row {
  status = uncertain;
  error = some (clip 2000 error);
  uncertain_at = coalesce row.uncertain_at (some now);
  updated_at = now;
}

module _ {Json : Type 0} (dumps sorted : Json → String) (loads : String → Json) where
  unfoldable pub is_same_operation : Expectation → Json → Operation → Bool
  is_same_operation x payload row = row.kind == x.kind && row.payload == sorted payload

  unfoldable pub version_accepted : Expectation → Operation → Bool
  version_accepted x row =
      option_beq row.expected_state_version x.state_version
      || version_advanced row.expected_state_version x.state_version

  abbrev pub answer :
      ℕ → String → Expectation → Operation → Option String → OperationExec (Option Json)
  answer now key x row (some text) = pure (some (loads text))
  answer now key x row none = modify (put key (retried now x row)) >> pure none

  unfoldable pub resume :
      ℕ → String → Expectation → Json → Option Operation → OperationExec (Option Json)
  unfolding is_same_operation
  resume now key x payload none =
      modify (put key (new_operation now (sorted payload) x)) >> pure none
  resume now key x payload (some row) = do
    require (is_same_operation x payload row) (operation_key_reused key)
    require (option_beq row.expected_head_sha x.head_sha) (operation_expectation_changed key)
    require (version_accepted x row) (operation_expectation_changed key)
    answer now key x row (stored_result row)

  unfoldable pub operation_result : ℕ → String → Expectation → Json → OperationExec (Option Json)
  operation_result now key x payload =
      connect do s ← get_state; resume now key x payload (lookup key s)

  unfoldable pub finish_operation : ℕ → String → Json → Operations → Operations
  finish_operation now key result = update_operation key λ row. record row {
    status = done;
    result = some (dumps result);
    error = none;
    uncertain_at = none;
    updated_at = now;
  }
