-- ===== src/Store/Outbox.antt =====
-- The table outbox of hollysys_controller/store.py: messages to send, with their retries. Payloads are
-- JSON texts, `now` is `int(time.time())`.
pub mod Retries
use hermes_agents_by_kanban.Prelude.{
  ℕ, zero, suc, ◌+◌, ◌*◌, ◌-◌, ◌^◌, min, max, String, Bool, true, false, not, ◌&&◌, ◌||◌, Option,
  none, some, List, [], ◌∷◌, map, ◌==◌, ltb, leb, clip, if◌then◌else◌, text_eq, nat_eq,
}
use hermes_agents_by_kanban.Table.{Table, lookup, put}
use hermes_agents_by_kanban.Exec.{
  Exec, pure, raise, connect, get_state, require, modify, ◌>>=◌, ◌>>◌,
}

pub data OutboxStatus : Type 0 where
  pending retrying done dead : OutboxStatus

-- CREATE TABLE outbox, keyed by outbox_key
pub record OutboxRow : Type 0 where
  pub run_key : String
  pub event : String
  pub payload : String
  pub status : OutboxStatus
  pub attempts : ℕ
  pub last_error : Option String
  pub error_class : Option String
  pub next_attempt_at : ℕ
  pub dead_at : Option ℕ
  pub created_at : ℕ
  pub updated_at : ℕ

abbrev pub Outbox : Type 0
Outbox = Table String OutboxRow

pub data OutboxError : Type 0 where
  outbox_not_dead : String → OutboxError

abbrev pub is_dead : OutboxStatus → Bool
is_dead dead = true
is_dead pending = false
is_dead retrying = false
is_dead done = false

-- status IN ('pending', 'retrying')
abbrev pub is_open : OutboxStatus → Bool
is_open pending = true
is_open retrying = true
is_open done = false
is_open dead = false

unfoldable pub new_row : ℕ → String → String → String → OutboxRow
new_row now run_key event payload = record {
  run_key = run_key;
  event = event;
  payload = payload;
  status = pending;
  attempts = 0;
  last_error = none;
  error_class = none;
  next_attempt_at = now;
  dead_at = none;
  created_at = now;
  updated_at = now;
}

-- INSERT OR IGNORE
abbrev pub insert_row : String → OutboxRow → Outbox → Option OutboxRow → Outbox
insert_row key row s none = put key row s
insert_row key row s (some present) = s

unfoldable pub enqueue : ℕ → String → String → String → String → Outbox → Outbox
enqueue now key run_key event payload s =
    insert_row key (new_row now run_key event payload) s (lookup key s)

unfoldable pub is_due : ℕ → OutboxRow → Bool
is_due due row = is_open row.status && leb row.next_attempt_at due

-- ORDER BY next_attempt_at, created_at
unfoldable pub is_before : OutboxRow → OutboxRow → Bool
is_before a b =
    ltb a.next_attempt_at b.next_attempt_at
    || (a.next_attempt_at == b.next_attempt_at && leb a.created_at b.created_at)

unfoldable pub insert_sorted :
    String × OutboxRow → List (String × OutboxRow) → List (String × OutboxRow)
insert_sorted r [] = r ∷ []
insert_sorted r (q ∷ qs) =
    let rest = insert_sorted r qs in if is_before r.1 q.1 then r ∷ q ∷ qs else q ∷ rest

unfoldable pub due_rows : ℕ → Outbox → List (String × OutboxRow)
due_rows due [] = []
due_rows due ((key, row) ∷ rows) =
    let rest = due_rows due rows in if is_due due row then insert_sorted (key, row) rest else rest

unfoldable pub take : {A : Type 0} → ℕ → List A → List A
take zero xs = []
take (suc n) [] = []
take (suc n) (x ∷ xs) = x ∷ take n xs

unfoldable pub pending_outbox : ℕ → ℕ → Outbox → List (String × OutboxRow)
pending_outbox limit due s = take limit (due_rows due s)

-- UPDATE outbox SET ... WHERE outbox_key=?
abbrev pub write_back : String → (OutboxRow → OutboxRow) → Outbox → Option OutboxRow → Outbox
write_back key f s none = s
write_back key f s (some row) = put key (f row) s

unfoldable pub update_row : String → (OutboxRow → OutboxRow) → Outbox → Outbox
update_row key f s = write_back key f s (lookup key s)

unfoldable pub finish_outbox : ℕ → String → Outbox → Outbox
finish_outbox now key = update_row key λ row. record row {
  status = done;
  attempts = row.attempts + 1;
  last_error = none;
  error_class = none;
  dead_at = none;
  updated_at = now;
}

abbrev pub attempts_of : Option OutboxRow → ℕ
attempts_of none = 1
attempts_of (some row) = row.attempts + 1

-- The keyword arguments of `fail_outbox`.
pub record Failure : Type 0 where
  pub error : String
  pub error_class : String
  pub initial_backoff_seconds : ℕ
  pub maximum_backoff_seconds : ℕ
  pub permanent : Bool

unfoldable pub delay : Failure → ℕ → ℕ
delay f attempts =
    min f.maximum_backoff_seconds (f.initial_backoff_seconds * 2 ^ max 0 (attempts - 1))

unfoldable pub failed_row : ℕ → Failure → ℕ → OutboxRow → OutboxRow
failed_row now f seconds row = record row {
  status = if f.permanent then dead else retrying;
  attempts = row.attempts + 1;
  last_error = some (clip 2000 f.error);
  error_class = some f.error_class;
  next_attempt_at = now + max 1 seconds;
  dead_at = if f.permanent then some now else none;
  updated_at = now;
}

unfoldable pub fail_outbox : ℕ → String → Failure → Outbox → Outbox
fail_outbox now key f s =
    let attempts = attempts_of (lookup key s) in
    update_row key (failed_row now f (delay f attempts)) s

unfoldable pub is_dead_row : Option OutboxRow → Bool
is_dead_row none = false
is_dead_row (some row) = is_dead row.status

unfoldable pub revive : ℕ → OutboxRow → OutboxRow
revive now row = record row {
  status = pending;
  next_attempt_at = now;
  dead_at = none;
  updated_at = now;
}

-- The raise stands after the block, which has been committed.
unfoldable pub retry_dead_outbox : ℕ → String → Exec OutboxError Outbox (Unit {0})
retry_dead_outbox now key = do
  s ← get_state
  connect (modify (λ s. if is_dead_row (lookup key s) then update_row key (revive now) s else s))
  require (is_dead_row (lookup key s)) (outbox_not_dead key)
