-- ===== src/Store/Reconcile.antt =====
-- The table reconcile_intents of hollysys_controller/store.py: the queue of runs to reconcile, and the
-- leases of the workers. `id` is `uuid.uuid4().hex`, `now` is `int(time.time())`, and `text_lt` is
-- the order of texts by which SQLite sorts.
pub mod Leases
pub mod Requests
pub mod Claims
use hermes_agents_by_kanban.Prelude.{
  ℕ, ◌+◌, max, String, Bool, true, false, not, ◌&&◌, ◌||◌, Option, none, some, List, [], ◌∷◌, ◌++◌,
  map, ◌==◌, ltb, clip, if◌then◌else◌, text_eq, nat_eq, option_beq, is_some,
}
use hermes_agents_by_kanban.Exec.{
  Exec, pure, raise, connect, get_state, require, modify, ◌>>=◌, ◌>>◌,
}

pub data IntentStatus : Type 0 where
  pending leased done : IntentStatus

-- CREATE TABLE reconcile_intents
pub record Intent : Type 0 where
  pub intent_id : String
  pub run_key : String
  pub reason : String
  pub status : IntentStatus
  pub event_id : Option ℕ
  pub lease_owner : Option String
  pub lease_until : Option ℕ
  pub current_step : Option String
  pub attempts : ℕ
  pub revision : ℕ
  pub leased_revision : Option ℕ
  pub last_error : Option String
  pub created_at : ℕ
  pub updated_at : ℕ

-- The intents, and the keys of the table runs.
pub record ReconcileStore : Type 0 where
  pub run_keys : List String
  pub intents : List Intent

pub data ReconcileError : Type 0 where
  unknown_run lease_lost : String → ReconcileError

abbrev pub ReconcileExec : Type 0 → Type 0
ReconcileExec A = Exec ReconcileError ReconcileStore A

abbrev pub is_pending : IntentStatus → Bool
is_pending pending = true
is_pending _ = false

abbrev pub is_leased : IntentStatus → Bool
is_leased leased = true
is_leased _ = false

unfoldable pub has_run : String → List String → Bool
has_run k [] = false
has_run k (j ∷ js) = j == k || has_run k js

unfoldable pub intent_of : String → List Intent → Option Intent
intent_of run_key [] = none
intent_of run_key (i ∷ is) = if i.run_key == run_key then some i else intent_of run_key is

unfoldable pub intent_by_id : String → List Intent → Option Intent
intent_by_id id [] = none
intent_by_id id (i ∷ is) = if i.intent_id == id then some i else intent_by_id id is

-- UPDATE ... WHERE intent_id=?
unfoldable pub update_intent : String → (Intent → Intent) → List Intent → List Intent
update_intent id f [] = []
update_intent id f (i ∷ is) =
    let rest = update_intent id f is in if i.intent_id == id then f i ∷ rest else i ∷ rest

abbrev pub or_zero : Option ℕ → ℕ
or_zero none = 0
or_zero (some n) = n

abbrev pub new_intent : ℕ → String → String → String → Option ℕ → Intent
new_intent now id run_key reason event_id = record {
  intent_id = id;
  run_key = run_key;
  reason = clip 1000 reason;
  status = pending;
  event_id = event_id;
  lease_owner = none;
  lease_until = none;
  current_step = none;
  attempts = 0;
  revision = 1;
  leased_revision = none;
  last_error = none;
  created_at = now;
  updated_at = now;
}

-- ON CONFLICT(run_key) DO UPDATE
unfoldable pub bump_intent : ℕ → String → Option ℕ → Intent → Intent
bump_intent now reason event_id i = record i {
  reason = clip 1000 reason;
  event_id = some (max (or_zero i.event_id) (or_zero event_id));
  status = if is_leased i.status then leased else pending;
  revision = i.revision + 1;
  updated_at = now;
}

unfoldable pub upsert_intent : ℕ → String → String → String → Option ℕ → List Intent → List Intent
upsert_intent now id run_key reason event_id [] = new_intent now id run_key reason event_id ∷ []
upsert_intent now id run_key reason event_id (i ∷ is) =
    let rest = upsert_intent now id run_key reason event_id is in
    if i.run_key == run_key then bump_intent now reason event_id i ∷ is else i ∷ rest

abbrev pub found : {A : Type 0} → ReconcileError → Option A → ReconcileExec A
found e none = raise e
found e (some a) = pure a

abbrev pub intent_id_of : Option Intent → Option String
intent_id_of none = none
intent_id_of (some i) = some i.intent_id

unfoldable pub enqueue_reconcile :
    ℕ → String → String → String → Option ℕ → ReconcileExec (Option String)
enqueue_reconcile now id run_key reason event_id = do
  s ← get_state
  require (has_run run_key s.run_keys) (unknown_run run_key)
  modify (λ s. record s { intents = upsert_intent now id run_key reason event_id s.intents })
  s' ← get_state
  pure (intent_id_of (intent_of run_key s'.intents))

-- status='pending' OR (status='leased' AND lease_until < now)
abbrev pub is_past : ℕ → Option ℕ → Bool
is_past now none = false
is_past now (some until) = ltb until now

unfoldable pub is_claimable : ℕ → Intent → Bool
is_claimable now i = is_pending i.status || (is_leased i.status && is_past now i.lease_until)

module _ (text_lt : String → String → Bool) where
  -- ORDER BY created_at, intent_id
  unfoldable pub is_before : Intent → Intent → Bool
  is_before i j =
      ltb i.created_at j.created_at
      || (i.created_at == j.created_at && text_lt i.intent_id j.intent_id)

  abbrev pub first_of_two : Intent → Option Intent → Option Intent
  first_of_two i none = some i
  first_of_two i (some j) = if is_before j i then some j else some i

  unfoldable pub first_claimable : ℕ → List Intent → Option Intent
  unfolding is_claimable is_before
  first_claimable now [] = none
  first_claimable now (i ∷ is) =
      let rest = first_claimable now is in if is_claimable now i then first_of_two i rest else rest

  unfoldable pub lease : ℕ → String → ℕ → Intent → Intent
  lease now owner lease_seconds i = record i {
    status = leased;
    lease_owner = some owner;
    lease_until = some (now + lease_seconds);
    leased_revision = some i.revision;
    attempts = i.attempts + 1;
    current_step = some "claimed";
    updated_at = now;
  }

  abbrev pub claim_found : ℕ → String → ℕ → Option Intent → ReconcileExec (Option Intent)
  claim_found now owner lease_seconds none = pure none
  claim_found now owner lease_seconds (some i) = do
    modify (λ s. record s {
      intents = update_intent i.intent_id (lease now owner lease_seconds) s.intents;
    })
    s' ← get_state
    pure (intent_by_id i.intent_id s'.intents)

  -- BEGIN IMMEDIATE: no other connection writes between the SELECT and the UPDATE.
  unfoldable pub claim_reconcile : ℕ → String → ℕ → ReconcileExec (Option Intent)
  unfolding first_claimable lease
  claim_reconcile now owner lease_seconds = do
    s ← get_state
    claim_found now owner lease_seconds (first_claimable now s.intents)

-- intent_id=? AND status='leased' AND lease_owner=?
unfoldable pub is_held_by : String → Intent → Bool
is_held_by owner i = is_leased i.status && option_beq i.lease_owner (some owner)

abbrev pub held : String → Option Intent → Bool
held owner none = false
held owner (some i) = is_held_by owner i

unfoldable pub step_row : ℕ → String → ℕ → Intent → Intent
step_row now step lease_seconds i = record i {
  current_step = some (clip 200 step);
  lease_until = some (now + lease_seconds);
  updated_at = now;
}

unfoldable pub update_reconcile_step : ℕ → String → String → String → ℕ → ReconcileExec (Unit {0})
unfolding is_held_by step_row
update_reconcile_step now id owner step lease_seconds = do
  s ← get_state
  require (held owner (intent_by_id id s.intents)) (lease_lost id)
  modify (λ s. record s { intents = update_intent id (step_row now step lease_seconds) s.intents })

-- int(row["revision"]) != int(row["leased_revision"])
abbrev pub needs_rerun : Intent → Bool
needs_rerun i = not (option_beq (some i.revision) i.leased_revision)

-- `error` is falsy when it is None or empty.
abbrev pub is_error : Option String → Bool
is_error none = false
is_error (some e) = not (e == "")

abbrev pub error_text : Option String → Option String
error_text none = none
error_text (some e) = if e == "" then none else some (clip 1000 e)

unfoldable pub finish_row : ℕ → Bool → Option String → Intent → Intent
finish_row now rerun error i = record i {
  status = if rerun || is_error error then pending else done;
  lease_owner = none;
  lease_until = none;
  current_step = none;
  last_error = error_text error;
  updated_at = now;
}

-- The SELECT and the UPDATE are not one transaction: `meanwhile` is what other connections commit
-- between them. The UPDATE has no condition but the key.
abbrev pub finish_held :
    (ReconcileStore → ReconcileStore)
    → ℕ
    → String
    → Option String
    → Option Intent
    → ReconcileExec (Unit {0})
finish_held meanwhile now id error none = raise (lease_lost id)
finish_held meanwhile now id error (some i) = do
  modify meanwhile
  modify (λ s. record s {
    intents = update_intent id (finish_row now (needs_rerun i) error) s.intents;
  })

abbrev pub only_held : String → Option Intent → Option Intent
only_held owner none = none
only_held owner (some i) = if is_held_by owner i then some i else none

unfoldable pub finish_reconcile :
    (ReconcileStore → ReconcileStore)
    → ℕ
    → String
    → String
    → Option String
    → ReconcileExec (Unit {0})
unfolding is_held_by finish_row
finish_reconcile meanwhile now id owner error = do
  s ← get_state
  connect (finish_held meanwhile now id error (only_held owner (intent_by_id id s.intents)))
