-- ===== src/Store/Identity.antt =====
-- The tables runs, delivery_bindings and event_cursor of hollysys_controller/store.py, and the models
-- of hollysys_controller/models.py that they keep as JSON. `now` is `int(time.time())`.
pub mod Permanent
pub mod Reads
use hermes_agents_by_kanban.Prelude.{
  ℕ, max, String, Bool, true, false, ◌&&◌, ◌||◌, not, Option, none, some, List, [], ◌∷◌, ◌==◌,
  if◌then◌else◌, nat_beq, text_eq, is_some, ◌≡◌,
}
use hermes_agents_by_kanban.Table.{Table, lookup, put}
use hermes_agents_by_kanban.Exec.{
  Exec, pure, raise, connect, get_state, require, modify, ◌>>=◌, ◌>>◌,
}

pub record FeishuOrigin : Type 0 where
  pub message_id : String
  pub chat_id : String
  pub thread_id : Option String
  pub chat_type : String
  pub initiator_open_id : String

pub record ProjectFacts : Type 0 where
  pub host : String
  pub project_id : ℕ
  pub project_path : String
  pub project_display_name : String
  pub default_branch : String

pub record SourceFacts : Type 0 where
  pub prd_path : String
  pub prd_commit_sha : String
  pub prd_blob_sha : String
  pub prd_blob_url : String
  pub prd_mr_url : String

pub record WorkspaceFacts : Type 0 where
  pub board : String
  pub checkout : String
  pub worktree : String
  pub branch : String
  pub target_branch : String
  pub repository_base_sha : String

pub record ArtifactScope : Type 0 where
  pub source_prd_path : String
  pub root_path : String
  pub spec_patterns : List String
  pub plan_patterns : List String
  pub tasks_patterns : List String

-- The fields with one value only are left out. `started_at` is `started_at.isoformat()`.
pub record RunRecord : Type 0 where
  pub run_key : String
  pub source_key : String
  pub run_generation : String
  pub started_at : String
  pub project : ProjectFacts
  pub source : SourceFacts
  pub artifact_scope : ArtifactScope
  pub workspace : WorkspaceFacts
  pub origin : FeishuOrigin

-- `created_at` is `created_at.isoformat()`.
pub record DeliveryBinding : Type 0 where
  pub mr_iid : ℕ
  pub mr_url : String
  pub creator : String
  pub created_at : String
  pub initial_head_sha : String
  pub claim_note_id : ℕ

-- What pydantic gives a model: `model_dump_json`, `model_validate_json`, which may raise, and `==`.
pub record Codec (A : Type 0) : Type 0 where
  pub dump : A → String
  pub parse : String → Option A
  pub is_same : A → A → Bool

-- CREATE TABLE runs, keyed by run_key; `provenance` has one value.
pub record RunRow : Type 0 where
  pub source_key : String
  pub run_generation : String
  pub started_at : String
  pub record_json : String
  pub created_at : ℕ

-- CREATE TABLE delivery_bindings, keyed by run_key
pub record BindingRow : Type 0 where
  pub mr_iid : ℕ
  pub mr_url : String
  pub creator : String
  pub created_at : String
  pub initial_head_sha : String
  pub claim_note_id : ℕ
  pub binding_json : String
  pub updated_at : ℕ

-- CREATE TABLE event_cursor, keyed by board
pub record CursorRow : Type 0 where
  pub event_id : ℕ
  pub updated_at : ℕ

pub record IdentityStore : Type 0 where
  pub runs : Table String RunRow
  pub delivery_bindings : Table String BindingRow
  pub event_cursor : Table String CursorRow

pub data IdentityError : Type 0 where
  run_identity_conflict delivery_binding_conflict unknown_run : String → IdentityError
  invalid_json constraint_failed : String → IdentityError

abbrev pub IdentityExec : Type 0 → Type 0
IdentityExec A = Exec IdentityError IdentityStore A

abbrev pub event_id_of : Option CursorRow → ℕ
event_id_of none = 0
event_id_of (some row) = row.event_id

unfoldable pub cursor : String → IdentityStore → ℕ
cursor board s = event_id_of (lookup board s.event_cursor)

abbrev pub cursor_row : ℕ → ℕ → Option CursorRow → CursorRow
cursor_row now event_id none = record { event_id = event_id; updated_at = now }
cursor_row now event_id (some row) = record {
  event_id = max row.event_id event_id;
  updated_at = now;
}

unfoldable pub set_cursor : ℕ → String → ℕ → IdentityStore → IdentityStore
set_cursor now board event_id s = record s {
  event_cursor = put board (cursor_row now event_id (lookup board s.event_cursor)) s.event_cursor;
}

-- run_generation TEXT NOT NULL UNIQUE
unfoldable pub has_generation : String → Table String RunRow → Bool
has_generation generation [] = false
has_generation generation ((key, row) ∷ rows) =
    row.run_generation == generation || has_generation generation rows

-- mr_iid INTEGER NOT NULL UNIQUE
unfoldable pub has_mr_iid : ℕ → Table String BindingRow → Bool
has_mr_iid mr_iid [] = false
has_mr_iid mr_iid ((key, row) ∷ rows) = nat_beq row.mr_iid mr_iid || has_mr_iid mr_iid rows

unfoldable pub put_run : String → RunRow → IdentityStore → IdentityStore
put_run run_key row s = record s { runs = put run_key row s.runs }

unfoldable pub put_binding : String → BindingRow → IdentityStore → IdentityStore
put_binding run_key row s = record s { delivery_bindings = put run_key row s.delivery_bindings }

module _ {A : Type 0} where
  -- model_validate_json
  abbrev pub parsed : String → Option A → IdentityExec A
  parsed key none = raise (invalid_json key)
  parsed key (some a) = pure a

module _ (run_codec : Codec RunRecord) where
  abbrev pub run_row : ℕ → RunRecord → RunRow
  run_row now run = record {
    source_key = run.source_key;
    run_generation = run.run_generation;
    started_at = run.started_at;
    record_json = run_codec.dump run;
    created_at = now;
  }

  abbrev pub save_found : ℕ → RunRecord → Option RunRow → IdentityExec (Unit {0})
  save_found now run none = do
    s ← get_state
    require (not (has_generation run.run_generation s.runs)) (constraint_failed run.run_key)
    modify (put_run run.run_key (run_row now run))
  save_found now run (some row) = do
    persisted ← parsed run.run_key (run_codec.parse row.record_json)
    require (run_codec.is_same persisted run) (run_identity_conflict run.run_key)

  unfoldable pub save_run : ℕ → RunRecord → IdentityExec (Unit {0})
  save_run now run = connect do s ← get_state; save_found now run (lookup run.run_key s.runs)

  abbrev pub record_of : String → Option RunRow → IdentityExec (Option RunRecord)
  record_of run_key none = pure none
  record_of run_key (some row) = do
    run ← parsed run_key (run_codec.parse row.record_json)
    pure (some run)

  unfoldable pub run_record : String → IdentityExec (Option RunRecord)
  run_record run_key = do s ← get_state; record_of run_key (lookup run_key s.runs)

  module _ (binding_codec : Codec DeliveryBinding) where
    abbrev pub binding_row : ℕ → DeliveryBinding → BindingRow
    binding_row now binding = record {
      mr_iid = binding.mr_iid;
      mr_url = binding.mr_url;
      creator = binding.creator;
      created_at = binding.created_at;
      initial_head_sha = binding.initial_head_sha;
      claim_note_id = binding.claim_note_id;
      binding_json = binding_codec.dump binding;
      updated_at = now;
    }

    abbrev pub bind_found :
        ℕ → String → DeliveryBinding → Option BindingRow → IdentityExec (Unit {0})
    bind_found now run_key binding none = do
      s ← get_state
      require (not (has_mr_iid binding.mr_iid s.delivery_bindings)) (constraint_failed run_key)
      modify (put_binding run_key (binding_row now binding))
    bind_found now run_key binding (some row) = do
      persisted ← parsed run_key (binding_codec.parse row.binding_json)
      require (binding_codec.is_same persisted binding) (delivery_binding_conflict run_key)

    unfoldable pub bind_delivery : ℕ → String → DeliveryBinding → IdentityExec (Unit {0})
    bind_delivery now run_key binding = do
      run ← run_record run_key
      require (is_some run) (unknown_run run_key)
      connect do s ← get_state; bind_found now run_key binding (lookup run_key s.delivery_bindings)

module _ (binding_codec : Codec DeliveryBinding) where
  abbrev pub binding_of : String → Option BindingRow → IdentityExec (Option DeliveryBinding)
  binding_of run_key none = pure none
  binding_of run_key (some row) = do
    binding ← parsed run_key (binding_codec.parse row.binding_json)
    pure (some binding)

  unfoldable pub delivery_binding : String → IdentityExec (Option DeliveryBinding)
  delivery_binding run_key = do
    s ← get_state
    binding_of run_key (lookup run_key s.delivery_bindings)
