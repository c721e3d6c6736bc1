-- ===== src/Service/Flush.antt =====
-- `_flush_outbox_once` of hollysys_controller/service.py: the messages that are due are sent, and what
-- the notifier answers is written back. `json` stands for json.loads and for the model FeishuOrigin,
-- `send` for the notifier, and `at` gives the time at which the message of a key is settled.
pub mod Settled
use hermes_agents_by_kanban.Prelude.{
  ℕ, String, Bool, true, false, not, ◌&&◌, ◌||◌, Option, none, some, List, [], ◌∷◌, ◌==◌, text_eq,
  if◌then◌else◌,
}
use Prim.Native.String.{◌++◌ as then_text}
use hermes_agents_by_kanban.Exec.{Result, ok, err}
use hermes_agents_by_kanban.Store.Outbox.{
  Outbox, OutboxRow, Failure, finish_outbox, fail_outbox, pending_outbox,
}
use hermes_agents_by_kanban.Service.Dependencies.{DependencyError, error_class, is_contract_error}

-- What Python does with the JSON of a payload; an error has its text.
pub record PayloadJson (Json Origin : Type 0) : Type 0 where
  pub loads : String → Result String Json
  pub field : String → Json → Result String Json
  pub validate_origin : Json → Result String Origin
  pub text : Json → String
  pub is_truthy : Json → Bool

-- What `send` raises: an error that the first handler names, another error of a dependency, or any
-- other.
pub data SendError : Type 0 where
  value_error : String → SendError
  dependency_error : DependencyError → SendError
  other_error : String → SendError

-- The fields of the configuration that are read here.
pub record OutboxSettings : Type 0 where
  pub outbox_backoff_initial_seconds : ℕ
  pub outbox_backoff_max_seconds : ℕ

-- An origin, a content and its format.
pub record Message (Origin : Type 0) : Type 0 where
  pub origin : Origin
  pub content : String
  pub message_format : String

abbrev pub and_then : {A B : Type 0} → Result String A → (A → Result String B) → Result String B
and_then (ok a) f = f a
and_then (err e) f = err e

unfoldable pub is_known_format : String → Bool
is_known_format format = format == "text" || format == "markdown"

-- The keyword arguments of the three calls of `fail_outbox`.
unfoldable pub contract_failure : String → Failure
contract_failure text = record {
  error = text;
  error_class = "dependency_contract";
  initial_backoff_seconds = 5;
  maximum_backoff_seconds = 300;
  permanent = true;
}

unfoldable pub retried_failure : OutboxSettings → String → String → Failure
retried_failure config text error_class = record {
  error = text;
  error_class = error_class;
  initial_backoff_seconds = config.outbox_backoff_initial_seconds;
  maximum_backoff_seconds = config.outbox_backoff_max_seconds;
  permanent = false;
}

unfoldable pub failure_of : OutboxSettings → SendError → Failure
failure_of config (value_error text) = contract_failure text
failure_of config (dependency_error e) =
    if is_contract_error e.kind
    then contract_failure e.text
    else retried_failure config e.text (error_class e.kind)
failure_of config (other_error text) = retried_failure config text "dependency_transient"

module _ {Json Origin : Type 0} (json : PayloadJson Json Origin) where
  -- str(payload.get("format") or "markdown")
  abbrev pub format_of : Result String Json → String
  format_of (err e) = "markdown"
  format_of (ok value) = if json.is_truthy value then json.text value else "markdown"

  -- Payloads of earlier versions have a text instead of a content.
  abbrev pub content_of : Json → Result String Json → Result String (String × String)
  content_of payload (ok content) = ok (json.text content, format_of (json.field "format" payload))
  content_of payload (err e) =
      and_then (json.field "text" payload) λ text. ok (json.text text, "text")

  abbrev pub checked : Origin → String × String → Result String (Message Origin)
  checked origin (content, format) =
      if is_known_format format
      then ok (record { origin = origin; content = content; message_format = format })
      else err (then_text "unsupported outbox message format:" format)

  unfoldable pub read_message : String → Result String (Message Origin)
  read_message text = and_then (json.loads text) λ payload.
      and_then (json.field "origin" payload) λ value.
        and_then (json.validate_origin value) λ origin.
          and_then (content_of payload (json.field "content" payload)) λ body. checked origin body

  module _ (send : String → Message Origin → Option SendError) (config : OutboxSettings) where
    abbrev pub send_read : String → Result String (Message Origin) → Option SendError
    send_read key (ok message) = send key message
    send_read key (err e) = some (value_error e)

    -- What the body of the `try` raises before it finishes the message.
    unfoldable pub deliver : String → String → Option SendError
    deliver key payload = send_read key (read_message payload)

    abbrev pub settle_as : ℕ → String → Option SendError → Outbox → Outbox
    settle_as now key none s = finish_outbox now key s
    settle_as now key (some e) s = fail_outbox now key (failure_of config e) s

    unfoldable pub settle_item : ℕ → String → OutboxRow → Outbox → Outbox
    settle_item now key row s = settle_as now key (deliver key row.payload) s

    unfoldable pub flush_each : (String → ℕ) → List (String × OutboxRow) → Outbox → Outbox
    flush_each at [] s = s
    flush_each at ((key, row) ∷ rows) s = flush_each at rows (settle_item (at key) key row s)

    unfoldable pub flush_outbox_once : ℕ → (String → ℕ) → Outbox → Outbox
    flush_outbox_once due at s = flush_each at (pending_outbox 20 due s) s
