-- ===== src/Examples/Flush.antt =====
-- A flush that sends one message and fails on another (hollysys_controller/service.py).
use hermes_agents_by_kanban.Prelude.{
  ◌≡◌, refl, ◌⊎◌, String, true, Option, none, some, [], ◌∷◌, ◌==◌, text_eq, if◌then◌else◌,
}
use hermes_agents_by_kanban.Exec.{Result, ok, err}
use hermes_agents_by_kanban.Table.{Table, lookup, IsKeyed}
use hermes_agents_by_kanban.Store.Outbox.{Outbox, OutboxRow, new_row, pending_outbox}
use hermes_agents_by_kanban.Service.Flush.{
  PayloadJson, SendError, other_error, OutboxSettings, Message, flush_outbox_once,
}
use hermes_agents_by_kanban.Service.Flush.Settled.{Settled, flush_outbox_once-Settled}

abbrev Fields : Type 0
Fields = Table String String

abbrev field_or_error : String → Option String → Result String Fields
field_or_error name none = err name
field_or_error name (some text) = ok ((name, text) ∷ [])

abbrev first_text : Fields → String
first_text [] = ""
first_text ((name, text) ∷ rows) = text

abbrev plain_json : PayloadJson Fields String
plain_json = record {
  loads = λ text. ok (("origin", "chat") ∷ ("content", text) ∷ []);
  field = λ name fields. field_or_error name (lookup name fields);
  validate_origin = λ fields. ok (first_text fields);
  text = first_text;
  is_truthy = λ fields. true;
}

abbrev send_or_fail : String → Message String → Option SendError
send_or_fail key message = if message.content == "late" then some (other_error "timeout") else none

abbrev backoffs : OutboxSettings
backoffs = record { outbox_backoff_initial_seconds = 5; outbox_backoff_max_seconds = 300 }

abbrev late_row : OutboxRow
late_row = new_row 10 "run" "phase-ready" "late"

abbrev two_messages : Outbox
two_messages = ("k-1", new_row 10 "run" "phase-ready" "hello") ∷ ("k-2", late_row) ∷ []

two_messages-IsKeyed : IsKeyed two_messages
unfolding lookup
two_messages-IsKeyed = (refl, (refl, tt))

flush_outbox_once-Settled_example :
    (let after =
        lookup "k-2"
          (flush_outbox_once plain_json send_or_fail backoffs 20 (λ key. 21) two_messages) in
      let tried = lookup "k-2" (pending_outbox 20 20 two_messages) in
      ((tried ≡ some late_row)
        × Settled plain_json send_or_fail backoffs (λ key. 21) "k-2" late_row after)
      ⊎ ((tried ≡ none) × (after ≡ some late_row)))
unfolding lookup
flush_outbox_once-Settled_example =
    flush_outbox_once-Settled plain_json send_or_fail backoffs 20 (λ key. 21) "k-2" late_row
      two_messages two_messages-IsKeyed refl
