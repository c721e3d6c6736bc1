-- ===== src/Examples/Outbox.antt =====
-- A message that fails, dies and is retried by hand (hollysys_controller/store.py, outbox).
use hermes_agents_by_kanban.Prelude.{
  ℕ, ◌≤◌, ◌<◌, ◌≡◌, ◌≢◌, ◌⊎◌, ◌↔◌, refl, Bool, true, false, some, [], ◌∷◌, text_eq,
}
use hermes_agents_by_kanban.Table.{lookup}
use hermes_agents_by_kanban.Exec.{ok, err}
use hermes_agents_by_kanban.Store.Outbox.{
  OutboxRow, Outbox, dead, new_row, is_due, Failure, failed_row, fail_outbox, revive,
  retry_dead_outbox, outbox_not_dead,
}
use hermes_agents_by_kanban.Store.Outbox.Retries.{fail_outbox_backoff, retry_dead_outbox_dead}

abbrev message : OutboxRow
message = new_row 10 "run" "completed" "{}"

abbrev queued : Outbox
queued = ("m-1", message) ∷ []

abbrev timeout : Failure
timeout = record {
  error = "timeout";
  error_class = "dependency_transient";
  initial_backoff_seconds = 5;
  maximum_backoff_seconds = 300;
  permanent = false;
}

fail_outbox_backoff_example :
    (row : OutboxRow) × (lookup "m-1" (fail_outbox 20 "m-1" timeout queued) ≡ some row)
    × (row.attempts ≡ 1)
    × (20 < row.next_attempt_at)
    × (row.next_attempt_at ≤ 320)
    × ((due : ℕ) → (is_due due row ≡ true) ↔ (Path Bool false false × (row.next_attempt_at ≤ due)))
unfolding lookup new_row
fail_outbox_backoff_example = fail_outbox_backoff 20 "m-1" timeout queued message refl

abbrev dead_message : OutboxRow
dead_message = failed_row 20 (record timeout { permanent = true }) 5 message

abbrev dead_letters : Outbox
dead_letters = ("m-1", dead_message) ∷ []

retry_dead_outbox_dead_example :
    ((dead_message.status ≡ dead)
      × ((retry_dead_outbox 40 "m-1" dead_letters).0 ≡ ok tt)
      × (lookup "m-1" (retry_dead_outbox 40 "m-1" dead_letters).1 ≡ some (revive 40 dead_message))
      × (is_due 40 (revive 40 dead_message) ≡ true))
    ⊎ ((dead_message.status ≢ dead)
        × (retry_dead_outbox 40 "m-1" dead_letters ≡ (err (outbox_not_dead "m-1"), dead_letters)))
unfolding lookup
retry_dead_outbox_dead_example = retry_dead_outbox_dead 40 "m-1" dead_letters dead_message refl
