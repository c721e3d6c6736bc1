-- ===== src/Store/Outbox/Retries.antt =====
-- Retries of the outbox of hollysys_controller/store.py: how failures are spaced, and what is dead.
use hermes_agents_by_kanban.Prelude.{
  ℕ, ◌+◌, ◌≤◌, ◌<◌, ◌≡◌, ◌≢◌, ◌⊎◌, inl, inr, Bool-cases, ◌↔◌, refl, max, String, true, false, some,
  arith, text_eq, nat_eq, beq_refl, ◌∙◌, ap,
}
use hermes_agents_by_kanban.Table.{lookup, lookup-put}
use hermes_agents_by_kanban.Exec.{ok, err}
use hermes_agents_by_kanban.Store.Outbox.{
  OutboxRow, OutboxStatus, Outbox, outbox_not_dead, dead, is_due, is_dead, is_dead_row, update_row,
  Failure, delay, failed_row, fail_outbox, revive, retry_dead_outbox, attempts_of,
}

pub lookup-update_row :
    (key : String) (f : OutboxRow → OutboxRow) (s : Outbox) (row : OutboxRow)
    → lookup key s ≡ some row
    → lookup key (update_row key f s) ≡ some (f row)
unfolding update_row
lookup-update_row key f s row e = rw e (ground (arith, lookup-put key key (f row) s, beq_refl key))

pub lookup-fail_outbox :
    (now : ℕ) (key : String) (f : Failure) (s : Outbox) (row : OutboxRow)
    → lookup key s ≡ some row
    → lookup key (fail_outbox now key f s)
      ≡ some (failed_row now f (delay f (row.attempts + 1)) row)
unfolding fail_outbox
lookup-fail_outbox now key f s row e =
    ap (λ o. lookup key (update_row key (failed_row now f (delay f (attempts_of o))) s)) e
    ∙ lookup-update_row key (failed_row now f (delay f (row.attempts + 1))) s row e

delay_bound : (f : Failure) (n : ℕ) → delay f n ≤ f.maximum_backoff_seconds
unfolding delay
delay_bound f n = ground arith

failed_wait :
    (now : ℕ) (f : Failure) (seconds : ℕ) (row : OutboxRow)
    → seconds ≤ f.maximum_backoff_seconds
    → (now < (failed_row now f seconds row).next_attempt_at)
      × ((failed_row now f seconds row).next_attempt_at ≤ now + max 1 f.maximum_backoff_seconds)
unfolding failed_row
failed_wait now f seconds row h = ground arith

failed_due :
    (now due : ℕ) (f : Failure) (seconds : ℕ) (row : OutboxRow)
    → (is_due due (failed_row now f seconds row) ≡ true)
      ↔ ((f.permanent ≡ false) × ((failed_row now f seconds row).next_attempt_at ≤ due))
unfolding failed_row is_due
failed_due now due f seconds row = ground arith

-- A failure adds one attempt to a message. Its next attempt is at least one second and at most the
-- largest backoff, or one second, from now; it is due from then on, unless the failure is permanent:
-- then it is never due.
pub fail_outbox_backoff :
    (now : ℕ) (key : String) (f : Failure) (s : Outbox) (row : OutboxRow)
    → lookup key s ≡ some row
    → (row' : OutboxRow) × (lookup key (fail_outbox now key f s) ≡ some row')
      × (row'.attempts ≡ row.attempts + 1)
      × (now < row'.next_attempt_at)
      × (row'.next_attempt_at ≤ now + max 1 f.maximum_backoff_seconds)
      × ((due : ℕ)
          → (is_due due row' ≡ true) ↔ ((f.permanent ≡ false) × (row'.next_attempt_at ≤ due)))
unfolding failed_row
fail_outbox_backoff now key f s row e =
    let seconds = delay f (row.attempts + 1) in
    let (later, bounded) = failed_wait now f seconds row (delay_bound f (row.attempts + 1)) in
    (
      failed_row now f seconds row,
      lookup-fail_outbox now key f s row e,
      refl,
      later,
      bounded,
      λ due. failed_due now due f seconds row,
    )

is_dead_iff : (status : OutboxStatus) → (is_dead status ≡ true) ↔ (status ≡ dead)
is_dead_iff status = ground arith

retry_alive :
    (now : ℕ) (key : String) (s : Outbox) (row : OutboxRow)
    → lookup key s ≡ some row
    → is_dead row.status ≡ false
    → retry_dead_outbox now key s ≡ (err (outbox_not_dead key), s)
unfolding retry_dead_outbox is_dead_row
retry_alive now key s row e d = rw (e, d) refl

retry_dead :
    (now : ℕ) (key : String) (s : Outbox) (row : OutboxRow)
    → lookup key s ≡ some row
    → is_dead row.status ≡ true
    → retry_dead_outbox now key s ≡ (ok tt, update_row key (revive now) s)
unfolding retry_dead_outbox is_dead_row
retry_dead now key s row e d = rw (e, d) refl

revived_due : (now : ℕ) (row : OutboxRow) → is_due now (revive now row) ≡ true
unfolding is_due revive
revived_due now row = ground arith

-- A message is taken up again by hand exactly if it is dead, and is then due at once; otherwise the
-- call raises and changes nothing.
pub retry_dead_outbox_dead :
    (now : ℕ) (key : String) (s : Outbox) (row : OutboxRow)
    → lookup key s ≡ some row
    → ((row.status ≡ dead)
        × ((retry_dead_outbox now key s).0 ≡ ok tt)
        × (lookup key (retry_dead_outbox now key s).1 ≡ some (revive now row))
        × (is_due now (revive now row) ≡ true))
      ⊎ ((row.status ≢ dead) × (retry_dead_outbox now key s ≡ (err (outbox_not_dead key), s)))
retry_dead_outbox_dead now key s row e = elim (Bool-cases (is_dead row.status)) [
  | inl d ↦
      let retried = retry_dead now key s row e d in
      inl (
        (is_dead_iff row.status).0 d,
        ap (λ r. r.0) retried,
        ap (λ r. lookup key r.1) retried ∙ lookup-update_row key (revive now) s row e,
        revived_due now row,
      )
  | inr d ↦ inr ((λ h. ground (arith, is_dead_iff row.status)), retry_alive now key s row e d)
]
