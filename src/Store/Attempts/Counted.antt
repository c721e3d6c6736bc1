-- ===== src/Store/Attempts/Counted.antt =====
-- The column redispatch_count after `update_worker_watchdog` of hollysys_controller/store.py.
use hermes_agents_by_kanban.Prelude.{
  ℕ, ◌≡◌, refl, ◌∙◌, ap, sym, String, Bool, true, false, Option, none, some, arith, text_eq,
  pair_eq, Option-cases, inl, inr, is_some,
}
use hermes_agents_by_kanban.Table.{lookup, lookup-put_same}
use hermes_agents_by_kanban.Exec.{require}
use hermes_agents_by_kanban.Store.Attempts.{
  CardRuntime, AttemptError, unknown_card_runtime, CardStore, put_attempt, put_runtime,
  card_runtime, current_attempt,
}
use hermes_agents_by_kanban.Store.Attempts.Recording.{update_attempt}
use hermes_agents_by_kanban.Store.Attempts.Watchdog.{
  redispatch, watched_row, update_runtime, coalesce_count, update_worker_watchdog,
}
use hermes_agents_by_kanban.Store.Attempts.Writes.{update_runtime-attempts}
use hermes_agents_by_kanban.Store.Attempts.Redispatch.{redispatch_again}

-- The number in the column redispatch_count, if the card has a row.
pub redispatch_count_of : Option CardRuntime → Option ℕ
redispatch_count_of none = none
redispatch_count_of (some row) = some row.redispatch_count

-- The number that the method leaves there.
counted : Option ℕ → Option CardRuntime → Option ℕ
counted count none = none
counted count (some row) = some (coalesce_count count row.redispatch_count)

require_state : (b : Bool) (failure : AttemptError) (s : CardStore) → (require b failure s).1 ≡ s
require_state true failure s = refl
require_state false failure s = refl

redispatch-runtime :
    (now : ℕ) (board card_id : String) (reason : Option String) (s : CardStore)
    → (redispatch now board card_id reason true s).1.card_runtime ≡ s.card_runtime
unfolding redispatch update_attempt put_attempt
redispatch-runtime now board card_id reason s =
    elim (Option-cases (current_attempt board card_id s.card_attempts)) [
      | inl p ↦ rw p refl
      | inr ((i, row), p) ↦ elim (Option-cases (lookup i s.card_attempts)) [
        | inl q ↦ rw (p, q) refl
        | inr (r, q) ↦ rw (p, q) refl
      ]
    ]

update_runtime-count :
    (board card_id : String) (now : ℕ) (attempt_status : String) (lease_seconds count : Option ℕ)
    (reason : Option String) (s : CardStore)
    → redispatch_count_of (
        card_runtime board card_id (
          update_runtime board card_id
            (watched_row now attempt_status lease_seconds count reason)
            s))
      ≡ counted count (card_runtime board card_id s)
unfolding update_runtime put_runtime card_runtime redispatch_count_of counted watched_row
update_runtime-count board card_id now attempt_status lease_seconds count reason s =
    elim (Option-cases (lookup (board, card_id) s.card_runtime)) [
      | inl p ↦ rw (p, p) refl
      | inr (row, p) ↦
          rw
            (
              p,
              lookup-put_same (board, card_id)
                  (watched_row now attempt_status lease_seconds count reason row) s.card_runtime,
            )
            refl
    ]

-- What the method leaves in the column.
watchdog-count :
    (now : ℕ) (board card_id attempt_status : String) (lease_seconds : Option ℕ)
    (reason : Option String) (s : CardStore)
    → redispatch_count_of (
        card_runtime board card_id
          (update_worker_watchdog now board card_id attempt_status lease_seconds reason true s).1)
      ≡ counted (redispatch now board card_id reason true s).0 (card_runtime board card_id s)
unfolding update_worker_watchdog card_runtime
watchdog-count now board card_id attempt_status lease_seconds reason s =
    let (count, marked) = redispatch now board card_id reason true s in
    ap (λ t. redispatch_count_of (card_runtime board card_id t))
      (require_state (is_some (card_runtime board card_id marked))
        (unknown_card_runtime board card_id)
        (update_runtime board card_id (watched_row now attempt_status lease_seconds count reason)
          marked))
    ∙ (update_runtime-count board card_id now attempt_status lease_seconds count reason marked
        ∙ ap (λ rows. counted count (lookup (board, card_id) rows))
            (redispatch-runtime now board card_id reason s))

watchdog-attempts :
    (now : ℕ) (board card_id attempt_status : String) (lease_seconds : Option ℕ)
    (reason : Option String) (s : CardStore)
    → (update_worker_watchdog now board card_id attempt_status lease_seconds reason true
        s).1.card_attempts
      ≡ (redispatch now board card_id reason true s).1.card_attempts
unfolding update_worker_watchdog card_runtime
watchdog-attempts now board card_id attempt_status lease_seconds reason s =
    let (count, marked) = redispatch now board card_id reason true s in
    let row = watched_row now attempt_status lease_seconds count reason in
    ap (λ t. t.card_attempts)
      (require_state (is_some (card_runtime board card_id marked))
        (unknown_card_runtime board card_id) (update_runtime board card_id row marked))
    ∙ update_runtime-attempts board card_id row marked

-- The method leaves the same number when it is applied again to what it left.
counted-counted :
    (o p : Option CardRuntime) (n : Option ℕ)
    → redispatch_count_of p ≡ counted n o
    → counted n p ≡ counted n o
unfolding counted redispatch_count_of
counted-counted none none n e = ground arith
counted-counted none (some q) n e = ground arith
counted-counted (some row) none n e = ground arith
counted-counted (some row) (some q) none e = ground arith
counted-counted (some row) (some q) (some m) e = ground arith

-- Asking twice to redispatch a card that has an attempt, whatever the statuses, the leases and the
-- reasons are, leaves the same redispatch count of the card as asking once.
pub watchdog_counts_once :
    (now now' : ℕ) (board card_id attempt_status attempt_status' : String)
    (lease_seconds lease_seconds' : Option ℕ) (reason reason' : Option String) (s : CardStore)
    → is_some (current_attempt board card_id s.card_attempts) ≡ true
    → redispatch_count_of (
        card_runtime board card_id
          (update_worker_watchdog now' board card_id attempt_status' lease_seconds' reason' true
            (update_worker_watchdog now board card_id attempt_status lease_seconds reason true
              s).1).1)
      ≡ redispatch_count_of (
          card_runtime board card_id
            (update_worker_watchdog now board card_id attempt_status lease_seconds reason true s).1)
watchdog_counts_once now now' board card_id attempt_status attempt_status' lease_seconds
      lease_seconds' reason reason' s h =
    let t =
      (update_worker_watchdog now board card_id attempt_status lease_seconds reason true s).1 in
    let first = watchdog-count now board card_id attempt_status lease_seconds reason s in
    watchdog-count now' board card_id attempt_status' lease_seconds' reason' t
    ∙ (ap (λ n. counted n (card_runtime board card_id t))
          (redispatch_again now now' board card_id reason reason' s t h
            (watchdog-attempts now board card_id attempt_status lease_seconds reason s))
        ∙ (counted-counted (card_runtime board card_id s) (card_runtime board card_id t)
              (redispatch now board card_id reason true s).0 first
            ∙ sym first))
