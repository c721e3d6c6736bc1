-- ===== src/Store/Attempts/Finished.antt =====
-- Late events of a card that is finished (hollysys_controller/store.py).
use hermes_agents_by_kanban.Prelude.{
  ℕ, ◌≡◌, refl, ◌∙◌, String, Bool, true, false, ◌&&◌, not, Option, none, some, text_eq, pair_eq,
  Option-cases, Bool-cases, inl, inr, is_some,
}
use hermes_agents_by_kanban.Table.{lookup}
use hermes_agents_by_kanban.Exec.{Exec, Result, ok, err, settle, continue}
use hermes_agents_by_kanban.Store.Attempts.{
  CardAttempt, CardRuntime, ManagedCard, AttemptError, CardStore, put_metric, put_attempt,
  card_runtime,
}
use hermes_agents_by_kanban.Store.Attempts.Events.{
  CardEvent, is_started, is_progress, is_worker_exited, is_terminal_event,
}
use hermes_agents_by_kanban.Store.Attempts.Recording.{
  truthy, holds_of, preserves_finished, is_new_session, write_attempt, link_redispatch, link_from,
  update_attempt, put_runtime_metric, metric_of, put_metrics, record_attempt, record_runtime,
  record_card_runtime_event, has_run_of, record_unless, conflicts,
}

write_attempt-runtime :
    (now : ℕ) (e : CardEvent) (run_id : String) (card : ManagedCard) (o : Option CardAttempt)
    (s : CardStore)
    → (write_attempt now e run_id card o s).card_runtime ≡ s.card_runtime
unfolding write_attempt put_attempt
write_attempt-runtime now e run_id card none s = refl
write_attempt-runtime now e run_id card (some row) s = refl

link_from-runtime :
    (now : ℕ) (run_id : String) (o : Option (String × CardAttempt)) (s : CardStore)
    → (link_from now run_id o s).card_runtime ≡ s.card_runtime
unfolding put_metric update_attempt put_attempt
link_from-runtime now run_id none s = refl
link_from-runtime now run_id (some (from, row)) s =
    elim (Option-cases (lookup run_id s.card_attempts)) [
      | inl p ↦ rw p refl
      | inr (q, p) ↦ rw p refl
    ]

link_redispatch-runtime :
    (now : ℕ) (e : CardEvent) (run_id : String) (s : CardStore)
    → (link_redispatch now e run_id s).card_runtime ≡ s.card_runtime
unfolding link_redispatch
link_redispatch-runtime now e run_id s = elim (Bool-cases (is_started e.kind)) [
  | inl p ↦ rw p (link_from-runtime now run_id _ s)
  | inr p ↦ rw p refl
]

put_runtime_metric-runtime :
    (e : CardEvent) (run_id name : String) (s : CardStore)
    → (put_runtime_metric e run_id name s).card_runtime ≡ s.card_runtime
unfolding put_runtime_metric put_metric
put_runtime_metric-runtime e run_id name s =
    elim (Option-cases (metric_of name e.runtime_metrics)) [
      | inl p ↦ rw p refl
      | inr (value, p) ↦ rw p refl
    ]

put_metrics-runtime :
    (e : CardEvent) (run_id : String) (s : CardStore)
    → (put_metrics e run_id s).card_runtime ≡ s.card_runtime
unfolding put_metrics
put_metrics-runtime e run_id s = elim (Bool-cases (is_progress e.kind)) [
  | inl p ↦ rw p (
      put_runtime_metric-runtime e run_id "retry_wait" _
      ∙ (put_runtime_metric-runtime e run_id "delegation_wait" _
          ∙ (put_runtime_metric-runtime e run_id "tool_execution" _
              ∙ put_runtime_metric-runtime e run_id "model_wait" s)))
  | inr p ↦ rw p refl
]

record_attempt-runtime :
    (now : ℕ) (e : CardEvent) (o : Option String) (s : CardStore)
    → (record_attempt now e o s).1.card_runtime ≡ s.card_runtime
unfolding record_attempt
record_attempt-runtime now e none s = refl
record_attempt-runtime now e (some run_id) s =
    elim (Option-cases (lookup (e.board, e.card_id) s.managed_cards)) [
      | inl p ↦ rw p refl
      | inr (card, p) ↦ elim (Bool-cases (conflicts e card (lookup run_id s.card_attempts))) [
        | inl q ↦ rw (p, q) refl
        | inr q ↦ elim (Bool-cases (has_run_of card (lookup run_id s.card_attempts) s)) [
          | inl r ↦
              rw (p, q, r)
                (put_metrics-runtime e run_id _
                  ∙ (link_redispatch-runtime now e run_id _
                      ∙ write_attempt-runtime now e run_id card (lookup run_id s.card_attempts) s))
          | inr r ↦ rw (p, q, r) refl
        ]
      ]
    ]

settle-runtime :
    {A : Type 0} (s : CardStore) (r : Result AttemptError A × CardStore)
    → r.1.card_runtime ≡ s.card_runtime
    → (settle s r).1.card_runtime ≡ s.card_runtime
settle-runtime s (ok a, s') e = e
settle-runtime s (err f, s') e = refl

continue-runtime :
    {A B : Type 0} (s : CardStore) (r : Result AttemptError A)
    (f : A → Exec AttemptError CardStore B) (s' : CardStore)
    → s'.card_runtime ≡ s.card_runtime
    → ((a : A) → (f a s').1.card_runtime ≡ s'.card_runtime)
    → (continue r f s').1.card_runtime ≡ s.card_runtime
continue-runtime s (ok a) f s' p q = q a ∙ p
continue-runtime s (err e) f s' p q = p

unless-runtime :
    (ignored : Bool) (now : ℕ) (e : CardEvent) (row : CardRuntime) (s : CardStore)
    → preserves_finished e row ≡ true
    → (record_unless ignored now e (some row) s).1.card_runtime ≡ s.card_runtime
unfolding record_runtime
unless-runtime true now e row s p = refl
unless-runtime false now e row s p =
    continue-runtime s (record_attempt now e (truthy e.run_id) s).0 _
      (record_attempt now e (truthy e.run_id) s).1
      (record_attempt-runtime now e (truthy e.run_id) s) (λ a. rw p refl)

-- Once a card is finished, an event that is not terminal and does not start another session leaves
-- what the store says of the card, and of all other cards, as it is, whether the event is accepted or not.
pub late_event_ignored :
    (now : ℕ) (e : CardEvent) (row : CardRuntime) (s : CardStore)
    → card_runtime e.board e.card_id s ≡ some row
    → is_some row.finished_at ≡ true
    → is_terminal_event e.kind ≡ false
    → is_new_session e row ≡ false
    → (record_card_runtime_event now e s).1.card_runtime ≡ s.card_runtime
unfolding record_card_runtime_event preserves_finished
late_event_ignored now e row s p f t n =
    settle-runtime s
      (record_unless
        (holds_of (preserves_finished e) (card_runtime e.board e.card_id s)
          && not (is_worker_exited e.kind))
        now e (card_runtime e.board e.card_id s) s)
      (rw p (
        unless-runtime (preserves_finished e row && not (is_worker_exited e.kind)) now e row s
          (rw (f, t, n) refl)))
