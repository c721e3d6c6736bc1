-- ===== src/Store/Attempts/Writes.antt =====
-- What each method of hollysys_controller/store.py may do to the attempts.
use hermes_agents_by_kanban.Prelude.{
  ℕ, ◌≡◌, refl, ◌∙◌, String, Bool, true, false, Option, none, some, arith, text_eq, pair_eq,
  Option-cases, Bool-cases, inl, inr,
}
use hermes_agents_by_kanban.Table.{lookup}
use hermes_agents_by_kanban.Exec.{Exec, Result, ok, err, settle, continue}
use hermes_agents_by_kanban.Store.Attempts.{
  CardAttempt, CardRuntime, ManagedCard, AttemptError, CardStore, put_runtime, put_metric,
  current_attempt, card_runtime,
}
use hermes_agents_by_kanban.Store.Attempts.Events.{CardEvent, is_started, is_progress}
use hermes_agents_by_kanban.Store.Attempts.Recording.{
  truthy, write_attempt, new_attempt_row, updated_attempt, link_redispatch, link_from, redispatched,
  put_runtime_metric, put_found_metric, metric_of, put_metrics, record_attempt, record_runtime,
  record_card_runtime_event, has_run_of, record_unless, conflicts,
}
use hermes_agents_by_kanban.Store.Attempts.History.{
  updated-Continues, redispatched-Continues, recovering-Continues,
}
use hermes_agents_by_kanban.Store.Attempts.Numbering.{
  Grows, same-Grows, Grows-trans, put-Grows, add-Grows, update-Grows,
}
use hermes_agents_by_kanban.Store.Attempts.Watchdog.{update_runtime, redispatch, recovering}

pub settle-Grows :
    {A : Type 0} (s : CardStore) (r : Result AttemptError A × CardStore)
    → Grows s r.1
    → Grows s (settle s r).1
settle-Grows s (ok a, s') g = g
settle-Grows s (err e, s') g = same-Grows refl

pub continue-Grows :
    {A B : Type 0} (s : CardStore) (r : Result AttemptError A)
    (f : A → Exec AttemptError CardStore B) (s' : CardStore)
    → Grows s s'
    → ((a : A) → Grows s' (f a s').1)
    → Grows s (continue r f s').1
continue-Grows s (ok a) f s' g h = Grows-trans g (h a)
continue-Grows s (err e) f s' g h = g

write-Grows :
    (now : ℕ) (e : CardEvent) (run_id : String) (card : ManagedCard) (o : Option CardAttempt)
    (s : CardStore)
    → lookup run_id s.card_attempts ≡ o
    → Grows s (write_attempt now e run_id card o s)
unfolding write_attempt new_attempt_row
write-Grows now e run_id card none s p = add-Grows run_id _ s p refl
write-Grows now e run_id card (some row) s p =
    put-Grows run_id row (updated_attempt now e row) s p (updated-Continues now e row)

link_from-Grows :
    (now : ℕ) (run_id : String) (o : Option (String × CardAttempt)) (s : CardStore)
    → Grows s (link_from now run_id o s)
unfolding put_metric
link_from-Grows now run_id none s = same-Grows refl
link_from-Grows now run_id (some (from, row)) s =
    Grows-trans (update-Grows run_id (redispatched now from) s (redispatched-Continues now from))
      (same-Grows refl)

link-Grows :
    (now : ℕ) (e : CardEvent) (run_id : String) (s : CardStore)
    → Grows s (link_redispatch now e run_id s)
unfolding link_redispatch
link-Grows now e run_id s = elim (Bool-cases (is_started e.kind)) [
  | inl p ↦ rw p (link_from-Grows now run_id _ s)
  | inr p ↦ rw p (same-Grows refl)
]

put_found_metric-attempts :
    (e : CardEvent) (run_id name : String) (o : Option ℕ) (s : CardStore)
    → (put_found_metric e run_id name o s).card_attempts ≡ s.card_attempts
unfolding put_metric
put_found_metric-attempts e run_id name none s = refl
put_found_metric-attempts e run_id name (some value) s = refl

put_runtime_metric-attempts :
    (e : CardEvent) (run_id name : String) (s : CardStore)
    → (put_runtime_metric e run_id name s).card_attempts ≡ s.card_attempts
unfolding put_runtime_metric
put_runtime_metric-attempts e run_id name s =
    put_found_metric-attempts e run_id name (metric_of name e.runtime_metrics) s

put_metrics-attempts :
    (e : CardEvent) (run_id : String) (s : CardStore)
    → (put_metrics e run_id s).card_attempts ≡ s.card_attempts
unfolding put_metrics
put_metrics-attempts e run_id s = elim (Bool-cases (is_progress e.kind)) [
  | inl p ↦ rw p (
      put_runtime_metric-attempts e run_id "retry_wait" _
      ∙ (put_runtime_metric-attempts e run_id "delegation_wait" _
          ∙ (put_runtime_metric-attempts e run_id "tool_execution" _
              ∙ put_runtime_metric-attempts e run_id "model_wait" s)))
  | inr p ↦ rw p refl
]

record_runtime-attempts :
    (now : ℕ) (e : CardEvent) (previous : Option CardRuntime) (s : CardStore)
    → (record_runtime now e previous s).card_attempts ≡ s.card_attempts
unfolding record_runtime put_runtime
record_runtime-attempts now e previous s = ground arith

-- The statements that write, after the checks.
written-Grows :
    (now : ℕ) (e : CardEvent) (run_id : String) (card : ManagedCard) (s : CardStore)
    → Grows s (
        put_metrics e run_id (
          link_redispatch now e run_id
            (write_attempt now e run_id card (lookup run_id s.card_attempts) s)))
written-Grows now e run_id card s =
    Grows-trans (write-Grows now e run_id card (lookup run_id s.card_attempts) s refl)
      (Grows-trans (link-Grows now e run_id _) (same-Grows (put_metrics-attempts e run_id _)))

record_attempt-Grows :
    (now : ℕ) (e : CardEvent) (o : Option String) (s : CardStore)
    → Grows s (record_attempt now e o s).1
unfolding record_attempt
record_attempt-Grows now e none s = same-Grows refl
record_attempt-Grows now e (some run_id) s =
    elim (Option-cases (lookup (e.board, e.card_id) s.managed_cards)) [
      | inl p ↦ rw p (same-Grows refl)
      | inr (card, p) ↦ elim (Bool-cases (conflicts e card (lookup run_id s.card_attempts))) [
        | inl q ↦ rw (p, q) (same-Grows refl)
        | inr q ↦ elim (Bool-cases (has_run_of card (lookup run_id s.card_attempts) s)) [
          | inl r ↦ rw (p, q, r) (written-Grows now e run_id card s)
          | inr r ↦ rw (p, q, r) (same-Grows refl)
        ]
      ]
    ]

unless-Grows :
    (ignored : Bool) (now : ℕ) (e : CardEvent) (previous : Option CardRuntime) (s : CardStore)
    → Grows s (record_unless ignored now e previous s).1
unless-Grows true now e previous s = same-Grows refl
unless-Grows false now e previous s =
    continue-Grows s (record_attempt now e (truthy e.run_id) s).0 _
      (record_attempt now e (truthy e.run_id) s).1 (record_attempt-Grows now e (truthy e.run_id) s)
      (λ a. same-Grows (record_runtime-attempts now e previous _))

pub event-Grows :
    (now : ℕ) (e : CardEvent) (s : CardStore) → Grows s (record_card_runtime_event now e s).1
unfolding record_card_runtime_event
event-Grows now e s = settle-Grows s _ (unless-Grows _ now e (card_runtime e.board e.card_id s) s)

pub update_runtime-attempts :
    (board card_id : String) (f : CardRuntime → CardRuntime) (s : CardStore)
    → (update_runtime board card_id f s).card_attempts ≡ s.card_attempts
unfolding update_runtime put_runtime
update_runtime-attempts board card_id f s = elim (Option-cases (card_runtime board card_id s)) [
  | inl p ↦ rw p refl
  | inr (row, p) ↦ rw p refl
]

pub redispatch-Grows :
    (now : ℕ) (board card_id : String) (reason : Option String) (increment_redispatch : Bool)
    (s : CardStore)
    → Grows s (redispatch now board card_id reason increment_redispatch s).1
unfolding redispatch
redispatch-Grows now board card_id reason false s = same-Grows refl
redispatch-Grows now board card_id reason true s =
    elim (Option-cases (current_attempt board card_id s.card_attempts)) [
      | inl p ↦ rw p (same-Grows refl)
      | inr ((run_id, row), p) ↦
          rw p (update-Grows run_id (recovering now reason) s (recovering-Continues now reason))
    ]
