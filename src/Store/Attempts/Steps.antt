-- ===== src/Store/Attempts/Steps.antt =====
-- The methods of hollysys_controller/store.py that write a card, its runtime or its attempts, one after
-- the other.
use hermes_agents_by_kanban.Prelude.{
  ℕ, ◌≡◌, refl, String, Bool, true, false, not, Option, text_eq, pair_eq, is_some,
}
use hermes_agents_by_kanban.Table.{lookup}
use hermes_agents_by_kanban.Exec.{settle, require, modify, ◌>>◌}
use hermes_agents_by_kanban.Store.Attempts.{
  ManagedCard, AttemptError, constraint_failed, unknown_card_runtime, CardStore, put_runtime,
  put_metric, card_runtime,
}
use hermes_agents_by_kanban.Store.Attempts.Events.{CardEvent}
use hermes_agents_by_kanban.Store.Attempts.Recording.{record_card_runtime_event}
use hermes_agents_by_kanban.Store.Attempts.History.{AllContinue}
use hermes_agents_by_kanban.Store.Attempts.Numbering.{IsNumbered, Grows, same-Grows, Grows-trans}
use hermes_agents_by_kanban.Store.Attempts.Watchdog.{
  add_managed_card, put_card, is_key_taken, register_card_attempt, update_runtime,
  record_attempt_completion, record_attempt_metric, redispatch, update_worker_watchdog,
  completed_row, watched_row, clipped, time_or,
}
use hermes_agents_by_kanban.Store.Attempts.Writes.{
  event-Grows, update_runtime-attempts, redispatch-Grows,
}

guarded-Grows :
    (b : Bool) (failure : AttemptError) (f : CardStore → CardStore) (s : CardStore)
    → (f s).card_attempts ≡ s.card_attempts
    → Grows s (settle s ((require b failure >> modify f) s)).1
guarded-Grows true failure f s e = same-Grows e
guarded-Grows false failure f s e = same-Grows refl

require-Grows :
    (b : Bool) (failure : AttemptError) (s t : CardStore)
    → Grows s t
    → Grows s (require b failure t).1
require-Grows true failure s t g = g
require-Grows false failure s t g = g

card-Grows :
    (now : ℕ) (board card_id : String) (card : ManagedCard) (created_at : Option ℕ) (s : CardStore)
    → Grows s (add_managed_card now board card_id card created_at s).1
unfolding add_managed_card put_card
card-Grows now board card_id card created_at s =
    guarded-Grows (not (is_key_taken board card_id card.idempotency_key s.managed_cards))
      (constraint_failed "managed_cards")
      (put_card board card_id (record card { created_at = time_or now created_at })) s refl

metric-Grows :
    (now : ℕ) (run_id metric : String) (duration_ms : ℕ) (summary : Option String) (s : CardStore)
    → Grows s (record_attempt_metric now run_id metric duration_ms summary s).1
unfolding record_attempt_metric put_metric
metric-Grows now run_id metric duration_ms summary s =
    guarded-Grows (is_some (lookup run_id s.card_attempts)) (constraint_failed "attempt_metrics")
      (put_metric run_id metric
        (record { duration_ms = duration_ms; summary = clipped 500 summary; recorded_at = now }))
      s refl

register-Grows :
    (now : ℕ) (board card_id profile dispatch_key worktree branch : String) (s : CardStore)
    → Grows s (register_card_attempt now board card_id profile dispatch_key worktree branch s)
unfolding register_card_attempt put_runtime
register-Grows now board card_id profile dispatch_key worktree branch s = same-Grows refl

completion-Grows :
    (now : ℕ) (board card_id : String) (accepted : Bool) (mr_iid : Option ℕ)
    (head_sha reason : Option String) (s : CardStore)
    → Grows s (record_attempt_completion now board card_id accepted mr_iid head_sha reason s)
unfolding record_attempt_completion
completion-Grows now board card_id accepted mr_iid head_sha reason s =
    same-Grows
      (update_runtime-attempts board card_id (completed_row now accepted mr_iid head_sha reason) s)

watchdog-Grows :
    (now : ℕ) (board card_id attempt_status : String) (lease_seconds : Option ℕ)
    (reason : Option String) (increment_redispatch : Bool) (s : CardStore)
    → Grows s
        (update_worker_watchdog now board card_id attempt_status lease_seconds reason
          increment_redispatch s).1
unfolding update_worker_watchdog
watchdog-Grows now board card_id attempt_status lease_seconds reason increment_redispatch s =
    let after = redispatch now board card_id reason increment_redispatch s in
    let row = watched_row now attempt_status lease_seconds after.0 reason in
    require-Grows (is_some (card_runtime board card_id after.1))
      (unknown_card_runtime board card_id) s (update_runtime board card_id row after.1)
      (Grows-trans (redispatch-Grows now board card_id reason increment_redispatch s)
        (same-Grows (update_runtime-attempts board card_id row after.1)))

-- Any of the methods, with any arguments.
pub data CardSteps : CardStore → CardStore → Type 0 where
  here : {s : CardStore} → CardSteps s s
  carded :
      {s t : CardStore} (now : ℕ) (board card_id : String) (card : ManagedCard)
      (created_at : Option ℕ)
      → CardSteps s t
      → CardSteps s (add_managed_card now board card_id card created_at t).1
  registering :
      {s t : CardStore} (now : ℕ) (board card_id profile dispatch_key worktree branch : String)
      → CardSteps s t
      → CardSteps s (register_card_attempt now board card_id profile dispatch_key worktree branch t)
  happened :
      {s t : CardStore} (now : ℕ) (e : CardEvent)
      → CardSteps s t
      → CardSteps s (record_card_runtime_event now e t).1
  completing :
      {s t : CardStore} (now : ℕ) (board card_id : String) (accepted : Bool) (mr_iid : Option ℕ)
      (head_sha reason : Option String)
      → CardSteps s t
      → CardSteps s (record_attempt_completion now board card_id accepted mr_iid head_sha reason t)
  measured :
      {s t : CardStore} (now : ℕ) (run_id metric : String) (duration_ms : ℕ)
      (summary : Option String)
      → CardSteps s t
      → CardSteps s (record_attempt_metric now run_id metric duration_ms summary t).1
  watched :
      {s t : CardStore} (now : ℕ) (board card_id attempt_status : String) (lease_seconds : Option ℕ)
      (reason : Option String) (increment_redispatch : Bool)
      → CardSteps s t
      → CardSteps s
          (update_worker_watchdog now board card_id attempt_status lease_seconds reason
            increment_redispatch t).1

CardSteps-Grows : {s t : CardStore} → CardSteps s t → Grows s t
CardSteps-Grows {s} here = same-Grows refl
CardSteps-Grows (carded {t = t} now board card_id card created_at h) =
    Grows-trans (CardSteps-Grows h) (card-Grows now board card_id card created_at t)
CardSteps-Grows (registering {t = t} now board card_id profile dispatch_key worktree branch h) =
    Grows-trans (CardSteps-Grows h)
      (register-Grows now board card_id profile dispatch_key worktree branch t)
CardSteps-Grows (happened {t = t} now e h) = Grows-trans (CardSteps-Grows h) (event-Grows now e t)
CardSteps-Grows (completing {t = t} now board card_id accepted mr_iid head_sha reason h) =
    Grows-trans (CardSteps-Grows h)
      (completion-Grows now board card_id accepted mr_iid head_sha reason t)
CardSteps-Grows (measured {t = t} now run_id metric duration_ms summary h) =
    Grows-trans (CardSteps-Grows h) (metric-Grows now run_id metric duration_ms summary t)
CardSteps-Grows
      (watched {t = t} now board card_id attempt_status lease_seconds reason increment_redispatch
        h) =
    Grows-trans (CardSteps-Grows h)
      (watchdog-Grows now board card_id attempt_status lease_seconds reason increment_redispatch t)

-- Whatever is done with the cards, each attempt stays the same attempt of the same card and run, and its
-- times of start, block, completion and exit, its reason of recovery and the attempt it was redispatched
-- from stay once they are set.
pub CardSteps-AllContinue :
    {s t : CardStore} → CardSteps s t → AllContinue s.card_attempts t.card_attempts
CardSteps-AllContinue h = (CardSteps-Grows h).continues

-- Whatever is done with the cards, two attempts of one card never have the same number.
pub CardSteps-IsNumbered :
    {s t : CardStore} → CardSteps s t → IsNumbered s.card_attempts → IsNumbered t.card_attempts
CardSteps-IsNumbered h = (CardSteps-Grows h).numbered
