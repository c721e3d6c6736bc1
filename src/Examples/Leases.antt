-- ===== src/Examples/Leases.antt =====
-- Two workers and one run to reconcile (hollysys_controller/store.py, reconcile_intents).
use hermes_agents_by_kanban.Prelude.{
  ℕ, ◌+◌, ◌≡◌, ◌≢◌, ◌⊎◌, ◌↔◌, inl, refl, String, Bool, true, false, none, some, List, [], ◌∷◌,
  arith, text_eq, ltb, codes, if◌then◌else◌,
}
use hermes_agents_by_kanban.Store.Reconcile.{
  Intent, pending, leased, done, ReconcileStore, enqueue_reconcile, claim_reconcile,
  finish_reconcile, intent_of, intent_by_id, has_run, is_held_by, is_claimable, first_claimable,
  is_error, new_intent, update_intent, lease, is_before, upsert_intent, bump_intent,
}
use hermes_agents_by_kanban.Store.Reconcile.Leases.{finish_reconcile_status}
use hermes_agents_by_kanban.Store.Reconcile.Requests.{
  enqueue_reconcile_bumps, no_lost_request, request_between_lost,
}
use hermes_agents_by_kanban.Store.Reconcile.Claims.{
  NoLater, Waits, claim_reconcile_exclusive, claim_reconcile_first,
}
use mathlib.Core.List.{Memᴰ}
use mathlib.Core.List.Memᴰ.{head}

-- Texts of digits and lower-case letters, in the order of their code points.
codes_lt : List ℕ → List ℕ → Bool
codes_lt xs [] = false
codes_lt [] (y ∷ ys) = true
codes_lt (x ∷ xs) (y ∷ ys) = if ltb x y then true else (if ltb y x then false else codes_lt xs ys)

abbrev text_lt : String → String → Bool
text_lt a b = codes_lt (codes a) (codes b)

abbrev queued : ReconcileStore
queued = record {
  run_keys = "run" ∷ [];
  intents = new_intent 10 "intent-1" "run" "webhook" none ∷ [];
}

abbrev leased_intent : Intent
leased_intent = lease text_lt 20 "worker-1" 300 (new_intent 10 "intent-1" "run" "webhook" none)

abbrev in_work : ReconcileStore
in_work = record queued { intents = leased_intent ∷ [] }

-- Two runs wait; the second was queued first.
abbrev both_queued : ReconcileStore
both_queued = record {
  run_keys = "run" ∷ "other" ∷ [];
  intents =
      new_intent 10 "intent-1" "run" "webhook" none
      ∷ new_intent 5 "intent-2" "other" "webhook" none
      ∷ [];
}

abbrev first_lease : Intent
first_lease = lease text_lt 20 "worker-1" 300 (new_intent 5 "intent-2" "other" "webhook" none)

abbrev second_lease : Intent
second_lease = lease text_lt 30 "worker-2" 300 (new_intent 10 "intent-1" "run" "webhook" none)

claim_reconcile_exclusive_example :
    (intent_by_id "intent-2" (claim_reconcile text_lt 20 "worker-1" 300 both_queued).1.intents
      ≡ some first_lease)
    × (is_held_by "worker-1" first_lease ≡ true)
    × (second_lease.intent_id ≢ first_lease.intent_id)
unfolding claim_reconcile first_claimable is_claimable is_before update_intent lease intent_by_id
    codes_lt
claim_reconcile_exclusive_example =
    claim_reconcile_exclusive text_lt 20 30 "worker-1" "worker-2" 300 300 both_queued first_lease
      second_lease refl (omega arith) refl

codes_lt-asymmetric : (xs ys : List ℕ) → codes_lt xs ys ≡ true → codes_lt ys xs ≡ false
unfolding codes_lt
codes_lt-asymmetric xs [] e = absurd (ground arith)
codes_lt-asymmetric [] (y ∷ ys) e = refl
codes_lt-asymmetric (x ∷ xs) (y ∷ ys) e = ground (arith, codes_lt-asymmetric xs ys)

codes_lt-weak :
    (xs ys zs : List ℕ) → codes_lt xs ys ≡ false → codes_lt ys zs ≡ false → codes_lt xs zs ≡ false
unfolding codes_lt
codes_lt-weak xs ys [] e f = refl
codes_lt-weak xs [] (z ∷ zs) e f = absurd (ground arith)
codes_lt-weak [] (y ∷ ys) (z ∷ zs) e f = absurd (ground arith)
codes_lt-weak (x ∷ xs) (y ∷ ys) (z ∷ zs) e f = ground (arith, codes_lt-weak xs ys zs)

claim_reconcile_first_example :
    (j : Intent) × Memᴰ j both_queued.intents
    × (j.intent_id ≡ "intent-2")
    × NoLater text_lt j (new_intent 10 "intent-1" "run" "webhook" none)
unfolding claim_reconcile first_claimable is_claimable is_before update_intent lease intent_by_id
    codes_lt Waits
claim_reconcile_first_example =
    claim_reconcile_first text_lt (λ a b. codes_lt-asymmetric (codes a) (codes b))
      (λ a b c. codes_lt-weak (codes a) (codes b) (codes c)) 20 "worker-1" 300 both_queued
      first_lease (new_intent 10 "intent-1" "run" "webhook" none) refl (head refl) (inl refl)

-- Nothing is written meanwhile.
abbrev quiet : ReconcileStore → ReconcileStore
quiet q = q

no_lost_request_example :
    (i : Intent) × (intent_by_id "intent-1"
        (finish_reconcile quiet 60 "intent-1" "worker-1" none
          (enqueue_reconcile 50 "intent-2" "run" "comment" (some 3) in_work).1).1.intents
      ≡ some i)
    × (i.status ≡ pending)
unfolding has_run intent_of intent_by_id is_held_by lease enqueue_reconcile upsert_intent
    bump_intent
no_lost_request_example =
    no_lost_request quiet 50 60 "intent-2" "run" "comment" "worker-1" (some 3) none in_work
      leased_intent (bump_intent 50 "comment" (some 3) leased_intent) 1 refl refl refl refl refl
      (omega arith) refl

request_between_lost_example :
    (let request =
        λ (q : ReconcileStore). (enqueue_reconcile 59 "intent-2" "run" "comment" (some 3) q).1 in
      (i : Intent) × (intent_by_id "intent-1"
          (finish_reconcile request 60 "intent-1" "worker-1" none in_work).1.intents
        ≡ some i)
      × (i.status ≡ done)
      × (i.leased_revision ≡ some leased_intent.revision)
      × (i.revision ≡ leased_intent.revision + 1))
unfolding has_run intent_of intent_by_id is_held_by lease
request_between_lost_example =
    request_between_lost 59 60 "intent-2" "run" "comment" "worker-1" (some 3) in_work leased_intent
      refl refl refl refl refl

finish_reconcile_status_example :
    (i : Intent) × (intent_by_id "intent-1"
        (finish_reconcile quiet 60 "intent-1" "worker-1" none in_work).1.intents
      ≡ some i)
    × ((i.status ≡ done)
        ↔ ((leased_intent.leased_revision ≡ some leased_intent.revision) × (is_error none ≡ false)))
    × ((i.status ≡ pending) ⊎ (i.status ≡ done))
    × (i.lease_owner ≡ none)
    × (i.revision ≡ leased_intent.revision)
unfolding intent_by_id is_held_by lease
finish_reconcile_status_example =
    finish_reconcile_status quiet 60 "worker-1" none in_work leased_intent leased_intent refl refl
      refl

enqueue_reconcile_bumps_example :
    (i : Intent) × (intent_of "run"
        (enqueue_reconcile 50 "intent-2" "run" "comment" (some 3) in_work).1.intents
      ≡ some i)
    × (i.intent_id ≡ leased_intent.intent_id)
    × (i.revision ≡ leased_intent.revision + 1)
    × (i.leased_revision ≡ leased_intent.leased_revision)
    × (i.lease_owner ≡ leased_intent.lease_owner)
    × ((i.status ≡ leased) ↔ (leased_intent.status ≡ leased))
    × (i.status ≢ done)
unfolding has_run intent_of lease
enqueue_reconcile_bumps_example =
    enqueue_reconcile_bumps 50 "intent-2" "run" "comment" (some 3) in_work leased_intent refl refl
