-- ===== src/Store/Reconcile/Requests.antt =====
-- Requests to reconcile a run whose intent is leased (hollysys_controller/store.py).
use hermes_agents_by_kanban.Prelude.{
  none, option_beq_iff, ℕ, ◌+◌, ◌≤◌, ◌≡◌, ◌≢◌, ◌↔◌, refl, String, true, false, Option, some, List,
  [], ◌∷◌, arith, ◌==◌, text_eq, beq_refl, subst, nat_eq, ◌∙◌, inl, inr, Bool-cases,
}
use hermes_agents_by_kanban.Store.Reconcile.{
  Intent, pending, leased, done, ReconcileStore, has_run, intent_of, intent_by_id, upsert_intent,
  bump_intent, is_held_by, finish_row, finish_reconcile, enqueue_reconcile, needs_rerun,
}
use hermes_agents_by_kanban.Store.Reconcile.Leases.{finish_written}

intent_of-key :
    (run_key : String) (is : List Intent) (i : Intent)
    → intent_of run_key is ≡ some i
    → (i.run_key == run_key) ≡ true
unfolding intent_of
intent_of-key run_key [] i e = ground arith
intent_of-key run_key (j ∷ is) i e = ground (arith, intent_of-key run_key is i)

module _ (now : ℕ) (id run_key reason : String) (event_id : Option ℕ) where
  intent_of-upsert_intent :
      (is : List Intent) (i : Intent)
      → intent_of run_key is ≡ some i
      → intent_of run_key (upsert_intent now id run_key reason event_id is)
        ≡ some (bump_intent now reason event_id i)
  unfolding intent_of upsert_intent bump_intent
  intent_of-upsert_intent [] i e = ground arith
  intent_of-upsert_intent (j ∷ is) i e = ground (arith, intent_of-upsert_intent is i)

  bump_id : (i : Intent) → (bump_intent now reason event_id i).intent_id ≡ i.intent_id
  unfolding bump_intent
  bump_id i = refl

  intent_by_id-head :
      (is : List Intent) (i : Intent)
      → intent_by_id i.intent_id (bump_intent now reason event_id i ∷ is)
        ≡ some (bump_intent now reason event_id i)
  unfolding intent_by_id bump_intent
  intent_by_id-head is i = rw (beq_refl i.intent_id)

  no_intent : (i : Intent) → ¬ (intent_of run_key [] ≡ some i)
  unfolding intent_of
  no_intent i e = ground arith

  head_is :
      (j : Intent) (is : List Intent) (i : Intent)
      → (j.run_key == run_key) ≡ true
      → intent_of run_key (j ∷ is) ≡ some i
      → j ≡ i
  unfolding intent_of
  head_is j is i p e = ground arith

  bumped_head :
      (j : Intent) (is : List Intent) (i : Intent)
      → (j.run_key == run_key) ≡ true
      → intent_of run_key (j ∷ is) ≡ some i
      → intent_by_id i.intent_id (bump_intent now reason event_id j ∷ is)
        ≡ some (bump_intent now reason event_id i)
  bumped_head j is i p e =
      subst
        (λ x.
          intent_by_id x.intent_id (bump_intent now reason event_id j ∷ is)
          ≡ some (bump_intent now reason event_id x))
        (head_is j is i p e) (intent_by_id-head is j)

  kept_tail :
      (j : Intent) (is : List Intent) (i : Intent)
      → (j.run_key == run_key) ≡ false
      → intent_of run_key (j ∷ is) ≡ some i
      → intent_by_id i.intent_id (j ∷ is) ≡ some i
      → ((intent_of run_key is ≡ some i) × (intent_by_id i.intent_id is ≡ some i))
        × ((j.intent_id == i.intent_id) ≡ false)
  unfolding intent_of intent_by_id
  kept_tail j is i p e f = ground (arith, intent_of-key run_key is i)

  intent_by_id-skip :
      (j : Intent) (is : List Intent) (k : String)
      → (j.intent_id == k) ≡ false
      → intent_by_id k (j ∷ is) ≡ intent_by_id k is
  unfolding intent_by_id
  intent_by_id-skip j is k p = rw p

  intent_by_id-upsert_intent :
      (is : List Intent) (i : Intent)
      → intent_of run_key is ≡ some i
      → intent_by_id i.intent_id is ≡ some i
      → intent_by_id i.intent_id (upsert_intent now id run_key reason event_id is)
        ≡ some (bump_intent now reason event_id i)
  unfolding upsert_intent
  intent_by_id-upsert_intent [] i e f = absurd (no_intent i e)
  intent_by_id-upsert_intent (j ∷ is) i e f = elim (Bool-cases (j.run_key == run_key)) [
    | inl p ↦ rw p (bumped_head j is i p e)
    | inr p ↦
        let (tail, other) = kept_tail j is i p e f in
        rw p (
          intent_by_id-skip j (upsert_intent now id run_key reason event_id is) i.intent_id other
          ∙ intent_by_id-upsert_intent is i tail.0 tail.1)
  ]

-- After a request to reconcile, the intent of the run is one revision further, and a lease that is
-- held stays with its holder at the revision that it leased.
pub enqueue_reconcile_bumps :
    (now : ℕ) (id run_key reason : String) (event_id : Option ℕ) (s : ReconcileStore) (i : Intent)
    → has_run run_key s.run_keys ≡ true
    → intent_of run_key s.intents ≡ some i
    → (i' : Intent) × (intent_of run_key
          (enqueue_reconcile now id run_key reason event_id s).1.intents
        ≡ some i')
      × (i'.intent_id ≡ i.intent_id)
      × (i'.revision ≡ i.revision + 1)
      × (i'.leased_revision ≡ i.leased_revision)
      × (i'.lease_owner ≡ i.lease_owner)
      × ((i'.status ≡ leased) ↔ (i.status ≡ leased))
      × (i'.status ≢ done)
unfolding enqueue_reconcile bump_intent
enqueue_reconcile_bumps now id run_key reason event_id s i r e = (
  bump_intent now reason event_id i,
  rw r (intent_of-upsert_intent now id run_key reason event_id s.intents i e),
  refl,
  refl,
  refl,
  refl,
  (λ h. ground arith, λ h. ground arith),
  λ h. ground arith,
)

bumped_pending :
    (now later : ℕ) (reason : String) (event_id : Option ℕ) (error : Option String) (i j : Intent)
    (r : ℕ)
    → i.leased_revision ≡ some r
    → r ≤ i.revision
    → (finish_row later (needs_rerun (bump_intent now reason event_id i)) error j).status ≡ pending
unfolding finish_row bump_intent
bumped_pending now later reason event_id error i j r l le = ground arith

bumped_finish :
    (meanwhile : ReconcileStore → ReconcileStore) (now later : ℕ) (id run_key reason owner : String)
    (event_id : Option ℕ) (error : Option String) (s : ReconcileStore) (i j : Intent)
    → has_run run_key s.run_keys ≡ true
    → intent_of run_key s.intents ≡ some i
    → intent_by_id i.intent_id s.intents ≡ some i
    → is_held_by owner i ≡ true
    → (let s' = (enqueue_reconcile now id run_key reason event_id s).1 in
        intent_by_id i.intent_id (meanwhile s').intents ≡ some j)
    → intent_by_id i.intent_id
        (finish_reconcile meanwhile later i.intent_id owner error
          (enqueue_reconcile now id run_key reason event_id s).1).1.intents
      ≡ some (finish_row later (needs_rerun (bump_intent now reason event_id i)) error j)
unfolding enqueue_reconcile bump_intent is_held_by
bumped_finish meanwhile now later id run_key reason owner event_id error s i j known of by h still =
    let still' = rw known at still in
    rw known (
      finish_written meanwhile later owner error
        (record s { intents = upsert_intent now id run_key reason event_id s.intents })
        (bump_intent now reason event_id i) j
        (intent_by_id-upsert_intent now id run_key reason event_id s.intents i of by) (ground arith)
        still')

-- A request to reconcile a known run that arrives while its intent is leased, at a revision that the
-- intent has reached, and before its holder finishes, is not lost: when the holder then finishes, with
-- an error or without, the intent is pending again, whatever other connections write to it while it
-- finishes, short of deleting it.
pub no_lost_request :
    (meanwhile : ReconcileStore → ReconcileStore) (now later : ℕ) (id run_key reason owner : String)
    (event_id : Option ℕ) (error : Option String) (s : ReconcileStore) (i j : Intent) (r : ℕ)
    → has_run run_key s.run_keys ≡ true
    → intent_of run_key s.intents ≡ some i
    → intent_by_id i.intent_id s.intents ≡ some i
    → is_held_by owner i ≡ true
    → i.leased_revision ≡ some r
    → r ≤ i.revision
    → (let s' = (enqueue_reconcile now id run_key reason event_id s).1 in
        intent_by_id i.intent_id (meanwhile s').intents ≡ some j)
    → let s' = (enqueue_reconcile now id run_key reason event_id s).1 in
      (i' : Intent) × (intent_by_id i.intent_id
          (finish_reconcile meanwhile later i.intent_id owner error s').1.intents
        ≡ some i')
      × (i'.status ≡ pending)
no_lost_request meanwhile now later id run_key reason owner event_id error s i j r known of by h l
      le still =
    (
      finish_row later (needs_rerun (bump_intent now reason event_id i)) error j,
      bumped_finish meanwhile now later id run_key reason owner event_id error s i j known of by h
          still,
      bumped_pending now later reason event_id error i j r l le,
    )

-- A request that another connection commits while the holder finishes, after it has read the revision,
-- is lost: where there was no request before it and no error, the intent is done, although its
-- revision is beyond the leased one.
pub request_between_lost :
    (now later : ℕ) (id run_key reason owner : String) (event_id : Option ℕ) (s : ReconcileStore)
    (i : Intent)
    → has_run run_key s.run_keys ≡ true
    → intent_of run_key s.intents ≡ some i
    → intent_by_id i.intent_id s.intents ≡ some i
    → is_held_by owner i ≡ true
    → i.leased_revision ≡ some i.revision
    → let request =
        λ (q : ReconcileStore). (enqueue_reconcile now id run_key reason event_id q).1 in
      (i' : Intent) × (intent_by_id i.intent_id
          (finish_reconcile request later i.intent_id owner none s).1.intents
        ≡ some i')
      × (i'.status ≡ done)
      × (i'.leased_revision ≡ some i.revision)
      × (i'.revision ≡ i.revision + 1)
unfolding finish_row bump_intent enqueue_reconcile
request_between_lost now later id run_key reason owner event_id s i known of by h l =
    let request = λ (q : ReconcileStore). (enqueue_reconcile now id run_key reason event_id q).1 in
    let still : intent_by_id i.intent_id (request s).intents
        ≡ some (bump_intent now reason event_id i) =
      rw known (intent_by_id-upsert_intent now id run_key reason event_id s.intents i of by) in
    (
      finish_row later (needs_rerun i) none (bump_intent now reason event_id i),
      finish_written request later owner none s i (bump_intent now reason event_id i) by h still,
      ground (arith, option_beq_iff (some i.revision) i.leased_revision),
      l,
      refl,
    )
