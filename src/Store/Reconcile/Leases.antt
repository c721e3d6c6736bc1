-- ===== src/Store/Reconcile/Leases.antt =====
-- Leases of reconcile intents: what a claim and the end of a lease write.
use hermes_agents_by_kanban.Prelude.{
  ℕ, ◌+◌, ◌≤◌, ◌≡◌, ◌↔◌, ◌⊎◌, refl, String, Bool, true, false, Option, none, some, List, [], ◌∷◌,
  arith, ◌==◌, text_eq, eq_iff, if◌then◌else◌, beq_refl, option_beq_iff, nat_eq, sym, ◌∙◌, ap,
  Option-cases, inl, inr,
}
use hermes_agents_by_kanban.Exec.{ok}
use hermes_agents_by_kanban.Store.Reconcile.{
  Intent, pending, done, ReconcileStore, intent_by_id, update_intent, is_claimable, first_claimable,
  lease, claim_reconcile, is_held_by, finish_row, finish_reconcile, needs_rerun, held, is_error,
}

abbrev only_map : (Intent → Intent) → Option Intent → Option Intent
only_map f none = none
only_map f (some i) = some (f i)

pub intent_by_id-update_intent :
    (id j : String) (f : Intent → Intent) (is : List Intent)
    → ((i : Intent) → (f i).intent_id ≡ i.intent_id)
    → intent_by_id j (update_intent id f is)
      ≡ (if id == j then only_map f (intent_by_id j is) else intent_by_id j is)
unfolding intent_by_id update_intent
intent_by_id-update_intent id j f [] keep = ground arith
intent_by_id-update_intent id j f (i ∷ is) keep = ground (
  arith,
  intent_by_id-update_intent id j f is keep,
  keep i,
  eq_iff i.intent_id id,
  eq_iff i.intent_id j,
  eq_iff id j,
)

pub first_claimable-claimable :
    (text_lt : String → String → Bool) (now : ℕ) (is : List Intent) (i : Intent)
    → first_claimable text_lt now is ≡ some i
    → is_claimable now i ≡ true
unfolding first_claimable
first_claimable-claimable text_lt now [] i e = ground arith
first_claimable-claimable text_lt now (j ∷ is) i e =
    elim (Option-cases (first_claimable text_lt now is)) [
      | inl p ↦ ground (arith, p)
      | inr (k, p) ↦ ground (arith, p, first_claimable-claimable text_lt now is k p)
    ]

-- What `finish_reconcile` writes for the holder of a lease.
pub finish_written :
    (meanwhile : ReconcileStore → ReconcileStore) (now : ℕ) (owner : String) (error : Option String)
    (s : ReconcileStore) (i j : Intent)
    → intent_by_id i.intent_id s.intents ≡ some i
    → is_held_by owner i ≡ true
    → intent_by_id i.intent_id (meanwhile s).intents ≡ some j
    → intent_by_id i.intent_id (finish_reconcile meanwhile now i.intent_id owner error s).1.intents
      ≡ some (finish_row now (needs_rerun i) error j)
unfolding finish_reconcile
finish_written meanwhile now owner error s i j e h still =
    rw (e, h)
      (ground (
        arith,
        intent_by_id-update_intent i.intent_id i.intent_id (finish_row now (needs_rerun i) error)
            (meanwhile s).intents (λ _. refl),
        beq_refl i.intent_id,
      ))

-- When the holder of a lease finishes an intent, and other connections write the intent in between
-- but do not delete it, the lease ends, the revision is what the others left, and the intent is done
-- exactly when the holder reports no error and the revision was the leased one when it was read;
-- otherwise it is pending again.
pub finish_reconcile_status :
    (meanwhile : ReconcileStore → ReconcileStore) (now : ℕ) (owner : String) (error : Option String)
    (s : ReconcileStore) (i j : Intent)
    → intent_by_id i.intent_id s.intents ≡ some i
    → is_held_by owner i ≡ true
    → intent_by_id i.intent_id (meanwhile s).intents ≡ some j
    → (i' : Intent) × (intent_by_id i.intent_id
          (finish_reconcile meanwhile now i.intent_id owner error s).1.intents
        ≡ some i')
      × ((i'.status ≡ done) ↔ ((i.leased_revision ≡ some i.revision) × (is_error error ≡ false)))
      × ((i'.status ≡ pending) ⊎ (i'.status ≡ done))
      × (i'.lease_owner ≡ none)
      × (i'.revision ≡ j.revision)
unfolding finish_row
finish_reconcile_status meanwhile now owner error s i j e h still = (
  finish_row now (needs_rerun i) error j,
  finish_written meanwhile now owner error s i j e h still,
  (
    λ d. ground (arith, option_beq_iff (some i.revision) i.leased_revision),
    λ d. ground (arith, option_beq_iff (some i.revision) i.leased_revision),
  ),
  ground arith,
  refl,
  refl,
)

claim_nothing :
    (text_lt : String → String → Bool) (now : ℕ) (owner : String) (lease_seconds : ℕ)
    (s : ReconcileStore) (i : Intent)
    → first_claimable text_lt now s.intents ≡ none
    → ¬ ((claim_reconcile text_lt now owner lease_seconds s).0 ≡ ok (some i))
unfolding claim_reconcile
claim_nothing text_lt now owner lease_seconds s i p e = ground arith

pub intent_by_id-id :
    (id : String) (is : List Intent) (k : Intent) → intent_by_id id is ≡ some k → k.intent_id ≡ id
unfolding intent_by_id
intent_by_id-id id [] k p = ground arith
intent_by_id-id id (i ∷ is) k p = ground (arith, intent_by_id-id id is k, eq_iff i.intent_id id)

lease_id :
    (text_lt : String → String → Bool) (now : ℕ) (owner : String) (lease_seconds : ℕ) (k : Intent)
    → k.intent_id ≡ (lease text_lt now owner lease_seconds k).intent_id
unfolding lease
lease_id text_lt now owner lease_seconds k = refl

claim_leased :
    (text_lt : String → String → Bool) (now : ℕ) (owner : String) (lease_seconds : ℕ)
    (s : ReconcileStore) (i j : Intent)
    → first_claimable text_lt now s.intents ≡ some j
    → (claim_reconcile text_lt now owner lease_seconds s).0 ≡ ok (some i)
    → (k : Intent) × (i ≡ lease text_lt now owner lease_seconds k) × (k.intent_id ≡ j.intent_id)
unfolding claim_reconcile
claim_leased text_lt now owner lease_seconds s i j f e =
    elim (Option-cases (intent_by_id j.intent_id s.intents)) [
      | inl p ↦ absurd (
          ground (
            arith,
            p,
            intent_by_id-update_intent j.intent_id j.intent_id
                (lease text_lt now owner lease_seconds) s.intents (λ _. refl),
          ))
      | inr (k, p) ↦ (
        k,
        ground (
          arith,
          p,
          intent_by_id-update_intent j.intent_id j.intent_id (lease text_lt now owner lease_seconds)
              s.intents (λ _. refl),
          beq_refl j.intent_id,
        ),
        intent_by_id-id j.intent_id s.intents k p,
      )
    ]

pub lease_holds :
    (text_lt : String → String → Bool) (now later : ℕ) (owner : String) (lease_seconds : ℕ)
    (k : Intent)
    → later ≤ now + lease_seconds
    → (is_held_by owner (lease text_lt now owner lease_seconds k) ≡ true)
      × (is_claimable later (lease text_lt now owner lease_seconds k) ≡ false)
unfolding lease is_held_by is_claimable
lease_holds text_lt now later owner lease_seconds k le = (beq_refl owner, ground arith)

-- What a claim gives out: the row that the query finds, leased.
pub claimed_first :
    (text_lt : String → String → Bool) (now later : ℕ) (owner : String) (lease_seconds : ℕ)
    (s : ReconcileStore) (i : Intent)
    → (claim_reconcile text_lt now owner lease_seconds s).0 ≡ ok (some i)
    → later ≤ now + lease_seconds
    → (j : Intent) × (first_claimable text_lt now s.intents ≡ some j)
      × (j.intent_id ≡ i.intent_id)
      × (is_claimable now j ≡ true)
      × (is_held_by owner i ≡ true)
      × (is_claimable later i ≡ false)
claimed_first text_lt now later owner lease_seconds s i e le =
    elim (Option-cases (first_claimable text_lt now s.intents)) [
      | inl p ↦ absurd (claim_nothing text_lt now owner lease_seconds s i p e)
      | inr (j, p) ↦
          let (k, q, id) = claim_leased text_lt now owner lease_seconds s i j p e in
          let (held, free) = lease_holds text_lt now later owner lease_seconds k le in
          (
            j,
            p,
            sym id
                ∙ lease_id text_lt now owner lease_seconds k
                ∙ ap (λ (x : Intent). x.intent_id) (sym q),
            first_claimable-claimable text_lt now s.intents j p,
            rw q held,
            rw q free,
          )
    ]
