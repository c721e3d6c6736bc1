-- ===== src/Service/Reconciling/Queue/Held.antt =====
-- The lease of an intent, from its claim to its end (hollysys_controller/store.py), as the reconciliation
-- of the next run uses it.
use hermes_agents_by_kanban.Prelude.{
  ℕ, ◌≡◌, refl, sym, ap, ◌∙◌, ◌⊎◌, String, Bool, true, false, Option, none, some, arith, text_eq,
  beq_refl,
}
use hermes_agents_by_kanban.Exec.{ok}
use hermes_agents_by_kanban.Store.Reconcile.{
  Intent, pending, done, ReconcileStore, intent_by_id, update_intent, is_held_by, step_row,
  update_reconcile_step, finish_reconcile, is_error, claim_reconcile, lease, claim_found,
  finish_row, needs_rerun,
}
use hermes_agents_by_kanban.Store.Reconcile.Leases.{intent_by_id-update_intent, claimed_first}

-- The owner holds the lease of the intent.
pub record Holds (owner id : String) (q : ReconcileStore) : Type 0 where
  pub intent : Intent
  pub found : intent_by_id id q.intents ≡ some intent
  pub holder : is_held_by owner intent ≡ true

-- What deletes no intent.
unfoldable pub Keeps : (ReconcileStore → ReconcileStore) → Type 0
Keeps f =
    (q : ReconcileStore) (id : String) (i : Intent)
    → intent_by_id id q.intents ≡ some i
    → (j : Intent) × (intent_by_id id (f q).intents ≡ some j)

-- The lease of the intent has ended, and the intent waits or is done.
pub record Released (id : String) (error : Option String) (q : ReconcileStore) : Type 0 where
  pub intent : Intent
  pub found : intent_by_id id q.intents ≡ some intent
  pub free : intent.lease_owner ≡ none
  pub status : (intent.status ≡ pending) ⊎ ((intent.status ≡ done) × (is_error error ≡ false))

pub step-Holds :
    (now : ℕ) (owner id step : String) (lease_seconds : ℕ) (q : ReconcileStore)
    → Holds owner id q
    → ((update_reconcile_step now id owner step lease_seconds q).0 ≡ ok tt)
      × Holds owner id (update_reconcile_step now id owner step lease_seconds q).1
unfolding update_reconcile_step step_row is_held_by
step-Holds now owner id step lease_seconds q h =
    let same =
      intent_by_id-update_intent id id (step_row now step lease_seconds) q.intents (λ _. refl) in
    rw (h.found, h.holder)
      (
        refl,
        record {
          intent = step_row now step lease_seconds h.intent;
          found = ground (arith, same, h.found, beq_refl id);
          holder = h.holder;
        },
      )

pub finish-Released :
    (meantime : ReconcileStore → ReconcileStore)
    → Keeps meantime
    → (now : ℕ) (owner id : String) (error : Option String) (q : ReconcileStore) → Holds owner id q
    → ((finish_reconcile meantime now id owner error q).0 ≡ ok tt)
      × Released id error (finish_reconcile meantime now id owner error q).1
unfolding finish_reconcile finish_row Keeps
finish-Released meantime stays now owner id error q h =
    let (j, still) = stays q id h.intent h.found in
    let row = finish_row now (needs_rerun h.intent) error j in
    let same =
      intent_by_id-update_intent id id (finish_row now (needs_rerun h.intent) error)
        (meantime q).intents (λ _. refl) in
    rw (h.found, h.holder)
      (
        refl,
        record {
          intent = row;
          found = ground (arith, same, still, beq_refl id);
          free = refl;
          status = ground arith;
        },
      )

claimed-Holds :
    (text_lt : String → String → Bool) (now : ℕ) (owner : String) (lease_seconds : ℕ)
    (q : ReconcileStore) (i j : Intent)
    → (claim_found text_lt now owner lease_seconds (some j) q).0 ≡ ok (some i)
    → j.intent_id ≡ i.intent_id
    → is_held_by owner i ≡ true
    → Holds owner i.intent_id (claim_found text_lt now owner lease_seconds (some j) q).1
claimed-Holds text_lt now owner lease_seconds q i j e same h =
    let intents = update_intent j.intent_id (lease text_lt now owner lease_seconds) q.intents in
    let got : intent_by_id j.intent_id intents ≡ some i = cc in
    record { intent = i; found = ap (λ id. intent_by_id id intents) (sym same) ∙ got; holder = h }

-- The intent that is claimed is held by the one that claims it.
pub claim-Holds :
    (text_lt : String → String → Bool) (now : ℕ) (owner : String) (lease_seconds : ℕ)
    (q : ReconcileStore) (i : Intent)
    → (claim_reconcile text_lt now owner lease_seconds q).0 ≡ ok (some i)
    → Holds owner i.intent_id (claim_reconcile text_lt now owner lease_seconds q).1
unfolding claim_reconcile
claim-Holds text_lt now owner lease_seconds q i e =
    let (j, first, same, _, holder, _) =
      claimed_first text_lt now now owner lease_seconds q i e (omega arith) in
    let e' = rw first at e in
    rw first (claimed-Holds text_lt now owner lease_seconds q i j e' same holder)
