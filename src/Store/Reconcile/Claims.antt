-- ===== src/Store/Reconcile/Claims.antt =====
-- Which intent `claim_reconcile` of hollysys_controller/store.py gives out, and to whom.
use hermes_agents_by_kanban.Prelude.{
  ℕ, ◌+◌, ◌≤◌, ◌<◌, ◌≡◌, ◌≢◌, ◌⊎◌, sym, ap, subst, ◌∙◌, String, Bool, true, false, none, some, List,
  [], ◌∷◌, arith, text_eq, eq_iff, nat_eq, Option-cases, Bool-cases, inl, inr,
}
use mathlib.Core.List.{Memᴰ}
use mathlib.Core.List.Memᴰ.{head, tail}
use hermes_agents_by_kanban.Exec.{ok}
use hermes_agents_by_kanban.Store.Reconcile.{
  Intent, pending, leased, ReconcileStore, intent_by_id, update_intent, is_claimable,
  first_claimable, lease, claim_reconcile, is_held_by, is_before,
}
use hermes_agents_by_kanban.Store.Reconcile.Leases.{claimed_first, lease_holds}

-- The intent waits for a worker: it is pending, or its lease has run out.
unfoldable pub Waits : ℕ → Intent → Type 0
Waits now i =
    (i.status ≡ pending)
    ⊎ ((i.status ≡ leased) × ((until : ℕ) × (i.lease_until ≡ some until) × (until < now)))

Waits-claimable : (now : ℕ) (i : Intent) → Waits now i → is_claimable now i ≡ true
unfolding Waits is_claimable
Waits-claimable now i (inl p) = ground arith
Waits-claimable now i (inr (l, (u, e, less))) = ground (arith, e)

module _ (text_lt : String → String → Bool) where
  -- The first intent was created before the other, or at the same time with no larger key.
  pub NoLater : Intent → Intent → Type 0
  NoLater i k =
      (i.created_at < k.created_at)
      ⊎ ((i.created_at ≡ k.created_at) × (text_lt k.intent_id i.intent_id ≡ false))

  first_claimable-Memᴰ :
      (now : ℕ) (is : List Intent) (j : Intent)
      → first_claimable text_lt now is ≡ some j
      → Memᴰ j is
  unfolding first_claimable
  first_claimable-Memᴰ now [] j e = absurd (ground arith)
  first_claimable-Memᴰ now (i ∷ is) j e = elim (Bool-cases (is_claimable now i)) [
    | inr c ↦ tail (first_claimable-Memᴰ now is j (ground arith))
    | inl c ↦ elim (Option-cases (first_claimable text_lt now is)) [
      | inl p ↦ head (ground arith)
      | inr (k, p) ↦ elim (Bool-cases (is_before text_lt k i)) [
        | inl b ↦ tail (first_claimable-Memᴰ now is j (ground arith))
        | inr b ↦ head (ground arith)
      ]
    ]
  ]

  first_claimable-none :
      (now : ℕ) (is : List Intent) (k : Intent)
      → first_claimable text_lt now is ≡ none
      → Memᴰ k is
      → is_claimable now k ≡ true
      → ⊥
  unfolding first_claimable
  first_claimable-none now [] k e m c = elim m [ ]
  first_claimable-none now (i ∷ is) k e (head same) c =
      let c' : is_claimable now i ≡ true = cc in
      elim (Option-cases (first_claimable text_lt now is)) [
        | inl p ↦ ground arith
        | inr (l, p) ↦ ground (arith, p)
      ]
  first_claimable-none now (i ∷ is) k e (tail m) c =
      elim (Option-cases (first_claimable text_lt now is)) [
        | inl p ↦ first_claimable-none now is k p m c
        | inr (l, p) ↦ ground (arith, p)
      ]

  module _ (asymmetric : (a b : String) → text_lt a b ≡ true → text_lt b a ≡ false)
      (weak : (a b c : String)
        → text_lt a b ≡ false
        → text_lt b c ≡ false
        → text_lt a c ≡ false) where
    before-NoLater : (j i : Intent) → is_before text_lt j i ≡ true → NoLater j i
    unfolding NoLater is_before
    before-NoLater j i b = ground (arith, asymmetric j.intent_id i.intent_id)

    after-NoLater : (j i : Intent) → is_before text_lt j i ≡ false → NoLater i j
    unfolding NoLater is_before
    after-NoLater j i b = ground arith

    NoLater-self : (i : Intent) → NoLater i i
    unfolding NoLater
    NoLater-self i = ground (arith, asymmetric i.intent_id i.intent_id)

    NoLater-trans : (i j k : Intent) → NoLater i j → NoLater j k → NoLater i k
    unfolding NoLater
    NoLater-trans i j k p q = ground (arith, weak k.intent_id j.intent_id i.intent_id)

    first_claimable-NoLater :
        (now : ℕ) (is : List Intent) (j k : Intent)
        → first_claimable text_lt now is ≡ some j
        → Memᴰ k is
        → is_claimable now k ≡ true
        → NoLater j k
    unfolding first_claimable
    first_claimable-NoLater now [] j k e m c = elim m [ ]
    first_claimable-NoLater now (i ∷ is) j k e (head same) c =
        let c' : is_claimable now i ≡ true = cc in
        elim (Option-cases (first_claimable text_lt now is)) [
          | inl p ↦
              let at : i ≡ j = ground arith in
              subst (λ x. NoLater x k) at (subst (λ x. NoLater i x) (sym same) (NoLater-self i))
          | inr (l, p) ↦ elim (Bool-cases (is_before text_lt l i)) [
            | inl b ↦
                let at : l ≡ j = ground arith in
                subst (λ x. NoLater x k) at
                  (subst (λ x. NoLater l x) (sym same) (before-NoLater l i b))
            | inr b ↦
                let at : i ≡ j = ground arith in
                subst (λ x. NoLater x k) at (subst (λ x. NoLater i x) (sym same) (NoLater-self i))
          ]
        ]
    first_claimable-NoLater now (i ∷ is) j k e (tail m) c = elim (Bool-cases (is_claimable now i)) [
      | inr d ↦ first_claimable-NoLater now is j k (ground arith) m c
      | inl d ↦ elim (Option-cases (first_claimable text_lt now is)) [
        | inl p ↦ absurd (first_claimable-none now is k p m c)
        | inr (l, p) ↦ elim (Bool-cases (is_before text_lt l i)) [
          | inl b ↦ first_claimable-NoLater now is j k (ground arith) m c
          | inr b ↦
              let at : i ≡ j = ground arith in
              subst (λ x. NoLater x k) at
                (NoLater-trans i l k (after-NoLater l i b)
                  (first_claimable-NoLater now is l k p m c))
        ]
      ]
    ]

  -- No claim before the end of the lease finds a row with the key.
  first_claimable-other :
      (now later : ℕ) (owner : String) (lease_seconds : ℕ) (id : String) (is : List Intent)
      (j : Intent)
      → later ≤ now + lease_seconds
      → first_claimable text_lt later (update_intent id (lease text_lt now owner lease_seconds) is)
        ≡ some j
      → j.intent_id ≢ id
  unfolding first_claimable update_intent
  first_claimable-other now later owner lease_seconds id [] j le e = absurd (ground arith)
  first_claimable-other now later owner lease_seconds id (i ∷ is) j le e =
      let rest = first_claimable-other now later owner lease_seconds id is in
      let free = (lease_holds text_lt now later owner lease_seconds i le).1 in
      elim (Option-cases (
        first_claimable text_lt later
          (update_intent id (lease text_lt now owner lease_seconds) is))) [
            | inl p ↦ ground (arith, free, p, eq_iff i.intent_id id)
            | inr (l, p) ↦ ground (arith, free, p, rest l le p, eq_iff i.intent_id id)
          ]

  claimed_store :
      (now : ℕ) (owner : String) (lease_seconds : ℕ) (s : ReconcileStore) (i j : Intent)
      → first_claimable text_lt now s.intents ≡ some j
      → (claim_reconcile text_lt now owner lease_seconds s).0 ≡ ok (some i)
      → j.intent_id ≡ i.intent_id
      → ((claim_reconcile text_lt now owner lease_seconds s).1.intents
          ≡ update_intent i.intent_id (lease text_lt now owner lease_seconds) s.intents)
        × (intent_by_id i.intent_id (claim_reconcile text_lt now owner lease_seconds s).1.intents
            ≡ some i)
  unfolding claim_reconcile
  claimed_store now owner lease_seconds s i j p e same =
      let rows =
        λ (id : String). update_intent id (lease text_lt now owner lease_seconds) s.intents in
      let e' : intent_by_id j.intent_id (rows j.intent_id) ≡ some i = ground (arith, p, e) in
      rw p (ap rows same, subst (λ id. intent_by_id id (rows j.intent_id) ≡ some i) same e')

  -- A claim that gives out an intent leaves it in the table, leased by the claimant; and until the time
  -- of the lease has passed, no further claim on that table, by whom ever, gives out the same intent.
  pub claim_reconcile_exclusive :
      (now later : ℕ) (owner other : String) (lease_seconds other_seconds : ℕ) (s : ReconcileStore)
      (i k : Intent)
      → (claim_reconcile text_lt now owner lease_seconds s).0 ≡ ok (some i)
      → later ≤ now + lease_seconds
      → (let s' = (claim_reconcile text_lt now owner lease_seconds s).1 in
          (claim_reconcile text_lt later other other_seconds s').0 ≡ ok (some k))
      → let s' = (claim_reconcile text_lt now owner lease_seconds s).1 in
        (intent_by_id i.intent_id s'.intents ≡ some i)
        × (is_held_by owner i ≡ true)
        × (k.intent_id ≢ i.intent_id)
  claim_reconcile_exclusive now later owner other lease_seconds other_seconds s i k e le e2 =
      let s' = (claim_reconcile text_lt now owner lease_seconds s).1 in
      let (j, p, same, _, holder, _) =
        claimed_first text_lt now later owner lease_seconds s i e le in
      let (l, p2, same2, _, _, _) =
        claimed_first text_lt later later other other_seconds s' k e2 (omega arith) in
      let (rows, stored) = claimed_store now owner lease_seconds s i j p e same in
      let p2' = subst (λ is. first_claimable text_lt later is ≡ some l) rows p2 in
      let differ =
        first_claimable-other now later owner lease_seconds i.intent_id s.intents l le p2' in
      (stored, holder, λ q. differ (same2 ∙ q))

  -- For an order of texts that is asymmetric and whose negation is transitive: a claim gives out the
  -- intent of a row that is in the table and that was created no later than any row that is pending or
  -- whose lease has run out, and none of these that was created at the same time has a smaller key.
  pub claim_reconcile_first :
      (asymmetric : (a b : String) → text_lt a b ≡ true → text_lt b a ≡ false)
      (weak : (a b c : String) → text_lt a b ≡ false → text_lt b c ≡ false → text_lt a c ≡ false)
      (now : ℕ) (owner : String) (lease_seconds : ℕ) (s : ReconcileStore) (i k : Intent)
      → (claim_reconcile text_lt now owner lease_seconds s).0 ≡ ok (some i)
      → Memᴰ k s.intents
      → Waits now k
      → (j : Intent) × Memᴰ j s.intents × (j.intent_id ≡ i.intent_id) × NoLater j k
  claim_reconcile_first asymmetric weak now owner lease_seconds s i k e m w =
      let (j, p, same, _, _, _) =
        claimed_first text_lt now now owner lease_seconds s i e (omega arith) in
      (
        j,
        first_claimable-Memᴰ now s.intents j p,
        same,
        first_claimable-NoLater asymmetric weak now s.intents j k p m (Waits-claimable now k w),
      )
