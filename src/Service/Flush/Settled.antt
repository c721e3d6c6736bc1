-- ===== src/Service/Flush/Settled.antt =====
-- What a flush leaves of each message (hollysys_controller/service.py).
use hermes_agents_by_kanban.Prelude.{
  ℕ, zero, suc, ◌≡◌, refl, sym, ap, ◌∙◌, ◌+◌, ◌<◌, ◌⊎◌, inl, inr, String, false, Option, none, some,
  [], ◌∷◌, arith, ◌==◌, text_eq, if◌then◌else◌, Bool-cases, Option-cases, eq_iff,
}
use hermes_agents_by_kanban.Table.{lookup, lookup-put, IsKeyed}
use hermes_agents_by_kanban.Store.Outbox.{
  Outbox, OutboxRow, OutboxStatus, done, dead, retrying, finish_outbox, fail_outbox, failed_row,
  delay, update_row, pending_outbox, due_rows, insert_sorted, take, is_before, is_due,
}
use hermes_agents_by_kanban.Store.Outbox.Retries.{lookup-update_row, lookup-fail_outbox}
use hermes_agents_by_kanban.Service.Flush.{
  PayloadJson, SendError, OutboxSettings, Message, failure_of, deliver, settle_item, settle_as,
  flush_each, flush_outbox_once,
}

other_row :
    (k j : String) (f : OutboxRow → OutboxRow) (s : Outbox)
    → (k == j) ≡ false
    → lookup j (update_row k f s) ≡ lookup j s
unfolding update_row
other_row k j f s h = elim (Option-cases (lookup k s)) [
  | inl e ↦ rw e refl
  | inr (row, e) ↦ rw e (rw (lookup-put k j (f row) s) (rw h refl))
]

-- The rows in the order of a query.
insert_sorted-lookup :
    (k j : String) (r : OutboxRow) (rows : Outbox)
    → lookup k rows ≡ none
    → lookup j (insert_sorted (k, r) rows) ≡ (if k == j then some r else lookup j rows)
unfolding insert_sorted lookup
insert_sorted-lookup k j r [] h = refl
insert_sorted-lookup k j r ((i, q) ∷ qs) h =
    ground (arith, eq_iff k j, eq_iff i k, eq_iff i j, insert_sorted-lookup k j r qs)

insert_sorted-IsKeyed :
    (k : String) (r : OutboxRow) (rows : Outbox)
    → lookup k rows ≡ none
    → IsKeyed rows
    → IsKeyed (insert_sorted (k, r) rows)
unfolding insert_sorted lookup
insert_sorted-IsKeyed k r [] h d = (refl, tt)
insert_sorted-IsKeyed k r ((i, q) ∷ qs) h d =
    let later : lookup k qs ≡ none = ground (arith) in
    elim (Bool-cases (is_before r q)) [
      | inl e ↦ rw e (h, d)
      | inr e ↦ rw e (
        ground (arith, eq_iff k i, eq_iff i k, insert_sorted-lookup k i r qs),
        insert_sorted-IsKeyed k r qs later d.1,
      )
    ]

due_rows-none :
    (due : ℕ) (j : String) (s : Outbox)
    → IsKeyed s
    → lookup j s ≡ none
    → lookup j (due_rows due s) ≡ none
unfolding due_rows lookup
due_rows-none due j [] d h = refl
due_rows-none due j ((k, r) ∷ s) d h = ground (
  arith,
  due_rows-none due j s d.1,
  due_rows-none due k s d.1 d.0,
  insert_sorted-lookup k j r (due_rows due s),
)

due_rows-IsKeyed : (due : ℕ) (s : Outbox) → IsKeyed s → IsKeyed (due_rows due s)
unfolding due_rows
due_rows-IsKeyed due [] d = tt
due_rows-IsKeyed due ((k, r) ∷ s) d = elim (Bool-cases (is_due due r)) [
  | inl e ↦ rw e (
      insert_sorted-IsKeyed k r (due_rows due s) (due_rows-none due k s d.1 d.0)
        (due_rows-IsKeyed due s d.1))
  | inr e ↦ rw e (due_rows-IsKeyed due s d.1)
]

due_rows-found :
    (due : ℕ) (j : String) (q : OutboxRow) (s : Outbox)
    → IsKeyed s
    → lookup j (due_rows due s) ≡ some q
    → lookup j s ≡ some q
unfolding due_rows lookup
due_rows-found due j q [] d h = h
due_rows-found due j q ((k, r) ∷ s) d h = ground (
  arith,
  eq_iff k j,
  due_rows-found due j q s d.1,
  due_rows-none due k s d.1 d.0,
  insert_sorted-lookup k j r (due_rows due s),
)

take-none :
    (n : ℕ) (j : String) (rows : Outbox) → lookup j rows ≡ none → lookup j (take n rows) ≡ none
unfolding take lookup
take-none zero j rows h = refl
take-none (suc n) j [] h = refl
take-none (suc n) j ((k, r) ∷ rows) h = ground (arith, take-none n j rows)

take-found :
    (n : ℕ) (j : String) (q : OutboxRow) (rows : Outbox)
    → lookup j (take n rows) ≡ some q
    → lookup j rows ≡ some q
unfolding take lookup
take-found zero j q rows h = ground arith
take-found (suc n) j q [] h = h
take-found (suc n) j q ((k, r) ∷ rows) h = ground (arith, take-found n j q rows)

take-IsKeyed : (n : ℕ) (rows : Outbox) → IsKeyed rows → IsKeyed (take n rows)
unfolding take
take-IsKeyed zero rows d = tt
take-IsKeyed (suc n) [] d = tt
take-IsKeyed (suc n) ((k, r) ∷ rows) d = (take-none n k rows d.0, take-IsKeyed n rows d.1)

module _ (config : OutboxSettings) where
  abbrev status_after : Option SendError → OutboxStatus
  status_after none = done
  status_after (some e) = if (failure_of config e).permanent then dead else retrying

  -- A row after one attempt to send it.
  pub record Attempted (now : ℕ) (raised : Option SendError) (row row' : OutboxRow) : Type 0 where
    pub status : row'.status ≡ status_after raised
    pub attempts : row'.attempts ≡ row.attempts + 1
    pub payload : row'.payload ≡ row.payload
    pub later : row'.status ≡ retrying → now < row'.next_attempt_at

  failed-Attempted :
      (now seconds : ℕ) (e : SendError) (row : OutboxRow)
      → Attempted now (some e) row (failed_row now (failure_of config e) seconds row)
  unfolding failed_row
  failed-Attempted now seconds e row = record {
    status = refl;
    attempts = refl;
    payload = refl;
    later = λ h. omega arith;
  }

module _ {Json Origin : Type 0} (json : PayloadJson Json Origin)
    (send : String → Message Origin → Option SendError) (config : OutboxSettings) where
  -- The message of the key was tried once, or left alone.
  pub Settled : (String → ℕ) → String → OutboxRow → Option OutboxRow → Type 0
  Settled at key row o =
      (row' : OutboxRow) × (o ≡ some row')
      × Attempted config (at key) (deliver json send config key row.payload) row row'

  settle_as-Attempted :
      (now : ℕ) (key : String) (raised : Option SendError) (row : OutboxRow) (s : Outbox)
      → lookup key s ≡ some row
      → (row' : OutboxRow) × (lookup key (settle_as json send config now key raised s) ≡ some row')
        × Attempted config now raised row row'
  unfolding finish_outbox
  settle_as-Attempted now key none row s e = (
    _,
    lookup-update_row key _ s row e,
    record { status = refl; attempts = refl; payload = refl; later = λ h. cc },
  )
  settle_as-Attempted now key (some r) row s e =
      let f = failure_of config r in
      (
        failed_row now f (delay f (row.attempts + 1)) row,
        lookup-fail_outbox now key f s row e,
        failed-Attempted config now (delay f (row.attempts + 1)) r row,
      )

  settle_as-other :
      (now : ℕ) (key j : String) (raised : Option SendError) (s : Outbox)
      → (key == j) ≡ false
      → lookup j (settle_as json send config now key raised s) ≡ lookup j s
  unfolding finish_outbox fail_outbox
  settle_as-other now key j none s h = other_row key j _ s h
  settle_as-other now key j (some r) s h = other_row key j _ s h

  flush_each-other :
      (at : String → ℕ) (j : String) (rows s : Outbox)
      → lookup j rows ≡ none
      → lookup j (flush_each json send config at rows s) ≡ lookup j s
  unfolding flush_each settle_item lookup
  flush_each-other at j [] s h = refl
  flush_each-other at j ((k, r) ∷ rows) s h = elim (Bool-cases (k == j)) [
    | inl e ↦ ground arith
    | inr e ↦
        flush_each-other at j rows (settle_item json send config (at k) k r s) (ground arith)
        ∙ settle_as-other (at k) k j (deliver json send config k r.payload) s e
  ]

  flush_each-Settled :
      (at : String → ℕ) (j : String) (row : OutboxRow) (rows s : Outbox)
      → IsKeyed rows
      → lookup j rows ≡ some row
      → lookup j s ≡ some row
      → Settled at j row (lookup j (flush_each json send config at rows s))
  unfolding flush_each settle_item lookup Settled
  flush_each-Settled at j row [] s d h e = ground arith
  flush_each-Settled at j row ((k, r) ∷ rows) s d h e = elim (Bool-cases (k == j)) [
    | inl q ↦
        let same : k ≡ j = (eq_iff k j).0 q in
        let head : some r ≡ some row = ground arith in
        let same_row : r ≡ row = cc in
        let (row', found, attempted) =
          settle_as-Attempted (at j) j (deliver json send config j row.payload) row s e in
        let last : lookup j rows ≡ none = ap (λ i. lookup i rows) (sym same) ∙ d.0 in
        rw (same, same_row)
          (
            row',
            flush_each-other at j rows (settle_item json send config (at j) j row s) last ∙ found,
            attempted,
          )
    | inr q ↦
        flush_each-Settled at j row rows (settle_item json send config (at k) k r s) d.1
          (ground arith) (settle_as-other (at k) k j (deliver json send config k r.payload) s q ∙ e)
  ]

  -- In a table whose keys are unique, a flush tries each message that is among the first 20 that are
  -- due exactly once, and leaves each other message as it was. One that is tried keeps its payload and
  -- has one more attempt. It is done if nothing was raised, dead if the error is permanent, and is
  -- otherwise retried, only later.
  pub flush_outbox_once-Settled :
      (due : ℕ) (at : String → ℕ) (key : String) (row : OutboxRow) (s : Outbox)
      → IsKeyed s
      → lookup key s ≡ some row
      → (let after = lookup key (flush_outbox_once json send config due at s) in
          let tried = lookup key (pending_outbox 20 due s) in
          ((tried ≡ some row) × Settled at key row after) ⊎ ((tried ≡ none) × (after ≡ some row)))
  unfolding flush_outbox_once pending_outbox
  flush_outbox_once-Settled due at key row s d e =
      let rows = take 20 (due_rows due s) in
      elim (Option-cases (lookup key rows)) [
        | inl h ↦ inr (h, flush_each-other at key rows s h ∙ e)
        | inr (q, h) ↦
            let same : some q ≡ some row =
              sym (due_rows-found due key q s d (take-found 20 key q (due_rows due s) h)) ∙ e in
            let found = h ∙ same in
            inl (
              found,
              flush_each-Settled at key row rows s
                  (take-IsKeyed 20 (due_rows due s) (due_rows-IsKeyed due s d)) found e,
            )
      ]
