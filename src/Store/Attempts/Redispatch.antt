-- ===== src/Store/Attempts/Redispatch.antt =====
-- How `update_worker_watchdog` of hollysys_controller/store.py counts the attempts to recover.
use hermes_agents_by_kanban.Prelude.{
  ℕ, ◌≡◌, refl, ◌∙◌, ap, sym, String, true, Option, none, some, [], ◌∷◌, arith, text_eq, eq_iff,
  ◌⊎◌, Option-cases, inl, inr, is_some,
}
use hermes_agents_by_kanban.Table.{Table, lookup, put, lookup-put_same}
use hermes_agents_by_kanban.Store.Attempts.{
  CardAttempt, CardStore, put_attempt, current_attempt, latest_where, later_row,
}
use hermes_agents_by_kanban.Store.Attempts.Recording.{update_attempt}
use hermes_agents_by_kanban.Store.Attempts.Watchdog.{
  redispatch, redispatch_from, recovering, count_recovered,
}

-- Which attempt is the current one, and its number.
key_of : Option (String × CardAttempt) → Option (String × ℕ)
key_of none = none
key_of (some (run_id, row)) = some (run_id, row.attempt)

-- The same attempt of the same card.
record IsSame (row row' : CardAttempt) : Type 0 where
  board_same : row'.board ≡ row.board
  card_same : row'.card_id ≡ row.card_id
  attempt_same : row'.attempt ≡ row.attempt

later_row-key :
    (run_id : String) (row row' : CardAttempt) (o o' : Option (String × CardAttempt))
    → row'.attempt ≡ row.attempt
    → key_of o' ≡ key_of o
    → key_of (later_row (run_id, row') o') ≡ key_of (later_row (run_id, row) o)
unfolding key_of
later_row-key run_id row row' none none a k = ground arith
later_row-key run_id row row' none (some p) a k = ground arith
later_row-key run_id row row' (some q) none a k = ground arith
later_row-key run_id row row' (some q) (some p) a k = ground arith

current_attempt-put :
    (board card_id i : String) (row row' : CardAttempt) (s : Table String CardAttempt)
    → lookup i s ≡ some row
    → IsSame row row'
    → key_of (current_attempt board card_id (put i row' s))
      ≡ key_of (current_attempt board card_id s)
unfolding current_attempt latest_where lookup put
current_attempt-put board card_id i row row' [] e c = ground arith
current_attempt-put board card_id i row row' ((j, q) ∷ rows) e c =
    let rest = current_attempt board card_id rows in
    let rest' = current_attempt board card_id (put i row' rows) in
    ground (
      arith,
      later_row-key i q row' rest rest,
      later_row-key j q q rest' rest,
      current_attempt-put board card_id i row row' rows,
      eq_iff j i,
      c.board_same,
      c.card_same,
      c.attempt_same,
    )

count_recovered-put :
    (board card_id i : String) (row row' : CardAttempt) (s : Table String CardAttempt)
    → lookup i s ≡ some row
    → IsSame row row'
    → is_some row'.recovery_reason ≡ is_some row.recovery_reason
    → count_recovered board card_id (put i row' s) ≡ count_recovered board card_id s
unfolding count_recovered lookup put
count_recovered-put board card_id i row row' [] e c r = ground arith
count_recovered-put board card_id i row row' ((j, q) ∷ rows) e c r = ground (
  arith,
  count_recovered-put board card_id i row row' rows,
  eq_iff j i,
  c.board_same,
  c.card_same,
)

recovering-IsSame :
    (now : ℕ) (reason : Option String) (row : CardAttempt) → IsSame row (recovering now reason row)
unfolding recovering
recovering-IsSame now reason row = record {
  board_same = refl;
  card_same = refl;
  attempt_same = refl;
}

recovering-recovers :
    (now : ℕ) (reason : Option String) (row : CardAttempt)
    → is_some (recovering now reason row).recovery_reason ≡ true
unfolding recovering
recovering-recovers now reason row = elim (Option-cases row.recovery_reason) [
  | inl p ↦ rw p refl
  | inr (text, p) ↦ rw p refl
]

-- Marking an attempt changes neither which attempt is the current one nor its number.
update_attempt-key :
    (board card_id i : String) (now : ℕ) (reason : Option String) (s : CardStore)
    → key_of
        (current_attempt board card_id (update_attempt i (recovering now reason) s).card_attempts)
      ≡ key_of (current_attempt board card_id s.card_attempts)
unfolding update_attempt put_attempt
update_attempt-key board card_id i now reason s = elim (Option-cases (lookup i s.card_attempts)) [
  | inl p ↦ rw p refl
  | inr (row, p) ↦ rw p (
      current_attempt-put board card_id i row (recovering now reason row) s.card_attempts p
        (recovering-IsSame now reason row))
]

-- An attempt that is marked already is not counted again.
update_attempt-count :
    (board card_id i : String) (now : ℕ) (reason : Option String) (t : CardStore)
    (row : CardAttempt)
    → lookup i t.card_attempts ≡ some row
    → is_some row.recovery_reason ≡ true
    → count_recovered board card_id (update_attempt i (recovering now reason) t).card_attempts
      ≡ count_recovered board card_id t.card_attempts
unfolding update_attempt put_attempt
update_attempt-count board card_id i now reason t row p r = rw p (
    count_recovered-put board card_id i row (recovering now reason row) t.card_attempts p
      (recovering-IsSame now reason row) (recovering-recovers now reason row ∙ sym r))

update_attempt-none :
    (board card_id i : String) (now : ℕ) (reason : Option String) (t : CardStore)
    → lookup i t.card_attempts ≡ none
    → count_recovered board card_id (update_attempt i (recovering now reason) t).card_attempts
      ≡ count_recovered board card_id t.card_attempts
unfolding update_attempt
update_attempt-none board card_id i now reason t p = rw p refl

-- After an attempt is marked, it is there with its mark, or it was never there.
marked-lookup :
    (i : String) (now : ℕ) (reason : Option String) (s : CardStore)
    → (lookup i (update_attempt i (recovering now reason) s).card_attempts ≡ none)
      ⊎ ((row : CardAttempt) × (lookup i (update_attempt i (recovering now reason) s).card_attempts
            ≡ some row)
          × (is_some row.recovery_reason ≡ true))
unfolding update_attempt put_attempt
marked-lookup i now reason s = elim (Option-cases (lookup i s.card_attempts)) [
  | inl p ↦ rw p (inl p)
  | inr (row, p) ↦ rw p (
      inr (
        recovering now reason row,
        lookup-put_same i (recovering now reason row) s.card_attempts,
        recovering-recovers now reason row,
      ))
]

-- Marking the attempt a second time.
count_again :
    (board card_id i : String) (now now' : ℕ) (reason reason' : Option String) (s t : CardStore)
    → t.card_attempts ≡ (update_attempt i (recovering now reason) s).card_attempts
    → count_recovered board card_id (update_attempt i (recovering now' reason') t).card_attempts
      ≡ count_recovered board card_id (update_attempt i (recovering now reason) s).card_attempts
count_again board card_id i now now' reason reason' s t e = elim (marked-lookup i now reason s) [
  | inl p ↦
      update_attempt-none board card_id i now' reason' t (ap (lookup i) e ∙ p)
      ∙ ap (count_recovered board card_id) e
  | inr (row, p, r) ↦
      update_attempt-count board card_id i now' reason' t row (ap (lookup i) e ∙ p) r
      ∙ ap (count_recovered board card_id) e
]

-- The second time, where `o` is what is then the current attempt.
again_from :
    (board card_id i : String) (n now now' : ℕ) (reason reason' : Option String) (s t : CardStore)
    (o : Option (String × CardAttempt))
    → key_of o ≡ some (i, n)
    → t.card_attempts ≡ (update_attempt i (recovering now reason) s).card_attempts
    → (redispatch_from now' board card_id reason' t o).0
      ≡ some
          (count_recovered board card_id (update_attempt i (recovering now reason) s).card_attempts)
unfolding key_of
again_from board card_id i n now now' reason reason' s t none k e = ground arith
again_from board card_id i n now now' reason reason' s t (some (j, row)) k e =
    ap
      (λ k. some (
        count_recovered board card_id (update_attempt k (recovering now' reason') t).card_attempts))
      {x = j} {y = i} (ground arith)
    ∙ ap some (count_again board card_id i now now' reason reason' s t e)

-- The count of a card's redispatches counts an attempt once: asked again while no other attempt has
-- begun, the count is the same, whatever the two reasons are.
pub redispatch_again :
    (now now' : ℕ) (board card_id : String) (reason reason' : Option String) (s t : CardStore)
    → is_some (current_attempt board card_id s.card_attempts) ≡ true
    → t.card_attempts ≡ (redispatch now board card_id reason true s).1.card_attempts
    → (redispatch now' board card_id reason' true t).0
      ≡ (redispatch now board card_id reason true s).0
unfolding redispatch key_of
redispatch_again now now' board card_id reason reason' s t c e =
    elim (Option-cases (current_attempt board card_id s.card_attempts)) [
      | inl p ↦ ground arith
      | inr ((i, row), p) ↦
          let f = rw p at e in
          rw p (
            again_from board card_id i row.attempt now now' reason reason' s t
              (current_attempt board card_id t.card_attempts)
              (ap (λ rows. key_of (current_attempt board card_id rows)) f
                ∙ (update_attempt-key board card_id i now reason s ∙ ap key_of p))
              f)
    ]
