-- ===== src/Store/Attempts/Numbering.antt =====
-- The numbers of the attempts of one card (hollysys_controller/store.py).
use hermes_agents_by_kanban.Prelude.{
  suc, ◌≤◌, ◌≡◌, refl, String, none, some, [], ◌∷◌, arith, text_eq, eq_iff, Option-cases, inl, inr,
}
use hermes_agents_by_kanban.Table.{Table, lookup, put, lookup-put}
use hermes_agents_by_kanban.Store.Attempts.{CardAttempt, CardStore, last_attempt, put_attempt}
use hermes_agents_by_kanban.Store.Attempts.History.{
  Continues, AllContinue, AllContinue-refl, AllContinue-trans, put-AllContinue, add-AllContinue,
}
use hermes_agents_by_kanban.Store.Attempts.Recording.{update_attempt}

-- UNIQUE(board, card_id, attempt)
pub record IsNumbered (s : Table String CardAttempt) : Type 0 where
  pub distinct :
      (i j : String) (row q : CardAttempt)
      → lookup i s ≡ some row
      → lookup j s ≡ some q
      → row.board ≡ q.board
      → row.card_id ≡ q.card_id
      → row.attempt ≡ q.attempt
      → i ≡ j

pub attempt-bounded :
    (i : String) (row : CardAttempt) (s : Table String CardAttempt)
    → lookup i s ≡ some row
    → row.attempt ≤ last_attempt row.board row.card_id s
unfolding lookup last_attempt
attempt-bounded i row [] e = ground arith
attempt-bounded i row ((j, q) ∷ rows) e =
    ground
      (arith, attempt-bounded i row rows, eq_iff row.board q.board, eq_iff row.card_id q.card_id)

-- What a method may do to the attempts.
pub record Grows (s s' : CardStore) : Type 0 where
  pub continues : AllContinue s.card_attempts s'.card_attempts
  pub numbered : IsNumbered s.card_attempts → IsNumbered s'.card_attempts

pub same-Grows : {s s' : CardStore} → s'.card_attempts ≡ s.card_attempts → Grows s s'
same-Grows {s} {s'} e = record {
  continues = rw e (AllContinue-refl s.card_attempts);
  numbered = λ h. rw e h;
}

pub Grows-trans : {s t u : CardStore} → Grows s t → Grows t u → Grows s u
Grows-trans g h = record {
  continues = AllContinue-trans g.continues h.continues;
  numbered = λ n. h.numbered (g.numbered n);
}

put-IsNumbered :
    (run_id : String) (row row' : CardAttempt) (s : Table String CardAttempt)
    → lookup run_id s ≡ some row
    → Continues row row'
    → IsNumbered s
    → IsNumbered (put run_id row' s)
put-IsNumbered run_id row row' s e c n = record {
  distinct = λ i j r q p p' b d a. ground (
    arith,
    lookup-put run_id i row' s,
    lookup-put run_id j row' s,
    eq_iff run_id i,
    eq_iff run_id j,
    n.distinct i j r q,
    n.distinct i j r row,
    n.distinct i j row q,
    c.board_kept,
    c.card_kept,
    c.attempt_kept,
  );
}

add-IsNumbered :
    (run_id : String) (row' : CardAttempt) (s : Table String CardAttempt)
    → row'.attempt ≡ suc (last_attempt row'.board row'.card_id s)
    → IsNumbered s
    → IsNumbered (put run_id row' s)
add-IsNumbered run_id row' s e n = record {
  distinct = λ i j r q p p' b c a. ground (
    arith,
    lookup-put run_id i row' s,
    lookup-put run_id j row' s,
    eq_iff run_id i,
    eq_iff run_id j,
    n.distinct i j r q,
    attempt-bounded i r s,
    attempt-bounded j q s,
  );
}

pub put-Grows :
    (run_id : String) (row row' : CardAttempt) (s : CardStore)
    → lookup run_id s.card_attempts ≡ some row
    → Continues row row'
    → Grows s (put_attempt run_id row' s)
unfolding put_attempt
put-Grows run_id row row' s e c = record {
  continues = put-AllContinue run_id row row' s.card_attempts e c;
  numbered = put-IsNumbered run_id row row' s.card_attempts e c;
}

pub add-Grows :
    (run_id : String) (row' : CardAttempt) (s : CardStore)
    → lookup run_id s.card_attempts ≡ none
    → row'.attempt ≡ suc (last_attempt row'.board row'.card_id s.card_attempts)
    → Grows s (put_attempt run_id row' s)
unfolding put_attempt
add-Grows run_id row' s e n = record {
  continues = add-AllContinue run_id row' s.card_attempts e;
  numbered = add-IsNumbered run_id row' s.card_attempts n;
}

pub update-Grows :
    (run_id : String) (f : CardAttempt → CardAttempt) (s : CardStore)
    → ((row : CardAttempt) → Continues row (f row))
    → Grows s (update_attempt run_id f s)
unfolding update_attempt
update-Grows run_id f s c = elim (Option-cases (lookup run_id s.card_attempts)) [
  | inl e ↦ rw e (same-Grows refl)
  | inr (row, e) ↦ rw e (put-Grows run_id row (f row) s e (c row))
]
