-- ===== src/Store/Attempts/History.antt =====
-- What stays of an attempt, whatever is written to it (hollysys_controller/store.py).
use hermes_agents_by_kanban.Prelude.{
  ℕ, ◌≡◌, refl, ◌∙◌, ap, String, Bool, Option, none, some, arith, ◌==◌, text_eq, eq_iff,
  if◌then◌else◌, Option-cases, inl, inr, coalesce,
}
use hermes_agents_by_kanban.Table.{Table, lookup, put, lookup-put}
use hermes_agents_by_kanban.Store.Attempts.{CardAttempt, CardStore, put_attempt}
use hermes_agents_by_kanban.Store.Attempts.Events.{CardEvent}
use hermes_agents_by_kanban.Store.Attempts.Recording.{updated_attempt, redispatched, update_attempt}
use hermes_agents_by_kanban.Store.Attempts.Watchdog.{recovering}

-- A column that is written once.
pub record IsKept {A : Type 0} (before after : Option A) : Type 0 where
  pub still : (a : A) → before ≡ some a → after ≡ some a

-- An attempt that has gone on: the same attempt of the same card and run, and what it has started,
-- blocked, completed, left or been recovered for stays as it was first written.
pub record Continues (before after : CardAttempt) : Type 0 where
  pub board_kept : after.board ≡ before.board
  pub card_kept : after.card_id ≡ before.card_id
  pub run_kept : after.run_key ≡ before.run_key
  pub attempt_kept : after.attempt ≡ before.attempt
  pub created_kept : after.created_at ≡ before.created_at
  pub started_kept : IsKept before.started_at after.started_at
  pub blocked_kept : IsKept before.blocked_at after.blocked_at
  pub completion_kept : IsKept before.completion_at after.completion_at
  pub exited_kept : IsKept before.exited_at after.exited_at
  pub recovery_kept : IsKept before.recovery_reason after.recovery_reason
  pub redispatch_kept : IsKept before.redispatched_from_run_id after.redispatched_from_run_id

-- Every attempt is still there, and has gone on.
pub record AllContinue (s s' : Table String CardAttempt) : Type 0 where
  pub at_run :
      (run_id : String) (row : CardAttempt)
      → lookup run_id s ≡ some row
      → (row' : CardAttempt) × (lookup run_id s' ≡ some row') × Continues row row'

module _ {A : Type 0} where
  keep : (o : Option A) → IsKept o o
  keep o = record { still = λ a e. e }

  keep_then : {o p q : Option A} → IsKept o p → IsKept p q → IsKept o q
  keep_then g h = record { still = λ a e. h.still a (g.still a e) }

  coalesce-IsKept : (o p : Option A) → IsKept o (coalesce o p)
  coalesce-IsKept o p = record { still = λ a e. ap (λ x. coalesce x p) e }

pub Continues-refl : (row : CardAttempt) → Continues row row
Continues-refl row = record {
  board_kept = refl;
  card_kept = refl;
  run_kept = refl;
  attempt_kept = refl;
  created_kept = refl;
  started_kept = keep row.started_at;
  blocked_kept = keep row.blocked_at;
  completion_kept = keep row.completion_at;
  exited_kept = keep row.exited_at;
  recovery_kept = keep row.recovery_reason;
  redispatch_kept = keep row.redispatched_from_run_id;
}

Continues-trans : {a b c : CardAttempt} → Continues a b → Continues b c → Continues a c
Continues-trans g h = record {
  board_kept = h.board_kept ∙ g.board_kept;
  card_kept = h.card_kept ∙ g.card_kept;
  run_kept = h.run_kept ∙ g.run_kept;
  attempt_kept = h.attempt_kept ∙ g.attempt_kept;
  created_kept = h.created_kept ∙ g.created_kept;
  started_kept = keep_then g.started_kept h.started_kept;
  blocked_kept = keep_then g.blocked_kept h.blocked_kept;
  completion_kept = keep_then g.completion_kept h.completion_kept;
  exited_kept = keep_then g.exited_kept h.exited_kept;
  recovery_kept = keep_then g.recovery_kept h.recovery_kept;
  redispatch_kept = keep_then g.redispatch_kept h.redispatch_kept;
}

pub updated-Continues :
    (now : ℕ) (e : CardEvent) (row : CardAttempt) → Continues row (updated_attempt now e row)
unfolding updated_attempt
updated-Continues now e row = record {
  board_kept = refl;
  card_kept = refl;
  run_kept = refl;
  attempt_kept = refl;
  created_kept = refl;
  started_kept = coalesce-IsKept row.started_at _;
  blocked_kept = coalesce-IsKept row.blocked_at _;
  completion_kept = coalesce-IsKept row.completion_at _;
  exited_kept = coalesce-IsKept row.exited_at _;
  recovery_kept = keep row.recovery_reason;
  redispatch_kept = keep row.redispatched_from_run_id;
}

pub redispatched-Continues :
    (now : ℕ) (from : String) (row : CardAttempt) → Continues row (redispatched now from row)
unfolding redispatched
redispatched-Continues now from row = record {
  board_kept = refl;
  card_kept = refl;
  run_kept = refl;
  attempt_kept = refl;
  created_kept = refl;
  started_kept = keep row.started_at;
  blocked_kept = keep row.blocked_at;
  completion_kept = keep row.completion_at;
  exited_kept = keep row.exited_at;
  recovery_kept = keep row.recovery_reason;
  redispatch_kept = coalesce-IsKept row.redispatched_from_run_id _;
}

pub recovering-Continues :
    (now : ℕ) (reason : Option String) (row : CardAttempt)
    → Continues row (recovering now reason row)
unfolding recovering
recovering-Continues now reason row = record {
  board_kept = refl;
  card_kept = refl;
  run_kept = refl;
  attempt_kept = refl;
  created_kept = refl;
  started_kept = keep row.started_at;
  blocked_kept = keep row.blocked_at;
  completion_kept = keep row.completion_at;
  exited_kept = keep row.exited_at;
  recovery_kept = coalesce-IsKept row.recovery_reason _;
  redispatch_kept = keep row.redispatched_from_run_id;
}

pub AllContinue-refl : (s : Table String CardAttempt) → AllContinue s s
AllContinue-refl s = record { at_run = λ run_id row e. (row, e, Continues-refl row) }

pub AllContinue-trans :
    {s t u : Table String CardAttempt} → AllContinue s t → AllContinue t u → AllContinue s u
AllContinue-trans g h = record {
  at_run = λ run_id row e.
      let (row', e', c) = g.at_run run_id row e in
      let (row'', e'', d) = h.at_run run_id row' e' in (row'', e'', Continues-trans c d);
}

-- The row that `put` leaves at a key.
put_row : Bool → CardAttempt → CardAttempt → CardAttempt
put_row same new old = if same then new else old

pub put-AllContinue :
    (run_id : String) (row row' : CardAttempt) (s : Table String CardAttempt)
    → lookup run_id s ≡ some row
    → Continues row row'
    → AllContinue s (put run_id row' s)
unfolding put_row
put-AllContinue run_id row row' s e c = record {
  at_run = λ j q p. (
    put_row (run_id == j) row' q,
    ground (arith, lookup-put run_id j row' s),
    ground (arith, eq_iff run_id j, Continues-refl q),
  );
}

pub add-AllContinue :
    (run_id : String) (row' : CardAttempt) (s : Table String CardAttempt)
    → lookup run_id s ≡ none
    → AllContinue s (put run_id row' s)
add-AllContinue run_id row' s e = record {
  at_run = λ j q p. (
    q,
    ground (
      arith,
      lookup-put run_id j row' s,
      eq_iff run_id j,
      ap (λ k. lookup k s) {x = run_id} {y = j},
    ),
    Continues-refl q,
  );
}

pub update-AllContinue :
    (run_id : String) (f : CardAttempt → CardAttempt) (s : CardStore)
    → ((row : CardAttempt) → Continues row (f row))
    → AllContinue s.card_attempts (update_attempt run_id f s).card_attempts
unfolding update_attempt put_attempt
update-AllContinue run_id f s c = elim (Option-cases (lookup run_id s.card_attempts)) [
  | inl e ↦ rw e (AllContinue-refl s.card_attempts)
  | inr (row, e) ↦ rw e (put-AllContinue run_id row (f row) s.card_attempts e (c row))
]
