-- ===== src/Store/Requests/Lifetime.antt =====
-- What stays of a request, whatever is done with the requests (hollysys_controller/store.py).
use hermes_agents_by_kanban.Prelude.{
  ℕ, ◌≡◌, refl, ◌∙◌, ap, sym, subst, String, Bool, false, Option, none, some, arith, ◌==◌, text_eq,
  eq_iff, if◌then◌else◌, Option-cases, inl, inr, Bool-cases,
}
use hermes_agents_by_kanban.Table.{lookup, put, lookup-put}
use hermes_agents_by_kanban.Exec.{settle}
use hermes_agents_by_kanban.Store.Requests.{
  Request, Requests, new_request, update_request, fail_row, fail_request, bind_row, bind_found,
  bind_request_run, finish_row, finish_request, begin_found, begin_request, is_running,
  is_other_run,
}

-- A row that has gone on: the same command, and the same run if it was bound to one.
pub record Continues (before after : Request) : Type 0 where
  pub kind_kept : after.kind ≡ before.kind
  pub payload_kept : after.payload ≡ before.payload
  pub created_kept : after.created_at ≡ before.created_at
  pub run_kept : (run_key : String) → before.run_key ≡ some run_key → after.run_key ≡ some run_key

-- Every request is still there, and has gone on.
pub record AllContinue (s s' : Requests) : Type 0 where
  pub at_key :
      (key : String) (row : Request)
      → lookup key s ≡ some row
      → (row' : Request) × (lookup key s' ≡ some row') × Continues row row'

Continues-refl : (row : Request) → Continues row row
Continues-refl row = record {
  kind_kept = refl;
  payload_kept = refl;
  created_kept = refl;
  run_kept = λ r e. e;
}

Continues-trans : {a b c : Request} → Continues a b → Continues b c → Continues a c
Continues-trans g h = record {
  kind_kept = h.kind_kept ∙ g.kind_kept;
  payload_kept = h.payload_kept ∙ g.payload_kept;
  created_kept = h.created_kept ∙ g.created_kept;
  run_kept = λ r e. h.run_kept r (g.run_kept r e);
}

AllContinue-refl : (s : Requests) → AllContinue s s
AllContinue-refl s = record { at_key = λ key row e. (row, e, Continues-refl row) }

AllContinue-trans : {s t u : Requests} → AllContinue s t → AllContinue t u → AllContinue s u
AllContinue-trans g h = record {
  at_key = λ key row e.
      let (row', e', c) = g.at_key key row e in
      let (row'', e'', d) = h.at_key key row' e' in (row'', e'', Continues-trans c d);
}

-- The row that `put` leaves at a key.
put_row : Bool → Request → Request → Request
put_row same new old = if same then new else old

put-AllContinue :
    (key : String) (row row' : Request) (s : Requests)
    → lookup key s ≡ some row
    → Continues row row'
    → AllContinue s (put key row' s)
unfolding put_row
put-AllContinue key row row' s e c = record {
  at_key = λ j q p. (
    put_row (key == j) row' q,
    ground (arith, lookup-put key j row' s),
    ground (arith, eq_iff key j, Continues-refl q),
  );
}

add-AllContinue :
    (key : String) (row' : Request) (s : Requests)
    → lookup key s ≡ none
    → AllContinue s (put key row' s)
add-AllContinue key row' s e = record {
  at_key = λ j q p. (
    q,
    ground (arith, lookup-put key j row' s, eq_iff key j, ap (λ k. lookup k s) {x = key} {y = j}),
    Continues-refl q,
  );
}

update-AllContinue :
    (key : String) (f : Request → Request) (s : Requests)
    → ((row : Request) → Continues row (f row))
    → AllContinue s (update_request key f s)
unfolding update_request
update-AllContinue key f s c = elim (Option-cases (lookup key s)) [
  | inl e ↦ rw e (AllContinue-refl s)
  | inr (row, e) ↦ rw e (put-AllContinue key row (f row) s e (c row))
]

fail-Continues : (now : ℕ) (error : String) (row : Request) → Continues row (fail_row now error row)
unfolding fail_row
fail-Continues now error row = record {
  kind_kept = refl;
  payload_kept = refl;
  created_kept = refl;
  run_kept = λ r e. e;
}

finish-Continues :
    (now : ℕ) (response : String) (row : Request) → Continues row (finish_row now response row)
unfolding finish_row
finish-Continues now response row = record {
  kind_kept = refl;
  payload_kept = refl;
  created_kept = refl;
  run_kept = λ r e. e;
}

bind-Continues :
    (now : ℕ) (run_key : String) (row : Request)
    → is_other_run run_key row.run_key ≡ false
    → Continues row (bind_row now run_key row)
unfolding bind_row
bind-Continues now run_key row same = record {
  kind_kept = refl;
  payload_kept = refl;
  created_kept = refl;
  run_kept = λ r e. ground (arith, eq_iff r run_key);
}

bind_found-AllContinue :
    (now : ℕ) (key run_key : String) (s : Requests) (o : Option Request)
    → lookup key s ≡ o
    → AllContinue s (settle s (bind_found now key run_key o s)).1
bind_found-AllContinue now key run_key s none e = AllContinue-refl s
bind_found-AllContinue now key run_key s (some row) e = elim (Bool-cases (is_running row.status)) [
  | inl p ↦ elim (Bool-cases (is_other_run run_key row.run_key)) [
    | inl q ↦ rw (p, q) (AllContinue-refl s)
    | inr q ↦
        rw (p, q)
          (put-AllContinue key row (bind_row now run_key row) s e
            (bind-Continues now run_key row q))
  ]
  | inr p ↦ rw p (AllContinue-refl s)
]

module _ {Json : Type 0} (dumps sorted : Json → String) (loads : String → Json) where
  -- A request that is there already is only read.
  begin_found_unchanged :
      (now : ℕ) (key kind : String) (payload : Json) (s : Requests) (row : Request)
      → (settle s (begin_found dumps sorted loads now key kind payload (some row) s)).1 ≡ s
  begin_found_unchanged now key kind payload s row = ground arith

  begin_found-AllContinue :
      (now : ℕ) (key kind : String) (payload : Json) (s : Requests) (o : Option Request)
      → lookup key s ≡ o
      → AllContinue s (settle s (begin_found dumps sorted loads now key kind payload o s)).1
  begin_found-AllContinue now key kind payload s none e =
      add-AllContinue key (new_request now kind (sorted payload)) s e
  begin_found-AllContinue now key kind payload s (some row) e =
      subst (AllContinue s) (sym (begin_found_unchanged now key kind payload s row))
        (AllContinue-refl s)

  -- Any of the methods that write requests, one after the other.
  pub data RequestSteps : Requests → Requests → Type 0 where
    here : {s : Requests} → RequestSteps s s
    begun :
        {s t : Requests} (now : ℕ) (key kind : String) (payload : Json)
        → RequestSteps s t
        → RequestSteps s (begin_request dumps sorted loads now key kind payload t).1
    finished :
        {s t : Requests} (now : ℕ) (key : String) (response : Json)
        → RequestSteps s t
        → RequestSteps s (finish_request dumps sorted loads now key response t)
    failing :
        {s t : Requests} (now : ℕ) (key error : String)
        → RequestSteps s t
        → RequestSteps s (fail_request now key error t)
    bound :
        {s t : Requests} (now : ℕ) (key run_key : String)
        → RequestSteps s t
        → RequestSteps s (bind_request_run now key run_key t).1

  -- Whatever is done with the requests, each of them stays, with its kind, its payload and its time of
  -- creation, and once it is bound to a run it stays bound to this run.
  pub RequestSteps-AllContinue : {s t : Requests} → RequestSteps s t → AllContinue s t
  unfolding begin_request finish_request fail_request bind_request_run
  RequestSteps-AllContinue {s} here = AllContinue-refl s
  RequestSteps-AllContinue (begun {t = t} now key kind payload h) =
      AllContinue-trans (RequestSteps-AllContinue h)
        (begin_found-AllContinue now key kind payload t (lookup key t) refl)
  RequestSteps-AllContinue (finished {t = t} now key response h) =
      AllContinue-trans (RequestSteps-AllContinue h) (
        update-AllContinue key (finish_row now (dumps response)) t
          (finish-Continues now (dumps response)))
  RequestSteps-AllContinue (failing {t = t} now key error h) =
      AllContinue-trans (RequestSteps-AllContinue h)
        (update-AllContinue key (fail_row now error) t (fail-Continues now error))
  RequestSteps-AllContinue (bound {t = t} now key run_key h) =
      AllContinue-trans (RequestSteps-AllContinue h)
        (bind_found-AllContinue now key run_key t (lookup key t) refl)
