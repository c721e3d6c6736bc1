-- ===== src/Store/Operations/Replay.antt =====
-- What `operation_result` answers while an operation is under way and once it is finished.
use hermes_agents_by_kanban.Prelude.{
  ℕ, ◌≡◌, refl, String, true, Option, none, some, arith, text_eq, nat_eq, option_beq,
  option_beq_iff, beq_refl, ◌∙◌, ap,
}
use hermes_agents_by_kanban.Table.{lookup, put, lookup-put}
use hermes_agents_by_kanban.Exec.{ok, settle}
use hermes_agents_by_kanban.Store.Operations.{
  Operation, Operations, Expectation, done, executing, operation_result, finish_operation,
  stored_result, is_same_operation, version_accepted, update_operation, resume, retried,
  new_operation,
}

pub lookup-update_operation :
    (key : String) (f : Operation → Operation) (s : Operations) (row : Operation)
    → lookup key s ≡ some row
    → lookup key (update_operation key f s) ≡ some (f row)
unfolding update_operation
lookup-update_operation key f s row e =
    rw e (ground (arith, lookup-put key key (f row) s, beq_refl key))

pub lookup-begun :
    (key : String) (row : Operation) (s s' : Operations)
    → s' ≡ put key row s
    → lookup key s' ≡ some row
lookup-begun key row s s' e = ap (lookup key) e ∙ lookup-put key key row s ∙ rw (beq_refl key) refl

module _ {Json : Type 0} (dumps sorted : Json → String) (loads : String → Json) where
  -- The row that `operation_result` leaves where it lets the caller act.
  abbrev pub begun : ℕ → Expectation → Json → Option Operation → Operation
  begun now x payload none = new_operation now (sorted payload) x
  begun now x payload (some row) = retried now x row

  abbrev pub finished : ℕ → Json → Operation → Operation
  finished now result row = record row {
    status = done;
    result = some (dumps result);
    error = none;
    uncertain_at = none;
    updated_at = now;
  }

  -- The row is one of the caller's operation.
  abbrev pub Matches : Expectation → Json → Operation → Type 0
  Matches x payload row =
      (is_same_operation dumps sorted loads x payload row ≡ true)
      × (option_beq row.expected_head_sha x.head_sha ≡ true)
      × (option_beq row.expected_state_version x.state_version ≡ true)

  option_refl : (a : Option ℕ) → option_beq a a ≡ true
  option_refl a = (option_beq_iff a a).1 refl

  text_refl : (a : Option String) → option_beq a a ≡ true
  text_refl a = (option_beq_iff a a).1 refl

  begun-Matches :
      (now : ℕ) (key : String) (x : Expectation) (payload : Json) (o : Option Operation)
      (s : Operations)
      → (settle s (resume dumps sorted loads now key x payload o s)).0 ≡ ok none
      → Matches x payload (begun now x payload o)
  unfolding is_same_operation new_operation retried resume
  begun-Matches now key x payload none s e = (
    ground (arith, beq_refl x.kind, beq_refl (sorted payload)),
    text_refl x.head_sha,
    option_refl x.state_version,
  )
  begun-Matches now key x payload (some row) s e =
      (ground arith, ground arith, option_refl x.state_version)

  begun_status :
      (now : ℕ) (x : Expectation) (payload : Json) (o : Option Operation)
      → (begun now x payload o).status ≡ executing
  unfolding new_operation retried
  begun_status now x payload none = refl
  begun_status now x payload (some row) = refl

  begun_written :
      (now : ℕ) (key : String) (x : Expectation) (payload : Json) (o : Option Operation)
      (s : Operations)
      → (settle s (resume dumps sorted loads now key x payload o s)).0 ≡ ok none
      → (settle s (resume dumps sorted loads now key x payload o s)).1
        ≡ put key (begun now x payload o) s
  unfolding resume
  begun_written now key x payload none s e = refl
  begun_written now key x payload (some row) s e = ground arith

  pub operation_result_begun :
      (now : ℕ) (key : String) (x : Expectation) (payload : Json) (s : Operations)
      → (operation_result dumps sorted loads now key x payload s).0 ≡ ok none
      → (row : Operation) × ((operation_result dumps sorted loads now key x payload s).1
          ≡ put key row s)
        × (row.status ≡ executing)
        × Matches x payload row
  unfolding operation_result
  operation_result_begun now key x payload s e = (
    begun now x payload (lookup key s),
    begun_written now key x payload (lookup key s) s e,
    begun_status now x payload (lookup key s),
    begun-Matches now key x payload (lookup key s) s e,
  )

  pub lookup-finish_operation :
      (now : ℕ) (key : String) (result : Json) (s : Operations) (row : Operation)
      → lookup key s ≡ some row
      → lookup key (finish_operation dumps sorted loads now key result s)
        ≡ some (finished now result row)
  unfolding finish_operation
  lookup-finish_operation now key result s row e =
      lookup-update_operation key (finished now result) s row e

  -- A row of the caller's operation that is done answers it, and nothing is written.
  pub operation_result_replays :
      (now : ℕ) (key : String) (x : Expectation) (payload : Json) (s : Operations) (row : Operation)
      (text : String)
      → lookup key s ≡ some row
      → Matches x payload row
      → stored_result row ≡ some text
      → operation_result dumps sorted loads now key x payload s ≡ (ok (some (loads text)), s)
  unfolding operation_result version_accepted resume
  operation_result_replays now key x payload s row text e (same, head, version) r =
      rw (e, same, head, version, r) refl

  resume_again :
      (now later : ℕ) (key : String) (x : Expectation) (payload : Json) (o : Option Operation)
      (s : Operations) (previous : Json)
      → (settle s (resume dumps sorted loads now key x payload o s)).0 ≡ ok (some previous)
      → settle s (resume dumps sorted loads later key x payload o s) ≡ (ok (some previous), s)
  unfolding resume
  resume_again now later key x payload none s previous e = ground arith
  resume_again now later key x payload (some row) s previous e = ground arith

  -- An answer does not depend on the time, and nothing is written with it.
  pub operation_result_again :
      (now later : ℕ) (key : String) (x : Expectation) (payload : Json) (s : Operations)
      (previous : Json)
      → (operation_result dumps sorted loads now key x payload s).0 ≡ ok (some previous)
      → operation_result dumps sorted loads later key x payload s ≡ (ok (some previous), s)
  unfolding operation_result
  operation_result_again now later key x payload s previous e =
      resume_again now later key x payload (lookup key s) s previous e
