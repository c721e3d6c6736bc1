-- ===== src/Store/Identity/Permanent.antt =====
-- What a run and its delivery are never changes, and the event cursor of a board never goes back
-- (hollysys_controller/store.py).
use hermes_agents_by_kanban.Prelude.{
  ℕ, ◌≤◌, ◌≡◌, refl, ap, String, Option, none, some, arith, text_eq, eq_iff, Option-cases,
  Bool-cases, inl, inr,
}
use hermes_agents_by_kanban.Table.{Table, lookup, put, lookup-put}
use hermes_agents_by_kanban.Exec.{Result, ok, err, settle}
use hermes_agents_by_kanban.Store.Identity.{
  RunRecord, DeliveryBinding, Codec, RunRow, BindingRow, CursorRow, IdentityStore, IdentityError,
  cursor, event_id_of, cursor_row, set_cursor, has_generation, has_mr_iid, put_run, put_binding,
  run_row, save_found, save_run, record_of, run_record, binding_row, bind_found, bind_delivery,
}

-- A table in which rows are only added.
pub record IsKept {V : Type 0} (before after : Table String V) : Type 0 where
  pub row_kept :
      (key : String) (row : V) → lookup key before ≡ some row → lookup key after ≡ some row

-- Runs and bindings are only added, and no cursor goes back.
pub record Permanent (s t : IdentityStore) : Type 0 where
  pub runs_kept : IsKept s.runs t.runs
  pub bindings_kept : IsKept s.delivery_bindings t.delivery_bindings
  pub cursor_kept : (board : String) → cursor board s ≤ cursor board t

module _ {V : Type 0} where
  kept : (s : Table String V) → IsKept s s
  kept s = record { row_kept = λ key row e. e }

  IsKept-then : {s t u : Table String V} → IsKept s t → IsKept t u → IsKept s u
  IsKept-then g h = record { row_kept = λ key row e. h.row_kept key row (g.row_kept key row e) }

  put-IsKept :
      (key : String) (row : V) (s : Table String V) → lookup key s ≡ none → IsKept s (put key row s)
  put-IsKept key row s e = record {
    row_kept = λ j q p.
        ground
          (arith, lookup-put key j row s, eq_iff key j, ap (λ k. lookup k s) {x = key} {y = j});
  }

Permanent-refl : (s : IdentityStore) → Permanent s s
Permanent-refl s = record {
  runs_kept = kept s.runs;
  bindings_kept = kept s.delivery_bindings;
  cursor_kept = λ board. omega arith;
}

Permanent-trans : {s t u : IdentityStore} → Permanent s t → Permanent t u → Permanent s u
Permanent-trans g h = record {
  runs_kept = IsKept-then g.runs_kept h.runs_kept;
  bindings_kept = IsKept-then g.bindings_kept h.bindings_kept;
  cursor_kept = λ board. ground (arith, g.cursor_kept board, h.cursor_kept board);
}

settle-Permanent :
    {A : Type 0} (s : IdentityStore) (r : Result IdentityError A × IdentityStore)
    → Permanent s r.1
    → Permanent s (settle s r).1
settle-Permanent s (ok a, s') g = g
settle-Permanent s (err e, s') g = Permanent-refl s

put_run-Permanent :
    (key : String) (row : RunRow) (s : IdentityStore)
    → lookup key s.runs ≡ none
    → Permanent s (put_run key row s)
unfolding put_run cursor
put_run-Permanent key row s e = record {
  runs_kept = put-IsKept key row s.runs e;
  bindings_kept = kept s.delivery_bindings;
  cursor_kept = λ board. omega arith;
}

put_binding-Permanent :
    (key : String) (row : BindingRow) (s : IdentityStore)
    → lookup key s.delivery_bindings ≡ none
    → Permanent s (put_binding key row s)
unfolding put_binding cursor
put_binding-Permanent key row s e = record {
  runs_kept = kept s.runs;
  bindings_kept = put-IsKept key row s.delivery_bindings e;
  cursor_kept = λ board. omega arith;
}

event_id-cursor_row :
    (now event_id : ℕ) (o : Option CursorRow) → event_id_of o ≤ (cursor_row now event_id o).event_id
event_id-cursor_row now event_id none = omega arith
event_id-cursor_row now event_id (some row) = omega arith

set_cursor-Permanent :
    (now : ℕ) (board : String) (event_id : ℕ) (s : IdentityStore)
    → Permanent s (set_cursor now board event_id s)
unfolding set_cursor cursor
set_cursor-Permanent now board event_id s = record {
  runs_kept = kept s.runs;
  bindings_kept = kept s.delivery_bindings;
  cursor_kept = λ j.
      let row = cursor_row now event_id (lookup board s.event_cursor) in
      ground (
        arith,
        lookup-put board j row s.event_cursor,
        eq_iff board j,
        event_id-cursor_row now event_id (lookup board s.event_cursor),
      );
}

module _ (run_codec : Codec RunRecord) where
  save_found-Permanent :
      (now : ℕ) (run : RunRecord) (s : IdentityStore) (o : Option RunRow)
      → lookup run.run_key s.runs ≡ o
      → Permanent s (save_found run_codec now run o s).1
  save_found-Permanent now run s none e =
      elim (Bool-cases (has_generation run.run_generation s.runs)) [
        | inl p ↦ rw p (Permanent-refl s)
        | inr p ↦ rw p (put_run-Permanent run.run_key (run_row run_codec now run) s e)
      ]
  save_found-Permanent now run s (some row) e =
      elim (Option-cases (run_codec.parse row.record_json)) [
        | inl p ↦ rw p (Permanent-refl s)
        | inr (persisted, p) ↦ elim (Bool-cases (run_codec.is_same persisted run)) [
          | inl q ↦ rw (p, q) (Permanent-refl s)
          | inr q ↦ rw (p, q) (Permanent-refl s)
        ]
      ]

  save_run-Permanent :
      (now : ℕ) (run : RunRecord) (s : IdentityStore) → Permanent s (save_run run_codec now run s).1
  unfolding save_run
  save_run-Permanent now run s =
      settle-Permanent s (save_found run_codec now run (lookup run.run_key s.runs) s)
        (save_found-Permanent now run s (lookup run.run_key s.runs) refl)

module _ (run_codec : Codec RunRecord) (binding_codec : Codec DeliveryBinding) where
  bind_found-Permanent :
      (now : ℕ) (run_key : String) (binding : DeliveryBinding) (s : IdentityStore)
      (o : Option BindingRow)
      → lookup run_key s.delivery_bindings ≡ o
      → Permanent s (bind_found run_codec binding_codec now run_key binding o s).1
  bind_found-Permanent now run_key binding s none e =
      elim (Bool-cases (has_mr_iid binding.mr_iid s.delivery_bindings)) [
        | inl p ↦ rw p (Permanent-refl s)
        | inr p ↦
            rw p
              (put_binding-Permanent run_key (binding_row run_codec binding_codec now binding) s e)
      ]
  bind_found-Permanent now run_key binding s (some row) e =
      elim (Option-cases (binding_codec.parse row.binding_json)) [
        | inl p ↦ rw p (Permanent-refl s)
        | inr (persisted, p) ↦ elim (Bool-cases (binding_codec.is_same persisted binding)) [
          | inl q ↦ rw (p, q) (Permanent-refl s)
          | inr q ↦ rw (p, q) (Permanent-refl s)
        ]
      ]

  -- Reading a run changes nothing.
  record_of_state :
      (run_key : String) (o : Option RunRow) (s : IdentityStore)
      → (record_of run_codec run_key o s).1 ≡ s
  record_of_state run_key none s = refl
  record_of_state run_key (some row) s = elim (Option-cases (run_codec.parse row.record_json)) [
    | inl p ↦ rw p refl
    | inr (run, p) ↦ rw p refl
  ]

  -- The second block, when the run is known.
  bind_known-Permanent :
      (now : ℕ) (run_key : String) (binding : DeliveryBinding) (s : IdentityStore)
      → Permanent s
          (settle s (
            bind_found run_codec binding_codec now run_key binding
              (lookup run_key s.delivery_bindings)
              s)).1
  bind_known-Permanent now run_key binding s =
      settle-Permanent s
        (bind_found run_codec binding_codec now run_key binding (lookup run_key s.delivery_bindings)
          s)
        (bind_found-Permanent now run_key binding s (lookup run_key s.delivery_bindings) refl)

  bind_delivery-Permanent :
      (now : ℕ) (run_key : String) (binding : DeliveryBinding) (s : IdentityStore)
      → Permanent s (bind_delivery run_codec binding_codec now run_key binding s).1
  unfolding bind_delivery run_record
  bind_delivery-Permanent now run_key binding s = elim (Option-cases (lookup run_key s.runs)) [
    | inl p ↦ rw p (Permanent-refl s)
    | inr (row, p) ↦ elim (Option-cases (run_codec.parse row.record_json)) [
      | inl q ↦ rw (p, q) (Permanent-refl s)
      | inr (run, q) ↦ rw (p, q) (bind_known-Permanent now run_key binding s)
    ]
  ]

  -- The methods that write, in any order.
  pub data IdentitySteps : IdentityStore → IdentityStore → Type 0 where
    here : {s : IdentityStore} → IdentitySteps s s
    saved :
        {s t : IdentityStore} (now : ℕ) (run : RunRecord)
        → IdentitySteps s t
        → IdentitySteps s (save_run run_codec now run t).1
    bound :
        {s t : IdentityStore} (now : ℕ) (run_key : String) (binding : DeliveryBinding)
        → IdentitySteps s t
        → IdentitySteps s (bind_delivery run_codec binding_codec now run_key binding t).1
    polled :
        {s t : IdentityStore} (now : ℕ) (board : String) (event_id : ℕ)
        → IdentitySteps s t
        → IdentitySteps s (set_cursor now board event_id t)

  -- Whatever is saved, bound or polled, in any order, the row of a run and the row of its delivery
  -- stay as they were first written, and the cursor of no board goes back.
  pub IdentitySteps-Permanent : {s t : IdentityStore} → IdentitySteps s t → Permanent s t
  IdentitySteps-Permanent {s} here = Permanent-refl s
  IdentitySteps-Permanent (saved {t = t} now run h) =
      Permanent-trans (IdentitySteps-Permanent h) (save_run-Permanent run_codec now run t)
  IdentitySteps-Permanent (bound {t = t} now run_key binding h) =
      Permanent-trans (IdentitySteps-Permanent h) (bind_delivery-Permanent now run_key binding t)
  IdentitySteps-Permanent (polled {t = t} now board event_id h) =
      Permanent-trans (IdentitySteps-Permanent h) (set_cursor-Permanent now board event_id t)
