-- ===== src/Store/Identity/Reads.antt =====
-- Runs and deliveries that are saved and read again (hollysys_controller/store.py).
use hermes_agents_by_kanban.Prelude.{
  ℕ, ◌≡◌, refl, String, false, none, some, text_eq, if◌then◌else◌, Bool-cases, Option-cases, arith,
  inl, inr,
}
use hermes_agents_by_kanban.Table.{lookup, lookup-put_same}
use hermes_agents_by_kanban.Exec.{Result, ok, err}
use hermes_agents_by_kanban.Store.Identity.{
  RunRecord, DeliveryBinding, Codec, IdentityStore, IdentityError, has_generation, has_mr_iid,
  put_run, put_binding, run_row, save_run, run_record, binding_row, bind_delivery, delivery_binding,
  run_identity_conflict, RunRow,
}

module _ (run_codec : Codec RunRecord) where
  -- A run whose dump parses back to it, and that is saved where no run has its key or its generation,
  -- is accepted, and is read back as it was saved.
  pub save_run-run_record :
      (now : ℕ) (run : RunRecord) (s : IdentityStore)
      → run_codec.parse (run_codec.dump run) ≡ some run
      → lookup run.run_key s.runs ≡ none
      → has_generation run.run_generation s.runs ≡ false
      → ((save_run run_codec now run s).0 ≡ ok tt)
        × ((run_record run_codec run.run_key (save_run run_codec now run s).1).0 ≡ ok (some run))
  unfolding save_run run_record put_run
  save_run-run_record now run s c e g =
      rw (e, g, lookup-put_same run.run_key (run_row run_codec now run) s.runs, c) (refl, refl)

  -- A run that can be read has a row.
  row_of_record :
      (run_key : String) (run : RunRecord) (s : IdentityStore)
      → (run_record run_codec run_key s).0 ≡ ok (some run)
      → (row : RunRow) × (lookup run_key s.runs ≡ some row)
        × (run_codec.parse row.record_json ≡ some run)
  unfolding run_record
  row_of_record run_key run s h = elim (Option-cases (lookup run_key s.runs)) [
    | inl p ↦ ground arith
    | inr (row, p) ↦ elim (Option-cases (run_codec.parse row.record_json)) [
      | inl q ↦ ground arith
      | inr (found, q) ↦ (row, p, ground arith)
    ]
  ]

  -- What `save_run` says to a run whose key is taken by `persisted`.
  pub answer : RunRecord → RunRecord → Result IdentityError (Unit {0})
  answer persisted run =
      if run_codec.is_same persisted run then ok tt else err (run_identity_conflict run.run_key)

  -- Where a run with its key is saved, saving a run changes nothing: it is accepted if it is the same
  -- run, and raises run_identity_conflict if it is another.
  pub save_run_again :
      (now : ℕ) (run persisted : RunRecord) (s : IdentityStore)
      → (run_record run_codec run.run_key s).0 ≡ ok (some persisted)
      → save_run run_codec now run s ≡ (answer persisted run, s)
  unfolding save_run run_record answer
  save_run_again now run persisted s h =
      let (row, p, q) = row_of_record run.run_key persisted s h in
      elim (Bool-cases (run_codec.is_same persisted run)) [
        | inl r ↦ rw (p, q, r) refl
        | inr r ↦ rw (p, q, r) refl
      ]

  module _ (binding_codec : Codec DeliveryBinding) where
    -- A delivery whose dump parses back to it, bound to a saved run that has none, where no delivery
    -- has its merge request, is accepted, and is read back as it was bound.
    pub bind_delivery-delivery_binding :
        (now : ℕ) (run_key : String) (binding : DeliveryBinding) (run : RunRecord)
        (s : IdentityStore)
        → binding_codec.parse (binding_codec.dump binding) ≡ some binding
        → (run_record run_codec run_key s).0 ≡ ok (some run)
        → lookup run_key s.delivery_bindings ≡ none
        → has_mr_iid binding.mr_iid s.delivery_bindings ≡ false
        → ((bind_delivery run_codec binding_codec now run_key binding s).0 ≡ ok tt)
          × ((delivery_binding binding_codec run_key
                (bind_delivery run_codec binding_codec now run_key binding s).1).0
              ≡ ok (some binding))
    unfolding bind_delivery run_record delivery_binding put_binding
    bind_delivery-delivery_binding now run_key binding run s c h e g =
        let (row, p, q) = row_of_record run_key run s h in
        rw
          (
            p,
            q,
            e,
            g,
            lookup-put_same run_key (binding_row run_codec binding_codec now binding)
                s.delivery_bindings,
            c,
          )
          (refl, refl)
