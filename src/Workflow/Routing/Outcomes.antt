-- ===== src/Workflow/Routing/Outcomes.antt =====
-- Where `route_completion` of hollysys_controller/workflow.py can go.
use hermes_agents_by_kanban.Prelude.{ℕ, ◌≡◌, ◌≢◌, ◌⊎◌, true, Option, some, arith}
use hermes_agents_by_kanban.Workflow.Stages.{
  Stage, WorkMode, finalization, pass, is_document_review, phase_for_stage, next_phase_stage,
}
use hermes_agents_by_kanban.Workflow.Completion.{CompletionMetadata}
use hermes_agents_by_kanban.Workflow.Contract.{is_contract, contract_author, contract_finalization}
use hermes_agents_by_kanban.Workflow.Routing.{
  Limits, to_stage, to_merge, to_blocked, cannot_return_fail, route_completion,
}

module _ (limits : Limits) (reviews : Stage → ℕ) (paired_test : Option CompletionMetadata)
    (modifications : ℕ) (m : CompletionMetadata) where
  -- A completion that keeps the contract is never routed to the merge, and never blocked as one
  -- that cannot return fail.
  pub contract_route :
      is_contract m ≡ true
      → (route_completion limits reviews paired_test modifications m ≢ to_merge)
        × (route_completion limits reviews paired_test modifications m
            ≢ to_blocked (cannot_return_fail m.stage))
  unfolding route_completion
  contract_route c = (
    λ r. ground (arith, contract_author m c, contract_finalization m c),
    λ r. ground (arith, contract_author m c, contract_finalization m c),
  )

  -- Of a completion that keeps the contract: a route to a stage stays in the phase, or it opens the
  -- next phase, and then the completion passed and is a document's review or its finalization.
  pub route_phase :
      (next : Stage) (mode : WorkMode)
      → is_contract m ≡ true
      → route_completion limits reviews paired_test modifications m ≡ to_stage next mode
      → (phase_for_stage next ≡ phase_for_stage m.stage)
        ⊎ ((next_phase_stage (phase_for_stage m.stage) ≡ some next)
            × (m.outcome ≡ pass)
            × ((is_document_review m.stage ≡ true) ⊎ (m.mode ≡ finalization)))
  unfolding route_completion
  route_phase next mode c r = ground (arith, contract_author m c, contract_finalization m c)
