-- ===== src/Examples/Flow.antt =====
-- Completions of a run's cards and their routes (hollysys_controller/workflow.py).
use hermes_agents_by_kanban.Prelude.{◌≡◌, ◌≢◌, ◌⊎◌, refl, String, true, none, some, [], ◌∷◌}
use hermes_agents_by_kanban.Workflow.Stages.{
  Stage, spec_write, spec_review, normal, finalization, pass, fail, phase_for_stage,
  next_phase_stage, is_document_review, next_stage, Outcome,
}
use hermes_agents_by_kanban.Workflow.Completion.{CompletionMetadata}
use hermes_agents_by_kanban.Workflow.Gate.{
  comment_review_has_gate, gate_incomplete, gate_without_phase, gate_untimed, gate_contradicts,
  gate_repeats, gate_inexact_paths, gate_fields_present, gate_given, any_inexact, has_repeats,
}
use hermes_agents_by_kanban.Workflow.Contract.{
  is_contract, tasks_pass_ungated, code_pass_ungated, fail_without_issues, author_fails,
  review_without_artifact, gate_without_delivery, test_disposition_wrong, author_evidence_wrong,
  finalization_wrong, baseline_wrong,
}
use hermes_agents_by_kanban.Workflow.Routing.{
  Limits, to_merge, to_blocked, cannot_return_fail, route_completion,
}
use hermes_agents_by_kanban.Workflow.Routing.Outcomes.{contract_route, route_phase}

abbrev limits : Limits
limits = record { document_review_limit = 5; code_modification_limit = 5; protocol_retry_limit = 2 }

abbrev head : String
head = "0123456789abcdef0123456789abcdef01234567"

abbrev delivery : Stage → Outcome → CompletionMetadata
delivery stage outcome = record {
  stage = stage;
  mode = normal;
  outcome = outcome;
  mr_iid = some 7;
  mr_url = some "https://gitlab/7";
  head_sha = some head;
  artifact_commit_sha = some head;
  artifact_digest = some "digest";
  artifact_paths = "specs/spec.md" ∷ [];
  baseline_disposition = none;
  forced_advance = none;
  has_repository_evidence = true;
  test_disposition = none;
  skip_reason = none;
  verification = "checked" ∷ [];
  key_decisions = "kept" ∷ [];
  issues = [];
  residual_risk = [];
  gate_phase = none;
  gate_decision = none;
  gate_reviewer = none;
  gate_reviewed_at = none;
  gate_reason = none;
  gate_evidence_refs = [];
  gate_artifact_paths = [];
  gate_artifact_commit_sha = none;
  gate_artifact_digest = none;
  contract_refs = [];
  requirement_ids = [];
}

abbrev written : CompletionMetadata
written = delivery spec_write pass

abbrev refused : CompletionMetadata
refused = record (delivery spec_review fail) { issues = "no acceptance criteria" ∷ [] }

written_contract : is_contract written ≡ true
unfolding is_contract comment_review_has_gate gate_incomplete gate_without_phase gate_untimed
    gate_contradicts gate_repeats gate_inexact_paths tasks_pass_ungated code_pass_ungated
    fail_without_issues author_fails review_without_artifact gate_without_delivery
    test_disposition_wrong author_evidence_wrong finalization_wrong baseline_wrong
    gate_fields_present gate_given any_inexact has_repeats
written_contract = refl

route_phase_example :
    (phase_for_stage spec_review ≡ phase_for_stage spec_write)
    ⊎ ((next_phase_stage (phase_for_stage spec_write) ≡ some spec_review)
        × (written.outcome ≡ pass)
        × ((is_document_review spec_write ≡ true) ⊎ (written.mode ≡ finalization)))
unfolding route_completion next_stage
route_phase_example =
    route_phase limits (λ _. 0) none 0 written spec_review normal written_contract refl

contract_route_example :
    (route_completion limits (λ _. 0) none 0 written ≢ to_merge)
    × (route_completion limits (λ _. 0) none 0 written ≢ to_blocked (cannot_return_fail spec_write))
contract_route_example = contract_route limits (λ _. 0) none 0 written written_contract
