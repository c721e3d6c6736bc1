-- ===== src/Workflow/Contract.antt =====
-- `CompletionMetadata.validate_stage_contract` of hollysys_controller/models.py: each rule is the test
-- under which the validator raises, in its order.
use hermes_agents_by_kanban.Prelude.{
  String, ◌≡◌, Bool, true, false, not, ◌&&◌, ◌||◌, Option, none, some, List, [], ◌∷◌, arith, ◌==◌,
  is_some, text_eq, nat_eq, option_beq, if◌then◌else◌,
}
use hermes_agents_by_kanban.Workflow.Stages.{
  Outcome, is_document_review, is_document_producer, is_code_gate, is_repository_author, is_test,
  is_code_review, is_tasks_review, is_pass, is_fail, is_cancelled, is_finalization,
}
use hermes_agents_by_kanban.Workflow.Completion.{
  CompletionMetadata, ForcedAdvance, BaselineDisposition, reviewed, forced_after_review_limit,
  TestDisposition, skipped_unavailable, GatePhase, implementation_entry, implementation_completion,
}
use hermes_agents_by_kanban.Workflow.Gate.{
  is_empty, is_none, comment_review_has_gate, gate_incomplete, gate_without_phase, is_approved,
  gate_untimed, gate_contradicts, gate_repeats, gate_inexact_paths,
}

abbrev pub is_entry : Option GatePhase → Bool
is_entry (some implementation_entry) = true
is_entry _ = false

abbrev pub is_completion : Option GatePhase → Bool
is_completion (some implementation_completion) = true
is_completion _ = false

unfoldable pub tasks_pass_ungated : CompletionMetadata → Bool
tasks_pass_ungated m =
    is_tasks_review m.stage
    && is_pass m.outcome
    && (not (is_entry m.gate_phase) || not (is_approved m.gate_decision))

unfoldable pub code_pass_ungated : CompletionMetadata → Bool
code_pass_ungated m =
    is_code_review m.stage
    && is_pass m.outcome
    && (not (is_completion m.gate_phase) || not (is_approved m.gate_decision))

unfoldable pub fail_without_issues : CompletionMetadata → Bool
fail_without_issues m = is_fail m.outcome && is_empty m.issues

unfoldable pub author_fails : CompletionMetadata → Bool
author_fails m = is_fail m.outcome && not (is_document_review m.stage || is_code_gate m.stage)

abbrev pub is_decided : Outcome → Bool
is_decided o = is_pass o || is_fail o

unfoldable pub review_without_artifact : CompletionMetadata → Bool
review_without_artifact m =
    is_decided m.outcome
    && is_document_review m.stage
    && (is_empty m.artifact_paths || is_none m.artifact_digest || is_none m.artifact_commit_sha)

abbrev pub lacks_delivery : CompletionMetadata → Bool
lacks_delivery m = is_none m.mr_iid || is_none m.mr_url || is_none m.head_sha

unfoldable pub gate_without_delivery : CompletionMetadata → Bool
gate_without_delivery m = is_decided m.outcome && is_code_gate m.stage && lacks_delivery m

abbrev pub is_skipped : Option TestDisposition → Bool
is_skipped (some skipped_unavailable) = true
is_skipped _ = false

-- The tests on the disposition of a test.
unfoldable pub test_disposition_wrong : CompletionMetadata → Bool
test_disposition_wrong m =
    if is_test m.stage && is_decided m.outcome
    then is_none m.test_disposition
      || (if is_skipped m.test_disposition
          then not (is_pass m.outcome)
            || is_none m.skip_reason
            || is_empty m.verification
            || is_empty m.residual_risk
          else is_some m.skip_reason)
    else is_some m.test_disposition || is_some m.skip_reason

-- The tests on the evidence of an author.
unfoldable pub author_evidence_wrong : CompletionMetadata → Bool
author_evidence_wrong m =
    if is_pass m.outcome && is_repository_author m.stage
    then not m.has_repository_evidence || lacks_delivery m
    else m.has_repository_evidence

abbrev pub is_forced : Option BaselineDisposition → Bool
is_forced (some forced_after_review_limit) = true
is_forced _ = false

abbrev pub is_reviewed : Option BaselineDisposition → Bool
is_reviewed (some reviewed) = true
is_reviewed _ = false

unfoldable pub texts_beq : List String → List String → Bool
texts_beq [] [] = true
texts_beq (x ∷ xs) (y ∷ ys) = x == y && texts_beq xs ys
texts_beq _ _ = false

-- The forced advance is not the evidence of the completion.
abbrev pub advance_differs : Option ForcedAdvance → CompletionMetadata → Bool
advance_differs none m = false
advance_differs (some f) m =
    not (option_beq (some f.baseline_commit_sha) m.artifact_commit_sha)
    || not (texts_beq f.artifact_paths m.artifact_paths)
    || not (option_beq (some f.artifact_digest) m.artifact_digest)
    || not (texts_beq f.key_decisions m.key_decisions)
    || not (texts_beq f.residual_risks m.residual_risk)

-- The tests on a finalization, and on a forced advance outside one.
unfoldable pub finalization_wrong : CompletionMetadata → Bool
unfolding texts_beq
finalization_wrong m =
    if is_finalization m.mode
    then not (is_document_producer m.stage)
      || (is_pass m.outcome
          && (is_empty m.artifact_paths
              || is_none m.artifact_digest
              || is_none m.artifact_commit_sha
              || is_none m.mr_iid
              || is_none m.mr_url
              || not (is_forced m.baseline_disposition)
              || is_none m.forced_advance))
      || (is_pass m.outcome && advance_differs m.forced_advance m)
      || not (is_pass m.outcome || is_cancelled m.outcome)
    else is_some m.forced_advance

-- The tests on the disposition of a baseline.
unfoldable pub baseline_wrong : CompletionMetadata → Bool
baseline_wrong m =
    if is_document_review m.stage && is_pass m.outcome
    then not (is_reviewed m.baseline_disposition)
    else not (is_finalization m.mode) && is_some m.baseline_disposition

-- `validate_stage_contract` raises nothing.
unfoldable pub is_contract : CompletionMetadata → Bool
is_contract m = not (
    comment_review_has_gate m
    || gate_incomplete m
    || gate_without_phase m
    || gate_untimed m
    || gate_contradicts m
    || gate_repeats m
    || gate_inexact_paths m
    || tasks_pass_ungated m
    || code_pass_ungated m
    || fail_without_issues m
    || author_fails m
    || review_without_artifact m
    || gate_without_delivery m
    || test_disposition_wrong m
    || author_evidence_wrong m
    || finalization_wrong m
    || baseline_wrong m)

-- What the routing needs of the contract: only a review or a test returns fail, and only an author
-- of a document finalizes.
pub contract_author :
    (m : CompletionMetadata)
    → is_contract m ≡ true
    → is_fail m.outcome ≡ true
    → (is_document_review m.stage || is_code_gate m.stage) ≡ true
unfolding is_contract author_fails
contract_author m h f = ground arith

pub contract_finalization :
    (m : CompletionMetadata)
    → is_contract m ≡ true
    → is_finalization m.mode ≡ true
    → is_document_producer m.stage ≡ true
unfolding is_contract finalization_wrong
contract_finalization m h f = ground arith

-- A passing implementation has its merge request and its head.
pub contract_delivery :
    (m : CompletionMetadata)
    → is_contract m ≡ true
    → is_pass m.outcome ≡ true
    → is_repository_author m.stage ≡ true
    → (is_some m.mr_iid ≡ true) × (is_some m.mr_url ≡ true) × (is_some m.head_sha ≡ true)
unfolding is_contract author_evidence_wrong
contract_delivery m h p a = ground arith
