-- ===== src/Workflow/Routing.antt =====
-- `route_completion` of hollysys_controller/workflow.py: where a run goes after a completion.
pub mod Outcomes
use hermes_agents_by_kanban.Prelude.{
  ℕ, ◌+◌, String, Bool, true, false, ◌&&◌, Option, none, some, leb, if◌then◌else◌, option_beq,
  nat_eq, text_eq,
}
use hermes_agents_by_kanban.Workflow.Stages.{
  Stage, spec_review, plan_review, tasks_review, implement, test, code_review, WorkMode, normal,
  finalization, Outcome, producer_for_review, phase_for_stage, next_phase_stage, next_stage,
  is_test, is_code_review, is_code_gate, is_document_review, is_pass, is_fail, is_cancelled,
  is_finalization,
}
use hermes_agents_by_kanban.Workflow.Completion.{CompletionMetadata}

-- The limits of hollysys_controller/config.py that the routing reads.
pub record Limits : Type 0 where
  pub document_review_limit : ℕ
  pub code_modification_limit : ℕ
  pub protocol_retry_limit : ℕ

pub data TerminalState : Type 0 where
  completed_ready completed_with_findings completed_test_failed : TerminalState

pub data BlockedReason : Type 0 where
  was_cancelled cannot_return_fail : Stage → BlockedReason

-- A `Route` sets one of its fields; `next_mode` goes with `next_stage`.
pub data Route : Type 0 where
  to_stage : Stage → WorkMode → Route
  to_merge : Route
  to_terminal : TerminalState → Route
  to_blocked : BlockedReason → Route

abbrev pub follow : Option Stage → Route
follow none = to_merge
follow (some stage) = to_stage stage normal

-- paired_test is not None and its MR and head are those of the review
unfoldable pub same_delivery : Option CompletionMetadata → CompletionMetadata → Bool
same_delivery none m = false
same_delivery (some t) m =
    option_beq t.mr_iid m.mr_iid && option_beq t.mr_url m.mr_url && option_beq t.head_sha m.head_sha

abbrev pub paired_pass : Option CompletionMetadata → Bool
paired_pass none = false
paired_pass (some t) = is_pass t.outcome

unfoldable pub route_test : Limits → ℕ → CompletionMetadata → Route
route_test limits code_modifications m =
    if is_pass m.outcome
    then to_stage code_review normal
    else if leb limits.code_modification_limit code_modifications
    then to_terminal completed_test_failed
    else to_stage implement normal

unfoldable pub route_code_review :
    Limits → ℕ → Option CompletionMetadata → CompletionMetadata → Route
unfolding same_delivery
route_code_review limits code_modifications paired_test m =
    if same_delivery paired_test m
    then (if paired_pass paired_test && is_pass m.outcome
        then to_terminal completed_ready
        else if leb limits.code_modification_limit code_modifications
        then to_terminal completed_with_findings
        else to_stage implement normal)
    else to_stage test normal

abbrev pub fail_mode : Limits → ℕ → WorkMode
fail_mode limits review_attempt =
    if leb limits.document_review_limit review_attempt then finalization else normal

abbrev pub return_to : Limits → ℕ → Stage → Option Stage → Route
return_to limits review_attempt stage none = to_blocked (cannot_return_fail stage)
return_to limits review_attempt stage (some target) =
    if is_document_review stage
    then to_stage target (fail_mode limits review_attempt)
    else to_stage target normal

unfoldable pub route_completion :
    Limits → (Stage → ℕ) → Option CompletionMetadata → ℕ → CompletionMetadata → Route
unfolding route_test route_code_review next_stage
route_completion limits review_attempts_by_stage paired_test code_modifications m =
    if is_cancelled m.outcome
    then (if is_code_gate m.stage then to_stage test normal else to_blocked (was_cancelled m.stage))
    else if is_test m.stage
    then route_test limits code_modifications m
    else if is_code_review m.stage
    then route_code_review limits code_modifications paired_test m
    else if is_fail m.outcome
    then return_to limits (review_attempts_by_stage m.stage) m.stage (producer_for_review m.stage)
    else if is_finalization m.mode
    then follow (next_phase_stage (phase_for_stage m.stage))
    else follow (next_stage m.stage)

-- iteration_for(stage, attempts_by_stage)
unfoldable pub iteration_for : Stage → (Stage → ℕ) → ℕ
iteration_for stage attempts_by_stage = attempts_by_stage stage + 1

unfoldable pub protocol_retry_allowed : ℕ → Limits → Bool
protocol_retry_allowed invalid_count limits = leb invalid_count limits.protocol_retry_limit
