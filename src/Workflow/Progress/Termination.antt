-- ===== src/Workflow/Progress/Termination.antt =====
-- A run ends: every completion but a repeat uses up some of a bounded budget.
use hermes_agents_by_kanban.Prelude.{ℕ, ◌+◌, ◌-◌, ◌*◌, ◌≤◌, ◌≡◌, false, []}
use hermes_agents_by_kanban.Workflow.Stages.{
  Stage, spec_write, spec_review, plan_write, plan_review, tasks_write, tasks_review, implement,
  test, code_review, WorkMode, normal, finalization, is_code_gate,
}
use hermes_agents_by_kanban.Workflow.Routing.{Limits}
use hermes_agents_by_kanban.Workflow.Progress.{
  Flow, review_attempts_by_stage, implementation_versions,
}

-- The reviews of a document that are left, as a budget.
abbrev phase_budget : Limits → ℕ
phase_budget limits = 2 * limits.document_review_limit + 3

abbrev code_budget : Limits → ℕ
code_budget limits = 3 * (limits.code_modification_limit + 1) + 1

abbrev write_budget : Limits → WorkMode → ℕ → ℕ
write_budget limits normal reviews = 2 * (limits.document_review_limit - reviews) + 3
write_budget limits finalization reviews = 1

abbrev review_budget : Limits → ℕ → ℕ
review_budget limits reviews = 2 * (limits.document_review_limit - reviews) + 2

abbrev versions_left : Limits → ℕ → ℕ
versions_left limits versions = 3 * (limits.code_modification_limit + 1 - versions)

abbrev stage_budget : Limits → Stage → WorkMode → (Stage → ℕ) → ℕ → ℕ
stage_budget limits spec_write mode reviews versions =
    2 * phase_budget limits + code_budget limits + write_budget limits mode (reviews spec_review)
stage_budget limits spec_review mode reviews versions =
    2 * phase_budget limits + code_budget limits + review_budget limits (reviews spec_review)
stage_budget limits plan_write mode reviews versions =
    phase_budget limits + code_budget limits + write_budget limits mode (reviews plan_review)
stage_budget limits plan_review mode reviews versions =
    phase_budget limits + code_budget limits + review_budget limits (reviews plan_review)
stage_budget limits tasks_write mode reviews versions =
    code_budget limits + write_budget limits mode (reviews tasks_review)
stage_budget limits tasks_review mode reviews versions =
    code_budget limits + review_budget limits (reviews tasks_review)
stage_budget limits implement mode reviews versions = versions_left limits versions + 1
stage_budget limits test mode reviews versions = versions_left limits versions + 3
stage_budget limits code_review mode reviews versions = versions_left limits versions + 2

-- The completions that the run has left at most.
budget : Limits → Flow → ℕ
budget limits f =
    stage_budget limits f.stage f.mode (review_attempts_by_stage f.history)
      (implementation_versions f.history)

-- Outside the code gates there is a modification left.
abbrev HasRoom : Limits → Flow → Type 0
HasRoom limits f =
    is_code_gate f.stage ≡ false
    → implementation_versions f.history ≤ limits.code_modification_limit

-- A new run: no card is done, and the first one writes the specification.
abbrev pub new_flow : Flow
new_flow = record { history = []; stage = spec_write; mode = normal }
