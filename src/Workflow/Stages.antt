-- ===== src/Workflow/Stages.antt =====
-- The enumerations of hollysys_controller/models.py and the tables of hollysys_controller/workflow.py.
use hermes_agents_by_kanban.Prelude.{
  ℕ, zero, suc, Bool, true, false, Option, none, some, List, [], ◌∷◌,
}

pub data Stage : Type 0 where
  spec_write spec_review plan_write plan_review tasks_write tasks_review : Stage
  implement test code_review : Stage

pub data Phase : Type 0 where
  spec plan tasks code : Phase

pub data WorkMode : Type 0 where
  normal finalization : WorkMode

pub data Outcome : Type 0 where
  pass fail cancelled : Outcome

-- The place of a stage in SEQUENCE.
abbrev pub sequence_index : Stage → ℕ
sequence_index spec_write = 0
sequence_index spec_review = 1
sequence_index plan_write = 2
sequence_index plan_review = 3
sequence_index tasks_write = 4
sequence_index tasks_review = 5
sequence_index implement = 6
sequence_index test = 7
sequence_index code_review = 8

abbrev pub sequence : List Stage
sequence =
    spec_write ∷ spec_review ∷ plan_write ∷ plan_review ∷ tasks_write ∷ tasks_review ∷ implement
    ∷ test ∷ code_review ∷ []

abbrev pub get_elem? {ℓ} : {A : Type ℓ} → List A → ℕ → Option A
get_elem? [] i = none
get_elem? (x ∷ xs) zero = some x
get_elem? (x ∷ xs) (suc i) = get_elem? xs i

-- index = SEQUENCE.index(stage); SEQUENCE[index + 1], or None past the end
unfoldable pub next_stage : Stage → Option Stage
next_stage stage = get_elem? sequence (suc (sequence_index stage))

-- PRODUCER_FOR_REVIEW
abbrev pub producer_for_review : Stage → Option Stage
producer_for_review spec_review = some spec_write
producer_for_review plan_review = some plan_write
producer_for_review tasks_review = some tasks_write
producer_for_review test = some implement
producer_for_review code_review = some implement
producer_for_review _ = none

-- DOCUMENT_REVIEW_FOR_PRODUCER
abbrev pub document_review_for_producer : Stage → Option Stage
document_review_for_producer spec_write = some spec_review
document_review_for_producer plan_write = some plan_review
document_review_for_producer tasks_write = some tasks_review
document_review_for_producer _ = none

-- PHASE_FOR_STAGE
abbrev pub phase_for_stage : Stage → Phase
phase_for_stage spec_write = spec
phase_for_stage spec_review = spec
phase_for_stage plan_write = plan
phase_for_stage plan_review = plan
phase_for_stage tasks_write = tasks
phase_for_stage tasks_review = tasks
phase_for_stage implement = code
phase_for_stage test = code
phase_for_stage code_review = code

-- PRODUCER_FOR_PHASE
abbrev pub producer_for_phase : Phase → Stage
producer_for_phase spec = spec_write
producer_for_phase plan = plan_write
producer_for_phase tasks = tasks_write
producer_for_phase code = implement

-- NEXT_PHASE_STAGE
abbrev pub next_phase_stage : Phase → Option Stage
next_phase_stage spec = some plan_write
next_phase_stage plan = some tasks_write
next_phase_stage tasks = some implement
next_phase_stage code = none

abbrev pub is_document_review : Stage → Bool
is_document_review spec_review = true
is_document_review plan_review = true
is_document_review tasks_review = true
is_document_review _ = false

abbrev pub is_document_producer : Stage → Bool
is_document_producer spec_write = true
is_document_producer plan_write = true
is_document_producer tasks_write = true
is_document_producer _ = false

abbrev pub is_code_gate : Stage → Bool
is_code_gate test = true
is_code_gate code_review = true
is_code_gate _ = false

-- document_producers | {Stage.IMPLEMENT}
abbrev pub is_repository_author : Stage → Bool
is_repository_author implement = true
is_repository_author s = is_document_producer s

abbrev pub is_test : Stage → Bool
is_test test = true
is_test _ = false

abbrev pub is_code_review : Stage → Bool
is_code_review code_review = true
is_code_review _ = false

abbrev pub is_tasks_review : Stage → Bool
is_tasks_review tasks_review = true
is_tasks_review _ = false

-- {Stage.SPEC_REVIEW, Stage.PLAN_REVIEW}
abbrev pub is_comment_review : Stage → Bool
is_comment_review spec_review = true
is_comment_review plan_review = true
is_comment_review _ = false

abbrev pub is_pass : Outcome → Bool
is_pass pass = true
is_pass _ = false

abbrev pub is_fail : Outcome → Bool
is_fail fail = true
is_fail _ = false

abbrev pub is_cancelled : Outcome → Bool
is_cancelled cancelled = true
is_cancelled _ = false

abbrev pub is_finalization : WorkMode → Bool
is_finalization finalization = true
is_finalization normal = false
