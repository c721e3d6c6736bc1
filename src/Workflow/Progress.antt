-- ===== src/Workflow/Progress.antt =====
-- The loop of hollysys_controller/service.py around `route_completion`: a completion of the current
-- card is added to the history, the reviews and the implementations of the history are counted, and
-- the route names the next card.
pub mod Termination
use hermes_agents_by_kanban.Prelude.{
  ℕ, suc, ◌+◌, ◌-◌, ◌≡◌, String, Bool, true, false, not, ◌&&◌, ◌||◌, Option, none, some, List, [],
  ◌∷◌, nat_beq, if◌then◌else◌, ◌==◌, text_eq,
}
use hermes_agents_by_kanban.Workflow.Stages.{
  Stage, sequence_index, WorkMode, is_document_review, is_pass, is_fail, is_cancelled, implement,
  is_code_review,
}
use hermes_agents_by_kanban.Workflow.Completion.{CompletionMetadata}
use hermes_agents_by_kanban.Workflow.Contract.{is_contract}
use hermes_agents_by_kanban.Workflow.Routing.{
  Limits, Route, to_stage, same_delivery, route_completion,
}

-- What the counts read of a `HistoryItem`: the managed card, the status of its task, whether a
-- comment marks a protocol error, the validated metadata, and whether the store accepted it.
pub record HistoryItem : Type 0 where
  pub purpose : String
  pub stage : Stage
  pub is_done : Bool
  pub has_protocol_error : Bool
  pub metadata : Option CompletionMetadata
  pub is_accepted : Bool

abbrev pub same_stage : Stage → Stage → Bool
same_stage a b = nat_beq (sequence_index a) (sequence_index b)

abbrev pub is_decided_by : Option CompletionMetadata → Bool
is_decided_by none = false
is_decided_by (some m) = is_pass m.outcome || is_fail m.outcome

abbrev pub is_passed_by : Option CompletionMetadata → Bool
is_passed_by none = false
is_passed_by (some m) = is_pass m.outcome

-- The item counts as a completed review of its stage.
unfoldable pub is_review_attempt : HistoryItem → Bool
is_review_attempt item =
    item.purpose == "work"
    && is_document_review item.stage
    && item.is_done
    && not item.has_protocol_error
    && is_decided_by item.metadata

-- _review_attempts_by_stage(history).get(stage, 0)
unfoldable pub review_attempts_by_stage : List HistoryItem → Stage → ℕ
unfolding is_review_attempt
review_attempts_by_stage [] stage = 0
review_attempts_by_stage (item ∷ history) stage =
    let rest = review_attempts_by_stage history stage in
    if is_review_attempt item && same_stage item.stage stage then rest + 1 else rest

-- The item counts as an implementation version.
unfoldable pub is_implementation_version : HistoryItem → Bool
is_implementation_version item =
    item.purpose == "work"
    && same_stage item.stage implement
    && item.is_done
    && item.is_accepted
    && is_passed_by item.metadata

unfoldable pub implementation_versions : List HistoryItem → ℕ
unfolding is_implementation_version
implementation_versions [] = 0
implementation_versions (item ∷ history) =
    let rest = implementation_versions history in
    if is_implementation_version item then rest + 1 else rest

-- _code_modification_count(history): max(0, implementation_versions - 1)
unfoldable pub code_modification_count : List HistoryItem → ℕ
unfolding implementation_versions
code_modification_count history = implementation_versions history - 1

-- The card of an accepted completion.
abbrev pub accepted_item : CompletionMetadata → HistoryItem
accepted_item m = record {
  purpose = "work";
  stage = m.stage;
  is_done = true;
  has_protocol_error = false;
  metadata = some m;
  is_accepted = true;
}

-- A run between two completions: what is done, newest first, and the card that is open.
pub record Flow : Type 0 where
  pub history : List HistoryItem
  pub stage : Stage
  pub mode : WorkMode

unfoldable pub route_after : Limits → Option CompletionMetadata → CompletionMetadata → Flow → Route
route_after limits paired_test m f =
    let history = accepted_item m ∷ f.history in
    route_completion limits (review_attempts_by_stage history) paired_test
      (code_modification_count history) m

-- The completion is cancelled, or it reviews another delivery than the one that was tested.
unfoldable pub is_repeat : Option CompletionMetadata → CompletionMetadata → Bool
is_repeat paired_test m =
    is_cancelled m.outcome || (is_code_review m.stage && not (same_delivery paired_test m))

-- An accepted completion of the open card that keeps the contract; its route opens the next card. The
-- index is whether it is a repeat.
pub data FlowStep (limits : Limits) : Bool → Flow → Flow → Type 0 where
  advance :
      (f : Flow) (m : CompletionMetadata) (paired_test : Option CompletionMetadata) (next : Stage)
      (mode : WorkMode)
      → m.stage ≡ f.stage
      → m.mode ≡ f.mode
      → is_contract m ≡ true
      → route_after limits paired_test m f ≡ to_stage next mode
      → FlowStep limits
          (is_repeat paired_test m)
          f
          (record { history = accepted_item m ∷ f.history; stage = next; mode = mode })

abbrev pub count_repeat : Bool → ℕ
count_repeat true = 1
count_repeat false = 0

-- So many completions in a row, and the repeats among them.
pub data FlowSteps (limits : Limits) : ℕ → ℕ → Flow → Flow → Type 0 where
  start : {f : Flow} → FlowSteps limits 0 0 f f
  then_step :
      {n repeats : ℕ} {again : Bool} {f g h : Flow}
      → FlowStep limits again f g
      → FlowSteps limits n repeats g h
      → FlowSteps limits (suc n) (count_repeat again + repeats) f h
