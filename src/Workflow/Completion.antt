-- ===== src/Workflow/Completion.antt =====
-- `CompletionMetadata` of hollysys_controller/models.py: the fields that the stage contract and the
-- routing read.
use hermes_agents_by_kanban.Prelude.{ℕ, String, Bool, Option, List}
use hermes_agents_by_kanban.Workflow.Stages.{Stage, WorkMode, Outcome}

pub data BaselineDisposition : Type 0 where
  source reviewed forced_after_review_limit : BaselineDisposition

pub data TestDisposition : Type 0 where
  executed skipped_unavailable : TestDisposition

pub data GatePhase : Type 0 where
  implementation_entry implementation_completion migration_execution : GatePhase
  deployment_entry release_acceptance : GatePhase

pub data GateDecision : Type 0 where
  approved rejected : GateDecision

-- A parsed time: its instant, and whether it has a time zone.
pub record Datetime : Type 0 where
  pub instant : ℕ
  pub has_tzinfo : Bool

pub record ForcedAdvance : Type 0 where
  pub baseline_commit_sha : String
  pub artifact_paths : List String
  pub artifact_digest : String
  pub key_decisions : List String
  pub residual_risks : List String

pub record CompletionMetadata : Type 0 where
  pub stage : Stage
  pub mode : WorkMode
  pub outcome : Outcome
  pub mr_iid : Option ℕ
  pub mr_url : Option String
  pub head_sha : Option String
  pub artifact_commit_sha : Option String
  pub artifact_digest : Option String
  pub artifact_paths : List String
  pub baseline_disposition : Option BaselineDisposition
  pub forced_advance : Option ForcedAdvance
  pub has_repository_evidence : Bool
  pub test_disposition : Option TestDisposition
  pub skip_reason : Option String
  pub verification : List String
  pub key_decisions : List String
  pub issues : List String
  pub residual_risk : List String
  pub gate_phase : Option GatePhase
  pub gate_decision : Option GateDecision
  pub gate_reviewer : Option String
  pub gate_reviewed_at : Option Datetime
  pub gate_reason : Option String
  pub gate_evidence_refs : List String
  pub gate_artifact_paths : List String
  pub gate_artifact_commit_sha : Option String
  pub gate_artifact_digest : Option String
  pub contract_refs : List String
  pub requirement_ids : List String
