-- ===== src/Workflow/Gate.antt =====
-- The gate rules of `CompletionMetadata.validate_stage_contract` of hollysys_controller/models.py, each
-- the test under which the validator raises.
use hermes_agents_by_kanban.Prelude.{
  ℕ, String, Bool, true, false, not, ◌&&◌, ◌||◌, Option, none, some, List, [], ◌∷◌, ◌==◌, is_some,
  contains, codes, text_eq, nat_eq, if◌then◌else◌,
}
use hermes_agents_by_kanban.Workflow.Stages.{is_comment_review, is_pass, is_fail}
use hermes_agents_by_kanban.Workflow.Completion.{
  CompletionMetadata, GateDecision, approved, Datetime,
}

abbrev pub is_empty {ℓ} : {A : Type ℓ} → List A → Bool
is_empty [] = true
is_empty (x ∷ xs) = false

abbrev pub is_none {ℓ} : {A : Type ℓ} → Option A → Bool
is_none o = not (is_some o)

-- len(values) != len(set(values))
unfoldable pub has_repeats : List String → Bool
unfolding contains
has_repeats [] = false
has_repeats (x ∷ xs) = contains xs x || has_repeats xs

-- The texts between the separators.
abbrev pub cons_to_head : ℕ → List (List ℕ) → List (List ℕ)
cons_to_head c [] = (c ∷ []) ∷ []
cons_to_head c (p ∷ ps) = (c ∷ p) ∷ ps

unfoldable pub split_at_slash : List ℕ → List (List ℕ)
split_at_slash [] = [] ∷ []
split_at_slash (c ∷ cs) =
    let rest = split_at_slash cs in if c == b'/' then [] ∷ rest else cons_to_head c rest

abbrev pub is_dots : List ℕ → Bool
is_dots (a ∷ b ∷ []) = a == b'.' && b == b'.'
is_dots _ = false

unfoldable pub any_dots : List (List ℕ) → Bool
any_dots [] = false
any_dots (p ∷ ps) = is_dots p || any_dots ps

abbrev pub starts_with_slash : List ℕ → Bool
starts_with_slash [] = false
starts_with_slash (c ∷ cs) = c == b'/'

-- any(token in raw_path for token in ("*", "?", "[", "]", "\0"))
unfoldable pub has_wildcard : List ℕ → Bool
has_wildcard [] = false
has_wildcard (c ∷ cs) = (c == b'*' || c == b'?' || c == 91 || c == 93 || c == 0) || has_wildcard cs

unfoldable pub is_inexact_path : String → Bool
unfolding split_at_slash any_dots has_wildcard
is_inexact_path raw =
    starts_with_slash (codes raw)
    || raw == ""
    || raw == "."
    || any_dots (split_at_slash (codes raw))
    || has_wildcard (codes raw)

unfoldable pub any_inexact : List String → Bool
unfolding is_inexact_path
any_inexact [] = false
any_inexact (p ∷ ps) = is_inexact_path p || any_inexact ps

unfoldable pub gate_fields_present : CompletionMetadata → Bool
gate_fields_present m =
    is_some m.gate_decision
    || is_some m.gate_reviewer
    || is_some m.gate_reviewed_at
    || is_some m.gate_reason
    || not (is_empty m.gate_evidence_refs)
    || not (is_empty m.gate_artifact_paths)
    || is_some m.gate_artifact_commit_sha
    || is_some m.gate_artifact_digest
    || not (is_empty m.contract_refs)
    || not (is_empty m.requirement_ids)

-- SPEC and PLAN reviews are no semantic gates.
unfoldable pub comment_review_has_gate : CompletionMetadata → Bool
unfolding gate_fields_present
comment_review_has_gate m =
    is_comment_review m.stage && (is_some m.gate_phase || gate_fields_present m)

unfoldable pub gate_incomplete : CompletionMetadata → Bool
gate_incomplete m =
    is_some m.gate_phase
    && (is_none m.gate_decision
        || is_none m.gate_reviewer
        || is_none m.gate_reviewed_at
        || is_none m.gate_reason
        || is_empty m.gate_evidence_refs
        || is_empty m.gate_artifact_paths
        || is_none m.gate_artifact_commit_sha
        || is_none m.gate_artifact_digest
        || is_empty m.contract_refs
        || is_empty m.requirement_ids)

unfoldable pub gate_without_phase : CompletionMetadata → Bool
unfolding gate_fields_present
gate_without_phase m = is_none m.gate_phase && gate_fields_present m

abbrev pub lacks_tzinfo : Option Datetime → Bool
lacks_tzinfo none = false
lacks_tzinfo (some t) = not t.has_tzinfo

abbrev pub is_approved : Option GateDecision → Bool
is_approved (some approved) = true
is_approved _ = false

-- The tests on a gate that is given with its decision and its time.
unfoldable pub gate_given : CompletionMetadata → Bool
gate_given m = is_some m.gate_phase && is_some m.gate_decision && is_some m.gate_reviewed_at

unfoldable pub gate_untimed : CompletionMetadata → Bool
unfolding gate_given
gate_untimed m = gate_given m && lacks_tzinfo m.gate_reviewed_at

unfoldable pub gate_contradicts : CompletionMetadata → Bool
unfolding gate_given
gate_contradicts m =
    gate_given m
    && (if is_approved m.gate_decision then not (is_pass m.outcome) else not (is_fail m.outcome))

unfoldable pub gate_repeats : CompletionMetadata → Bool
unfolding gate_given has_repeats
gate_repeats m =
    gate_given m
    && (has_repeats m.requirement_ids
        || has_repeats m.contract_refs
        || has_repeats m.gate_evidence_refs
        || has_repeats m.gate_artifact_paths)

unfoldable pub gate_inexact_paths : CompletionMetadata → Bool
unfolding gate_given any_inexact
gate_inexact_paths m = gate_given m && any_inexact m.gate_artifact_paths
