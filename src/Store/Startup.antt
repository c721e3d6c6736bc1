-- ===== src/Store/Startup.antt =====
-- `ControllerStore._validate_existing` of hollysys_controller/store.py: the invariant queries over
-- run_control, in the order in which they run. A query finds a row where its WHERE clause is true;
-- a comparison with NULL is not.
use hermes_agents_by_kanban.Prelude.{
  String, ◌≡◌, refl, Bool, true, false, not, ◌&&◌, ◌||◌, Option, none, some, List, [], ◌∷◌, arith,
  text_eq, ◌==◌, ltb, is_some, is_sha, is_sha_or_none, if◌then◌else◌,
}
use hermes_agents_by_kanban.Table.{Table, lookup, put, any_row, any_row-lookup, any_row-put}
use hermes_agents_by_kanban.Store.RunState.{
  is_terminal, is_run_state, is_waiting, is_abort_open, is_abort_ended, is_flow_completed,
  is_completed, is_completed_before_abort,
}
use hermes_agents_by_kanban.Store.Runs.{RunControl}

-- compliance NOT IN ('verified', 'unverified')
abbrev pub is_compliance : String → Bool
is_compliance c = c == "verified" || c == "unverified"

-- completion_source NOT IN ('controller', 'external')
abbrev pub is_source : String → Bool
is_source c = c == "controller" || c == "external"

abbrev fails : (String → Bool) → Option String → Bool
fails test none = false
fails test (some c) = not (test c)

-- checked_head IS NULL OR length(checked_head) != 40 OR checked_head GLOB '*[^0-9a-f]*'
abbrev lacks_head : Option String → Bool
lacks_head none = true
lacks_head (some h) = not (is_sha h)

-- column IS NULL OR column=''
abbrev is_blank : Option String → Bool
is_blank none = true
is_blank (some c) = c == ""

unfoldable pub unknown_run_state : RunControl → Bool
unknown_run_state r = not (is_run_state r.state)

unfoldable pub invalid_state_version : RunControl → Bool
invalid_state_version r = ltb r.state_version 1

unfoldable pub terminal_timestamp_mismatch : RunControl → Bool
terminal_timestamp_mismatch r =
    (is_terminal r.state && not (is_some r.terminal_at))
    || (not (is_terminal r.state) && is_some r.terminal_at)

unfoldable pub retry_schedule_mismatch : RunControl → Bool
retry_schedule_mismatch r =
    (is_waiting r.state && not (is_some r.next_retry_at))
    || (not (is_waiting r.state || is_abort_open r.state) && is_some r.next_retry_at)

unfoldable pub completed_metadata_missing : RunControl → Bool
completed_metadata_missing r =
    is_completed r.state
    && (fails is_compliance r.compliance
        || fails is_source r.completion_source
        || lacks_head r.checked_head)

unfoldable pub flow_completion_metadata_missing : RunControl → Bool
flow_completion_metadata_missing r =
    is_flow_completed r.state
    && (fails is_compliance r.compliance
        || fails (λ c. c == "controller") r.completion_source
        || lacks_head r.checked_head
        || is_some r.merge_commit_sha)

unfoldable pub abort_metadata_missing : RunControl → Bool
abort_metadata_missing r =
    (is_abort_open r.state || is_abort_ended r.state)
    && (is_blank r.abort_requested_by
        || is_blank r.abort_reason
        || not (is_some r.abort_requested_at))

unfoldable pub abort_terminal_timestamp_missing : RunControl → Bool
abort_terminal_timestamp_missing r = is_abort_ended r.state && not (is_some r.aborted_at)

unfoldable pub completed_before_abort_head_missing : RunControl → Bool
completed_before_abort_head_missing r =
    is_completed_before_abort r.state && lacks_head r.checked_head

unfoldable pub invalid_merge_commit : RunControl → Bool
invalid_merge_commit r = not (is_sha_or_none r.merge_commit_sha)

abbrev pub Query : Type 0
Query = String × (RunControl → Bool)

-- invariant_checks
unfoldable pub invariant_checks : List Query
invariant_checks =
    ("unknown_run_state", unknown_run_state)
    ∷ ("invalid_state_version", invalid_state_version)
    ∷ ("terminal_timestamp_mismatch", terminal_timestamp_mismatch)
    ∷ ("retry_schedule_mismatch", retry_schedule_mismatch)
    ∷ ("completed_metadata_missing", completed_metadata_missing)
    ∷ ("flow_completion_metadata_missing", flow_completion_metadata_missing)
    ∷ ("abort_metadata_missing", abort_metadata_missing)
    ∷ ("abort_terminal_timestamp_missing", abort_terminal_timestamp_missing)
    ∷ ("completed_before_abort_head_missing", completed_before_abort_head_missing)
    ∷ ("invalid_merge_commit_sha", invalid_merge_commit)
    ∷ []

-- The code of the first query that finds a row.
unfoldable pub first_failed : List Query → Table String RunControl → Option String
first_failed [] t = none
first_failed ((code, bad) ∷ qs) t = if any_row bad t then some code else first_failed qs t

unfoldable pub startup_failure : Table String RunControl → Option String
startup_failure t = first_failed invariant_checks t

abbrev pub passes : List Query → RunControl → Bool
passes [] r = true
passes ((code, bad) ∷ qs) r = not (bad r) && passes qs r

-- No query finds the row.
pub record IsStartable (r : RunControl) : Type 0 where
  pub known_state : unknown_run_state r ≡ false
  pub valid_version : invalid_state_version r ≡ false
  pub terminal_timestamp : terminal_timestamp_mismatch r ≡ false
  pub retry_schedule : retry_schedule_mismatch r ≡ false
  pub completed_metadata : completed_metadata_missing r ≡ false
  pub flow_metadata : flow_completion_metadata_missing r ≡ false
  pub abort_metadata : abort_metadata_missing r ≡ false
  pub abort_timestamp : abort_terminal_timestamp_missing r ≡ false
  pub abort_head : completed_before_abort_head_missing r ≡ false
  pub valid_merge_commit : invalid_merge_commit r ≡ false

IsStartable-passes : (r : RunControl) → passes invariant_checks r ≡ true → IsStartable r
unfolding invariant_checks
IsStartable-passes r h = ground arith

passes-IsStartable : (r : RunControl) → IsStartable r → passes invariant_checks r ≡ true
unfolding invariant_checks
passes-IsStartable r h = ground arith

passes-lookup :
    (qs : List Query) (k : String) (t : Table String RunControl) {r : RunControl}
    → first_failed qs t ≡ none
    → lookup k t ≡ some r
    → passes qs r ≡ true
unfolding first_failed
passes-lookup [] k t h p = refl
passes-lookup ((code, bad) ∷ qs) k t {r} h p =
    ground (arith, any_row-lookup bad k t {v = r}, passes-lookup qs k t {r = r})

first_failed-put :
    (qs : List Query) (k : String) (r : RunControl) (t : Table String RunControl)
    → first_failed qs t ≡ none
    → passes qs r ≡ true
    → first_failed qs (put k r t) ≡ none
unfolding first_failed
first_failed-put [] k r t h p = refl
first_failed-put ((code, bad) ∷ qs) k r t h p =
    ground (arith, any_row-put bad k r t, first_failed-put qs k r t)

pub lookup-IsStartable :
    (k : String) (t : Table String RunControl) {r : RunControl}
    → startup_failure t ≡ none
    → lookup k t ≡ some r
    → IsStartable r
unfolding startup_failure
lookup-IsStartable k t {r} h p = IsStartable-passes r (passes-lookup invariant_checks k t h p)

pub startup_failure-put :
    (k : String) (r : RunControl) (t : Table String RunControl)
    → startup_failure t ≡ none
    → IsStartable r
    → startup_failure (put k r t) ≡ none
unfolding startup_failure
startup_failure-put k r t h v = first_failed-put invariant_checks k r t h (passes-IsStartable r v)
