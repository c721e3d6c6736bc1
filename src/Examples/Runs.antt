-- ===== src/Examples/Runs.antt =====
-- The histories of a run and the writes of two connections (hollysys_controller/store.py).
use hermes_agents_by_kanban.Prelude.{
  ◌≡◌, ◌↔◌, refl, String, true, false, Option, none, some, [], ◌∷◌, arith, text_eq, clip,
}
use hermes_agents_by_kanban.Table.{lookup, put, any_row}
use hermes_agents_by_kanban.Exec.{err}
use hermes_agents_by_kanban.Store.RunState.{merge_wait, is_unfinished}
use hermes_agents_by_kanban.Store.Runs.{
  RunControl, RunStore, AbortRequest, pending, abort_token_expired, MergeWait,
}
use hermes_agents_by_kanban.Store.Startup.{startup_failure, first_failed, invariant_checks}
use hermes_agents_by_kanban.Store.RunControl.{
  run_control, put_control, ensure_run_control, Transition, transition_run, transition_row,
  update_version, mark_completed, new_row,
}
use hermes_agents_by_kanban.Store.RunControl.Concurrency.{
  Advances, Advances-refl, Applied, transition_run-Applied,
}
use hermes_agents_by_kanban.Store.Abort.{Confirmation, confirm_abort_request, latest_pending}
use hermes_agents_by_kanban.Store.Abort.Filled.{all_filled}
use hermes_agents_by_kanban.Store.Abort.Requests.{pending_count, confirm_expired}
use hermes_agents_by_kanban.Store.MergeWait.{
  Blocker, set_merge_wait, wait_row, report_all, report_all_since, set_merge_wait_changed,
}
use hermes_agents_by_kanban.Store
use hermes_agents_by_kanban.Store.History.{Steps, here, ensured, completing}
use hermes_agents_by_kanban.Store.History.Keeps.{RunsInv}
use hermes_agents_by_kanban.Store.History.Invariant.{Steps-RunsInv}
use hermes_agents_by_kanban.Store.History.Advance.{Steps-Advances}

abbrev empty_store : RunStore
empty_store = record { run_control = []; abort_requests = []; merge_wait = [] }

abbrev head : String
head = "0123456789abcdef0123456789abcdef01234567"

abbrev started : RunStore
started = ensure_run_control 10 "run" empty_store

abbrev quiet : RunStore → RunStore
quiet s = s

-- The run is completed, and then again: the second call finds it ended.
abbrev completed_store : RunStore
completed_store = (mark_completed quiet 20 "run" false "verified" head none "merged" started).1

completed_twice : RunStore
completed_twice =
    (mark_completed quiet 30 "run" true "unverified" head none "again" completed_store).1

empty_store-RunsInv : RunsInv empty_store
unfolding all_filled pending_count run_control startup_failure first_failed invariant_checks any_row
    lookup
empty_store-RunsInv = record {
  control = record { starts = refl; early = λ k row e live. ground arith };
  requests = record { filled = refl; one_pending = λ k. omega arith };
}

run_history : Steps started completed_twice
unfolding completed_twice
run_history =
    completing quiet 30 "run" true "unverified" head none "again" refl
      (completing quiet 20 "run" false "verified" head none "merged" refl here here) here

whole_history : Steps empty_store completed_twice
unfolding completed_twice
whole_history =
    completing quiet 30 "run" true "unverified" head none "again" refl
      (completing quiet 20 "run" false "verified" head none "merged" refl (ensured 10 "run" here)
        here)
      here

Steps-RunsInv_example : RunsInv completed_twice
Steps-RunsInv_example = Steps-RunsInv empty_store-RunsInv whole_history

Steps-Advances_example : Advances started completed_twice
Steps-Advances_example = Steps-Advances run_history

abbrev wait_for_merge : Transition
wait_for_merge = record {
  new_state = merge_wait;
  reason = "pipeline_running";
  expected_version = some 1;
  next_retry_at = some 80;
  compliance = none;
  completion_source = none;
  checked_head = none;
  merge_commit_sha = none;
}

abbrev waiting : RunControl
waiting = transition_row 20 wait_for_merge (new_row 10)

transition_run-Applied_example :
    Applied quiet 20 "run" is_unfinished wait_for_merge started waiting
      (put_control "run" waiting started)
unfolding ensure_run_control run_control transition_run put_control lookup put update_version
transition_run-Applied_example =
    transition_run-Applied quiet 20 "run" is_unfinished wait_for_merge started
      (Advances-refl started) waiting (put_control "run" waiting started) refl

abbrev abort_request : AbortRequest
abort_request = record {
  request_id = "abort-1";
  run_key = "run";
  token_hash = "hash";
  sender = "ou_1";
  chat_id = "oc_1";
  thread_id = none;
  reason = "wrong branch";
  expires_at = 100;
  status = pending;
  confirm_message_id = none;
  created_at = 40;
  updated_at = 40;
}

abbrev abort_open : RunStore
abort_open = record empty_store { abort_requests = abort_request ∷ [] }

abbrev confirmation : Confirmation
confirmation = record {
  run_key = "run";
  token_hash = "hash";
  sender = "ou_1";
  chat_id = "oc_1";
  thread_id = none;
  message_id = "om_2";
}

confirm_expired_example :
    confirm_abort_request 101 confirmation abort_open ≡ (err abort_token_expired, abort_open)
unfolding latest_pending
confirm_expired_example =
    confirm_expired 101 confirmation abort_open abort_request refl (omega arith)

abbrev blocker : String → Blocker
blocker text = record {
  mr_iid = 7;
  head_sha = some head;
  blocker_kind = "pipeline";
  blocker = text;
  blocker_url = none;
  blocker_owner = none;
  blocker_updated_at = none;
  retry_seconds = 60;
}

abbrev reported : RunStore
reported = (set_merge_wait 50 "run" (blocker "pipeline is running") empty_store).1

abbrev first_report : MergeWait
first_report = wait_row 50 (blocker "pipeline is running") none

report_all_since_example :
    (w : MergeWait) × (Store.MergeWait.merge_wait "run" (
        report_all "run"
          ((60, blocker "pipeline failed") ∷ (70, blocker "pipeline is running") ∷ [])
          reported)
      ≡ some w)
    × (w.first_seen_at ≡ 50)
    × (w.head_sha ≡ some head)
    × (w.blocker_kind ≡ "pipeline")
unfolding Store.MergeWait.merge_wait set_merge_wait wait_row lookup put
report_all_since_example =
    report_all_since "run" (some head) "pipeline"
      ((60, blocker "pipeline failed") ∷ (70, blocker "pipeline is running") ∷ []) first_report
      reported refl refl refl (refl, refl, (refl, refl, tt))

set_merge_wait_changed_example :
    ((set_merge_wait 60 "run" (blocker "pipeline failed") reported).0.1 ≡ false) ↔ (
      Path (Option String) (some head) (some head)
      × Path String "pipeline" "pipeline"
      × Path String "pipeline is running" (clip 1000 "pipeline failed")
      × Path (Option String) none none
      × Path (Option String) none none
      × Path (Option String) none none)
unfolding Store.MergeWait.merge_wait set_merge_wait wait_row lookup put clip
set_merge_wait_changed_example =
    set_merge_wait_changed 60 "run" (blocker "pipeline failed") reported first_report refl
