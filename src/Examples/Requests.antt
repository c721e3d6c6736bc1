-- ===== src/Examples/Requests.antt =====
-- A command that is begun, bound to its run and finished (hollysys_controller/store.py, requests).
-- JSON values are texts here; `mark` and `unmark` are a `dumps` and its `loads`.
use hermes_agents_by_kanban.Prelude.{◌≡◌, refl, String, some, [], text_eq}
use hermes_agents_by_kanban.Table.{lookup}
use hermes_agents_by_kanban.Exec.{ok}
use hermes_agents_by_kanban.Examples.Codec.{mark, unmark, mark_filled, unmark-mark}
use hermes_agents_by_kanban.Store.Requests.Replay.{begin_request_once}
use hermes_agents_by_kanban.Store.Requests.{
  Requests, begin_request, bind_request_run, finish_request,
}
use hermes_agents_by_kanban.Store.Requests.Lifetime.{
  AllContinue, RequestSteps, here, begun, bound, finished, RequestSteps-AllContinue,
}

abbrev same_text : String → String
same_text t = t

abbrev begun_store : Requests
begun_store = (begin_request same_text same_text same_text 10 "start:1" "start" "{}" []).1

abbrev bound_store : Requests
bound_store = (bind_request_run 20 "start:1" "run" begun_store).1

-- Bound to another run, which raises, finished, and sent again.
abbrev later_store : Requests
later_store =
    (begin_request same_text same_text same_text 50 "start:1" "start" "{}" (
      finish_request same_text same_text same_text 40 "start:1" "started"
        (bind_request_run 30 "start:1" "other" bound_store).1)).1

later_history : RequestSteps same_text same_text same_text bound_store later_store
later_history =
    begun 50 "start:1" "start" "{}"
      (finished 40 "start:1" "started" (bound 30 "start:1" "other" here))

RequestSteps-AllContinue_example : AllContinue bound_store later_store
RequestSteps-AllContinue_example =
    RequestSteps-AllContinue same_text same_text same_text later_history

begin_request_once_example :
    let begun = (begin_request mark mark unmark 10 "start:1" "start" "{}" []).1 in
    let finished = finish_request mark mark unmark 20 "start:1" "started" begun in
    begin_request mark mark unmark 30 "start:1" "start" "{}" finished
    ≡ (ok (some "started"), finished)
unfolding begin_request lookup
begin_request_once_example =
    begin_request_once mark mark unmark unmark-mark mark_filled 10 20 30 "start:1" "start" "start"
      "{}" "started" [] refl
