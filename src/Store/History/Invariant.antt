-- ===== src/Store/History/Invariant.antt =====
-- What holds of the tables in every history of the controller.
use hermes_agents_by_kanban.Store.Runs.{RunStore}
use hermes_agents_by_kanban.Store.History.{
  Steps, here, ensured, transitioned, completing, flow_completing, excepting, abort_created,
  abort_confirmed, aborting_marked, abort_finished, wait_set, wait_cleared,
}
use hermes_agents_by_kanban.Store.History.Advance.{Steps-Advances}
use hermes_agents_by_kanban.Store.History.Keeps.{
  RunsInv, ensure-RunsInv, interim-RunsInv, completed-RunsInv, flow_completed-RunsInv,
  exception-RunsInv,
}
use hermes_agents_by_kanban.Store.History.KeepsAborts.{
  create-RunsInv, confirm-RunsInv, aborting-RunsInv, finish-RunsInv, set_wait-RunsInv,
  clear_wait-RunsInv,
}

-- In every history, with the writes of other connections in between: from tables that the next start
-- accepts, where only ended runs have a merge commit, every abort request has a sender and a reason
-- and a run has one pending request at most, the methods lead only to such tables.
pub Steps-RunsInv : {s u : RunStore} → RunsInv s → Steps s u → RunsInv u
Steps-RunsInv v here = v
Steps-RunsInv v (ensured {t = t} now k h) = ensure-RunsInv now k t (Steps-RunsInv v h)
Steps-RunsInv v (transitioned {t = t} meanwhile now k expected x interim h between) =
    let w = Steps-RunsInv v h in
    interim-RunsInv meanwhile now k t (Steps-Advances between) w (Steps-RunsInv w between) expected
      x interim
Steps-RunsInv v
      (completing {t = t} meanwhile now k external compliance head merge reason c h between) =
    let w = Steps-RunsInv v h in
    completed-RunsInv meanwhile now k t (Steps-Advances between) w (Steps-RunsInv w between)
      external compliance head merge reason c
Steps-RunsInv v (flow_completing {t = t} meanwhile now k state head reason h between) =
    let w = Steps-RunsInv v h in
    flow_completed-RunsInv meanwhile now k t (Steps-Advances between) w (Steps-RunsInv w between)
      state head reason
Steps-RunsInv v (excepting {t = t} meanwhile now k reason h between) =
    let w = Steps-RunsInv v h in
    exception-RunsInv meanwhile now k t (Steps-Advances between) w (Steps-RunsInv w between) reason
Steps-RunsInv v (abort_created {t = t} now a f h) = create-RunsInv now a t f (Steps-RunsInv v h)
Steps-RunsInv v (abort_confirmed {t = t} now c h) = confirm-RunsInv now c t (Steps-RunsInv v h)
Steps-RunsInv v (aborting_marked {t = t} now k h) = aborting-RunsInv now k t (Steps-RunsInv v h)
Steps-RunsInv v (abort_finished {t = t} now k state head merge h) =
    finish-RunsInv now k state head merge t (Steps-RunsInv v h)
Steps-RunsInv v (wait_set {t = t} now k b h) = set_wait-RunsInv now k b t (Steps-RunsInv v h)
Steps-RunsInv v (wait_cleared {t = t} k h) = clear_wait-RunsInv k t (Steps-RunsInv v h)
