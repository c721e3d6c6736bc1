-- ===== src/Store/History/Advance.antt =====
-- Whatever the methods do, a run keeps its row, and the row only advances.
use hermes_agents_by_kanban.Store.Runs.{RunStore}
use hermes_agents_by_kanban.Store.RunControl.Concurrency.{Advances, Advances-refl, Advances-trans}
use hermes_agents_by_kanban.Store.History.{
  Steps, here, ensured, transitioned, completing, flow_completing, excepting, abort_created,
  abort_confirmed, aborting_marked, abort_finished, wait_set, wait_cleared,
}
use hermes_agents_by_kanban.Store.History.Control.{
  ensure-Advances, transition-Advances, completed-Advances, flow_completed-Advances,
  exception-Advances,
}
use hermes_agents_by_kanban.Store.History.Aborts.{
  create-Advances, confirm-Advances, aborting-Advances, finish-Advances, set_wait-Advances,
  clear_wait-Advances,
}

-- In every history, with the writes of other connections in between: a run that was there is still
-- there, and its row is the same one, or has a later version over a row that had not ended. So a run
-- that has ended never changes again.
pub Steps-Advances : {s u : RunStore} → Steps s u → Advances s u
Steps-Advances {s} here = Advances-refl s
Steps-Advances (ensured {t = t} now k h) =
    Advances-trans (Steps-Advances h) (ensure-Advances now k t)
Steps-Advances (transitioned {t = t} meanwhile now k expected x interim h between) =
    Advances-trans (Steps-Advances h)
      (transition-Advances meanwhile now k t (Steps-Advances between) expected x interim.from_live)
Steps-Advances
      (completing {t = t} meanwhile now k external compliance head merge reason _ h between) =
    Advances-trans (Steps-Advances h) (
      completed-Advances meanwhile now k t (Steps-Advances between) external compliance head merge
        reason)
Steps-Advances (flow_completing {t = t} meanwhile now k state head reason h between) =
    Advances-trans (Steps-Advances h)
      (flow_completed-Advances meanwhile now k t (Steps-Advances between) state head reason)
Steps-Advances (excepting {t = t} meanwhile now k reason h between) =
    Advances-trans (Steps-Advances h)
      (exception-Advances meanwhile now k t (Steps-Advances between) reason)
Steps-Advances (abort_created {t = t} now a _ h) =
    Advances-trans (Steps-Advances h) (create-Advances now a t)
Steps-Advances (abort_confirmed {t = t} now c h) =
    Advances-trans (Steps-Advances h) (confirm-Advances now c t)
Steps-Advances (aborting_marked {t = t} now k h) =
    Advances-trans (Steps-Advances h) (aborting-Advances now k t)
Steps-Advances (abort_finished {t = t} now k state head merge h) =
    Advances-trans (Steps-Advances h) (finish-Advances now k state head merge t)
Steps-Advances (wait_set {t = t} now k b h) =
    Advances-trans (Steps-Advances h) (set_wait-Advances now k b t)
Steps-Advances (wait_cleared {t = t} k h) =
    Advances-trans (Steps-Advances h) (clear_wait-Advances k t)
