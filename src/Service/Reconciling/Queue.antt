-- ===== src/Service/Reconciling/Queue.antt =====
-- `consume_reconcile_once` of hollysys_controller/service.py: the next run of the queue is claimed,
-- reconciled, and given back. `now` is the time of the claim, `later` that of the end, `duration` the
-- milliseconds between them as a text, and `lease_seconds` is
-- `max(60, self.config.command_timeout_seconds * 3)`. `meantime` is what other connections write to the
-- queue while a lease ends.
pub mod Held
pub mod Released
use hermes_agents_by_kanban.Prelude.{ℕ, String, Bool, true, false, Option, none, some}
use Prim.Native.String.{◌++◌ as then_text}
use hermes_agents_by_kanban.Exec.{
  Result, ok, err, Exec, pure, raise, get_state, modify, ◌>>=◌, ◌>>◌,
}
use hermes_agents_by_kanban.Store.Runs.{RunStore}
use hermes_agents_by_kanban.Store.Reconcile.{
  Intent, ReconcileStore, ReconcileError, ReconcileExec, claim_reconcile, update_reconcile_step,
  finish_reconcile,
}
use hermes_agents_by_kanban.Service.Dependencies.{Settings, Notices}
use hermes_agents_by_kanban.Service.Reconciling.{
  Interruption, PolicyError, Host, HostExec, Failures, reconcile_run_with_policy,
}

pub data ConsumeError : Type 0 where
  queue_error : ReconcileError → ConsumeError
  raised : PolicyError → ConsumeError

abbrev pub on_queue_result :
    {A : Type 0} → Host → Result ReconcileError A × ReconcileStore → Result ConsumeError A × Host
on_queue_result h (ok a, q) = (ok a, record h { queue = q })
on_queue_result h (err e, q) = (err (queue_error e), record h { queue = q })

-- A method of the store on the queue.
abbrev pub on_queue : {A : Type 0} → ReconcileExec A → HostExec ConsumeError A
on_queue m h = on_queue_result h (m h.queue)

abbrev pub raise_as : {A : Type 0} → Result PolicyError A × Host → Result ConsumeError A × Host
raise_as (ok a, h) = (ok a, h)
raise_as (err e, h) = (err (raised e), h)

unfoldable pub ended_well : ℕ → Host → Host
ended_well later h = record h {
  world = record h.world { last_reconcile_error = none };
  last_reconcile_at = some later;
}

unfoldable pub ended_badly : String → Host → Host
ended_badly text h = record h { world = record h.world { last_reconcile_error = some text } }

module _ (text_lt : String → String → Bool) (config : Settings) (notices : Notices)
    (failures : Failures) (consume_text : ConsumeError → String) (meanwhile : RunStore → RunStore)
    (meantime : ReconcileStore → ReconcileStore) (now later : ℕ) (duration : String)
    (lease_seconds : ℕ) (act : String → HostExec Interruption (Unit {0}))
    (owner fresh fresh_global : String) where
  -- The call of `_reconcile_run_with_policy`.
  abbrev pub reconcile : String → HostExec ConsumeError (Unit {0})
  reconcile run_key h = raise_as (
      reconcile_run_with_policy text_lt config notices failures meanwhile now act run_key fresh
        fresh_global h)

  -- The calls after it, where nothing was raised.
  abbrev pub give_back : Intent → HostExec ConsumeError (Unit {0})
  give_back i = do
    on_queue (
        update_reconcile_step later i.intent_id owner
          (then_text "completed:" (then_text duration "ms")) 60)
    on_queue (finish_reconcile meantime later i.intent_id owner none)
    modify (ended_well later)

  -- The body of the `try`.
  unfoldable pub consume_claimed : Intent → HostExec ConsumeError (Unit {0})
  consume_claimed i = do
    on_queue (update_reconcile_step now i.intent_id owner "recompute-kanban-gitlab" lease_seconds)
    reconcile i.run_key
    give_back i

  -- except Exception as exc: ... raise
  abbrev pub conclude_with :
      Intent → Result ConsumeError (Unit {0}) × Host → Result ConsumeError Bool × Host
  conclude_with i (ok done, h) = (ok true, h)
  conclude_with i (err e, h) =
      (do
        on_queue (finish_reconcile meantime later i.intent_id owner (some (consume_text e)))
        modify (ended_badly (consume_text e))
        raise e)
        h

  abbrev pub consume_found : Option Intent → HostExec ConsumeError Bool
  consume_found none h = (ok false, h)
  consume_found (some i) h = conclude_with i (consume_claimed i h)

  unfoldable pub consume_reconcile_once : HostExec ConsumeError Bool
  consume_reconcile_once = on_queue (claim_reconcile text_lt now owner lease_seconds) >>= λ claimed.
      consume_found claimed
