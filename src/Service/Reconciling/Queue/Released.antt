-- ===== src/Service/Reconciling/Queue/Released.antt =====
-- A run that is taken from the queue is given back (hollysys_controller/service.py).
use hermes_agents_by_kanban.Prelude.{
  ℕ, ◌≡◌, refl, subst, ◌⊎◌, inl, inr, String, Bool, true, none, some, ◌∷◌, contains, Bool-cases,
}
use Prim.Native.String.{◌++◌ as then_text}
use hermes_agents_by_kanban.Exec.{Result, ok, err}
use hermes_agents_by_kanban.Store.Runs.{RunStore}
use hermes_agents_by_kanban.Store.RunControl.Cases.{Result-cases}
use hermes_agents_by_kanban.Store.Reconcile.{
  Intent, ReconcileStore, ReconcileError, claim_reconcile, update_reconcile_step, finish_reconcile,
}
use hermes_agents_by_kanban.Service.Dependencies.{Settings, Notices, dependency_retry_blocked}
use hermes_agents_by_kanban.Service.Reconciling.{
  Interruption, superseded, failed, Host, HostExec, Failures, finally_released, reconcile_run,
  reconcile_and_recover, reconcile_run_with_policy,
}
use hermes_agents_by_kanban.Service.Reconciling.Kept.{Kept, handle_failure-Kept, continued-Kept}
use hermes_agents_by_kanban.Service.Reconciling.Queue.{
  ConsumeError, raised, on_queue_result, ended_well, ended_badly, consume_claimed, give_back,
  conclude_with, consume_reconcile_once,
}
use hermes_agents_by_kanban.Service.Reconciling.Queue.Held.{
  Holds, Keeps, Released, step-Holds, finish-Released, claim-Holds,
}

on_queue_result-ok :
    {A : Type 0} (h : Host) (p : Result ReconcileError A × ReconcileStore) (a : A)
    → p.0 ≡ ok a
    → on_queue_result h p ≡ (ok a, record h { queue = p.1 })
on_queue_result-ok h (r, q) a e = rw e refl

-- The run of the intent was reconciled, or an error is raised; its lease has ended in each case.
pub Concluded : (ConsumeError → String) → String → Result ConsumeError Bool → Host → Type 0
Concluded consume_text id r h =
    ((r ≡ ok true) × Released id none h.queue)
    ⊎ ((e : ConsumeError) × (r ≡ err e) × Released id (some (consume_text e)) h.queue)

module _ (text_lt : String → String → Bool) (config : Settings) (notices : Notices)
    (failures : Failures) (consume_text : ConsumeError → String) (meanwhile : RunStore → RunStore)
    (meantime : ReconcileStore → ReconcileStore) (now later : ℕ) (duration : String)
    (lease_seconds : ℕ) (act : String → HostExec Interruption (Unit {0}))
    (owner fresh fresh_global : String) where
  module _
      (keeps : (k id : String) (h : Host)
        → Holds owner id h.queue
        → Holds owner id (act k h).1.queue)
      (stays : Keeps meantime) where
    finally-Holds :
        (k id : String) (p : Result Interruption (Unit {0}) × Host)
        → Holds owner id p.1.queue
        → Holds owner id
            (finally_released text_lt config notices failures meanwhile now act k p).1.queue
    finally-Holds k id (ok done, h) held = held
    finally-Holds k id (err superseded, h) held = held
    finally-Holds k id (err (failed e), h) held = held

    Kept-Holds :
        (id : String) (h h' : Host) → Kept h h' → Holds owner id h.queue → Holds owner id h'.queue
    Kept-Holds id h h' kept held = rw kept.same_queue held

    body-Holds :
        (k id : String) (h : Host)
        → Holds owner id h.queue
        → Holds owner id
            (reconcile_and_recover text_lt config notices failures meanwhile now act k h).1.queue
    unfolding reconcile_run
    body-Holds k id h held = elim (Bool-cases (contains h.reconciling_runs k)) [
      | inl busy ↦ rw busy held
      | inr free ↦
          let begun = record h { reconciling_runs = k ∷ h.reconciling_runs } in
          let ended =
            finally_released text_lt config notices failures meanwhile now act k (act k begun) in
          rw free (
            Kept-Holds id ended.1 _
              (continued-Kept text_lt config notices failures meanwhile now act k fresh fresh_global
                ended)
              (finally-Holds k id (act k begun) (keeps k id begun held)))
    ]

    policy-Holds :
        (k id : String) (h : Host)
        → Holds owner id h.queue
        → Holds owner id
            (reconcile_run_with_policy text_lt config notices failures meanwhile now act k fresh
              fresh_global h).1.queue
    unfolding reconcile_run_with_policy
    policy-Holds k id h held = elim (Bool-cases (dependency_retry_blocked now "gitlab" h.world)) [
      | inl b ↦ rw b held
      | inr b ↦
          let (r, after) =
            reconcile_and_recover text_lt config notices failures meanwhile now act k h in
          rw b (
            Kept-Holds id after _
              (handle_failure-Kept text_lt config notices failures meanwhile now act k fresh
                fresh_global r after)
              (body-Holds k id h held))
    ]

    -- The body of the `try` ends well and the lease has ended, or it raises and the lease is held.
    ClaimEnd : String → Result ConsumeError (Unit {0}) × Host → Type 0
    ClaimEnd id (r, h) =
        ((r ≡ ok tt) × Released id none h.queue)
        ⊎ ((e : ConsumeError) × (r ≡ err e) × Holds owner id h.queue)

    give_back-ClaimEnd :
        (i : Intent) (h : Host)
        → Holds owner i.intent_id h.queue
        → ClaimEnd i.intent_id (
            give_back text_lt config notices failures consume_text meanwhile meantime now later
              duration lease_seconds act owner fresh fresh_global i h)
    unfolding ClaimEnd ended_well
    give_back-ClaimEnd i h held =
        let step : String = then_text "completed:" (then_text duration "ms") in
        let stepped = update_reconcile_step later i.intent_id owner step 60 h.queue in
        let (done, held') = step-Holds later owner i.intent_id step 60 h.queue held in
        let (ended, free) =
          finish-Released meantime stays later owner i.intent_id none stepped.1 held' in
        rw
          (
            on_queue_result-ok h stepped tt done,
            on_queue_result-ok (record h { queue = stepped.1 })
                (finish_reconcile meantime later i.intent_id owner none stepped.1) tt ended,
          )
          (inl (refl, free))

    claimed-ClaimEnd :
        (i : Intent) (h : Host)
        → Holds owner i.intent_id h.queue
        → ClaimEnd i.intent_id (
            consume_claimed text_lt config notices failures consume_text meanwhile meantime now
              later duration lease_seconds act owner fresh fresh_global i h)
    unfolding consume_claimed ClaimEnd
    claimed-ClaimEnd i h held =
        let step : String = "recompute-kanban-gitlab" in
        let stepped = update_reconcile_step now i.intent_id owner step lease_seconds h.queue in
        let (done, held') = step-Holds now owner i.intent_id step lease_seconds h.queue held in
        let h' = record h { queue = stepped.1 } in
        let p =
          reconcile_run_with_policy text_lt config notices failures meanwhile now act i.run_key
            fresh fresh_global h' in
        let kept = policy-Holds i.run_key i.intent_id h' held' in
        rw (on_queue_result-ok h stepped tt done) (elim (Result-cases p) [
          | inl (u, s, e) ↦
              let held2 = subst (λ x. Holds owner i.intent_id x.1.queue) e kept in
              rw e (give_back-ClaimEnd i s held2)
          | inr (x, s, e) ↦
              let held2 = subst (λ x. Holds owner i.intent_id x.1.queue) e kept in
              rw e (inr (raised x, refl, held2))
        ])

    concluded :
        (i : Intent) (p : Result ConsumeError (Unit {0}) × Host)
        → ClaimEnd i.intent_id p
        → (let after =
              conclude_with text_lt config notices failures consume_text meanwhile meantime now
                later duration lease_seconds act owner fresh fresh_global i p in
            Concluded consume_text i.intent_id after.0 after.1)
    unfolding ClaimEnd Concluded ended_badly
    concluded i (ok done, h) (inl (e, free)) = inl (refl, free)
    concluded i (ok done, h) (inr (e, q, held)) = cc
    concluded i (err x, h) (inl (e, free)) = cc
    concluded i (err x, h) (inr (e, q, held)) =
        let error = some (consume_text x) in
        let (ended, free) =
          finish-Released meantime stays later owner i.intent_id error h.queue held in
        rw
          (on_queue_result-ok h (finish_reconcile meantime later i.intent_id owner error h.queue) tt
            ended)
          (inr (x, refl, free))

    -- Whatever other connections write to the table of runs, and to the queue while the lease ends,
    -- short of deleting an intent: where no reconciliation takes a lease away from its owner, the run
    -- of an intent that the owner claims is reconciled, or an error is raised, and its lease ends in
    -- each case. The intent is pending again or done, and done after an
    -- error only if the text of the error is empty.
    pub consume_reconcile_once-Concluded :
        (i : Intent) (h : Host)
        → (claim_reconcile text_lt now owner lease_seconds h.queue).0 ≡ ok (some i)
        → (let after =
              consume_reconcile_once text_lt config notices failures consume_text meanwhile meantime
                now later duration lease_seconds act owner fresh fresh_global h in
            Concluded consume_text i.intent_id after.0 after.1)
    unfolding consume_reconcile_once
    consume_reconcile_once-Concluded i h e =
        let claimed = claim_reconcile text_lt now owner lease_seconds h.queue in
        let h' = record h { queue = claimed.1 } in
        let held = claim-Holds text_lt now owner lease_seconds h.queue i e in
        rw (on_queue_result-ok h claimed (some i) e) (
          concluded i
            (consume_claimed text_lt config notices failures consume_text meanwhile meantime now
              later duration lease_seconds act owner fresh fresh_global i h')
            (claimed-ClaimEnd i h' held))
