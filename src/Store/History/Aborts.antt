-- ===== src/Store/History/Aborts.antt =====
-- Each method on abort_requests and merge_wait lets runs advance.
use hermes_agents_by_kanban.Prelude.{
  ℕ, refl, inl, inr, String, Option, arith, Option-cases, Bool-cases,
}
use hermes_agents_by_kanban.Store.RunState.{
  RunState, is_abortable, is_abort_open, is_abort_requested,
}
use hermes_agents_by_kanban.Store.Runs.{RunStore, AbortRequest}
use hermes_agents_by_kanban.Store.RunControl.{run_control, ensure_run_control}
use hermes_agents_by_kanban.Store.RunControl.Concurrency.{
  Advances, Advances-refl, Advances-trans, put_control-Advances,
}
use hermes_agents_by_kanban.Store.Abort.{
  NewAbort, Confirmation, confirm, request_abort, mark_aborting, aborting_row, end_abort,
  abort_end_row, request_abort_row, create_abort_request, confirm_abort_request, finish_abort,
  write_request, add_request,
}
use hermes_agents_by_kanban.Store.Abort.Cases.{create_cases, confirm_cases, finish_cases}
use hermes_agents_by_kanban.Store.MergeWait.{Blocker, set_merge_wait, clear_merge_wait}
use hermes_agents_by_kanban.Store.History.Control.{
  same_control-Advances, ensure-Advances, update_if-Advances, abortable_live, requested_live,
  open_live,
}

pub add_request-Advances :
    (now : ℕ) (a : NewAbort) (s : RunStore) → Advances s (add_request now a s)
unfolding add_request
add_request-Advances now a s = same_control-Advances s (add_request now a s) refl

pub write_request-Advances :
    (id : String) (f : AbortRequest → AbortRequest) (s : RunStore)
    → Advances s (write_request id f s)
unfolding write_request
write_request-Advances id f s = same_control-Advances s (write_request id f s) refl

pub create-Advances :
    (now : ℕ) (a : NewAbort) (s : RunStore) → Advances s (create_abort_request now a s).1
create-Advances now a s = elim (create_cases now a s) [
  | inl e ↦ rw e (ensure-Advances now a.run_key s)
  | inr e ↦ rw e (
      Advances-trans (ensure-Advances now a.run_key s)
        (add_request-Advances now a (ensure_run_control now a.run_key s)))
]

pub request_abort-Advances :
    (now : ℕ) (c : Confirmation) (r : AbortRequest) (s : RunStore)
    → Advances s (request_abort now c r s)
unfolding request_abort
request_abort-Advances now c r s =
    update_if-Advances is_abortable (request_abort_row now c r) c.run_key s abortable_live
      (λ row. refl)

pub confirm-Advances :
    (now : ℕ) (c : Confirmation) (s : RunStore) → Advances s (confirm_abort_request now c s).1
confirm-Advances now c s = elim (confirm_cases now c s) [
  | inl e ↦ rw e (Advances-refl s)
  | inr d ↦ rw (d.stored) (
      Advances-trans (write_request-Advances d.request.request_id (confirm now c) s) (
        request_abort-Advances now c d.request
          (write_request d.request.request_id (confirm now c) s)))
]

pub aborting-Advances : (now : ℕ) (k : String) (s : RunStore) → Advances s (mark_aborting now k s)
unfolding mark_aborting
aborting-Advances now k s =
    update_if-Advances is_abort_requested (aborting_row now) k s requested_live (λ row. refl)

pub end_abort-Advances :
    (now : ℕ) (k : String) (state : RunState) (head merge : Option String) (s : RunStore)
    → Advances s (end_abort now k state head merge (run_control k s) s)
end_abort-Advances now k state head merge s = elim (Option-cases (run_control k s)) [
  | inl e ↦ rw (e, end_abort) (Advances-refl s)
  | inr (row, e) ↦ elim (Bool-cases (is_abort_open row.state)) [
    | inl p ↦
        rw (e, p)
          (Advances-trans
            (put_control-Advances k row (abort_end_row now state head merge row) s e (omega arith)
              (open_live row.state p))
            (same_control-Advances _ _ refl))
    | inr p ↦ rw (e, p) (Advances-refl s)
  ]
]

pub finish-Advances :
    (now : ℕ) (k : String) (state : RunState) (head merge : Option String) (s : RunStore)
    → Advances s (finish_abort now k state head merge s).1
finish-Advances now k state head merge s = elim (finish_cases now k state head merge s) [
  | inl e ↦ rw e (Advances-refl s)
  | inr (e, _, _, _) ↦ rw e (end_abort-Advances now k state head merge s)
]

pub set_wait-Advances :
    (now : ℕ) (k : String) (b : Blocker) (s : RunStore) → Advances s (set_merge_wait now k b s).1
unfolding set_merge_wait
set_wait-Advances now k b s = same_control-Advances s (set_merge_wait now k b s).1 refl

pub clear_wait-Advances : (k : String) (s : RunStore) → Advances s (clear_merge_wait k s)
unfolding clear_merge_wait
clear_wait-Advances k s = same_control-Advances s (clear_merge_wait k s) refl
