-- ===== src/Store/History/KeepsAborts.antt =====
-- Each method on abort_requests and merge_wait keeps what holds of the tables between two statements.
use hermes_agents_by_kanban.Prelude.{
  ℕ, ◌≡◌, inl, inr, String, true, false, not, ◌||◌, Option, arith, Option-cases, Bool-cases, eq_iff,
  ◌==◌, text_eq, is_sha_or_none,
}
use hermes_agents_by_kanban.Store.RunState.{
  RunState, is_abortable, is_abort_open, is_abort_ended, is_abort_requested,
  is_completed_before_abort,
}
use hermes_agents_by_kanban.Store.Runs.{RunStore, AbortRequest}
use hermes_agents_by_kanban.Store.RunControl.{run_control, put_control, ensure_run_control}
use hermes_agents_by_kanban.Store.RunControl.Startable.{RowInv-lookup}
use hermes_agents_by_kanban.Store.Abort.{
  Confirmation, NewAbort, is_filled, end_abort, abort_end_row, request_abort, request_abort_row,
  mark_aborting, aborting_row, finish_abort, create_abort_request, confirm_abort_request,
  add_request, write_request, confirm, confirms, is_some_sha,
}
use hermes_agents_by_kanban.Store.Abort.Cases.{Confirmed, create_cases, confirm_cases, finish_cases}
use hermes_agents_by_kanban.Store.Abort.Rows.{
  request_abort-RowInv, aborting-RowInv, abort_end-RowInv,
}
use hermes_agents_by_kanban.Store.Abort.Filled.{
  is_filled_row, latest_pending-filled, add_request-RequestsInv, confirm-RequestsInv,
}
use hermes_agents_by_kanban.Store.MergeWait.{Blocker, set_merge_wait, clear_merge_wait}
use hermes_agents_by_kanban.Store.History.Keeps.{
  RunsInv, put_control-RunsInv, ensure-RunsInv, update_if-RunsInv,
}

add_request-RunsInv :
    (now : ℕ) (a : NewAbort) (s : RunStore)
    → is_filled a ≡ true
    → RunsInv s
    → RunsInv (add_request now a s)
unfolding add_request run_control
add_request-RunsInv now a s f v = record {
  control = record { starts = v.control.starts; early = v.control.early };
  requests = add_request-RequestsInv now a s f v.requests;
}

pub create-RunsInv :
    (now : ℕ) (a : NewAbort) (s : RunStore)
    → is_filled a ≡ true
    → RunsInv s
    → RunsInv (create_abort_request now a s).1
create-RunsInv now a s f v = elim (create_cases now a s) [
  | inl e ↦ rw e (ensure-RunsInv now a.run_key s v)
  | inr e ↦ rw e (
      add_request-RunsInv now a (ensure_run_control now a.run_key s) f
        (ensure-RunsInv now a.run_key s v))
]

confirm_write-RunsInv :
    (now : ℕ) (c : Confirmation) (id : String) (s : RunStore)
    → RunsInv s
    → RunsInv (write_request id (confirm now c) s)
unfolding write_request run_control
confirm_write-RunsInv now c id s v = record {
  control = record { starts = v.control.starts; early = v.control.early };
  requests = confirm-RequestsInv now c id s v.requests;
}

-- The confirmation comes from the sender of the request, and so has one.
confirms_filled :
    (c : Confirmation) (r : AbortRequest)
    → confirms c r ≡ true
    → is_filled_row r ≡ true
    → ((c.sender == "") ≡ false) × ((r.reason == "") ≡ false)
unfolding confirms
confirms_filled c r h f =
    ground (arith, eq_iff r.sender c.sender, eq_iff c.sender "", eq_iff r.sender "")

Confirmed-RunsInv :
    (now : ℕ) (c : Confirmation) (s s' : RunStore) → RunsInv s → Confirmed now c s s' → RunsInv s'
unfolding request_abort
Confirmed-RunsInv now c s s' v d =
    let (sender, reason) =
      confirms_filled c d.request d.by
        (latest_pending-filled c.run_key s.abort_requests d.request v.requests.filled d.latest) in
    rw (d.stored) (
      update_if-RunsInv is_abortable (request_abort_row now c d.request) c.run_key
        (write_request d.request.request_id (confirm now c) s)
        (λ row from w. request_abort-RowInv now c d.request row from sender reason w)
        (confirm_write-RunsInv now c d.request.request_id s v))

pub confirm-RunsInv :
    (now : ℕ) (c : Confirmation) (s : RunStore)
    → RunsInv s
    → RunsInv (confirm_abort_request now c s).1
confirm-RunsInv now c s v = elim (confirm_cases now c s) [
  | inl e ↦ rw e v
  | inr d ↦ Confirmed-RunsInv now c s _ v d
]

pub aborting-RunsInv :
    (now : ℕ) (k : String) (s : RunStore) → RunsInv s → RunsInv (mark_aborting now k s)
unfolding mark_aborting
aborting-RunsInv now k s v =
    update_if-RunsInv is_abort_requested (aborting_row now) k s (aborting-RowInv now) v

pub clear_wait-RunsInv : (k : String) (s : RunStore) → RunsInv s → RunsInv (clear_merge_wait k s)
unfolding clear_merge_wait run_control
clear_wait-RunsInv k s v = record {
  control = record { starts = v.control.starts; early = v.control.early };
  requests = record { filled = v.requests.filled; one_pending = v.requests.one_pending };
}

pub set_wait-RunsInv :
    (now : ℕ) (k : String) (b : Blocker) (s : RunStore)
    → RunsInv s
    → RunsInv (set_merge_wait now k b s).1
unfolding set_merge_wait run_control
set_wait-RunsInv now k b s v = record {
  control = record { starts = v.control.starts; early = v.control.early };
  requests = record { filled = v.requests.filled; one_pending = v.requests.one_pending };
}

end_abort-RunsInv :
    (now : ℕ) (k : String) (state : RunState) (head merge : Option String) (s : RunStore)
    → is_abort_ended state ≡ true
    → (not (is_completed_before_abort state) || is_some_sha head) ≡ true
    → is_sha_or_none merge ≡ true
    → RunsInv s
    → RunsInv (end_abort now k state head merge (run_control k s) s)
unfolding clear_merge_wait
end_abort-RunsInv now k state head merge s to h m v = elim (Option-cases (run_control k s)) [
  | inl e ↦ rw (e, end_abort) v
  | inr (row, e) ↦ elim (Bool-cases (is_abort_open row.state)) [
    | inl p ↦
        rw (e, p)
          (clear_wait-RunsInv k (put_control k (abort_end_row now state head merge row) s) (
            put_control-RunsInv k (abort_end_row now state head merge row) s v (
              abort_end-RowInv now state head merge row to h m p
                (RowInv-lookup s k row v.control e))))
    | inr p ↦ rw (e, p) v
  ]
]

pub finish-RunsInv :
    (now : ℕ) (k : String) (state : RunState) (head merge : Option String) (s : RunStore)
    → RunsInv s
    → RunsInv (finish_abort now k state head merge s).1
finish-RunsInv now k state head merge s v = elim (finish_cases now k state head merge s) [
  | inl e ↦ rw e v
  | inr (e, to, h, m) ↦ rw e (end_abort-RunsInv now k state head merge s to h m v)
]
