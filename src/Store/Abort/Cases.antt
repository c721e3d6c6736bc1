-- ===== src/Store/Abort/Cases.antt =====
-- How the abort methods of hollysys_controller/store.py change the store.
use hermes_agents_by_kanban.Prelude.{
  ℕ, ◌≡◌, ◌⊎◌, inl, inr, String, true, not, ◌||◌, Option, some, arith, Option-cases, Bool-cases,
  is_sha_or_none, ltb,
}
use hermes_agents_by_kanban.Store.RunState.{RunState, is_abort_ended, is_completed_before_abort}
use hermes_agents_by_kanban.Store.Runs.{RunStore, AbortRequest}
use hermes_agents_by_kanban.Store.RunControl.{run_control, ensure_run_control}
use hermes_agents_by_kanban.Store.Abort.{
  NewAbort, Confirmation, add_request, create_abort_request, latest_pending, confirms,
  write_request, request_abort, confirm, confirm_abort_request, finish_abort, end_abort,
  is_some_sha,
}

pub create_cases :
    (now : ℕ) (a : NewAbort) (s : RunStore)
    → ((create_abort_request now a s).1 ≡ ensure_run_control now a.run_key s)
      ⊎ ((create_abort_request now a s).1 ≡ add_request now a (ensure_run_control now a.run_key s))
unfolding create_abort_request
create_cases now a s = ground arith

-- The confirmed request.
pub record Confirmed (now : ℕ) (c : Confirmation) (s s' : RunStore) : Type 0 where
  pub request : AbortRequest
  pub latest : latest_pending c.run_key s.abort_requests ≡ some request
  pub by : confirms c request ≡ true
  pub stored : s' ≡ request_abort now c request (write_request request.request_id (confirm now c) s)

pub confirm_cases :
    (now : ℕ) (c : Confirmation) (s : RunStore)
    → ((confirm_abort_request now c s).1 ≡ s) ⊎ Confirmed now c s (confirm_abort_request now c s).1
unfolding confirm_abort_request
confirm_cases now c s = elim (Option-cases (latest_pending c.run_key s.abort_requests)) [
  | inl e ↦ inl (ground arith)
  | inr (r, e) ↦ elim (Bool-cases (confirms c r)) [
    | inl y ↦ elim (Bool-cases (ltb r.expires_at now)) [
      | inl late ↦ inl (ground arith)
      | inr live ↦ inr (record { request = r; latest = e; by = y; stored = ground arith })
    ]
    | inr n ↦ inl (ground arith)
  ]
]

pub finish_cases :
    (now : ℕ) (k : String) (state : RunState) (head merge : Option String) (s : RunStore)
    → ((finish_abort now k state head merge s).1 ≡ s)
      ⊎ (((finish_abort now k state head merge s).1
            ≡ end_abort now k state head merge (run_control k s) s)
          × (is_abort_ended state ≡ true)
          × ((not (is_completed_before_abort state) || is_some_sha head) ≡ true)
          × (is_sha_or_none merge ≡ true))
unfolding finish_abort
finish_cases now k state head merge s = ground arith
