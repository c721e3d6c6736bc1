-- ===== src/Store/Abort/Requests.antt =====
-- Abort requests: one pending at most for a run, and what a confirmation does with it.
use hermes_agents_by_kanban.Prelude.{
  ℕ, ◌+◌, ◌≤◌, ◌<◌, ◌≡◌, String, false, some, List, [], ◌∷◌, ◌++◌, map, arith, text_eq, ◌==◌,
  eq_iff, if◌then◌else◌,
}
use hermes_agents_by_kanban.Exec.{err}
use hermes_agents_by_kanban.Store.Runs.{RunStore, AbortRequest, abort_token_expired, abort_mismatch}
use hermes_agents_by_kanban.Store.Abort.{
  Confirmation, pends_for, expire_request, latest_pending, confirms, set_request,
  confirm_abort_request,
}

-- How many requests of the run are pending.
unfoldable pub pending_count : String → List AbortRequest → ℕ
pending_count k [] = 0
pending_count k (r ∷ rs) = if pends_for k r then pending_count k rs + 1 else pending_count k rs

-- A confirmation after the expiry time of the latest pending request raises, and leaves the store as
-- it was: that request is still pending.
pub confirm_expired :
    (now : ℕ) (c : Confirmation) (s : RunStore) (r : AbortRequest)
    → latest_pending c.run_key s.abort_requests ≡ some r
    → r.expires_at < now
    → confirm_abort_request now c s ≡ (err abort_token_expired, s)
unfolding confirm_abort_request
confirm_expired now c s r e late = ground arith

pub confirm_mismatch :
    (now : ℕ) (c : Confirmation) (s : RunStore) (r : AbortRequest)
    → latest_pending c.run_key s.abort_requests ≡ some r
    → now ≤ r.expires_at
    → confirms c r ≡ false
    → confirm_abort_request now c s ≡ (err abort_mismatch, s)
unfolding confirm_abort_request
confirm_mismatch now c s r e live m = ground arith

pub pending_count-append :
    (k : String) (rs : List AbortRequest) (q : AbortRequest)
    → pending_count k (rs ++ q ∷ []) ≡ pending_count k rs + pending_count k (q ∷ [])
unfolding pending_count
pending_count-append k [] q = omega arith
pending_count-append k (r ∷ rs) q = ground (arith, pending_count-append k rs q)

pub pending_count-expire :
    (now : ℕ) (k j : String) (rs : List AbortRequest)
    → pending_count k (map (expire_request now j) rs) ≡ (if j == k then 0 else pending_count k rs)
unfolding pending_count expire_request pends_for
pending_count-expire now k j [] = ground arith
pending_count-expire now k j (r ∷ rs) =
    ground
      (arith, pending_count-expire now k j rs, eq_iff j k, eq_iff r.run_key j, eq_iff r.run_key k)

pub pending_count-set_request :
    (k id : String) (f : AbortRequest → AbortRequest) (rs : List AbortRequest)
    → ((r : AbortRequest) → pends_for k (f r) ≡ false)
    → pending_count k (map (set_request id f) rs) ≤ pending_count k rs
unfolding pending_count set_request
pending_count-set_request k id f [] h = ground arith
pending_count-set_request k id f (r ∷ rs) h =
    ground (arith, pending_count-set_request k id f rs h, h r)
