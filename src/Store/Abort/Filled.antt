-- ===== src/Store/Abort/Filled.antt =====
-- Every abort request has a sender and a reason, and a run has one pending request at most.
use hermes_agents_by_kanban.Prelude.{
  ℕ, ◌≤◌, ◌≡◌, refl, ◌∙◌, inl, inr, String, Bool, true, false, not, ◌&&◌, some, List, [], ◌∷◌, ◌++◌,
  map, arith, text_eq, ◌==◌, Bool-cases, Option-cases,
}
use hermes_agents_by_kanban.Store.Runs.{RunStore, AbortRequest}
use hermes_agents_by_kanban.Store.Abort.{
  NewAbort, Confirmation, pends_for, expire_request, new_request, add_request, latest_pending,
  set_request, write_request, confirm, is_filled,
}
use hermes_agents_by_kanban.Store.Abort.Requests.{
  pending_count, pending_count-append, pending_count-expire, pending_count-set_request,
}

abbrev pub is_filled_row : AbortRequest → Bool
is_filled_row r = not (r.sender == "") && not (r.reason == "")

unfoldable pub all_filled : List AbortRequest → Bool
all_filled [] = true
all_filled (r ∷ rs) = is_filled_row r && all_filled rs

pub record RequestsInv (s : RunStore) : Type 0 where
  pub filled : all_filled s.abort_requests ≡ true
  pub one_pending : (k : String) → pending_count k s.abort_requests ≤ 1

all_filled-append :
    (rs : List AbortRequest) (q : AbortRequest)
    → all_filled rs ≡ true
    → is_filled_row q ≡ true
    → all_filled (rs ++ q ∷ []) ≡ true
unfolding all_filled
all_filled-append [] q h p = ground arith
all_filled-append (r ∷ rs) q h p = ground (arith, all_filled-append rs q)

all_filled-map :
    (f : AbortRequest → AbortRequest) (rs : List AbortRequest)
    → ((r : AbortRequest) → is_filled_row (f r) ≡ is_filled_row r)
    → all_filled (map f rs) ≡ all_filled rs
unfolding all_filled
all_filled-map f [] h = refl
all_filled-map f (r ∷ rs) h = ground (arith, all_filled-map f rs h, h r)

pub latest_pending-filled :
    (k : String) (rs : List AbortRequest) (r : AbortRequest)
    → all_filled rs ≡ true
    → latest_pending k rs ≡ some r
    → is_filled_row r ≡ true
unfolding all_filled latest_pending
latest_pending-filled k [] r h e = ground arith
latest_pending-filled k (q ∷ rs) r h e = elim (Option-cases (latest_pending k rs)) [
  | inl p ↦ ground (arith, p)
  | inr (r', p) ↦ ground (arith, p, latest_pending-filled k rs r')
]

expire-filled :
    (now : ℕ) (k : String) (r : AbortRequest)
    → is_filled_row (expire_request now k r) ≡ is_filled_row r
unfolding expire_request
expire-filled now k r = elim (Bool-cases (pends_for k r)) [ inl e ↦ rw e | inr e ↦ rw e ]

confirm-filled :
    (now : ℕ) (c : Confirmation) (id : String) (r : AbortRequest)
    → is_filled_row (set_request id (confirm now c) r) ≡ is_filled_row r
unfolding set_request
confirm-filled now c id r = elim (Bool-cases (r.request_id == id)) [ inl e ↦ rw e | inr e ↦ rw e ]

confirm_not_pending :
    (now : ℕ) (c : Confirmation) (k : String) (r : AbortRequest)
    → pends_for k (confirm now c r) ≡ false
unfolding pends_for
confirm_not_pending now c k r = ground arith

-- A new request is the only pending one of its run, whatever was pending before.
pub add_request-RequestsInv :
    (now : ℕ) (a : NewAbort) (s : RunStore)
    → is_filled a ≡ true
    → RequestsInv s
    → RequestsInv (add_request now a s)
unfolding add_request pending_count pends_for
add_request-RequestsInv now a s f v = record {
  filled =
      all_filled-append (map (expire_request now a.run_key) s.abort_requests) (new_request now a)
        (all_filled-map (expire_request now a.run_key) s.abort_requests
            (expire-filled now a.run_key)
          ∙ v.filled)
        f;
  one_pending = λ k. ground (
    arith,
    pending_count-append k (map (expire_request now a.run_key) s.abort_requests)
        (new_request now a),
    pending_count-expire now k a.run_key s.abort_requests,
    v.one_pending k,
  );
}

pub confirm-RequestsInv :
    (now : ℕ) (c : Confirmation) (id : String) (s : RunStore)
    → RequestsInv s
    → RequestsInv (write_request id (confirm now c) s)
unfolding write_request
confirm-RequestsInv now c id s v = record {
  filled =
      all_filled-map (set_request id (confirm now c)) s.abort_requests (confirm-filled now c id)
      ∙ v.filled;
  one_pending = λ k. omega (
    arith,
    v.one_pending k,
    pending_count-set_request k id (confirm now c) s.abort_requests (confirm_not_pending now c k),
  );
}
