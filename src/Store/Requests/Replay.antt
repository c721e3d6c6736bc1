-- ===== src/Store/Requests/Replay.antt =====
-- A command that was finished and is sent again (hollysys_controller/store.py, requests).
use hermes_agents_by_kanban.Prelude.{
  ℕ, ◌≡◌, refl, ◌∙◌, ap, String, true, false, Option, none, some, arith, ◌==◌, text_eq, beq_refl,
}
use hermes_agents_by_kanban.Table.{lookup, lookup-put}
use hermes_agents_by_kanban.Exec.{ok, settle}
use hermes_agents_by_kanban.Store.Requests.{
  Request, Requests, new_request, update_request, finish_row, finish_request, begin_found,
  begin_request,
}

lookup-update_request :
    (key : String) (f : Request → Request) (s : Requests) (row : Request)
    → lookup key s ≡ some row
    → lookup key (update_request key f s) ≡ some (f row)
unfolding update_request
lookup-update_request key f s row e =
    rw e (ground (arith, lookup-put key key (f row) s, beq_refl key))

module _ {Json : Type 0} (dumps sorted : Json → String) (loads : String → Json) where
  -- A row of the key with the payload of the call.
  Begun : String → Json → Requests → Type 0
  Begun key payload s =
      (row : Request) × (lookup key s ≡ some row) × ((row.payload == sorted payload) ≡ true)

  begin_found-Begun :
      (now : ℕ) (key kind : String) (payload : Json) (s : Requests) (o : Option Request)
      → lookup key s ≡ o
      → (settle s (begin_found dumps sorted loads now key kind payload o s)).0 ≡ ok none
      → Begun key payload (settle s (begin_found dumps sorted loads now key kind payload o s)).1
  unfolding Begun new_request
  begin_found-Begun now key kind payload s none e b = (
    new_request now kind (sorted payload),
    lookup-put key key (new_request now kind (sorted payload)) s ∙ rw (beq_refl key) refl,
    beq_refl (sorted payload),
  )
  begin_found-Begun now key kind payload s (some row) e b = (row, ground arith, ground arith)

  finish_found :
      (now later : ℕ) (key kind : String) (payload response : Json) (s : Requests) (row : Request)
      → (dumps response == "") ≡ false
      → (row.payload == sorted payload) ≡ true
      → settle s (
          begin_found dumps sorted loads later key kind payload
            (some (finish_row now (dumps response) row))
            s)
        ≡ (ok (some (loads (dumps response))), s)
  unfolding finish_row
  finish_found now later key kind payload response s row f p = rw (p, f) refl

module _ {Json : Type 0} (dumps sorted : Json → String) (loads : String → Json)
    (loads-dumps : (r : Json) → loads (dumps r) ≡ r)
    (dumps_filled : (r : Json) → (dumps r == "") ≡ false) where
  -- A command that was begun and finished is not run again: sent once more with the same payload, it
  -- is answered with the response of the first time, and nothing is written.
  pub begin_request_once :
      (now end later : ℕ) (key kind again : String) (payload response : Json) (s : Requests)
      → (begin_request dumps sorted loads now key kind payload s).0 ≡ ok none
      → let begun = (begin_request dumps sorted loads now key kind payload s).1 in
        let finished = finish_request dumps sorted loads end key response begun in
        begin_request dumps sorted loads later key again payload finished
        ≡ (ok (some response), finished)
  unfolding begin_request finish_request Begun
  begin_request_once now end later key kind again payload response s b =
      let begun = (begin_request dumps sorted loads now key kind payload s).1 in
      let finished = finish_request dumps sorted loads end key response begun in
      let (row, at, same) =
        begin_found-Begun dumps sorted loads now key kind payload s (lookup key s) refl b in
      ap (λ o. settle finished (begin_found dumps sorted loads later key again payload o finished))
        (lookup-update_request key (finish_row end (dumps response)) begun row at)
      ∙ finish_found dumps sorted loads end later key again payload response finished row
          (dumps_filled response) same
      ∙ ap (λ r. (ok (some r), finished)) (loads-dumps response)
