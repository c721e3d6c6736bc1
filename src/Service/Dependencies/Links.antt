-- ===== src/Service/Dependencies/Links.antt =====
-- Which runs an open outage stops (hollysys_controller/store.py, as service.py reads it).
use hermes_agents_by_kanban.Prelude.{
  ℕ, ◌≡◌, refl, ◌∙◌, ap, ◌⊎◌, inl, inr, String, Bool, true, false, not, ◌&&◌, ◌||◌, Option, none,
  some, List, [], ◌∷◌, arith, ◌==◌, text_eq, pair_eq, eq_iff, beq_refl, contains, Option-cases,
  Bool-cases,
}
use hermes_agents_by_kanban.Table.{Table, lookup, put, lookup-put_same}
use hermes_agents_by_kanban.Store.Outage.{
  Outage, OutageStore, DependencyFailure, is_open, open_rows, insert_key, run_keys_of,
  outage_run_keys, open_dependency_outages, continuing, failure_row, merged_outage, put_outage,
  write_failure, associate_outage_run, recovered_row, put_past, recover_dependency, probing,
  may_probe, mark_dependency_half_open, kept_time,
}
use hermes_agents_by_kanban.Service.Dependencies.Recovery.{remaining_of}

abbrev pub Links : Type 0
Links = Table (String × (String × String)) ℕ

abbrev pub is_none_left : List (String × Outage) → Bool
is_none_left [] = true
is_none_left (r ∷ rs) = false

contains-nil : (k : String) → contains [] k ≡ false
unfolding contains
contains-nil k = refl

module _ (text_lt : String → String → Bool) where
  contains-insert_key :
      (k j : String) (ks : List String)
      → contains (insert_key text_lt k ks) j ≡ (k == j || contains ks j)
  unfolding contains insert_key
  contains-insert_key k j [] = refl
  contains-insert_key k j (i ∷ ks) = ground (arith, contains-insert_key k j ks)

  -- Some outage of the table is open and has the run.
  pub any_affecting_of : Links → String → Table String Outage → Bool
  any_affecting_of links run_key [] = false
  any_affecting_of links run_key ((dependency, row) ∷ rows) =
      (is_open row.status && contains (run_keys_of text_lt dependency row.outage_id links) run_key)
      || any_affecting_of links run_key rows

  pub any_affecting : OutageStore → String → Bool
  unfolding any_affecting_of
  any_affecting s run_key = any_affecting_of s.dependency_outage_runs run_key s.dependency_outages

  remaining_of-open_rows :
      (s : OutageStore) (run_key : String) (t : Table String Outage)
      → is_none_left (remaining_of text_lt s run_key (open_rows t))
        ≡ not (any_affecting_of s.dependency_outage_runs run_key t)
  unfolding remaining_of open_rows any_affecting_of outage_run_keys
  remaining_of-open_rows s run_key [] = refl
  remaining_of-open_rows s run_key ((d, row) ∷ t) =
      ground (arith, remaining_of-open_rows s run_key t)

  pub remaining-affecting :
      (s : OutageStore) (run_key : String)
      → is_none_left (remaining_of text_lt s run_key (open_dependency_outages s))
        ≡ not (any_affecting s run_key)
  unfolding open_dependency_outages any_affecting
  remaining-affecting s run_key = remaining_of-open_rows s run_key s.dependency_outages

  -- The row of a dependency is replaced by one that is open with the same id, if the old one was open.
  put_open-affecting :
      (links : Links) (run_key d : String) (row' : Outage) (t : Table String Outage)
      → is_open row'.status ≡ true
      → ((q : Outage)
          → lookup d t ≡ some q
          → is_open q.status ≡ true
          → row'.outage_id ≡ q.outage_id)
      → any_affecting_of links run_key t ≡ true
      → any_affecting_of links run_key (put d row' t) ≡ true
  unfolding any_affecting_of lookup put
  put_open-affecting links run_key d row' [] o same h = ground arith
  put_open-affecting links run_key d row' ((j, w) ∷ t) o same h =
      ground (arith, put_open-affecting links run_key d row' t, same w, eq_iff j d)

  -- The row of a dependency is replaced: what the old row stopped may go on.
  put-affecting :
      (links : Links) (run_key d : String) (q row' : Outage) (t : Table String Outage)
      → lookup d t ≡ some q
      → any_affecting_of links run_key t ≡ true
      → (any_affecting_of links run_key (put d row' t) ≡ true)
        ⊎ (contains (run_keys_of text_lt d q.outage_id links) run_key ≡ true)
  unfolding any_affecting_of lookup put
  put-affecting links run_key d q row' [] e h = ground arith
  put-affecting links run_key d q row' ((j, w) ∷ t) e h =
      ground (arith, put-affecting links run_key d q row' t, eq_iff j d)

  is_link : String → String → String → String × (String × String) → Bool
  is_link d id k (d', (id', k')) = d' == d && id' == id && k' == k

  any_link : String → String → String → Links → Bool
  any_link d id k [] = false
  any_link d id k ((key, at) ∷ links) = is_link d id k key || any_link d id k links

  run_keys_of-any_link :
      (d id k : String) (links : Links)
      → contains (run_keys_of text_lt d id links) k ≡ any_link d id k links
  unfolding run_keys_of any_link is_link
  run_keys_of-any_link d id k [] = contains-nil k
  run_keys_of-any_link d id k (((d', (id', k')), at) ∷ links) = ground (
    arith,
    run_keys_of-any_link d id k links,
    contains-insert_key k' k (run_keys_of text_lt d id links),
  )

  any_link-put :
      (d id k : String) (key : String × (String × String)) (at : ℕ) (links : Links)
      → any_link d id k (put key at links) ≡ (is_link d id k key || any_link d id k links)
  unfolding any_link put
  any_link-put d id k key at [] = refl
  any_link-put d id k key at ((j, old) ∷ links) = elim (Bool-cases (j == key)) [
    | inl p ↦ let same = ap (is_link d id k) ((pair_eq.beq_iff j key).0 p) in rw p (ground arith)
    | inr p ↦ rw p (ground (arith, any_link-put d id k key at links))
  ]

  -- A run that is associated with an outage stays so, whatever is associated besides.
  put_link-contains :
      (links : Links) (d id k : String) (key : String × (String × String)) (at : ℕ)
      → contains (run_keys_of text_lt d id links) k ≡ true
      → contains (run_keys_of text_lt d id (put key at links)) k ≡ true
  put_link-contains links d id k key at h = ground (
    arith,
    run_keys_of-any_link d id k links,
    run_keys_of-any_link d id k (put key at links),
    any_link-put d id k key at links,
  )

  -- What is associated is associated.
  put_link-here :
      (links : Links) (d id k : String) (at : ℕ)
      → contains (run_keys_of text_lt d id (put (d, (id, k)) at links)) k ≡ true
  unfolding is_link
  put_link-here links d id k at =
      run_keys_of-any_link d id k (put (d, (id, k)) at links)
      ∙ (any_link-put d id k (d, (id, k)) at links ∙ rw (beq_refl d, beq_refl id, beq_refl k) refl)

  merged-is_open :
      (row : Outage) (o : Option Outage)
      → is_open row.status ≡ true
      → is_open (merged_outage row o).status ≡ true
  merged-is_open row none h = h
  merged-is_open row (some q) h = h

  same_id :
      (now : ℕ) (fresh : String) (f : DependencyFailure) (o : Option Outage) (q : Outage)
      → o ≡ some q
      → is_open q.status ≡ true
      → (merged_outage (failure_row now fresh f (continuing o)) o).outage_id ≡ q.outage_id
  unfolding failure_row
  same_id now fresh f none q e h = ground arith
  same_id now fresh f (some r) q e h = ground arith

  -- What goes on is the row that is there.
  continuing_found : (o : Option Outage) (q : Outage) → continuing o ≡ some q → o ≡ some q
  continuing_found none q e = e
  continuing_found (some r) q e = ground arith

  more_links :
      (links : Links) (key : String × (String × String)) (created_at : ℕ) (j : String)
      (t : Table String Outage)
      → any_affecting_of links j t ≡ true
      → any_affecting_of (put key created_at links) j t ≡ true
  unfolding any_affecting_of
  more_links links key created_at j [] h = h
  more_links links key created_at j ((d, row) ∷ t) h = ground (
    arith,
    more_links links key created_at j t,
    put_link-contains links d row.outage_id j key created_at,
  )

  found-affecting :
      (links : Links) (k d : String) (q : Outage) (t : Table String Outage)
      → lookup d t ≡ some q
      → is_open q.status ≡ true
      → contains (run_keys_of text_lt d q.outage_id links) k ≡ true
      → any_affecting_of links k t ≡ true
  unfolding any_affecting_of lookup
  found-affecting links k d q [] e o c = ground arith
  found-affecting links k d q ((j, w) ∷ t) e o c =
      ground (arith, found-affecting links k d q t, eq_iff j d)

  same-affecting :
      (s s' : OutageStore) (k : String)
      → s'.dependency_outages ≡ s.dependency_outages
      → s'.dependency_outage_runs ≡ s.dependency_outage_runs
      → any_affecting s' k ≡ any_affecting s k
  unfolding any_affecting
  same-affecting s s' k e f = rw (e, f)

  -- An outage that begins or goes on stops all the runs that were stopped.
  pub failure-affecting :
      (now : ℕ) (fresh d : String) (f : DependencyFailure) (s : OutageStore) (k : String)
      → any_affecting s k ≡ true
      → any_affecting (write_failure now fresh d f s).1 k ≡ true
  unfolding any_affecting write_failure put_outage failure_row
  failure-affecting now fresh d f s k h =
      let previous = lookup d s.dependency_outages in
      put_open-affecting s.dependency_outage_runs k d
        (merged_outage (failure_row now fresh f (continuing previous)) previous)
        s.dependency_outages
        (merged-is_open (failure_row now fresh f (continuing previous)) previous refl)
        (λ q e o. same_id now fresh f previous q e o) h

  -- The run of a new link is stopped by the outage, if that is open.
  pub associate-affecting :
      (now : ℕ) (d id k : String) (s : OutageStore) (j : String)
      → any_affecting s j ≡ true
      → any_affecting (associate_outage_run now d id k s) j ≡ true
  unfolding any_affecting associate_outage_run
  associate-affecting now d id k s j h =
      more_links s.dependency_outage_runs (d, (id, k))
        (kept_time now (lookup (d, (id, k)) s.dependency_outage_runs)) j s.dependency_outages h

  pub associate-here :
      (now : ℕ) (d k : String) (q : Outage) (s : OutageStore)
      → lookup d s.dependency_outages ≡ some q
      → is_open q.status ≡ true
      → any_affecting (associate_outage_run now d q.outage_id k s) k ≡ true
  unfolding any_affecting associate_outage_run
  associate-here now d k q s e o =
      found-affecting
        (put (d, (q.outage_id, k))
          (kept_time now (lookup (d, (q.outage_id, k)) s.dependency_outage_runs))
          s.dependency_outage_runs)
        k d q s.dependency_outages e o (put_link-here s.dependency_outage_runs d q.outage_id k _)

  pub probe-affecting :
      (now : ℕ) (d : String) (s : OutageStore) (k : String)
      → any_affecting s k ≡ true
      → any_affecting (mark_dependency_half_open now d s).1 k ≡ true
  unfolding any_affecting mark_dependency_half_open put_outage probing
  probe-affecting now d s k h = elim (Option-cases (lookup d s.dependency_outages)) [
    | inl e ↦ rw e h
    | inr (row, e) ↦ elim (Bool-cases (may_probe now row)) [
      | inl m ↦
          rw (e, m)
            (put_open-affecting s.dependency_outage_runs k d (probing now row) s.dependency_outages
              (ground arith) (λ q p o. ground arith) h)
      | inr m ↦ rw (e, m) h
    ]
  ]

  -- When an outage ends, what it stopped may go on; what else was stopped still is.
  pub recover-affecting :
      (now : ℕ) (d : String) (q : Outage) (s : OutageStore) (k : String)
      → continuing (lookup d s.dependency_outages) ≡ some q
      → any_affecting s k ≡ true
      → (any_affecting (recover_dependency now d s).1 k ≡ true)
        ⊎ (contains (outage_run_keys text_lt d q.outage_id (recover_dependency now d s).1) k ≡ true)
  unfolding any_affecting recover_dependency put_outage put_past outage_run_keys
  recover-affecting now d q s k e h = rw e (
      put-affecting s.dependency_outage_runs k d q (recovered_row now q) s.dependency_outages
        (continuing_found _ q e) h)

  -- The outage that a failure opens stops the run that is then associated with it.
  pub failure-here :
      (now now' : ℕ) (fresh d : String) (f : DependencyFailure) (s : OutageStore) (k : String)
      → (let (row, s') = write_failure now fresh d f s in
          any_affecting (associate_outage_run now' d row.outage_id k s') k ≡ true)
  unfolding write_failure put_outage failure_row
  failure-here now now' fresh d f s k =
      let previous = lookup d s.dependency_outages in
      let row = merged_outage (failure_row now fresh f (continuing previous)) previous in
      associate-here now' d k row (put_outage d row s) (lookup-put_same d row s.dependency_outages)
        (merged-is_open (failure_row now fresh f (continuing previous)) previous refl)
