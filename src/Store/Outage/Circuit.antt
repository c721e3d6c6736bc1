-- ===== src/Store/Outage/Circuit.antt =====
-- The states that the row of a dependency can be in (hollysys_controller/store.py).
use hermes_agents_by_kanban.Prelude.{
  ℕ, ◌≤◌, ◌<◌, ◌≡◌, refl, ◌∙◌, ap, sym, subst, String, Bool, true, false, Option, none, some, arith,
  text_eq, is_some, Option-cases, Bool-cases, inl, inr,
}
use hermes_agents_by_kanban.Table.{lookup, lookup-put_cases}
use hermes_agents_by_kanban.Store.Outage.{
  Outage, OutageStore, DependencyFailure, CircuitState, circuit_closed, is_open, continuing,
  failure_row, failures_of, merged_outage, put_outage, write_failure, is_too_large,
  record_dependency_failure, associate_outage_run, recovered_row, put_past, past_outage,
  recover_dependency, may_probe, probing, mark_dependency_half_open,
}

abbrev pub is_closed : CircuitState → Bool
is_closed circuit_closed = true
is_closed _ = false

-- An outage that is open has failed, has not recovered, and its circuit is not closed; one that has
-- recovered has no failures left, a time of recovery, and a closed circuit. The next try is always
-- later than the failure, and the count of failures is never above its peak.
pub record IsCircuit (row : Outage) : Type 0 where
  pub peak_bounds : row.failures ≤ row.peak_failures
  pub try_later : row.last_failure_at < row.next_retry_at
  pub open_failed : is_open row.status ≡ true → 1 ≤ row.failures
  pub open_unrecovered : is_open row.status ≡ true → row.recovered_at ≡ none
  pub open_circuit : is_open row.status ≡ true → is_closed row.circuit_state ≡ false
  pub recovered_idle : is_open row.status ≡ false → row.failures ≡ 0
  pub recovered_time : is_open row.status ≡ false → is_some row.recovered_at ≡ true
  pub recovered_circuit : is_open row.status ≡ false → is_closed row.circuit_state ≡ true

pub record AllCircuits (s : OutageStore) : Type 0 where
  pub at_dependency :
      (dependency : String) (row : Outage)
      → lookup dependency s.dependency_outages ≡ some row
      → IsCircuit row

put_outage-AllCircuits :
    (dependency : String) (row : Outage) (s : OutageStore)
    → IsCircuit row
    → AllCircuits s
    → AllCircuits (put_outage dependency row s)
unfolding put_outage
put_outage-AllCircuits dependency row s c h = record {
  at_dependency = λ j q p. elim (lookup-put_cases dependency j row s.dependency_outages p) [
    | inl e ↦ subst IsCircuit e c
    | inr e ↦ h.at_dependency j q e
  ];
}

failure-IsCircuit :
    (now : ℕ) (fresh : String) (f : DependencyFailure) (o : Option Outage)
    → IsCircuit (merged_outage (failure_row now fresh f (continuing o)) o)
unfolding failure_row
failure-IsCircuit now fresh f none = record {
  peak_bounds = ground arith;
  try_later = omega arith;
  open_failed = λ e. omega arith;
  open_unrecovered = λ e. refl;
  open_circuit = λ e. refl;
  recovered_idle = λ e. ground arith;
  recovered_time = λ e. ground arith;
  recovered_circuit = λ e. ground arith;
}
failure-IsCircuit now fresh f (some row) = record {
  peak_bounds = ground arith;
  try_later = omega arith;
  open_failed = λ e. ground arith;
  open_unrecovered = λ e. refl;
  open_circuit = λ e. refl;
  recovered_idle = λ e. ground arith;
  recovered_time = λ e. ground arith;
  recovered_circuit = λ e. ground arith;
}

recovered-IsCircuit : (now : ℕ) (row : Outage) → IsCircuit row → IsCircuit (recovered_row now row)
unfolding recovered_row
recovered-IsCircuit now row c = record {
  peak_bounds = omega arith;
  try_later = c.try_later;
  open_failed = λ e. ground arith;
  open_unrecovered = λ e. ground arith;
  open_circuit = λ e. ground arith;
  recovered_idle = λ e. refl;
  recovered_time = λ e. refl;
  recovered_circuit = λ e. refl;
}

probing-IsCircuit :
    (now : ℕ) (row : Outage)
    → may_probe now row ≡ true
    → IsCircuit row
    → IsCircuit (probing now row)
unfolding probing
probing-IsCircuit now row m c = record {
  peak_bounds = c.peak_bounds;
  try_later = c.try_later;
  open_failed = c.open_failed;
  open_unrecovered = c.open_unrecovered;
  open_circuit = λ e. refl;
  recovered_idle = c.recovered_idle;
  recovered_time = c.recovered_time;
  recovered_circuit = λ e. ground arith;
}

written-AllCircuits :
    (now : ℕ) (fresh dependency : String) (f : DependencyFailure) (s : OutageStore)
    → AllCircuits s
    → AllCircuits (write_failure now fresh dependency f s).1
unfolding write_failure
written-AllCircuits now fresh dependency f s h =
    let previous = lookup dependency s.dependency_outages in
    put_outage-AllCircuits dependency
      (merged_outage (failure_row now fresh f (continuing previous)) previous) s
      (failure-IsCircuit now fresh f previous) h

failure-AllCircuits :
    (now : ℕ) (fresh dependency : String) (f : DependencyFailure) (s : OutageStore)
    → AllCircuits s
    → AllCircuits (record_dependency_failure now fresh dependency f s).1
unfolding record_dependency_failure
failure-AllCircuits now fresh dependency f s h =
    let failures = failures_of (continuing (lookup dependency s.dependency_outages)) in
    elim (Bool-cases (is_too_large failures)) [
      | inl e ↦ rw e h
      | inr e ↦ rw e (written-AllCircuits now fresh dependency f s h)
    ]

same-AllCircuits :
    (s t : OutageStore)
    → t.dependency_outages ≡ s.dependency_outages
    → AllCircuits s
    → AllCircuits t
same-AllCircuits s t e h = record {
  at_dependency = λ j q p. h.at_dependency j q (ap (lookup j) (sym e) ∙ p);
}

associate-AllCircuits :
    (now : ℕ) (dependency outage_id run_key : String) (s : OutageStore)
    → AllCircuits s
    → AllCircuits (associate_outage_run now dependency outage_id run_key s)
unfolding associate_outage_run
associate-AllCircuits now dependency outage_id run_key s h =
    same-AllCircuits s (associate_outage_run now dependency outage_id run_key s) refl h

-- What goes on is the row that is there.
continuing_found : (o : Option Outage) (row : Outage) → continuing o ≡ some row → o ≡ some row
continuing_found none row e = e
continuing_found (some q) row e = ground arith

recover-AllCircuits :
    (now : ℕ) (dependency : String) (s : OutageStore)
    → AllCircuits s
    → AllCircuits (recover_dependency now dependency s).1
unfolding recover_dependency put_past
recover-AllCircuits now dependency s h =
    elim (Option-cases (continuing (lookup dependency s.dependency_outages))) [
      | inl e ↦ rw e h
      | inr (row, e) ↦
          let c = h.at_dependency dependency row (continuing_found _ row e) in
          let t = put_outage dependency (recovered_row now row) s in
          rw e (
            same-AllCircuits t (put_past dependency row.outage_id (past_outage now row) t) refl (
              put_outage-AllCircuits dependency (recovered_row now row) s
                (recovered-IsCircuit now row c) h))
    ]

probe-AllCircuits :
    (now : ℕ) (dependency : String) (s : OutageStore)
    → AllCircuits s
    → AllCircuits (mark_dependency_half_open now dependency s).1
unfolding mark_dependency_half_open
probe-AllCircuits now dependency s h =
    elim (Option-cases (lookup dependency s.dependency_outages)) [
      | inl e ↦ rw e h
      | inr (row, e) ↦ elim (Bool-cases (may_probe now row)) [
        | inl m ↦
            rw (e, m)
              (put_outage-AllCircuits dependency (probing now row) s
                (probing-IsCircuit now row m (h.at_dependency dependency row e)) h)
        | inr m ↦ rw (e, m) h
      ]
    ]

-- The methods that write the outages, in any order.
pub data OutageSteps : OutageStore → OutageStore → Type 0 where
  here : {s : OutageStore} → OutageSteps s s
  failing :
      {s t : OutageStore} (now : ℕ) (fresh dependency : String) (f : DependencyFailure)
      → OutageSteps s t
      → OutageSteps s (record_dependency_failure now fresh dependency f t).1
  associated :
      {s t : OutageStore} (now : ℕ) (dependency outage_id run_key : String)
      → OutageSteps s t
      → OutageSteps s (associate_outage_run now dependency outage_id run_key t)
  recovering :
      {s t : OutageStore} (now : ℕ) (dependency : String)
      → OutageSteps s t
      → OutageSteps s (recover_dependency now dependency t).1
  probed :
      {s t : OutageStore} (now : ℕ) (dependency : String)
      → OutageSteps s t
      → OutageSteps s (mark_dependency_half_open now dependency t).1

-- Whatever fails, recovers or is probed, in any order, the row of each dependency is in one of the
-- states of `IsCircuit`.
pub OutageSteps-AllCircuits : {s t : OutageStore} → OutageSteps s t → AllCircuits s → AllCircuits t
OutageSteps-AllCircuits here h = h
OutageSteps-AllCircuits (failing {t = t} now fresh dependency f g) h =
    failure-AllCircuits now fresh dependency f t (OutageSteps-AllCircuits g h)
OutageSteps-AllCircuits (associated {t = t} now dependency outage_id run_key g) h =
    associate-AllCircuits now dependency outage_id run_key t (OutageSteps-AllCircuits g h)
OutageSteps-AllCircuits (recovering {t = t} now dependency g) h =
    recover-AllCircuits now dependency t (OutageSteps-AllCircuits g h)
OutageSteps-AllCircuits (probed {t = t} now dependency g) h =
    probe-AllCircuits now dependency t (OutageSteps-AllCircuits g h)
