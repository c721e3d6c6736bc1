-- ===== src/Store/Outage.antt =====
-- The tables dependency_outages, dependency_outage_runs and dependency_outage_history of
-- hollysys_controller/store.py. `now` is `int(time.time())`. A backoff is a float in
-- Python, and here a number of whole seconds with the overflow of floats.
pub mod Circuit
use hermes_agents_by_kanban.Prelude.{
  ℕ, suc, ◌+◌, ◌-◌, ◌*◌, ◌^◌, min, max, String, Bool, true, false, ◌&&◌, Option, none, some, List,
  [], ◌∷◌, ◌==◌, clip, leb, if◌then◌else◌, text_eq, pair_eq,
}
use hermes_agents_by_kanban.Table.{Table, lookup, put}
use hermes_agents_by_kanban.Exec.{Result, ok, err}

-- The value of the column status.
pub data OutageStatus : Type 0 where
  outage_open outage_recovered : OutageStatus

-- The value of the column circuit_state.
pub data CircuitState : Type 0 where
  circuit_open circuit_half_open circuit_closed : CircuitState

-- CREATE TABLE dependency_outages, keyed by dependency
pub record Outage : Type 0 where
  pub outage_id : String
  pub status : OutageStatus
  pub error_class : String
  pub error_summary : String
  pub failures : ℕ
  pub peak_failures : ℕ
  pub started_at : ℕ
  pub last_failure_at : ℕ
  pub last_success_at : Option ℕ
  pub endpoint : Option String
  pub circuit_state : CircuitState
  pub next_retry_at : ℕ
  pub recovered_at : Option ℕ
  pub updated_at : ℕ

-- CREATE TABLE dependency_outage_history, keyed by dependency and outage_id
pub record PastOutage : Type 0 where
  pub error_class : String
  pub error_summary : String
  pub peak_failures : ℕ
  pub started_at : ℕ
  pub recovered_at : ℕ
  pub duration_seconds : ℕ
  pub endpoint : Option String

-- dependency_outage_runs is keyed by dependency, outage_id and run_key, and has a time.
pub record OutageStore : Type 0 where
  pub dependency_outages : Table String Outage
  pub dependency_outage_runs : Table (String × (String × String)) ℕ
  pub dependency_outage_history : Table (String × String) PastOutage

abbrev pub is_open : OutageStatus → Bool
is_open outage_open = true
is_open outage_recovered = false

abbrev pub is_circuit_open : CircuitState → Bool
is_circuit_open circuit_open = true
is_circuit_open _ = false

unfoldable pub put_outage : String → Outage → OutageStore → OutageStore
put_outage dependency row s = record s {
  dependency_outages = put dependency row s.dependency_outages;
}

-- previous is not None and previous["status"] == "open"
abbrev pub continuing : Option Outage → Option Outage
continuing none = none
continuing (some row) = if is_open row.status then some row else none

-- The arguments of `record_dependency_failure`.
pub record DependencyFailure : Type 0 where
  pub error : String
  pub initial_backoff_seconds : ℕ
  pub maximum_backoff_seconds : ℕ
  pub error_class : String
  pub endpoint : Option String
  pub retry_after_seconds : Option ℕ

abbrev pub at_least : Option ℕ → ℕ → ℕ
at_least none delay = delay
at_least (some retry_after) delay = max delay retry_after

unfoldable pub delay : DependencyFailure → ℕ → ℕ
delay f failures =
    at_least f.retry_after_seconds
      (min f.maximum_backoff_seconds (f.initial_backoff_seconds * 2 ^ (failures - 1)))

-- int too large to convert to float
pub data OverflowError : Type 0 where
  int_too_large : OverflowError

-- 2 ** (failures - 1) is too large for a float, by which it is multiplied.
unfoldable pub is_too_large : ℕ → Bool
is_too_large failures = leb 1024 (failures - 1)

abbrev pub failures_of : Option Outage → ℕ
failures_of none = 1
failures_of (some row) = suc row.failures

abbrev pub outage_id_of : String → Option Outage → String
outage_id_of fresh none = fresh
outage_id_of fresh (some row) = row.outage_id

abbrev pub started_of : ℕ → Option Outage → ℕ
started_of now none = now
started_of now (some row) = row.started_at

abbrev pub peak_of : Option Outage → ℕ → ℕ
peak_of none failures = max 0 failures
peak_of (some row) failures = max row.peak_failures failures

-- The row of the INSERT, where `previous` is the outage that goes on.
unfoldable pub failure_row : ℕ → String → DependencyFailure → Option Outage → Outage
failure_row now fresh f previous = record {
  outage_id = outage_id_of fresh previous;
  status = outage_open;
  error_class = f.error_class;
  error_summary = clip 1000 f.error;
  failures = failures_of previous;
  peak_failures = peak_of previous (failures_of previous);
  started_at = started_of now previous;
  last_failure_at = now;
  last_success_at = none;
  endpoint = f.endpoint;
  circuit_state = circuit_open;
  next_retry_at = now + max 1 (delay f (failures_of previous));
  recovered_at = none;
  updated_at = now;
}

-- ON CONFLICT(dependency) DO UPDATE
abbrev pub merged_outage : Outage → Option Outage → Outage
merged_outage excluded none = excluded
merged_outage excluded (some row) = record excluded {
  peak_failures = max row.peak_failures excluded.peak_failures;
  last_success_at = row.last_success_at;
}

-- The INSERT and the SELECT after it; `fresh` is `uuid.uuid4().hex`.
unfoldable pub write_failure :
    ℕ → String → String → DependencyFailure → OutageStore → Outage × OutageStore
write_failure now fresh dependency f s =
    let previous = lookup dependency s.dependency_outages in
    let row = merged_outage (failure_row now fresh f (continuing previous)) previous in
    (row, put_outage dependency row s)

abbrev pub returned : {E A S : Type 0} → A × S → Result E A × S
returned (a, s) = (ok a, s)

-- The delay is computed before the INSERT.
unfoldable pub record_dependency_failure :
    ℕ
    → String
    → String
    → DependencyFailure
    → OutageStore
    → Result OverflowError Outage × OutageStore
record_dependency_failure now fresh dependency f s =
    if is_too_large (failures_of (continuing (lookup dependency s.dependency_outages)))
    then (err int_too_large, s)
    else returned (write_failure now fresh dependency f s)

abbrev pub kept_time : ℕ → Option ℕ → ℕ
kept_time now none = now
kept_time now (some created_at) = created_at

-- INSERT OR IGNORE INTO dependency_outage_runs
unfoldable pub associate_outage_run : ℕ → String → String → String → OutageStore → OutageStore
associate_outage_run now dependency outage_id run_key s =
    let key : String × (String × String) = (dependency, (outage_id, run_key)) in
    record s {
      dependency_outage_runs =
          put key (kept_time now (lookup key s.dependency_outage_runs)) s.dependency_outage_runs;
    }

unfoldable pub recovered_row : ℕ → Outage → Outage
recovered_row now row = record row {
  status = outage_recovered;
  recovered_at = some now;
  last_success_at = some now;
  failures = 0;
  circuit_state = circuit_closed;
  updated_at = now;
}

unfoldable pub past_outage : ℕ → Outage → PastOutage
past_outage now row = record {
  error_class = row.error_class;
  error_summary = row.error_summary;
  peak_failures = row.peak_failures;
  started_at = row.started_at;
  recovered_at = now;
  duration_seconds = max 0 (now - row.started_at);
  endpoint = row.endpoint;
}

abbrev pub kept_past : PastOutage → Option PastOutage → PastOutage
kept_past past none = past
kept_past past (some row) = row

-- INSERT OR IGNORE INTO dependency_outage_history
unfoldable pub put_past : String → String → PastOutage → OutageStore → OutageStore
put_past dependency outage_id past s =
    let key : String × String = (dependency, outage_id) in
    record s {
      dependency_outage_history =
          put key (kept_past past (lookup key s.dependency_outage_history))
            s.dependency_outage_history;
    }

abbrev pub recover_found : ℕ → String → Option Outage → OutageStore → Option Outage × OutageStore
recover_found now dependency none s = (none, s)
recover_found now dependency (some previous) s = (
  some (record previous { recovered_at = some now; last_success_at = some now }),
  put_past dependency previous.outage_id (past_outage now previous)
      (put_outage dependency (recovered_row now previous) s),
)

unfoldable pub recover_dependency : ℕ → String → OutageStore → Option Outage × OutageStore
recover_dependency now dependency s =
    recover_found now dependency (continuing (lookup dependency s.dependency_outages)) s

-- WHERE ... status='open' AND circuit_state='open' AND next_retry_at<=?
abbrev pub may_probe : ℕ → Outage → Bool
may_probe now row =
    is_open row.status && is_circuit_open row.circuit_state && leb row.next_retry_at now

unfoldable pub probing : ℕ → Outage → Outage
probing now row = record row { circuit_state = circuit_half_open; updated_at = now }

abbrev pub probe_found : ℕ → String → Option Outage → OutageStore → Bool × OutageStore
probe_found now dependency none s = (false, s)
probe_found now dependency (some row) s =
    if may_probe now row then (true, put_outage dependency (probing now row) s) else (false, s)

-- changed.rowcount == 1
unfoldable pub mark_dependency_half_open : ℕ → String → OutageStore → Bool × OutageStore
mark_dependency_half_open now dependency s =
    probe_found now dependency (lookup dependency s.dependency_outages) s

-- WHERE status='open'; callers do not depend on the order.
unfoldable pub open_rows : Table String Outage → List (String × Outage)
open_rows [] = []
open_rows ((dependency, row) ∷ rows) =
    let rest = open_rows rows in if is_open row.status then (dependency, row) ∷ rest else rest

unfoldable pub open_dependency_outages : OutageStore → List (String × Outage)
open_dependency_outages s = open_rows s.dependency_outages

module _ (text_lt : String → String → Bool) where
  unfoldable pub insert_key : String → List String → List String
  insert_key k [] = k ∷ []
  insert_key k (j ∷ js) = let rest = insert_key k js in if text_lt j k then j ∷ rest else k ∷ j ∷ js

  unfoldable pub run_keys_of : String → String → Table (String × (String × String)) ℕ → List String
  run_keys_of dependency outage_id [] = []
  run_keys_of dependency outage_id (((other, (other_id, run_key)), created_at) ∷ rows) =
      let rest = run_keys_of dependency outage_id rows in
      if other == dependency && other_id == outage_id then insert_key run_key rest else rest

  -- ORDER BY run_key, with `text_lt` for SQLite's order of texts.
  unfoldable pub outage_run_keys : String → String → OutageStore → List String
  outage_run_keys dependency outage_id s = run_keys_of dependency outage_id s.dependency_outage_runs
