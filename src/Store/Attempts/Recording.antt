-- ===== src/Store/Attempts/Recording.antt =====
-- `record_card_runtime_event` of hollysys_controller/store.py. `now` is `int(time.time())`.
use hermes_agents_by_kanban.Prelude.{
  ℕ, suc, ◌+◌, String, Bool, true, false, not, ◌&&◌, ◌||◌, Option, none, some, List, [], ◌∷◌, ◌==◌,
  ltb, coalesce, is_some, contains, option_beq, if◌then◌else◌, text_eq, pair_eq,
}
use hermes_agents_by_kanban.Table.{lookup}
use hermes_agents_by_kanban.Exec.{pure, raise, connect, get_state, require, modify, ◌>>=◌, ◌>>◌}
use hermes_agents_by_kanban.Store.Attempts.{
  CardAttempt, CardRuntime, AttemptMetric, ManagedCard, CardStore, unknown_managed_card,
  attempt_run_id_conflict, constraint_failed, AttemptExec, last_attempt, latest_where, card_runtime,
  put_runtime, put_attempt, put_metric,
}
use hermes_agents_by_kanban.Store.Attempts.Events.{
  CardEvent, kind_text, is_started, is_heartbeat, is_terminal_event, is_progress, is_progress_event,
  is_blocked, is_completed_event, is_worker_exited, is_exit, is_reclaimed, first_status,
  next_status,
}

-- value if test else None
abbrev pub only_if {ℓ} : {A : Type ℓ} → Bool → A → Option A
only_if true a = some a
only_if false a = none

-- A text that Python counts as true.
abbrev pub truthy : Option String → Option String
truthy none = none
truthy (some t) = if t == "" then none else some t

-- worker_session_id and worker_session_id != previous["worker_session_id"]
unfoldable pub is_other_session : CardEvent → CardRuntime → Bool
is_other_session e previous =
    is_some (truthy e.worker_session_id)
    && not (option_beq e.worker_session_id previous.worker_session_id)

-- new_session
unfoldable pub is_new_session : CardEvent → CardRuntime → Bool
unfolding is_other_session
is_new_session e previous = is_started e.kind && is_other_session e previous

abbrev pub holds_of : (CardRuntime → Bool) → Option CardRuntime → Bool
holds_of test none = false
holds_of test (some row) = test row

-- preserve_finished_runtime
unfoldable pub preserves_finished : CardEvent → CardRuntime → Bool
unfolding is_new_session
preserves_finished e previous =
    is_some previous.finished_at
    && not (is_terminal_event e.kind)
    && not (is_new_session e previous)

-- A late event of an older session.
unfoldable pub is_late : CardEvent → CardRuntime → Bool
unfolding is_other_session
is_late e previous =
    is_some (truthy previous.worker_session_id)
    && is_other_session e previous
    && not (is_started e.kind)

abbrev pub is_after : ℕ → Option ℕ → Bool
is_after created_at none = false
is_after created_at (some started_at) = ltb created_at started_at

-- A start of an older session, after the current one has started.
unfoldable pub is_old_start : CardEvent → CardRuntime → Bool
unfolding is_other_session
is_old_start e previous =
    is_started e.kind
    && is_other_session e previous
    && is_after e.created_at previous.worker_started_at

-- new_attempt
unfoldable pub is_new_attempt : CardEvent → CardRuntime → Bool
unfolding is_other_session
is_new_attempt e previous =
    is_started e.kind && is_some previous.worker_started_at && is_other_session e previous

unfoldable pub new_attempt_row : ℕ → CardEvent → String → ℕ → CardAttempt
new_attempt_row now e run_key attempt = record {
  board = e.board;
  card_id = e.card_id;
  run_key = run_key;
  attempt = attempt;
  worker_pid = e.worker_pid;
  worker_session_id = e.worker_session_id;
  started_at = only_if (is_started e.kind) e.created_at;
  blocked_at = only_if (is_blocked e.kind) e.created_at;
  completion_at = only_if (is_completed_event e.kind) e.created_at;
  exited_at = only_if (is_exit e.kind) e.created_at;
  last_heartbeat_at = only_if (is_heartbeat e.kind) e.created_at;
  last_progress_at = only_if (is_progress_event e.kind) e.created_at;
  status = first_status e.kind;
  terminal_reason = only_if (is_terminal_event e.kind) (kind_text e.kind);
  recovery_reason = none;
  redispatched_from_run_id = none;
  created_at = e.created_at;
  updated_at = now;
}

unfoldable pub updated_attempt : ℕ → CardEvent → CardAttempt → CardAttempt
updated_attempt now e row = record row {
  worker_pid = coalesce e.worker_pid row.worker_pid;
  worker_session_id = coalesce e.worker_session_id row.worker_session_id;
  started_at = coalesce row.started_at (only_if (is_started e.kind) e.created_at);
  blocked_at = coalesce row.blocked_at (only_if (is_blocked e.kind) e.created_at);
  completion_at = coalesce row.completion_at (only_if (is_completed_event e.kind) e.created_at);
  exited_at = coalesce row.exited_at (only_if (is_exit e.kind) e.created_at);
  last_heartbeat_at = if is_heartbeat e.kind then some e.created_at else row.last_heartbeat_at;
  last_progress_at = if is_progress_event e.kind then some e.created_at else row.last_progress_at;
  status = next_status e.kind row.status;
  terminal_reason =
      if is_terminal_event e.kind then some (kind_text e.kind) else row.terminal_reason;
  updated_at = now;
}

-- The attempt belongs to another card or run.
unfoldable pub is_conflict : CardEvent → ManagedCard → CardAttempt → Bool
is_conflict e card row =
    not (row.board == e.board)
    || not (row.card_id == e.card_id)
    || not (row.run_key == card.run_key)

unfoldable pub write_attempt :
    ℕ → CardEvent → String → ManagedCard → Option CardAttempt → CardStore → CardStore
write_attempt now e run_id card none s =
    put_attempt run_id
      (new_attempt_row now e card.run_key (suc (last_attempt e.board e.card_id s.card_attempts))) s
write_attempt now e run_id card (some row) s = put_attempt run_id (updated_attempt now e row) s

-- redispatched_from_run_id=COALESCE(redispatched_from_run_id, ?)
unfoldable pub redispatched : ℕ → String → CardAttempt → CardAttempt
redispatched now from row = record row {
  redispatched_from_run_id = coalesce row.redispatched_from_run_id (some from);
  updated_at = now;
}

abbrev pub update_found :
    String → (CardAttempt → CardAttempt) → CardStore → Option CardAttempt → CardStore
update_found run_id f s none = s
update_found run_id f s (some row) = put_attempt run_id (f row) s

unfoldable pub update_attempt : String → (CardAttempt → CardAttempt) → CardStore → CardStore
update_attempt run_id f s = update_found run_id f s (lookup run_id s.card_attempts)

-- INSERT INTO attempt_metrics ... ON CONFLICT DO UPDATE SET summary, recorded_at
abbrev pub redispatch_metric : ℕ → String → Option AttemptMetric → AttemptMetric
redispatch_metric now from none = record { duration_ms = 0; summary = some from; recorded_at = now }
redispatch_metric now from (some row) = record row { summary = some from; recorded_at = now }

abbrev pub link_from : ℕ → String → Option (String × CardAttempt) → CardStore → CardStore
link_from now run_id none s = s
link_from now run_id (some (from, row)) s =
    put_metric run_id "redispatched_from_run_id"
      (redispatch_metric now from (lookup (run_id, "redispatched_from_run_id") s.attempt_metrics))
      (update_attempt run_id (redispatched now from) s)

-- The latest other attempt of the card that was reclaimed.
unfoldable pub link_redispatch : ℕ → CardEvent → String → CardStore → CardStore
link_redispatch now e run_id s =
    if is_started e.kind
    then link_from now run_id
        (latest_where (λ other row. is_reclaimed row.status && not (other == run_id)) e.board
          e.card_id s.card_attempts)
        s
    else s

abbrev pub metric_of : String → List (String × ℕ) → Option ℕ
metric_of name [] = none
metric_of name ((key, value) ∷ rest) = if key == name then some value else metric_of name rest

abbrev pub put_found_metric : CardEvent → String → String → Option ℕ → CardStore → CardStore
put_found_metric e run_id name none s = s
put_found_metric e run_id name (some value) s =
    put_metric run_id name
      (record { duration_ms = value; summary = e.summary; recorded_at = e.created_at }) s

unfoldable pub put_runtime_metric : CardEvent → String → String → CardStore → CardStore
put_runtime_metric e run_id name s =
    put_found_metric e run_id name (metric_of name e.runtime_metrics) s

unfoldable pub put_metrics : CardEvent → String → CardStore → CardStore
put_metrics e run_id s =
    if is_progress e.kind
    then put_runtime_metric e run_id "retry_wait" (
        put_runtime_metric e run_id "delegation_wait" (
          put_runtime_metric e run_id "tool_execution"
            (put_runtime_metric e run_id "model_wait" s)))
    else s

abbrev pub managed_or_raise : CardEvent → Option ManagedCard → AttemptExec ManagedCard
managed_or_raise e none = raise (unknown_managed_card e.board e.card_id)
managed_or_raise e (some card) = pure card

abbrev pub conflicts : CardEvent → ManagedCard → Option CardAttempt → Bool
conflicts e card none = false
conflicts e card (some row) = is_conflict e card row

-- FOREIGN KEY(run_key) REFERENCES runs(run_key), of an attempt that is new.
abbrev pub has_run_of : ManagedCard → Option CardAttempt → CardStore → Bool
has_run_of card none s = contains s.run_keys card.run_key
has_run_of card (some row) s = true

-- if run_id: ...
unfoldable pub record_attempt : ℕ → CardEvent → Option String → AttemptExec (Unit {0})
record_attempt now e none = pure tt
record_attempt now e (some run_id) = do
  s ← get_state
  card ← managed_or_raise e (lookup (e.board, e.card_id) s.managed_cards)
  let row = lookup run_id s.card_attempts
  require (not (conflicts e card row)) (attempt_run_id_conflict run_id)
  require (has_run_of card row s) (constraint_failed "card_attempts")
  modify (write_attempt now e run_id card row)
  modify (link_redispatch now e run_id)
  modify (put_metrics e run_id)

unfoldable pub inserted_runtime : ℕ → CardEvent → CardRuntime
inserted_runtime now e = record {
  profile = none;
  dispatch_key = none;
  worker_pid = e.worker_pid;
  worker_started_at = only_if (is_started e.kind) e.created_at;
  worker_session_id = e.worker_session_id;
  last_heartbeat_at = only_if (is_heartbeat e.kind) e.created_at;
  last_progress_event_at = only_if (is_progress_event e.kind) e.created_at;
  deadline_at = only_if (is_progress_event e.kind) (e.created_at + e.lease_seconds);
  last_event_kind = some (kind_text e.kind);
  attempt = 1;
  redispatch_count = 0;
  worktree = none;
  branch = none;
  mr_iid = none;
  head_sha = none;
  attempt_status =
      if is_terminal_event e.kind
      then "finished"
      else if is_progress_event e.kind || is_heartbeat e.kind
      then "running"
      else "created";
  finished_at = only_if (is_terminal_event e.kind) e.created_at;
  terminal_reason = only_if (is_terminal_event e.kind) (kind_text e.kind);
  updated_at = now;
}

-- ON CONFLICT(board, card_id) DO UPDATE, with `excluded` for the row of the INSERT.
unfoldable pub merged_runtime : Bool → CardRuntime → CardRuntime → CardRuntime
merged_runtime new_attempt excluded row = record row {
  worker_pid = coalesce excluded.worker_pid row.worker_pid;
  worker_started_at =
      if new_attempt
      then excluded.worker_started_at
      else coalesce row.worker_started_at excluded.worker_started_at;
  worker_session_id = coalesce excluded.worker_session_id row.worker_session_id;
  last_heartbeat_at = coalesce excluded.last_heartbeat_at row.last_heartbeat_at;
  last_progress_event_at = coalesce excluded.last_progress_event_at row.last_progress_event_at;
  deadline_at = coalesce excluded.deadline_at row.deadline_at;
  last_event_kind = excluded.last_event_kind;
  attempt = row.attempt + (if new_attempt then 1 else 0);
  attempt_status = excluded.attempt_status;
  finished_at = excluded.finished_at;
  terminal_reason = excluded.terminal_reason;
  updated_at = excluded.updated_at;
}

abbrev pub next_runtime : ℕ → CardEvent → Option CardRuntime → CardRuntime
next_runtime now e none = inserted_runtime now e
next_runtime now e (some row) = merged_runtime (is_new_attempt e row) (inserted_runtime now e) row

-- The three early returns after the attempt is written, and the write.
unfoldable pub record_runtime : ℕ → CardEvent → Option CardRuntime → CardStore → CardStore
record_runtime now e previous s =
    if holds_of (preserves_finished e) previous
      || holds_of (is_late e) previous
      || holds_of (is_old_start e) previous
    then s
    else put_runtime e.board e.card_id (next_runtime now e previous) s

-- The rest of the block; `ignored` when the event changes nothing.
abbrev pub record_unless : Bool → ℕ → CardEvent → Option CardRuntime → AttemptExec (Unit {0})
record_unless true now e previous = pure tt
record_unless false now e previous =
    record_attempt now e (truthy e.run_id) >> modify (record_runtime now e previous)

unfoldable pub record_card_runtime_event : ℕ → CardEvent → AttemptExec (Unit {0})
record_card_runtime_event now e = connect do
  s ← get_state
  let previous = card_runtime e.board e.card_id s
  record_unless (holds_of (preserves_finished e) previous && not (is_worker_exited e.kind)) now e
      previous
