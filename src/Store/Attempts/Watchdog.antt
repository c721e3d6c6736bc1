-- ===== src/Store/Attempts/Watchdog.antt =====
-- The other methods of hollysys_controller/store.py that write a card, its runtime, an attempt or one of
-- its metrics. `now` is `int(time.time())`.
use hermes_agents_by_kanban.Prelude.{
  ℕ, suc, ◌+◌, String, Bool, true, false, not, ◌&&◌, ◌||◌, Option, none, some, [], ◌∷◌, ◌==◌,
  coalesce, is_some, clip, if◌then◌else◌, nat_beq, text_eq, pair_eq,
}
use hermes_agents_by_kanban.Table.{Table, lookup, put}
use hermes_agents_by_kanban.Exec.{connect, get_state, modify, ◌>>=◌, ◌>>◌, require}
use hermes_agents_by_kanban.Store.Attempts.{
  CardAttempt, CardRuntime, ManagedCard, CardStore, unknown_card_runtime, constraint_failed,
  AttemptExec, is_of_card, current_attempt, card_runtime, put_runtime, put_metric,
}
use hermes_agents_by_kanban.Store.Attempts.Recording.{truthy, update_attempt}

abbrev pub clip_found : ℕ → Option String → Option String
clip_found bound none = none
clip_found bound (some text) = some (clip bound text)

-- text[:bound] if text else None
unfoldable pub clipped : ℕ → Option String → Option String
clipped bound text = clip_found bound (truthy text)

-- created_at or int(time.time())
abbrev pub time_or : ℕ → Option ℕ → ℕ
time_or now none = now
time_or now (some t) = if nat_beq t 0 then now else t

abbrev pub kept_created : ManagedCard → Option ManagedCard → ManagedCard
kept_created card none = card
kept_created card (some row) = record card { created_at = row.created_at }

unfoldable pub put_card : String → String → ManagedCard → CardStore → CardStore
put_card board card_id card s = record s {
  managed_cards =
      put (board, card_id) (kept_created card (lookup (board, card_id) s.managed_cards))
        s.managed_cards;
}

-- UNIQUE (board, idempotency_key): another card of the board has the key.
unfoldable pub is_key_taken : String → String → String → Table (String × String) ManagedCard → Bool
is_key_taken board card_id key [] = false
is_key_taken board card_id key (((other_board, other_id), row) ∷ rows) =
    (other_board == board && not (other_id == card_id) && row.idempotency_key == key)
    || is_key_taken board card_id key rows

-- `card` is the row of the INSERT but for its time, which `created_at` gives.
unfoldable pub add_managed_card :
    ℕ → String → String → ManagedCard → Option ℕ → AttemptExec (Unit {0})
add_managed_card now board card_id card created_at = connect do
  s ← get_state
  require (not (is_key_taken board card_id card.idempotency_key s.managed_cards))
      (constraint_failed "managed_cards")
  modify (put_card board card_id (record card { created_at = time_or now created_at }))

abbrev pub registered : ℕ → String → String → String → String → Option CardRuntime → CardRuntime
registered now profile dispatch_key worktree branch none = record {
  profile = some profile;
  dispatch_key = some dispatch_key;
  worker_pid = none;
  worker_started_at = none;
  worker_session_id = none;
  last_heartbeat_at = none;
  last_progress_event_at = none;
  deadline_at = none;
  last_event_kind = none;
  attempt = 1;
  redispatch_count = 0;
  worktree = some worktree;
  branch = some branch;
  mr_iid = none;
  head_sha = none;
  attempt_status = "created";
  finished_at = none;
  terminal_reason = none;
  updated_at = now;
}
registered now profile dispatch_key worktree branch (some row) = record row {
  profile = some profile;
  dispatch_key = some dispatch_key;
  worktree = some worktree;
  branch = some branch;
  updated_at = now;
}

unfoldable pub register_card_attempt :
    ℕ → String → String → String → String → String → String → CardStore → CardStore
register_card_attempt now board card_id profile dispatch_key worktree branch s =
    put_runtime board card_id
      (registered now profile dispatch_key worktree branch (card_runtime board card_id s)) s

abbrev pub update_found_runtime :
    String → String → (CardRuntime → CardRuntime) → CardStore → Option CardRuntime → CardStore
update_found_runtime board card_id f s none = s
update_found_runtime board card_id f s (some row) = put_runtime board card_id (f row) s

-- UPDATE card_runtime ... WHERE board=? AND card_id=?
unfoldable pub update_runtime :
    String → String → (CardRuntime → CardRuntime) → CardStore → CardStore
update_runtime board card_id f s =
    update_found_runtime board card_id f s (card_runtime board card_id s)

unfoldable pub completed_row :
    ℕ → Bool → Option ℕ → Option String → Option String → CardRuntime → CardRuntime
unfolding clipped
completed_row now accepted mr_iid head_sha reason row = record row {
  mr_iid = coalesce mr_iid row.mr_iid;
  head_sha = coalesce head_sha row.head_sha;
  attempt_status = if accepted then "completed_accepted" else "completed_rejected";
  finished_at = coalesce row.finished_at (some now);
  terminal_reason = coalesce (clipped 1000 reason) row.terminal_reason;
  updated_at = now;
}

unfoldable pub record_attempt_completion :
    ℕ → String → String → Bool → Option ℕ → Option String → Option String → CardStore → CardStore
record_attempt_completion now board card_id accepted mr_iid head_sha reason =
    update_runtime board card_id (completed_row now accepted mr_iid head_sha reason)

-- FOREIGN KEY(run_id) REFERENCES card_attempts(run_id)
unfoldable pub record_attempt_metric :
    ℕ → String → String → ℕ → Option String → AttemptExec (Unit {0})
record_attempt_metric now run_id metric duration_ms summary = connect do
  s ← get_state
  require (is_some (lookup run_id s.card_attempts)) (constraint_failed "attempt_metrics")
  modify (
      put_metric run_id metric
        (record { duration_ms = duration_ms; summary = clipped 500 summary; recorded_at = now }))

-- `summary_of` is `json.dumps` of the state, the time and the error code of an observation.
unfoldable pub record_supervisor_observation :
    (String → ℕ → Option String → String)
    → ℕ
    → String
    → String
    → ℕ
    → ℕ
    → Option String
    → AttemptExec (Unit {0})
record_supervisor_observation summary_of now run_id state duration_ms observed_at error_code =
    record_attempt_metric now run_id "supervisor_probe" duration_ms
      (some (summary_of state observed_at error_code))

-- (reason or "redispatch_requested")[:1000]
abbrev pub recovery_text : Option String → String
recovery_text none = clip 1000 "redispatch_requested"
recovery_text (some reason) = clip 1000 reason

unfoldable pub recovering : ℕ → Option String → CardAttempt → CardAttempt
recovering now reason row = record row {
  recovery_reason = coalesce row.recovery_reason (some (recovery_text (truthy reason)));
  updated_at = now;
}

-- SELECT COUNT(*) ... AND recovery_reason IS NOT NULL
unfoldable pub count_recovered : String → String → Table String CardAttempt → ℕ
count_recovered board card_id [] = 0
count_recovered board card_id ((run_id, row) ∷ rows) =
    let rest = count_recovered board card_id rows in
    if is_of_card board card_id row && is_some row.recovery_reason then suc rest else rest

abbrev pub one_more : Option CardRuntime → Option ℕ
one_more none = none
one_more (some row) = some (suc row.redispatch_count)

-- The attempt that is marked, and `redispatch_count`.
abbrev pub redispatch_from :
    ℕ
    → String
    → String
    → Option String
    → CardStore
    → Option (String × CardAttempt)
    → Option ℕ × CardStore
redispatch_from now board card_id reason s none = (one_more (card_runtime board card_id s), s)
redispatch_from now board card_id reason s (some (run_id, row)) =
    let marked = update_attempt run_id (recovering now reason) s in
    (some (count_recovered board card_id marked.card_attempts), marked)

-- if increment_redispatch: ...
unfoldable pub redispatch :
    ℕ → String → String → Option String → Bool → CardStore → Option ℕ × CardStore
redispatch now board card_id reason false s = (none, s)
redispatch now board card_id reason true s =
    redispatch_from now board card_id reason s (current_attempt board card_id s.card_attempts)

abbrev pub coalesce_count : Option ℕ → ℕ → ℕ
coalesce_count none old = old
coalesce_count (some count) old = count

abbrev pub deadline_after : ℕ → Option ℕ → Option ℕ
deadline_after now none = none
deadline_after now (some lease_seconds) = some (now + lease_seconds)

unfoldable pub watched_row :
    ℕ → String → Option ℕ → Option ℕ → Option String → CardRuntime → CardRuntime
unfolding clipped
watched_row now attempt_status lease_seconds redispatch_count reason row = record row {
  attempt_status = attempt_status;
  deadline_at = coalesce (deadline_after now lease_seconds) row.deadline_at;
  redispatch_count = coalesce_count redispatch_count row.redispatch_count;
  terminal_reason = coalesce (clipped 1000 reason) row.terminal_reason;
  updated_at = now;
}

-- The block commits before `rowcount` is tested, so the mark on the attempt stays also when the
-- method raises.
unfoldable pub update_worker_watchdog :
    ℕ → String → String → String → Option ℕ → Option String → Bool → AttemptExec (Unit {0})
update_worker_watchdog now board card_id attempt_status lease_seconds reason increment_redispatch =
    do
      s ← get_state
      let (redispatch_count, marked) = redispatch now board card_id reason increment_redispatch s
      modify (λ t.
          update_runtime board card_id
            (watched_row now attempt_status lease_seconds redispatch_count reason) marked)
      require (is_some (card_runtime board card_id marked)) (unknown_card_runtime board card_id)
