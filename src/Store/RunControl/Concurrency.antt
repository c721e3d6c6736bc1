-- ===== src/Store/RunControl/Concurrency.antt =====
-- What `transition_run` of hollysys_controller/store.py does, while other connections write.
use hermes_agents_by_kanban.Prelude.{
  ℕ, ◌<◌, ◌≡◌, refl, ap, ◌∙◌, ◌⊎◌, inl, inr, String, Bool, true, false, none, some, arith,
  Option-cases, ◌==◌, text_eq, if◌then◌else◌,
}
use hermes_agents_by_kanban.Exec.{ok, err}
use hermes_agents_by_kanban.Store.RunState.{RunState, is_run_state, is_terminal}
use hermes_agents_by_kanban.Store.Runs.{RunControl, RunStore, StoreError}
use hermes_agents_by_kanban.Store.RunControl.{
  run_control, put_control, run_control-put_control, Transition, transition_row, is_expected,
  transition_run,
}

-- A run has gone on: its row is as it was, or has a later version and the run had not ended.
pub record RowAdvances (before after : RunControl) : Type 0 where
  pub advanced :
      (after ≡ before)
      ⊎ ((before.state_version < after.state_version) × (is_terminal before.state ≡ false))

-- Of a store that other connections have written to: every run is still there, and has gone on.
pub record Advances (s s' : RunStore) : Type 0 where
  pub at_key :
      (k : String) (row : RunControl)
      → run_control k s ≡ some row
      → (row' : RunControl) × (run_control k s' ≡ some row') × RowAdvances row row'

pub Advances-refl : (s : RunStore) → Advances s s
Advances-refl s = record { at_key = λ k row e. (row, e, record { advanced = inl refl }) }

RowAdvances-trans : (a b c : RunControl) → RowAdvances a b → RowAdvances b c → RowAdvances a c
RowAdvances-trans a b c g h = ground arith

pub Advances-trans : {s t u : RunStore} → Advances s t → Advances t u → Advances s u
Advances-trans g h = record {
  at_key = λ k row e.
      let (row', e', a) = g.at_key k row e in
      let (row'', e'', b) = h.at_key k row' e' in
      (row'', e'', RowAdvances-trans row row' row'' a b);
}

-- The row that `put_control` leaves at a key.
put_row : Bool → RunControl → RunControl → RunControl
put_row same new old = if same then new else old

pub put_control-Advances :
    (k : String) (row row' : RunControl) (s : RunStore)
    → run_control k s ≡ some row
    → row.state_version < row'.state_version
    → is_terminal row.state ≡ false
    → Advances s (put_control k row' s)
unfolding put_row
put_control-Advances k row row' s e lt live = record {
  at_key = λ j q p. (
    put_row (k == j) row' q,
    ground (arith, run_control-put_control k j row' s),
    ground (arith, text_eq.beq_iff k j),
  );
}

module _ (meanwhile : RunStore → RunStore) (now : ℕ) (run_key : String)
    (expected_states : RunState → Bool) (t : Transition) (s : RunStore) where
  -- The transition was written, and this is the row that it was written over.
  pub record Applied (row' : RunControl) (s' : RunStore) : Type 0 where
    pub row : RunControl
    pub read : run_control run_key s ≡ some row
    pub still : run_control run_key (meanwhile s) ≡ some row
    pub from_expected : expected_states row.state ≡ true
    pub to_known : is_run_state t.new_state ≡ true
    pub at_version : is_expected t.expected_version row.state_version ≡ true
    pub written : row' ≡ transition_row now t row
    pub stored : s' ≡ put_control run_key row' (meanwhile s)

  same_version :
      (row0 row : RunControl)
      → RowAdvances row0 row
      → row.state_version ≡ row0.state_version
      → row ≡ row0
  same_version row0 row g e = elim g.advanced [ inl p ↦ p | inr (lt, _) ↦ absurd (omega arith) ]

  Applied-rows :
      (row0 row : RunControl)
      → run_control run_key s ≡ some row0
      → run_control run_key (meanwhile s) ≡ some row
      → RowAdvances row0 row
      → (row' : RunControl) (s' : RunStore)
      → transition_run meanwhile now run_key expected_states t s ≡ (ok row', s')
      → Applied row' s'
  unfolding transition_run
  Applied-rows row0 row e e' adv row' s' h = record {
    row = row0;
    read = e;
    still = e' ∙ ap some (same_version row0 row adv (ground arith));
    from_expected = ground arith;
    to_known = ground arith;
    at_version = ground arith;
    written = ground arith;
    stored = ground arith;
  }

  not_without_row :
      run_control run_key s ≡ none
      → (row' : RunControl) (s' : RunStore)
      → ¬ (transition_run meanwhile now run_key expected_states t s ≡ (ok row', s'))
  unfolding transition_run
  not_without_row e row' s' h = ground arith

  -- Other connections may write between the read and the write of `transition_run`. If they only
  -- let runs advance, a transition that returns was applied to the very row that was read: that row
  -- was still there, in an expected state and at the expected version, and the store is the one
  -- that the others left, with this row replaced by the transition's.
  pub transition_run-Applied :
      Advances s (meanwhile s)
      → (row' : RunControl) (s' : RunStore)
      → transition_run meanwhile now run_key expected_states t s ≡ (ok row', s')
      → Applied row' s'
  transition_run-Applied g row' s' h = elim (Option-cases (run_control run_key s)) [
    | inl e ↦ absurd (not_without_row e row' s' h)
    | inr (row0, e) ↦
        let (row, e', adv) = g.at_key run_key row0 e in Applied-rows row0 row e e' adv row' s' h
  ]

  -- A transition that raises writes nothing: the store is as it was, or as the others left it.
  pub transition_run_error :
      (x : StoreError) (s' : RunStore)
      → transition_run meanwhile now run_key expected_states t s ≡ (err x, s')
      → (s' ≡ s) ⊎ (s' ≡ meanwhile s)
  unfolding transition_run
  transition_run_error x s' h = ground arith
