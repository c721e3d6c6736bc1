-- ===== src/Service/Dependencies/Settling.antt =====
-- Runs whose dependency recovers (hollysys_controller/service.py), while no other connection writes.
use hermes_agents_by_kanban.Prelude.{
  ℕ, ◌≡◌, refl, ◌∙◌, ap, sym, ◌⊎◌, inl, inr, String, Bool, true, false, Option, none, some, List,
  [], ◌∷◌, arith, ◌==◌, text_eq, nat_eq, eq_iff, beq_refl, contains, Bool-cases,
}
use hermes_agents_by_kanban.Exec.{ok, ◌>>◌}
use hermes_agents_by_kanban.Store.RunState.{RunState, active, dependency_degraded, is_run_state}
use hermes_agents_by_kanban.Store.Runs.{RunControl, RunStore}
use hermes_agents_by_kanban.Store.RunControl.{
  Transition, run_control, put_control, run_control-put_control, transition_row, transition_run,
}
use hermes_agents_by_kanban.Store.Outage.{Outage}
use hermes_agents_by_kanban.Service.Dependencies.{
  on_runs, Settings, Notices, World, ServiceExec, is_degraded, is_same_state, retry_transition,
  enqueue_dependency_outage,
}
use hermes_agents_by_kanban.Service.Dependencies.Recovery.{
  recovered_transition, remaining, settle_one, settle_each, settle_found, settle_if, settle_run,
  least_retry, enqueue_dependency_recovered,
}
use hermes_agents_by_kanban.Service.Dependencies.Links.{
  any_affecting, is_none_left, remaining-affecting,
}

-- No other connection writes.
abbrev pub alone : RunStore → RunStore
alone s = s

absurd_active {ℓ} : {A : Type ℓ} → is_degraded active ≡ true → A
absurd_active h = cc

pub transition_alone :
    (now : ℕ) (k : String) (states : RunState → Bool) (t : Transition) (row : RunControl)
    (s : RunStore)
    → run_control k s ≡ some row
    → states row.state ≡ true
    → is_run_state t.new_state ≡ true
    → t.expected_version ≡ some row.state_version
    → transition_run alone now k states t s
      ≡ (ok (transition_row now t row), put_control k (transition_row now t row) s)
unfolding transition_run
transition_alone now k states t row s e q r v =
    rw (r, e, q, v, beq_refl row.state_version, e, beq_refl row.state_version) refl

module _ (text_lt : String → String → Bool) where
  -- A run that is degraded is stopped by an outage that is open, or is still to be settled.
  pub record Covered (pending : List String) (w : World) : Type 0 where
    pub at_run :
        (k : String) (row : RunControl)
        → run_control k w.runs ≡ some row
        → is_degraded row.state ≡ true
        → (any_affecting text_lt w.outages k ≡ true) ⊎ (contains pending k ≡ true)

  pub write-Covered :
      (k : String) (row' : RunControl) (pending : List String) (w : World)
      → (is_degraded row'.state ≡ true → any_affecting text_lt w.outages k ≡ true)
      → Covered (k ∷ pending) w
      → Covered pending (record w { runs = put_control k row' w.runs })
  unfolding contains
  write-Covered k row' pending w safe c = record {
    at_run = λ j q p d. ground (
      arith,
      run_control-put_control k j row' w.runs,
      eq_iff k j,
      c.at_run j q,
      ap (any_affecting text_lt w.outages) {x = k} {y = j},
    );
  }

  -- A run that is not degraded needs no settling.
  pub skip-Covered :
      (k : String) (pending : List String) (w : World)
      → ((row : RunControl) → run_control k w.runs ≡ some row → is_degraded row.state ≡ true → ⊥)
      → Covered (k ∷ pending) w
      → Covered pending w
  unfolding contains
  skip-Covered k pending w idle c = record {
    at_run = λ j q p d. elim (c.at_run j q p d) [
      | inl a ↦ inl a
      | inr m ↦ elim (Bool-cases (k == j)) [
        | inl e ↦ absurd (idle q (ap (λ x. run_control x w.runs) ((eq_iff k j).0 e) ∙ p) d)
        | inr e ↦ inr (ground arith)
      ]
    ];
  }

  pub same-Covered :
      (pending : List String) (w w' : World)
      → w'.outages ≡ w.outages
      → w'.runs ≡ w.runs
      → Covered pending w
      → Covered pending w'
  same-Covered pending w w' e f c = record {
    at_run = λ j q p d. rw e (c.at_run j q (ap (run_control j) (sym f) ∙ p) d);
  }

  -- With nothing left to settle, a run that is degraded is stopped by an open outage.
  pub stopped_now :
      (k : String) (row : RunControl) (w : World)
      → run_control k w.runs ≡ some row
      → is_degraded row.state ≡ true
      → Covered [] w
      → any_affecting text_lt w.outages k ≡ true
  unfolding contains
  stopped_now k row w p d c = elim (c.at_run k row p d) [ inl a ↦ a | inr m ↦ ground arith ]

  pub weaken-Covered : (k : String) (w : World) → Covered [] w → Covered (k ∷ []) w
  weaken-Covered k w c = record { at_run = λ j q p d. inl (stopped_now j q w p d c) }

  pub degraded_same : (q : RunState) → is_degraded q ≡ true → is_same_state q q ≡ true
  unfolding is_same_state
  degraded_same dependency_degraded h = refl
  degraded_same _ h = ground arith

  pub then-Covered :
      (pending : List String) (m n : ServiceExec (Unit {0})) (w : World)
      → (m w).0 ≡ ok tt
      → ((n (m w).1).0 ≡ ok tt) × Covered pending (n (m w).1).1
      → (((m >> n) w).0 ≡ ok tt) × Covered pending ((m >> n) w).1
  then-Covered pending m n w e c = rw e c

  module _ (config : Settings) (notices : Notices) (now : ℕ) where
    recovered_notice :
        (k d : String) (outage : Outage) (w : World)
        → ((enqueue_dependency_recovered text_lt config notices alone now k d outage w).outages
            ≡ w.outages)
          × ((enqueue_dependency_recovered text_lt config notices alone now k d outage w).runs
              ≡ w.runs)
    unfolding enqueue_dependency_recovered
    recovered_notice k d outage w = ground arith

    pub outage_notice :
        (k d : String) (outage : Outage) (w : World)
        → ((enqueue_dependency_outage config notices now k d outage w).outages ≡ w.outages)
          × ((enqueue_dependency_outage config notices now k d outage w).runs ≡ w.runs)
    unfolding enqueue_dependency_outage
    outage_notice k d outage w = ground arith

    -- A transition of a run that is read leaves it covered, if an outage is open where it is degraded.
    pub transition-Covered :
        (k : String) (control : RunControl) (states : RunState → Bool) (t : Transition)
        (ks : List String) (w : World)
        → run_control k w.runs ≡ some control
        → states control.state ≡ true
        → is_run_state t.new_state ≡ true
        → t.expected_version ≡ some control.state_version
        → (is_degraded t.new_state ≡ true → any_affecting text_lt w.outages k ≡ true)
        → Covered (k ∷ ks) w
        → ((on_runs (transition_run alone now k states t) w).0 ≡ ok (transition_row now t control))
          × Covered ks (on_runs (transition_run alone now k states t) w).1
    unfolding transition_row
    transition-Covered k control states t ks w e q r v safe c =
        rw (transition_alone now k states t control w.runs e q r v)
          (refl, write-Covered k (transition_row now t control) ks w safe c)

    settle_run-Covered :
        (d k : String) (control : RunControl) (rest : List (String × Outage)) (ks : List String)
        (w : World)
        → run_control k w.runs ≡ some control
        → is_degraded control.state ≡ true
        → remaining text_lt w k ≡ rest
        → Covered (k ∷ ks) w
        → (row : RunControl) × ((settle_run text_lt config notices alone now d k control rest w).0
            ≡ ok row)
          × Covered ks (settle_run text_lt config notices alone now d k control rest w).1
    unfolding is_same_state recovered_transition retry_transition remaining
    settle_run-Covered d k control [] ks w e q f c =
        let done =
          transition-Covered k control (is_same_state dependency_degraded)
            (recovered_transition _ control.state_version) ks w e (ground arith) refl refl
            (λ never. absurd_active never) c in
        (_, done.0, done.1)
    settle_run-Covered d k control ((o, row) ∷ rs) ks w e q f c =
        let left = remaining-affecting text_lt w.outages k in
        let done =
          transition-Covered k control (is_same_state dependency_degraded)
            (retry_transition dependency_degraded "dependency_recovery_partial"
              control.state_version (least_retry row.next_retry_at rs))
            ks w e (ground arith) refl refl (λ d. ground (arith, ap is_none_left f)) c in
        (_, done.0, done.1)

    settle_if-Covered :
        (b : Bool) (d k : String) (control : RunControl) (ks : List String) (w : World)
        → is_degraded control.state ≡ b
        → run_control k w.runs ≡ some control
        → Covered (k ∷ ks) w
        → ((settle_if text_lt config notices alone now b d k control w).0 ≡ ok tt)
          × Covered ks (settle_if text_lt config notices alone now b d k control w).1
    settle_if-Covered true d k control ks w q e c =
        let (row, done, after) =
          settle_run-Covered d k control (remaining text_lt w k) ks w e q refl c in
        rw done (refl, after)
    settle_if-Covered false d k control ks w q e c =
        (refl, skip-Covered k ks w (λ row p d. ground arith) c)

    settle_found-Covered :
        (d k : String) (o : Option RunControl) (ks : List String) (w : World)
        → run_control k w.runs ≡ o
        → Covered (k ∷ ks) w
        → ((settle_found text_lt config notices alone now d k o w).0 ≡ ok tt)
          × Covered ks (settle_found text_lt config notices alone now d k o w).1
    settle_found-Covered d k none ks w e c = (refl, skip-Covered k ks w (λ row p q. ground arith) c)
    settle_found-Covered d k (some control) ks w e c =
        settle_if-Covered (is_degraded control.state) d k control ks w refl e c

    settle_one-Covered :
        (d : String) (recovered : Outage) (k : String) (ks : List String) (w : World)
        → Covered (k ∷ ks) w
        → ((settle_one text_lt config notices alone now d recovered k w).0 ≡ ok tt)
          × Covered ks (settle_one text_lt config notices alone now d recovered k w).1
    unfolding settle_one
    settle_one-Covered d recovered k ks w c =
        let found = settle_found-Covered d k (run_control k w.runs) ks w refl c in
        let after =
          (settle_found text_lt config notices alone now d k (run_control k w.runs) w).1 in
        let told = recovered_notice k d recovered after in
        rw found.0 (
          refl,
          same-Covered ks after
              (enqueue_dependency_recovered text_lt config notices alone now k d recovered after)
              told.0 told.1 found.1,
        )

    -- The loop settles all runs that are still to be settled.
    pub settle_each-Covered :
        (d : String) (recovered : Outage) (ks : List String) (w : World)
        → Covered ks w
        → ((settle_each text_lt config notices alone now d recovered ks w).0 ≡ ok tt)
          × Covered [] (settle_each text_lt config notices alone now d recovered ks w).1
    unfolding settle_each
    settle_each-Covered d recovered [] w c = (refl, c)
    settle_each-Covered d recovered (k ∷ ks) w c =
        let one = settle_one-Covered d recovered k ks w c in
        then-Covered [] (settle_one text_lt config notices alone now d recovered k)
          (settle_each text_lt config notices alone now d recovered ks) w one.0
          (settle_each-Covered d recovered ks
            (settle_one text_lt config notices alone now d recovered k w).1 one.1)
