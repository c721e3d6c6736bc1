-- ===== src/Service/Dependencies/Opening.antt =====
-- The runs that an error of a dependency degrades are those of an outage that is open
-- (hollysys_controller/service.py).
use hermes_agents_by_kanban.Prelude.{
  ℕ, ◌≡◌, refl, ◌∙◌, ap, sym, inl, inr, String, Bool, true, false, not, ◌&&◌, Option, none, some,
  List, [], ◌∷◌, arith, ◌==◌, text_eq, Bool-cases, subst, ◌⊎◌, leb, length,
}
use hermes_agents_by_kanban.Exec.{Result, ok, err}
use hermes_agents_by_kanban.Table.{lookup}
use hermes_agents_by_kanban.Store.RunControl.Cases.{Result-cases}
use hermes_agents_by_kanban.Store.RunState.{
  RunState, dependency_degraded, is_abort_open, is_run_state,
}
use hermes_agents_by_kanban.Store.Runs.{RunControl}
use hermes_agents_by_kanban.Store.RunControl.{run_control}
use hermes_agents_by_kanban.Store.Outage.{
  Outage, continuing, failures_of, is_too_large, int_too_large, write_failure,
  record_dependency_failure,
}
use hermes_agents_by_kanban.Service.Dependencies.{
  ServiceError, overflow_error, DependencyError, Settings, Notices, World, is_degraded, is_live,
  is_contract_error, is_transient, is_same_state, retry_transition, open_outage, associate,
  degraded_reason, dependency_scope, failure_of, transition_from,
}
use hermes_agents_by_kanban.Service.Dependencies.Handling.{
  associate_all, open_global_for, open_global, corroborate, corroborating_runs, degrade, degrade_if,
  degrade_found, tell_outage, handle_open, handle_dependency_error,
}
use hermes_agents_by_kanban.Service.Dependencies.Links.{
  any_affecting, failure-affecting, associate-affecting, failure-here,
}
use hermes_agents_by_kanban.Service.Dependencies.Settling.{
  alone, Covered, stopped_now, weaken-Covered, same-Covered, transition-Covered, outage_notice,
}

pub live_same : (q : RunState) → is_live q ≡ true → is_same_state q q ≡ true
unfolding is_same_state
live_same RunState.active h = refl
live_same RunState.merge_wait h = refl
live_same dependency_degraded h = refl
live_same _ h = ground arith

pub abort_same : (q : RunState) → is_abort_open q ≡ true → is_same_state q q ≡ true
unfolding is_same_state
abort_same RunState.abort_requested h = refl
abort_same RunState.aborting h = refl
abort_same _ h = ground arith

pub abort_known : (q : RunState) → is_abort_open q ≡ true → is_run_state q ≡ true
abort_known RunState.abort_requested h = refl
abort_known RunState.aborting h = refl
abort_known _ h = ground arith

module _ (text_lt : String → String → Bool) where
  -- Each run that is degraded is stopped by an outage that is open.
  pub record NoneStranded (w : World) : Type 0 where
    pub stopped :
        (run_key : String) (row : RunControl)
        → run_control run_key w.runs ≡ some row
        → is_degraded row.state ≡ true
        → any_affecting text_lt w.outages run_key ≡ true

  pub to_Covered : {w : World} → NoneStranded w → Covered text_lt [] w
  to_Covered h = record { at_run = λ k row p d. inl (h.stopped k row p d) }

  pub of_Covered : {w : World} → Covered text_lt [] w → NoneStranded w
  of_Covered {w} c = record { stopped = λ k row p d. stopped_now text_lt k row w p d c }

  pub NoneStranded-at :
      {A : Type 0} {p : A × World} {a : A} {w : World}
      → p ≡ (a, w)
      → NoneStranded p.1
      → NoneStranded w
  NoneStranded-at {A} e h = subst (λ (x : A × World). NoneStranded x.1) e h

  -- Outages begin or go on, and the runs are as they were.
  pub record Opens (w w' : World) : Type 0 where
    pub same_runs : w'.runs ≡ w.runs
    pub still :
        (k : String)
        → any_affecting text_lt w.outages k ≡ true
        → any_affecting text_lt w'.outages k ≡ true

  Opens-refl : (w : World) → Opens w w
  Opens-refl w = record { same_runs = refl; still = λ k h. h }

  Opens-trans : {u v w : World} → Opens u v → Opens v w → Opens u w
  Opens-trans g h = record {
    same_runs = h.same_runs ∙ g.same_runs;
    still = λ k a. h.still k (g.still k a);
  }

  pub Opens-NoneStranded : {w w' : World} → Opens w w' → NoneStranded w → NoneStranded w'
  Opens-NoneStranded {w} {w'} o h = record {
    stopped = λ k row p d. o.still k (h.stopped k row (ap (run_control k) (sym o.same_runs) ∙ p) d);
  }

  associate-Opens : (now : ℕ) (d id k : String) (w : World) → Opens w (associate now d id k w)
  unfolding associate
  associate-Opens now d id k w = record {
    same_runs = refl;
    still = λ j a. associate-affecting text_lt now d id k w.outages j a;
  }

  associate_all-Opens :
      (now : ℕ) (d id : String) (ks : List String) (w : World)
      → Opens w (associate_all now d id ks w)
  unfolding associate_all
  associate_all-Opens now d id [] w = Opens-refl w
  associate_all-Opens now d id (k ∷ ks) w =
      Opens-trans (associate-Opens now d id k w)
        (associate_all-Opens now d id ks (associate now d id k w))

  module _ (config : Settings) (notices : Notices) (now : ℕ) where
    write-Opens :
        (fresh d : String) (e : DependencyError) (w : World)
        → Opens w
            (record w { outages = (write_failure now fresh d (failure_of config e) w.outages).1 })
    write-Opens fresh d e w = record {
      same_runs = refl;
      still = λ k a. failure-affecting text_lt now fresh d (failure_of config e) w.outages k a;
    }

    -- An outage is opened or goes on, unless the count of its failures is too large.
    pub open_outage-cases :
        (fresh d : String) (e : DependencyError) (w : World)
        → ((is_too_large (failures_of (continuing (lookup d w.outages.dependency_outages))) ≡ true)
            × (open_outage config now fresh d e w ≡ (err (overflow_error int_too_large), w)))
          ⊎ (let (row, outages) = write_failure now fresh d (failure_of config e) w.outages in
              open_outage config now fresh d e w ≡ (ok row, record w { outages = outages }))
    unfolding open_outage record_dependency_failure
    open_outage-cases fresh d e w =
        elim (Bool-cases
          (is_too_large (failures_of (continuing (lookup d w.outages.dependency_outages))))) [
            | inl p ↦ inl (p, rw p refl)
            | inr p ↦ inr (rw p refl)
          ]

    pub open_outage-Opens :
        (fresh d : String) (e : DependencyError) (w : World)
        → Opens w (open_outage config now fresh d e w).1
    open_outage-Opens fresh d e w = elim (open_outage-cases fresh d e w) [
      | inl (p, q) ↦ rw q (Opens-refl w)
      | inr q ↦ rw q (write-Opens fresh d e w)
    ]

    open_global_for-Opens :
        (fresh : String) (e : DependencyError) (ks : List String) (w : World)
        → Opens w (open_global_for text_lt config notices alone now fresh e ks w).1
    open_global_for-Opens fresh e ks w = elim (open_outage-cases fresh "gitlab" e w) [
      | inl (p, q) ↦ rw q (Opens-refl w)
      | inr q ↦
          let (row, outages) = write_failure now fresh "gitlab" (failure_of config e) w.outages in
          rw q (
            Opens-trans (write-Opens fresh "gitlab" e w)
              (associate_all-Opens now "gitlab" row.outage_id ks (record w { outages = outages })))
    ]

    open_global-Opens :
        (fresh : String) (e : DependencyError) (w : World)
        → Opens w (open_global text_lt config notices alone now fresh e w).1
    unfolding open_global
    open_global-Opens fresh e w =
        let affected = corroborating_runs text_lt w in
        elim (Bool-cases (leb config.dependency_circuit_failure_threshold (length affected))) [
          | inl p ↦ rw p (open_global_for-Opens fresh e affected w)
          | inr p ↦ rw p (Opens-refl w)
        ]

    pub corroborate-Opens :
        (fresh d : String) (e : DependencyError) (w : World)
        → Opens w (corroborate text_lt config notices alone now fresh d e w).1
    unfolding corroborate
    corroborate-Opens fresh d e w =
        elim (Bool-cases (e.dependency == "gitlab" && not (d == "gitlab") && is_transient e.kind)) [
          | inl p ↦ rw p (open_global-Opens fresh e w)
          | inr p ↦ rw p (Opens-refl w)
        ]

    degrade_if-Covered :
        (live abort : Bool) (k : String) (e : DependencyError) (outage : Outage)
        (control : RunControl) (w : World)
        → is_live control.state ≡ live
        → is_abort_open control.state ≡ abort
        → run_control k w.runs ≡ some control
        → any_affecting text_lt w.outages k ≡ true
        → Covered text_lt [] w
        → ((degrade_if text_lt config notices alone now live abort k e outage control w).0 ≡ ok tt)
          × Covered text_lt []
              (degrade_if text_lt config notices alone now live abort k e outage control w).1
    unfolding transition_from retry_transition
    degrade_if-Covered true abort k e outage control w l b p a c =
        let done =
          transition-Covered text_lt config notices now k control (is_same_state control.state)
            (retry_transition dependency_degraded (degraded_reason e) control.state_version
              outage.next_retry_at)
            [] w p (live_same control.state l) refl refl (λ d. a) (weaken-Covered text_lt k w c) in
        rw done.0 (refl, done.1)
    degrade_if-Covered false true k e outage control w l b p a c =
        let done =
          transition-Covered text_lt config notices now k control (is_same_state control.state)
            (retry_transition control.state (degraded_reason e) control.state_version
              outage.next_retry_at)
            [] w p (abort_same control.state b) (abort_known control.state b) refl (λ d. a)
            (weaken-Covered text_lt k w c) in
        rw done.0 (refl, done.1)
    degrade_if-Covered false false k e outage control w l b p a c = (refl, c)

    degrade_found-Covered :
        (k : String) (e : DependencyError) (outage : Outage) (o : Option RunControl) (w : World)
        → run_control k w.runs ≡ o
        → any_affecting text_lt w.outages k ≡ true
        → Covered text_lt [] w
        → ((degrade_found text_lt config notices alone now k e outage o w).0 ≡ ok tt)
          × Covered text_lt [] (degrade_found text_lt config notices alone now k e outage o w).1
    degrade_found-Covered k e outage none w p a c = (refl, c)
    degrade_found-Covered k e outage (some control) w p a c =
        degrade_if-Covered (is_live control.state) (is_abort_open control.state) k e outage control
          w refl refl p a c

    pub tell-same :
        (k d : String) (e : DependencyError) (outage : Outage) (w : World)
        → ((tell_outage text_lt config notices alone now k d e outage w).outages ≡ w.outages)
          × ((tell_outage text_lt config notices alone now k d e outage w).runs ≡ w.runs)
    tell-same k d e outage w = outage_notice text_lt config notices now k d outage w

    degraded-Covered :
        (k d : String) (e : DependencyError) (outage : Outage) (w : World)
        → any_affecting text_lt w.outages k ≡ true
        → Covered text_lt [] w
        → (let after = (degrade text_lt config notices alone now k e outage w).1 in
            ((degrade text_lt config notices alone now k e outage w).0 ≡ ok tt)
            × Covered text_lt [] (tell_outage text_lt config notices alone now k d e outage after))
    unfolding degrade
    degraded-Covered k d e outage w a c =
        let done = degrade_found-Covered k e outage (run_control k w.runs) w refl a c in
        let after =
          (degrade_found text_lt config notices alone now k e outage (run_control k w.runs) w).1 in
        let told = tell-same k d e outage after in
        (
          done.0,
          same-Covered text_lt [] after
              (tell_outage text_lt config notices alone now k d e outage after) told.0 told.1
              done.1,
        )

    -- After the outage of the scope is open and the run is associated with it.
    told-Covered :
        (k fresh d : String) (e : DependencyError) (outage : Outage) (w : World)
        → any_affecting text_lt (associate now d outage.outage_id k w).outages k ≡ true
        → Covered text_lt [] w
        → Covered text_lt [] (handle_open text_lt config notices alone now k fresh d e outage w).1
    told-Covered k fresh d e outage w a c =
        let linked = associate now d outage.outage_id k w in
        let spread = corroborate text_lt config notices alone now fresh d e linked in
        let opens = corroborate-Opens fresh d e linked in
        let covered : Covered text_lt [] spread.1 = to_Covered (
          Opens-NoneStranded (Opens-trans (associate-Opens now d outage.outage_id k w) opens)
            (of_Covered c)) in
        elim (Result-cases spread) [
          | inl (u, s, q) ↦
              let covered' =
                subst (λ (x : Result ServiceError (Unit {0}) × World). Covered text_lt [] x.1) q
                  covered in
              let here =
                subst
                  (λ (x : Result ServiceError (Unit {0}) × World).
                    any_affecting text_lt x.1.outages k ≡ true)
                  q (opens.still k a) in
              let done = degraded-Covered k d e outage s here covered' in rw (q, done.0) done.1
          | inr (x, s, q) ↦ rw q (
              subst (λ (x : Result ServiceError (Unit {0}) × World). Covered text_lt [] x.1) q
                covered)
        ]

    pub handled-NoneStranded :
        (k fresh fresh_global : String) (e : DependencyError) (w : World)
        → NoneStranded w
        → NoneStranded
            (handle_dependency_error text_lt config notices alone now k fresh fresh_global e w).1
    unfolding handle_dependency_error associate
    handled-NoneStranded k fresh fresh_global e w h =
        let d = dependency_scope (some k) e in
        elim (Bool-cases (is_contract_error e.kind)) [
          | inl p ↦ rw p h
          | inr p ↦ elim (open_outage-cases fresh d e w) [
            | inl (m, q) ↦ rw (p, q) h
            | inr q ↦
                let (row, outages) = write_failure now fresh d (failure_of config e) w.outages in
                rw (p, q)
                  (of_Covered (
                    told-Covered k fresh_global d e row (record w { outages = outages })
                      (failure-here text_lt now now fresh d (failure_of config e) w.outages k)
                      (to_Covered (Opens-NoneStranded (write-Opens fresh d e w) h))))
          ]
        ]
