-- ===== src/Service/Reconciling/Degrading.antt =====
-- What `_handle_dependency_error` does to the run (hollysys_controller/service.py), while no other
-- connection writes.
use hermes_agents_by_kanban.Table.{lookup, lookup-put}
use hermes_agents_by_kanban.Prelude.{
  ℕ, ◌≡◌, refl, ap, ◌∙◌, inl, inr, String, Bool, true, false, some, none, text_eq, Option-cases,
  List, ◌⊎◌, ◌==◌, ◌&&◌, not, arith, Bool-cases, leb, length, sym, ◌≤◌, Option,
}
use hermes_agents_by_kanban.Exec.{ok, err}
use hermes_agents_by_kanban.Store.RunState.{
  RunState, dependency_degraded, is_run_state, is_abort_open,
}
use hermes_agents_by_kanban.Store.Runs.{RunControl}
use hermes_agents_by_kanban.Store.RunControl.{run_control, put_control, transition_row}
use hermes_agents_by_kanban.Store.Outage.{
  Outage, OutageStore, continuing, failures_of, is_too_large, int_too_large, write_failure,
  failure_row, merged_outage, put_outage, associate_outage_run,
}
use hermes_agents_by_kanban.Service.Dependencies.{
  overflow_error, failure_of, is_transient, DependencyError, Settings, Notices, World, is_live,
  is_contract_error, is_same_state, retry_transition, transition_from, degraded_reason, associate,
  dependency_scope,
}
use hermes_agents_by_kanban.Service.Dependencies.Handling.{
  open_global, open_global_for, corroborating_runs, degrade, degrade_if, corroborate, handle_open,
  handle_dependency_error,
}
use hermes_agents_by_kanban.Service.Dependencies.Settling.{alone, transition_alone}
use hermes_agents_by_kanban.Service.Dependencies.Opening.{
  open_outage-cases, live_same, abort_same, abort_known, corroborate-Opens, tell-same,
}
use hermes_agents_by_kanban.Service.Reconciling.{Failures}
use hermes_agents_by_kanban.Service.Reconciling.Handlers.{IsIn, written-IsIn, same-IsIn}

-- The next failure of the open outage of the dependency is the 1025th or a later one.
abbrev pub TooMany : String → OutageStore → Type 0
TooMany d s = is_too_large (failures_of (continuing (lookup d s.dependency_outages))) ≡ true

too_many_failures :
    (o : Option Outage)
    → is_too_large (failures_of (continuing o)) ≡ true
    → (row : Outage) × (o ≡ some row) × (1024 ≤ row.failures)
unfolding is_too_large
too_many_failures none m = ground arith
too_many_failures (some row) m = (row, refl, ground arith)

pub TooMany-row :
    (d : String) (s : OutageStore)
    → TooMany d s
    → (row : Outage) × (lookup d s.dependency_outages ≡ some row) × (1024 ≤ row.failures)
TooMany-row d s m = too_many_failures (lookup d s.dependency_outages) m

module _ (text_lt : String → String → Bool) (config : Settings) (notices : Notices)
    (failures : Failures) (now : ℕ) where
  transition_from-alone :
      (k : String) (control : RunControl) (q : RunState) (reason : String) (retry : ℕ) (w : World)
      → run_control k w.runs ≡ some control
      → is_same_state control.state control.state ≡ true
      → is_run_state q ≡ true
      → (let t = retry_transition q reason control.state_version retry in
          transition_from alone now k control q reason retry w ≡ (
            ok (transition_row now t control),
            record w { runs = put_control k (transition_row now t control) w.runs },
          ))
  unfolding transition_from retry_transition
  transition_from-alone k control q reason retry w e same known =
      rw
        (transition_alone now k (is_same_state control.state)
          (retry_transition q reason control.state_version retry) control w.runs e same known refl)
        refl

  degrade_if-ok :
      (live abort : Bool) (k : String) (e : DependencyError) (outage : Outage)
      (control : RunControl) (w : World)
      → is_live control.state ≡ live
      → is_abort_open control.state ≡ abort
      → run_control k w.runs ≡ some control
      → (degrade_if text_lt config notices alone now live abort k e outage control w).0 ≡ ok tt
  degrade_if-ok true abort k e outage control w l b p =
      rw
        (transition_from-alone k control dependency_degraded (degraded_reason e)
          outage.next_retry_at w p (live_same control.state l) refl)
        refl
  degrade_if-ok false true k e outage control w l b p =
      rw
        (transition_from-alone k control control.state (degraded_reason e) outage.next_retry_at w p
          (abort_same control.state b) (abort_known control.state b))
        refl
  degrade_if-ok false false k e outage control w l b p = refl

  degrade-ok :
      (k : String) (e : DependencyError) (outage : Outage) (w : World)
      → (degrade text_lt config notices alone now k e outage w).0 ≡ ok tt
  unfolding degrade
  degrade-ok k e outage w = elim (Option-cases (run_control k w.runs)) [
    | inl p ↦ rw p refl
    | inr (row, p) ↦
        rw p
          (degrade_if-ok (is_live row.state) (is_abort_open row.state) k e outage row w refl refl p)
  ]

  degrade-IsIn :
      (k : String) (e : DependencyError) (outage : Outage) (row : RunControl) (w : World)
      → run_control k w.runs ≡ some row
      → is_live row.state ≡ true
      → IsIn dependency_degraded k (degrade text_lt config notices alone now k e outage w).1.runs
  unfolding degrade retry_transition
  degrade-IsIn k e outage row w p l =
      rw
        (
          p,
          l,
          transition_from-alone k row dependency_degraded (degraded_reason e) outage.next_retry_at w
              p (live_same row.state l) refl,
        )
        (written-IsIn now k
          (retry_transition dependency_degraded (degraded_reason e) row.state_version
            outage.next_retry_at)
          row w.runs)

  open_global_for-outcome :
      (fresh : String) (e : DependencyError) (ks : List String) (w : World)
      → ((open_global_for text_lt config notices alone now fresh e ks w).0 ≡ ok tt)
        ⊎ (TooMany "gitlab" w.outages
            × ((open_global_for text_lt config notices alone now fresh e ks w).0
                ≡ err (overflow_error int_too_large)))
  open_global_for-outcome fresh e ks w =
      elim (open_outage-cases text_lt config notices now fresh "gitlab" e w) [
        | inl (p, q) ↦ rw q (inr (p, refl))
        | inr q ↦ rw q (inl refl)
      ]

  open_global-outcome :
      (fresh : String) (e : DependencyError) (w : World)
      → ((open_global text_lt config notices alone now fresh e w).0 ≡ ok tt)
        ⊎ (TooMany "gitlab" w.outages
            × ((open_global text_lt config notices alone now fresh e w).0
                ≡ err (overflow_error int_too_large)))
  unfolding open_global
  open_global-outcome fresh e w =
      let affected = corroborating_runs text_lt w in
      elim (Bool-cases (leb config.dependency_circuit_failure_threshold (length affected))) [
        | inl p ↦ rw p (open_global_for-outcome fresh e affected w)
        | inr p ↦ rw p (inl refl)
      ]

  corroborate-outcome :
      (fresh d : String) (e : DependencyError) (w : World)
      → ((corroborate text_lt config notices alone now fresh d e w).0 ≡ ok tt)
        ⊎ (((d == "gitlab") ≡ false)
            × TooMany "gitlab" w.outages
            × ((corroborate text_lt config notices alone now fresh d e w).0
                ≡ err (overflow_error int_too_large)))
  unfolding corroborate
  corroborate-outcome fresh d e w =
      elim (Bool-cases (e.dependency == "gitlab" && not (d == "gitlab") && is_transient e.kind)) [
        | inl p ↦ elim (open_global-outcome fresh e w) [
          | inl q ↦ rw p (inl q)
          | inr (m, q) ↦ rw p (inr (ground arith, m, q))
        ]
        | inr p ↦ rw p (inl refl)
      ]

  module _ (k fresh fresh_global : String) (e : DependencyError) where
    handle_open-runs :
        (d : String) (outage : Outage) (w : World)
        → (corroborate text_lt config notices alone now fresh_global d e
            (associate now d outage.outage_id k w)).1.runs
          ≡ w.runs
    unfolding associate
    handle_open-runs d outage w =
        let o =
          corroborate-Opens text_lt config notices now fresh_global d e
            (associate now d outage.outage_id k w) in
        o.same_runs

    handle_open-outcome :
        (d : String) (outage : Outage) (w : World)
        → ((handle_open text_lt config notices alone now k fresh_global d e outage w).0 ≡ ok outage)
          ⊎ (((d == "gitlab") ≡ false)
              × TooMany "gitlab" w.outages
              × ((handle_open text_lt config notices alone now k fresh_global d e outage w).0
                  ≡ err (overflow_error int_too_large)))
    unfolding associate associate_outage_run
    handle_open-outcome d outage w =
        let linked = associate now d outage.outage_id k w in
        let spread = corroborate text_lt config notices alone now fresh_global d e linked in
        elim (corroborate-outcome fresh_global d e linked) [
          | inl q ↦ rw (q, degrade-ok k e outage spread.1) (inl refl)
          | inr (other, m, q) ↦ rw q (inr (other, m, refl))
        ]

    handle_open-IsIn :
        (d : String) (outage : Outage) (row : RunControl) (w : World)
        → run_control k w.runs ≡ some row
        → is_live row.state ≡ true
        → (handle_open text_lt config notices alone now k fresh_global d e outage w).0 ≡ ok outage
        → IsIn dependency_degraded k
            (handle_open text_lt config notices alone now k fresh_global d e outage w).1.runs
    handle_open-IsIn d outage row w p l done =
        let linked = associate now d outage.outage_id k w in
        let spread = corroborate text_lt config notices alone now fresh_global d e linked in
        let after = (degrade text_lt config notices alone now k e outage spread.1).1 in
        elim (corroborate-outcome fresh_global d e linked) [
          | inl q ↦
              rw (q, degrade-ok k e outage spread.1)
                (same-IsIn dependency_degraded k after.runs _
                  (tell-same text_lt config notices now k d e outage after).1
                  (degrade-IsIn k e outage row spread.1
                    (ap (run_control k) (handle_open-runs d outage w) ∙ p) l))
          | inr (other, m, q) ↦ let never = rw q at done in absurd (ground arith)
        ]

    written-TooMany :
        (d : String) (s : OutageStore)
        → (d == "gitlab") ≡ false
        → TooMany "gitlab" (write_failure now fresh d (failure_of config e) s).1
        → TooMany "gitlab" s
    unfolding write_failure put_outage
    written-TooMany d s other m =
        let previous = lookup d s.dependency_outages in
        let row =
          merged_outage (failure_row now fresh (failure_of config e) (continuing previous))
            previous in
        ap (λ o. is_too_large (failures_of (continuing o)))
          (sym (lookup-put d "gitlab" row s.dependency_outages ∙ rw other refl))
        ∙ m

    -- An error of a dependency is handled without an error of its own, unless an outage has failed too
    -- often for its backoff to be computed.
    pub handled-outcome :
        (w : World)
        → is_contract_error e.kind ≡ false
        → ((outage : Outage) × ((handle_dependency_error text_lt config notices alone now k fresh
                fresh_global e w).0
              ≡ ok outage))
          ⊎ ((d : String) × TooMany d w.outages
              × ((handle_dependency_error text_lt config notices alone now k fresh fresh_global e
                    w).0
                  ≡ err (overflow_error int_too_large)))
    unfolding handle_dependency_error
    handled-outcome w c =
        let d = dependency_scope (some k) e in
        let (row, outages) = write_failure now fresh d (failure_of config e) w.outages in
        let opened = record w { outages = outages } in
        elim (open_outage-cases text_lt config notices now fresh d e w) [
          | inl (m, q) ↦ rw (c, q) (inr (d, m, refl))
          | inr q ↦ elim (handle_open-outcome d row opened) [
            | inl done ↦ rw (c, q) (inl (row, done))
            | inr (other, m, x) ↦ rw (c, q) (inr ("gitlab", written-TooMany d w.outages other m, x))
          ]
        ]

    -- Where none has, the run is degraded.
    pub handled-IsIn :
        (row : RunControl) (w : World)
        → is_contract_error e.kind ≡ false
        → ((d : String) → ¬ TooMany d w.outages)
        → run_control k w.runs ≡ some row
        → is_live row.state ≡ true
        → IsIn dependency_degraded k
            (handle_dependency_error text_lt config notices alone now k fresh fresh_global e
              w).1.runs
    unfolding handle_dependency_error
    handled-IsIn row w c few p l =
        let d = dependency_scope (some k) e in
        let (outage, outages) = write_failure now fresh d (failure_of config e) w.outages in
        let opened = record w { outages = outages } in
        elim (open_outage-cases text_lt config notices now fresh d e w) [
          | inl (m, q) ↦ absurd (few d m)
          | inr q ↦ elim (handle_open-outcome d outage opened) [
            | inl done ↦ rw (c, q) (handle_open-IsIn d outage row opened p l done)
            | inr (other, m, x) ↦ absurd (few "gitlab" (written-TooMany d w.outages other m))
          ]
        ]
