-- ===== src/Service/Reconciling/Contained.antt =====
-- What goes wrong with a run stays with the run (hollysys_controller/service.py), while no other
-- connection writes.
use hermes_agents_by_kanban.Prelude.{
  ℕ, ◌≡◌, refl, ap, ◌∙◌, ◌⊎◌, inl, inr, String, Bool, true, false, some, List, [], ◌∷◌, arith,
  text_eq, ◌≤◌, ◌<◌, contains, if◌then◌else◌, Bool-cases,
}
use hermes_agents_by_kanban.Exec.{Result, ok, err}
use hermes_agents_by_kanban.Store.RunState.{RunState, dependency_degraded, exception}
use hermes_agents_by_kanban.Store.Runs.{RunControl}
use hermes_agents_by_kanban.Store.RunControl.{run_control}
use hermes_agents_by_kanban.Table.{lookup}
use hermes_agents_by_kanban.Store.Outage.{Outage, OutageStore, int_too_large}
use hermes_agents_by_kanban.Service.Dependencies.{
  overflow_error, DependencyError, Settings, Notices, World, ServiceError, ServiceExec, is_live,
  is_contract_error, dependency_retry_blocked,
}
use hermes_agents_by_kanban.Service.Dependencies.Settling.{alone}
use hermes_agents_by_kanban.Service.Reconciling.{
  RunFailure, dependency_failure, policy_failure, invalid_value, fatal, unexpected, Interruption,
  superseded, failed, PolicyError, controller_fatal, unhandled, Host, HostExec, Failures, discard,
  on_world, on_world_result, released, finally_released, reconcile_run, reconcile_and_recover,
  handle_dependency, handle_failure, reconcile_run_with_policy, record_run_exception,
}
use hermes_agents_by_kanban.Service.Reconciling.Kept.{handle_failure-Kept, continued-Kept}
use hermes_agents_by_kanban.Service.Reconciling.Degrading.{
  TooMany, TooMany-row, handled-outcome, handled-IsIn,
}
use hermes_agents_by_kanban.Service.Reconciling.Handlers.{
  IsIn, recorded-IsIn, same-IsIn, record_run_exception-result,
}

abbrev is_fatal : Result RunFailure (Unit {0}) → Bool
is_fatal (err (fatal text)) = true
is_fatal (err (unexpected text)) = true
is_fatal _ = false

-- The state in which an error leaves a run that was live.
abbrev pub state_after : RunFailure → RunState → RunState
state_after (dependency_failure e) q =
    if is_contract_error e.kind then exception else dependency_degraded
state_after (policy_failure text) q = exception
state_after (invalid_value text) q = exception
state_after (fatal text) q = q
state_after (unexpected text) q = q

discard-contains : (k : String) (ks : List String) → contains (discard k ks) k ≡ false
unfolding discard contains
discard-contains k [] = refl
discard-contains k (j ∷ js) = ground (arith, discard-contains k js)

on_world_result-world :
    {E A : Type 0} (f : ServiceError → E) (h : Host) (p : Result ServiceError A × World)
    → (on_world_result f h p).1.world ≡ p.1
on_world_result-world f h (ok a, w) = refl
on_world_result-world f h (err e, w) = refl

on_world-IsIn :
    {E A : Type 0} (f : ServiceError → E) (q : RunState) (k : String) (m : ServiceExec A) (h : Host)
    → IsIn q k (m h.world).1.runs
    → IsIn q k (on_world f m h).1.world.runs
on_world-IsIn f q k m h i =
    same-IsIn q k (m h.world).1.runs (on_world f m h).1.world.runs
      (ap (λ (w : World). w.runs) (on_world_result-world f h (m h.world))) i

-- Nothing was raised, or a fatal error that the reconciliation raised, or an error of reading the card
-- of the run for a notice, or the overflow of a backoff after 1024 failures in a row.
pub Contained :
    Failures → String → Result RunFailure (Unit {0}) × Host → Result PolicyError (Unit {0}) → Type 0
Contained failures k (body, h) r =
    (r ≡ ok tt)
    ⊎ (((text : String) × (is_fatal body ≡ true) × (r ≡ err (controller_fatal text)))
        ⊎ (((f : RunFailure) × (e : ServiceError) × (failures.payload k f ≡ err e)
              × (r ≡ err (unhandled e)))
            ⊎ ((d : String) × (row : Outage) × (lookup d h.world.outages.dependency_outages
                  ≡ some row)
                × (1024 ≤ row.failures)
                × (r ≡ err (unhandled (overflow_error int_too_large))))))

module _ (text_lt : String → String → Bool) (config : Settings) (notices : Notices)
    (failures : Failures) (now : ℕ) (act : String → HostExec Interruption (Unit {0}))
    (k fresh fresh_global : String) where
  recorded-Contained :
      (body : Result RunFailure (Unit {0})) (f : RunFailure) (h : Host)
      → Contained failures k
          (body, h)
          (on_world unhandled
            (record_run_exception text_lt config notices failures alone now k f)
            h).0
  unfolding Contained
  recorded-Contained body f h =
      elim (record_run_exception-result text_lt config notices failures now k f h.world) [
        | inl e ↦ rw e (inl refl)
        | inr (e, p, q) ↦ rw q (inr (inr (inl (f, e, p, refl))))
      ]

  dependency-Contained :
      (body : Result RunFailure (Unit {0})) (e : DependencyError) (h : Host)
      → Contained failures k
          (body, h)
          (on_world unhandled
            (handle_dependency text_lt config notices failures alone now act k fresh fresh_global e)
            h).0
  unfolding Contained
  dependency-Contained body e h = elim (Bool-cases (is_contract_error e.kind)) [
    | inl c ↦ rw c (recorded-Contained body (dependency_failure e) h)
    | inr c ↦
        elim (handled-outcome text_lt config notices failures now k fresh fresh_global e h.world
          c) [
            | inl (outage, done) ↦ rw (c, done) (inl refl)
            | inr (d, m, raised) ↦
                let (row, found, many) = TooMany-row d h.world.outages m in
                rw (c, raised) (inr (inr (inr (d, row, found, many, refl))))
          ]
  ]

  handle_failure-Contained :
      (r : Result RunFailure (Unit {0})) (h : Host)
      → Contained failures k
          (r, h)
          (handle_failure text_lt config notices failures alone now act k fresh fresh_global
            (r, h)).0
  unfolding Contained
  handle_failure-Contained (ok done) h = inl refl
  handle_failure-Contained (err (dependency_failure e)) h =
      dependency-Contained (err (dependency_failure e)) e h
  handle_failure-Contained (err (policy_failure text)) h =
      recorded-Contained (err (policy_failure text)) (policy_failure text) h
  handle_failure-Contained (err (invalid_value text)) h =
      recorded-Contained (err (invalid_value text)) (invalid_value text) h
  handle_failure-Contained (err (fatal text)) h = inr (inl (text, refl, refl))
  handle_failure-Contained (err (unexpected text)) h = inr (inl (_, refl, refl))

  finally-free :
      (p : Result Interruption (Unit {0}) × Host)
      → contains
          (finally_released text_lt config notices failures alone now act k p).1.reconciling_runs
          k
        ≡ false
  finally-free (ok done, h) = discard-contains k h.reconciling_runs
  finally-free (err superseded, h) = discard-contains k h.reconciling_runs
  finally-free (err (failed e), h) = discard-contains k h.reconciling_runs

  body-free :
      (h : Host)
      → contains h.reconciling_runs k ≡ false
      → contains
          (reconcile_and_recover text_lt config notices failures alone now act k
            h).1.reconciling_runs
          k
        ≡ false
  unfolding reconcile_run
  body-free h free =
      let begun = act k (record h { reconciling_runs = k ∷ h.reconciling_runs }) in
      let ended = finally_released text_lt config notices failures alone now act k begun in
      let kept =
        continued-Kept text_lt config notices failures alone now act k fresh fresh_global ended in
      rw (free, kept.same_runs) (finally-free begun)

  -- While no other connection writes, whatever the reconciliation of a run writes and raises: no
  -- error leaves `_reconcile_run_with_policy` but a fatal error, which it leaves only if one was raised
  -- inside, an error of reading the card of the run for a notice, or the overflow of a backoff, which
  -- it leaves only if an outage has failed 1024 times or more. And if nobody was reconciling the run
  -- before, nobody is reconciling it afterwards.
  pub reconcile_run_with_policy-Contained :
      (h : Host)
      → contains h.reconciling_runs k ≡ false
      → (let after =
            reconcile_run_with_policy text_lt config notices failures alone now act k fresh
              fresh_global h in
          let body = reconcile_and_recover text_lt config notices failures alone now act k h in
          Contained failures k body after.0 × (contains after.1.reconciling_runs k ≡ false))
  unfolding reconcile_run_with_policy Contained
  reconcile_run_with_policy-Contained h free =
      elim (Bool-cases (dependency_retry_blocked now "gitlab" h.world)) [
        | inl b ↦ rw b (inl refl, free)
        | inr b ↦
            let (r, after) =
              reconcile_and_recover text_lt config notices failures alone now act k h in
            rw b (
              handle_failure-Contained r after,
              ap (λ runs. contains runs k)
                    (handle_failure-Kept text_lt config notices failures alone now act k fresh
                      fresh_global r after).same_runs
                  ∙ body-free h free,
            )
      ]

  recorded-after :
      (f : RunFailure) (row : RunControl) (h : Host)
      → run_control k h.world.runs ≡ some row
      → is_live row.state ≡ true
      → IsIn exception k
          (on_world unhandled
            (record_run_exception text_lt config notices failures alone now k f)
            h).1.world.runs
  recorded-after f row h p l =
      on_world-IsIn unhandled exception k
        (record_run_exception text_lt config notices failures alone now k f) h
        (recorded-IsIn text_lt config notices failures now k f row h.world p l)

  dependency-after :
      (e : DependencyError) (row : RunControl) (h : Host)
      → ((d : String) → ¬ TooMany d h.world.outages)
      → run_control k h.world.runs ≡ some row
      → is_live row.state ≡ true
      → IsIn
          (state_after (dependency_failure e) row.state)
          k
          (on_world unhandled
            (handle_dependency text_lt config notices failures alone now act k fresh fresh_global e)
            h).1.world.runs
  dependency-after e row h few p l = elim (Bool-cases (is_contract_error e.kind)) [
    | inl c ↦ rw c (recorded-after (dependency_failure e) row h p l)
    | inr c ↦
        elim (handled-outcome text_lt config notices failures now k fresh fresh_global e h.world
          c) [
            | inl (outage, done) ↦
                rw (c, done)
                  (handled-IsIn text_lt config notices failures now k fresh fresh_global e row
                    h.world c few p l)
            | inr (d, m, raised) ↦ absurd (few d m)
          ]
  ]

  after_failure :
      (f : RunFailure) (row : RunControl) (h : Host)
      → ((d : String) → ¬ TooMany d h.world.outages)
      → run_control k h.world.runs ≡ some row
      → is_live row.state ≡ true
      → IsIn
          (state_after f row.state)
          k
          (handle_failure text_lt config notices failures alone now act k fresh fresh_global
            (err f, h)).1.world.runs
  after_failure (dependency_failure e) row h few p l = dependency-after e row h few p l
  after_failure (policy_failure text) row h few p l = recorded-after (policy_failure text) row h p l
  after_failure (invalid_value text) row h few p l = recorded-after (invalid_value text) row h p l
  after_failure (fatal text) row h few p l = record { row = row; found = p; in_state = refl }
  after_failure (unexpected text) row h few p l = record { row = row; found = p; in_state = refl }

  few_failures :
      (s : OutageStore)
      → ((d : String) (o : Outage) → lookup d s.dependency_outages ≡ some o → o.failures < 1024)
      → (d : String) → ¬ TooMany d s
  few_failures s few d m =
      let (row, found, many) = TooMany-row d s m in let less = few d row found in omega arith

  -- While no other connection writes, where GitLab is not backing off and nobody is reconciling the
  -- run: if its reconciliation raises, the run is then live, and no outage has then failed 1024 times
  -- in a row, the run is stopped as an exception if the error is one of its own or of a contract, is
  -- degraded if a dependency failed otherwise, and stays in its state if the error is fatal.
  pub reconcile_run_with_policy-state :
      (f : RunFailure) (row : RunControl) (h h' : Host)
      → dependency_retry_blocked now "gitlab" h.world ≡ false
      → contains h.reconciling_runs k ≡ false
      → act k (record h { reconciling_runs = k ∷ h.reconciling_runs }) ≡ (err (failed f), h')
      → ((d : String) (o : Outage)
          → lookup d h'.world.outages.dependency_outages ≡ some o
          → o.failures < 1024)
      → run_control k h'.world.runs ≡ some row
      → is_live row.state ≡ true
      → IsIn
          (state_after f row.state)
          k
          (reconcile_run_with_policy text_lt config notices failures alone now act k fresh
            fresh_global h).1.world.runs
  unfolding reconcile_run_with_policy reconcile_run
  reconcile_run_with_policy-state f row h h' b free e few p l =
      rw (b, free, e)
        (after_failure f row (released text_lt config notices failures alone now act k h')
          (few_failures h'.world.outages few) p l)
