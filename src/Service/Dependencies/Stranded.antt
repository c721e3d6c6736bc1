-- ===== src/Service/Dependencies/Stranded.antt =====
-- No run stays degraded once the outages that stopped it are over (hollysys_controller/service.py).
use hermes_agents_by_kanban.Store.RunControl.Cases.{Result-cases}
use hermes_agents_by_kanban.Prelude.{
  ℕ, ◌≡◌, refl, sym, subst, inl, inr, String, Bool, Option, none, some, arith, text_eq, contains,
  Option-cases, Bool-cases,
}
use hermes_agents_by_kanban.Table.{lookup}
use hermes_agents_by_kanban.Store.Outage.{
  Outage, OutageStore, continuing, recover_dependency, outage_run_keys, open_dependency_outages,
}
use hermes_agents_by_kanban.Service.Dependencies.{
  dependency_scope, DependencyError, Settings, Notices, World, open_outage, scoped,
}
use hermes_agents_by_kanban.Service.Dependencies.Handling.{
  record_request_dependency_error, open_request_outage, is_of_run, key_or_empty,
  handle_dependency_error,
}
use hermes_agents_by_kanban.Service.Dependencies.Recovery.{
  finish_recovered, recover_and_finish, finish_dependency_recovery, due_outage, recover_due,
  recover_run_dependency, probe_gitlab, mark_half_open, recover_gitlab_due, recover_gitlab_circuit,
}
use hermes_agents_by_kanban.Service.Dependencies.Links.{probe-affecting, recover-affecting}
use hermes_agents_by_kanban.Service.Dependencies.Postponing.{postpone_each-Covered}
use hermes_agents_by_kanban.Service.Dependencies.Settling.{alone, Covered, settle_each-Covered}
use hermes_agents_by_kanban.Service.Dependencies.Opening.{
  NoneStranded-at, NoneStranded, Opens, to_Covered, of_Covered, Opens-NoneStranded,
  open_outage-Opens, handled-NoneStranded,
}

module _ (text_lt : String → String → Bool) where
  module _ (config : Settings) (notices : Notices) (now : ℕ) where
    recovered_outage :
        (d : String) (q : Outage) (s : OutageStore)
        → continuing (lookup d s.dependency_outages) ≡ some q
        → (r : Outage) × ((recover_dependency now d s).0 ≡ some r) × (r.outage_id ≡ q.outage_id)
    unfolding recover_dependency
    recovered_outage d q s e =
        rw e (record q { recovered_at = some now; last_success_at = some now }, refl, refl)

    not_recovered :
        (d : String) (s : OutageStore)
        → continuing (lookup d s.dependency_outages) ≡ none
        → recover_dependency now d s ≡ (none, s)
    unfolding recover_dependency
    not_recovered d s e = rw e refl

    -- The runs of the outage that ends are still to be settled.
    recovered-Covered :
        (d : String) (q : Outage) (w : World)
        → continuing (lookup d w.outages.dependency_outages) ≡ some q
        → NoneStranded text_lt w
        → (let after = (recover_dependency now d w.outages).1 in
            Covered text_lt
              (outage_run_keys text_lt d q.outage_id after)
              (record w { outages = after }))
    recovered-Covered d q w e h = record {
      at_run = λ k row p x. recover-affecting text_lt now d q w.outages k e (h.stopped k row p x);
    }

    finish_recovered-NoneStranded :
        (d : String) (r : Outage) (o : Option Outage) (s : OutageStore) (w : World)
        → o ≡ some r
        → Covered text_lt (outage_run_keys text_lt d r.outage_id s) (record w { outages = s })
        → NoneStranded text_lt (finish_recovered text_lt config notices alone now d w (o, s)).1
    unfolding finish_dependency_recovery
    finish_recovered-NoneStranded d r none s w e c = ground arith
    finish_recovered-NoneStranded d r (some q) s w e c =
        let same : q ≡ r = cc in
        rw same (
          of_Covered text_lt
            (settle_each-Covered text_lt config notices now d r
              (outage_run_keys text_lt d r.outage_id s) (record w { outages = s }) c).1)

    recover_and_finish-NoneStranded :
        (d : String) (w : World)
        → NoneStranded text_lt w
        → NoneStranded text_lt (recover_and_finish text_lt config notices alone now d w).1
    unfolding recover_and_finish
    recover_and_finish-NoneStranded d w h =
        elim (Option-cases (continuing (lookup d w.outages.dependency_outages))) [
          | inl e ↦ rw (not_recovered d w.outages e) h
          | inr (q, e) ↦
              let (r, found, same) = recovered_outage d q w.outages e in
              let after = (recover_dependency now d w.outages).1 in
              finish_recovered-NoneStranded d r (recover_dependency now d w.outages).0 after w found
                (subst
                  (λ id.
                    Covered text_lt (outage_run_keys text_lt d id after)
                      (record w { outages = after }))
                  (sym same) (recovered-Covered d q w e h))
        ]

    recover_due-NoneStranded :
        (k d : String) (o : Option Outage) (w : World)
        → NoneStranded text_lt w
        → NoneStranded text_lt (recover_due text_lt config notices alone now k d o w).1
    recover_due-NoneStranded k d none w h = h
    recover_due-NoneStranded k d (some row) w h =
        elim (Bool-cases (contains (outage_run_keys text_lt d row.outage_id w.outages) k)) [
          | inl p ↦ rw p (recover_and_finish-NoneStranded d w h)
          | inr p ↦ rw p h
        ]

    request_outage-NoneStranded :
        (fresh : String) (e : DependencyError) (w : World)
        → NoneStranded text_lt w
        → NoneStranded text_lt (open_request_outage text_lt config notices alone now fresh e w).1
    unfolding open_request_outage
    request_outage-NoneStranded fresh e w h =
        let opened =
          Opens-NoneStranded text_lt
            (open_outage-Opens text_lt config notices now fresh (dependency_scope none e) e w) h in
        elim (Result-cases (open_outage config now fresh (dependency_scope none e) e w)) [
          | inl (row, s, q) ↦
              let at_end = NoneStranded-at text_lt q opened in
              rw q (record { stopped = λ k row q d. at_end.stopped k row q d })
          | inr (x, s, q) ↦ rw q (NoneStranded-at text_lt q opened)
        ]

    requested-NoneStranded :
        (o : Option String) (fresh fresh_global : String) (e : DependencyError) (w : World)
        → NoneStranded text_lt w
        → NoneStranded text_lt
            (record_request_dependency_error text_lt config notices alone now o fresh fresh_global e
              w).1
    unfolding record_request_dependency_error
    requested-NoneStranded o fresh fresh_global e w h =
        elim (Bool-cases (is_of_run text_lt config notices alone now o w)) [
          | inl p ↦ rw p (
              handled-NoneStranded text_lt config notices now
                (key_or_empty text_lt config notices alone now o) fresh fresh_global e w h)
          | inr p ↦ rw p (request_outage-NoneStranded fresh e w h)
        ]

    mark_half_open-Opens :
        (w : World) → Opens text_lt w (mark_half_open text_lt config notices alone now w)
    mark_half_open-Opens w = record {
      same_runs = refl;
      still = λ k a. probe-affecting text_lt now "gitlab" w.outages k a;
    }

    probe_gitlab-NoneStranded :
        (fresh : String) (health : Option DependencyError) (w : World)
        → NoneStranded text_lt w
        → NoneStranded text_lt (probe_gitlab text_lt config notices alone now fresh health w).1
    probe_gitlab-NoneStranded fresh none w h = recover_and_finish-NoneStranded "gitlab" w h
    probe_gitlab-NoneStranded fresh (some e) w h =
        let opened =
          Opens-NoneStranded text_lt
            (open_outage-Opens text_lt config notices now fresh "gitlab" e w) h in
        elim (Result-cases (open_outage config now fresh "gitlab" e w)) [
          | inl (row, s, q) ↦
              let start = NoneStranded-at text_lt q opened in
              rw q (
                of_Covered text_lt
                  (postpone_each-Covered text_lt config notices now e row
                    (outage_run_keys text_lt "gitlab" row.outage_id s.outages) s
                    (to_Covered text_lt start)).1)
          | inr (x, s, q) ↦ rw q (NoneStranded-at text_lt q opened)
        ]

    recover_gitlab_due-NoneStranded :
        (fresh : String) (health : Option DependencyError) (o : Option Outage) (w : World)
        → NoneStranded text_lt w
        → NoneStranded text_lt
            (recover_gitlab_due text_lt config notices alone now fresh health o w).1
    recover_gitlab_due-NoneStranded fresh health none w h = h
    recover_gitlab_due-NoneStranded fresh health (some row) w h =
        probe_gitlab-NoneStranded fresh health (mark_half_open text_lt config notices alone now w)
          (Opens-NoneStranded text_lt (mark_half_open-Opens w) h)

  -- What the controller does about dependencies, in any order, at any times.
  pub data DependencySteps (config : Settings) (notices : Notices) : World → World → Type 0 where
    here : {w : World} → DependencySteps config notices w w
    handled :
        {v w : World} (now : ℕ) (run_key fresh fresh_global : String) (e : DependencyError)
        → DependencySteps config notices v w
        → DependencySteps config notices v
            (handle_dependency_error text_lt config notices alone now run_key fresh fresh_global e
              w).1
    request_failed :
        {v w : World} (now : ℕ) (run_key : Option String) (fresh fresh_global : String)
        (e : DependencyError)
        → DependencySteps config notices v w
        → DependencySteps config notices v
            (record_request_dependency_error text_lt config notices alone now run_key fresh
              fresh_global e w).1
    run_recovered :
        {v w : World} (now : ℕ) (run_key dependency : String)
        → DependencySteps config notices v w
        → DependencySteps config notices v
            (recover_run_dependency text_lt config notices alone now run_key dependency w).1
    gitlab_recovered :
        {v w : World} (now : ℕ) (fresh : String) (health : Option DependencyError)
        → DependencySteps config notices v w
        → DependencySteps config notices v
            (recover_gitlab_circuit text_lt config notices alone now fresh health w).1

  -- While no other connection writes, whatever fails for a run or a request, and whenever GitLab is
  -- probed or a dependency of a run recovers, in any order and at any times: where each run that is
  -- degraded was stopped by an outage that is open, each still is. So a recovery strands no run: the
  -- run is taken up again, or another outage stops it.
  pub DependencySteps-NoneStranded :
      {config : Settings} {notices : Notices} {v w : World}
      → DependencySteps config notices v w
      → NoneStranded text_lt v
      → NoneStranded text_lt w
  unfolding recover_run_dependency recover_gitlab_circuit
  DependencySteps-NoneStranded here h = h
  DependencySteps-NoneStranded {config} {notices}
        (handled {w = w} now run_key fresh fresh_global e g) h =
      handled-NoneStranded text_lt config notices now run_key fresh fresh_global e w
        (DependencySteps-NoneStranded g h)
  DependencySteps-NoneStranded {config} {notices}
        (request_failed {w = w} now run_key fresh fresh_global e g) h =
      requested-NoneStranded config notices now run_key fresh fresh_global e w
        (DependencySteps-NoneStranded g h)
  DependencySteps-NoneStranded {config} {notices} (run_recovered {w = w} now run_key dependency g)
        h =
      let d = scoped dependency run_key in
      recover_due-NoneStranded config notices now run_key d
        (due_outage now d (open_dependency_outages w.outages)) w (DependencySteps-NoneStranded g h)
  DependencySteps-NoneStranded {config} {notices} (gitlab_recovered {w = w} now fresh health g) h =
      recover_gitlab_due-NoneStranded config notices now fresh health
        (due_outage now "gitlab" (open_dependency_outages w.outages)) w
        (DependencySteps-NoneStranded g h)
