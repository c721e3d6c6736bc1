-- ===== src/Service/Dependencies/Postponing.antt =====
-- Runs of an outage that goes on (hollysys_controller/service.py), while no other connection writes.
use hermes_agents_by_kanban.Prelude.{
  ℕ, ◌≡◌, refl, String, Bool, true, false, Option, none, some, List, [], ◌∷◌, text_eq, nat_eq,
}
use hermes_agents_by_kanban.Exec.{ok}
use hermes_agents_by_kanban.Store.RunState.{dependency_degraded}
use hermes_agents_by_kanban.Store.Runs.{RunControl}
use hermes_agents_by_kanban.Store.RunControl.{run_control}
use hermes_agents_by_kanban.Store.Outage.{Outage}
use hermes_agents_by_kanban.Service.Dependencies.{
  DependencyError, Settings, Notices, World, is_degraded, is_same_state, retry_transition,
  enqueue_dependency_outage, transition_from, degraded_reason,
}
use hermes_agents_by_kanban.Service.Dependencies.Recovery.{
  postpone_if, postpone_one, postpone_found, postpone_each,
}
use hermes_agents_by_kanban.Service.Dependencies.Settling.{
  alone, Covered, stopped_now, weaken-Covered, degraded_same, same-Covered, then-Covered,
  outage_notice, transition-Covered,
}

module _ (text_lt : String → String → Bool) (config : Settings) (notices : Notices) (now : ℕ) where
  postpone_if-Covered :
      (b : Bool) (k : String) (e : DependencyError) (updated : Outage) (control : RunControl)
      (w : World)
      → is_degraded control.state ≡ b
      → run_control k w.runs ≡ some control
      → Covered text_lt [] w
      → ((postpone_if text_lt config notices alone now b k e updated control w).0 ≡ ok tt)
        × Covered text_lt []
            (postpone_if text_lt config notices alone now b k e updated control w).1
  unfolding transition_from retry_transition
  postpone_if-Covered true k e updated control w q p c =
      let done =
        transition-Covered text_lt config notices now k control (is_same_state control.state)
          (retry_transition dependency_degraded (degraded_reason e) control.state_version
            updated.next_retry_at)
          [] w p (degraded_same text_lt control.state q) refl refl
          (λ d. stopped_now text_lt k control w p q c) (weaken-Covered text_lt k w c) in
      rw done.0 (refl, done.1)
  postpone_if-Covered false k e updated control w q p c = (refl, c)

  postpone_found-Covered :
      (k : String) (e : DependencyError) (updated : Outage) (o : Option RunControl) (w : World)
      → run_control k w.runs ≡ o
      → Covered text_lt [] w
      → ((postpone_found text_lt config notices alone now k e updated o w).0 ≡ ok tt)
        × Covered text_lt [] (postpone_found text_lt config notices alone now k e updated o w).1
  postpone_found-Covered k e updated none w p c = (refl, c)
  postpone_found-Covered k e updated (some control) w p c =
      postpone_if-Covered (is_degraded control.state) k e updated control w refl p c

  postpone_one-Covered :
      (e : DependencyError) (updated : Outage) (k : String) (w : World)
      → Covered text_lt [] w
      → ((postpone_one text_lt config notices alone now e updated k w).0 ≡ ok tt)
        × Covered text_lt [] (postpone_one text_lt config notices alone now e updated k w).1
  unfolding postpone_one
  postpone_one-Covered e updated k w c =
      let found = postpone_found-Covered k e updated (run_control k w.runs) w refl c in
      let after =
        (postpone_found text_lt config notices alone now k e updated (run_control k w.runs) w).1 in
      let told = outage_notice text_lt config notices now k "gitlab" updated after in
      rw found.0 (
        refl,
        same-Covered text_lt [] after
            (enqueue_dependency_outage config notices now k "gitlab" updated after) told.0 told.1
            found.1,
      )

  pub postpone_each-Covered :
      (e : DependencyError) (updated : Outage) (ks : List String) (w : World)
      → Covered text_lt [] w
      → ((postpone_each text_lt config notices alone now e updated ks w).0 ≡ ok tt)
        × Covered text_lt [] (postpone_each text_lt config notices alone now e updated ks w).1
  unfolding postpone_each
  postpone_each-Covered e updated [] w c = (refl, c)
  postpone_each-Covered e updated (k ∷ ks) w c =
      let one = postpone_one-Covered e updated k w c in
      then-Covered text_lt [] (postpone_one text_lt config notices alone now e updated k)
        (postpone_each text_lt config notices alone now e updated ks) w one.0
        (postpone_each-Covered e updated ks
          (postpone_one text_lt config notices alone now e updated k w).1 one.1)
