-- ===== src/Examples/Dependencies.antt =====
-- A run that an error of a dependency degrades, and that is taken up again
-- (hollysys_controller/service.py).
use hermes_agents_by_kanban.Prelude.{
  ℕ, ◌≡◌, refl, sym, ap, ◌∙◌, inl, inr, Bool-cases, ◌==◌, String, Bool, true, false, ◌||◌, ◌&&◌,
  Option, none, some, [], ◌∷◌, ltb, text_eq, arith,
}
use Prim.Native.Char.{code}
use hermes_agents_by_kanban.Prelude
use hermes_agents_by_kanban.Table.{lookup}
use hermes_agents_by_kanban.Store.Runs.{RunControl}
use hermes_agents_by_kanban.Store.RunState.{active}
use hermes_agents_by_kanban.Store.RunControl.{new_row, run_control}
use hermes_agents_by_kanban.Service.Dependencies.{
  DependencyError, transient, Settings, Notices, World, is_degraded,
}
use hermes_agents_by_kanban.Service.Dependencies.Settling.{alone}
use hermes_agents_by_kanban.Service.Dependencies.Handling.{handle_dependency_error}
use hermes_agents_by_kanban.Service.Dependencies.Recovery.{recover_run_dependency}
use hermes_agents_by_kanban.Service.Dependencies.Opening.{NoneStranded}
use hermes_agents_by_kanban.Service.Dependencies.Stranded.{
  DependencySteps, here, handled, run_recovered, DependencySteps-NoneStranded,
}

unfoldable pub text_before : String → String → Bool
text_before String.[] String.[] = false
text_before String.[] (String.◌∷◌ d t) = true
text_before (String.◌∷◌ c s) String.[] = false
text_before (String.◌∷◌ c s) (String.◌∷◌ d t) =
    let rest = text_before s t in
    ltb (code c) (code d) || (Prelude.nat_beq (code c) (code d) && rest)

abbrev pub settings : Settings
settings = record {
  dependency_backoff_initial_seconds = 5;
  dependency_backoff_max_seconds = 300;
  dependency_circuit_failure_threshold = 2;
  minimal = false;
}

abbrev pub notices : Notices
notices = record {
  outage = λ run_key dependency outage. some "outage";
  recovered = λ now run_key dependency outage. some "recovered";
}

abbrev refused : DependencyError
refused = record {
  kind = transient;
  text = "connection refused";
  dependency = "gitlab";
  endpoint = none;
  retry_after_seconds = none;
  error_code = some "502";
}

abbrev pub quiet_world : World
quiet_world = record {
  outages = record {
    dependency_outages = [];
    dependency_outage_runs = [];
    dependency_outage_history = [];
  };
  runs = record { run_control = ("run", new_row 10) ∷ []; abort_requests = []; merge_wait = [] };
  outbox = [];
  last_reconcile_error = none;
}

abbrev degraded_world : World
degraded_world =
    (handle_dependency_error text_before settings notices alone 100 "run" "o-1" "o-2" refused
      quiet_world).1

abbrev recovered_world : World
recovered_world =
    (recover_run_dependency text_before settings notices alone 130 "run" "gitlab" degraded_world).1

quiet_world-idle :
    (k : String) (row : RunControl)
    → run_control k quiet_world.runs ≡ some row
    → is_degraded row.state ≡ true
    → ⊥
unfolding run_control lookup
quiet_world-idle k row p d = elim (Bool-cases ("run" == k)) [
  | inl q ↦
      let found : some (new_row 10) ≡ some row = sym (rw q refl) ∙ p in
      let same : new_row 10 ≡ row = cc in
      let never : is_degraded active ≡ true = ap (λ r. is_degraded r.state) same ∙ d in cc
  | inr q ↦ let missing : none ≡ some row = sym (rw q refl) ∙ p in cc
]

quiet_world-NoneStranded : NoneStranded text_before quiet_world
quiet_world-NoneStranded = record { stopped = λ k row p d. absurd (quiet_world-idle k row p d) }

dependency_history : DependencySteps text_before settings notices quiet_world recovered_world
dependency_history = run_recovered 130 "run" "gitlab" (handled 100 "run" "o-1" "o-2" refused here)

DependencySteps-NoneStranded_example : NoneStranded text_before recovered_world
DependencySteps-NoneStranded_example =
    DependencySteps-NoneStranded text_before dependency_history quiet_world-NoneStranded
