-- ===== src/Validators/Graph/Sound.antt =====
-- The search reports a cycle only where there is one.
use hermes_agents_by_kanban.Prelude.{
  ℕ, zero, suc, ◌≡◌, refl, sym, ap, ◌∙◌, subst, ◌⊎◌, inl, inr, String, true, Option, some, List, [],
  ◌∷◌, arith, ◌==◌, text_eq, eq_iff, beq_refl, Bool-cases, Option-cases, contains, length,
}
use hermes_agents_by_kanban.Validators.Graph.{
  Tasks, task_ids, dependencies_of, Search, remove, enter, leave, report_cycle, visit_each, visit,
  unvisited, search_all, has_cycle,
}
use hermes_agents_by_kanban.Validators.Graph.Walks.{Walk, one, HasCycle, Walk-extend}

-- From each task that is being visited there is a walk to this one.
abbrev pub Leads : Tasks → Search → String → Type 0
Leads tasks s t = (v : String) → contains s.visiting v ≡ true → Walk tasks v t

-- A part of the search leaves the stack as it was, and has a cycle behind each report.
pub record Good (tasks : Tasks) (before after : Search) : Type 0 where
  pub same_stack : after.visiting ≡ before.visiting
  pub reported : after.cycle ≡ true → (before.cycle ≡ true) ⊎ HasCycle tasks

Good-refl : (tasks : Tasks) (s : Search) → Good tasks s s
Good-refl tasks s = record { same_stack = refl; reported = λ c. inl c }

Good-trans : {tasks : Tasks} {a b c : Search} → Good tasks a b → Good tasks b c → Good tasks a c
Good-trans g h = record {
  same_stack = h.same_stack ∙ g.same_stack;
  reported = λ r. elim (h.reported r) [ inl q ↦ g.reported q | inr w ↦ inr w ];
}

pub contains-head :
    (t v : String) (ts : List String)
    → contains (t ∷ ts) v ≡ true
    → (t ≡ v) ⊎ (contains ts v ≡ true)
unfolding contains
contains-head t v ts h = elim (Bool-cases (t == v)) [
  | inl p ↦ inl ((eq_iff t v).0 p)
  | inr p ↦ inr (ground arith)
]

pub contains-here : (t : String) (ts : List String) → contains (t ∷ ts) t ≡ true
unfolding contains
contains-here t ts = rw (beq_refl t) refl

pub contains-there :
    (t v : String) (ts : List String) → contains ts v ≡ true → contains (t ∷ ts) v ≡ true
unfolding contains
contains-there t v ts h = ground arith

module _ (tasks : Tasks) (f : String → Search → Option Search) where
  abbrev pub IsSound : Type 0
  IsSound = (d : String) (s s' : Search) → f d s ≡ some s' → Leads tasks s d → Good tasks s s'

  pub visit_each-Good :
      (ds : List String) (s s' : Search)
      → IsSound
      → ((d : String) → contains ds d ≡ true → contains (task_ids tasks) d ≡ true → Leads tasks s d)
      → visit_each (task_ids tasks) f ds s ≡ some s'
      → Good tasks s s'
  unfolding visit_each
  visit_each-Good [] s s' sound leads e = subst (Good tasks s) (ground arith) (Good-refl tasks s)
  visit_each-Good (d ∷ ds) s s' sound leads e = elim (Bool-cases (contains (task_ids tasks) d)) [
    | inl known ↦ elim (Option-cases (f d s)) [
      | inl out ↦ absurd (ground arith)
      | inr (s1, e1) ↦
          let first = sound d s s1 e1 (leads d (contains-here d ds) known) in
          Good-trans first (
            visit_each-Good ds s1 s' sound
              (λ x m k v h.
                leads x (contains-there d x ds m) k v
                  (ap (λ stack. contains stack v) (sym first.same_stack) ∙ h))
              (ground arith))
    ]
    | inr unknown ↦
        visit_each-Good ds s s' sound (λ x m k. leads x (contains-there d x ds m) k) (ground arith)
  ]

Leads-enter :
    (tasks : Tasks) (t d : String) (s : Search)
    → Leads tasks s t
    → contains (dependencies_of tasks t) d ≡ true
    → contains (task_ids tasks) d ≡ true
    → Leads tasks (enter t s) d
Leads-enter tasks t d s leads m k v h = elim (contains-head t v s.visiting h) [
  | inl p ↦ subst (λ x. Walk tasks x d) p (one (m, k))
  | inr p ↦ Walk-extend (leads v p) (m, k)
]

Good-leave :
    (tasks : Tasks) (t : String) (s s' : Search)
    → Good tasks (enter t s) s'
    → Good tasks s (leave t s')
unfolding leave remove
Good-leave tasks t s s' g = record {
  same_stack = ap (remove t) g.same_stack ∙ rw (beq_refl t) refl;
  reported = g.reported;
}

Good-report :
    (tasks : Tasks) (t : String) (s : Search)
    → Leads tasks s t
    → contains s.visiting t ≡ true
    → Good tasks s (report_cycle s)
Good-report tasks t s leads again = record {
  same_stack = refl;
  reported = λ r. inr (t, leads t again);
}

pub visit-Good : (tasks : Tasks) (n : ℕ) → IsSound tasks (visit tasks n)
unfolding visit
visit-Good tasks zero t s s' e leads = absurd (ground arith)
visit-Good tasks (suc n) t s s' e leads = elim (Bool-cases (contains s.visiting t)) [
  | inl again ↦
      subst (Good tasks s) {x = report_cycle s} (ground arith) (Good-report tasks t s leads again)
  | inr new ↦ elim (Bool-cases (contains s.visited t)) [
    | inl old ↦ subst (Good tasks s) (ground arith) (Good-refl tasks s)
    | inr fresh ↦
        let inner =
          visit_each (task_ids tasks) (visit tasks n) (dependencies_of tasks t) (enter t s) in
        elim (Option-cases inner) [
          | inl out ↦ absurd (ground arith)
          | inr (s1, e1) ↦ subst (Good tasks s) (ground arith) (
              Good-leave tasks t s s1 (
                visit_each-Good tasks (visit tasks n) (dependencies_of tasks t) (enter t s) s1
                  (visit-Good tasks n) (λ d m k. Leads-enter tasks t d s leads m k) e1))
        ]
  ]
]

no_stack : (v : String) → ¬ (contains [] v ≡ true)
unfolding contains
no_stack v h = ground arith

-- Each cycle that the search reports is there.
pub has_cycle_sound : (tasks : Tasks) → has_cycle tasks ≡ true → HasCycle tasks
unfolding has_cycle search_all
has_cycle_sound tasks h = elim (Option-cases (search_all tasks)) [
  | inl out ↦ absurd (ground arith)
  | inr (s, e) ↦
      let g =
        visit_each-Good tasks (visit tasks (suc (length (task_ids tasks)))) (task_ids tasks)
          unvisited s (visit-Good tasks (suc (length (task_ids tasks))))
          (λ d m k v none. absurd (no_stack v none)) e in
      elim (g.reported (ground arith)) [ inl p ↦ absurd (ground arith) | inr w ↦ w ]
]
