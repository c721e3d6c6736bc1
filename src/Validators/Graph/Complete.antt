-- ===== src/Validators/Graph/Complete.antt =====
-- A search that ends without a report has put all tasks in an order of their dependencies.
use hermes_agents_by_kanban.Prelude.{
  ℕ, zero, suc, ◌≡◌, sym, ap, ◌∙◌, subst, inl, inr, String, true, false, Option, some, List, [],
  ◌∷◌, arith, text_eq, Bool-cases, Option-cases, contains,
}
use hermes_agents_by_kanban.Validators.Graph.{
  Tasks, task_ids, dependencies_of, Search, enter, leave, report_cycle, visit_each, visit,
}
use hermes_agents_by_kanban.Validators.Graph.Walks.{Edge, Walk, one, more, Walk-extend}
use hermes_agents_by_kanban.Validators.Graph.Sound.{contains-here, contains-there, contains-head}

-- Each task stands before all tasks that it depends on.
abbrev pub IsTopological : Tasks → List String → Type 0
IsTopological tasks [] = Unit {0}
IsTopological tasks (t ∷ ts) =
    ((d : String) → Edge tasks t d → contains ts d ≡ true) × IsTopological tasks ts

pub no_member : (v : String) → ¬ (contains [] v ≡ true)
unfolding contains
no_member v h = ground arith

-- The first task of an order is on no cycle, since the walk would turn inside the rest of it.
first_cycle :
    (tasks : Tasks) (ts : List String) (t : String)
    → ((x : String) → IsTopological tasks ts → contains ts x ≡ true → ¬ Walk tasks x x)
    → ((d : String) → Edge tasks t d → contains ts d ≡ true)
    → IsTopological tasks ts
    → ¬ Walk tasks t t
first_cycle tasks ts t rest later order (one e) = rest t order (later t e) (one e)
first_cycle tasks ts t rest later order (more {b = b} e w) =
    rest b order (later b e) (Walk-extend w e)

-- No task of such an order is on a cycle.
pub no_cycle_in_order :
    (tasks : Tasks) (ts : List String) (t : String)
    → IsTopological tasks ts
    → contains ts t ≡ true
    → ¬ Walk tasks t t
no_cycle_in_order tasks [] t order m w = absurd (no_member t m)
no_cycle_in_order tasks (x ∷ ts) t (later, order) m w = elim (contains-head x t ts m) [
  | inl p ↦
      first_cycle tasks ts x (no_cycle_in_order tasks ts) later order
        (subst (λ y. Walk tasks y y) (sym p) w)
  | inr there ↦ no_cycle_in_order tasks ts t order there w
]

-- What a part of the search that reports nothing new has done.
pub record Covers (tasks : Tasks) (before after : Search) : Type 0 where
  pub quiet : after.cycle ≡ false → before.cycle ≡ false
  pub kept : (x : String) → contains before.visited x ≡ true → contains after.visited x ≡ true
  pub ordered :
      after.cycle ≡ false → IsTopological tasks before.visited → IsTopological tasks after.visited

Covers-refl : (tasks : Tasks) (s : Search) → Covers tasks s s
Covers-refl tasks s = record { quiet = λ q. q; kept = λ x m. m; ordered = λ q o. o }

Covers-trans :
    {tasks : Tasks} {a b c : Search} → Covers tasks a b → Covers tasks b c → Covers tasks a c
Covers-trans g h = record {
  quiet = λ q. g.quiet (h.quiet q);
  kept = λ x m. h.kept x (g.kept x m);
  ordered = λ q o. h.ordered q (g.ordered (h.quiet q) o);
}

-- With the task itself visited, where nothing is reported.
abbrev pub Finishes : Tasks → String → Search → Search → Type 0
Finishes tasks d s s' = Covers tasks s s' × (s'.cycle ≡ false → contains s'.visited d ≡ true)

abbrev pub IsComplete : Tasks → (String → Search → Option Search) → Type 0
IsComplete tasks f = (d : String) (s s' : Search) → f d s ≡ some s' → Finishes tasks d s s'

abbrev pub AllVisited : Tasks → List String → Search → Type 0
AllVisited tasks ds s =
    (x : String)
    → contains ds x ≡ true
    → contains (task_ids tasks) x ≡ true
    → contains s.visited x ≡ true

AllVisited-cons :
    (tasks : Tasks) (d : String) (ds : List String) (s : Search)
    → (contains (task_ids tasks) d ≡ true → contains s.visited d ≡ true)
    → AllVisited tasks ds s
    → AllVisited tasks (d ∷ ds) s
AllVisited-cons tasks d ds s here there x m k = elim (contains-head d x ds m) [
  | inl p ↦ ap (contains s.visited) (sym p) ∙ here (ap (contains (task_ids tasks)) p ∙ k)
  | inr n ↦ there x n k
]

pub visit_each-Covers :
    (tasks : Tasks) (f : String → Search → Option Search) (ds : List String) (s s' : Search)
    → IsComplete tasks f
    → visit_each (task_ids tasks) f ds s ≡ some s'
    → Covers tasks s s' × (s'.cycle ≡ false → AllVisited tasks ds s')
unfolding visit_each
visit_each-Covers tasks f [] s s' complete e =
    (subst (Covers tasks s) (ground arith) (Covers-refl tasks s), λ q x m k. absurd (no_member x m))
visit_each-Covers tasks f (d ∷ ds) s s' complete e =
    elim (Bool-cases (contains (task_ids tasks) d)) [
      | inl known ↦ elim (Option-cases (f d s)) [
        | inl out ↦ absurd (ground arith)
        | inr (s1, e1) ↦
            let (first, here) = complete d s s1 e1 in
            let (rest, all) = visit_each-Covers tasks f ds s1 s' complete (ground arith) in
            (
              Covers-trans first rest,
              λ q. AllVisited-cons tasks d ds s' (λ k. rest.kept d (here (rest.quiet q))) (all q),
            )
      ]
      | inr unknown ↦
          let (rest, all) = visit_each-Covers tasks f ds s s' complete (ground arith) in
          (rest, λ q. AllVisited-cons tasks d ds s' (λ k. absurd (ground arith)) (all q))
    ]

Covers-leave :
    (tasks : Tasks) (t : String) (s s' : Search)
    → Covers tasks (enter t s) s'
    → (s'.cycle ≡ false → AllVisited tasks (dependencies_of tasks t) s')
    → Covers tasks s (leave t s')
unfolding leave
Covers-leave tasks t s s' g all = record {
  quiet = g.quiet;
  kept = λ x m. contains-there t x s'.visited (g.kept x m);
  ordered = λ q o. ((λ d edge. all q d edge.0 edge.1), g.ordered q o);
}

Finishes-report : (tasks : Tasks) (t : String) (s : Search) → Finishes tasks t s (report_cycle s)
Finishes-report tasks t s = (
  record { quiet = λ q. ground arith; kept = λ x m. m; ordered = λ q o. ground arith },
  λ q. ground arith,
)

pub visit-IsComplete : (tasks : Tasks) (n : ℕ) → IsComplete tasks (visit tasks n)
unfolding visit leave
visit-IsComplete tasks zero t s s' e = absurd (ground arith)
visit-IsComplete tasks (suc n) t s s' e = elim (Bool-cases (contains s.visiting t)) [
  | inl again ↦
      subst (Finishes tasks t s) {x = report_cycle s} (ground arith) (Finishes-report tasks t s)
  | inr new ↦ elim (Bool-cases (contains s.visited t)) [
    | inl old ↦ subst (Finishes tasks t s) (ground arith) (Covers-refl tasks s, λ q. old)
    | inr fresh ↦
        let inner =
          visit_each (task_ids tasks) (visit tasks n) (dependencies_of tasks t) (enter t s) in
        elim (Option-cases inner) [
          | inl out ↦ absurd (ground arith)
          | inr (s1, e1) ↦
              let (covers, all) =
                visit_each-Covers tasks (visit tasks n) (dependencies_of tasks t) (enter t s) s1
                  (visit-IsComplete tasks n) e1 in
              subst (Finishes tasks t s) {x = leave t s1} (ground arith)
                (Covers-leave tasks t s s1 covers all, λ q. contains-here t s1.visited)
        ]
  ]
]
