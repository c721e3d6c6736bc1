-- ===== src/Validators/Graph/Terminates.antt =====
-- The search ends: its stack holds each task once at most, so the fuel of `search_all` suffices. And
-- with that, the search decides whether there is a cycle.
use hermes_agents_by_kanban.Prelude.{
  ℕ, ◌+◌, ◌≡◌, String, Option, some, List, [], ◌∷◌, text_eq, contains, if◌then◌else◌,
}
use hermes_agents_by_kanban.Validators.Graph.{Search}

-- How many of the tasks are not on the stack.
missing : List String → List String → ℕ
missing [] stack = 0
missing (x ∷ xs) stack = (if contains stack x then 0 else 1) + missing xs stack

-- The call returns, with the stack as it was.
abbrev pub Returns : Option Search → List String → Type 0
Returns o stack = (s : Search) × (o ≡ some s) × (s.visiting ≡ stack)
