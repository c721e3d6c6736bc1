-- ===== src/Examples/Tasks.antt =====
-- Task documents with a cycle of two tasks, and documents that pass (hollysys_controller/validators.py).
use hermes_agents_by_kanban.Prelude.{[], ◌∷◌}
use hermes_agents_by_kanban.Validators.Graph.{Tasks}
use hermes_agents_by_kanban.Validators.Documents.{TextMethods, TaskBlock}
use mathlib.Core.List.{List}

abbrev looped : Tasks
looped = ("T001", "T002" ∷ []) ∷ ("T002", "T001" ∷ []) ∷ []

-- A `strip` and a `lower` that change nothing, for paths in lower case without spaces.
abbrev plain : TextMethods
plain = record { strip = λ s. s; lower = λ s. s }

abbrev create_module : TaskBlock
create_module = record {
  task_id = "T001";
  dependency_lines = ([], "") ∷ [];
  actions = "create" ∷ [];
  target_paths = "src/app.py" ∷ [];
}

abbrev extend_module : TaskBlock
extend_module = record {
  task_id = "T002";
  dependency_lines = ("T001" ∷ [], "") ∷ [];
  actions = "extend" ∷ [];
  target_paths = "src/app.py" ∷ [];
}

abbrev documents : List TaskBlock
documents = create_module ∷ extend_module ∷ []
