-- ===== src/Validators/Documents/Passing.antt =====
-- What the task documents are like that pass the check.
use hermes_agents_by_kanban.Prelude.{
  ◌≡◌, ◌≢◌, String, Bool, true, false, not, ◌&&◌, List, [], ◌∷◌, ◌++◌, text_eq, contains,
}
use hermes_agents_by_kanban.Validators.Graph.{Tasks, task_ids, has_cycle}
use hermes_agents_by_kanban.Validators.Documents.{
  TextMethods, TaskBlock, Errors, Scan, ids_of, is_single, is_malformed, modifies_frozen,
  any_missing, any_self,
}

-- The graph that the blocks write down.
pub graph_of : List TaskBlock → Tasks
graph_of [] = []
graph_of (b ∷ bs) = (b.task_id, ids_of b.dependency_lines) ∷ graph_of bs

-- One line of dependencies and nothing but task ids in it, one action, and no frozen file modified.
pub is_well_formed : TextMethods → TaskBlock → Bool
is_well_formed py b =
    is_single b.dependency_lines
    && not (is_malformed b.dependency_lines)
    && is_single b.actions
    && not (modifies_frozen py b.actions b.target_paths)

pub all_well_formed : TextMethods → List TaskBlock → Bool
all_well_formed py [] = true
all_well_formed py (b ∷ bs) = is_well_formed py b && all_well_formed py bs

-- No block has the id of one before it.
pub all_new : List String → List TaskBlock → Bool
all_new seen [] = true
all_new seen (b ∷ bs) = not (contains seen b.task_id) && all_new (seen ++ b.task_id ∷ []) bs

-- The errors of the loop.
scan_clean : Errors → Bool
scan_clean e =
    not e.duplicate_id
    && not e.depends_on_count
    && not e.malformed_dependency
    && not e.action_count
    && not e.frozen_file_modified

-- A duplicate id is one of a task.
Known : Scan → Type 0
Known s = (x : String) → contains s.duplicate_ids x ≡ true → contains (task_ids s.tasks) x ≡ true

abbrev GraphPasses : Tasks → Type 0
GraphPasses t =
    (t ≢ []) × (any_missing (task_ids t) t ≡ false) × (any_self t ≡ false) × (has_cycle t ≡ false)
