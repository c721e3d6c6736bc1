-- ===== src/Validators/Graph.antt =====
-- The graph of tasks in `validate_task_documents` of hollysys_controller/validators.py, and its
-- depth-first search for cycles. A set of dependencies is a list, in the order of its iteration.
pub mod Walks
pub mod Sound
pub mod Complete
pub mod Terminates
use hermes_agents_by_kanban.Prelude.{
  ℕ, zero, suc, String, Bool, true, false, not, ◌&&◌, ◌||◌, Option, none, some, List, [], ◌∷◌,
  length, ◌==◌, text_eq, if◌then◌else◌, contains,
}
use hermes_agents_by_kanban.Table.{Table, lookup}

-- tasks: dict[str, set[str]]
abbrev pub Tasks : Type 0
Tasks = Table String (List String)

unfoldable pub task_ids : Tasks → List String
task_ids [] = []
task_ids ((task_id, dependencies) ∷ tasks) = task_id ∷ task_ids tasks

abbrev pub or_empty : Option (List String) → List String
or_empty none = []
or_empty (some dependencies) = dependencies

-- tasks[task_id]
unfoldable pub dependencies_of : Tasks → String → List String
dependencies_of tasks task_id = or_empty (lookup task_id tasks)

-- The sets `visiting` and `visited`, newest first, and whether "dependency_cycle" was added.
pub record Search : Type 0 where
  pub visiting : List String
  pub visited : List String
  pub cycle : Bool

-- visiting.remove(task_id)
unfoldable pub remove : String → List String → List String
remove task_id [] = []
remove task_id (x ∷ xs) = let rest = remove task_id xs in if x == task_id then xs else x ∷ rest

abbrev pub enter : String → Search → Search
enter task_id s = record s { visiting = task_id ∷ s.visiting }

unfoldable pub leave : String → Search → Search
leave task_id s = record s { visiting = remove task_id s.visiting; visited = task_id ∷ s.visited }

abbrev pub report_cycle : Search → Search
report_cycle s = record s { cycle = true }

abbrev pub then_visit : (Search → Option Search) → Option Search → Option Search
then_visit f none = none
then_visit f (some s) = f s

-- for dependency in ...: if dependency in tasks: visit(dependency)
unfoldable pub visit_each :
    List String → (String → Search → Option Search) → List String → Search → Option Search
visit_each ids visit [] s = some s
visit_each ids visit (d ∷ ds) s =
    then_visit (visit_each ids visit ds) (if contains ids d then visit d s else some s)

abbrev pub leave_after : String → Option Search → Option Search
leave_after task_id none = none
leave_after task_id (some s) = some (leave task_id s)

-- `none` is for the end of the fuel.
unfoldable pub visit : Tasks → ℕ → String → Search → Option Search
visit tasks zero task_id s = none
visit tasks (suc n) task_id s = elim (contains s.visiting task_id) [
  | true ↦ some (report_cycle s)
  | false ↦ elim (contains s.visited task_id) [
    | true ↦ some s
    | false ↦ leave_after task_id (
        visit_each (task_ids tasks) (visit tasks n) (dependencies_of tasks task_id)
          (enter task_id s))
  ]
]

abbrev pub unvisited : Search
unvisited = record { visiting = []; visited = []; cycle = false }

abbrev pub cycle_of : Option Search → Bool
cycle_of none = false
cycle_of (some s) = s.cycle

-- for task_id in tasks: visit(task_id), with fuel for a stack of all tasks.
unfoldable pub search_all : Tasks → Option Search
search_all tasks =
    let ids = task_ids tasks in visit_each ids (visit tasks (suc (length ids))) ids unvisited

unfoldable pub has_cycle : Tasks → Bool
has_cycle tasks = cycle_of (search_all tasks)
