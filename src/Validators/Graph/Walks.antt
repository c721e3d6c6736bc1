-- ===== src/Validators/Graph/Walks.antt =====
-- Walks along the dependencies of tasks: what a cycle is, apart from the search for one.
use hermes_agents_by_kanban.Prelude.{◌≡◌, String, true, contains}
use hermes_agents_by_kanban.Validators.Graph.{Tasks, task_ids, dependencies_of}

-- A task depends on another task of the documents.
abbrev pub Edge : Tasks → String → String → Type 0
Edge tasks a b =
    (contains (dependencies_of tasks a) b ≡ true) × (contains (task_ids tasks) b ≡ true)

pub data Walk (tasks : Tasks) : String → String → Type 0 where
  one : {a b : String} → Edge tasks a b → Walk tasks a b
  more : {a b c : String} → Edge tasks a b → Walk tasks b c → Walk tasks a c

-- Some task depends on itself, directly or through others.
abbrev pub HasCycle : Tasks → Type 0
HasCycle tasks = (task_id : String) × Walk tasks task_id task_id

pub Walk-extend :
    {tasks : Tasks} {a b c : String} → Walk tasks a b → Edge tasks b c → Walk tasks a c
Walk-extend (one e) f = more e (one f)
Walk-extend (more e w) f = more e (Walk-extend w f)

pub Walk-target :
    {tasks : Tasks} {a b : String} → Walk tasks a b → contains (task_ids tasks) b ≡ true
Walk-target (one e) = e.1
Walk-target (more e w) = Walk-target w
