-- ===== src/Validators/Documents.antt =====
-- `validate_task_documents` of hollysys_controller/validators.py, from what its regular expressions
-- find. Their search is Python's: a block is one match of TASK_HEADER_RE with the text up to the next
-- one, and comes with what TASK_DEPENDENCY_RE, TASK_ACTION_RE and the pattern of paths find in it.
-- `strip` and `lower` are those of Python's texts, here lists of code points.
pub mod Dependencies
pub mod Passing
use hermes_agents_by_kanban.Prelude.{
  ℕ, String, Bool, true, false, not, ◌&&◌, ◌||◌, List, [], ◌∷◌, ◌++◌, ◌==◌, text_eq, nat_eq, codes,
  contains, if◌then◌else◌,
}
use hermes_agents_by_kanban.Table.{put}
use hermes_agents_by_kanban.Validators.Graph.{Tasks, task_ids, has_cycle}

pub record TaskBlock : Type 0 where
  pub task_id : String
  -- For each line of dependencies: re.findall of the task ids, and the residue of the line.
  pub dependency_lines : List (List String × String)
  pub actions : List String
  pub target_paths : List String

-- The set `errors`: which codes are in it.
pub record Errors : Type 0 where
  pub duplicate_id : Bool
  pub depends_on_count : Bool
  pub malformed_dependency : Bool
  pub action_count : Bool
  pub frozen_file_modified : Bool
  pub no_tasks : Bool
  pub missing_dependency : Bool
  pub self_dependency : Bool
  pub dependency_cycle : Bool

abbrev pub no_errors : Errors
no_errors = record {
  duplicate_id = false;
  depends_on_count = false;
  malformed_dependency = false;
  action_count = false;
  frozen_file_modified = false;
  no_tasks = false;
  missing_dependency = false;
  self_dependency = false;
  dependency_cycle = false;
}

-- path.lstrip("./")
unfoldable pub lstrip_dots : List ℕ → List ℕ
lstrip_dots [] = []
lstrip_dots (c ∷ cs) = let rest = lstrip_dots cs in if c == b'.' || c == b'/' then rest else c ∷ cs

unfoldable pub is_prefix : List ℕ → List ℕ → Bool
is_prefix [] cs = true
is_prefix (p ∷ ps) [] = false
is_prefix (p ∷ ps) (c ∷ cs) = p == c && is_prefix ps cs

-- part in text
unfoldable pub is_inside : List ℕ → List ℕ → Bool
unfolding is_prefix
is_inside part [] = is_prefix part []
is_inside part (c ∷ cs) = is_prefix part (c ∷ cs) || is_inside part cs

unfoldable pub any_inside : List String → List ℕ → Bool
unfolding is_inside
any_inside [] text = false
any_inside (part ∷ parts) text = is_inside (codes part) text || any_inside parts text

abbrev pub upstream_parts : List String
upstream_parts = "/prds/" ∷ "/specs/" ∷ "/plans/" ∷ "docs/prd" ∷ "docs/spec" ∷ "docs/plan" ∷ []

-- The two methods of Python's texts.
pub record TextMethods : Type 0 where
  pub strip : List ℕ → List ℕ
  pub lower : List ℕ → List ℕ

unfoldable pub looks_like_frozen_upstream : TextMethods → String → Bool
looks_like_frozen_upstream py path =
    any_inside upstream_parts (py.lower (lstrip_dots (py.strip (codes path))))

unfoldable pub any_frozen : TextMethods → List String → Bool
any_frozen py [] = false
any_frozen py (path ∷ paths) = looks_like_frozen_upstream py path || any_frozen py paths

-- dependency_ids
abbrev pub ids_of : List (List String × String) → List String
ids_of ((ids, residue) ∷ []) = ids
ids_of _ = []

abbrev pub is_single {ℓ} : {A : Type ℓ} → List A → Bool
is_single (x ∷ []) = true
is_single _ = false

abbrev pub is_malformed : List (List String × String) → Bool
is_malformed ((ids, residue) ∷ []) = not (residue == "")
is_malformed _ = false

abbrev pub modifies_frozen : TextMethods → List String → List String → Bool
modifies_frozen py (action ∷ []) paths = not (action == "reuse") && any_frozen py paths
modifies_frozen py _ paths = false

-- The variables of the loop over headers.
pub record Scan : Type 0 where
  pub tasks : Tasks
  pub duplicate_ids : List String
  pub errors : Errors

abbrev pub add_task : Bool → String → List String → Tasks → Tasks
add_task true task_id dependencies tasks = tasks
add_task false task_id dependencies tasks = put task_id dependencies tasks

unfoldable pub scan_block : TextMethods → TaskBlock → Scan → Scan
scan_block py b s =
    let duplicate = contains (task_ids s.tasks) b.task_id in
    let duplicate_ids = if duplicate then b.task_id ∷ s.duplicate_ids else s.duplicate_ids in
    record {
      tasks =
          add_task (contains duplicate_ids b.task_id) b.task_id (ids_of b.dependency_lines) s.tasks;
      duplicate_ids = duplicate_ids;
      errors = record s.errors {
        duplicate_id = s.errors.duplicate_id || duplicate;
        depends_on_count = s.errors.depends_on_count || not (is_single b.dependency_lines);
        malformed_dependency = s.errors.malformed_dependency || is_malformed b.dependency_lines;
        action_count = s.errors.action_count || not (is_single b.actions);
        frozen_file_modified =
            s.errors.frozen_file_modified || modifies_frozen py b.actions b.target_paths;
      };
    }

unfoldable pub scan_blocks : TextMethods → List TaskBlock → Scan → Scan
scan_blocks py [] s = s
scan_blocks py (b ∷ bs) s = scan_blocks py bs (scan_block py b s)

-- dependencies - tasks.keys()
unfoldable pub any_unknown : List String → List String → Bool
any_unknown ids [] = false
any_unknown ids (d ∷ ds) = not (contains ids d) || any_unknown ids ds

unfoldable pub any_missing : List String → Tasks → Bool
any_missing ids [] = false
any_missing ids ((task_id, dependencies) ∷ tasks) =
    any_unknown ids dependencies || any_missing ids tasks

unfoldable pub any_self : Tasks → Bool
any_self [] = false
any_self ((task_id, dependencies) ∷ tasks) = contains dependencies task_id || any_self tasks

unfoldable pub check_graph : Tasks → Errors → Errors
check_graph [] errors = record errors { no_tasks = true }
check_graph (t ∷ ts) errors = record errors {
  missing_dependency = any_missing (task_ids (t ∷ ts)) (t ∷ ts);
  self_dependency = any_self (t ∷ ts);
  dependency_cycle = has_cycle (t ∷ ts);
}

abbrev pub blank : Scan
blank = record { tasks = []; duplicate_ids = []; errors = no_errors }

-- The set of error codes, from the blocks of all documents in order.
unfoldable pub task_errors : TextMethods → List TaskBlock → Errors
task_errors py blocks = let s = scan_blocks py blocks blank in check_graph s.tasks s.errors

abbrev pub code_if : Bool → String → List String → List String
code_if true code rest = code ∷ rest
code_if false code rest = rest

-- tuple(sorted(errors))
unfoldable pub error_codes : Errors → List String
error_codes e = code_if e.action_count "action_count" (
    code_if e.dependency_cycle "dependency_cycle" (
      code_if e.depends_on_count "depends_on_count" (
        code_if e.duplicate_id "duplicate_id" (
          code_if e.frozen_file_modified "frozen_file_modified" (
            code_if e.malformed_dependency "malformed_dependency" (
              code_if e.missing_dependency "missing_dependency" (
                code_if e.no_tasks "no_tasks"
                  (code_if e.self_dependency "self_dependency" []))))))))

abbrev pub is_empty_list : List String → Bool
is_empty_list [] = true
is_empty_list (c ∷ cs) = false

-- `passed` and `error_codes` of the result.
unfoldable pub validate_task_documents : TextMethods → List TaskBlock → Bool × List String
validate_task_documents py blocks =
    let codes = error_codes (task_errors py blocks) in (is_empty_list codes, codes)
