-- ===== src/Prelude/Lists.antt =====
-- Python's `in` on a list of texts.
use Prim.Native.String.{String}
use mathlib.Core.Bool.{Bool, false, ◌||◌}
use mathlib.Core.List.{List, [], ◌∷◌}
use hermes_agents_by_kanban.Prelude.Equality.{◌==◌, text_eq}

unfoldable pub contains : List String → String → Bool
contains [] a = false
contains (x ∷ xs) a = x == a || contains xs a
