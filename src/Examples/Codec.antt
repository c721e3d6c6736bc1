-- ===== src/Examples/Codec.antt =====
-- A `dumps` and its `loads` on texts, for the examples: JSON values are texts, and `mark` puts a letter
-- in front of them.
use hermes_agents_by_kanban.Prelude.{
  ◌≡◌, refl, ap, String, Bool, true, false, ◌==◌, Bool-cases, inl, inr, text_eq, eq_iff, arith,
}

unfoldable pub mark : String → String
mark s = String.◌∷◌ "j" s

unfoldable pub unmark : String → String
unmark String.[] = ""
unmark (String.◌∷◌ c s) = s

is_nonempty : String → Bool
is_nonempty String.[] = false
is_nonempty (String.◌∷◌ c s) = true

mark_nonempty : (s : String) → ¬ (mark s ≡ "")
unfolding is_nonempty mark
mark_nonempty s e = let differ : true ≡ false = ap is_nonempty e in ground arith

pub mark_filled : (s : String) → (mark s == "") ≡ false
mark_filled s = elim (Bool-cases (mark s == "")) [
  | inl p ↦ absurd (mark_nonempty s ((eq_iff (mark s) "").0 p))
  | inr p ↦ p
]

pub unmark-mark : (s : String) → unmark (mark s) ≡ s
unfolding unmark mark
unmark-mark s = refl
