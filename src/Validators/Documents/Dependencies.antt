-- ===== src/Validators/Documents/Dependencies.antt =====
-- The tests on dependencies in `validate_task_documents`, task by task
-- (hollysys_controller/validators.py).
use hermes_agents_by_kanban.Prelude.{
  ◌≡◌, ◌↔◌, refl, String, Bool, false, not, ◌&&◌, ◌||◌, List, [], ◌∷◌, arith, ◌==◌, text_eq,
  beq_refl, eq_iff, contains,
}
use hermes_agents_by_kanban.Validators.Graph.{Tasks}
use hermes_agents_by_kanban.Validators.Documents.{any_unknown, any_missing, any_self}

-- A task of this id names the dependency.
pub depends : Tasks → String → String → Bool
depends [] k d = false
depends ((j, ds) ∷ t) k d = (j == k && contains ds d) || depends t k d

any_unknown_none :
    (ids ds : List String) (d : String)
    → any_unknown ids ds ≡ false
    → (contains ds d && not (contains ids d)) ≡ false
unfolding any_unknown contains
any_unknown_none ids [] d h = refl
any_unknown_none ids (x ∷ ds) d h = ground (arith, eq_iff x d, any_unknown_none ids ds d)

none_unknown :
    (ids ds : List String)
    → ((d : String) → (contains ds d && not (contains ids d)) ≡ false)
    → any_unknown ids ds ≡ false
unfolding any_unknown contains
none_unknown ids [] f = refl
none_unknown ids (x ∷ ds) f =
    ground (arith, f x, beq_refl x, none_unknown ids ds (λ d. ground (arith, f d)))

any_missing_none :
    (ids : List String) (t : Tasks) (k d : String)
    → any_missing ids t ≡ false
    → (depends t k d && not (contains ids d)) ≡ false
unfolding any_missing depends
any_missing_none ids [] k d h = refl
any_missing_none ids ((j, ds) ∷ t) k d h =
    ground (arith, any_unknown_none ids ds d, any_missing_none ids t k d)

none_missing :
    (ids : List String) (t : Tasks)
    → ((k d : String) → (depends t k d && not (contains ids d)) ≡ false)
    → any_missing ids t ≡ false
unfolding any_missing depends
none_missing ids [] f = refl
none_missing ids ((j, ds) ∷ t) f =
    let first = none_unknown ids ds (λ d. ground (arith, f j d, beq_refl j)) in
    let rest = none_missing ids t (λ k d. ground (arith, f k d)) in ground arith

-- No dependency is missing.
pub any_missing_iff :
    (ids : List String) (t : Tasks)
    → (any_missing ids t ≡ false)
      ↔ ((k d : String) → (depends t k d && not (contains ids d)) ≡ false)
any_missing_iff ids t = ((λ h k d. any_missing_none ids t k d h), none_missing ids t)

any_self_none : (t : Tasks) (k : String) → any_self t ≡ false → depends t k k ≡ false
unfolding any_self depends
any_self_none [] k h = refl
any_self_none ((j, ds) ∷ t) k h = ground (arith, eq_iff j k, any_self_none t k)

none_self : (t : Tasks) → ((k : String) → depends t k k ≡ false) → any_self t ≡ false
unfolding any_self depends
none_self [] f = refl
none_self ((j, ds) ∷ t) f =
    let first = f j in
    let rest = none_self t (λ k. ground (arith, f k)) in ground (arith, beq_refl j)

-- No task names itself.
pub any_self_iff : (t : Tasks) → (any_self t ≡ false) ↔ ((k : String) → depends t k k ≡ false)
any_self_iff t = ((λ h k. any_self_none t k h), none_self t)
