-- ===== src/Table.antt =====
-- A table of the store with its primary key, as the statements of store.py use it: SELECT by key,
-- INSERT ... ON CONFLICT DO UPDATE, DELETE by key, and SELECT 1 ... LIMIT 1 over all rows.
use hermes_agents_by_kanban.Prelude.{
  ◌≡◌, refl, Bool, false, ◌||◌, Option, none, some, List, [], ◌∷◌, arith, Eq, ◌==◌, if◌then◌else◌,
  ◌⊎◌, inl, inr, Bool-cases,
}

abbrev pub Table {ℓ κ} : Type ℓ → Type κ → Type (ℓ ⊔ κ)
Table K V = List (K × V)

module _ {ℓ κ} {K : Type ℓ} {V : Type κ} ⦃e : Eq K⦄ where
  unfoldable pub lookup : K → Table K V → Option V
  lookup k [] = none
  lookup k ((j, v) ∷ t) = if j == k then some v else lookup k t

  -- The row of the key is replaced, or a new row is added at the end.
  unfoldable pub put : K → V → Table K V → Table K V
  put k v [] = (k, v) ∷ []
  put k v ((j, w) ∷ t) = if j == k then (k, v) ∷ t else (j, w) ∷ put k v t

  unfoldable pub delete : K → Table K V → Table K V
  delete k [] = []
  delete k ((j, w) ∷ t) = let rest = delete k t in if j == k then rest else (j, w) ∷ rest

  pub lookup-put :
      (k j : K) (v : V) (t : Table K V)
      → lookup j (put k v t) ≡ (if k == j then some v else lookup j t)
  unfolding lookup put
  lookup-put k j v [] = refl
  lookup-put k j v ((i, w) ∷ t) =
      ground (arith, e.beq_iff k j, e.beq_iff i k, e.beq_iff i j, lookup-put k j v t)

  pub lookup-put_same : (k : K) (v : V) (t : Table K V) → lookup k (put k v t) ≡ some v
  lookup-put_same k v t = ground (arith, lookup-put k k v t, e.beq_iff k k)

  pub lookup-put_cases :
      (k j : K) (v : V) (t : Table K V) {w : V}
      → lookup j (put k v t) ≡ some w
      → (v ≡ w) ⊎ (lookup j t ≡ some w)
  lookup-put_cases k j v t {w} p = elim (Bool-cases (k == j)) [
    | inl e ↦ inl (ground (arith, lookup-put k j v t))
    | inr e ↦ inr (ground (arith, lookup-put k j v t))
  ]

  pub lookup-delete :
      (k j : K) (t : Table K V) → lookup j (delete k t) ≡ (if k == j then none else lookup j t)
  unfolding lookup delete
  lookup-delete k j [] = ground arith
  lookup-delete k j ((i, w) ∷ t) =
      ground (arith, e.beq_iff k j, e.beq_iff i k, e.beq_iff i j, lookup-delete k j t)

module _ {ℓ κ} {K : Type ℓ} {V : Type κ} (bad : V → Bool) where
  unfoldable pub any_row : Table K V → Bool
  any_row [] = false
  any_row ((j, v) ∷ t) = bad v || any_row t

  pub any_row-lookup :
      ⦃e : Eq K⦄ (k : K) (t : Table K V) {v : V}
      → any_row t ≡ false
      → lookup k t ≡ some v
      → bad v ≡ false
  unfolding any_row lookup
  any_row-lookup k [] h p = ground arith
  any_row-lookup ⦃e⦄ k ((j, w) ∷ t) {v} h p = ground (arith, any_row-lookup k t {v = v})

  pub any_row-put :
      ⦃e : Eq K⦄ (k : K) (v : V) (t : Table K V)
      → any_row t ≡ false
      → bad v ≡ false
      → any_row (put k v t) ≡ false
  unfolding any_row put
  any_row-put k v [] h p = ground arith
  any_row-put k v ((j, w) ∷ t) h p = ground (arith, any_row-put k v t)

-- No key has two rows.
abbrev pub IsKeyed {ℓ κ} : {K : Type ℓ} {V : Type κ} ⦃e : Eq K⦄ → Table K V → Type (ℓ ⊔ κ)
IsKeyed [] = Unit
IsKeyed ((k, v) ∷ t) = (lookup k t ≡ none) × IsKeyed t
