-- ===== src/Exec.antt =====
-- Methods of the store that may raise, and `ControllerStore.connect` of hollysys_controller/store.py:
-- a block that raises is closed without `commit`, so nothing that it wrote stays.
use hermes_agents_by_kanban.Prelude.{Bool, true, false}

pub data Result {ℓ κ} (E : Type ℓ) (A : Type κ) : Type (ℓ ⊔ κ) where
  ok : A → Result E A
  err : E → Result E A

-- The state comes back beside an error too: what an earlier block committed stays.
abbrev pub Exec : Type 0 → Type 0 → Type 0 → Type 0
Exec E S A = S → Result E A × S

module _ {E S A : Type 0} where
  abbrev pub pure : A → Exec E S A
  pure a s = (ok a, s)

  abbrev pub raise : E → Exec E S A
  raise e s = (err e, s)

  abbrev pub settle : S → Result E A × S → Result E A × S
  settle before (ok a, after) = (ok a, after)
  settle before (err e, after) = (err e, before)

  -- with self.connect() as conn: ...
  abbrev pub connect : Exec E S A → Exec E S A
  connect m s = settle s (m s)

abbrev pub get_state : {E S : Type 0} → Exec E S S
get_state s = (ok s, s)

module _ {E S A B : Type 0} where
  abbrev pub continue : Result E A → (A → Exec E S B) → Exec E S B
  continue (ok a) f s = f a s
  continue (err e) f s = (err e, s)

  infixl 5 ◌>>=◌ ◌>>◌
  abbrev pub ◌>>=◌ : Exec E S A → (A → Exec E S B) → Exec E S B
  ◌>>=◌ m f s = let (r, s') = m s in continue r f s'

  abbrev pub ◌>>◌ : Exec E S A → Exec E S B → Exec E S B
  m >> n = m >>= λ _. n

-- if not condition: raise e
abbrev pub require : {E S : Type 0} → Bool → E → Exec E S (Unit {0})
require true e s = (ok tt, s)
require false e s = (err e, s)

abbrev pub modify : {E S : Type 0} → (S → S) → Exec E S (Unit {0})
modify f s = (ok tt, f s)
