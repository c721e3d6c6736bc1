-- ===== src/Prelude/Text.antt =====
-- Python's texts: the code points, the slice `text[:n]`, and the test for a full commit SHA.
use Prim.Native.Nat.{ℕ, zero, suc}
use Prim.Native.Char.{code}
use Prim.Native.String.{String}
use mathlib.Core.Bool.{Bool, true, ◌&&◌, ◌||◌}
use mathlib.Core.List.{List, [], ◌∷◌}
use mathlib.Core.Option.{Option, none, some}
use hermes_agents_by_kanban.Prelude.Tests.{leb, nat_beq}

abbrev pub codes : String → List ℕ
codes String.[] = []
codes (String.◌∷◌ c s) = code c ∷ codes s

abbrev pub length {ℓ} : {A : Type ℓ} → List A → ℕ
length [] = 0
length (x ∷ xs) = suc (length xs)

-- text[:n]
unfoldable pub clip : ℕ → String → String
clip zero s = ""
clip (suc n) String.[] = ""
clip (suc n) (String.◌∷◌ c s) = String.◌∷◌ c (clip n s)

-- character in "0123456789abcdef"
pub is_hex_digit : ℕ → Bool
is_hex_digit c = (leb b'0' c && leb c b'9') || (leb b'a' c && leb c b'f')

pub all_hex : List ℕ → Bool
all_hex [] = true
all_hex (c ∷ cs) = is_hex_digit c && all_hex cs

-- A full commit SHA: 40 characters, each of them in "0123456789abcdef".
unfoldable pub is_sha : String → Bool
unfolding is_hex_digit all_hex
is_sha s = nat_beq (length (codes s)) 40 && all_hex (codes s)

-- The test on an optional SHA that accepts `None`.
abbrev pub is_sha_or_none : Option String → Bool
is_sha_or_none none = true
is_sha_or_none (some s) = is_sha s
