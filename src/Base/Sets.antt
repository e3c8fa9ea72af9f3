-- ===== src/Base/Sets.antt =====
-- `std::set<uint32_t>` as the list of its elements in rising order.
use Prim.Native.Nat.{ℕ}
use mathlib.Core.Path.{◌≡◌, refl}
use mathlib.Core.Bool.{Bool, false, ◌||◌}
use mathlib.Core.List.{List, [], ◌∷◌}
use native.Mathlib.Omega.{arith}
use splatit.Base.Tests.{if◌then◌else◌, ltb, ◌==◌}

-- `insert`
abbrev pub set_insert : ℕ → List ℕ → List ℕ
set_insert k [] = k ∷ []
set_insert k (j ∷ m) =
    let rest = set_insert k m in if ltb k j then k ∷ j ∷ m else if ltb j k then j ∷ rest else j ∷ m

-- `erase`
abbrev pub set_erase : ℕ → List ℕ → List ℕ
set_erase k [] = []
set_erase k (j ∷ m) = let rest = set_erase k m in if j == k then rest else j ∷ rest

-- `contains`
abbrev pub has : ℕ → List ℕ → Bool
has k [] = false
has k (j ∷ m) = j == k || has k m

abbrev pub set_insert_all : List ℕ → List ℕ → List ℕ
set_insert_all [] m = m
set_insert_all (k ∷ ks) m = set_insert_all ks (set_insert k m)

pub has-set_erase :
    (k j : ℕ) (m : List ℕ) → has j (set_erase k m) ≡ (if k == j then false else has j m)
has-set_erase k j [] = ground arith
has-set_erase k j (i ∷ m) = ground (arith, has-set_erase k j m)

pub has-set_insert : (k j : ℕ) (m : List ℕ) → has j (set_insert k m) ≡ (k == j || has j m)
has-set_insert k j [] = refl
has-set_insert k j (i ∷ m) = ground (arith, has-set_insert k j m)
