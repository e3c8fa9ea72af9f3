-- ===== src/Base/Bytes.antt =====
-- Byte vectors as lists of numbers, and the little-endian integers of the wire formats.
use Prim.Native.Nat.{ℕ, zero, suc, ◌+◌, ◌*◌, ◌/◌, ◌%◌, ◌^◌, ◌<◌}
use mathlib.Core.Path.{◌≡◌, refl, ap}
use mathlib.Core.Bool.{Bool, true, false, ◌&&◌}
use mathlib.Core.List.{List, [], ◌∷◌, ◌++◌}
use native.Mathlib.Omega.{arith}
use splatit.Base.Tests.{◌==◌}
use splatit.Base.Lists.{length, get_or, take, drop, All, take-length_append, drop-length_append}

abbrev pub IsByte : ℕ → Type 0
IsByte b = b < 256

abbrev pub Bytes : Type 0
Bytes = List ℕ

abbrev pub IsBytes : Bytes → Type 0
IsBytes = All IsByte

-- `data[i]`. Every read of the model that can be out of range says so where it stands.
abbrev pub at : Bytes → ℕ → ℕ
at data' i = get_or data' i 0

-- `std::vector(begin + from, begin + from + count)`
abbrev pub slice : Bytes → ℕ → ℕ → Bytes
slice data' from count = take count (drop from data')

-- The two and the four bytes of an integer, lowest first.
abbrev pub le16 : ℕ → Bytes
le16 v = v % 256 ∷ v / 256 % 256 ∷ []

abbrev pub le32 : ℕ → Bytes
le32 v = v % 256 ∷ v / 256 % 256 ∷ v / 65536 % 256 ∷ v / 16777216 % 256 ∷ []

-- `data[i] | data[i + 1] << 8 …`: bytes in lanes that do not overlap, so the or is a sum.
abbrev pub read16 : Bytes → ℕ → ℕ
read16 data' i = at data' i + at data' (i + 1) * 256

abbrev pub read32 : Bytes → ℕ → ℕ
read32 data' i =
    at data' i + at data' (i + 1) * 256 + at data' (i + 2) * 65536 + at data' (i + 3) * 16777216

-- `a == b` on vectors.
unfoldable pub bytes_eq : Bytes → Bytes → Bool
bytes_eq [] [] = true
bytes_eq [] (y ∷ ys) = false
bytes_eq (x ∷ xs) [] = false
bytes_eq (x ∷ xs) (y ∷ ys) = x == y && bytes_eq xs ys

pub bytes_eq_refl : (xs : Bytes) → bytes_eq xs xs ≡ true
unfolding bytes_eq
bytes_eq_refl [] = refl
bytes_eq_refl (x ∷ xs) = ground (arith, bytes_eq_refl xs)

pub bytes_eq→eq : (xs ys : Bytes) → bytes_eq xs ys ≡ true → xs ≡ ys
unfolding bytes_eq
bytes_eq→eq [] [] h = refl
bytes_eq→eq [] (y ∷ ys) h = ground arith
bytes_eq→eq (x ∷ xs) [] h = ground arith
bytes_eq→eq (x ∷ xs) (y ∷ ys) h = ground (arith, bytes_eq→eq xs ys)

-- `for (auto byte : bytes) sum += byte`
unfoldable pub sum_bytes : Bytes → ℕ
sum_bytes [] = 0
sum_bytes (b ∷ bs) = b + sum_bytes bs

-- Reads behind a prefix.
pub at-append : (xs ys : Bytes) (i k : ℕ) → i ≡ length xs + k → at (xs ++ ys) i ≡ at ys k
at-append [] ys i k h = ap (at ys) (omega (arith, h))
at-append (x ∷ xs) ys zero k h = absurd (omega (arith, h))
at-append (x ∷ xs) ys (suc i) k h = at-append xs ys i k (omega (arith, h))

pub drop-append : (xs ys : Bytes) (i : ℕ) → i ≡ length xs → drop i (xs ++ ys) ≡ ys
drop-append xs ys i h = rw h (drop-length_append xs ys)

pub take-append : (xs ys : Bytes) (i : ℕ) → i ≡ length xs → take i (xs ++ ys) ≡ xs
take-append xs ys i h = rw h (take-length_append xs ys)

pub slice-append :
    (xs ys zs : Bytes) (i n : ℕ) → i ≡ length xs → n ≡ length ys → slice (xs ++ (ys ++ zs)) i n ≡ ys
slice-append xs ys zs i n h k = rw (drop-append xs (ys ++ zs) i h) (take-append ys zs n k)

-- Integers read back.
pub read32-le32 : (v : ℕ) (d : Bytes) → v < 2 ^ 32 → read32 (le32 v ++ d) 0 ≡ v
read32-le32 v d h = omega (arith, h)

pub read16-le16 : (v : ℕ) (d : Bytes) → v < 65536 → read16 (le16 v ++ d) 0 ≡ v
read16-le16 v d h = omega (arith, h)
