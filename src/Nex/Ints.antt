-- ===== src/Nex/Ints.antt =====
-- `Int<T>` of nex/types/common/ints.hpp, for a `T` of `width` bytes that has no sign.
use splatit.Base.{
  ℕ, zero, suc, ◌+◌, ◌*◌, ◌/◌, ◌%◌, ◌^◌, ◌<◌, ◌≡◌, refl, arith, [], ◌∷◌, ◌++◌, length, ltb, ok,
  ◌>>◌, throw_if, throw_if-eq-ok, malformed, Result, throw_if-pass, ge→ltb, length-append, ap, ◌∙◌,
}
use splatit.Base.Bytes.{Bytes}
use splatit.Nex.{Codec, RoundTrips, StaysInside, ok_injective}

-- The bytes of an integer, lowest first.
abbrev pub little : ℕ → ℕ → Bytes
little zero v = []
little (suc width) v = v % 256 ∷ little width (v / 256)

-- The integer of the first `width` bytes.
abbrev pub number : ℕ → Bytes → ℕ
number zero d = 0
number (suc width) [] = 0
number (suc width) (b ∷ d) = b + 256 * number width d

unfoldable pub int_decode : ℕ → ℕ → Bytes → Result (ℕ × ℕ)
int_decode width old d = throw_if (ltb (length d) width) malformed >> ok (number width d, width)

-- `Int<T>::encode` and `Int<T>::decode`
abbrev pub int : ℕ → Codec ℕ
int width = record { blank = 0; encode = little width; decode = int_decode width }

abbrev pub u8 : Codec ℕ
u8 = int 1

abbrev pub u16 : Codec ℕ
u16 = int 2

abbrev pub u32 : Codec ℕ
u32 = int 4

abbrev pub u64 : Codec ℕ
u64 = int 8

pub length-little : (width v : ℕ) → length (little width v) ≡ width
length-little zero v = refl
length-little (suc width) v = omega (arith, length-little width (v / 256))

pub number-little :
    (width v : ℕ) (rest : Bytes) → v < 256 ^ width → number width (little width v ++ rest) ≡ v
number-little zero v rest small = omega (arith, small)
number-little (suc width) v rest small =
    omega (arith, number-little width (v / 256) rest (omega (arith, small)))

pub int-RoundTrips : (width : ℕ) → RoundTrips (int width) (λ v. v < 256 ^ width)
unfolding int_decode
int-RoundTrips width v rest small =
    throw_if-pass (ltb (length (little width v ++ rest)) width) malformed _
      (ge→ltb _ _ (omega (arith, length-append (little width v) rest, length-little width v)))
    ∙ rw (number-little width v rest small, length-little width v) refl

pub int-StaysInside : (width : ℕ) → StaysInside (int width)
unfolding int_decode
int-StaysInside width old v d n returns =
    let enough = throw_if-eq-ok (ltb (length d) width) malformed _ returns in
    ground (arith, enough.0, ap (λ w. w.1) (ok_injective enough.1))
