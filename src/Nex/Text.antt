-- ===== src/Nex/Text.antt =====
-- `String` and `BufferT<LengthT>` of nex/types/common: string.hpp and buffer.hpp.
use splatit.Base.{
  ℕ, ◌+◌, ◌-◌, ◌%◌, ◌^◌, ◌<◌, ◌≡◌, refl, arith, [], ◌∷◌, ◌++◌, length, ltb, ◌==◌, ok, ◌>>◌,
  throw_if, throw_if-eq-ok, malformed, length_error, Result, throw_if-pass, ge→ltb, length-append,
  ap, ap₂, sym, ◌∙◌, append_assoc,
}
use splatit.Base.Bytes.{Bytes, slice, read16, le16, read16-le16, take-append, slice-append}
use splatit.Nex.{Codec, RoundTrips, StaysInside, ok_injective}
use splatit.Nex.Ints.{little, number, number-little, length-little}

-- `String::encode`: the length counts the zero at the end and wraps at 16 bits.
unfoldable pub string_encode : Bytes → Bytes
string_encode value = le16 ((length value + 1) % 65536) ++ (value ++ 0 ∷ [])

-- `String::decode`. For a length of 0, `resize(length - 1)` asks for more than `max_size`.
unfoldable pub string_decode : Bytes → Bytes → Result (Bytes × ℕ)
string_decode old d =
    throw_if (ltb (length d) 2) malformed
    >> (throw_if (ltb (length d) (read16 d 0 + 2)) malformed
        >> (throw_if (read16 d 0 == 0) length_error
            >> ok (slice d 2 (read16 d 0 - 1), read16 d 0 + 2)))

abbrev pub string : Codec Bytes
string = record { blank = []; encode = string_encode; decode = string_decode }

-- `BufferT::decode`, with a length of `width` bytes.
unfoldable pub buffer_decode : ℕ → Bytes → Bytes → Result (Bytes × ℕ)
buffer_decode width old d =
    throw_if (ltb (length d) width) malformed
    >> (throw_if (ltb (length d) (width + number width d)) malformed
        >> ok (slice d width (number width d), width + number width d))

-- `BufferT::encode` and `BufferT::decode`. `little` cuts the length to `width` bytes.
abbrev pub buffer_of : ℕ → Codec Bytes
buffer_of width = record {
  blank = [];
  encode = λ v. little width (length v) ++ v;
  decode = buffer_decode width;
}

abbrev pub buffer : Codec Bytes
buffer = buffer_of 4

abbrev pub q_buffer : Codec Bytes
q_buffer = buffer_of 2

pub buffer-RoundTrips : (width : ℕ) → RoundTrips (buffer_of width) (λ v. length v < 256 ^ width)
unfolding buffer_decode
buffer-RoundTrips width v rest small =
    let front = little width (length v) in
    let size = length-little width (length v) in
    let seen : number width ((front ++ v) ++ rest) ≡ length v =
      rw (append_assoc front v rest) (number-little width (length v) (v ++ rest) small) in
    rw (seen) (
      throw_if-pass (ltb (length ((front ++ v) ++ rest)) width) malformed _
        (ge→ltb _ _ (omega (arith, length-append (front ++ v) rest, length-append front v, size)))
      ∙ (throw_if-pass (ltb (length ((front ++ v) ++ rest)) (width + length v)) malformed _ (
            ge→ltb _ _
              (omega (arith, length-append (front ++ v) rest, length-append front v, size)))
          ∙ ap₂ (λ (x : Bytes) (y : ℕ). ok (x, y))
              (rw (append_assoc front v rest)
                (slice-append front v rest width (length v) (sym size) refl))
              (omega (arith, length-append front v, size))))

pub buffer-StaysInside : (width : ℕ) → StaysInside (buffer_of width)
unfolding buffer_decode
buffer-StaysInside width old v d n returns =
    let one = throw_if-eq-ok (ltb (length d) width) malformed _ returns in
    let two = throw_if-eq-ok (ltb (length d) (width + number width d)) malformed _ one.1 in
    ground (arith, two.0, ap (λ w. w.1) (ok_injective two.1))

pub string-RoundTrips : RoundTrips string (λ v. length v + 1 < 65536)
unfolding string_encode string_decode
string-RoundTrips v rest small =
    let n = (length v + 1) % 65536 in
    let tail = (v ++ 0 ∷ []) ++ rest in
    let d = le16 n ++ tail in
    let seen : read16 d 0 ≡ length v + 1 = omega (arith, read16-le16 n tail (omega arith), small) in
    let size : length d ≡ length v + 3 + length rest =
      omega (arith, length-append (v ++ 0 ∷ []) rest, length-append v (0 ∷ [])) in
    throw_if-pass (ltb (length d) 2) malformed _ (ge→ltb _ _ (omega (arith, size)))
    ∙ (throw_if-pass (ltb (length d) (read16 d 0 + 2)) malformed _
          (ge→ltb _ _ (omega (arith, size, seen)))
        ∙ (throw_if-pass (read16 d 0 == 0) length_error _ (ground (arith, seen))
            ∙ ap₂ (λ (x : Bytes) (y : ℕ). ok (x, y))
                (rw (append_assoc v (0 ∷ []) rest)
                  (take-append v (0 ∷ rest) (read16 d 0 - 1) (omega (arith, seen))))
                (omega (arith, length-append v (0 ∷ []), seen))))

pub string-StaysInside : StaysInside string
unfolding string_decode
string-StaysInside old v d n returns =
    let one = throw_if-eq-ok (ltb (length d) 2) malformed _ returns in
    let two = throw_if-eq-ok (ltb (length d) (read16 d 0 + 2)) malformed _ one.1 in
    let three = throw_if-eq-ok (read16 d 0 == 0) length_error _ two.1 in
    ground (arith, two.0, ap (λ w. w.1) (ok_injective three.1))
