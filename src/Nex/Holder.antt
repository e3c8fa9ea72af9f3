-- ===== src/Nex/Holder.antt =====
-- `AnyDataHolder` of nex/types/common/anyDataHolder.hpp.
use splatit.Base.{
  ℕ, ◌+◌, ◌%◌, ◌^◌, ◌<◌, ◌≡◌, refl, arith, not, [], ◌++◌, length, drop, ltb, ◌==◌, ok, ◌>>=◌, ◌>>◌,
  throw_if, throw_if-eq-ok, >>=-eq-ok, malformed, Result, throw_if-pass, ge→ltb, length-append, ap,
  ◌∙◌, append_assoc,
}
use splatit.Base.Bytes.{Bytes, slice, drop-append, take-append}
use splatit.Nex.{Codec, RoundTrips, StaysInside, ok_injective}
use splatit.Nex.Ints.{little, number, number-little}
use splatit.Nex.Text.{string, string-RoundTrips}

pub record AnyDataHolder : Type 0 where
  pub type : Bytes
  pub obj_data : Bytes

-- What `decode` does behind the type, which used `n` bytes. For a first length below 4 the second
-- is read from bytes that may not be there, and the call throws whatever they are.
unfoldable pub holder_behind : Bytes → Bytes × ℕ → Result (AnyDataHolder × ℕ)
holder_behind d t =
    let n = t.1 in
    let data_length = number 4 (drop n d) in
    let size = number 4 (drop (n + 4) d) in
    throw_if (ltb (length d) (n + 4)) malformed
    >> (throw_if (ltb (length d) (n + data_length + 4)) malformed
        >> (throw_if (not (data_length == size + 4)) malformed
            >> ok (record { type = t.0; obj_data = slice d (n + 8) size }, n + data_length + 4)))

unfoldable pub holder_decode : AnyDataHolder → Bytes → Result (AnyDataHolder × ℕ)
holder_decode old d = string.decode [] d >>= holder_behind d

-- `AnyDataHolder::encode` and `AnyDataHolder::decode`
abbrev pub any_data_holder : Codec AnyDataHolder
any_data_holder = record {
  blank = record { type = []; obj_data = [] };
  encode = λ h.
      string.encode h.type
      ++ (little 4 ((length h.obj_data + 4) % 2 ^ 32)
          ++ (little 4 (length h.obj_data) ++ h.obj_data));
  decode = holder_decode;
}

abbrev pub Holds : AnyDataHolder → Type 0
Holds h = (length h.type + 1 < 65536) × (length h.obj_data + 4 < 2 ^ 32)

-- Bytes behind two others.
drop-behind :
    (xs ys rest : Bytes) (n k : ℕ)
    → n ≡ length xs
    → k ≡ length ys
    → drop (n + k) (xs ++ (ys ++ rest)) ≡ rest
drop-behind xs ys rest n k h l =
    rw (← append_assoc xs ys rest)
      (drop-append (xs ++ ys) rest (n + k) (omega (arith, h, l, length-append xs ys)))

holder_behind-little :
    (type front obj rest : Bytes)
    → length obj + 4 < 2 ^ 32
    → holder_behind
        (front ++ (little 4 (length obj + 4) ++ (little 4 (length obj) ++ (obj ++ rest))))
        (type, length front)
      ≡ ok (record { type = type; obj_data = obj }, length front + (length obj + 4) + 4)
unfolding holder_behind
holder_behind-little type front obj rest small =
    let n = length front in
    let m = length obj + 4 in
    let one = little 4 m in
    let two = little 4 (length obj) in
    let d = front ++ (one ++ (two ++ (obj ++ rest))) in
    let first : number 4 (drop n d) ≡ m =
      rw (drop-append front (one ++ (two ++ (obj ++ rest))) n refl)
        (number-little 4 m (two ++ (obj ++ rest)) small) in
    let second : number 4 (drop (n + 4) d) ≡ length obj =
      rw (drop-behind front one (two ++ (obj ++ rest)) n 4 refl refl)
        (number-little 4 (length obj) (obj ++ rest) (omega (arith, small))) in
    let third : slice d (n + 8) (length obj) ≡ obj =
      rw (drop-behind front (one ++ two) (obj ++ rest) n 8 refl refl)
        (take-append obj rest (length obj) refl) in
    let size : length d ≡ n + 8 + length obj + length rest =
      omega (arith, length-append front (one ++ (two ++ (obj ++ rest))), length-append obj rest) in
    throw_if-pass (ltb (length d) (n + 4)) malformed _ (ge→ltb _ _ (omega (arith, size)))
    ∙ (throw_if-pass (ltb (length d) (n + number 4 (drop n d) + 4)) malformed _
          (ge→ltb _ _ (omega (arith, size, first)))
        ∙ (throw_if-pass (not (number 4 (drop n d) == number 4 (drop (n + 4) d) + 4)) malformed _
              (rw (first, second) (ground arith))
            ∙ rw (first, second, third) refl))

-- A new holder reads back the name and the bytes of the object that a holder wrote.
pub any_data_holder-RoundTrips : RoundTrips any_data_holder Holds
unfolding holder_decode
any_data_holder-RoundTrips h rest good =
    let front = string.encode h.type in
    let m = length h.obj_data + 4 in
    let tail = little 4 m ++ (little 4 (length h.obj_data) ++ h.obj_data) in
    let whole : m % 4294967296 ≡ m = omega (arith, good.1) in
    rw
      (
        whole,
        append_assoc front tail rest,
        string-RoundTrips h.type (tail ++ rest) good.0,
        holder_behind-little h.type front h.obj_data rest good.1,
      )
      (ap (λ (n : ℕ). ok (h, n)) (omega (arith, length-append front tail)))

pub any_data_holder-StaysInside : StaysInside any_data_holder
unfolding holder_decode holder_behind
any_data_holder-StaysInside old v d n returns =
    let t = >>=-eq-ok (string.decode [] d) _ returns in
    let size = number 4 (drop (t.0.1 + 4) d) in
    let one = throw_if-eq-ok (ltb (length d) (t.0.1 + 4)) malformed _ t.2 in
    let two =
      throw_if-eq-ok (ltb (length d) (t.0.1 + number 4 (drop t.0.1 d) + 4)) malformed _ one.1 in
    let three = throw_if-eq-ok (not (number 4 (drop t.0.1 d) == size + 4)) malformed _ two.1 in
    ground (arith, two.0, ap (λ w. w.1) (ok_injective three.1))
