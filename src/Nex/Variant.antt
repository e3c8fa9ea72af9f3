-- ===== src/Nex/Variant.antt =====
-- `Variant` of nex/types/common/variant.hpp.
use splatit.Base.{
  ℕ, suc, ◌+◌, ◌^◌, ◌≤◌, ◌<◌, ◌≡◌, refl, arith, Bool, true, false, [], ◌∷◌, length, ◌==◌,
  if◌then◌else◌, ok, err, ◌>>=◌, >>=-eq-ok, malformed, Result, ap,
}
use splatit.Base.Bytes.{Bytes}
use splatit.Nex.{Codec, RoundTrips, StaysInside, ok_injective}
use splatit.Nex.Ints.{u8, u64, int-RoundTrips, int-StaysInside}
use splatit.Nex.Values.{Calendar, datetime, IsWhole, datetime-RoundTrips, datetime-StaysInside}
use splatit.Nex.Text.{string, string-RoundTrips, string-StaysInside}

-- The state of an `std::any` that holds one of the types of a `Variant`. The numbers with a sign
-- and the `Double` are given by their eight bytes.
pub data Variant (Time : Type 0) : Type 0 where
  empty : Variant Time
  int64 double boolean uint64 : ℕ → Variant Time
  text : Bytes → Variant Time
  date : Time → Variant Time

module _ {Time : Type 0} (calendar : Calendar Time) where
  abbrev variant_encode : Variant Time → Bytes
  variant_encode empty = 0 ∷ []
  variant_encode (int64 n) = 1 ∷ u64.encode n
  variant_encode (double n) = 2 ∷ u64.encode n
  variant_encode (boolean n) = 3 ∷ u8.encode n
  variant_encode (text s) = 4 ∷ string.encode s
  variant_encode (date t) = 5 ∷ (datetime calendar).encode t
  variant_encode (uint64 n) = 6 ∷ u64.encode n

  abbrev wrap : {A : Type 0} → (A → Variant Time) → Result (A × ℕ) → Result (Variant Time × ℕ)
  wrap {A} make r = r >>= λ (q : A × ℕ). ok (make q.0, q.1 + 1)

  -- What the `switch` does with the bytes behind the first.
  unfoldable pub variant_value : ℕ → Bytes → Result (Variant Time × ℕ)
  variant_value tag d =
      if tag == 0
      then ok (empty, 1)
      else if tag == 1
      then wrap int64 (u64.decode 0 d)
      else if tag == 2
      then wrap double (u64.decode 0 d)
      else if tag == 3
      then wrap boolean (u8.decode 0 d)
      else if tag == 4
      then wrap text (string.decode [] d)
      else if tag == 5
      then wrap date ((datetime calendar).decode (datetime calendar).blank d)
      else if tag == 6
      then wrap uint64 (u64.decode 0 d)
      else err malformed

  unfoldable pub variant_decode : Variant Time → Bytes → Result (Variant Time × ℕ)
  variant_decode old [] = err malformed
  variant_decode old (tag ∷ d) = variant_value tag d

  -- `Variant::encode` and `Variant::decode`
  abbrev pub variant : Codec (Variant Time)
  variant = record { blank = empty; encode = variant_encode; decode = variant_decode }

  abbrev pub IsSmall : Variant Time → Type 0
  IsSmall empty = Unit {0}
  IsSmall (int64 n) = n < 256 ^ 8
  IsSmall (double n) = n < 256 ^ 8
  IsSmall (boolean n) = n < 256 ^ 1
  IsSmall (text s) = length s + 1 < 65536
  IsSmall (date t) = IsWhole calendar t
  IsSmall (uint64 n) = n < 256 ^ 8

  wrap-eq-ok :
      {A : Type 0} (make : A → Variant Time) (r : Result (A × ℕ)) (v : A) (n : ℕ)
      → r ≡ ok (v, n)
      → wrap make r ≡ ok (make v, suc n)
  wrap-eq-ok make r v n returns = rw returns (ap (λ (k : ℕ). ok (make v, k)) (omega arith))

  -- A new `Variant` reads back what a `Variant` wrote.
  pub variant-RoundTrips : RoundTrips variant IsSmall
  unfolding variant_decode variant_value
  variant-RoundTrips empty rest good = refl
  variant-RoundTrips (int64 n) rest good = wrap-eq-ok int64 _ n 8 (int-RoundTrips 8 n rest good)
  variant-RoundTrips (double n) rest good = wrap-eq-ok double _ n 8 (int-RoundTrips 8 n rest good)
  variant-RoundTrips (boolean n) rest good = wrap-eq-ok boolean _ n 1 (int-RoundTrips 1 n rest good)
  variant-RoundTrips (text s) rest good =
      wrap-eq-ok text _ s (length (string.encode s)) (string-RoundTrips s rest good)
  variant-RoundTrips (date t) rest good =
      wrap-eq-ok date _ t 8 (datetime-RoundTrips calendar t rest good)
  variant-RoundTrips (uint64 n) rest good = wrap-eq-ok uint64 _ n 8 (int-RoundTrips 8 n rest good)

  abbrev IsInside : {A : Type 0} → ℕ → Result (A × ℕ) → Type 0
  IsInside {A} size r = (v : A) (n : ℕ) → r ≡ ok (v, n) → n ≤ size

  if-IsInside :
      {A : Type 0} (size : ℕ) (test : Bool) (r s : Result (A × ℕ))
      → IsInside size r
      → IsInside size s
      → IsInside size (if test then r else s)
  if-IsInside size true r s first second = first
  if-IsInside size false r s first second = second

  err-IsInside : {A : Type 0} (size : ℕ) → IsInside {A = A} size (err malformed)
  err-IsInside size v n returns = cc

  one-IsInside : {A : Type 0} (a : A) (size : ℕ) → IsInside (suc size) (ok (a, 1))
  one-IsInside a size v n returns = omega (arith, ap (λ w. w.1) (ok_injective returns))

  wrap-IsInside :
      {A : Type 0} (make : A → Variant Time) (size : ℕ) (r : Result (A × ℕ))
      → IsInside size r
      → IsInside (suc size) (wrap make r)
  wrap-IsInside make size r inside v n returns =
      let q = >>=-eq-ok r _ returns in
      omega (arith, ap (λ w. w.1) (ok_injective q.2), inside q.0.0 q.0.1 q.1)

  variant_value-IsInside : (tag : ℕ) (d : Bytes) → IsInside (suc (length d)) (variant_value tag d)
  unfolding variant_value
  variant_value-IsInside tag d =
      let size = suc (length d) in
      let none : IsInside {A = Variant Time} size (ok (empty, 1)) = one-IsInside empty (length d) in
      let wide : IsInside (length d) (u64.decode 0 d) = λ v n. int-StaysInside 8 0 v d n in
      let byte : IsInside (length d) (u8.decode 0 d) = λ v n. int-StaysInside 1 0 v d n in
      let chars : IsInside (length d) (string.decode [] d) = λ v n. string-StaysInside [] v d n in
      let time : IsInside (length d) ((datetime calendar).decode calendar.now d) =
        λ v n. datetime-StaysInside calendar calendar.now v d n in
      let bad : IsInside {A = Variant Time} size (err malformed) = err-IsInside size in
      if-IsInside size (tag == 0) _ _ none (
        if-IsInside size (tag == 1) _ _ (wrap-IsInside int64 (length d) _ wide) (
          if-IsInside size (tag == 2) _ _ (wrap-IsInside double (length d) _ wide) (
            if-IsInside size (tag == 3) _ _ (wrap-IsInside boolean (length d) _ byte) (
              if-IsInside size (tag == 4) _ _ (wrap-IsInside text (length d) _ chars) (
                if-IsInside size (tag == 5) _ _ (wrap-IsInside date (length d) _ time) (
                  if-IsInside size (tag == 6) _ _ (wrap-IsInside uint64 (length d) _ wide) bad))))))

  pub variant-StaysInside : StaysInside variant
  unfolding variant_decode
  variant-StaysInside old v [] n returns = cc
  variant-StaysInside old v (tag ∷ d) n returns = variant_value-IsInside tag d v n returns
