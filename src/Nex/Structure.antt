-- ===== src/Nex/Structure.antt =====
-- `Structure` of nex/types/common/structure.hpp: the header of a class that has one, and the classes
-- `Data` and `ResultRange` of data.hpp and resultRange.hpp.
use splatit.Base.{
  ℕ, ◌+◌, ◌-◌, ◌%◌, ◌^◌, ◌≤◌, ◌<◌, ◌≡◌, arith, Bool, true, false, not, [], ◌∷◌, ◌++◌, length, drop,
  ltb, ◌==◌, if◌then◌else◌, ok, ◌>>=◌, ◌>>◌, throw_if, throw_if-eq-ok, >>=-eq-ok, malformed, Result,
  throw_if-pass, ge→ltb, lt→ltb, length-append, length-drop, ap, ◌∙◌, Bool-cases, inl, inr,
}
use splatit.Base.Bytes.{Bytes, at}
use splatit.Nex.{Codec, RoundTrips, StaysInside, ok_injective}
use splatit.Nex.Ints.{little, number, number-little}

-- `encodeHeader`, of an object with this minor version.
abbrev pub encode_header : ℕ → ℕ → ℕ → Bytes
encode_header minor_version version size =
    if ltb minor_version 3 then [] else version ∷ little 4 size

unfoldable pub check_header : ℕ → Bytes → Result ℕ
check_header expected d =
    throw_if (ltb (length d) 5) malformed
    >> (throw_if (not (at d 0 == expected)) malformed
        >> (throw_if (ltb (length d) (number 4 (drop 1 d) + 5)) malformed >> ok 5))

-- `decodeHeader`
abbrev pub decode_header : ℕ → ℕ → Bytes → Result ℕ
decode_header minor_version expected d =
    if ltb minor_version 3 then ok 0 else check_header expected d

check_header-little :
    (version : ℕ) (body rest : Bytes)
    → length body < 2 ^ 32
    → check_header version (version ∷ little 4 (length body) ++ (body ++ rest)) ≡ ok 5
unfolding check_header
check_header-little version body rest small =
    let behind = body ++ rest in
    let d = version ∷ little 4 (length body) ++ behind in
    let seen : number 4 (drop 1 d) ≡ length body = number-little 4 (length body) behind small in
    throw_if-pass (ltb (length d) 5) malformed _ (ge→ltb _ _ (omega arith))
    ∙ (throw_if-pass (not (at d 0 == version)) malformed _ (ground arith)
        ∙ throw_if-pass (ltb (length d) (number 4 (drop 1 d) + 5)) malformed _
            (ge→ltb _ _ (omega (arith, seen, length-append body rest))))

check_header-inside :
    (version : ℕ) (d : Bytes) (n : ℕ) → check_header version d ≡ ok n → n ≤ length d
unfolding check_header
check_header-inside version d n returns =
    let one = throw_if-eq-ok (ltb (length d) 5) malformed _ returns in
    let two = throw_if-eq-ok (not (at d 0 == version)) malformed _ one.1 in
    let three = throw_if-eq-ok (ltb (length d) (number 4 (drop 1 d) + 5)) malformed _ two.1 in
    ground (arith, one.0, ok_injective three.1)

header_if-inside :
    (old : Bool) (version : ℕ) (d : Bytes) (n : ℕ)
    → (if old then ok 0 else check_header version d) ≡ ok n
    → n ≤ length d
header_if-inside true version d n returns = omega (arith, ok_injective returns)
header_if-inside false version d n returns = check_header-inside version d n returns

module _ {A : Type 0} (minor_version version : ℕ) (body : Codec A) where
  unfoldable pub decode_behind : A → Bytes → ℕ → Result (A × ℕ)
  decode_behind old d header =
      body.decode old (drop header d) >>= λ (q : A × ℕ). ok (q.0, header + q.1)

  -- A class with fields and a header before them: its `encode` and its `decode`.
  unfoldable pub structure : Codec A
  unfolding decode_behind
  structure = record {
    blank = body.blank;
    encode = λ v.
        let data' = body.encode v in
        encode_header minor_version version (length data' % 2 ^ 32) ++ data';
    decode = λ old d. decode_header minor_version version d >>= decode_behind old d;
  }

  pub structure-RoundTrips :
      {P : A → Type 0}
      → RoundTrips body P
      → RoundTrips structure (λ v. P v × (length (body.encode v) < 2 ^ 32))
  unfolding structure decode_behind
  structure-RoundTrips trips v rest good = elim (Bool-cases (ltb minor_version 3)) [
    | inl old ↦ rw (old, trips v rest good.0) (ap (λ (n : ℕ). ok (v, n)) (omega arith))
    | inr new ↦
        let whole : length (body.encode v) % 4294967296 ≡ length (body.encode v) =
          omega (arith, good.1) in
        rw
          (new, whole, check_header-little version (body.encode v) rest good.1, trips v rest good.0)
          (ap (λ (n : ℕ). ok (v, n)) (omega arith))
  ]

  pub structure-StaysInside : StaysInside body → StaysInside structure
  unfolding structure decode_behind
  structure-StaysInside inside old v d n returns =
      let h = >>=-eq-ok (decode_header minor_version version d) _ returns in
      let q = >>=-eq-ok (body.decode old (drop h.0 d)) _ h.2 in
      omega (
        arith,
        ap (λ w. w.1) (ok_injective q.2),
        header_if-inside (ltb minor_version 3) version d h.0 h.1,
        inside old q.0.0 (drop h.0 d) q.0.1 q.1,
        length-drop h.0 d,
      )

  structure-old : {P : A → Type 0} → minor_version < 3 → RoundTrips body P → RoundTrips structure P
  unfolding structure decode_behind
  structure-old low trips v rest good =
      rw (lt→ltb minor_version 3 low, trips v rest good) (ap (λ (n : ℕ). ok (v, n)) (omega arith))

  -- A class under `Data`, whose own header stands in front: `encode`, and `decode`, which returns
  -- the size without what the header of `Data` took.
  unfoldable pub data_class : Codec A
  unfolding structure
  data_class = record {
    blank = body.blank;
    encode = λ v. encode_header minor_version 0 0 ++ structure.encode v;
    decode = λ old d. decode_header minor_version 0 d >>= λ parent_size.
        structure.decode old (drop parent_size d);
  }

  -- Without headers, for minor versions below 3, a class under `Data` reads back what it wrote.
  pub data_class-RoundTrips :
      {P : A → Type 0} → minor_version < 3 → RoundTrips body P → RoundTrips data_class P
  unfolding data_class structure decode_behind
  data_class-RoundTrips low trips v rest good =
      rw (lt→ltb minor_version 3 low, trips v rest good) (ap (λ (n : ℕ). ok (v, n)) (omega arith))

  pub data_class-short :
      {P : A → Type 0} (v : A) (rest : Bytes)
      → 3 ≤ minor_version
      → RoundTrips body P
      → P v
      → length (body.encode v) < 2 ^ 32
      → data_class.decode data_class.blank (data_class.encode v ++ rest)
        ≡ ok (v, length (data_class.encode v) - 5)
  unfolding data_class structure decode_behind
  data_class-short v rest new trips good small =
      let front = version ∷ little 4 (length (body.encode v)) in
      let whole : length (body.encode v) % 4294967296 ≡ length (body.encode v) =
        omega (arith, small) in
      rw
        (
          ge→ltb minor_version 3 new,
          whole,
          check_header-little 0 [] (front ++ (body.encode v ++ rest)) (omega arith),
          check_header-little version (body.encode v) rest small,
          trips v rest good,
        )
        (ap (λ (n : ℕ). ok (v, n)) (omega arith))

  pub data_class-StaysInside : StaysInside body → StaysInside data_class
  unfolding data_class
  data_class-StaysInside inside old v d n returns =
      let h = >>=-eq-ok (decode_header minor_version 0 d) _ returns in
      omega (arith, structure-StaysInside inside old v (drop h.0 d) n h.2, length-drop h.0 d)
