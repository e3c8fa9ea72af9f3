-- ===== src/Nex.antt =====
-- The types of nex/types: what `encode` and `decode` of a class under `Type` do, and how a class
-- that has fields puts the codecs of the fields together.
pub mod Ints
pub mod Text
pub mod Containers
pub mod Values
pub mod Variant
pub mod Structure
pub mod Laws
pub mod Ranking
pub mod Friends
pub mod Matchmake
pub mod Holder
use splatit.Base.{
  ℕ, ◌+◌, ◌≤◌, ◌≡◌, refl, ap, ◌∙◌, sym, arith, ◌++◌, length, drop, append_assoc, length-append,
  length-drop, Result, ok, ◌>>=◌, >>=-eq-ok, drop-length_append,
}
use splatit.Base.Bytes.{Bytes}

-- A class under `Type`. `blank` is the object that its constructor makes, `encode` the bytes it
-- writes, and `decode` fills an object from bytes and returns how many of them it used.
pub record Codec (A : Type 0) : Type 0 where
  pub blank : A
  pub encode : A → Bytes
  pub decode : A → Bytes → Result (A × ℕ)

-- What a call returned, read off an equation.
pub ok_injective {κ} : {V : Type κ} {v w : V} → ok v ≡ ok w → v ≡ w
ok_injective same = cc

-- Two fields one behind the other: `size += a.decode(data.subspan(size))`, and then `b` the same.
unfoldable pub decode_second : {A B : Type 0} → Codec B → B → Bytes → A × ℕ → Result ((A × B) × ℕ)
decode_second {A = A} {B = B} b old d r =
    b.decode old (drop r.1 d) >>= λ (q : B × ℕ). ok ((r.0, q.0), r.1 + q.1)

unfoldable pub pair : {A B : Type 0} → Codec A → Codec B → Codec (A × B)
unfolding decode_second
pair a b = record {
  blank = (a.blank, b.blank);
  encode = λ v. a.encode v.0 ++ b.encode v.1;
  decode = λ old d. a.decode old.0 d >>= decode_second b old.1 d;
}

infixr 60 ◌⊗◌
abbrev pub ◌⊗◌ : {A B : Type 0} → Codec A → Codec B → Codec (A × B)
a ⊗ b = pair a b

-- Tuples that nest as `◌⊗◌` does.
infixr 60 ◌⊠◌ ◌◂◌
abbrev pub ◌⊠◌ : Type 0 → Type 0 → Type 0
A ⊠ B = A × B

abbrev pub ◌◂◌ : {A B : Type 0} → A → B → A × B
a ◂ b = (a, b)

-- A class whose fields are those of a tuple.
unfoldable pub class_of : {A B : Type 0} → Codec A → (A → B) → (B → A) → Codec B
class_of {A = A} c make fields = record {
  blank = make c.blank;
  encode = λ v. c.encode (fields v);
  decode = λ old d. c.decode (fields old) d >>= λ (q : A × ℕ). ok (make q.0, q.1);
}

-- A new object reads back what an object wrote, whatever bytes follow, and uses all of it.
abbrev pub RoundTrips : {A : Type 0} → Codec A → (A → Type 0) → Type 0
RoundTrips {A} c Good =
    (v : A) (rest : Bytes)
    → Good v
    → c.decode c.blank (c.encode v ++ rest) ≡ ok (v, length (c.encode v))

-- No `decode` that returns has used more bytes than there were.
abbrev pub StaysInside : {A : Type 0} → Codec A → Type 0
StaysInside {A} c = (old v : A) (d : Bytes) (n : ℕ) → c.decode old d ≡ ok (v, n) → n ≤ length d

pub pair-RoundTrips :
    {A B : Type 0} (a : Codec A) (b : Codec B) {P : A → Type 0} {Q : B → Type 0}
    → RoundTrips a P
    → RoundTrips b Q
    → RoundTrips (pair a b) (λ v. P v.0 × Q v.1)
unfolding pair decode_second
pair-RoundTrips a b first second v rest good =
    let behind = b.encode v.1 ++ rest in
    rw (append_assoc (a.encode v.0) (b.encode v.1) rest, first v.0 behind good.0)
      (rw (drop-length_append (a.encode v.0) behind, second v.1 rest good.1)
        (rw (length-append (a.encode v.0) (b.encode v.1)) refl))

pub pair-StaysInside :
    {A B : Type 0} (a : Codec A) (b : Codec B)
    → StaysInside a
    → StaysInside b
    → StaysInside (pair a b)
unfolding pair decode_second
pair-StaysInside a b first second old v d n returns =
    let r = >>=-eq-ok (a.decode old.0 d) _ returns in
    let q = >>=-eq-ok (b.decode old.1 (drop r.0.1 d)) _ r.2 in
    let whole = ok_injective q.2 in
    omega (
      arith,
      ap (λ w. w.1) whole,
      first old.0 r.0.0 d r.0.1 r.1,
      second old.1 q.0.0 (drop r.0.1 d) q.0.1 q.1,
      length-drop r.0.1 d,
    )

pub class_of-RoundTrips :
    {A B : Type 0} (c : Codec A) (make : A → B) (fields : B → A) {P : A → Type 0}
    → ((a : A) → fields (make a) ≡ a)
    → ((b : B) → make (fields b) ≡ b)
    → RoundTrips c P
    → RoundTrips (class_of c make fields) (λ b. P (fields b))
unfolding class_of
class_of-RoundTrips c make fields there back trips b rest good =
    rw (there c.blank, trips (fields b) rest good, back b) refl

pub class_of-StaysInside :
    {A B : Type 0} (c : Codec A) (make : A → B) (fields : B → A)
    → StaysInside c
    → StaysInside (class_of c make fields)
unfolding class_of
class_of-StaysInside c make fields inside old v d n returns =
    let q = >>=-eq-ok (c.decode (fields old) d) _ returns in
    omega (arith, ap (λ w. w.1) (ok_injective q.2), inside (fields old) q.0.0 d q.0.1 q.1)
