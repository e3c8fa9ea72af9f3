-- ===== src/Base/Tests.antt =====
-- Boolean tests on the native numbers, the conditional, and C++ exceptions as values.
use Prim.Native.Nat.{ℕ, ◌≤◌, ◌<◌, compare, Ordering}
use mathlib.Core.Path.{◌≡◌, refl}
use mathlib.Core.Logic.{◌↔◌, ◌⊎◌, inl, inr}
use mathlib.Core.Bool.{Bool, true, false}
use mathlib.Core.Option.{Option, none, some}
use native.Mathlib.Omega.{arith}

-- These compute to `compare`, which `ground` and `grind` read with no lemma listed.
abbrev pub ltb : ℕ → ℕ → Bool
ltb a b = elim (compare a b) [ Ordering.lt ↦ true | _ ↦ false ]

abbrev pub leb : ℕ → ℕ → Bool
leb a b = elim (compare a b) [ Ordering.gt ↦ false | _ ↦ true ]

infix 50 ◌==◌
abbrev pub ◌==◌ : ℕ → ℕ → Bool
a == b = elim (compare a b) [ Ordering.eq ↦ true | _ ↦ false ]

infix 1 if◌then◌else◌
abbrev pub if◌then◌else◌ {ℓ} : {A : Type ℓ} → Bool → A → A → A
if true then x else y = x
if false then x else y = y

pub ltb→lt : (a b : ℕ) → ltb a b ≡ true → a < b
ltb→lt a b h = ground arith

pub lt→ltb : (a b : ℕ) → a < b → ltb a b ≡ true
lt→ltb a b h = ground arith

pub ge→ltb : (a b : ℕ) → b ≤ a → ltb a b ≡ false
ge→ltb a b h = ground arith

pub le→leb : (a b : ℕ) → a ≤ b → leb a b ≡ true
le→leb a b h = ground arith

pub ==_iff : (a b : ℕ) → ((a == b) ≡ true) ↔ (a ≡ b)
==_iff a b = ground arith

-- To split on a computed value and keep the equation.
pub Bool-cases : (b : Bool) → (b ≡ true) ⊎ (b ≡ false)
Bool-cases true = inl refl
Bool-cases false = inr refl

pub Option-cases {ℓ} : {A : Type ℓ} (o : Option A) → (o ≡ none) ⊎ ((a : A) × (o ≡ some a))
Option-cases none = inl refl
Option-cases (some a) = inr (a, refl)

-- The exceptions of exceptions.hpp that the modelled code throws. `length_error` is the standard
-- library's, thrown by a `resize` beyond `max_size`.
pub data Exception : Type 0 where
  malformed not_complete runtime length_error : Exception

pub data Result {κ} (V : Type κ) : Type κ where
  err : Exception → Result V
  ok : V → Result V

-- `if (test) throw x;`
abbrev pub throw_if : Bool → Exception → Result (Unit {0})
throw_if true x = err x
throw_if false x = ok tt

-- What follows a call that may throw.
infixl 5 ◌>>=◌ ◌>>◌
abbrev pub ◌>>=◌ {κ ℓ} : {V : Type κ} {W : Type ℓ} → Result V → (V → Result W) → Result W
err x >>= next = err x
ok v >>= next = next v

abbrev pub ◌>>◌ {κ} : {W : Type κ} → Result (Unit {0}) → Result W → Result W
err x >> next = err x
ok u >> next = next

pub Result-cases {κ} :
    {V : Type κ} (r : Result V) → ((v : V) × (r ≡ ok v)) ⊎ ((x : Exception) × (r ≡ err x))
Result-cases (err x) = inr (x, refl)
Result-cases (ok v) = inl (v, refl)

-- A call that is followed to a normal end has returned, and with what.
pub >>=-eq-ok {κ ℓ} :
    {V : Type κ} {W : Type ℓ} (call : Result V) (next : V → Result W) {w : W}
    → (call >>= next) ≡ ok w
    → (v : V) × (call ≡ ok v) × (next v ≡ ok w)
>>=-eq-ok (err x) next ends = cc
>>=-eq-ok (ok v) next ends = (v, refl, ends)

pub throw_if-eq-ok {ℓ} :
    {A : Type ℓ} (b : Bool) (x : Exception) (r : Result A) {a : A}
    → (throw_if b x >> r) ≡ ok a
    → (b ≡ false) × (r ≡ ok a)
throw_if-eq-ok true x r h = cc
throw_if-eq-ok false x r h = (refl, h)

pub throw_if-pass {ℓ} :
    {A : Type ℓ} (b : Bool) (x : Exception) (r : Result A) → b ≡ false → (throw_if b x >> r) ≡ r
throw_if-pass true x r h = cc
throw_if-pass false x r h = refl
