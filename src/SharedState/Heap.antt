-- ===== src/SharedState/Heap.antt =====
-- Reads of the heap behind writes, and ranges of the maps.
use splatit.Base.{ℕ, zero, suc, ◌≡◌, ◌≢◌, refl, ap, some, List, [], ◌∷◌, ◌++◌, length}
use splatit.Nex.Matchmake.Session.{MatchmakeSession}
use splatit.SharedState.{object_at, write_at}

module _ {Time : Type 0} where
  pub object_at-new :
      (os : List (MatchmakeSession Time)) (o : MatchmakeSession Time)
      → object_at (os ++ o ∷ []) (length os) ≡ some o
  object_at-new [] o = refl
  object_at-new (x ∷ os) o = object_at-new os o

  pub object_at-append :
      (os rest : List (MatchmakeSession Time)) (a : ℕ) (o : MatchmakeSession Time)
      → object_at os a ≡ some o
      → object_at (os ++ rest) a ≡ some o
  object_at-append [] rest a o there = cc
  object_at-append (x ∷ os) rest zero o there = there
  object_at-append (x ∷ os) rest (suc a) o there = object_at-append os rest a o there

  pub object_at-write_at :
      (f : MatchmakeSession Time → MatchmakeSession Time) (os : List (MatchmakeSession Time))
      (a : ℕ) (o : MatchmakeSession Time)
      → object_at os a ≡ some o
      → object_at (write_at f os a) a ≡ some (f o)
  object_at-write_at f [] a o there = cc
  object_at-write_at f (x ∷ os) zero o there = cc
  object_at-write_at f (x ∷ os) (suc a) o there = object_at-write_at f os a o there

  pub object_at-write_at_apart :
      (f : MatchmakeSession Time → MatchmakeSession Time) (os : List (MatchmakeSession Time))
      (a b : ℕ)
      → a ≢ b
      → object_at (write_at f os a) b ≡ object_at os b
  object_at-write_at_apart f [] a b apart = refl
  object_at-write_at_apart f (x ∷ os) zero zero apart = absurd (apart refl)
  object_at-write_at_apart f (x ∷ os) zero (suc b) apart = refl
  object_at-write_at_apart f (x ∷ os) (suc a) zero apart = refl
  object_at-write_at_apart f (x ∷ os) (suc a) (suc b) apart =
      object_at-write_at_apart f os a b (λ same. apart (ap suc same))
