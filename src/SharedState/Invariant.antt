-- ===== src/SharedState/Invariant.antt =====
-- What holds of the sessions of sharedState/localSharedState.cpp after every operation.
use splatit.Base.{
  ℕ, ◌%◌, ◌^◌, ◌≡◌, ◌≢◌, refl, sym, ap, ◌∙◌, subst, Bool, true, false, Option, none, some, List, [],
  ◌∷◌, ◌++◌, ◌==◌, ==_iff, if◌then◌else◌, length,
}
use splatit.Base.Dict.{lookup, erase, nat_eq, lookup-put, lookup-erase, lookup-update}
use splatit.Nex.Matchmake.Session.{MatchmakeSession}
use splatit.SharedState.{Local, SessionInfo, object_at, set_count, with_count}
use splatit.SharedState.Heap.{
  object_at-new, object_at-append, object_at-write_at, object_at-write_at_apart,
}
use splatit.SharedState.Sessions.{set_copied, store_players, with_players}

-- The session of `g` points to an object that has this ID and counts the players.
pub record IsStored {Time : Type 0} (heap : List (MatchmakeSession Time)) (g : ℕ)
    (info : SessionInfo) : Type 0 where
  pub place : ℕ
  pub object : MatchmakeSession Time
  pub points : info.session ≡ some place
  pub there : object_at heap place ≡ some object
  pub same_id : object.gathering.id ≡ g
  pub counts : object.participation_count ≡ length info.players % 2 ^ 32

some_injective : {A : Type 0} {a b : A} → some a ≡ some b → a ≡ b
some_injective h = cc

false_true : {A : Type 0} → false ≡ true → A
false_true h = cc

module _ {Time : Type 0} where
  abbrev pub IsConsistent : Local Time → Type 0
  IsConsistent s =
      (g : ℕ) (info : SessionInfo) → lookup g s.sessions ≡ some info → IsStored s.heap g info

  -- Sessions with different IDs have different objects.
  places_apart :
      (heap : List (MatchmakeSession Time)) (g j : ℕ) (info other : SessionInfo)
      (one : IsStored heap g info) (two : IsStored heap j other)
      → g ≢ j
      → one.place ≢ two.place
  places_apart heap g j info other one two apart same =
      let object = some_injective (sym one.there ∙ ap (object_at heap) same ∙ two.there) in
      apart
        (sym one.same_id ∙ ap (λ (o : MatchmakeSession Time). o.gathering.id) object ∙ two.same_id)

  IsStored-set_count :
      (heap : List (MatchmakeSession Time)) (g : ℕ) (info : SessionInfo) (players : List ℕ)
      → IsStored heap g info
      → IsStored (set_count heap info.session players) g (with_players players info)
  IsStored-set_count heap g info players was = record {
    place = was.place;
    object = with_count (length players % 4294967296) was.object;
    points = was.points;
    there = rw was.points (object_at-write_at _ heap was.place was.object was.there);
    same_id = was.same_id;
    counts = refl;
  }

  IsStored-set_count_apart :
      (heap : List (MatchmakeSession Time)) (g j : ℕ) (info other : SessionInfo) (players : List ℕ)
      → g ≢ j
      → IsStored heap g info
      → IsStored heap j other
      → IsStored (set_count heap info.session players) j other
  IsStored-set_count_apart heap g j info other players apart one two = record {
    place = two.place;
    object = two.object;
    points = two.points;
    there = rw one.points (
        object_at-write_at_apart _ heap one.place two.place
          (places_apart heap g j info other one two apart)
        ∙ two.there);
    same_id = two.same_id;
    counts = two.counts;
  }

  -- What is found where an entry was written is the written one, or what was there before.
  IsStored-written :
      (heap : List (MatchmakeSession Time)) (g j : ℕ) (test : Bool) (new other : SessionInfo)
      (before : Option SessionInfo)
      → (g == j) ≡ test
      → (if test then some new else before) ≡ some other
      → IsStored heap g new
      → (g ≢ j → before ≡ some other → IsStored heap j other)
      → IsStored heap j other
  IsStored-written heap g j true new other before same found here beside =
      subst (λ (k : ℕ). IsStored heap k other) ((==_iff g j).0 same)
        (subst (IsStored heap g) (some_injective found) here)
  IsStored-written heap g j false new other before apart found here beside =
      beside (λ same. false_true (sym apart ∙ (==_iff g j).1 same)) found

  -- The number of players in a session changes, and its object counts them.
  pub store_players-IsConsistent :
      (s : Local Time) (g : ℕ) (info : SessionInfo) (players : List ℕ)
      → lookup g s.sessions ≡ some info
      → IsConsistent s
      → IsConsistent (store_players s g info players)
  unfolding store_players
  store_players-IsConsistent s g info players found good j other seen =
      let was = good g info found in
      let new = lookup-update g j (with_players players) s.sessions info found in
      IsStored-written (set_count s.heap info.session players) g j (g == j)
        (with_players players info) other (lookup j s.sessions) refl (sym new ∙ seen)
        (IsStored-set_count s.heap g info players was)
        (λ apart before.
          IsStored-set_count_apart s.heap g j info other players apart was (good j other before))

  pub IsStored-append :
      (heap rest : List (MatchmakeSession Time)) (g : ℕ) (info : SessionInfo)
      → IsStored heap g info
      → IsStored (heap ++ rest) g info
  IsStored-append heap rest g info was = record {
    place = was.place;
    object = was.object;
    points = was.points;
    there = object_at-append heap rest was.place was.object was.there;
    same_id = was.same_id;
    counts = was.counts;
  }

  -- A session that is set gets a new object with its ID and the number of its players.
  pub set_copied-IsConsistent :
      (s : Local Time) (o : MatchmakeSession Time) (players : List ℕ)
      → IsConsistent s
      → IsConsistent (set_copied s o players)
  unfolding set_copied
  set_copied-IsConsistent s o players good j other seen =
      let g = o.gathering.id in
      let a = some (length s.heap) in
      let info : SessionInfo = record { session = a; players = players } in
      let n = length players % 4294967296 in
      let heap = s.heap ++ with_count n o ∷ [] in
      let here : IsStored heap g info = record {
        place = length s.heap;
        object = with_count n o;
        points = refl;
        there = object_at-new s.heap (with_count n o);
        same_id = refl;
        counts = refl;
      } in
      IsStored-written heap g j (g == j) info other (lookup j s.sessions) refl
        (sym (lookup-put g j info s.sessions) ∙ seen) here
        (λ apart before. IsStored-append s.heap (with_count n o ∷ []) j other (good j other before))

  pub erase-IsConsistent :
      (s : Local Time) (g : ℕ)
      → IsConsistent s
      → IsConsistent (record s { sessions = erase g s.sessions })
  erase-IsConsistent s g good j other seen =
      good j other (kept (g == j) (lookup j s.sessions) (sym (lookup-erase g j s.sessions) ∙ seen))
    where
      kept :
          (test : Bool) (before : Option SessionInfo)
          → (if test then none else before) ≡ some other
          → before ≡ some other
      kept true before found = cc
      kept false before found = found
