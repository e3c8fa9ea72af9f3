-- ===== src/SharedState/Outcomes.antt =====
-- What single operations of sharedState/localSharedState.cpp return and leave behind.
use splatit.Base.{
  ℕ, ◌-◌, ◌%◌, ◌≤◌, ◌≡◌, ◌⊎◌, inl, inr, refl, sym, ap, subst, ap₂, ◌∙◌, arith, Bool, true, false,
  Option, none, some, List, [], ◌∷◌, ◌++◌, map, ◌==◌, if◌then◌else◌, Bool-cases, ==_iff, length,
}
use splatit.Base.Dict.{lookup, lookup-put, nat_eq}
use splatit.Base.Sets.{set_erase, has, has-set_erase}
use splatit.Nex.Matchmake.Session.{MatchmakeSession}
use splatit.SharedState.{
  Local, SsResult, success, failure, SplatoonClient, SessionInfo, is_of, any, erase_first,
  replace_first, with_count,
}
use splatit.SharedState.Heap.{object_at-new}
use splatit.SharedState.Refinement.{rooms, players_in, store_players-rooms}
use splatit.SharedState.Sessions.{
  remove_player, remove_found, set_copied, settle, set_session, set_given, pointed,
}

some_injective : {A : Type 0} {a b : A} → some a ≡ some b → a ≡ b
some_injective h = cc

module _ {A : Type 0} (p : A → Bool) where
  -- The elements that `find_if` could stop at.
  abbrev pub found_in : List A → List A
  found_in [] = []
  found_in (x ∷ xs) = let rest = found_in xs in if p x then x ∷ rest else rest

  found_in-append :
      (xs : List A) (y : A) → p y ≡ true → found_in (xs ++ y ∷ []) ≡ found_in xs ++ y ∷ []
  found_in-append [] y h = rw h refl
  found_in-append (x ∷ xs) y h = ground (arith, found_in-append xs y h)

  any-found_in : (xs : List A) → any p xs ≡ (if length (found_in xs) == 0 then false else true)
  any-found_in [] = refl
  any-found_in (x ∷ xs) = ground (arith, any-found_in xs)

  found_in-erase_first :
      (xs : List A) → length (found_in (erase_first p xs)) ≡ length (found_in xs) - 1
  found_in-erase_first [] = refl
  found_in-erase_first (x ∷ xs) = ground (arith, found_in-erase_first xs)

  none_found : (xs : List A) → length (found_in xs) ≡ 0 → found_in xs ≡ []
  none_found xs h = length-nil (found_in xs) h
    where
      length-nil : (ys : List A) → length ys ≡ 0 → ys ≡ []
      length-nil [] h = refl
      length-nil (y ∷ ys) h = absurd (omega arith)

  found_in-replace_first :
      (xs : List A) (y : A)
      → p y ≡ true
      → any p xs ≡ true
      → length (found_in xs) ≤ 1
      → found_in (replace_first p y xs) ≡ y ∷ []
  found_in-replace_first [] y h there few = cc
  found_in-replace_first (x ∷ xs) y h there few = elim (Bool-cases (p x)) [
    | inl here ↦ rw (here, h) (ap (◌∷◌ y) (none_found xs (ground (arith, few))))
    | inr past ↦
        rw (past, past)
          (found_in-replace_first xs y h (ground (arith, there)) (ground (arith, few)))
  ]

  -- An element that joins a list with at most one like it is the only one.
  found_in-join :
      (xs : List A) (y : A)
      → p y ≡ true
      → length (found_in xs) ≤ 1
      → found_in (if any p xs then replace_first p y xs else xs ++ y ∷ []) ≡ y ∷ []
  found_in-join xs y h few = elim (Bool-cases (any p xs)) [
    | inl found ↦ rw found (found_in-replace_first xs y h found few)
    | inr missed ↦ rw missed (
        found_in-append xs y h
        ∙ ap (λ (l : List A). l ++ y ∷ []) (none_found xs (ground (arith, any-found_in xs))))
  ]

settled-here :
    {V : Type 0} (f : ℕ × V → V) (k j : ℕ) (test : Bool) (w v : V) (before after : Option V)
    → (j == k) ≡ test
    → (before ≡ some v → after ≡ some (f (k, v)))
    → (if test then some w else before) ≡ some v
    → (if test then some (f (j, w)) else after) ≡ some (f (k, v))
settled-here f k j true w v before after same rest found =
    ap₂ (λ (a : ℕ) (b : _). some (f (a, b))) ((==_iff j k).0 same) (some_injective found)
settled-here f k j false w v before after same rest found = rest found

-- A loop over a map that changes each value by its key.
lookup-settled :
    {V : Type 0} (f : ℕ × V → V) (k : ℕ) (m : List (ℕ × V)) (v : V)
    → lookup k m ≡ some v
    → lookup k (map (λ (e : ℕ × V). (e.0, f e)) m) ≡ some (f (k, v))
lookup-settled f k [] v found = cc
lookup-settled f k ((j, w) ∷ m) v found =
    settled-here f k j (j == k) w v (lookup k m) _ refl (lookup-settled f k m v) found

module _ {Time : Type 0} where
  -- `removePlayerFromSplatoonMatchmakeSession` fails and changes nothing where the ID has no
  -- session; otherwise it succeeds, and the players of the session are those from before without
  -- the player.
  pub remove_player-outcome :
      (s : Local Time) (g pid : ℕ)
      → ((rooms s g ≡ none) × (remove_player s g pid ≡ (failure, s)))
        ⊎ ((players : List ℕ) × (rooms s g ≡ some players)
            × ((remove_player s g pid).0 ≡ success)
            × (rooms (remove_player s g pid).1 g ≡ some (set_erase pid players))
            × (has pid (set_erase pid players) ≡ false))
  unfolding remove_player remove_found
  remove_player-outcome s g pid = outcome s g pid (lookup g s.sessions) refl
    where
      outcome :
          (s : Local Time) (g pid : ℕ) (found : Option SessionInfo)
          → lookup g s.sessions ≡ found
          → ((rooms s g ≡ none) × (remove_found s g pid found ≡ (failure, s)))
            ⊎ ((players : List ℕ) × (rooms s g ≡ some players)
                × ((remove_found s g pid found).0 ≡ success)
                × (rooms (remove_found s g pid found).1 g ≡ some (set_erase pid players))
                × (has pid (set_erase pid players) ≡ false))
      outcome s g pid none seen = inl (ap players_in seen, refl)
      outcome s g pid (some info) seen = inr (
        info.players,
        ap players_in seen,
        refl,
        store_players-rooms s g info (set_erase pid info.players) g seen
            ∙ rw ((==_iff g g).1 refl) refl,
        has-set_erase pid pid info.players ∙ rw ((==_iff pid pid).1 refl) refl,
      )

  settle-found_in :
      (heap : List (MatchmakeSession Time)) (g : ℕ) (a : Option ℕ) (players : List ℕ) (pid : ℕ)
      (c : SplatoonClient)
      → is_of heap g a ≡ true
      → length (found_in (is_of heap g) c.joined_gatherings) ≤ 1
      → found_in (is_of heap g) (settle heap g a players (pid, c)).1.joined_gatherings
        ≡ (if has pid players then a ∷ [] else [])
  settle-found_in heap g a players pid c own few = elim (Bool-cases (has pid players)) [
    | inl member ↦ rw member (found_in-join (is_of heap g) c.joined_gatherings a own few)
    | inr stranger ↦ rw stranger (
        none_found (is_of heap g) (erase_first (is_of heap g) c.joined_gatherings)
          (omega (arith, found_in-erase_first (is_of heap g) c.joined_gatherings, few)))
  ]

  -- The session has an object, and it is the only one with this ID that the client points to if it
  -- is a player; otherwise the client points to none.
  abbrev pub JoinedAfter : Local Time → ℕ → ℕ → Bool → Type 0
  JoinedAfter t g pid member =
      (info : SessionInfo) × (d : SplatoonClient) × (lookup g t.sessions ≡ some info)
      × (lookup pid t.splatoon_clients ≡ some d)
      × (found_in (is_of t.heap g) d.joined_gatherings ≡ (if member then info.session ∷ [] else []))

  set_copied-joined :
      (s : Local Time) (o : MatchmakeSession Time) (players : List ℕ) (pid : ℕ) (c : SplatoonClient)
      → lookup pid s.splatoon_clients ≡ some c
      → length (found_in (is_of (set_copied s o players).heap o.gathering.id) c.joined_gatherings)
        ≤ 1
      → JoinedAfter (set_copied s o players) o.gathering.id pid (has pid players)
  unfolding set_copied
  set_copied-joined s o players pid c found few =
      let g = o.gathering.id in
      let a = some (length s.heap) in
      let new = with_count (length players % 4294967296) o in
      let info : SessionInfo = record { session = a; players = players } in
      let heap = s.heap ++ new ∷ [] in
      let own : is_of heap g a ≡ true = rw (object_at-new s.heap new) ((==_iff g g).1 refl) in
      (
        info,
        (settle heap g a players (pid, c)).1,
        lookup-put g g info s.sessions ∙ rw ((==_iff g g).1 refl) refl,
        lookup-settled (λ (e : ℕ × SplatoonClient). (settle heap g a players e).1) pid
            s.splatoon_clients c found,
        settle-found_in heap g a players pid c own few,
      )

  set_session-opens :
      (s : Local Time) (info : SessionInfo) (o : MatchmakeSession Time)
      → pointed s info.session ≡ some o
      → set_session s info ≡ (success, set_copied s o info.players)
  unfolding set_session set_given
  set_session-opens s info o given = rw given refl

  -- Where a session is set from an object, a client that is known, with at most one pointer to an
  -- object of this ID, points to the object that is now stored, and to no other one of this ID, if
  -- the client is among the players, and to none otherwise.
  pub set_session-joined :
      (s : Local Time) (info : SessionInfo) (o : MatchmakeSession Time) (pid : ℕ)
      (c : SplatoonClient)
      → pointed s info.session ≡ some o
      → lookup pid s.splatoon_clients ≡ some c
      → length (found_in (is_of (set_session s info).1.heap o.gathering.id) c.joined_gatherings) ≤ 1
      → JoinedAfter (set_session s info).1 o.gathering.id pid (has pid info.players)
  set_session-joined s info o pid c given found few =
      let opens = set_session-opens s info o given in
      let after = set_copied s o info.players in
      let still : length (found_in (is_of after.heap o.gathering.id) c.joined_gatherings) ≤ 1 =
        subst
          (λ (r : SsResult × Local Time).
            length (found_in (is_of r.1.heap o.gathering.id) c.joined_gatherings) ≤ 1)
          opens few in
      subst
        (λ (r : SsResult × Local Time). JoinedAfter r.1 o.gathering.id pid (has pid info.players))
        (sym opens) (set_copied-joined s o info.players pid c found still)
