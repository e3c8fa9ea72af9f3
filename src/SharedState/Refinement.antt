-- ===== src/SharedState/Refinement.antt =====
-- The sessions of sharedState/localSharedState.cpp as what a client of the class can tell of them:
-- the players of each ID.
use splatit.Base.{
  ℕ, ◌≡◌, ◌⊎◌, inl, inr, refl, sym, ap, ◌∙◌, arith, Bool, true, false, Option, none, some, List, [],
  ◌∷◌, ◌==◌, if◌then◌else◌, Bool-cases, ==_iff,
}
use splatit.Base.Dict.{lookup, nat_eq, lookup-put, lookup-erase, lookup-update}
use splatit.Base.Sets.{set_insert_all, set_erase}
use splatit.Nex.Matchmake.Session.{MatchmakeSession}
use splatit.SharedState.{Local, SplatoonClient, SessionInfo}
use splatit.SharedState.Friends.{
  set_friends_client, delete_friends_client, add_friend, remove_friend, update_preference,
}
use splatit.SharedState.Clients.{
  set_splatoon_client, delete_splatoon_client, update_urls, update_nat_properties, leave_of,
  leave_sessions, leave_object, leave_found,
}
use splatit.SharedState.Sessions.{
  set_session, set_given, set_copied, pointed, delete_session, delete_found, add_players, add_found,
  remove_player, remove_found, store_players, with_players,
}
use splatit.SharedState.Steps.{
  Step, set_friends, delete_friends, befriend, unfriend, prefer, set_client, delete_client,
  set_urls, set_nat, set_info, delete_info, add, remove, allocate, write,
}

-- The specification: a map from IDs to players.
abbrev pub Rooms : Type 0
Rooms = ℕ → Option (List ℕ)

abbrev pub at_room : ℕ → Option (List ℕ) → Rooms → Rooms
at_room g players m j = if g == j then players else m j

abbrev pub without : ℕ → Option (List ℕ) → Option (List ℕ)
without pid none = none
without pid (some players) = some (set_erase pid players)

abbrev pub entered : List ℕ → Option (List ℕ) → Option (List ℕ)
entered pids none = none
entered pids (some players) = some (set_insert_all pids players)

-- What an operation is for the rooms.
pub data Action : Type 0 where
  silent : Action
  open_room : ℕ → List ℕ → Action
  close_room : ℕ → Action
  enter : ℕ → List ℕ → Action
  exit : ℕ → ℕ → Action
  depart : ℕ → Action

-- What the specification lets an action make of the rooms. A client that departs may leave any of
-- the rooms.
abbrev pub After : Action → Rooms → Rooms → Type 0
After silent m n = (j : ℕ) → n j ≡ m j
After (open_room g players) m n = (j : ℕ) → n j ≡ at_room g (some players) m j
After (close_room g) m n = (j : ℕ) → n j ≡ at_room g none m j
After (enter g pids) m n = (j : ℕ) → n j ≡ at_room g (entered pids (m g)) m j
After (exit g pid) m n = (j : ℕ) → n j ≡ at_room g (without pid (m g)) m j
After (depart pid) m n = (j : ℕ) → (n j ≡ m j) ⊎ (n j ≡ without pid (m j))

abbrev pub players_in : Option SessionInfo → Option (List ℕ)
players_in none = none
players_in (some info) = some info.players

-- What the state says of the rooms.
abbrev pub rooms : {Time : Type 0} → Local Time → Rooms
rooms s j = players_in (lookup j s.sessions)

players_in-if :
    (test : Bool) (one two : Option SessionInfo)
    → players_in (if test then one else two) ≡ (if test then players_in one else players_in two)
players_in-if true one two = refl
players_in-if false one two = refl

set_erase-twice : (k : ℕ) (m : List ℕ) → set_erase k (set_erase k m) ≡ set_erase k m
set_erase-twice k [] = refl
set_erase-twice k (j ∷ m) = ground (arith, set_erase-twice k m)

without-twice :
    (pid : ℕ) (room : Option (List ℕ)) → without pid (without pid room) ≡ without pid room
without-twice pid none = refl
without-twice pid (some players) = ap some (set_erase-twice pid players)

-- Nothing changes where a room gets the players that it has.
at_room-same :
    (g j : ℕ) (m : Rooms) (players : Option (List ℕ)) → m g ≡ players → m j ≡ at_room g players m j
at_room-same g j m players same = elim (Bool-cases (g == j)) [
  | inl same_room ↦ rw same_room (ap m (sym ((==_iff g j).0 same_room)) ∙ same)
  | inr apart ↦ rw apart refl
]

module _ {Time : Type 0} where
  pub store_players-rooms :
      (s : Local Time) (g : ℕ) (info : SessionInfo) (players : List ℕ) (j : ℕ)
      → lookup g s.sessions ≡ some info
      → rooms (store_players s g info players) j ≡ at_room g (some players) (rooms s) j
  unfolding store_players
  store_players-rooms s g info players j found =
      ap players_in (lookup-update g j (with_players players) s.sessions info found)
      ∙ players_in-if (g == j) (some (with_players players info)) (lookup j s.sessions)

  Departed : ℕ → Local Time → Local Time → Type 0
  Departed pid s t = (j : ℕ) → (rooms t j ≡ rooms s j) ⊎ (rooms t j ≡ without pid (rooms s j))

  Departed-trans :
      (pid : ℕ) (s t u : Local Time) → Departed pid s t → Departed pid t u → Departed pid s u
  unfolding Departed
  Departed-trans pid s t u one two j = both (one j) (two j)
    where
      both :
          {a b c : Option (List ℕ)}
          → (b ≡ a) ⊎ (b ≡ without pid a)
          → (c ≡ b) ⊎ (c ≡ without pid b)
          → (c ≡ a) ⊎ (c ≡ without pid a)
      both (inl x) (inl y) = inl (y ∙ x)
      both (inl x) (inr y) = inr (y ∙ ap (without pid) x)
      both (inr x) (inl y) = inr (y ∙ x)
      both {a = a} (inr x) (inr y) = inr (y ∙ ap (without pid) x ∙ without-twice pid a)

  leave_found-Departed :
      (s : Local Time) (pid g : ℕ) (found : Option SessionInfo)
      → lookup g s.sessions ≡ found
      → Departed pid s (leave_found s pid g found)
  unfolding leave_found Departed
  leave_found-Departed s pid g none seen j = inl refl
  leave_found-Departed s pid g (some info) seen j =
      let stored = store_players-rooms s g info (set_erase pid info.players) j seen in
      elim (Bool-cases (g == j)) [
        | inl same ↦
            let room = ap (rooms s) (sym ((==_iff g j).0 same)) ∙ ap players_in seen in
            inr (stored ∙ rw same (sym (ap (without pid) room)))
        | inr apart ↦ inl (stored ∙ rw apart refl)
      ]

  leave_object-Departed :
      (s : Local Time) (pid : ℕ) (o : Option (MatchmakeSession Time))
      → Departed pid s (leave_object s pid o)
  unfolding leave_object Departed
  leave_object-Departed s pid none j = inl refl
  leave_object-Departed s pid (some o) j =
      leave_found-Departed s pid o.gathering.id (lookup o.gathering.id s.sessions) refl j

  leave_sessions-Departed :
      (s : Local Time) (pid : ℕ) (gatherings : List (Option ℕ))
      → Departed pid s (leave_sessions s pid gatherings)
  unfolding leave_sessions Departed
  leave_sessions-Departed s pid [] = λ j. inl refl
  leave_sessions-Departed s pid (gathering ∷ gatherings) =
      let t = leave_object s pid (pointed s gathering) in
      Departed-trans pid s t (leave_sessions t pid gatherings)
        (leave_object-Departed s pid (pointed s gathering))
        (leave_sessions-Departed t pid gatherings)

  leave_of-Departed :
      (s : Local Time) (pid : ℕ) (c : Option SplatoonClient) → Departed pid s (leave_of s pid c)
  unfolding leave_of Departed
  leave_of-Departed s pid none = λ j. inl refl
  leave_of-Departed s pid (some c) = leave_sessions-Departed s pid c.joined_gatherings

  -- The action of `setSplatoonMatchmakeSession`, which does nothing for a null pointer.
  abbrev opening : List ℕ → Option (MatchmakeSession Time) → Action
  opening players none = silent
  opening players (some o) = open_room o.gathering.id players

  set_given-refines :
      (s : Local Time) (o : Option (MatchmakeSession Time)) (players : List ℕ)
      → After (opening players o) (rooms s) (rooms (set_given s o players).1)
  unfolding set_given set_copied
  set_given-refines s none players = λ j. refl
  set_given-refines s (some o) players = λ j.
      ap players_in (lookup-put o.gathering.id j _ s.sessions)
      ∙ players_in-if (o.gathering.id == j) _ (lookup j s.sessions)

  delete_found-sessions :
      (s : Local Time) (g : ℕ) (found : Option SessionInfo)
      → (delete_found s g found).sessions ≡ s.sessions
  unfolding delete_found
  delete_found-sessions s g none = refl
  delete_found-sessions s g (some info) = refl

  add_found-refines :
      (s : Local Time) (g : ℕ) (pids : List ℕ) (found : Option SessionInfo)
      → lookup g s.sessions ≡ found
      → After (enter g pids) (rooms s) (rooms (add_found s g pids found).1)
  unfolding add_found
  add_found-refines s g pids none seen = λ j.
      let empty = ap players_in seen in
      at_room-same g j (rooms s) (entered pids (rooms s g)) (empty ∙ sym (ap (entered pids) empty))
  add_found-refines s g pids (some info) seen = λ j.
      store_players-rooms s g info (set_insert_all pids info.players) j seen
      ∙ ap (λ (r : Option (List ℕ)). at_room g (entered pids r) (rooms s) j)
          (sym (ap players_in seen))

  remove_found-refines :
      (s : Local Time) (g pid : ℕ) (found : Option SessionInfo)
      → lookup g s.sessions ≡ found
      → After (exit g pid) (rooms s) (rooms (remove_found s g pid found).1)
  unfolding remove_found
  remove_found-refines s g pid none seen = λ j.
      let empty = ap players_in seen in
      at_room-same g j (rooms s) (without pid (rooms s g)) (empty ∙ sym (ap (without pid) empty))
  remove_found-refines s g pid (some info) seen = λ j.
      store_players-rooms s g info (set_erase pid info.players) j seen
      ∙ ap (λ (r : Option (List ℕ)). at_room g (without pid r) (rooms s) j)
          (sym (ap players_in seen))

  delete_session-refines :
      (s : Local Time) (g : ℕ) → After (close_room g) (rooms s) (rooms (delete_session s g).1)
  unfolding delete_session
  delete_session-refines s g j =
      let t = delete_found s g (lookup g s.sessions) in
      ap players_in (lookup-erase g j t.sessions)
      ∙ players_in-if (g == j) none (lookup j t.sessions)
      ∙ ap (λ (m : List (ℕ × SessionInfo)). if g == j then none else players_in (lookup j m))
          (delete_found-sessions s g (lookup g s.sessions))

  abbrev pub action_of : {s t : Local Time} → Step s t → Action
  action_of (set_friends s info) = silent
  action_of (delete_friends s pid) = silent
  action_of (befriend s pid friend) = silent
  action_of (unfriend s pid friend) = silent
  action_of (prefer s pid p) = silent
  action_of (set_client s info) = silent
  action_of (delete_client s pid) = depart pid
  action_of (set_urls s pid urls) = silent
  action_of (set_nat s pid nat) = silent
  action_of (set_info s info) = opening info.players (pointed s info.session)
  action_of (delete_info s g) = close_room g
  action_of (add s g pids) = enter g pids
  action_of (remove s g pid) = exit g pid
  action_of (allocate s o) = silent
  action_of (write s a f free) = silent

  -- Each step does to the map from session IDs to players what its action is specified to do:
  -- open, close, enter or exit a room, or nothing; a client that is deleted may leave any of the
  -- rooms.
  pub Step-refines :
      {s t : Local Time} (step : Step s t) → After (action_of step) (rooms s) (rooms t)
  unfolding set_friends_client delete_friends_client add_friend remove_friend update_preference
      set_splatoon_client delete_splatoon_client update_urls update_nat_properties set_session
      add_players remove_player Departed
  Step-refines (set_friends s info) = λ j. refl
  Step-refines (delete_friends s pid) = λ j. refl
  Step-refines (befriend s pid friend) = λ j. refl
  Step-refines (unfriend s pid friend) = λ j. refl
  Step-refines (prefer s pid p) = λ j. refl
  Step-refines (set_client s info) = λ j. refl
  Step-refines (delete_client s pid) = leave_of-Departed s pid (lookup pid s.splatoon_clients)
  Step-refines (set_urls s pid urls) = λ j. refl
  Step-refines (set_nat s pid nat) = λ j. refl
  Step-refines (set_info s info) = set_given-refines s (pointed s info.session) info.players
  Step-refines (delete_info s g) = delete_session-refines s g
  Step-refines (add s g pids) = add_found-refines s g pids (lookup g s.sessions) refl
  Step-refines (remove s g pid) = remove_found-refines s g pid (lookup g s.sessions) refl
  Step-refines (allocate s o) = λ j. refl
  Step-refines (write s a f free) = λ j. refl
