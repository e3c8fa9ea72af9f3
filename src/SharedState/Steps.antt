-- ===== src/SharedState/Steps.antt =====
-- Runs of the operations of sharedState/localSharedState.cpp, in any order. A caller that holds a
-- shared pointer may make objects, and write to those that no session has.
use splatit.Base.{ℕ, ◌≡◌, ◌≢◌, refl, ◌∙◌, Option, none, some, List, [], ◌∷◌, ◌++◌}
use splatit.Base.Dict.{lookup, nat_eq}
use splatit.Base.Sets.{set_insert_all, set_erase}
use splatit.Nex.Matchmake.Session.{MatchmakeSession}
use splatit.SharedState.{
  Local, FriendsClient, UserPreference, SplatoonClient, StationUrl, NatProperties, SessionInfo,
  write_at,
}
use splatit.SharedState.Heap.{object_at-write_at_apart}
use splatit.SharedState.Friends.{
  set_friends_client, delete_friends_client, add_friend, remove_friend, update_preference,
}
use splatit.SharedState.Clients.{
  set_splatoon_client, delete_splatoon_client, update_urls, update_nat_properties, leave_of,
  leave_sessions, leave_object, leave_found,
}
use splatit.SharedState.Sessions.{
  set_session, set_given, pointed, delete_session, delete_found, add_players, add_found,
  remove_player, remove_found,
}
use splatit.SharedState.Invariant.{
  IsConsistent, store_players-IsConsistent, set_copied-IsConsistent, erase-IsConsistent,
  IsStored-append,
}

module _ {Time : Type 0} where
  pub data Step : Local Time → Local Time → Type 0 where
    set_friends : (s : Local Time) (info : FriendsClient) → Step s (set_friends_client s info).1
    delete_friends : (s : Local Time) (pid : ℕ) → Step s (delete_friends_client s pid).1
    befriend : (s : Local Time) (pid friend : ℕ) → Step s (add_friend s pid friend).1
    unfriend : (s : Local Time) (pid friend : ℕ) → Step s (remove_friend s pid friend).1
    prefer : (s : Local Time) (pid : ℕ) (p : UserPreference) → Step s (update_preference s pid p).1
    set_client : (s : Local Time) (info : SplatoonClient) → Step s (set_splatoon_client s info).1
    delete_client : (s : Local Time) (pid : ℕ) → Step s (delete_splatoon_client s pid).1
    set_urls :
        (s : Local Time) (pid : ℕ) (urls : List StationUrl) → Step s (update_urls s pid urls).1
    set_nat :
        (s : Local Time) (pid : ℕ) (nat : NatProperties)
        → Step s (update_nat_properties s pid nat).1
    set_info : (s : Local Time) (info : SessionInfo) → Step s (set_session s info).1
    delete_info : (s : Local Time) (g : ℕ) → Step s (delete_session s g).1
    add : (s : Local Time) (g : ℕ) (pids : List ℕ) → Step s (add_players s g pids).1
    remove : (s : Local Time) (g pid : ℕ) → Step s (remove_player s g pid).1
    allocate :
        (s : Local Time) (o : MatchmakeSession Time) → Step s (record s { heap = s.heap ++ o ∷ [] })
    write :
        (s : Local Time) (a : ℕ) (f : MatchmakeSession Time → MatchmakeSession Time)
        → ((g : ℕ) (info : SessionInfo) → lookup g s.sessions ≡ some info → info.session ≢ some a)
        → Step s (record s { heap = write_at f s.heap a })

  pub data Reach (s : Local Time) : Local Time → Type 0 where
    here : Reach s s
    next : {t u : Local Time} → Reach s t → Step t u → Reach s u

  set_given-IsConsistent :
      (s : Local Time) (o : Option (MatchmakeSession Time)) (players : List ℕ)
      → IsConsistent s
      → IsConsistent (set_given s o players).1
  unfolding set_given
  set_given-IsConsistent s none players good = good
  set_given-IsConsistent s (some o) players good = set_copied-IsConsistent s o players good

  delete_found-IsConsistent :
      (s : Local Time) (g : ℕ) (found : Option SessionInfo)
      → IsConsistent s
      → IsConsistent (delete_found s g found)
  unfolding delete_found
  delete_found-IsConsistent s g none good = good
  delete_found-IsConsistent s g (some info) good = good

  add_found-IsConsistent :
      (s : Local Time) (g : ℕ) (pids : List ℕ) (found : Option SessionInfo)
      → lookup g s.sessions ≡ found
      → IsConsistent s
      → IsConsistent (add_found s g pids found).1
  unfolding add_found
  add_found-IsConsistent s g pids none seen good = good
  add_found-IsConsistent s g pids (some info) seen good =
      store_players-IsConsistent s g info (set_insert_all pids info.players) seen good

  remove_found-IsConsistent :
      (s : Local Time) (g pid : ℕ) (found : Option SessionInfo)
      → lookup g s.sessions ≡ found
      → IsConsistent s
      → IsConsistent (remove_found s g pid found).1
  unfolding remove_found
  remove_found-IsConsistent s g pid none seen good = good
  remove_found-IsConsistent s g pid (some info) seen good =
      store_players-IsConsistent s g info (set_erase pid info.players) seen good

  leave_found-IsConsistent :
      (s : Local Time) (pid g : ℕ) (found : Option SessionInfo)
      → lookup g s.sessions ≡ found
      → IsConsistent s
      → IsConsistent (leave_found s pid g found)
  unfolding leave_found
  leave_found-IsConsistent s pid g none seen good = good
  leave_found-IsConsistent s pid g (some info) seen good =
      store_players-IsConsistent s g info (set_erase pid info.players) seen good

  leave_object-IsConsistent :
      (s : Local Time) (pid : ℕ) (o : Option (MatchmakeSession Time))
      → IsConsistent s
      → IsConsistent (leave_object s pid o)
  unfolding leave_object
  leave_object-IsConsistent s pid none good = good
  leave_object-IsConsistent s pid (some o) good =
      leave_found-IsConsistent s pid o.gathering.id (lookup o.gathering.id s.sessions) refl good

  leave_sessions-IsConsistent :
      (s : Local Time) (pid : ℕ) (gatherings : List (Option ℕ))
      → IsConsistent s
      → IsConsistent (leave_sessions s pid gatherings)
  unfolding leave_sessions
  leave_sessions-IsConsistent s pid [] good = good
  leave_sessions-IsConsistent s pid (gathering ∷ gatherings) good =
      leave_sessions-IsConsistent (leave_object s pid (pointed s gathering)) pid gatherings
        (leave_object-IsConsistent s pid (pointed s gathering) good)

  leave_of-IsConsistent :
      (s : Local Time) (pid : ℕ) (c : Option SplatoonClient)
      → IsConsistent s
      → IsConsistent (leave_of s pid c)
  unfolding leave_of
  leave_of-IsConsistent s pid none good = good
  leave_of-IsConsistent s pid (some c) good =
      leave_sessions-IsConsistent s pid c.joined_gatherings good

  write-IsConsistent :
      (s : Local Time) (a : ℕ) (f : MatchmakeSession Time → MatchmakeSession Time)
      → ((g : ℕ) (info : SessionInfo) → lookup g s.sessions ≡ some info → info.session ≢ some a)
      → IsConsistent s
      → IsConsistent (record s { heap = write_at f s.heap a })
  write-IsConsistent s a f free good g info seen =
      let was = good g info seen in
      record {
        place = was.place;
        object = was.object;
        points = was.points;
        there =
            object_at-write_at_apart f s.heap a was.place
              (λ same. free g info seen (rw same was.points))
            ∙ was.there;
        same_id = was.same_id;
        counts = was.counts;
      }

  pub Step-IsConsistent : {s t : Local Time} → Step s t → IsConsistent s → IsConsistent t
  unfolding set_friends_client delete_friends_client add_friend remove_friend update_preference
      set_splatoon_client delete_splatoon_client update_urls update_nat_properties set_session
      delete_session add_players remove_player
  Step-IsConsistent (set_friends s info) good = good
  Step-IsConsistent (delete_friends s pid) good = good
  Step-IsConsistent (befriend s pid friend) good = good
  Step-IsConsistent (unfriend s pid friend) good = good
  Step-IsConsistent (prefer s pid p) good = good
  Step-IsConsistent (set_client s info) good = good
  Step-IsConsistent (delete_client s pid) good =
      leave_of-IsConsistent s pid (lookup pid s.splatoon_clients) good
  Step-IsConsistent (set_urls s pid urls) good = good
  Step-IsConsistent (set_nat s pid nat) good = good
  Step-IsConsistent (set_info s info) good =
      set_given-IsConsistent s (pointed s info.session) info.players good
  Step-IsConsistent (delete_info s g) good =
      let t = delete_found s g (lookup g s.sessions) in
      erase-IsConsistent t g (delete_found-IsConsistent s g (lookup g s.sessions) good)
  Step-IsConsistent (add s g pids) good =
      add_found-IsConsistent s g pids (lookup g s.sessions) refl good
  Step-IsConsistent (remove s g pid) good =
      remove_found-IsConsistent s g pid (lookup g s.sessions) refl good
  Step-IsConsistent (allocate s o) good =
      λ g info seen. IsStored-append s.heap (o ∷ []) g info (good g info seen)
  Step-IsConsistent (write s a f free) good = write-IsConsistent s a f free good

  -- In every state that runs of the operations reach from a consistent one, where callers write to
  -- no object that a session has, each session points to an object with its own ID that counts its
  -- players.
  pub Reach-IsConsistent : {s t : Local Time} → Reach s t → IsConsistent s → IsConsistent t
  Reach-IsConsistent here good = good
  Reach-IsConsistent (next r step) good = Step-IsConsistent step (Reach-IsConsistent r good)
