-- ===== src/SharedState/Sessions.antt =====
-- The operations of sharedState/localSharedState.cpp on matchmake sessions.
use splatit.Base.{ℕ, ◌%◌, ◌^◌, Option, none, some, List, [], ◌∷◌, ◌++◌, map, if◌then◌else◌, length}
use splatit.Base.Dict.{lookup, put, erase, update, nat_eq}
use splatit.Base.Sets.{set_insert_all, set_erase, has}
use splatit.Nex.Matchmake.Session.{MatchmakeSession}
use splatit.SharedState.{
  Local, SsResult, success, failure, SplatoonClient, SessionInfo, object_at, set_count, with_count,
  is_of, any, erase_first, replace_first,
}

abbrev pub with_players : List ℕ → SessionInfo → SessionInfo
with_players players info = record info { players = players }

module _ {Time : Type 0} where
  -- A client that joins a session gets its pointer, in the place of one to a session with this ID.
  abbrev pub join : List (MatchmakeSession Time) → ℕ → Option ℕ → SplatoonClient → SplatoonClient
  join heap g session c = record c {
    joined_gatherings =
        if any (is_of heap g) c.joined_gatherings
        then replace_first (is_of heap g) session c.joined_gatherings
        else c.joined_gatherings ++ session ∷ [];
  }

  -- A client that leaves a session loses the first pointer to one with this ID.
  abbrev pub leave : List (MatchmakeSession Time) → ℕ → SplatoonClient → SplatoonClient
  leave heap g c = record c { joined_gatherings = erase_first (is_of heap g) c.joined_gatherings }

  -- The loop of `setSplatoonMatchmakeSession` over the clients.
  abbrev pub settle :
      List (MatchmakeSession Time) → ℕ → Option ℕ → List ℕ → ℕ × SplatoonClient → ℕ × SplatoonClient
  settle heap g session players e =
      (e.0, if has e.0 players then join heap g session e.1 else leave heap g e.1)

  -- The new object, a copy of the caller's with the number of the players.
  unfoldable pub set_copied : Local Time → MatchmakeSession Time → List ℕ → Local Time
  set_copied s o players =
      let g = o.gathering.id in
      let a = some (length s.heap) in
      let heap = s.heap ++ with_count (length players % 2 ^ 32) o ∷ [] in
      record s {
        heap = heap;
        sessions = put g (record { session = a; players = players }) s.sessions;
        splatoon_clients = map (settle heap g a players) s.splatoon_clients;
      }

  unfoldable pub set_given :
      Local Time → Option (MatchmakeSession Time) → List ℕ → SsResult × Local Time
  set_given s none players = (failure, s)
  set_given s (some o) players = (success, set_copied s o players)

  unfoldable pub pointed : Local Time → Option ℕ → Option (MatchmakeSession Time)
  pointed s none = none
  pointed s (some a) = object_at s.heap a

  -- `setSplatoonMatchmakeSession`, and `updateSplatoonMatchmakeSession`, which calls it.
  unfoldable pub set_session : Local Time → SessionInfo → SsResult × Local Time
  set_session s info = set_given s (pointed s info.session) info.players

  -- `getSplatoonMatchmakeSession`
  unfoldable pub get_session : Local Time → ℕ → SsResult × Option SessionInfo
  get_session s g = (success, lookup g s.sessions)

  abbrev pub leave_all :
      List (MatchmakeSession Time)
      → ℕ
      → List ℕ
      → List (ℕ × SplatoonClient)
      → List (ℕ × SplatoonClient)
  leave_all heap g [] clients = clients
  leave_all heap g (pid ∷ pids) clients = leave_all heap g pids (update pid (leave heap g) clients)

  unfoldable pub delete_found : Local Time → ℕ → Option SessionInfo → Local Time
  delete_found s g none = s
  delete_found s g (some info) = record s {
    splatoon_clients = leave_all s.heap g info.players s.splatoon_clients;
  }

  -- `deleteSplatoonMatchmakeSession`
  unfoldable pub delete_session : Local Time → ℕ → SsResult × Local Time
  delete_session s g =
      let t = delete_found s g (lookup g s.sessions) in
      (success, record t { sessions = erase g t.sessions })

  -- `getAllSplatoonMatchmakeSessions`
  unfoldable pub get_all_sessions : Local Time → SsResult × List (ℕ × SessionInfo)
  get_all_sessions s = (success, s.sessions)

  abbrev pub join_all :
      List (MatchmakeSession Time)
      → ℕ
      → Option ℕ
      → List ℕ
      → List (ℕ × SplatoonClient)
      → List (ℕ × SplatoonClient)
  join_all heap g session [] clients = clients
  join_all heap g session (pid ∷ pids) clients =
      join_all heap g session pids (update pid (join heap g session) clients)

  -- The players of a session that is there, and their number in its object.
  unfoldable pub store_players : Local Time → ℕ → SessionInfo → List ℕ → Local Time
  store_players s g info players = record s {
    heap = set_count s.heap info.session players;
    sessions = update g (with_players players) s.sessions;
  }

  unfoldable pub add_found : Local Time → ℕ → List ℕ → Option SessionInfo → SsResult × Local Time
  add_found s g pids none = (failure, s)
  add_found s g pids (some info) =
      let t = store_players s g info (set_insert_all pids info.players) in
      (
        success,
        record t { splatoon_clients = join_all s.heap g info.session pids s.splatoon_clients },
      )

  -- `addPlayersToSplatoonMatchmakeSession`
  unfoldable pub add_players : Local Time → ℕ → List ℕ → SsResult × Local Time
  add_players s g pids = add_found s g pids (lookup g s.sessions)

  unfoldable pub remove_found : Local Time → ℕ → ℕ → Option SessionInfo → SsResult × Local Time
  remove_found s g pid none = (failure, s)
  remove_found s g pid (some info) =
      let t = store_players s g info (set_erase pid info.players) in
      (success, record t { splatoon_clients = update pid (leave t.heap g) s.splatoon_clients })

  -- `removePlayerFromSplatoonMatchmakeSession`
  unfoldable pub remove_player : Local Time → ℕ → ℕ → SsResult × Local Time
  remove_player s g pid = remove_found s g pid (lookup g s.sessions)

  -- `getSplatoonMatchmakeSessionCount`
  unfoldable pub session_count : Local Time → SsResult × ℕ
  session_count s = (success, length s.sessions % 2 ^ 32)
