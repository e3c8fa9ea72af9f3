-- ===== src/Splatoon/Join.antt =====
-- The handlers of nex/splatoon/splatoonSecure.cpp that make a session and that join one.
use splatit.Base.{
  ℕ, ◌+◌, ◌%◌, ◌^◌, Bool, true, false, not, ◌&&◌, Option, none, some, List, [], ◌∷◌, ◌++◌, ◌==◌,
  ltb, if◌then◌else◌, length, is_empty,
}
use splatit.Base.Bytes.{Bytes, bytes_eq}
use splatit.Base.Dict.{lookup, nat_eq}
use splatit.Base.Sets.{set_insert_all}
use splatit.Rmc.Request.{Request}
use splatit.Nex.Matchmake.Session.{MatchmakeSession}
use splatit.Nex.Matchmake.Params.{CreateMatchmakeSessionParam, JoinMatchmakeSessionParam}
use splatit.SharedState.{Local, RmcClient, SplatoonClient, SessionInfo, with_count}
use splatit.SharedState.Sessions.{set_session, pointed}
use splatit.Splatoon.{
  Event, notify, reply, failed, session_of, not_authenticated, invalid_gid, session_full,
  session_closed, password_unmatch, user_is_offline, new_participant, edit, notify_found,
  notify_all,
}

abbrev is_registered : Option SplatoonClient → Bool
is_registered none = false
is_registered (some c) = true

module _ {Time : Type 0} where
  abbrev all_registered : Local Time → List ℕ → Bool
  all_registered s [] = true
  all_registered s (pid ∷ pids) =
      is_registered (lookup pid s.splatoon_clients) && all_registered s pids

  -- Each of `pids` that is registered is told of each of `players`.
  abbrev tell_newcomers : Local Time → ℕ → ℕ → Bytes → List ℕ → List ℕ → List (Event Time)
  tell_newcomers s src g msg [] players = []
  tell_newcomers s src g msg (pid ∷ pids) players =
      tell s src g msg (lookup pid s.splatoon_clients) players
      ++ tell_newcomers s src g msg pids players
    where
      tell : Local Time → ℕ → ℕ → Bytes → Option SplatoonClient → List ℕ → List (Event Time)
      tell s src g msg c [] = []
      tell s src g msg c (player ∷ players) =
          notify_found c (λ a. notify a new_participant src g player msg 1)
          ++ tell s src g msg c players

  -- Each of `players` that is registered is told of each of `pids` that is.
  abbrev tell_players : Local Time → ℕ → ℕ → Bytes → List ℕ → List ℕ → List (Event Time)
  tell_players s src g msg [] players = []
  tell_players s src g msg (pid ∷ pids) players =
      (if is_registered (lookup pid s.splatoon_clients)
        then notify_all s players (λ a. notify a new_participant src g pid msg 1)
        else [])
      ++ tell_players s src g msg pids players

  -- The error of `joinMatchmakeSessionWithParam` for a session that is there, if it has one.
  unfoldable pub join_error :
      Local Time → JoinMatchmakeSessionParam → MatchmakeSession Time → Option ℕ
  join_error s param o =
      if ltb o.gathering.max_participants
        (o.participation_count + length param.additional_participants)
      then some session_full
      else if o.open_participation == 0
      then some session_closed
      else if not (o.user_password_enabled == 0)
          && not (bytes_eq param.user_password o.user_password)
      then some password_unmatch
      else if all_registered s param.additional_participants
      then none
      else some user_is_offline

  -- What follows the checks. The count goes up in the object of the shared state.
  unfoldable pub join_checked :
      Local Time
      → RmcClient
      → Request
      → JoinMatchmakeSessionParam
      → SessionInfo
      → MatchmakeSession Time
      → Option ℕ
      → Local Time × List (Event Time)
  join_checked s client req param info o (some error) = (s, reply client req (failed error) ∷ [])
  join_checked s client req param info o none =
      let pids = client.pid ∷ param.additional_participants in
      let counted = with_count ((o.participation_count + length pids) % 2 ^ 32) in
      let t = edit s info.session counted in
      let players = set_insert_all pids info.players in
      let u = (set_session t (record { session = info.session; players = players })).1 in
      (
        u,
        reply client req (session_of (counted o))
            ∷ (tell_players t client.pid param.gid param.join_message pids info.players
                ++ tell_newcomers u client.pid param.gid param.join_message pids players),
      )

  unfoldable pub join_object :
      Local Time
      → RmcClient
      → Request
      → JoinMatchmakeSessionParam
      → SessionInfo
      → Option (MatchmakeSession Time)
      → Local Time × List (Event Time)
  join_object s client req param info none = (s, [])
  join_object s client req param info (some o) =
      join_checked s client req param info o (join_error s param o)

  unfoldable pub join_found :
      Local Time
      → RmcClient
      → Request
      → JoinMatchmakeSessionParam
      → Option SessionInfo
      → Local Time × List (Event Time)
  join_found s client req param none = (s, reply client req (failed invalid_gid) ∷ [])
  join_found s client req param (some info) =
      join_object s client req param info (pointed s info.session)

  -- `joinMatchmakeSessionWithParam`
  unfoldable pub join_matchmake_session :
      Local Time → RmcClient → Request → JoinMatchmakeSessionParam → Local Time × List (Event Time)
  join_matchmake_session s client req param =
      let joined = join_found s client req param (lookup param.gid s.sessions) in
      if is_registered (lookup client.pid s.splatoon_clients)
      then joined
      else (s, reply client req (failed not_authenticated) ∷ [])

  -- The error of `createMatchmakeSessionWithParam`, if it has one.
  unfoldable pub create_error : Local Time → ℕ → CreateMatchmakeSessionParam Time → Option ℕ
  create_error s pid param =
      if not (is_registered (lookup pid s.splatoon_clients))
      then some not_authenticated
      else if ltb param.src_matchmake_session.gathering.max_participants
          (length param.additional_participants + 1)
      then some session_full
      else if all_registered s param.additional_participants
      then none
      else some user_is_offline

  -- The new session, with an ID that no session has, a new key and the time.
  unfoldable pub new_object :
      ℕ → ℕ → Bytes → Time → CreateMatchmakeSessionParam Time → MatchmakeSession Time
  new_object pid g key now param =
      let o = param.src_matchmake_session in
      record o {
        gathering = record o.gathering { id = g; owner_pid = pid; host_pid = pid };
        participation_count = (length param.additional_participants + 1) % 2 ^ 32;
        open_participation = 1;
        session_key = key;
        started_time = now;
        user_password_enabled = if is_empty o.user_password then o.user_password_enabled else 1;
      }

  unfoldable pub create_checked :
      Local Time
      → RmcClient
      → Request
      → ℕ
      → Bytes
      → Time
      → CreateMatchmakeSessionParam Time
      → Option ℕ
      → Local Time × List (Event Time)
  create_checked s client req g key now param (some error) =
      (s, reply client req (failed error) ∷ [])
  create_checked s client req g key now param none =
      let o = new_object client.pid g key now param in
      let pids = client.pid ∷ param.additional_participants in
      let t = record s { heap = s.heap ++ o ∷ [] } in
      let players = set_insert_all pids [] in
      let u = (set_session t (record { session = some (length s.heap); players = players })).1 in
      (
        u,
        reply client req (session_of o)
            ∷ tell_newcomers u client.pid g param.join_message pids pids,
      )

  -- `createMatchmakeSessionWithParam`
  unfoldable pub create_matchmake_session :
      Local Time
      → RmcClient
      → Request
      → ℕ
      → Bytes
      → Time
      → CreateMatchmakeSessionParam Time
      → Local Time × List (Event Time)
  create_matchmake_session s client req g key now param =
      create_checked s client req g key now param (create_error s client.pid param)
