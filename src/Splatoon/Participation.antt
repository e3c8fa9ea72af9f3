-- ===== src/Splatoon/Participation.antt =====
-- The handlers of nex/splatoon/splatoonSecure.cpp for one session: its end, its participation, its
-- host and its score.
use splatit.Base.{
  ℕ, Bool, true, false, Option, none, some, List, [], ◌∷◌, ◌++◌, ◌==◌, if◌then◌else◌,
}
use splatit.Base.Bytes.{Bytes}
use splatit.Base.Dict.{lookup, nat_eq}
use splatit.Base.Sets.{has}
use splatit.Rmc.Request.{Request}
use splatit.Nex.Matchmake.Session.{MatchmakeSession}
use splatit.SharedState.{Local, RmcClient, SessionInfo}
use splatit.SharedState.Sessions.{set_session, pointed}
use splatit.Splatoon.{
  Event, notify, reply, done, truth, failed, invalid_gid, permission_denied, host_changed,
  ownership_changed, edit, with_owner, with_host, notify_found, unregister_gathering,
  remove_player_from_session,
}

abbrev is_member : ℕ → Option SessionInfo → Bool
is_member pid none = false
is_member pid (some info) = has pid info.players

module _ {Time : Type 0} where
  unfoldable pub unregister_of :
      Local Time
      → RmcClient
      → Request
      → ℕ
      → Option (MatchmakeSession Time)
      → Local Time × List (Event Time)
  unregister_of s client req g none = (s, reply client req (truth false) ∷ [])
  unregister_of s client req g (some o) =
      let gone = unregister_gathering s g client.pid in
      if o.gathering.owner_pid == client.pid
      then (gone.0, gone.1 ++ reply client req (truth true) ∷ [])
      else (s, reply client req (truth false) ∷ [])

  abbrev object_of : Local Time → Option SessionInfo → Option (MatchmakeSession Time)
  object_of s none = none
  object_of s (some info) = pointed s info.session

  -- `unregisterGathering`
  unfoldable pub unregister : Local Time → RmcClient → Request → ℕ → Local Time × List (Event Time)
  unregister s client req g = unregister_of s client req g (object_of s (lookup g s.sessions))

  -- `endParticipation`, whose answer carries nothing, also where it makes one that says false.
  unfoldable pub end_participation :
      Local Time → RmcClient → Request → ℕ → Bytes → Bytes → Local Time × List (Event Time)
  end_participation s client req g msg now =
      let left = remove_player_from_session s g client.pid msg false now in
      if is_member client.pid (lookup g s.sessions)
      then (left.0, left.1 ++ reply client req done ∷ [])
      else (s, reply client req done ∷ [])

  unfoldable pub edit_owned :
      Local Time
      → RmcClient
      → Request
      → (MatchmakeSession Time → MatchmakeSession Time)
      → SessionInfo
      → Option (MatchmakeSession Time)
      → Local Time × List (Event Time)
  edit_owned s client req f info none = (s, [])
  edit_owned s client req f info (some o) =
      if o.gathering.owner_pid == client.pid
      then ((set_session (edit s info.session f) info).1, reply client req done ∷ [])
      else (s, reply client req (failed permission_denied) ∷ [])

  unfoldable pub edit_session :
      Local Time
      → RmcClient
      → Request
      → (MatchmakeSession Time → MatchmakeSession Time)
      → Option SessionInfo
      → Local Time × List (Event Time)
  edit_session s client req f none = (s, reply client req (failed invalid_gid) ∷ [])
  edit_session s client req f (some info) = edit_owned s client req f info (pointed s info.session)

  -- `closeParticipation`
  unfoldable pub close_participation :
      Local Time → RmcClient → Request → ℕ → Local Time × List (Event Time)
  close_participation s client req g =
      edit_session s client req (λ (o : MatchmakeSession Time). record o { open_participation = 0 })
        (lookup g s.sessions)

  -- `openParticipation`
  unfoldable pub open_participation :
      Local Time → RmcClient → Request → ℕ → Local Time × List (Event Time)
  open_participation s client req g =
      edit_session s client req (λ (o : MatchmakeSession Time). record o { open_participation = 1 })
        (lookup g s.sessions)

  -- `modifyCurrentGameAttribute`, in which the write of the attribute is commented out.
  unfoldable pub modify_current_game_attribute :
      Local Time → RmcClient → Request → ℕ → ℕ → ℕ → Local Time × List (Event Time)
  modify_current_game_attribute s client req g index value =
      edit_session s client req (λ (o : MatchmakeSession Time). o) (lookup g s.sessions)

  -- `updateProgressScore`
  unfoldable pub update_progress_score :
      Local Time → RmcClient → Request → ℕ → ℕ → Local Time × List (Event Time)
  update_progress_score s client req g score =
      edit_session s client req (λ (o : MatchmakeSession Time). record o { progress_score = score })
        (lookup g s.sessions)

  -- What the players are told of a new host, each of them of the owner as well.
  unfoldable pub host_events : Local Time → RmcClient → ℕ → List ℕ → Bytes → List (Event Time)
  host_events s client id [] now = []
  host_events s client id (pid ∷ pids) now =
      let found = lookup pid s.splatoon_clients in
      notify_found found (λ c. notify c host_changed client.pid id client.pid [] 0)
      ++ (notify_found found (λ c. notify c ownership_changed client.pid id client.pid now 0)
          ++ host_events s client id pids now)

  -- The test of `migrateOwner` is one of the pointer to the parameter, which is never null.
  unfoldable pub host_found :
      Local Time
      → RmcClient
      → Request
      → Bytes
      → SessionInfo
      → Option (MatchmakeSession Time)
      → Local Time × List (Event Time)
  host_found s client req now info none = (s, [])
  host_found s client req now info (some o) =
      let t =
        edit (edit s info.session (with_host client.pid)) info.session (with_owner client.pid) in
      if has client.pid info.players
      then (
        (set_session t info).1,
        reply client req done ∷ host_events s client o.gathering.id info.players now,
      )
      else (s, reply client req (failed permission_denied) ∷ [])

  unfoldable pub host_of :
      Local Time → RmcClient → Request → Bytes → Option SessionInfo → Local Time × List (Event Time)
  host_of s client req now none = (s, reply client req (failed invalid_gid) ∷ [])
  host_of s client req now (some info) = host_found s client req now info (pointed s info.session)

  -- `updateSessionHost`
  unfoldable pub update_session_host :
      Local Time → RmcClient → Request → ℕ → Bool → Bytes → Local Time × List (Event Time)
  update_session_host s client req g migrate_owner now =
      host_of s client req now (lookup g s.sessions)
