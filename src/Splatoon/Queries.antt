-- ===== src/Splatoon/Queries.antt =====
-- The handlers of nex/splatoon/splatoonSecure.cpp that look for a session, tell where its host is, and
-- give its ownership away.
use splatit.Base.{
  ℕ, Bool, true, false, ◌||◌, Option, none, some, List, [], ◌∷◌, ◌++◌, if◌then◌else◌,
}
use splatit.Base.Dict.{lookup, nat_eq}
use splatit.Base.Sets.{has, set_insert, set_insert_all}
use splatit.Rmc.Request.{Request}
use splatit.Nex.Matchmake.Gathering.{gathering}
use splatit.Nex.Matchmake.Session.{MatchmakeSession}
use splatit.SharedState.{Local, RmcClient, SplatoonClient, SessionInfo, StationUrl}
use splatit.SharedState.Sessions.{set_session, pointed}
use splatit.Splatoon.{
  Event, reply, notify, done, failed, gathering_of, urls_of, invalid_gid, session_void,
  permission_denied, user_is_offline, ownership_changed, edit, with_owner, notify_all,
}

-- The loop over the owners that the client names.
abbrev consider_owners : Bool → List ℕ → List ℕ → List ℕ → List ℕ
consider_owners anybody players [] considered = considered
consider_owners anybody players (pid ∷ pids) considered =
    consider_owners anybody players pids
      (if anybody || has pid players then set_insert pid considered else considered)

-- The URLs of a host, with its ID and that of its connection.
abbrev url_of : ℕ → ℕ → StationUrl → StationUrl
url_of pid rvcid url = record url { rvcid = some rvcid; pid = some pid }

module _ {Time : Type 0} where
  -- The new owner is the first of those considered.
  unfoldable pub migrate_to :
      Local Time
      → RmcClient
      → Request
      → SessionInfo
      → MatchmakeSession Time
      → List ℕ
      → Local Time × List (Event Time)
  migrate_to s client req info o [] = (s, reply client req (failed session_void) ∷ [])
  migrate_to s client req info o (owner ∷ others) =
      let t = (set_session (edit s info.session (with_owner owner)) info).1 in
      (
        t,
        notify_all t info.players
              (λ c. notify c ownership_changed client.pid o.gathering.id owner [] 0)
            ++ reply client req done ∷ [],
      )

  -- `participantsOnly` is tested as a pointer, which is never null, so its negation is false.
  unfoldable pub migrate_found :
      Local Time
      → RmcClient
      → Request
      → List ℕ
      → SessionInfo
      → Option (MatchmakeSession Time)
      → Local Time × List (Event Time)
  migrate_found s client req potential info none = (s, [])
  migrate_found s client req potential info (some o) =
      let considered = consider_owners false info.players potential [] in
      if has client.pid info.players
      then migrate_to s client req info o (set_insert_all info.players considered)
      else (s, reply client req (failed permission_denied) ∷ [])

  unfoldable pub migrate_of :
      Local Time
      → RmcClient
      → Request
      → List ℕ
      → Option SessionInfo
      → Local Time × List (Event Time)
  migrate_of s client req potential none = (s, reply client req (failed invalid_gid) ∷ [])
  migrate_of s client req potential (some info) =
      migrate_found s client req potential info (pointed s info.session)

  -- `migrateGatheringOwnership`
  unfoldable pub migrate_gathering_ownership :
      Local Time → RmcClient → Request → ℕ → List ℕ → Bool → Local Time × List (Event Time)
  migrate_gathering_ownership s client req g potential participants_only =
      migrate_of s client req potential (lookup g s.sessions)

  unfoldable pub urls_found : RmcClient → Request → ℕ → Option SplatoonClient → List (Event Time)
  urls_found client req host none = reply client req (failed user_is_offline) ∷ []
  urls_found client req host (some c) = urls_first client req host c c.urls
    where
      urls_first : RmcClient → Request → ℕ → SplatoonClient → List StationUrl → List (Event Time)
      urls_first client req host c [] = reply client req (failed user_is_offline) ∷ []
      urls_first client req host c (url ∷ urls) =
          reply client req
            (urls_of (url_of host c.rv_conn_id url ∷ url_of host c.rv_conn_id c.public_url ∷ []))
          ∷ []

  abbrev urls_at :
      Local Time → RmcClient → Request → Option (MatchmakeSession Time) → List (Event Time)
  urls_at s client req none = []
  urls_at s client req (some o) =
      urls_found client req o.gathering.host_pid (lookup o.gathering.host_pid s.splatoon_clients)

  abbrev urls_in : Local Time → RmcClient → Request → Option SessionInfo → List (Event Time)
  urls_in s client req none = reply client req (failed invalid_gid) ∷ []
  urls_in s client req (some info) = urls_at s client req (pointed s info.session)

  -- `getSessionUrls`, which changes nothing.
  unfoldable pub get_session_urls : Local Time → RmcClient → Request → ℕ → List (Event Time)
  get_session_urls s client req g = urls_in s client req (lookup g s.sessions)

  abbrev find_at : RmcClient → Request → Option (MatchmakeSession Time) → List (Event Time)
  find_at client req none = []
  find_at client req (some o) = reply client req (gathering_of true o.gathering) ∷ []

  abbrev find_in : Local Time → RmcClient → Request → Option SessionInfo → List (Event Time)
  find_in s client req none =
      reply client req (gathering_of false (gathering client.minor_version).blank) ∷ []
  find_in s client req (some info) = find_at client req (pointed s info.session)

  -- `findBySingleId`, which changes nothing.
  unfoldable pub find_by_single_id : Local Time → RmcClient → Request → ℕ → List (Event Time)
  find_by_single_id s client req id = find_in s client req (lookup id s.sessions)
