-- ===== src/SharedState/Clients.antt =====
-- The operations of sharedState/localSharedState.cpp on the clients of the Splatoon server.
use splatit.Base.{ℕ, ◌%◌, ◌^◌, Option, none, some, List, [], ◌∷◌, map, length}
use splatit.Base.Dict.{lookup, put, erase, update, nat_eq}
use splatit.Base.Sets.{set_erase}
use splatit.Nex.Matchmake.Session.{MatchmakeSession}
use splatit.SharedState.{
  Local, SsResult, success, SplatoonClient, StationUrl, NatProperties, SessionInfo,
}
use splatit.SharedState.Sessions.{store_players, pointed}

abbrev newer : Option ℕ → Option SessionInfo → Option ℕ
newer old none = old
newer old (some info) = info.session

module _ {Time : Type 0} where
  -- `setSplatoonRegisteredClientInfo`
  unfoldable pub set_splatoon_client : Local Time → SplatoonClient → SsResult × Local Time
  set_splatoon_client s info =
      (success, record s { splatoon_clients = put info.client.pid info s.splatoon_clients })

  abbrev refreshed : Local Time → Option ℕ → Option (MatchmakeSession Time) → Option ℕ
  refreshed s old none = old
  refreshed s old (some o) = newer old (lookup o.gathering.id s.sessions)

  -- A pointer to the object that the session with the same ID has now, if there is one.
  unfoldable pub refresh : Local Time → Option ℕ → Option ℕ
  refresh s gathering = refreshed s gathering (pointed s gathering)

  unfoldable pub refresh_client : Local Time → Option SplatoonClient → Option SplatoonClient
  refresh_client s none = none
  refresh_client s (some c) =
      some (record c { joined_gatherings = map (refresh s) c.joined_gatherings })

  -- `getSplatoonRegisteredClientInfo`
  unfoldable pub get_splatoon_client : Local Time → ℕ → SsResult × Option SplatoonClient
  get_splatoon_client s pid = (success, refresh_client s (lookup pid s.splatoon_clients))

  unfoldable pub leave_found : Local Time → ℕ → ℕ → Option SessionInfo → Local Time
  leave_found s pid g none = s
  leave_found s pid g (some info) = store_players s g info (set_erase pid info.players)

  unfoldable pub leave_object : Local Time → ℕ → Option (MatchmakeSession Time) → Local Time
  leave_object s pid none = s
  leave_object s pid (some o) = leave_found s pid o.gathering.id (lookup o.gathering.id s.sessions)

  -- The loop of `deleteSplatoonRegisteredClientInfo`.
  unfoldable pub leave_sessions : Local Time → ℕ → List (Option ℕ) → Local Time
  leave_sessions s pid [] = s
  leave_sessions s pid (gathering ∷ gatherings) =
      leave_sessions (leave_object s pid (pointed s gathering)) pid gatherings

  unfoldable pub leave_of : Local Time → ℕ → Option SplatoonClient → Local Time
  leave_of s pid none = s
  leave_of s pid (some c) = leave_sessions s pid c.joined_gatherings

  -- `deleteSplatoonRegisteredClientInfo`
  unfoldable pub delete_splatoon_client : Local Time → ℕ → SsResult × Local Time
  delete_splatoon_client s pid =
      let t = leave_of s pid (lookup pid s.splatoon_clients) in
      (success, record t { splatoon_clients = erase pid t.splatoon_clients })

  -- `updateSplatoonRegisteredClientURLs`
  unfoldable pub update_urls : Local Time → ℕ → List StationUrl → SsResult × Local Time
  update_urls s pid urls = (
    success,
    record s {
      splatoon_clients =
          update pid (λ (c : SplatoonClient). record c { urls = urls }) s.splatoon_clients;
    },
  )

  -- `updateSplatoonRegisteredClientLastReportedNATProperties`
  unfoldable pub update_nat_properties : Local Time → ℕ → NatProperties → SsResult × Local Time
  update_nat_properties s pid nat = (
    success,
    record s {
      splatoon_clients =
          update pid (λ (c : SplatoonClient). record c { nat_properties = nat }) s.splatoon_clients;
    },
  )

  -- `getSplatoonRegisteredClientCount`
  unfoldable pub splatoon_client_count : Local Time → SsResult × ℕ
  splatoon_client_count s = (success, length s.splatoon_clients % 2 ^ 32)
