-- ===== src/Tests/Splatoon.antt =====
-- The theorem on players that leave a session, where the owner of a session of two leaves, and a run of
-- two handlers.
use splatit.Base.{ℕ, ◌≡◌, refl, Option, none, some, false, List, [], ◌∷◌}
use splatit.Base.Dict.{lookup, nat_eq}
use splatit.Base.Sets.{set_erase}
use splatit.Nex.Values.{Civil}
use splatit.Nex.Matchmake.Params.{JoinMatchmakeSessionParam}
use splatit.Rmc.Request.{Request}
use splatit.SharedState.{Local, SplatoonClient, SessionInfo, with_count}
use splatit.SharedState.Sessions.{
  pointed, set_session, set_given, set_copied, delete_session, delete_found,
}
use splatit.Splatoon.{
  remove_player_from_session, remove_found, remove_member, remove_registered, unregister_gathering,
  unregister_found, hand_over,
}
use splatit.Splatoon.Join.{
  join_matchmake_session, join_found, join_object, join_checked, join_error,
}
use splatit.Splatoon.Participation.{end_participation}
use splatit.Splatoon.Leave.{IsRun, Outcome, remove_player-Outcome}
use splatit.Tests.Nex.{match, lobby}
use splatit.Tests.SharedState.{player, empty_state}

abbrev other : SplatoonClient
other = record player { client = record player.client { pid = 1800000009 } }

abbrev call : Request
call = record { protocol_id = 109; extended_protocol_id = 0; call_id = 5; method_id = 39 }

abbrev wish : JoinMatchmakeSessionParam
wish = record {
  gid = 7;
  additional_participants = [];
  gid_for_participation_check = 0;
  join_matchmake_session_option = 0;
  join_mathcmake_session_behavior = 0;
  user_password = [];
  system_password = [];
  join_message = [];
  participation_count = 1;
}

abbrev pair_of_players : SessionInfo
pair_of_players = record { session = some 0; players = 1800000001 ∷ 1800000009 ∷ [] }

abbrev busy : Local Civil
busy = record empty_state { heap = with_count 2 match ∷ []; sessions = (7, pair_of_players) ∷ [] }

busy-IsRun : IsRun busy 7 (1800000001 ∷ 1800000009 ∷ [])
unfolding pointed
busy-IsRun = record {
  info = pair_of_players;
  object = with_count 2 match;
  found = refl;
  keeps = refl;
  points = refl;
  same_id = refl;
  counts = refl;
  owned = refl;
  hosted = refl;
}

remove_player-Outcome_example :
    Outcome
      (remove_player_from_session busy 7 1800000001 [] false []).0
      7
      (set_erase 1800000001 (1800000001 ∷ 1800000009 ∷ []))
remove_player-Outcome_example =
    remove_player-Outcome busy 7 1800000001 [] false [] (1800000001 ∷ 1800000009 ∷ []) player
      busy-IsRun refl refl

-- A session for one player that has that player takes a second one.
abbrev small : Local Civil
small = record busy {
  heap = with_count 1 (record match { gathering = record lobby { max_participants = 1 } }) ∷ [];
  splatoon_clients = (1800000001, player) ∷ (1800000009, other) ∷ [];
  sessions = (7, record { session = some 0; players = 1800000001 ∷ [] }) ∷ [];
}

abbrev players_of : Option SessionInfo → List ℕ
players_of none = []
players_of (some info) = info.players

join_beyond :
    players_of (lookup 7 (join_matchmake_session small other.client call wish).0.sessions)
    ≡ 1800000001 ∷ 1800000009 ∷ []
unfolding join_matchmake_session join_found join_object join_checked join_error set_session
    set_given set_copied pointed
join_beyond = refl

end_alone : lookup 7 (end_participation small player.client call 7 [] []).0.sessions ≡ none
unfolding end_participation remove_player_from_session remove_found remove_member remove_registered
    unregister_gathering unregister_found delete_session delete_found hand_over set_session
    set_given set_copied pointed
end_alone = refl
