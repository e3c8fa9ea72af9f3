-- ===== src/Tests/SharedState.antt =====
-- The theorems on the shared state, at a server with one client and one session.
use splatit.Base.{ℕ, ◌≡◌, ◌⊎◌, refl, arith, none, some, true, false, List, [], ◌∷◌}
use splatit.Base.Sets.{set_erase, has}
use splatit.Prudp.Server.{PrudpAddress}
use splatit.Nex.Values.{Civil}
use splatit.SharedState.{
  Local, SplatoonClient, StationUrl, no_protocol, SessionInfo, success, failure,
}
use splatit.SharedState.Sessions.{set_session, pointed, add_players, remove_player}
use splatit.SharedState.Invariant.{IsConsistent}
use splatit.SharedState.Steps.{here, next, allocate, set_info, add, Reach-IsConsistent}
use splatit.SharedState.Refinement.{rooms, After, open_room, Step-refines}
use splatit.SharedState.Outcomes.{remove_player-outcome, set_session-joined, JoinedAfter}
use splatit.Tests.Nex.{match}

abbrev pub away : PrudpAddress
away = record {
  address = record { a = 10; b = 0; c = 0; d = 7; port = 4000 };
  v_port = 1;
  stream_type = 10;
  src_v_port = 15;
  src_stream_type = 10;
}

abbrev url : StationUrl
url = record {
  proto = no_protocol;
  ip = none;
  port = none;
  stream = none;
  sid = none;
  cid = none;
  pid = none;
  type = none;
  rvcid = none;
  natm = none;
  natf = none;
  upnp = none;
  pmp = none;
  probeinit = none;
  pl = none;
}

abbrev pub player : SplatoonClient
player = record {
  client = record {
    address = away;
    minor_version = 3;
    substream_id = 0;
    server_id = 1;
    pid = 1800000001;
  };
  urls = [];
  public_url = url;
  rv_conn_id = 1;
  joined_gatherings = [];
  nat_properties = record { mapping = 0; filtering = 0; rtt = 0 };
}

abbrev pub empty_state : Local Civil
empty_state = record {
  server_id = 1;
  rpc_address = [];
  heap = [];
  friends_clients = [];
  splatoon_clients = (1800000001, player) ∷ [];
  sessions = [];
}

abbrev wanted : SessionInfo
wanted = record { session = some 0; players = 1800000001 ∷ [] }

abbrev with_object : Local Civil
with_object = record empty_state { heap = match ∷ [] }

empty_state-IsConsistent : IsConsistent empty_state
empty_state-IsConsistent g info seen = cc

Reach-IsConsistent_example :
    IsConsistent (add_players (set_session with_object wanted).1 7 (1800000009 ∷ [])).1
Reach-IsConsistent_example =
    Reach-IsConsistent
      (next (next (next here (allocate empty_state match)) (set_info with_object wanted))
        (add (set_session with_object wanted).1 7 (1800000009 ∷ [])))
      empty_state-IsConsistent

Step-refines_example :
    After
      (open_room 7 (1800000001 ∷ []))
      (rooms with_object)
      (rooms (set_session with_object wanted).1)
unfolding pointed
Step-refines_example = Step-refines (set_info with_object wanted)

abbrev opened : Local Civil
opened = (set_session with_object wanted).1

remove_player-outcome_example :
    ((rooms opened 7 ≡ none) × (remove_player opened 7 1800000001 ≡ (failure, opened)))
    ⊎ ((players : List ℕ) × (rooms opened 7 ≡ some players)
        × ((remove_player opened 7 1800000001).0 ≡ success)
        × (rooms (remove_player opened 7 1800000001).1 7 ≡ some (set_erase 1800000001 players))
        × (has 1800000001 (set_erase 1800000001 players) ≡ false))
remove_player-outcome_example = remove_player-outcome opened 7 1800000001

set_session-joined_example : JoinedAfter (set_session with_object wanted).1 7 1800000001 true
unfolding pointed
set_session-joined_example =
    set_session-joined with_object wanted match 1800000001 player refl refl (omega arith)
