-- ===== src/Tests/Nex.antt =====
-- The theorems on the NEX types, at small objects. A time point is its civil time.
use splatit.Base.{◌-◌, ◌≤◌, ◌<◌, ◌≡◌, refl, arith, [], ◌∷◌, ◌++◌, length, ok, err, length_error}
use splatit.Nex.{pair, class_of}
use splatit.Nex.Values.{Civil, Calendar, IsWhole}
use splatit.Nex.Variant.{empty, int64}
use splatit.Nex.Text.{string_encode}
use splatit.Nex.Containers.{encode_items, encode_entries}
use splatit.Nex.Structure.{structure}
use splatit.Nex.Friends.Profile.{MiiV2, PrincipalBasicInfo, NnaInfo}
use splatit.Nex.Friends.Presence.{
  GameKey, NintendoPresenceV2, FriendInfo, friend_info, game_key, IsFriendInfo,
}
use splatit.Nex.Friends.Info.{
  decode-encode_friend_info, decode-friend_info_inside, decode-encode_game_key_short,
}
use splatit.Nex.Matchmake.{params_map}
use splatit.Nex.Matchmake.Gathering.{
  Gathering, IsGathering, gathering_body, IsMatchmakeParam, matchmake_param, matchmake_param_body,
}
use splatit.Nex.Matchmake.Session.{
  MatchmakeSession, matchmake_session, IsMatchmakeSession, own_body, own_fields,
}
use splatit.Nex.Matchmake.RoundTrip.{
  decode-encode_session, decode-encode_params_empty, decode-params_one,
}
use splatit.Nex.Matchmake.Notice.{
  NotificationEvent, event_encode, event_decode, decode-encode_event,
}

abbrev pub release : Civil
release = record { year = 2015; month = 5; day = 28; hour = 9; minute = 30; second = 59 }

abbrev pub civil_time : Calendar Civil
civil_time = record { now = release; civil = λ t. t; time_of = λ t. t }

pub release-IsWhole : IsWhole civil_time release
release-IsWhole = record {
  in_lanes = record {
    year_small = omega arith;
    month_small = omega arith;
    day_small = omega arith;
    hour_small = omega arith;
    minute_small = omega arith;
    second_small = omega arith;
  };
  comes_back = refl;
}

abbrev key : GameKey
key = record { title_id = 1407375153041408; title_version = 288 }

abbrev mii : MiiV2 Civil
mii = record { name = 109 ∷ []; unk1 = 0; unk2 = 1; mii_data = 3 ∷ 4 ∷ []; unk3 = release }

abbrev basic : PrincipalBasicInfo Civil
basic = record { pid = 1800000001; nnid = 110 ∷ 49 ∷ []; mii = mii; unk1 = 2 }

abbrev nna : NnaInfo Civil
nna = record { info = basic; unk1 = 0; unk2 = 0 }

abbrev presence : NintendoPresenceV2
presence = record {
  changed_flags = 511;
  online = 1;
  game_key = key;
  unk1 = 0;
  message = [];
  unk2 = 2;
  unk3 = 1;
  game_server_id = 268485376;
  unk4 = 1;
  pid = 1800000001;
  gathering_id = 7;
  app_data = 9 ∷ 9 ∷ [];
  unk5 = 3;
  unk6 = 3;
  unk7 = 3;
}

abbrev friend : FriendInfo Civil
friend = record {
  nna_info = nna;
  presence = presence;
  comment = record { unk1 = 0; message = 104 ∷ 105 ∷ []; last_modified = release };
  became_friends = release;
  last_online = release;
  unk1 = 0;
}

friend-IsFriendInfo : IsFriendInfo civil_time friend
friend-IsFriendInfo = ground (arith, release-IsWhole)

decode-encode_friend_info_example :
    (friend_info civil_time 0).decode
      (friend_info civil_time 0).blank
      ((friend_info civil_time 0).encode friend ++ 5 ∷ [])
    ≡ ok (friend, length ((friend_info civil_time 0).encode friend))
decode-encode_friend_info_example =
    decode-encode_friend_info civil_time 0 friend (5 ∷ []) (omega arith) friend-IsFriendInfo

decode-friend_info_inside_example :
    length ((friend_info civil_time 0).encode friend)
    ≤ length ((friend_info civil_time 0).encode friend ++ 5 ∷ [])
decode-friend_info_inside_example =
    decode-friend_info_inside civil_time 0 (friend_info civil_time 0).blank friend
      ((friend_info civil_time 0).encode friend ++ 5 ∷ [])
      (length ((friend_info civil_time 0).encode friend))
      (decode-encode_friend_info civil_time 0 friend (5 ∷ []) (omega arith) friend-IsFriendInfo)

decode-encode_game_key_short_example :
    (game_key 3).decode (game_key 3).blank ((game_key 3).encode key ++ [])
    ≡ ok (key, length ((game_key 3).encode key) - 5)
decode-encode_game_key_short_example =
    decode-encode_game_key_short 3 key [] (omega arith) (ground arith)

abbrev pub lobby : Gathering
lobby = record {
  id = 7;
  owner_pid = 1800000001;
  host_pid = 1800000001;
  min_participants = 1;
  max_participants = 8;
  participation_policy = 98;
  policy_argument = 0;
  flags = 512;
  state = 0;
  description = [];
}

abbrev pub match : MatchmakeSession Civil
match = record {
  gathering = lobby;
  game_mode = 3;
  attributes = 1 ∷ 2 ∷ [];
  open_participation = 1;
  matchmake_system_type = 1;
  app_buffer = 8 ∷ [];
  participation_count = 1;
  progress_score = 100;
  session_key = 1 ∷ 2 ∷ 3 ∷ [];
  option0 = 0;
  matchmake_param = record { params = [] };
  started_time = release;
  user_password = [];
  refer_gid = 0;
  user_password_enabled = 0;
  system_password_enabled = 0;
}

lobby-IsGathering : IsGathering lobby
unfolding gathering_body class_of pair string_encode
lobby-IsGathering = ground arith

params-IsMatchmakeParam : IsMatchmakeParam civil_time (record { params = [] })
unfolding matchmake_param_body class_of params_map encode_entries
params-IsMatchmakeParam = (refl, omega arith)

own_size : length ((own_body civil_time 3).encode (own_fields match)) < 4294967296
unfolding own_body pair class_of matchmake_param matchmake_param_body params_map structure
    encode_entries encode_items string_encode
own_size = omega arith

match-IsMatchmakeSession : IsMatchmakeSession civil_time 3 match
match-IsMatchmakeSession =
    (lobby-IsGathering, (ground (arith, params-IsMatchmakeParam, release-IsWhole), own_size))

decode-encode_session_example :
    (matchmake_session civil_time 3).decode
      (matchmake_session civil_time 3).blank
      ((matchmake_session civil_time 3).encode match ++ 1 ∷ [])
    ≡ ok (match, length ((matchmake_session civil_time 3).encode match))
decode-encode_session_example =
    decode-encode_session civil_time 3 match (1 ∷ []) match-IsMatchmakeSession

decode-encode_params_empty_example :
    (params_map civil_time).decode
      (params_map civil_time).blank
      ((params_map civil_time).encode ((64 ∷ [], int64 3) ∷ []) ++ [])
    ≡ ok ([], 4)
decode-encode_params_empty_example =
    decode-encode_params_empty civil_time ((64 ∷ [], int64 3) ∷ []) []

decode-params_one_example :
    (params_map civil_time).decode [] (1 ∷ 0 ∷ 0 ∷ 0 ∷ []) ≡ ok (([], empty) ∷ [], 8)
decode-params_one_example = decode-params_one civil_time []

abbrev left : NotificationEvent
left = record {
  src_pid = 1800000001;
  type = 3007;
  param1 = 7;
  param2 = 0;
  str_param = [];
  param3 = 0;
}

decode-encode_event_example : event_decode 0 left (event_encode 0 left ++ []) ≡ err length_error
decode-encode_event_example =
    decode-encode_event 0 left left [] (omega arith) (omega arith) (omega arith) (omega arith)
      (omega arith)
