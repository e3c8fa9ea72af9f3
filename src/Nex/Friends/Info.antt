-- ===== src/Nex/Friends/Info.antt =====
-- What `FriendInfo` and `GameKey` of nex/types/friendsSecure read back.
use splatit.Base.{ℕ, ◌-◌, ◌≤◌, ◌<◌, ◌≡◌, arith, ok, ◌++◌, length}
use splatit.Base.Bytes.{Bytes}
use splatit.Nex.{pair, class_of}
use splatit.Nex.Values.{Calendar}
use splatit.Nex.Structure.{data_class-short}
use splatit.Nex.Friends.Presence.{
  GameKey, game_key, game_key_body, IsGameKey, game_key_body-Reads, FriendInfo, friend_info,
  IsFriendInfo, friend_info-Reads, friend_info-Bounded,
}

-- Below minor version 3, a friend whose fields fit and whose times are whole seconds is read back
-- by a new object, whatever bytes follow, and all of its bytes are used.
pub decode-encode_friend_info :
    {Time : Type 0} (calendar : Calendar Time) (minor_version : ℕ) (v : FriendInfo Time)
    (rest : Bytes)
    → minor_version < 3
    → IsFriendInfo calendar v
    → (friend_info calendar minor_version).decode
        (friend_info calendar minor_version).blank
        ((friend_info calendar minor_version).encode v ++ rest)
      ≡ ok (v, length ((friend_info calendar minor_version).encode v))
decode-encode_friend_info calendar minor_version v rest low good =
    (friend_info-Reads calendar minor_version low).back v rest good

-- Where `decode` of a friend returns, the size that it returns is at most the size of the data.
pub decode-friend_info_inside :
    {Time : Type 0} (calendar : Calendar Time) (minor_version : ℕ) (old v : FriendInfo Time)
    (d : Bytes) (n : ℕ)
    → (friend_info calendar minor_version).decode old d ≡ ok (v, n)
    → n ≤ length d
decode-friend_info_inside calendar minor_version old v d n returns =
    (friend_info-Bounded calendar minor_version).inside old v d n returns

length-game_key_body : (v : GameKey) → length (game_key_body.encode v) < 4294967296
unfolding game_key_body class_of pair
length-game_key_body v = omega arith

-- From minor version 3 on, a game key whose fields fit is read back by a new object, and the size
-- that is returned is 5 bytes less than what was written.
pub decode-encode_game_key_short :
    (minor_version : ℕ) (v : GameKey) (rest : Bytes)
    → 3 ≤ minor_version
    → IsGameKey v
    → (game_key minor_version).decode
        (game_key minor_version).blank
        ((game_key minor_version).encode v ++ rest)
      ≡ ok (v, length ((game_key minor_version).encode v) - 5)
unfolding game_key
decode-encode_game_key_short minor_version v rest new good =
    data_class-short minor_version 0 game_key_body v rest new game_key_body-Reads.back good
      (length-game_key_body v)
