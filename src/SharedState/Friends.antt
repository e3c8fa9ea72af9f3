-- ===== src/SharedState/Friends.antt =====
-- The operations of sharedState/localSharedState.cpp on the clients of the friends server.
use splatit.Base.{ℕ, ◌%◌, ◌^◌, ◌==◌, if◌then◌else◌, Option, none, some, length}
use splatit.Base.Bytes.{Bytes}
use splatit.Base.Dict.{lookup, put, erase, update, nat_eq}
use splatit.Base.Sets.{set_insert, set_erase}
use splatit.SharedState.{Local, SsResult, success, FriendsClient, UserPreference}

abbrev with_preference : UserPreference → FriendsClient → FriendsClient
with_preference p c = record c { user_data = record c.user_data { preference = p } }

module _ {Time : Type 0} where
  -- `getPublicFacingRPCAddress`
  unfoldable pub get_public_facing_rpc_address : Local Time → ℕ → SsResult × Option Bytes
  get_public_facing_rpc_address s server_id =
      (success, if server_id == s.server_id then some s.rpc_address else none)

  -- `setFriendsRegisteredClientInfo`
  unfoldable pub set_friends_client : Local Time → FriendsClient → SsResult × Local Time
  set_friends_client s info =
      (success, record s { friends_clients = put info.user_data.pid info s.friends_clients })

  -- `getFriendsRegisteredClientInfo`
  unfoldable pub get_friends_client : Local Time → ℕ → SsResult × Option FriendsClient
  get_friends_client s pid = (success, lookup pid s.friends_clients)

  -- `deleteFriendsRegisteredClientInfo`
  unfoldable pub delete_friends_client : Local Time → ℕ → SsResult × Local Time
  delete_friends_client s pid =
      (success, record s { friends_clients = erase pid s.friends_clients })

  -- `addFriendToRegisteredClientInfo`
  unfoldable pub add_friend : Local Time → ℕ → ℕ → SsResult × Local Time
  add_friend s pid friend = (
    success,
    record s {
      friends_clients =
          update pid (λ (c : FriendsClient). record c { friends = set_insert friend c.friends })
            s.friends_clients;
    },
  )

  -- `removeFriendFromRegisteredClientInfo`
  unfoldable pub remove_friend : Local Time → ℕ → ℕ → SsResult × Local Time
  remove_friend s pid friend = (
    success,
    record s {
      friends_clients =
          update pid (λ (c : FriendsClient). record c { friends = set_erase friend c.friends })
            s.friends_clients;
    },
  )

  -- `updatePreferenceInRegisteredFriendsClientInfo`
  unfoldable pub update_preference : Local Time → ℕ → UserPreference → SsResult × Local Time
  update_preference s pid preference = (
    success,
    record s { friends_clients = update pid (with_preference preference) s.friends_clients },
  )

  -- `getFriendsRegisteredClientCount`
  unfoldable pub friends_client_count : Local Time → SsResult × ℕ
  friends_client_count s = (success, length s.friends_clients % 2 ^ 32)
