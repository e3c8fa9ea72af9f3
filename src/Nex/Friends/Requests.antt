-- ===== src/Nex/Friends/Requests.antt =====
-- The classes of nex/types/friendsSecure on friend requests and blocked users.
use splatit.Base.{ℕ, ◌+◌, ◌^◌, ◌<◌, refl, length}
use splatit.Base.Bytes.{Bytes}
use splatit.Nex.{Codec, ◌⊗◌, ◌⊠◌, ◌◂◌, class_of}
use splatit.Nex.Ints.{u8, u32, u64}
use splatit.Nex.Text.{string}
use splatit.Nex.Values.{Calendar, IsWhole, datetime}
use splatit.Nex.Structure.{data_class}
use splatit.Nex.Laws.{
  Reads, ◌also◌, class-Reads, data-Reads, int-Reads, string-Reads, datetime-Reads,
}
use splatit.Nex.Friends.Profile.{
  PrincipalBasicInfo, principal_basic_info, IsPrincipalBasicInfo, principal_basic_info-Reads,
}
use splatit.Nex.Friends.Presence.{GameKey, game_key, IsGameKey, game_key-Reads}

pub record FriendRequestMsg (Time : Type 0) : Type 0 where
  pub id : ℕ
  pub is_received : ℕ
  pub unk1 : ℕ
  pub message : Bytes
  pub unk2 : ℕ
  pub unk3 : Bytes
  pub game_key : GameKey
  pub unk4 : Time
  pub expires_on : Time

abbrev FriendRequestMsgFields : Type 0 → Type 0
FriendRequestMsgFields Time = ℕ ⊠ ℕ ⊠ ℕ ⊠ Bytes ⊠ ℕ ⊠ Bytes ⊠ GameKey ⊠ Time ⊠ Time

abbrev new_friend_request_msg :
    {Time : Type 0} → FriendRequestMsgFields Time → FriendRequestMsg Time
new_friend_request_msg f = record {
  id = f.0;
  is_received = f.1.0;
  unk1 = f.1.1.0;
  message = f.1.1.1.0;
  unk2 = f.1.1.1.1.0;
  unk3 = f.1.1.1.1.1.0;
  game_key = f.1.1.1.1.1.1.0;
  unk4 = f.1.1.1.1.1.1.1.0;
  expires_on = f.1.1.1.1.1.1.1.1;
}

abbrev friend_request_msg_fields :
    {Time : Type 0} → FriendRequestMsg Time → FriendRequestMsgFields Time
friend_request_msg_fields v =
    v.id ◂ v.is_received ◂ v.unk1 ◂ v.message ◂ v.unk2 ◂ v.unk3 ◂ v.game_key ◂ v.unk4 ◂ v.expires_on

unfoldable pub friend_request_msg_body :
    {Time : Type 0} → Calendar Time → ℕ → Codec (FriendRequestMsg Time)
friend_request_msg_body calendar minor_version =
    class_of
      (u64
        ⊗ u8
        ⊗ u8
        ⊗ string
        ⊗ u8
        ⊗ string
        ⊗ game_key minor_version
        ⊗ datetime calendar
        ⊗ datetime calendar)
      new_friend_request_msg friend_request_msg_fields

-- `FriendRequestMsg::encode` and `FriendRequestMsg::decode`
unfoldable pub friend_request_msg :
    {Time : Type 0} → Calendar Time → ℕ → Codec (FriendRequestMsg Time)
friend_request_msg calendar minor_version =
    data_class minor_version 0 (friend_request_msg_body calendar minor_version)

abbrev pub IsFriendRequestMsg : {Time : Type 0} → Calendar Time → FriendRequestMsg Time → Type 0
IsFriendRequestMsg calendar v =
    (v.id < 256 ^ 8)
    ⊠ (v.is_received < 256 ^ 1)
    ⊠ (v.unk1 < 256 ^ 1)
    ⊠ (length v.message + 1 < 65536)
    ⊠ (v.unk2 < 256 ^ 1)
    ⊠ (length v.unk3 + 1 < 65536)
    ⊠ (IsGameKey v.game_key)
    ⊠ (IsWhole calendar v.unk4)
    ⊠ (IsWhole calendar v.expires_on)

pub friend_request_msg-Reads :
    {Time : Type 0}
    → (calendar : Calendar Time) (minor_version : ℕ) → minor_version < 3
    → Reads (friend_request_msg calendar minor_version) (IsFriendRequestMsg calendar)
unfolding friend_request_msg friend_request_msg_body
friend_request_msg-Reads calendar minor_version low = data-Reads minor_version 0 low (
    class-Reads new_friend_request_msg friend_request_msg_fields (λ a. refl) (λ b. refl)
      (int-Reads 8
        also int-Reads 1
        also int-Reads 1
        also string-Reads
        also int-Reads 1
        also string-Reads
        also game_key-Reads minor_version low
        also datetime-Reads calendar
        also datetime-Reads calendar))

pub record FriendRequest (Time : Type 0) : Type 0 where
  pub principal_basic_info : PrincipalBasicInfo Time
  pub friend_request_msg : FriendRequestMsg Time
  pub sent_on : Time

abbrev new_friend_request :
    {Time : Type 0}
    → (PrincipalBasicInfo Time) ⊠ (FriendRequestMsg Time) ⊠ Time
    → FriendRequest Time
new_friend_request f = record {
  principal_basic_info = f.0;
  friend_request_msg = f.1.0;
  sent_on = f.1.1;
}

abbrev friend_request_fields :
    {Time : Type 0}
    → FriendRequest Time
    → (PrincipalBasicInfo Time) ⊠ (FriendRequestMsg Time) ⊠ Time
friend_request_fields v = v.principal_basic_info ◂ v.friend_request_msg ◂ v.sent_on

unfoldable pub friend_request_body :
    {Time : Type 0} → Calendar Time → ℕ → Codec (FriendRequest Time)
friend_request_body calendar minor_version =
    class_of
      (principal_basic_info calendar minor_version
        ⊗ friend_request_msg calendar minor_version
        ⊗ datetime calendar)
      new_friend_request friend_request_fields

-- `FriendRequest::encode` and `FriendRequest::decode`
unfoldable pub friend_request : {Time : Type 0} → Calendar Time → ℕ → Codec (FriendRequest Time)
friend_request calendar minor_version =
    data_class minor_version 0 (friend_request_body calendar minor_version)

abbrev pub IsFriendRequest : {Time : Type 0} → Calendar Time → FriendRequest Time → Type 0
IsFriendRequest calendar v =
    (IsPrincipalBasicInfo calendar v.principal_basic_info)
    ⊠ (IsFriendRequestMsg calendar v.friend_request_msg)
    ⊠ (IsWhole calendar v.sent_on)

pub friend_request-Reads :
    {Time : Type 0}
    → (calendar : Calendar Time) (minor_version : ℕ) → minor_version < 3
    → Reads (friend_request calendar minor_version) (IsFriendRequest calendar)
unfolding friend_request friend_request_body
friend_request-Reads calendar minor_version low = data-Reads minor_version 0 low (
    class-Reads new_friend_request friend_request_fields (λ a. refl) (λ b. refl)
      (principal_basic_info-Reads calendar minor_version low
        also friend_request_msg-Reads calendar minor_version low
        also datetime-Reads calendar))

pub record BlacklistedPrincipal (Time : Type 0) : Type 0 where
  pub principal_basic_info : PrincipalBasicInfo Time
  pub game_key : GameKey
  pub blacklisted_since : Time

abbrev new_blacklisted_principal :
    {Time : Type 0} → (PrincipalBasicInfo Time) ⊠ GameKey ⊠ Time → BlacklistedPrincipal Time
new_blacklisted_principal f = record {
  principal_basic_info = f.0;
  game_key = f.1.0;
  blacklisted_since = f.1.1;
}

abbrev blacklisted_principal_fields :
    {Time : Type 0} → BlacklistedPrincipal Time → (PrincipalBasicInfo Time) ⊠ GameKey ⊠ Time
blacklisted_principal_fields v = v.principal_basic_info ◂ v.game_key ◂ v.blacklisted_since

unfoldable pub blacklisted_principal_body :
    {Time : Type 0} → Calendar Time → ℕ → Codec (BlacklistedPrincipal Time)
blacklisted_principal_body calendar minor_version =
    class_of
      (principal_basic_info calendar minor_version ⊗ game_key minor_version ⊗ datetime calendar)
      new_blacklisted_principal blacklisted_principal_fields

-- `BlacklistedPrincipal::encode` and `BlacklistedPrincipal::decode`
unfoldable pub blacklisted_principal :
    {Time : Type 0} → Calendar Time → ℕ → Codec (BlacklistedPrincipal Time)
blacklisted_principal calendar minor_version =
    data_class minor_version 0 (blacklisted_principal_body calendar minor_version)

abbrev pub IsBlacklistedPrincipal :
    {Time : Type 0} → Calendar Time → BlacklistedPrincipal Time → Type 0
IsBlacklistedPrincipal calendar v =
    (IsPrincipalBasicInfo calendar v.principal_basic_info)
    ⊠ (IsGameKey v.game_key)
    ⊠ (IsWhole calendar v.blacklisted_since)

pub blacklisted_principal-Reads :
    {Time : Type 0}
    → (calendar : Calendar Time) (minor_version : ℕ) → minor_version < 3
    → Reads (blacklisted_principal calendar minor_version) (IsBlacklistedPrincipal calendar)
unfolding blacklisted_principal blacklisted_principal_body
blacklisted_principal-Reads calendar minor_version low = data-Reads minor_version 0 low (
    class-Reads new_blacklisted_principal blacklisted_principal_fields (λ a. refl) (λ b. refl)
      (principal_basic_info-Reads calendar minor_version low
        also game_key-Reads minor_version low
        also datetime-Reads calendar))

pub record PrincipalRequestBlockSetting : Type 0 where
  pub pid : ℕ
  pub blocked : ℕ

abbrev new_principal_request_block_setting : ℕ ⊠ ℕ → PrincipalRequestBlockSetting
new_principal_request_block_setting f = record { pid = f.0; blocked = f.1 }

abbrev principal_request_block_setting_fields : PrincipalRequestBlockSetting → ℕ ⊠ ℕ
principal_request_block_setting_fields v = v.pid ◂ v.blocked

unfoldable pub principal_request_block_setting_body : Codec PrincipalRequestBlockSetting
principal_request_block_setting_body =
    class_of (u32 ⊗ u8) new_principal_request_block_setting principal_request_block_setting_fields

-- `PrincipalRequestBlockSetting::encode` and `PrincipalRequestBlockSetting::decode`
unfoldable pub principal_request_block_setting : ℕ → Codec PrincipalRequestBlockSetting
principal_request_block_setting minor_version =
    data_class minor_version 0 principal_request_block_setting_body

abbrev pub IsPrincipalRequestBlockSetting : PrincipalRequestBlockSetting → Type 0
IsPrincipalRequestBlockSetting v = (v.pid < 256 ^ 4) ⊠ (v.blocked < 256 ^ 1)

pub principal_request_block_setting-Reads :
    (minor_version : ℕ)
    → minor_version < 3
    → Reads (principal_request_block_setting minor_version) IsPrincipalRequestBlockSetting
unfolding principal_request_block_setting principal_request_block_setting_body
principal_request_block_setting-Reads minor_version low = data-Reads minor_version 0 low (
    class-Reads new_principal_request_block_setting principal_request_block_setting_fields
      (λ a. refl) (λ b. refl) (int-Reads 4 also int-Reads 1))
