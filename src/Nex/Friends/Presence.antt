-- ===== src/Nex/Friends/Presence.antt =====
-- The classes of nex/types/friendsSecure on what a friend does.
use splatit.Base.{ℕ, ◌+◌, ◌^◌, ◌<◌, refl, length}
use splatit.Base.Bytes.{Bytes}
use splatit.Nex.{Codec, ◌⊗◌, ◌⊠◌, ◌◂◌, class_of}
use splatit.Nex.Ints.{u8, u16, u32, u64}
use splatit.Nex.Text.{string, buffer}
use splatit.Nex.Values.{Calendar, IsWhole, datetime}
use splatit.Nex.Structure.{data_class}
use splatit.Nex.Laws.{
  Reads, Bounded, ◌also◌, ◌beside◌, class-Reads, class-Bounded, data-Reads, data-Bounded, int-Reads,
  int-Bounded, string-Reads, string-Bounded, buffer-Reads, buffer-Bounded, datetime-Reads,
  datetime-Bounded,
}
use splatit.Nex.Friends.Profile.{
  NnaInfo, nna_info, IsNnaInfo, nna_info-Reads, nna_info-Bounded, Comment, comment, IsComment,
  comment-Reads, comment-Bounded,
}

pub record GameKey : Type 0 where
  pub title_id : ℕ
  pub title_version : ℕ

abbrev new_game_key : ℕ ⊠ ℕ → GameKey
new_game_key f = record { title_id = f.0; title_version = f.1 }

abbrev game_key_fields : GameKey → ℕ ⊠ ℕ
game_key_fields v = v.title_id ◂ v.title_version

unfoldable pub game_key_body : Codec GameKey
game_key_body = class_of (u64 ⊗ u16) new_game_key game_key_fields

-- `GameKey::encode` and `GameKey::decode`
unfoldable pub game_key : ℕ → Codec GameKey
game_key minor_version = data_class minor_version 0 game_key_body

abbrev pub IsGameKey : GameKey → Type 0
IsGameKey v = (v.title_id < 256 ^ 8) ⊠ (v.title_version < 256 ^ 2)

pub game_key_body-Reads : Reads game_key_body IsGameKey
unfolding game_key_body
game_key_body-Reads =
    class-Reads new_game_key game_key_fields (λ a. refl) (λ b. refl) (int-Reads 8 also int-Reads 2)

pub game_key-Reads :
    (minor_version : ℕ) → minor_version < 3 → Reads (game_key minor_version) IsGameKey
unfolding game_key
game_key-Reads minor_version low = data-Reads minor_version 0 low game_key_body-Reads

pub game_key-Bounded : (minor_version : ℕ) → Bounded (game_key minor_version)
unfolding game_key game_key_body
game_key-Bounded minor_version =
    data-Bounded minor_version 0
      (class-Bounded new_game_key game_key_fields (int-Bounded 8 beside int-Bounded 2))

pub record NintendoPresenceV2 : Type 0 where
  pub changed_flags : ℕ
  pub online : ℕ
  pub game_key : GameKey
  pub unk1 : ℕ
  pub message : Bytes
  pub unk2 : ℕ
  pub unk3 : ℕ
  pub game_server_id : ℕ
  pub unk4 : ℕ
  pub pid : ℕ
  pub gathering_id : ℕ
  pub app_data : Bytes
  pub unk5 : ℕ
  pub unk6 : ℕ
  pub unk7 : ℕ

abbrev NintendoPresenceV2Fields : Type 0
NintendoPresenceV2Fields = ℕ ⊠ ℕ ⊠ GameKey ⊠ ℕ ⊠ Bytes ⊠ ℕ ⊠ ℕ ⊠ ℕ ⊠ ℕ ⊠ ℕ ⊠ ℕ ⊠ Bytes ⊠ ℕ ⊠ ℕ ⊠ ℕ

abbrev new_nintendo_presence_v2 : NintendoPresenceV2Fields → NintendoPresenceV2
new_nintendo_presence_v2 f = record {
  changed_flags = f.0;
  online = f.1.0;
  game_key = f.1.1.0;
  unk1 = f.1.1.1.0;
  message = f.1.1.1.1.0;
  unk2 = f.1.1.1.1.1.0;
  unk3 = f.1.1.1.1.1.1.0;
  game_server_id = f.1.1.1.1.1.1.1.0;
  unk4 = f.1.1.1.1.1.1.1.1.0;
  pid = f.1.1.1.1.1.1.1.1.1.0;
  gathering_id = f.1.1.1.1.1.1.1.1.1.1.0;
  app_data = f.1.1.1.1.1.1.1.1.1.1.1.0;
  unk5 = f.1.1.1.1.1.1.1.1.1.1.1.1.0;
  unk6 = f.1.1.1.1.1.1.1.1.1.1.1.1.1.0;
  unk7 = f.1.1.1.1.1.1.1.1.1.1.1.1.1.1;
}

abbrev nintendo_presence_v2_fields : NintendoPresenceV2 → NintendoPresenceV2Fields
nintendo_presence_v2_fields v =
    v.changed_flags ◂ v.online ◂ v.game_key ◂ v.unk1 ◂ v.message ◂ v.unk2 ◂ v.unk3
    ◂ v.game_server_id ◂ v.unk4 ◂ v.pid ◂ v.gathering_id ◂ v.app_data ◂ v.unk5 ◂ v.unk6 ◂ v.unk7

unfoldable pub nintendo_presence_v2_body : ℕ → Codec NintendoPresenceV2
nintendo_presence_v2_body minor_version =
    class_of
      (u32
        ⊗ u8
        ⊗ game_key minor_version
        ⊗ u8
        ⊗ string
        ⊗ u32
        ⊗ u8
        ⊗ u32
        ⊗ u32
        ⊗ u32
        ⊗ u32
        ⊗ buffer
        ⊗ u8
        ⊗ u8
        ⊗ u8)
      new_nintendo_presence_v2 nintendo_presence_v2_fields

-- `NintendoPresenceV2::encode` and `NintendoPresenceV2::decode`
unfoldable pub nintendo_presence_v2 : ℕ → Codec NintendoPresenceV2
nintendo_presence_v2 minor_version =
    data_class minor_version 0 (nintendo_presence_v2_body minor_version)

abbrev pub IsNintendoPresenceV2 : NintendoPresenceV2 → Type 0
IsNintendoPresenceV2 v =
    (v.changed_flags < 256 ^ 4)
    ⊠ (v.online < 256 ^ 1)
    ⊠ (IsGameKey v.game_key)
    ⊠ (v.unk1 < 256 ^ 1)
    ⊠ (length v.message + 1 < 65536)
    ⊠ (v.unk2 < 256 ^ 4)
    ⊠ (v.unk3 < 256 ^ 1)
    ⊠ (v.game_server_id < 256 ^ 4)
    ⊠ (v.unk4 < 256 ^ 4)
    ⊠ (v.pid < 256 ^ 4)
    ⊠ (v.gathering_id < 256 ^ 4)
    ⊠ (length v.app_data < 256 ^ 4)
    ⊠ (v.unk5 < 256 ^ 1)
    ⊠ (v.unk6 < 256 ^ 1)
    ⊠ (v.unk7 < 256 ^ 1)

pub nintendo_presence_v2-Reads :
    (minor_version : ℕ)
    → minor_version < 3
    → Reads (nintendo_presence_v2 minor_version) IsNintendoPresenceV2
unfolding nintendo_presence_v2 nintendo_presence_v2_body
nintendo_presence_v2-Reads minor_version low = data-Reads minor_version 0 low (
    class-Reads new_nintendo_presence_v2 nintendo_presence_v2_fields (λ a. refl) (λ b. refl)
      (int-Reads 4
        also int-Reads 1
        also game_key-Reads minor_version low
        also int-Reads 1
        also string-Reads
        also int-Reads 4
        also int-Reads 1
        also int-Reads 4
        also int-Reads 4
        also int-Reads 4
        also int-Reads 4
        also buffer-Reads 4
        also int-Reads 1
        also int-Reads 1
        also int-Reads 1))

pub nintendo_presence_v2-Bounded :
    (minor_version : ℕ) → Bounded (nintendo_presence_v2 minor_version)
unfolding nintendo_presence_v2 nintendo_presence_v2_body
nintendo_presence_v2-Bounded minor_version = data-Bounded minor_version 0 (
    class-Bounded new_nintendo_presence_v2 nintendo_presence_v2_fields (
      int-Bounded 4
      beside int-Bounded 1
      beside game_key-Bounded minor_version
      beside int-Bounded 1
      beside string-Bounded
      beside int-Bounded 4
      beside int-Bounded 1
      beside int-Bounded 4
      beside int-Bounded 4
      beside int-Bounded 4
      beside int-Bounded 4
      beside buffer-Bounded 4
      beside int-Bounded 1
      beside int-Bounded 1
      beside int-Bounded 1))

pub record FriendInfo (Time : Type 0) : Type 0 where
  pub nna_info : NnaInfo Time
  pub presence : NintendoPresenceV2
  pub comment : Comment Time
  pub became_friends : Time
  pub last_online : Time
  pub unk1 : ℕ

abbrev FriendInfoFields : Type 0 → Type 0
FriendInfoFields Time = (NnaInfo Time) ⊠ NintendoPresenceV2 ⊠ (Comment Time) ⊠ Time ⊠ Time ⊠ ℕ

abbrev new_friend_info : {Time : Type 0} → FriendInfoFields Time → FriendInfo Time
new_friend_info f = record {
  nna_info = f.0;
  presence = f.1.0;
  comment = f.1.1.0;
  became_friends = f.1.1.1.0;
  last_online = f.1.1.1.1.0;
  unk1 = f.1.1.1.1.1;
}

abbrev friend_info_fields : {Time : Type 0} → FriendInfo Time → FriendInfoFields Time
friend_info_fields v =
    v.nna_info ◂ v.presence ◂ v.comment ◂ v.became_friends ◂ v.last_online ◂ v.unk1

unfoldable pub friend_info_body : {Time : Type 0} → Calendar Time → ℕ → Codec (FriendInfo Time)
friend_info_body calendar minor_version =
    class_of
      (nna_info calendar minor_version
        ⊗ nintendo_presence_v2 minor_version
        ⊗ comment calendar minor_version
        ⊗ datetime calendar
        ⊗ datetime calendar
        ⊗ u64)
      new_friend_info friend_info_fields

-- `FriendInfo::encode` and `FriendInfo::decode`
unfoldable pub friend_info : {Time : Type 0} → Calendar Time → ℕ → Codec (FriendInfo Time)
friend_info calendar minor_version =
    data_class minor_version 0 (friend_info_body calendar minor_version)

abbrev pub IsFriendInfo : {Time : Type 0} → Calendar Time → FriendInfo Time → Type 0
IsFriendInfo calendar v =
    (IsNnaInfo calendar v.nna_info)
    ⊠ (IsNintendoPresenceV2 v.presence)
    ⊠ (IsComment calendar v.comment)
    ⊠ (IsWhole calendar v.became_friends)
    ⊠ (IsWhole calendar v.last_online)
    ⊠ (v.unk1 < 256 ^ 8)

pub friend_info-Reads :
    {Time : Type 0}
    → (calendar : Calendar Time) (minor_version : ℕ) → minor_version < 3
    → Reads (friend_info calendar minor_version) (IsFriendInfo calendar)
unfolding friend_info friend_info_body
friend_info-Reads calendar minor_version low = data-Reads minor_version 0 low (
    class-Reads new_friend_info friend_info_fields (λ a. refl) (λ b. refl)
      (nna_info-Reads calendar minor_version low
        also nintendo_presence_v2-Reads minor_version low
        also comment-Reads calendar minor_version low
        also datetime-Reads calendar
        also datetime-Reads calendar
        also int-Reads 8))

pub friend_info-Bounded :
    {Time : Type 0}
    → (calendar : Calendar Time) (minor_version : ℕ) → Bounded (friend_info calendar minor_version)
unfolding friend_info friend_info_body
friend_info-Bounded calendar minor_version = data-Bounded minor_version 0 (
    class-Bounded new_friend_info friend_info_fields (
      nna_info-Bounded calendar minor_version
      beside nintendo_presence_v2-Bounded minor_version
      beside comment-Bounded calendar minor_version
      beside datetime-Bounded calendar
      beside datetime-Bounded calendar
      beside int-Bounded 8))
