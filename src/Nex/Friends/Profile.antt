-- ===== src/Nex/Friends/Profile.antt =====
-- The classes of nex/types/friendsSecure that describe a user. A `Bool` is its byte.
use splatit.Base.{ℕ, ◌+◌, ◌^◌, ◌<◌, refl, length}
use splatit.Base.Bytes.{Bytes}
use splatit.Nex.{Codec, ◌⊗◌, ◌⊠◌, ◌◂◌, class_of}
use splatit.Nex.Ints.{u8, u32}
use splatit.Nex.Text.{string, buffer}
use splatit.Nex.Values.{Calendar, IsWhole, datetime}
use splatit.Nex.Structure.{data_class}
use splatit.Nex.Laws.{
  Reads, Bounded, ◌also◌, ◌beside◌, class-Reads, class-Bounded, data-Reads, data-Bounded, int-Reads,
  int-Bounded, string-Reads, string-Bounded, buffer-Reads, buffer-Bounded, datetime-Reads,
  datetime-Bounded,
}

pub record MiiV2 (Time : Type 0) : Type 0 where
  pub name : Bytes
  pub unk1 : ℕ
  pub unk2 : ℕ
  pub mii_data : Bytes
  pub unk3 : Time

abbrev MiiV2Fields : Type 0 → Type 0
MiiV2Fields Time = Bytes ⊠ ℕ ⊠ ℕ ⊠ Bytes ⊠ Time

abbrev new_mii_v2 : {Time : Type 0} → MiiV2Fields Time → MiiV2 Time
new_mii_v2 f = record {
  name = f.0;
  unk1 = f.1.0;
  unk2 = f.1.1.0;
  mii_data = f.1.1.1.0;
  unk3 = f.1.1.1.1;
}

abbrev mii_v2_fields : {Time : Type 0} → MiiV2 Time → MiiV2Fields Time
mii_v2_fields v = v.name ◂ v.unk1 ◂ v.unk2 ◂ v.mii_data ◂ v.unk3

unfoldable pub mii_v2_body : {Time : Type 0} → Calendar Time → Codec (MiiV2 Time)
mii_v2_body calendar =
    class_of (string ⊗ u8 ⊗ u8 ⊗ buffer ⊗ datetime calendar) new_mii_v2 mii_v2_fields

-- `MiiV2::encode` and `MiiV2::decode`
unfoldable pub mii_v2 : {Time : Type 0} → Calendar Time → ℕ → Codec (MiiV2 Time)
mii_v2 calendar minor_version = data_class minor_version 0 (mii_v2_body calendar)

abbrev pub IsMiiV2 : {Time : Type 0} → Calendar Time → MiiV2 Time → Type 0
IsMiiV2 calendar v =
    (length v.name + 1 < 65536)
    ⊠ (v.unk1 < 256 ^ 1)
    ⊠ (v.unk2 < 256 ^ 1)
    ⊠ (length v.mii_data < 256 ^ 4)
    ⊠ (IsWhole calendar v.unk3)

pub mii_v2-Reads :
    {Time : Type 0}
    → (calendar : Calendar Time) (minor_version : ℕ) → minor_version < 3
    → Reads (mii_v2 calendar minor_version) (IsMiiV2 calendar)
unfolding mii_v2 mii_v2_body
mii_v2-Reads calendar minor_version low = data-Reads minor_version 0 low (
    class-Reads new_mii_v2 mii_v2_fields (λ a. refl) (λ b. refl)
      (string-Reads
        also int-Reads 1
        also int-Reads 1
        also buffer-Reads 4
        also datetime-Reads calendar))

pub mii_v2-Bounded :
    {Time : Type 0}
    → (calendar : Calendar Time) (minor_version : ℕ) → Bounded (mii_v2 calendar minor_version)
unfolding mii_v2 mii_v2_body
mii_v2-Bounded calendar minor_version = data-Bounded minor_version 0 (
    class-Bounded new_mii_v2 mii_v2_fields (
      string-Bounded
      beside int-Bounded 1
      beside int-Bounded 1
      beside buffer-Bounded 4
      beside datetime-Bounded calendar))

pub record PrincipalBasicInfo (Time : Type 0) : Type 0 where
  pub pid : ℕ
  pub nnid : Bytes
  pub mii : MiiV2 Time
  pub unk1 : ℕ

abbrev PrincipalBasicInfoFields : Type 0 → Type 0
PrincipalBasicInfoFields Time = ℕ ⊠ Bytes ⊠ (MiiV2 Time) ⊠ ℕ

abbrev new_principal_basic_info :
    {Time : Type 0} → PrincipalBasicInfoFields Time → PrincipalBasicInfo Time
new_principal_basic_info f = record { pid = f.0; nnid = f.1.0; mii = f.1.1.0; unk1 = f.1.1.1 }

abbrev principal_basic_info_fields :
    {Time : Type 0} → PrincipalBasicInfo Time → PrincipalBasicInfoFields Time
principal_basic_info_fields v = v.pid ◂ v.nnid ◂ v.mii ◂ v.unk1

unfoldable pub principal_basic_info_body :
    {Time : Type 0} → Calendar Time → ℕ → Codec (PrincipalBasicInfo Time)
principal_basic_info_body calendar minor_version =
    class_of (u32 ⊗ string ⊗ mii_v2 calendar minor_version ⊗ u8) new_principal_basic_info
      principal_basic_info_fields

-- `PrincipalBasicInfo::encode` and `PrincipalBasicInfo::decode`
unfoldable pub principal_basic_info :
    {Time : Type 0} → Calendar Time → ℕ → Codec (PrincipalBasicInfo Time)
principal_basic_info calendar minor_version =
    data_class minor_version 0 (principal_basic_info_body calendar minor_version)

abbrev pub IsPrincipalBasicInfo : {Time : Type 0} → Calendar Time → PrincipalBasicInfo Time → Type 0
IsPrincipalBasicInfo calendar v =
    (v.pid < 256 ^ 4) ⊠ (length v.nnid + 1 < 65536) ⊠ (IsMiiV2 calendar v.mii) ⊠ (v.unk1 < 256 ^ 1)

pub principal_basic_info-Reads :
    {Time : Type 0}
    → (calendar : Calendar Time) (minor_version : ℕ) → minor_version < 3
    → Reads (principal_basic_info calendar minor_version) (IsPrincipalBasicInfo calendar)
unfolding principal_basic_info principal_basic_info_body
principal_basic_info-Reads calendar minor_version low = data-Reads minor_version 0 low (
    class-Reads new_principal_basic_info principal_basic_info_fields (λ a. refl) (λ b. refl)
      (int-Reads 4 also string-Reads also mii_v2-Reads calendar minor_version low also int-Reads 1))

pub principal_basic_info-Bounded :
    {Time : Type 0}
    → (calendar : Calendar Time) (minor_version : ℕ)
    → Bounded (principal_basic_info calendar minor_version)
unfolding principal_basic_info principal_basic_info_body
principal_basic_info-Bounded calendar minor_version = data-Bounded minor_version 0 (
    class-Bounded new_principal_basic_info principal_basic_info_fields (
      int-Bounded 4
      beside string-Bounded
      beside mii_v2-Bounded calendar minor_version
      beside int-Bounded 1))

pub record NnaInfo (Time : Type 0) : Type 0 where
  pub info : PrincipalBasicInfo Time
  pub unk1 : ℕ
  pub unk2 : ℕ

abbrev new_nna_info : {Time : Type 0} → (PrincipalBasicInfo Time) ⊠ ℕ ⊠ ℕ → NnaInfo Time
new_nna_info f = record { info = f.0; unk1 = f.1.0; unk2 = f.1.1 }

abbrev nna_info_fields : {Time : Type 0} → NnaInfo Time → (PrincipalBasicInfo Time) ⊠ ℕ ⊠ ℕ
nna_info_fields v = v.info ◂ v.unk1 ◂ v.unk2

unfoldable pub nna_info_body : {Time : Type 0} → Calendar Time → ℕ → Codec (NnaInfo Time)
nna_info_body calendar minor_version =
    class_of (principal_basic_info calendar minor_version ⊗ u8 ⊗ u8) new_nna_info nna_info_fields

-- `NNAInfo::encode` and `NNAInfo::decode`
unfoldable pub nna_info : {Time : Type 0} → Calendar Time → ℕ → Codec (NnaInfo Time)
nna_info calendar minor_version = data_class minor_version 0 (nna_info_body calendar minor_version)

abbrev pub IsNnaInfo : {Time : Type 0} → Calendar Time → NnaInfo Time → Type 0
IsNnaInfo calendar v =
    (IsPrincipalBasicInfo calendar v.info) ⊠ (v.unk1 < 256 ^ 1) ⊠ (v.unk2 < 256 ^ 1)

pub nna_info-Reads :
    {Time : Type 0}
    → (calendar : Calendar Time) (minor_version : ℕ) → minor_version < 3
    → Reads (nna_info calendar minor_version) (IsNnaInfo calendar)
unfolding nna_info nna_info_body
nna_info-Reads calendar minor_version low = data-Reads minor_version 0 low (
    class-Reads new_nna_info nna_info_fields (λ a. refl) (λ b. refl)
      (principal_basic_info-Reads calendar minor_version low also int-Reads 1 also int-Reads 1))

pub nna_info-Bounded :
    {Time : Type 0}
    → (calendar : Calendar Time) (minor_version : ℕ) → Bounded (nna_info calendar minor_version)
unfolding nna_info nna_info_body
nna_info-Bounded calendar minor_version = data-Bounded minor_version 0 (
    class-Bounded new_nna_info nna_info_fields (
      principal_basic_info-Bounded calendar minor_version
      beside int-Bounded 1
      beside int-Bounded 1))

pub record Comment (Time : Type 0) : Type 0 where
  pub unk1 : ℕ
  pub message : Bytes
  pub last_modified : Time

abbrev new_comment : {Time : Type 0} → ℕ ⊠ Bytes ⊠ Time → Comment Time
new_comment f = record { unk1 = f.0; message = f.1.0; last_modified = f.1.1 }

abbrev comment_fields : {Time : Type 0} → Comment Time → ℕ ⊠ Bytes ⊠ Time
comment_fields v = v.unk1 ◂ v.message ◂ v.last_modified

unfoldable pub comment_body : {Time : Type 0} → Calendar Time → Codec (Comment Time)
comment_body calendar = class_of (u8 ⊗ string ⊗ datetime calendar) new_comment comment_fields

-- `Comment::encode` and `Comment::decode`
unfoldable pub comment : {Time : Type 0} → Calendar Time → ℕ → Codec (Comment Time)
comment calendar minor_version = data_class minor_version 0 (comment_body calendar)

abbrev pub IsComment : {Time : Type 0} → Calendar Time → Comment Time → Type 0
IsComment calendar v =
    (v.unk1 < 256 ^ 1) ⊠ (length v.message + 1 < 65536) ⊠ (IsWhole calendar v.last_modified)

pub comment-Reads :
    {Time : Type 0}
    → (calendar : Calendar Time) (minor_version : ℕ) → minor_version < 3
    → Reads (comment calendar minor_version) (IsComment calendar)
unfolding comment comment_body
comment-Reads calendar minor_version low = data-Reads minor_version 0 low (
    class-Reads new_comment comment_fields (λ a. refl) (λ b. refl)
      (int-Reads 1 also string-Reads also datetime-Reads calendar))

pub comment-Bounded :
    {Time : Type 0}
    → (calendar : Calendar Time) (minor_version : ℕ) → Bounded (comment calendar minor_version)
unfolding comment comment_body
comment-Bounded calendar minor_version = data-Bounded minor_version 0 (
    class-Bounded new_comment comment_fields
      (int-Bounded 1 beside string-Bounded beside datetime-Bounded calendar))

pub record PrincipalPreference : Type 0 where
  pub show_online : ℕ
  pub show_playing : ℕ
  pub block_friend_request : ℕ

abbrev new_principal_preference : ℕ ⊠ ℕ ⊠ ℕ → PrincipalPreference
new_principal_preference f = record {
  show_online = f.0;
  show_playing = f.1.0;
  block_friend_request = f.1.1;
}

abbrev principal_preference_fields : PrincipalPreference → ℕ ⊠ ℕ ⊠ ℕ
principal_preference_fields v = v.show_online ◂ v.show_playing ◂ v.block_friend_request

unfoldable pub principal_preference_body : Codec PrincipalPreference
principal_preference_body =
    class_of (u8 ⊗ u8 ⊗ u8) new_principal_preference principal_preference_fields

-- `PrincipalPreference::encode` and `PrincipalPreference::decode`
unfoldable pub principal_preference : ℕ → Codec PrincipalPreference
principal_preference minor_version = data_class minor_version 0 principal_preference_body

abbrev pub IsPrincipalPreference : PrincipalPreference → Type 0
IsPrincipalPreference v =
    (v.show_online < 256 ^ 1) ⊠ (v.show_playing < 256 ^ 1) ⊠ (v.block_friend_request < 256 ^ 1)

pub principal_preference-Reads :
    (minor_version : ℕ)
    → minor_version < 3
    → Reads (principal_preference minor_version) IsPrincipalPreference
unfolding principal_preference principal_preference_body
principal_preference-Reads minor_version low = data-Reads minor_version 0 low (
    class-Reads new_principal_preference principal_preference_fields (λ a. refl) (λ b. refl)
      (int-Reads 1 also int-Reads 1 also int-Reads 1))

pub principal_preference-Bounded :
    (minor_version : ℕ) → Bounded (principal_preference minor_version)
unfolding principal_preference principal_preference_body
principal_preference-Bounded minor_version = data-Bounded minor_version 0 (
    class-Bounded new_principal_preference principal_preference_fields
      (int-Bounded 1 beside int-Bounded 1 beside int-Bounded 1))
