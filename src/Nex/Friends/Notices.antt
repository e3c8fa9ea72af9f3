-- ===== src/Nex/Friends/Notices.antt =====
-- The notification classes of nex/types/friendsSecure and the account data of a new user. The type of
-- an event is its number.
use splatit.Base.{ℕ, ◌+◌, ◌^◌, ◌<◌, refl, length}
use splatit.Base.Bytes.{Bytes}
use splatit.Nex.{Codec, ◌⊗◌, ◌⊠◌, ◌◂◌, class_of}
use splatit.Nex.Ints.{u32, u64}
use splatit.Nex.Text.{string}
use splatit.Nex.Values.{Calendar, IsWhole, datetime}
use splatit.Nex.Holder.{AnyDataHolder, any_data_holder, Holds}
use splatit.Nex.Structure.{structure, data_class}
use splatit.Nex.Laws.{
  Reads, ◌also◌, class-Reads, structure-Reads, data-Reads, int-Reads, string-Reads, datetime-Reads,
  holder-Reads,
}
use splatit.Nex.Friends.Profile.{NnaInfo, nna_info, IsNnaInfo, nna_info-Reads}

pub record PersistentNotification : Type 0 where
  pub unk1 : ℕ
  pub unk2 : ℕ
  pub unk3 : ℕ
  pub unk4 : ℕ
  pub unk5 : Bytes

abbrev PersistentNotificationFields : Type 0
PersistentNotificationFields = ℕ ⊠ ℕ ⊠ ℕ ⊠ ℕ ⊠ Bytes

abbrev new_persistent_notification : PersistentNotificationFields → PersistentNotification
new_persistent_notification f = record {
  unk1 = f.0;
  unk2 = f.1.0;
  unk3 = f.1.1.0;
  unk4 = f.1.1.1.0;
  unk5 = f.1.1.1.1;
}

abbrev persistent_notification_fields : PersistentNotification → PersistentNotificationFields
persistent_notification_fields v = v.unk1 ◂ v.unk2 ◂ v.unk3 ◂ v.unk4 ◂ v.unk5

unfoldable pub persistent_notification_body : Codec PersistentNotification
persistent_notification_body =
    class_of (u64 ⊗ u32 ⊗ u32 ⊗ u32 ⊗ string) new_persistent_notification
      persistent_notification_fields

-- `PersistentNotification::encode` and `PersistentNotification::decode`
unfoldable pub persistent_notification : ℕ → Codec PersistentNotification
persistent_notification minor_version = data_class minor_version 0 persistent_notification_body

abbrev pub IsPersistentNotification : PersistentNotification → Type 0
IsPersistentNotification v =
    (v.unk1 < 256 ^ 8)
    ⊠ (v.unk2 < 256 ^ 4)
    ⊠ (v.unk3 < 256 ^ 4)
    ⊠ (v.unk4 < 256 ^ 4)
    ⊠ (length v.unk5 + 1 < 65536)

pub persistent_notification-Reads :
    (minor_version : ℕ)
    → minor_version < 3
    → Reads (persistent_notification minor_version) IsPersistentNotification
unfolding persistent_notification persistent_notification_body
persistent_notification-Reads minor_version low = data-Reads minor_version 0 low (
    class-Reads new_persistent_notification persistent_notification_fields (λ a. refl) (λ b. refl)
      (int-Reads 8 also int-Reads 4 also int-Reads 4 also int-Reads 4 also string-Reads))

pub record NintendoNotificationEventGeneral : Type 0 where
  pub u32_param : ℕ
  pub u64_param1 : ℕ
  pub u64_param2 : ℕ
  pub str_param : Bytes

abbrev NintendoNotificationEventGeneralFields : Type 0
NintendoNotificationEventGeneralFields = ℕ ⊠ ℕ ⊠ ℕ ⊠ Bytes

abbrev new_nintendo_notification_event_general :
    NintendoNotificationEventGeneralFields → NintendoNotificationEventGeneral
new_nintendo_notification_event_general f = record {
  u32_param = f.0;
  u64_param1 = f.1.0;
  u64_param2 = f.1.1.0;
  str_param = f.1.1.1;
}

abbrev nintendo_notification_event_general_fields :
    NintendoNotificationEventGeneral → NintendoNotificationEventGeneralFields
nintendo_notification_event_general_fields v =
    v.u32_param ◂ v.u64_param1 ◂ v.u64_param2 ◂ v.str_param

unfoldable pub nintendo_notification_event_general_body : Codec NintendoNotificationEventGeneral
nintendo_notification_event_general_body =
    class_of (u32 ⊗ u64 ⊗ u64 ⊗ string) new_nintendo_notification_event_general
      nintendo_notification_event_general_fields

-- `NintendoNotificationEventGeneral::encode` and `NintendoNotificationEventGeneral::decode`
unfoldable pub nintendo_notification_event_general : ℕ → Codec NintendoNotificationEventGeneral
nintendo_notification_event_general minor_version =
    data_class minor_version 0 nintendo_notification_event_general_body

abbrev pub IsNintendoNotificationEventGeneral : NintendoNotificationEventGeneral → Type 0
IsNintendoNotificationEventGeneral v =
    (v.u32_param < 256 ^ 4)
    ⊠ (v.u64_param1 < 256 ^ 8)
    ⊠ (v.u64_param2 < 256 ^ 8)
    ⊠ (length v.str_param + 1 < 65536)

pub nintendo_notification_event_general-Reads :
    (minor_version : ℕ)
    → minor_version < 3
    → Reads (nintendo_notification_event_general minor_version) IsNintendoNotificationEventGeneral
unfolding nintendo_notification_event_general nintendo_notification_event_general_body
nintendo_notification_event_general-Reads minor_version low = data-Reads minor_version 0 low (
    class-Reads new_nintendo_notification_event_general nintendo_notification_event_general_fields
      (λ a. refl) (λ b. refl) (int-Reads 4 also int-Reads 8 also int-Reads 8 also string-Reads))

pub record NintendoNotificationEvent : Type 0 where
  pub type : ℕ
  pub sender : ℕ
  pub event_data : AnyDataHolder

abbrev new_nintendo_notification_event : ℕ ⊠ ℕ ⊠ AnyDataHolder → NintendoNotificationEvent
new_nintendo_notification_event f = record { type = f.0; sender = f.1.0; event_data = f.1.1 }

abbrev nintendo_notification_event_fields : NintendoNotificationEvent → ℕ ⊠ ℕ ⊠ AnyDataHolder
nintendo_notification_event_fields v = v.type ◂ v.sender ◂ v.event_data

unfoldable pub nintendo_notification_event_body : Codec NintendoNotificationEvent
nintendo_notification_event_body =
    class_of (u32 ⊗ u32 ⊗ any_data_holder) new_nintendo_notification_event
      nintendo_notification_event_fields

-- `NintendoNotificationEvent::encode` and `NintendoNotificationEvent::decode`
unfoldable pub nintendo_notification_event : ℕ → Codec NintendoNotificationEvent
nintendo_notification_event minor_version =
    structure minor_version 0 nintendo_notification_event_body

abbrev pub IsNintendoNotificationEvent : NintendoNotificationEvent → Type 0
IsNintendoNotificationEvent v =
    ((v.type < 256 ^ 4) ⊠ (v.sender < 256 ^ 4) ⊠ (Holds v.event_data))
    × (length (nintendo_notification_event_body.encode v) < 2 ^ 32)

pub nintendo_notification_event-Reads :
    (minor_version : ℕ)
    → Reads (nintendo_notification_event minor_version) IsNintendoNotificationEvent
unfolding nintendo_notification_event nintendo_notification_event_body
nintendo_notification_event-Reads minor_version = structure-Reads minor_version 0 (
    class-Reads new_nintendo_notification_event nintendo_notification_event_fields (λ a. refl)
      (λ b. refl) (int-Reads 4 also int-Reads 4 also holder-Reads))

pub record NintendoCreateAccountData (Time : Type 0) : Type 0 where
  pub nna_info : NnaInfo Time
  pub nex_token : Bytes
  pub birthdate : Time
  pub unk1 : ℕ

abbrev NintendoCreateAccountDataFields : Type 0 → Type 0
NintendoCreateAccountDataFields Time = (NnaInfo Time) ⊠ Bytes ⊠ Time ⊠ ℕ

abbrev new_nintendo_create_account_data :
    {Time : Type 0} → NintendoCreateAccountDataFields Time → NintendoCreateAccountData Time
new_nintendo_create_account_data f = record {
  nna_info = f.0;
  nex_token = f.1.0;
  birthdate = f.1.1.0;
  unk1 = f.1.1.1;
}

abbrev nintendo_create_account_data_fields :
    {Time : Type 0} → NintendoCreateAccountData Time → NintendoCreateAccountDataFields Time
nintendo_create_account_data_fields v = v.nna_info ◂ v.nex_token ◂ v.birthdate ◂ v.unk1

unfoldable pub nintendo_create_account_data_body :
    {Time : Type 0} → Calendar Time → ℕ → Codec (NintendoCreateAccountData Time)
nintendo_create_account_data_body calendar minor_version =
    class_of (nna_info calendar minor_version ⊗ string ⊗ datetime calendar ⊗ u64)
      new_nintendo_create_account_data nintendo_create_account_data_fields

-- `NintendoCreateAccountData::encode` and `NintendoCreateAccountData::decode`
unfoldable pub nintendo_create_account_data :
    {Time : Type 0} → Calendar Time → ℕ → Codec (NintendoCreateAccountData Time)
nintendo_create_account_data calendar minor_version =
    structure minor_version 0 (nintendo_create_account_data_body calendar minor_version)

abbrev pub IsNintendoCreateAccountData :
    {Time : Type 0} → Calendar Time → ℕ → NintendoCreateAccountData Time → Type 0
IsNintendoCreateAccountData calendar minor_version v =
    ((IsNnaInfo calendar v.nna_info)
      ⊠ (length v.nex_token + 1 < 65536)
      ⊠ (IsWhole calendar v.birthdate)
      ⊠ (v.unk1 < 256 ^ 8))
    × (length ((nintendo_create_account_data_body calendar minor_version).encode v) < 2 ^ 32)

pub nintendo_create_account_data-Reads :
    {Time : Type 0}
    → (calendar : Calendar Time) (minor_version : ℕ) → minor_version < 3
    → Reads
        (nintendo_create_account_data calendar minor_version)
        (IsNintendoCreateAccountData calendar minor_version)
unfolding nintendo_create_account_data nintendo_create_account_data_body
nintendo_create_account_data-Reads calendar minor_version low = structure-Reads minor_version 0 (
    class-Reads new_nintendo_create_account_data nintendo_create_account_data_fields (λ a. refl)
      (λ b. refl)
      (nna_info-Reads calendar minor_version low
        also string-Reads
        also datetime-Reads calendar
        also int-Reads 8))
