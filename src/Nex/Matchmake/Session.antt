-- ===== src/Nex/Matchmake/Session.antt =====
-- `MatchmakeSession` of nex/types/splatoonSecure/matchmakeSession.hpp. A `Bool` is its byte.
use splatit.Base.{ℕ, ◌+◌, ◌^◌, ◌<◌, refl, length, List, All}
use splatit.Base.Bytes.{Bytes}
use splatit.Nex.{Codec, ◌⊗◌, ◌⊠◌, ◌◂◌, class_of}
use splatit.Nex.Ints.{u8, u32}
use splatit.Nex.Text.{string, buffer}
use splatit.Nex.Containers.{list}
use splatit.Nex.Values.{Calendar, IsWhole, datetime}
use splatit.Nex.Structure.{structure}
use splatit.Nex.Laws.{
  Reads, ◌also◌, class-Reads, structure-Reads, int-Reads, string-Reads, buffer-Reads, list-Reads,
  datetime-Reads,
}
use splatit.Nex.Matchmake.Gathering.{
  Gathering, gathering, IsGathering, gathering-Reads, MatchmakeParam, matchmake_param,
  IsMatchmakeParam, matchmake_param-Reads,
}

pub record MatchmakeSession (Time : Type 0) : Type 0 where
  pub gathering : Gathering
  pub game_mode : ℕ
  pub attributes : List ℕ
  pub open_participation : ℕ
  pub matchmake_system_type : ℕ
  pub app_buffer : Bytes
  pub participation_count : ℕ
  pub progress_score : ℕ
  pub session_key : Bytes
  pub option0 : ℕ
  pub matchmake_param : MatchmakeParam Time
  pub started_time : Time
  pub user_password : Bytes
  pub refer_gid : ℕ
  pub user_password_enabled : ℕ
  pub system_password_enabled : ℕ

abbrev pub OwnFields : Type 0 → Type 0
OwnFields Time =
    ℕ
    ⊠ (List ℕ)
    ⊠ ℕ
    ⊠ ℕ
    ⊠ Bytes
    ⊠ ℕ
    ⊠ ℕ
    ⊠ Bytes
    ⊠ ℕ
    ⊠ (MatchmakeParam Time)
    ⊠ Time
    ⊠ Bytes
    ⊠ ℕ
    ⊠ ℕ
    ⊠ ℕ

abbrev new_session : {Time : Type 0} → Gathering × OwnFields Time → MatchmakeSession Time
new_session f = record {
  gathering = f.0;
  game_mode = f.1.0;
  attributes = f.1.1.0;
  open_participation = f.1.1.1.0;
  matchmake_system_type = f.1.1.1.1.0;
  app_buffer = f.1.1.1.1.1.0;
  participation_count = f.1.1.1.1.1.1.0;
  progress_score = f.1.1.1.1.1.1.1.0;
  session_key = f.1.1.1.1.1.1.1.1.0;
  option0 = f.1.1.1.1.1.1.1.1.1.0;
  matchmake_param = f.1.1.1.1.1.1.1.1.1.1.0;
  started_time = f.1.1.1.1.1.1.1.1.1.1.1.0;
  user_password = f.1.1.1.1.1.1.1.1.1.1.1.1.0;
  refer_gid = f.1.1.1.1.1.1.1.1.1.1.1.1.1.0;
  user_password_enabled = f.1.1.1.1.1.1.1.1.1.1.1.1.1.1.0;
  system_password_enabled = f.1.1.1.1.1.1.1.1.1.1.1.1.1.1.1;
}

abbrev pub own_fields : {Time : Type 0} → MatchmakeSession Time → OwnFields Time
own_fields v =
    v.game_mode ◂ v.attributes ◂ v.open_participation ◂ v.matchmake_system_type ◂ v.app_buffer
    ◂ v.participation_count ◂ v.progress_score ◂ v.session_key ◂ v.option0 ◂ v.matchmake_param
    ◂ v.started_time ◂ v.user_password ◂ v.refer_gid ◂ v.user_password_enabled
    ◂ v.system_password_enabled

abbrev session_parts : {Time : Type 0} → MatchmakeSession Time → Gathering × OwnFields Time
session_parts v = (v.gathering, own_fields v)

-- The fields of the class itself, behind those of its `Gathering`.
unfoldable pub own_body : {Time : Type 0} → Calendar Time → ℕ → Codec (OwnFields Time)
own_body calendar minor_version =
    u32
    ⊗ list u32
    ⊗ u8
    ⊗ u32
    ⊗ buffer
    ⊗ u32
    ⊗ u8
    ⊗ buffer
    ⊗ u32
    ⊗ matchmake_param calendar minor_version
    ⊗ datetime calendar
    ⊗ string
    ⊗ u32
    ⊗ u8
    ⊗ u8

-- `MatchmakeSession::encode` and `MatchmakeSession::decode`
unfoldable pub matchmake_session :
    {Time : Type 0} → Calendar Time → ℕ → Codec (MatchmakeSession Time)
matchmake_session calendar minor_version =
    class_of (gathering minor_version ⊗ structure minor_version 3 (own_body calendar minor_version))
      new_session session_parts

abbrev pub IsOwn : {Time : Type 0} → Calendar Time → ℕ → MatchmakeSession Time → Type 0
IsOwn calendar minor_version v =
    (v.game_mode < 256 ^ 4)
    ⊠ (All (λ x. (x < 256 ^ 4)) v.attributes × (length v.attributes < 2 ^ 32))
    ⊠ (v.open_participation < 256 ^ 1)
    ⊠ (v.matchmake_system_type < 256 ^ 4)
    ⊠ (length v.app_buffer < 256 ^ 4)
    ⊠ (v.participation_count < 256 ^ 4)
    ⊠ (v.progress_score < 256 ^ 1)
    ⊠ (length v.session_key < 256 ^ 4)
    ⊠ (v.option0 < 256 ^ 4)
    ⊠ (IsMatchmakeParam calendar v.matchmake_param)
    ⊠ (IsWhole calendar v.started_time)
    ⊠ (length v.user_password + 1 < 65536)
    ⊠ (v.refer_gid < 256 ^ 4)
    ⊠ (v.user_password_enabled < 256 ^ 1)
    ⊠ (v.system_password_enabled < 256 ^ 1)

abbrev pub IsMatchmakeSession : {Time : Type 0} → Calendar Time → ℕ → MatchmakeSession Time → Type 0
IsMatchmakeSession calendar minor_version v =
    IsGathering v.gathering
    × (IsOwn calendar minor_version v
        × (length ((own_body calendar minor_version).encode (own_fields v)) < 2 ^ 32))

pub matchmake_session-Reads :
    {Time : Type 0} (calendar : Calendar Time) (minor_version : ℕ)
    → Reads (matchmake_session calendar minor_version) (IsMatchmakeSession calendar minor_version)
unfolding matchmake_session own_body
matchmake_session-Reads calendar minor_version =
    class-Reads new_session session_parts (λ a. refl) (λ b. refl)
      (gathering-Reads minor_version
        also structure-Reads minor_version 3 (
            int-Reads 4
            also list-Reads (int-Reads 4)
            also int-Reads 1
            also int-Reads 4
            also buffer-Reads 4
            also int-Reads 4
            also int-Reads 1
            also buffer-Reads 4
            also int-Reads 4
            also matchmake_param-Reads calendar minor_version
            also datetime-Reads calendar
            also string-Reads
            also int-Reads 4
            also int-Reads 1
            also int-Reads 1))
