-- ===== src/Nex/Matchmake/Criteria.antt =====
-- `MatchmakeSessionSearchCriteria`, of nex/types/splatoonSecure.
use splatit.Base.{ℕ, ◌+◌, ◌^◌, ◌<◌, refl, length, List, All}
use splatit.Base.Bytes.{Bytes}
use splatit.Nex.{Codec, ◌⊗◌, ◌⊠◌, ◌◂◌, class_of}
use splatit.Nex.Ints.{u8, u16, u32}
use splatit.Nex.Text.{string}
use splatit.Nex.Containers.{list}
use splatit.Nex.Values.{Calendar}
use splatit.Nex.Structure.{structure}
use splatit.Nex.Laws.{
  Reads, ◌also◌, class-Reads, structure-Reads, int-Reads, string-Reads, list-Reads,
}
use splatit.Nex.Matchmake.Gathering.{
  MatchmakeParam, matchmake_param, IsMatchmakeParam, matchmake_param-Reads,
}

pub record MatchmakeSessionSearchCriteria (Time : Type 0) : Type 0 where
  pub attributes : List Bytes
  pub game_mode : Bytes
  pub min_participants : Bytes
  pub max_participants : Bytes
  pub matchmake_system_type : Bytes
  pub vacant_only : ℕ
  pub exclude_locked : ℕ
  pub exclude_non_host_pid : ℕ
  pub selection_method : ℕ
  pub vacant_participants : ℕ
  pub matchmake_param : MatchmakeParam Time
  pub exclude_user_password_set : ℕ
  pub exclude_system_password_set : ℕ
  pub refer_gid : ℕ

abbrev MatchmakeSessionSearchCriteriaFields : Type 0 → Type 0
MatchmakeSessionSearchCriteriaFields Time =
    (List Bytes)
    ⊠ Bytes
    ⊠ Bytes
    ⊠ Bytes
    ⊠ Bytes
    ⊠ ℕ
    ⊠ ℕ
    ⊠ ℕ
    ⊠ ℕ
    ⊠ ℕ
    ⊠ (MatchmakeParam Time)
    ⊠ ℕ
    ⊠ ℕ
    ⊠ ℕ

abbrev new_matchmake_session_search_criteria :
    {Time : Type 0}
    → MatchmakeSessionSearchCriteriaFields Time
    → MatchmakeSessionSearchCriteria Time
new_matchmake_session_search_criteria f = record {
  attributes = f.0;
  game_mode = f.1.0;
  min_participants = f.1.1.0;
  max_participants = f.1.1.1.0;
  matchmake_system_type = f.1.1.1.1.0;
  vacant_only = f.1.1.1.1.1.0;
  exclude_locked = f.1.1.1.1.1.1.0;
  exclude_non_host_pid = f.1.1.1.1.1.1.1.0;
  selection_method = f.1.1.1.1.1.1.1.1.0;
  vacant_participants = f.1.1.1.1.1.1.1.1.1.0;
  matchmake_param = f.1.1.1.1.1.1.1.1.1.1.0;
  exclude_user_password_set = f.1.1.1.1.1.1.1.1.1.1.1.0;
  exclude_system_password_set = f.1.1.1.1.1.1.1.1.1.1.1.1.0;
  refer_gid = f.1.1.1.1.1.1.1.1.1.1.1.1.1;
}

abbrev matchmake_session_search_criteria_fields :
    {Time : Type 0}
    → MatchmakeSessionSearchCriteria Time
    → MatchmakeSessionSearchCriteriaFields Time
matchmake_session_search_criteria_fields v =
    v.attributes ◂ v.game_mode ◂ v.min_participants ◂ v.max_participants ◂ v.matchmake_system_type
    ◂ v.vacant_only ◂ v.exclude_locked ◂ v.exclude_non_host_pid ◂ v.selection_method
    ◂ v.vacant_participants ◂ v.matchmake_param ◂ v.exclude_user_password_set
    ◂ v.exclude_system_password_set ◂ v.refer_gid

unfoldable pub matchmake_session_search_criteria_body :
    {Time : Type 0} → Calendar Time → ℕ → Codec (MatchmakeSessionSearchCriteria Time)
matchmake_session_search_criteria_body calendar minor_version =
    class_of
      (list string
        ⊗ string
        ⊗ string
        ⊗ string
        ⊗ string
        ⊗ u8
        ⊗ u8
        ⊗ u8
        ⊗ u32
        ⊗ u16
        ⊗ matchmake_param calendar minor_version
        ⊗ u8
        ⊗ u8
        ⊗ u32)
      new_matchmake_session_search_criteria matchmake_session_search_criteria_fields

-- `MatchmakeSessionSearchCriteria::encode` and `MatchmakeSessionSearchCriteria::decode`
unfoldable pub matchmake_session_search_criteria :
    {Time : Type 0} → Calendar Time → ℕ → Codec (MatchmakeSessionSearchCriteria Time)
matchmake_session_search_criteria calendar minor_version =
    structure minor_version 3 (matchmake_session_search_criteria_body calendar minor_version)

abbrev pub IsMatchmakeSessionSearchCriteria :
    {Time : Type 0} → Calendar Time → ℕ → MatchmakeSessionSearchCriteria Time → Type 0
IsMatchmakeSessionSearchCriteria calendar minor_version v =
    ((All (λ x. (length x + 1 < 65536)) v.attributes × (length v.attributes < 2 ^ 32))
      ⊠ (length v.game_mode + 1 < 65536)
      ⊠ (length v.min_participants + 1 < 65536)
      ⊠ (length v.max_participants + 1 < 65536)
      ⊠ (length v.matchmake_system_type + 1 < 65536)
      ⊠ (v.vacant_only < 256 ^ 1)
      ⊠ (v.exclude_locked < 256 ^ 1)
      ⊠ (v.exclude_non_host_pid < 256 ^ 1)
      ⊠ (v.selection_method < 256 ^ 4)
      ⊠ (v.vacant_participants < 256 ^ 2)
      ⊠ (IsMatchmakeParam calendar v.matchmake_param)
      ⊠ (v.exclude_user_password_set < 256 ^ 1)
      ⊠ (v.exclude_system_password_set < 256 ^ 1)
      ⊠ (v.refer_gid < 256 ^ 4))
    × (length ((matchmake_session_search_criteria_body calendar minor_version).encode v) < 2 ^ 32)

pub matchmake_session_search_criteria-Reads :
    {Time : Type 0}
    → (calendar : Calendar Time) (minor_version : ℕ)
    → Reads
        (matchmake_session_search_criteria calendar minor_version)
        (IsMatchmakeSessionSearchCriteria calendar minor_version)
unfolding matchmake_session_search_criteria matchmake_session_search_criteria_body
matchmake_session_search_criteria-Reads calendar minor_version = structure-Reads minor_version 3 (
    class-Reads new_matchmake_session_search_criteria matchmake_session_search_criteria_fields
      (λ a. refl) (λ b. refl)
      (list-Reads string-Reads
        also string-Reads
        also string-Reads
        also string-Reads
        also string-Reads
        also int-Reads 1
        also int-Reads 1
        also int-Reads 1
        also int-Reads 4
        also int-Reads 2
        also matchmake_param-Reads calendar minor_version
        also int-Reads 1
        also int-Reads 1
        also int-Reads 4))
