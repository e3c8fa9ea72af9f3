-- ===== src/Nex/Matchmake/Params.antt =====
-- What a client sends to make or join a session, of nex/types/splatoonSecure.
use splatit.Base.{ℕ, ◌+◌, ◌^◌, ◌<◌, refl, length, List, All}
use splatit.Base.Bytes.{Bytes}
use splatit.Nex.{Codec, ◌⊗◌, ◌⊠◌, ◌◂◌, class_of}
use splatit.Nex.Ints.{u8, u16, u32}
use splatit.Nex.Text.{string}
use splatit.Nex.Containers.{list}
use splatit.Nex.Values.{Calendar}
use splatit.Nex.Structure.{structure}
use splatit.Nex.Laws.{
  Reads, ◌also◌, class-Reads, structure-Reads, int-Reads, string-Reads, list-Reads,
}
use splatit.Nex.Matchmake.Session.{
  MatchmakeSession, matchmake_session, IsMatchmakeSession, matchmake_session-Reads,
}
use splatit.Nex.Matchmake.Criteria.{
  MatchmakeSessionSearchCriteria, matchmake_session_search_criteria,
  IsMatchmakeSessionSearchCriteria, matchmake_session_search_criteria-Reads,
}

pub record CreateMatchmakeSessionParam (Time : Type 0) : Type 0 where
  pub src_matchmake_session : MatchmakeSession Time
  pub additional_participants : List ℕ
  pub gid_for_participation_check : ℕ
  pub create_matchmake_session_option : ℕ
  pub join_message : Bytes
  pub participation_count : ℕ

abbrev CreateMatchmakeSessionParamFields : Type 0 → Type 0
CreateMatchmakeSessionParamFields Time = (MatchmakeSession Time) ⊠ (List ℕ) ⊠ ℕ ⊠ ℕ ⊠ Bytes ⊠ ℕ

abbrev new_create_matchmake_session_param :
    {Time : Type 0} → CreateMatchmakeSessionParamFields Time → CreateMatchmakeSessionParam Time
new_create_matchmake_session_param f = record {
  src_matchmake_session = f.0;
  additional_participants = f.1.0;
  gid_for_participation_check = f.1.1.0;
  create_matchmake_session_option = f.1.1.1.0;
  join_message = f.1.1.1.1.0;
  participation_count = f.1.1.1.1.1;
}

abbrev create_matchmake_session_param_fields :
    {Time : Type 0} → CreateMatchmakeSessionParam Time → CreateMatchmakeSessionParamFields Time
create_matchmake_session_param_fields v =
    v.src_matchmake_session ◂ v.additional_participants ◂ v.gid_for_participation_check
    ◂ v.create_matchmake_session_option ◂ v.join_message ◂ v.participation_count

unfoldable pub create_matchmake_session_param_body :
    {Time : Type 0} → Calendar Time → ℕ → Codec (CreateMatchmakeSessionParam Time)
create_matchmake_session_param_body calendar minor_version =
    class_of (matchmake_session calendar minor_version ⊗ list u32 ⊗ u32 ⊗ u32 ⊗ string ⊗ u16)
      new_create_matchmake_session_param create_matchmake_session_param_fields

-- `CreateMatchmakeSessionParam::encode` and `CreateMatchmakeSessionParam::decode`
unfoldable pub create_matchmake_session_param :
    {Time : Type 0} → Calendar Time → ℕ → Codec (CreateMatchmakeSessionParam Time)
create_matchmake_session_param calendar minor_version =
    structure minor_version 0 (create_matchmake_session_param_body calendar minor_version)

abbrev pub IsCreateMatchmakeSessionParam :
    {Time : Type 0} → Calendar Time → ℕ → CreateMatchmakeSessionParam Time → Type 0
IsCreateMatchmakeSessionParam calendar minor_version v =
    ((IsMatchmakeSession calendar minor_version v.src_matchmake_session)
      ⊠ (All (λ x. (x < 256 ^ 4)) v.additional_participants
          × (length v.additional_participants < 2 ^ 32))
      ⊠ (v.gid_for_participation_check < 256 ^ 4)
      ⊠ (v.create_matchmake_session_option < 256 ^ 4)
      ⊠ (length v.join_message + 1 < 65536)
      ⊠ (v.participation_count < 256 ^ 2))
    × (length ((create_matchmake_session_param_body calendar minor_version).encode v) < 2 ^ 32)

pub create_matchmake_session_param-Reads :
    {Time : Type 0}
    → (calendar : Calendar Time) (minor_version : ℕ)
    → Reads
        (create_matchmake_session_param calendar minor_version)
        (IsCreateMatchmakeSessionParam calendar minor_version)
unfolding create_matchmake_session_param create_matchmake_session_param_body
create_matchmake_session_param-Reads calendar minor_version = structure-Reads minor_version 0 (
    class-Reads new_create_matchmake_session_param create_matchmake_session_param_fields (λ a. refl)
      (λ b. refl)
      (matchmake_session-Reads calendar minor_version
        also list-Reads (int-Reads 4)
        also int-Reads 4
        also int-Reads 4
        also string-Reads
        also int-Reads 2))

pub record JoinMatchmakeSessionParam : Type 0 where
  pub gid : ℕ
  pub additional_participants : List ℕ
  pub gid_for_participation_check : ℕ
  pub join_matchmake_session_option : ℕ
  pub join_mathcmake_session_behavior : ℕ
  pub user_password : Bytes
  pub system_password : Bytes
  pub join_message : Bytes
  pub participation_count : ℕ

abbrev JoinMatchmakeSessionParamFields : Type 0
JoinMatchmakeSessionParamFields = ℕ ⊠ (List ℕ) ⊠ ℕ ⊠ ℕ ⊠ ℕ ⊠ Bytes ⊠ Bytes ⊠ Bytes ⊠ ℕ

abbrev new_join_matchmake_session_param :
    JoinMatchmakeSessionParamFields → JoinMatchmakeSessionParam
new_join_matchmake_session_param f = record {
  gid = f.0;
  additional_participants = f.1.0;
  gid_for_participation_check = f.1.1.0;
  join_matchmake_session_option = f.1.1.1.0;
  join_mathcmake_session_behavior = f.1.1.1.1.0;
  user_password = f.1.1.1.1.1.0;
  system_password = f.1.1.1.1.1.1.0;
  join_message = f.1.1.1.1.1.1.1.0;
  participation_count = f.1.1.1.1.1.1.1.1;
}

abbrev join_matchmake_session_param_fields :
    JoinMatchmakeSessionParam → JoinMatchmakeSessionParamFields
join_matchmake_session_param_fields v =
    v.gid ◂ v.additional_participants ◂ v.gid_for_participation_check
    ◂ v.join_matchmake_session_option ◂ v.join_mathcmake_session_behavior ◂ v.user_password
    ◂ v.system_password ◂ v.join_message ◂ v.participation_count

unfoldable pub join_matchmake_session_param_body : Codec JoinMatchmakeSessionParam
join_matchmake_session_param_body =
    class_of (u32 ⊗ list u32 ⊗ u32 ⊗ u32 ⊗ u8 ⊗ string ⊗ string ⊗ string ⊗ u16)
      new_join_matchmake_session_param join_matchmake_session_param_fields

-- `JoinMatchmakeSessionParam::encode` and `JoinMatchmakeSessionParam::decode`
unfoldable pub join_matchmake_session_param : ℕ → Codec JoinMatchmakeSessionParam
join_matchmake_session_param minor_version =
    structure minor_version 0 join_matchmake_session_param_body

abbrev pub IsJoinMatchmakeSessionParam : JoinMatchmakeSessionParam → Type 0
IsJoinMatchmakeSessionParam v =
    ((v.gid < 256 ^ 4)
      ⊠ (All (λ x. (x < 256 ^ 4)) v.additional_participants
          × (length v.additional_participants < 2 ^ 32))
      ⊠ (v.gid_for_participation_check < 256 ^ 4)
      ⊠ (v.join_matchmake_session_option < 256 ^ 4)
      ⊠ (v.join_mathcmake_session_behavior < 256 ^ 1)
      ⊠ (length v.user_password + 1 < 65536)
      ⊠ (length v.system_password + 1 < 65536)
      ⊠ (length v.join_message + 1 < 65536)
      ⊠ (v.participation_count < 256 ^ 2))
    × (length (join_matchmake_session_param_body.encode v) < 2 ^ 32)

pub join_matchmake_session_param-Reads :
    (minor_version : ℕ)
    → Reads (join_matchmake_session_param minor_version) IsJoinMatchmakeSessionParam
unfolding join_matchmake_session_param join_matchmake_session_param_body
join_matchmake_session_param-Reads minor_version = structure-Reads minor_version 0 (
    class-Reads new_join_matchmake_session_param join_matchmake_session_param_fields (λ a. refl)
      (λ b. refl)
      (int-Reads 4
        also list-Reads (int-Reads 4)
        also int-Reads 4
        also int-Reads 4
        also int-Reads 1
        also string-Reads
        also string-Reads
        also string-Reads
        also int-Reads 2))

pub record AutoMatchmakeParam (Time : Type 0) : Type 0 where
  pub src_matchmake_session : MatchmakeSession Time
  pub additional_participants : List ℕ
  pub gid_for_paritipation_check : ℕ
  pub auto_matchmake_option : ℕ
  pub join_message : Bytes
  pub participation_count : ℕ
  pub search_criteria : List (MatchmakeSessionSearchCriteria Time)
  pub target_gids : List ℕ

abbrev AutoMatchmakeParamFields : Type 0 → Type 0
AutoMatchmakeParamFields Time =
    (MatchmakeSession Time)
    ⊠ (List ℕ)
    ⊠ ℕ
    ⊠ ℕ
    ⊠ Bytes
    ⊠ ℕ
    ⊠ (List (MatchmakeSessionSearchCriteria Time))
    ⊠ (List ℕ)

abbrev new_auto_matchmake_param :
    {Time : Type 0} → AutoMatchmakeParamFields Time → AutoMatchmakeParam Time
new_auto_matchmake_param f = record {
  src_matchmake_session = f.0;
  additional_participants = f.1.0;
  gid_for_paritipation_check = f.1.1.0;
  auto_matchmake_option = f.1.1.1.0;
  join_message = f.1.1.1.1.0;
  participation_count = f.1.1.1.1.1.0;
  search_criteria = f.1.1.1.1.1.1.0;
  target_gids = f.1.1.1.1.1.1.1;
}

abbrev auto_matchmake_param_fields :
    {Time : Type 0} → AutoMatchmakeParam Time → AutoMatchmakeParamFields Time
auto_matchmake_param_fields v =
    v.src_matchmake_session ◂ v.additional_participants ◂ v.gid_for_paritipation_check
    ◂ v.auto_matchmake_option ◂ v.join_message ◂ v.participation_count ◂ v.search_criteria
    ◂ v.target_gids

unfoldable pub auto_matchmake_param_body :
    {Time : Type 0} → Calendar Time → ℕ → Codec (AutoMatchmakeParam Time)
auto_matchmake_param_body calendar minor_version =
    class_of
      (matchmake_session calendar minor_version
        ⊗ list u32
        ⊗ u32
        ⊗ u32
        ⊗ string
        ⊗ u16
        ⊗ list (matchmake_session_search_criteria calendar minor_version)
        ⊗ list u32)
      new_auto_matchmake_param auto_matchmake_param_fields

-- `AutoMatchmakeParam::encode` and `AutoMatchmakeParam::decode`
unfoldable pub auto_matchmake_param :
    {Time : Type 0} → Calendar Time → ℕ → Codec (AutoMatchmakeParam Time)
auto_matchmake_param calendar minor_version =
    structure minor_version 0 (auto_matchmake_param_body calendar minor_version)

abbrev pub IsAutoMatchmakeParam :
    {Time : Type 0} → Calendar Time → ℕ → AutoMatchmakeParam Time → Type 0
IsAutoMatchmakeParam calendar minor_version v =
    ((IsMatchmakeSession calendar minor_version v.src_matchmake_session)
      ⊠ (All (λ x. (x < 256 ^ 4)) v.additional_participants
          × (length v.additional_participants < 2 ^ 32))
      ⊠ (v.gid_for_paritipation_check < 256 ^ 4)
      ⊠ (v.auto_matchmake_option < 256 ^ 4)
      ⊠ (length v.join_message + 1 < 65536)
      ⊠ (v.participation_count < 256 ^ 2)
      ⊠ (All (λ x. IsMatchmakeSessionSearchCriteria calendar minor_version x) v.search_criteria
          × (length v.search_criteria < 2 ^ 32))
      ⊠ (All (λ x. (x < 256 ^ 4)) v.target_gids × (length v.target_gids < 2 ^ 32)))
    × (length ((auto_matchmake_param_body calendar minor_version).encode v) < 2 ^ 32)

pub auto_matchmake_param-Reads :
    {Time : Type 0}
    → (calendar : Calendar Time) (minor_version : ℕ)
    → Reads
        (auto_matchmake_param calendar minor_version)
        (IsAutoMatchmakeParam calendar minor_version)
unfolding auto_matchmake_param auto_matchmake_param_body
auto_matchmake_param-Reads calendar minor_version = structure-Reads minor_version 0 (
    class-Reads new_auto_matchmake_param auto_matchmake_param_fields (λ a. refl) (λ b. refl)
      (matchmake_session-Reads calendar minor_version
        also list-Reads (int-Reads 4)
        also int-Reads 4
        also int-Reads 4
        also string-Reads
        also int-Reads 2
        also list-Reads (matchmake_session_search_criteria-Reads calendar minor_version)
        also list-Reads (int-Reads 4)))
