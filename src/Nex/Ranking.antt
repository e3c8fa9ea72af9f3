-- ===== src/Nex/Ranking.antt =====
-- `ResultRange` of nex/types/common/resultRange.hpp and the competition ranking classes of
-- nex/types/splatoonSecure.
use splatit.Base.{ℕ, ◌^◌, ◌<◌, refl, length, List, All}
use splatit.Base.Bytes.{Bytes}
use splatit.Nex.{Codec, ◌⊗◌, ◌⊠◌, ◌◂◌, class_of}
use splatit.Nex.Ints.{u8, u32}
use splatit.Nex.Text.{q_buffer}
use splatit.Nex.Containers.{list}
use splatit.Nex.Values.{Calendar, IsWhole, datetime}
use splatit.Nex.Structure.{structure}
use splatit.Nex.Laws.{
  Reads, ◌also◌, class-Reads, structure-Reads, int-Reads, buffer-Reads, list-Reads, datetime-Reads,
}

pub record ResultRange : Type 0 where
  pub offset : ℕ
  pub length : ℕ

abbrev new_result_range : ℕ ⊠ ℕ → ResultRange
new_result_range f = record { offset = f.0; length = f.1 }

abbrev result_range_fields : ResultRange → ℕ ⊠ ℕ
result_range_fields v = v.offset ◂ v.length

unfoldable pub result_range_body : Codec ResultRange
result_range_body = class_of (u32 ⊗ u32) new_result_range result_range_fields

-- `ResultRange::encode` and `ResultRange::decode`
unfoldable pub result_range : ℕ → Codec ResultRange
result_range minor_version = structure minor_version 0 result_range_body

abbrev pub IsResultRange : ResultRange → Type 0
IsResultRange v =
    ((v.offset < 256 ^ 4) ⊠ (v.length < 256 ^ 4)) × (length (result_range_body.encode v) < 2 ^ 32)

pub result_range-Reads : (minor_version : ℕ) → Reads (result_range minor_version) IsResultRange
unfolding result_range result_range_body
result_range-Reads minor_version = structure-Reads minor_version 0 (
    class-Reads new_result_range result_range_fields (λ a. refl) (λ b. refl)
      (int-Reads 4 also int-Reads 4))

pub record CompetitionRankingGetParam : Type 0 where
  pub unk1 : ℕ
  pub result_range : ResultRange
  pub festival_ids : List ℕ

abbrev new_competition_ranking_get_param : ℕ ⊠ ResultRange ⊠ (List ℕ) → CompetitionRankingGetParam
new_competition_ranking_get_param f = record {
  unk1 = f.0;
  result_range = f.1.0;
  festival_ids = f.1.1;
}

abbrev competition_ranking_get_param_fields :
    CompetitionRankingGetParam → ℕ ⊠ ResultRange ⊠ (List ℕ)
competition_ranking_get_param_fields v = v.unk1 ◂ v.result_range ◂ v.festival_ids

unfoldable pub competition_ranking_get_param_body : ℕ → Codec CompetitionRankingGetParam
competition_ranking_get_param_body minor_version =
    class_of (u32 ⊗ result_range minor_version ⊗ list u32) new_competition_ranking_get_param
      competition_ranking_get_param_fields

-- `CompetitionRankingGetParam::encode` and `CompetitionRankingGetParam::decode`
unfoldable pub competition_ranking_get_param : ℕ → Codec CompetitionRankingGetParam
competition_ranking_get_param minor_version =
    structure minor_version 1 (competition_ranking_get_param_body minor_version)

abbrev pub IsCompetitionRankingGetParam : ℕ → CompetitionRankingGetParam → Type 0
IsCompetitionRankingGetParam minor_version v =
    ((v.unk1 < 256 ^ 4)
      ⊠ (IsResultRange v.result_range)
      ⊠ (All (λ x. (x < 256 ^ 4)) v.festival_ids × (length v.festival_ids < 2 ^ 32)))
    × (length ((competition_ranking_get_param_body minor_version).encode v) < 2 ^ 32)

pub competition_ranking_get_param-Reads :
    (minor_version : ℕ)
    → Reads
        (competition_ranking_get_param minor_version)
        (IsCompetitionRankingGetParam minor_version)
unfolding competition_ranking_get_param competition_ranking_get_param_body
competition_ranking_get_param-Reads minor_version = structure-Reads minor_version 1 (
    class-Reads new_competition_ranking_get_param competition_ranking_get_param_fields (λ a. refl)
      (λ b. refl) (int-Reads 4 also result_range-Reads minor_version also list-Reads (int-Reads 4)))

pub record CompetitionRankingScoreData (Time : Type 0) : Type 0 where
  pub unk1 : ℕ
  pub user_id : ℕ
  pub score : ℕ
  pub upload_date : Time
  pub unk4 : ℕ
  pub app_data : Bytes

abbrev CompetitionRankingScoreDataFields : Type 0 → Type 0
CompetitionRankingScoreDataFields Time = ℕ ⊠ ℕ ⊠ ℕ ⊠ Time ⊠ ℕ ⊠ Bytes

abbrev new_competition_ranking_score_data :
    {Time : Type 0} → CompetitionRankingScoreDataFields Time → CompetitionRankingScoreData Time
new_competition_ranking_score_data f = record {
  unk1 = f.0;
  user_id = f.1.0;
  score = f.1.1.0;
  upload_date = f.1.1.1.0;
  unk4 = f.1.1.1.1.0;
  app_data = f.1.1.1.1.1;
}

abbrev competition_ranking_score_data_fields :
    {Time : Type 0} → CompetitionRankingScoreData Time → CompetitionRankingScoreDataFields Time
competition_ranking_score_data_fields v =
    v.unk1 ◂ v.user_id ◂ v.score ◂ v.upload_date ◂ v.unk4 ◂ v.app_data

unfoldable pub competition_ranking_score_data_body :
    {Time : Type 0} → Calendar Time → Codec (CompetitionRankingScoreData Time)
competition_ranking_score_data_body calendar =
    class_of (u32 ⊗ u32 ⊗ u32 ⊗ datetime calendar ⊗ u8 ⊗ q_buffer)
      new_competition_ranking_score_data competition_ranking_score_data_fields

-- `CompetitionRankingScoreData::encode` and `CompetitionRankingScoreData::decode`
unfoldable pub competition_ranking_score_data :
    {Time : Type 0} → Calendar Time → ℕ → Codec (CompetitionRankingScoreData Time)
competition_ranking_score_data calendar minor_version =
    structure minor_version 0 (competition_ranking_score_data_body calendar)

abbrev pub IsCompetitionRankingScoreData :
    {Time : Type 0} → Calendar Time → CompetitionRankingScoreData Time → Type 0
IsCompetitionRankingScoreData calendar v =
    ((v.unk1 < 256 ^ 4)
      ⊠ (v.user_id < 256 ^ 4)
      ⊠ (v.score < 256 ^ 4)
      ⊠ (IsWhole calendar v.upload_date)
      ⊠ (v.unk4 < 256 ^ 1)
      ⊠ (length v.app_data < 256 ^ 2))
    × (length ((competition_ranking_score_data_body calendar).encode v) < 2 ^ 32)

pub competition_ranking_score_data-Reads :
    {Time : Type 0}
    → (calendar : Calendar Time) (minor_version : ℕ)
    → Reads
        (competition_ranking_score_data calendar minor_version)
        (IsCompetitionRankingScoreData calendar)
unfolding competition_ranking_score_data competition_ranking_score_data_body
competition_ranking_score_data-Reads calendar minor_version = structure-Reads minor_version 0 (
    class-Reads new_competition_ranking_score_data competition_ranking_score_data_fields (λ a. refl)
      (λ b. refl)
      (int-Reads 4
        also int-Reads 4
        also int-Reads 4
        also datetime-Reads calendar
        also int-Reads 1
        also buffer-Reads 2))

pub record CompetitionRankingUploadScoreParam : Type 0 where
  pub unk1 : ℕ
  pub festival_id : ℕ
  pub unk2 : ℕ
  pub score : ℕ
  pub team_id : ℕ
  pub team_score : ℕ
  pub is_first_upload : ℕ
  pub app_data : Bytes

abbrev CompetitionRankingUploadScoreParamFields : Type 0
CompetitionRankingUploadScoreParamFields = ℕ ⊠ ℕ ⊠ ℕ ⊠ ℕ ⊠ ℕ ⊠ ℕ ⊠ ℕ ⊠ Bytes

abbrev new_competition_ranking_upload_score_param :
    CompetitionRankingUploadScoreParamFields → CompetitionRankingUploadScoreParam
new_competition_ranking_upload_score_param f = record {
  unk1 = f.0;
  festival_id = f.1.0;
  unk2 = f.1.1.0;
  score = f.1.1.1.0;
  team_id = f.1.1.1.1.0;
  team_score = f.1.1.1.1.1.0;
  is_first_upload = f.1.1.1.1.1.1.0;
  app_data = f.1.1.1.1.1.1.1;
}

abbrev competition_ranking_upload_score_param_fields :
    CompetitionRankingUploadScoreParam → CompetitionRankingUploadScoreParamFields
competition_ranking_upload_score_param_fields v =
    v.unk1 ◂ v.festival_id ◂ v.unk2 ◂ v.score ◂ v.team_id ◂ v.team_score ◂ v.is_first_upload
    ◂ v.app_data

unfoldable pub competition_ranking_upload_score_param_body :
    Codec CompetitionRankingUploadScoreParam
competition_ranking_upload_score_param_body =
    class_of (u32 ⊗ u32 ⊗ u32 ⊗ u32 ⊗ u8 ⊗ u32 ⊗ u8 ⊗ q_buffer)
      new_competition_ranking_upload_score_param competition_ranking_upload_score_param_fields

-- `CompetitionRankingUploadScoreParam::encode` and `CompetitionRankingUploadScoreParam::decode`
unfoldable pub competition_ranking_upload_score_param : ℕ → Codec CompetitionRankingUploadScoreParam
competition_ranking_upload_score_param minor_version =
    structure minor_version 0 competition_ranking_upload_score_param_body

abbrev pub IsCompetitionRankingUploadScoreParam : CompetitionRankingUploadScoreParam → Type 0
IsCompetitionRankingUploadScoreParam v =
    ((v.unk1 < 256 ^ 4)
      ⊠ (v.festival_id < 256 ^ 4)
      ⊠ (v.unk2 < 256 ^ 4)
      ⊠ (v.score < 256 ^ 4)
      ⊠ (v.team_id < 256 ^ 1)
      ⊠ (v.team_score < 256 ^ 4)
      ⊠ (v.is_first_upload < 256 ^ 1)
      ⊠ (length v.app_data < 256 ^ 2))
    × (length (competition_ranking_upload_score_param_body.encode v) < 2 ^ 32)

pub competition_ranking_upload_score_param-Reads :
    (minor_version : ℕ)
    → Reads
        (competition_ranking_upload_score_param minor_version)
        IsCompetitionRankingUploadScoreParam
unfolding competition_ranking_upload_score_param competition_ranking_upload_score_param_body
competition_ranking_upload_score_param-Reads minor_version = structure-Reads minor_version 0 (
    class-Reads new_competition_ranking_upload_score_param
      competition_ranking_upload_score_param_fields (λ a. refl) (λ b. refl)
      (int-Reads 4
        also int-Reads 4
        also int-Reads 4
        also int-Reads 4
        also int-Reads 1
        also int-Reads 4
        also int-Reads 1
        also buffer-Reads 2))
