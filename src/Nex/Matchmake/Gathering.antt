-- ===== src/Nex/Matchmake/Gathering.antt =====
-- `Gathering` and `MatchmakeParam` of nex/types/splatoonSecure.
use splatit.Base.{ℕ, ◌+◌, ◌^◌, ◌<◌, ◌≡◌, refl, length}
use splatit.Base.Bytes.{Bytes}
use splatit.Nex.{Codec, ◌⊗◌, ◌⊠◌, ◌◂◌, class_of}
use splatit.Nex.Ints.{u16, u32}
use splatit.Nex.Text.{string}
use splatit.Nex.Values.{Calendar}
use splatit.Nex.Structure.{structure}
use splatit.Nex.Laws.{Reads, ◌also◌, class-Reads, structure-Reads, int-Reads, string-Reads}
use splatit.Nex.Matchmake.{Params, params_map, params-Reads}
use splatit.Base.{[]}

pub record Gathering : Type 0 where
  pub id : ℕ
  pub owner_pid : ℕ
  pub host_pid : ℕ
  pub min_participants : ℕ
  pub max_participants : ℕ
  pub participation_policy : ℕ
  pub policy_argument : ℕ
  pub flags : ℕ
  pub state : ℕ
  pub description : Bytes

abbrev GatheringFields : Type 0
GatheringFields = ℕ ⊠ ℕ ⊠ ℕ ⊠ ℕ ⊠ ℕ ⊠ ℕ ⊠ ℕ ⊠ ℕ ⊠ ℕ ⊠ Bytes

abbrev new_gathering : GatheringFields → Gathering
new_gathering f = record {
  id = f.0;
  owner_pid = f.1.0;
  host_pid = f.1.1.0;
  min_participants = f.1.1.1.0;
  max_participants = f.1.1.1.1.0;
  participation_policy = f.1.1.1.1.1.0;
  policy_argument = f.1.1.1.1.1.1.0;
  flags = f.1.1.1.1.1.1.1.0;
  state = f.1.1.1.1.1.1.1.1.0;
  description = f.1.1.1.1.1.1.1.1.1;
}

abbrev gathering_fields : Gathering → GatheringFields
gathering_fields v =
    v.id ◂ v.owner_pid ◂ v.host_pid ◂ v.min_participants ◂ v.max_participants
    ◂ v.participation_policy ◂ v.policy_argument ◂ v.flags ◂ v.state ◂ v.description

unfoldable pub gathering_body : Codec Gathering
gathering_body =
    class_of (u32 ⊗ u32 ⊗ u32 ⊗ u16 ⊗ u16 ⊗ u32 ⊗ u32 ⊗ u32 ⊗ u32 ⊗ string) new_gathering
      gathering_fields

-- `Gathering::encode` and `Gathering::decode`
unfoldable pub gathering : ℕ → Codec Gathering
gathering minor_version = structure minor_version 0 gathering_body

abbrev pub IsGathering : Gathering → Type 0
IsGathering v =
    ((v.id < 256 ^ 4)
      ⊠ (v.owner_pid < 256 ^ 4)
      ⊠ (v.host_pid < 256 ^ 4)
      ⊠ (v.min_participants < 256 ^ 2)
      ⊠ (v.max_participants < 256 ^ 2)
      ⊠ (v.participation_policy < 256 ^ 4)
      ⊠ (v.policy_argument < 256 ^ 4)
      ⊠ (v.flags < 256 ^ 4)
      ⊠ (v.state < 256 ^ 4)
      ⊠ (length v.description + 1 < 65536))
    × (length (gathering_body.encode v) < 2 ^ 32)

pub gathering-Reads : (minor_version : ℕ) → Reads (gathering minor_version) IsGathering
unfolding gathering gathering_body
gathering-Reads minor_version = structure-Reads minor_version 0 (
    class-Reads new_gathering gathering_fields (λ a. refl) (λ b. refl)
      (int-Reads 4
        also int-Reads 4
        also int-Reads 4
        also int-Reads 2
        also int-Reads 2
        also int-Reads 4
        also int-Reads 4
        also int-Reads 4
        also int-Reads 4
        also string-Reads))

pub record MatchmakeParam (Time : Type 0) : Type 0 where
  pub params : Params Time

abbrev new_matchmake_param : {Time : Type 0} → (Params Time) → MatchmakeParam Time
new_matchmake_param f = record { params = f }

abbrev matchmake_param_fields : {Time : Type 0} → MatchmakeParam Time → (Params Time)
matchmake_param_fields v = v.params

unfoldable pub matchmake_param_body : {Time : Type 0} → Calendar Time → Codec (MatchmakeParam Time)
matchmake_param_body calendar =
    class_of (params_map calendar) new_matchmake_param matchmake_param_fields

-- `MatchmakeParam::encode` and `MatchmakeParam::decode`
unfoldable pub matchmake_param : {Time : Type 0} → Calendar Time → ℕ → Codec (MatchmakeParam Time)
matchmake_param calendar minor_version = structure minor_version 0 (matchmake_param_body calendar)

abbrev pub IsMatchmakeParam : {Time : Type 0} → Calendar Time → MatchmakeParam Time → Type 0
IsMatchmakeParam calendar v =
    ((v.params ≡ [])) × (length ((matchmake_param_body calendar).encode v) < 2 ^ 32)

pub matchmake_param-Reads :
    {Time : Type 0}
    → (calendar : Calendar Time) (minor_version : ℕ)
    → Reads (matchmake_param calendar minor_version) (IsMatchmakeParam calendar)
unfolding matchmake_param matchmake_param_body
matchmake_param-Reads calendar minor_version = structure-Reads minor_version 0 (
    class-Reads new_matchmake_param matchmake_param_fields (λ a. refl) (λ b. refl)
      (params-Reads calendar))
