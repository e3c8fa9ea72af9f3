-- ===== src/Nex/Matchmake/RoundTrip.antt =====
-- What `MatchmakeSession` of nex/types/splatoonSecure/matchmakeSession.hpp reads back, and
-- `Map<String, Variant>` of its parameters.
use splatit.Base.{ℕ, ◌≡◌, arith, ok, [], ◌∷◌, ◌++◌, length}
use splatit.Base.Bytes.{Bytes}
use splatit.Nex.Values.{Calendar}
use splatit.Nex.Variant.{variant, empty, variant_decode, variant_value}
use splatit.Nex.Text.{string, string_decode}
use splatit.Nex.Containers.{map-forgets, map_decode, decode_entries, map_insert}
use splatit.Nex.Matchmake.{Params, params_map, string_less}
use splatit.Nex.Matchmake.Session.{
  MatchmakeSession, matchmake_session, IsMatchmakeSession, matchmake_session-Reads,
}

-- A session whose fields fit, which has no matchmake parameters and whose start is a whole second,
-- is read back by a new object of the same minor version, whatever bytes follow, and all of its
-- bytes are used.
pub decode-encode_session :
    {Time : Type 0} (calendar : Calendar Time) (minor_version : ℕ) (v : MatchmakeSession Time)
    (rest : Bytes)
    → IsMatchmakeSession calendar minor_version v
    → (matchmake_session calendar minor_version).decode
        (matchmake_session calendar minor_version).blank
        ((matchmake_session calendar minor_version).encode v ++ rest)
      ≡ ok (v, length ((matchmake_session calendar minor_version).encode v))
decode-encode_session calendar minor_version v rest good =
    (matchmake_session-Reads calendar minor_version).back v rest good

-- Whatever entries a map from strings to variants has, what it wrote is read back as a map without
-- entries, of 4 bytes.
pub decode-encode_params_empty :
    {Time : Type 0} (calendar : Calendar Time) (m : Params Time) (rest : Bytes)
    → (params_map calendar).decode
        (params_map calendar).blank
        ((params_map calendar).encode m ++ rest)
      ≡ ok ([], 4)
unfolding params_map
decode-encode_params_empty calendar m rest =
    map-forgets string_less string (variant calendar) [] m rest

-- A map of the length 1 is read as one empty string with an empty variant, whatever follows the
-- four bytes of the length, and the size that is returned is 8, also where less than that is
-- there.
pub decode-params_one :
    {Time : Type 0} (calendar : Calendar Time) (rest : Bytes)
    → (params_map calendar).decode [] (1 ∷ 0 ∷ 0 ∷ 0 ∷ rest) ≡ ok (([], empty) ∷ [], 8)
unfolding params_map map_decode decode_entries string_decode variant_decode variant_value map_insert
decode-params_one calendar rest = ground arith
