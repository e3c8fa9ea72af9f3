-- ===== src/Nex/Matchmake.antt =====
-- The parameters of a matchmake session: `Map<String, Variant>`, of nex/types/common/map.hpp, with
-- the order of `std::string`.
pub mod Gathering
pub mod Session
pub mod Criteria
pub mod Params
pub mod RoundTrip
pub mod Notice
use splatit.Base.{
  ℕ, ◌+◌, ◌≤◌, ◌<◌, ◌≡◌, refl, arith, Bool, true, false, List, [], ◌∷◌, length, ltb, if◌then◌else◌,
  ok, sym, ap, subst,
}
use splatit.Base.Bytes.{Bytes}
use splatit.Nex.{Codec, StaysInside}
use splatit.Nex.Text.{string, string_decode}
use splatit.Nex.Values.{Calendar}
use splatit.Nex.Variant.{Variant, variant, variant_decode, variant_value, empty}
use splatit.Nex.Containers.{
  map_of, map-forgets, map_decode, decode_entries, encode_entries, map_insert,
}
use splatit.Nex.Laws.{Reads}

-- `a < b` on strings.
unfoldable pub string_less : Bytes → Bytes → Bool
string_less a [] = false
string_less [] (y ∷ ys) = true
string_less (x ∷ xs) (y ∷ ys) =
    let rest = string_less xs ys in if ltb x y then true else if ltb y x then false else rest

abbrev pub Params : Type 0 → Type 0
Params Time = List (Bytes × Variant Time)

unfoldable pub params_map : {Time : Type 0} → Calendar Time → Codec (Params Time)
params_map calendar = map_of string_less string (variant calendar)

-- Only the map without entries reads back what it wrote.
pub params-Reads :
    {Time : Type 0} (calendar : Calendar Time) → Reads (params_map calendar) (λ m. m ≡ [])
unfolding params_map encode_entries
params-Reads calendar = record {
  back = λ m rest none. rw none (map-forgets string_less string (variant calendar) [] [] rest);
}
