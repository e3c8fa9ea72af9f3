-- ===== src/Rmc/Request.antt =====
-- nex/rmc/request.cpp
pub mod RoundTrip
use splatit.Base.{
  ℕ, zero, suc, ◌+◌, ◌-◌, ◌/◌, ◌%◌, ◌^◌, Bool, not, List, [], ◌∷◌, ◌++◌, ◌==◌, ltb, if◌then◌else◌,
  length, drop, Result, ok, err, ◌>>=◌, ◌>>◌, throw_if, not_complete, malformed,
}
use Prim.Native.Nat.{bit_or}
use splatit.Base.Bytes.{Bytes, at, le16, le32, read16, read32}

pub record Request : Type 0 where
  pub protocol_id : ℕ
  pub extended_protocol_id : ℕ
  pub call_id : ℕ
  pub method_id : ℕ

abbrev pub extended_part : Request → Bytes
extended_part r = if r.protocol_id == 127 then le16 r.extended_protocol_id else []

-- What stands behind the length.
abbrev pub fields : Request → Bytes
fields r = bit_or r.protocol_id 128 ∷ (extended_part r ++ (le32 r.call_id ++ le32 r.method_id))

-- `Request::encode`, for parameters of `param_length` bytes.
unfoldable pub encode : Request → ℕ → Bytes
encode r param_length = le32 ((length (fields r) + param_length) % 2 ^ 32) ++ fields r

-- The IDs behind the protocol's.
unfoldable pub decode_ids : Request → Bytes → Request × Bytes
decode_ids r d = (record r { call_id = read32 d 0; method_id = read32 d 4 }, drop 8 d)

unfoldable pub decode_protocol : Request → Bytes → ℕ → ℕ → Result (Request × Bytes)
unfolding decode_ids
decode_protocol r d n id =
    if id == 127
    then throw_if (ltb n 11) malformed
      >> ok
          (decode_ids (record r { protocol_id = id; extended_protocol_id = read16 d 5 }) (drop 7 d))
    else ok (decode_ids (record r { protocol_id = id }) (drop 5 d))

-- `Request::decode`, with the parameters that are left.
unfoldable pub decode : Request → Bytes → Result (Request × Bytes)
unfolding decode_protocol
decode r d =
    throw_if (ltb (length d) 13) not_complete
    >> (throw_if (not (read32 d 0 == length d - 4)) not_complete
        >> (throw_if (ltb (read32 d 0) 9) malformed
            >> decode_protocol r d (read32 d 0) (at d 4 % 128)))
