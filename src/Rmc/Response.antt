-- ===== src/Rmc/Response.antt =====
-- nex/rmc/response.cpp
pub mod RoundTrip
use splatit.Base.{
  ℕ, zero, suc, ◌+◌, ◌-◌, ◌/◌, ◌%◌, ◌^◌, Bool, true, false, not, List, [], ◌∷◌, ◌++◌, ◌==◌, ltb,
  if◌then◌else◌, length, drop, Result, ok, err, ◌>>=◌, ◌>>◌, throw_if, not_complete, malformed,
}
use Prim.Native.Nat.{bit_or}
use splatit.Base.Bytes.{Bytes, at, le16, le32, read16, read32}

-- `error` is the value of the enumeration `Error`.
pub record Response : Type 0 where
  pub protocol_id : ℕ
  pub extended_protocol_id : ℕ
  pub success : Bool
  pub call_id : ℕ
  pub method_id : ℕ
  pub error : ℕ

abbrev pub extended_part : Response → Bytes
extended_part r = if r.protocol_id == 127 then le16 r.extended_protocol_id else []

abbrev pub outcome_part : Response → Bytes
outcome_part r =
    if r.success
    then 1 ∷ (le32 r.call_id ++ le32 (bit_or r.method_id 0x8000))
    else 0 ∷ (le32 (bit_or r.error 0x80000000) ++ le32 r.call_id)

-- What stands behind the length.
abbrev pub fields : Response → Bytes
fields r = r.protocol_id ∷ (extended_part r ++ outcome_part r)

-- `Response::encode`, for parameters of `param_length` bytes.
unfoldable pub encode : Response → ℕ → Bytes
encode r param_length = le32 ((length (fields r) + param_length) % 2 ^ 32) ++ fields r

unfoldable pub decode_outcome : Response → Bytes → Response × Bytes
decode_outcome r d = (
  if at d 0 == 1
      then record r { success = true; call_id = read32 d 1; method_id = read32 d 5 % 0x8000 }
      else record r { success = false; error = read32 d 1; call_id = read32 d 5 },
  drop 9 d,
)

unfoldable pub decode_protocol : Response → Bytes → ℕ → ℕ → Result (Response × Bytes)
unfolding decode_outcome
decode_protocol r d n id =
    if id == 127
    then throw_if (ltb n 12) malformed
      >> ok (
          decode_outcome (record r { protocol_id = id; extended_protocol_id = read16 d 5 })
            (drop 7 d))
    else ok (decode_outcome (record r { protocol_id = id }) (drop 5 d))

-- `Response::decode`, with the parameters that are left.
unfoldable pub decode : Response → Bytes → Result (Response × Bytes)
unfolding decode_protocol
decode r d =
    throw_if (ltb (length d) 14) not_complete
    >> (throw_if (not (read32 d 0 == length d - 4)) not_complete
        >> (throw_if (ltb (read32 d 0) 10) malformed >> decode_protocol r d (read32 d 0) (at d 4)))
