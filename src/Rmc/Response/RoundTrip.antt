-- ===== src/Rmc/Response/RoundTrip.antt =====
-- `Response::decode` behind `Response::encode`, of nex/rmc/response.cpp.
use splatit.Base.{
  ℕ, suc, ◌+◌, ◌-◌, ◌%◌, ◌^◌, ◌≤◌, ◌<◌, ◌≡◌, inl, inr, refl, ap, ◌∙◌, arith, Bool, true, false, not,
  [], ◌∷◌, ◌++◌, ◌==◌, ltb, if◌then◌else◌, length, ok, not_complete, malformed, Bool-cases,
  throw_if-pass, ge→ltb,
}
use Prim.Native.Nat.{bit_or}
use splatit.Base.Bits.{bit_or_power}
use splatit.Base.Bytes.{Bytes, at, le16, le32, read32, read16-le16, read32-le32}
use splatit.Rmc.Response.{Response, encode, decode, decode_protocol, decode_outcome}

pub record Fits (r : Response) : Type 0 where
  pub extended_small : r.extended_protocol_id < 65536
  pub call_small : r.call_id < 2 ^ 32
  pub method_small : r.method_id < 2 ^ 15
  pub error_small : r.error < 2 ^ 31

-- What `decode` leaves in a response that was `r₀`: an error has the top bit that `encode` sets.
abbrev pub read_outcome : Bool → Response → Response → Response
read_outcome true r₀ r = record r₀ { success = true; call_id = r.call_id; method_id = r.method_id }
read_outcome false r₀ r = record r₀ {
  success = false;
  error = r.error + 2 ^ 31;
  call_id = r.call_id;
}

abbrev outcome_as : Bool → Response → Bytes
outcome_as b r =
    if b
    then 1 ∷ (le32 r.call_id ++ le32 (bit_or r.method_id 0x8000))
    else 0 ∷ (le32 (bit_or r.error 0x80000000) ++ le32 r.call_id)

decode_outcome-encoded :
    (b : Bool) (r₀ r : Response) (params : Bytes)
    → Fits r
    → decode_outcome r₀ (outcome_as b r ++ params) ≡ (read_outcome b r₀ r, params)
unfolding decode_outcome
decode_outcome-encoded true r₀ r params h =
    rw (bit_or_power 15 r.method_id h.method_small, read32-le32 r.call_id [] h.call_small)
      (ap (λ (m : ℕ). (record r₀ { success = true; call_id = r.call_id; method_id = m }, params))
        (omega (arith, h.method_small)))
decode_outcome-encoded false r₀ r params h =
    rw (bit_or_power 31 r.error h.error_small, read32-le32 r.call_id [] h.call_small)
      (ap (λ (e : ℕ). (record r₀ { success = false; error = e; call_id = r.call_id }, params))
        (omega (arith, h.error_small)))

decode-guards :
    (r : Response) (n : ℕ) (body : Bytes)
    → n ≡ length body
    → 10 ≤ n
    → n < 2 ^ 32
    → decode r (le32 n ++ body) ≡ decode_protocol r (le32 n ++ body) n (at body 0)
unfolding decode
decode-guards r n body h k small =
    let d = le32 n ++ body in
    let seen = read32-le32 n body small in
    throw_if-pass (ltb (length d) 14) not_complete _ (ground arith)
    ∙ (throw_if-pass (not (read32 d 0 == length d - 4)) not_complete _ (rw seen (ground arith))
        ∙ (throw_if-pass (ltb (read32 d 0) 10) malformed _ (rw seen (ground arith))
            ∙ ap (λ (x : ℕ). decode_protocol r d x (at body 0)) seen))

abbrev with_ids : Bool → Response → Response → Response
with_ids b r₀ r = record r₀ {
  protocol_id = r.protocol_id;
  extended_protocol_id = if b then r.extended_protocol_id else r₀.extended_protocol_id;
}

-- What `decode` makes of the response `r` in an object that was `r₀`.
abbrev pub kept : Response → Response → Response
kept r₀ r = read_outcome r.success (with_ids (r.protocol_id == 127) r₀ r) r

decode_protocol-plain :
    (r₀ r : Response) (n : ℕ) (params : Bytes)
    → Fits r
    → (r.protocol_id == 127) ≡ false
    → decode_protocol r₀
        (le32 n ++ r.protocol_id ∷ (outcome_as r.success r ++ params))
        n
        r.protocol_id
      ≡ ok (read_outcome r.success (with_ids false r₀ r) r, params)
unfolding decode_protocol
decode_protocol-plain r₀ r n params h k =
    rw (k, decode_outcome-encoded r.success (with_ids false r₀ r) r params h)

decode_protocol-extended :
    (r₀ r : Response) (n : ℕ) (params : Bytes)
    → Fits r
    → 12 ≤ n
    → (r.protocol_id == 127) ≡ true
    → decode_protocol r₀
        (le32 n
          ++ r.protocol_id ∷ (le16 r.extended_protocol_id ++ (outcome_as r.success r ++ params)))
        n
        r.protocol_id
      ≡ ok (read_outcome r.success (with_ids true r₀ r) r, params)
unfolding decode_protocol
decode_protocol-extended r₀ r n params h long k = rw (
  k,
  ge→ltb n 12 long,
  read16-le16 r.extended_protocol_id [] h.extended_small,
  decode_outcome-encoded r.success (with_ids true r₀ r) r params h,
)

length-outcome :
    (b : Bool) (r : Response) (params : Bytes)
    → (length (outcome_as b r ++ params) ≡ 9 + length params) × (length (outcome_as b r) ≡ 9)
length-outcome true r params = (omega arith, refl)
length-outcome false r params = (omega arith, refl)

-- A response that is encoded in front of its data is read back with it, where they all fit into
-- the length; an error comes back with its top bit set.
pub decode-encode_response :
    (r₀ r : Response) (params : Bytes)
    → Fits r
    → length params + 12 < 2 ^ 32
    → decode r₀ (encode r (length params) ++ params) ≡ ok (kept r₀ r, params)
unfolding encode
decode-encode_response r₀ r params h small =
    let (long, nine) = length-outcome r.success r params in
    elim (Bool-cases (r.protocol_id == 127)) [
      | inr plain ↦ rw plain (
          let n = (suc (length (outcome_as r.success r)) + length params) % 2 ^ 32 in
          let body = r.protocol_id ∷ (outcome_as r.success r ++ params) in
          decode-guards r₀ n body (omega (arith, small, long, nine)) (omega (arith, small, nine))
            (omega arith)
          ∙ decode_protocol-plain r₀ r n params h plain)
      | inl extended ↦ rw extended (
          let n = (suc (suc (suc (length (outcome_as r.success r)))) + length params) % 2 ^ 32 in
          let body =
            r.protocol_id ∷ (le16 r.extended_protocol_id ++ (outcome_as r.success r ++ params)) in
          decode-guards r₀ n body (omega (arith, small, long, nine)) (omega (arith, small, nine))
            (omega arith)
          ∙ decode_protocol-extended r₀ r n params h (omega (arith, small, nine)) extended)
    ]
