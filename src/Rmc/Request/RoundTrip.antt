-- ===== src/Rmc/Request/RoundTrip.antt =====
-- `Request::decode` behind `Request::encode`, of nex/rmc/request.cpp.
use splatit.Base.{
  ℕ, ◌+◌, ◌-◌, ◌%◌, ◌^◌, ◌≤◌, ◌<◌, ◌≡◌, inl, inr, ap, ◌∙◌, arith, Bool, true, false, not, [], ◌∷◌,
  ◌++◌, ◌==◌, ltb, if◌then◌else◌, length, ok, not_complete, malformed, Bool-cases, throw_if-pass,
  ge→ltb,
}
use Prim.Native.Nat.{bit_or}
use splatit.Base.Bits.{bit_or_top}
use splatit.Base.Bytes.{Bytes, at, le16, le32, read32, read16-le16, read32-le32}
use splatit.Rmc.Request.{Request, encode, decode, decode_protocol, decode_ids}

pub record Fits (r : Request) : Type 0 where
  pub protocol_small : r.protocol_id < 128
  pub extended_small : r.extended_protocol_id < 65536
  pub call_small : r.call_id < 2 ^ 32
  pub method_small : r.method_id < 2 ^ 32

decode_ids-le32 :
    (r : Request) (c m : ℕ) (rest : Bytes)
    → c < 2 ^ 32
    → m < 2 ^ 32
    → decode_ids r (le32 c ++ (le32 m ++ rest)) ≡ (record r { call_id = c; method_id = m }, rest)
unfolding decode_ids
decode_ids-le32 r c m rest h k =
    ap (λ (n : ℕ × ℕ). (record r { call_id = n.0; method_id = n.1 }, rest))
      (ap (λ (x : ℕ). (x, read32 (le32 m ++ rest) 0)) (read32-le32 c (le32 m ++ rest) h)
        ∙ ap (λ (x : ℕ). (c, x)) (read32-le32 m rest k))

-- The guards of `decode` on a message with its length in front.
decode-guards :
    (r : Request) (n : ℕ) (body : Bytes)
    → n ≡ length body
    → 9 ≤ n
    → n < 2 ^ 32
    → decode r (le32 n ++ body) ≡ decode_protocol r (le32 n ++ body) n (at body 0 % 128)
unfolding decode
decode-guards r n body h k small =
    let d = le32 n ++ body in
    let seen = read32-le32 n body small in
    throw_if-pass (ltb (length d) 13) not_complete _ (ground arith)
    ∙ (throw_if-pass (not (read32 d 0 == length d - 4)) not_complete _ (rw seen (ground arith))
        ∙ (throw_if-pass (ltb (read32 d 0) 9) malformed _ (rw seen (ground arith))
            ∙ ap (λ (x : ℕ). decode_protocol r d x (at body 0 % 128)) seen))

-- What `decode` leaves in the extended protocol ID.
abbrev pub kept_if : Bool → Request → Request → Request
kept_if b r₀ r = record r {
  extended_protocol_id = if b then r.extended_protocol_id else r₀.extended_protocol_id;
}

abbrev pub kept : Request → Request → Request
kept r₀ r = kept_if (r.protocol_id == 127) r₀ r

abbrev ids : Request → Bytes → Bytes
ids r rest = le32 r.call_id ++ (le32 r.method_id ++ rest)

decode_protocol-plain :
    (r₀ r : Request) (n b : ℕ) (params : Bytes)
    → Fits r
    → (r.protocol_id == 127) ≡ false
    → decode_protocol r₀ (le32 n ++ b ∷ ids r params) n r.protocol_id
      ≡ ok (kept_if false r₀ r, params)
unfolding decode_protocol
decode_protocol-plain r₀ r n b params h k = rw (
  k,
  decode_ids-le32 (record r₀ { protocol_id = r.protocol_id }) r.call_id r.method_id params
      h.call_small h.method_small,
)

decode_protocol-extended :
    (r₀ r : Request) (n b : ℕ) (params : Bytes)
    → Fits r
    → 11 ≤ n
    → (r.protocol_id == 127) ≡ true
    → decode_protocol r₀
        (le32 n ++ b ∷ (le16 r.extended_protocol_id ++ ids r params))
        n
        r.protocol_id
      ≡ ok (kept_if true r₀ r, params)
unfolding decode_protocol
decode_protocol-extended r₀ r n b params h long k = rw (
  k,
  ge→ltb n 11 long,
  read16-le16 r.extended_protocol_id [] h.extended_small,
  decode_ids-le32
      (record r₀ { protocol_id = r.protocol_id; extended_protocol_id = r.extended_protocol_id })
      r.call_id r.method_id params h.call_small h.method_small,
)

protocol_byte : (p : ℕ) → p < 128 → bit_or p 128 % 128 ≡ p
protocol_byte p h = omega (arith, bit_or_top p h, h)

-- A request that is encoded in front of its parameters is read back with them, where they all fit
-- into the length. An extended protocol ID that is not sent keeps its value from before.
pub decode-encode_request :
    (r₀ r : Request) (params : Bytes)
    → Fits r
    → length params + 11 < 2 ^ 32
    → decode r₀ (encode r (length params) ++ params) ≡ ok (kept r₀ r, params)
unfolding encode
decode-encode_request r₀ r params h small = elim (Bool-cases (r.protocol_id == 127)) [
  | inr plain ↦ rw plain (
      let n = (9 + length params) % 2 ^ 32 in
      let b = bit_or r.protocol_id 128 in
      let body = b ∷ ids r params in
      decode-guards r₀ n body (omega (arith, small)) (omega (arith, small)) (omega arith)
      ∙ (ap (decode_protocol r₀ (le32 n ++ body) n) (protocol_byte r.protocol_id h.protocol_small)
          ∙ decode_protocol-plain r₀ r n b params h plain))
  | inl extended ↦ rw extended (
      let n = (11 + length params) % 2 ^ 32 in
      let b = bit_or r.protocol_id 128 in
      let body = b ∷ (le16 r.extended_protocol_id ++ ids r params) in
      decode-guards r₀ n body (omega (arith, small)) (omega (arith, small)) (omega arith)
      ∙ (ap (decode_protocol r₀ (le32 n ++ body) n) (protocol_byte r.protocol_id h.protocol_small)
          ∙ decode_protocol-extended r₀ r n b params h (omega (arith, small)) extended))
]
