-- ===== src/Prudp/V0.antt =====
-- PacketV0 of nex/prudp/packet.cpp: `encode`, `decode`, the checksum and the signature.
pub mod Stages
pub mod RoundTrip
pub mod Resend
pub mod Consumed
use Prim.Native.Nat.{bit_or}
use splatit.Base.{
  ℕ, zero, suc, ◌+◌, ◌-◌, ◌*◌, ◌/◌, ◌%◌, ◌^◌, Bool, true, false, ◌&&◌, ◌||◌, not, List, [], ◌∷◌,
  ◌++◌, if◌then◌else◌, ◌==◌, ltb, leb, is_empty, length, take, replicate, Result, ok, err, ◌>>=◌,
  ◌>>◌, throw_if, malformed,
}
use splatit.Base.Bits.{has_flag}
use splatit.Base.Bytes.{Bytes, at, slice, le16, le32, read16, bytes_eq, sum_bytes}
use splatit.Crypto.{Digest}
use splatit.Prudp.Packet.{
  PacketType, syn, connect, data_type, disconnect, ping, Packet, type_code, type_of_code,
  flag_has_size, encrypt_data,
}

-- `srcPort | srcStreamType << 4`, pushed as one byte.
abbrev pub pack_port : ℕ → ℕ → ℕ
pack_port port stream = bit_or port (stream * 16) % 256

-- `static_cast<uint16_t>(type) | (flags << 4)` in an uint16_t; a type is below 16.
abbrev pub flags_and_type : Packet → ℕ
flags_and_type p = (type_code p.type + p.flags * 16) % 65536

-- The sum of the little-endian words of `data`, and the one to three bytes behind the last word.
pub word_sum : Bytes → ℕ
word_sum (a ∷ b ∷ c ∷ d ∷ rest) = a + b * 256 + c * 65536 + d * 16777216 + word_sum rest
word_sum _ = 0

pub tail_bytes : Bytes → Bytes
tail_bytes (a ∷ b ∷ c ∷ d ∷ rest) = tail_bytes rest
tail_bytes short = short

-- `PacketV0::calculateChecksum`
unfoldable pub calculate_checksum : Bytes → Bytes → ℕ
unfolding word_sum tail_bytes sum_bytes
calculate_checksum d key =
    let sum32 = word_sum d % 2 ^ 64 % 2 ^ 32 in
    (sum_bytes key + sum_bytes (tail_bytes d) + sum_bytes (le32 sum32)) % 2 ^ 64 % 256

-- The packet-specific bytes.
abbrev pub specific : PacketType → Packet → Bytes
specific syn p = p.connection_signature
specific connect p = p.connection_signature
specific data_type p = p.fragment_id ∷ []
specific _ p = []

-- The size, where the flag asks for it.
abbrev pub size_field : Packet → Bytes
size_field p = if has_flag p.flags flag_has_size then le16 (length p.encrypted_data % 65536) else []

abbrev pub or_zeros : Bytes → Bytes
or_zeros s = if is_empty s then replicate 4 0 else s

-- `{hmac[0], hmac[1], hmac[2], hmac[3]}`
abbrev pub first_four : Bytes → Bytes
first_four h = at h 0 ∷ at h 1 ∷ at h 2 ∷ at h 3 ∷ []

abbrev pub signed_content : Packet → Bytes
signed_content p = p.session_key ++ le16 p.seq_id ++ p.fragment_id ∷ p.encrypted_data

-- `if (!data.empty()) encryptData();`
abbrev pub prepare : Packet → Packet
prepare p = if is_empty p.payload then p else encrypt_data p

module _ (digest : Digest) where
  open digest use {md5, hmac_md5}

  -- The friends server's signature.
  pub friends_signature : Packet → Bytes → Bytes
  friends_signature p remote = elim p.type [
    | data_type ↦
        if is_empty p.encrypted_data
        then 0x78 ∷ 0x56 ∷ 0x34 ∷ 0x12 ∷ []
        else first_four (hmac_md5 (md5 p.access_key) p.encrypted_data)
    | _ ↦ remote
  ]

  -- The signature that games with V0 packets use.
  pub game_signature : Packet → Bytes → Bytes
  game_signature p remote = elim p.type [
    | data_type ↦ first_four (hmac_md5 (md5 p.access_key) (signed_content p))
    | disconnect ↦ first_four (hmac_md5 (md5 p.access_key) (signed_content p))
    | _ ↦ remote
  ]

  -- `PacketV0::calculateSignature`
  unfoldable pub calculate_signature : Packet → Bytes → Bytes
  unfolding friends_signature game_signature
  calculate_signature p remote =
      if p.friends then friends_signature p remote else game_signature p remote

  -- All that `encode` writes but the checksum, for a packet whose payload is encrypted.
  unfoldable pub body : Packet → Bytes
  unfolding calculate_signature
  body p =
      pack_port p.src_port p.src_stream_type
      ∷ pack_port p.dst_port p.dst_stream_type
      ∷ flags_and_type p % 256
      ∷ flags_and_type p / 256 % 256
      ∷ p.session_id
      ∷ (calculate_signature p (or_zeros p.remote_signature)
          ++ (le16 p.seq_id ++ (specific p.type p ++ (size_field p ++ p.encrypted_data))))

  -- `PacketV0::encode`, with the packet afterwards.
  unfoldable pub encode : Packet → Bytes × Packet
  unfolding body encrypt_data calculate_checksum
  encode p = let q = prepare p in (body q ++ calculate_checksum (body q) q.access_key ∷ [], q)

  -- `PacketV0::checkSignature`
  unfoldable pub check_signature : Packet → Bool
  unfolding calculate_signature bytes_eq
  check_signature p = bytes_eq (calculate_signature p (or_zeros p.connection_signature)) p.signature

-- The header, up to the sequence ID. The packet has at least 12 bytes.
unfoldable pub decode_header : Bytes → Packet → Result Packet
decode_header d p = do
  let field = read16 d 2
  throw_if (ltb 4 (field % 16)) malformed
  ok (record p {
    src_port = at d 0 % 16;
    src_stream_type = at d 0 / 16;
    dst_port = at d 1 % 16;
    dst_stream_type = at d 1 / 16;
    flags = field / 16;
    type = type_of_code (field % 16);
    session_id = at d 4;
    signature = slice d 5 4;
    seq_id = read16 d 9;
  })

-- The packet-specific bytes: the offset behind them and the packet.
unfoldable pub decode_specific : Bytes → Packet → PacketType → Result (ℕ × Packet)
decode_specific d p syn = do
  throw_if (ltb (length d) 15) malformed
  ok (15, record p { remote_signature = slice d 11 4 })
decode_specific d p connect = do
  throw_if (ltb (length d) 15) malformed
  ok (15, record p { remote_signature = slice d 11 4 })
decode_specific d p data_type = do
  throw_if (ltb (length d) 13) malformed
  ok (12, record p { fragment_id = at d 11 })
decode_specific d p _ = ok (11, p)

-- The size and the payload. `data.size() - 1` leaves the checksum out.
decode_sized : Bytes → ℕ → Packet → Result (ℕ × Packet)
decode_sized d offset p = do
  throw_if (ltb (length d - 1) (offset + 2)) malformed
  let size = read16 d offset
  throw_if (not (length d - (offset + 2) - 1 == size)) malformed
  ok (
    offset + 2 + size,
    if ltb 0 size then record p { encrypted_data = slice d (offset + 2) size } else p,
  )

decode_rest : Bytes → ℕ → Packet → Result (ℕ × Packet)
decode_rest d offset p =
    if ltb offset (length d - 1)
    then ok (
      offset + length (slice d offset (length d - 1 - offset)),
      record p { encrypted_data = slice d offset (length d - 1 - offset) },
    )
    else ok (offset, p)

unfoldable pub decode_payload : Bytes → ℕ → Packet → Result (ℕ × Packet)
unfolding decode_sized decode_rest
decode_payload d offset p =
    if has_flag p.flags flag_has_size then decode_sized d offset p else decode_rest d offset p

-- `PacketV0::decode`: the number of bytes taken, and the packet. `at d (length d - 1)` is `back()`.
unfoldable pub decode : Bytes → Packet → Result (ℕ × Packet)
unfolding decode_header decode_specific decode_payload calculate_checksum
decode d p = do
  throw_if (ltb (length d) 12) malformed
  q ← decode_header d p
  (offset, r) ← decode_specific d q q.type
  (end, s) ← decode_payload d offset r
  throw_if (not (at d (length d - 1) == calculate_checksum (take end d) s.access_key)) malformed
  ok (end + 1, s)
