-- ===== src/Prudp/V1.antt =====
-- PacketV1 of nex/prudp/packet.cpp: `encode`, `decode` with its option loop, and the signature.
pub mod Consumed
pub mod Options
use Prim.Native.Nat.{bit_or}
use splatit.Base.{
  ℕ, zero, suc, ◌+◌, ◌-◌, ◌*◌, ◌/◌, ◌%◌, ◌^◌, Bool, true, false, ◌&&◌, ◌||◌, not, List, [], ◌∷◌,
  ◌++◌, if◌then◌else◌, ◌==◌, ltb, is_empty, length, take, drop, replicate, Result, ok, err, ◌>>=◌,
  ◌>>◌, throw_if, malformed, runtime,
}
use splatit.Base.Bytes.{Bytes, at, slice, le16, le32, read16, read32, bytes_eq, sum_bytes}
use splatit.Crypto.{Digest}
use splatit.Prudp.Packet.{
  PacketType, syn, connect, data_type, disconnect, ping, Packet, type_code, type_of_code,
  encrypt_data,
}
use splatit.Prudp.V0.{pack_port, flags_and_type, prepare}

-- Option 0: minor version and supported functions in one word.
abbrev pub functions_field : Packet → ℕ
functions_field p = p.supported_functions * 256 % 2 ^ 32 + p.minor_version

abbrev pub signature_option : Bytes → Bytes
signature_option s = 1 ∷ (if is_empty s then 16 ∷ replicate 16 0 else length s % 256 ∷ s)

-- Option 3, in a CONNECT packet only.
abbrev pub init_option : PacketType → Packet → Bytes
init_option connect p = 3 ∷ 2 ∷ le16 p.init_seq_id_unreliable
init_option _ p = []

abbrev pub opening_options : Packet → Bytes
opening_options p =
    0
    ∷ 4
    ∷ (le32 (functions_field p)
        ++ (signature_option p.connection_signature
            ++ (init_option p.type p ++ 4 ∷ 1 ∷ p.max_substream_id ∷ [])))

-- The packet-specific data; a signature of another length than 16 is refused.
abbrev pub specific : PacketType → Packet → Result Bytes
specific syn p = do
  throw_if (not (length p.connection_signature == 16) && not (is_empty p.connection_signature))
      runtime
  ok (opening_options p)
specific connect p = do
  throw_if (not (length p.connection_signature == 16) && not (is_empty p.connection_signature))
      runtime
  ok (opening_options p)
specific data_type p = ok (2 ∷ 1 ∷ p.fragment_id ∷ [])
specific _ p = ok []

module _ (digest : Digest) where
  open digest use {md5, hmac_md5}

  -- `PacketV1::calculateSignature`
  unfoldable pub calculate_signature : Packet → Bytes → Bytes → Bytes → Bytes
  unfolding sum_bytes
  calculate_signature p packet remote specific_data = hmac_md5 (md5 p.access_key) (
      slice packet 6 8
      ++ (p.session_key
          ++ (le32 (sum_bytes p.access_key % 2 ^ 32)
              ++ (remote ++ (specific_data ++ p.encrypted_data)))))

  -- Magic number and header: 14 bytes.
  abbrev pub header_of : Packet → Bytes
  header_of p =
      0xEA
      ∷ 0xD0
      ∷ 0x01
      ∷ length p.packet_specific_data % 256
      ∷ length p.encrypted_data % 65536 % 256
      ∷ length p.encrypted_data % 65536 / 256 % 256
      ∷ pack_port p.src_port p.src_stream_type
      ∷ pack_port p.dst_port p.dst_stream_type
      ∷ flags_and_type p % 256
      ∷ flags_and_type p / 256 % 256
      ∷ p.session_id
      ∷ p.substream_id
      ∷ le16 p.seq_id

  -- `PacketV1::encode`, with the packet afterwards.
  unfoldable pub encode : Packet → Result (Bytes × Packet)
  unfolding calculate_signature encrypt_data
  encode p = do
    options ← specific p.type p
    let q = prepare (record p { packet_specific_data = options })
    ok (
      header_of q
          ++ (calculate_signature q (header_of q) q.remote_signature options
              ++ (options ++ q.encrypted_data)),
      q,
    )

  -- `PacketV1::checkSignature`
  unfoldable pub check_signature : Packet → Bool
  unfolding calculate_signature bytes_eq
  check_signature p =
      bytes_eq p.signature
        (calculate_signature p p.header p.connection_signature p.packet_specific_data)

abbrev pub is_opening : PacketType → Bool
is_opening syn = true
is_opening connect = true
is_opening _ = false

abbrev is_data : PacketType → Bool
is_data data_type = true
is_data _ = false

abbrev is_connect : PacketType → Bool
is_connect connect = true
is_connect _ = false

-- The `switch` on the option's ID; `v` is the data from the option's value on.
unfoldable pub option_value : Packet → ℕ → ℕ → Bytes → Result Packet
option_value p zero len v = do
  throw_if (not (len == 4)) malformed
  throw_if (not (is_opening p.type)) malformed
  let field = read32 v 0
  ok (record p { supported_functions = field / 256; minor_version = field % 256 })
option_value p (suc zero) len v = do
  throw_if (not (len == 16)) malformed
  throw_if (not (is_opening p.type)) malformed
  ok (record p { remote_signature = take len v })
option_value p (suc (suc zero)) len v = do
  throw_if (not (len == 1)) malformed
  throw_if (not (is_data p.type)) malformed
  ok (record p { fragment_id = at v 0 })
option_value p (suc (suc (suc zero))) len v = do
  throw_if (not (len == 2)) malformed
  throw_if (not (is_connect p.type)) malformed
  ok (record p { init_seq_id_unreliable = read16 v 0 })
option_value p (suc (suc (suc (suc zero)))) len v = do
  throw_if (not (len == 1)) malformed
  throw_if (not (is_opening p.type)) malformed
  ok (record p { max_substream_id = at v 0 })
option_value p _ len v = err malformed

-- The loop over the options, on the data from `offset` on. After a lone ID the code reads the length
-- one byte past the end of the vector; whatever it reads, the offset is then past the end and the
-- next test throws. Each round takes two bytes at least, so the length of the data is fuel enough.
unfoldable pub options : ℕ → Bytes → Packet → Result Packet
unfolding option_value
options zero v p = ok p
options (suc fuel) [] p = ok p
options (suc fuel) (id ∷ []) p = err malformed
options (suc fuel) (id ∷ len ∷ v) p = do
  throw_if (ltb (length v) len) malformed
  q ← option_value p id len v
  options fuel (drop len v) q

-- The header's fields and the three slices.
unfoldable pub decode_header : Bytes → Packet → Result Packet
decode_header d p = do
  throw_if (ltb (length d) 30) runtime
  throw_if (not (at d 0 == 0xEA) || not (at d 1 == 0xD0)) runtime
  throw_if (not (at d 2 == 0x01)) runtime
  throw_if (ltb (length d) (30 + at d 3 + read16 d 4)) runtime
  let field = read16 d 8
  throw_if (ltb 4 (field % 16)) malformed
  ok (record p {
    src_port = at d 6 % 16;
    src_stream_type = at d 6 / 16;
    dst_port = at d 7 % 16;
    dst_stream_type = at d 7 / 16;
    flags = field / 16;
    type = type_of_code (field % 16);
    session_id = at d 10;
    substream_id = at d 11;
    seq_id = read16 d 12;
    encrypted_data = slice d (30 + at d 3) (read16 d 4);
    signature = slice d 14 16;
    packet_specific_data = slice d 30 (at d 3);
    header = take 14 d;
  })

-- `PacketV1::decode`
unfoldable pub decode : Bytes → Packet → Result (ℕ × Packet)
unfolding decode_header options
decode d p = do
  q ← decode_header d p
  r ← options (length q.packet_specific_data) q.packet_specific_data q
  ok (30 + at d 3 + read16 d 4, r)
