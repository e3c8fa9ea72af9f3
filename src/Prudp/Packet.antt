-- ===== src/Prudp/Packet.antt =====
-- The packet classes of nex/prudp/packet.hpp and what packet.cpp does with the payload of either
-- version. `Packet`, `PacketV0` and `PacketV1` are one record: a server makes and casts packets of
-- one class only, the one that its `majorVersion` names.
use splatit.Base.{
  ℕ, zero, suc, Bool, true, false, Option, none, some, [], if◌then◌else◌, is_empty, length, Result,
  ok, err, runtime,
}
use splatit.Base.Bytes.{Bytes}
use splatit.Crypto.Arc4.{Arc4, init, encrypt, decrypt, advance}

pub data PacketType : Type 0 where
  syn connect data_type disconnect ping : PacketType

abbrev pub type_code : PacketType → ℕ
type_code syn = 0
type_code connect = 1
type_code data_type = 2
type_code disconnect = 3
type_code ping = 4

-- `static_cast<Type>` of a value that has been checked to be at most 4.
abbrev pub type_of_code : ℕ → PacketType
type_of_code zero = syn
type_of_code (suc zero) = connect
type_of_code (suc (suc zero)) = data_type
type_of_code (suc (suc (suc zero))) = disconnect
type_of_code _ = ping

abbrev pub flag_ack : ℕ
flag_ack = 0x01

abbrev pub flag_reliable : ℕ
flag_reliable = 0x02

abbrev pub flag_need_ack : ℕ
flag_need_ack = 0x04

abbrev pub flag_has_size : ℕ
flag_has_size = 0x08

abbrev pub flag_multi_ack : ℕ
flag_multi_ack = 0x200

-- Two streams from one key, one for each direction.
pub record Encoder : Type 0 where
  pub enc_ctx : Arc4
  pub dec_ctx : Arc4

abbrev pub new_encoder : Bytes → Encoder
new_encoder key = record { enc_ctx = init key; dec_ctx = init key }

-- The fields of the three classes. `payload` is the member `data`. The encoder is the state that
-- the shared pointer leads to; whoever uses one writes it back where it came from.
pub record Packet : Type 0 where
  pub type : PacketType
  pub src_stream_type : ℕ
  pub src_port : ℕ
  pub dst_stream_type : ℕ
  pub dst_port : ℕ
  pub flags : ℕ
  pub session_id : ℕ
  pub seq_id : ℕ
  pub fragment_id : ℕ
  pub session_key : Bytes
  pub connection_signature : Bytes
  pub remote_signature : Bytes
  pub access_key : Bytes
  pub encoder : Option Encoder
  pub payload : Bytes
  pub encrypted_data : Bytes
  pub signature : Bytes
  pub friends : Bool
  pub substream_id : ℕ
  pub minor_version : ℕ
  pub supported_functions : ℕ
  pub max_substream_id : ℕ
  pub init_seq_id_unreliable : ℕ
  pub packet_specific_data : Bytes
  pub header : Bytes

-- `std::make_shared<PacketV0>()` and `<PacketV1>()`: the members without an initializer are zero,
-- since the defaulted constructors value-initialize.
abbrev pub new_packet : Packet
new_packet = record {
  type = syn;
  src_stream_type = 10;
  src_port = 0;
  dst_stream_type = 10;
  dst_port = 0;
  flags = 0;
  session_id = 0;
  seq_id = 0;
  fragment_id = 0;
  session_key = [];
  connection_signature = [];
  remote_signature = [];
  access_key = [];
  encoder = none;
  payload = [];
  encrypted_data = [];
  signature = [];
  friends = true;
  substream_id = 0;
  minor_version = 4;
  supported_functions = 0;
  max_substream_id = 0;
  init_seq_id_unreliable = 0;
  packet_specific_data = [];
  header = [];
}

-- `Encoder::encode` and `Encoder::decode`, with the encoder afterwards.
unfoldable pub encoder_encode : Encoder → Bytes → Bytes × Encoder
encoder_encode e xs = (encrypt e.enc_ctx xs, record e { enc_ctx = advance e.enc_ctx xs })

unfoldable pub encoder_decode : Encoder → Bytes → Bytes × Encoder
encoder_decode e xs = (decrypt e.dec_ctx xs, record e { dec_ctx = advance e.dec_ctx xs })

unfoldable pub encrypt_with : Option Encoder → Packet → Packet
unfolding encoder_encode
encrypt_with none p = record p { encrypted_data = p.payload }
encrypt_with (some e) p =
    let (xs, e') = encoder_encode e p.payload in record p { encrypted_data = xs; encoder = some e' }

-- `Packet::encryptData`
unfoldable pub encrypt_data : Packet → Packet
unfolding encrypt_with
encrypt_data p = if is_empty p.encrypted_data then encrypt_with p.encoder p else p

unfoldable pub decrypt_with : Option Encoder → Bool → Packet → Result Packet
unfolding encoder_decode
decrypt_with none false p = err runtime
decrypt_with none true p = ok (record p { payload = p.encrypted_data })
decrypt_with (some e) force p =
    let (xs, e') = encoder_decode e p.encrypted_data in
    ok (record p { payload = xs; encoder = some e' })

-- `Packet::decryptData`
unfoldable pub decrypt_data : Packet → Bool → Result Packet
unfolding decrypt_with
decrypt_data p force = if is_empty p.payload then decrypt_with p.encoder force p else ok p

-- `Packet::size`
unfoldable pub size : Packet → ℕ
size p = if is_empty p.payload then length p.encrypted_data else length p.payload
