-- ===== src/Prudp/Server/Send.antt =====
-- `sendBytes`, `sendPacket` with its fragments, and `sendDataPacket` of nex/prudp/server.cpp.
pub mod Fragments
pub mod Unremembered
use splatit.Base.{
  ℕ, zero, suc, ◌+◌, ◌-◌, ◌*◌, ◌/◌, ◌%◌, Bool, true, false, not, ◌&&◌, Option, none, some, List, [],
  ◌∷◌, ◌++◌, ◌==◌, ltb, if◌then◌else◌, length, take, drop, is_empty, Result, ok, err,
}
use splatit.Base.Bits.{has_flag}
use splatit.Base.Bytes.{Bytes}
use splatit.Base.Dict.{lookup}
use splatit.Crypto.{Digest}
use splatit.Prudp.Packet.{
  Packet, Encoder, data_type, new_packet, flag_reliable, flag_need_ack, flag_has_size,
}
use splatit.Prudp.V0
use splatit.Prudp.V1
use splatit.Prudp.Server.{
  Ipv4Addr, PrudpAddress, Server, ClientInfo, Substream, DelayedPacket, Config, Event, sent, emit,
  substream, update_substream, update_client, insert_delayed, insert_ordered, address_eq,
  ipv4_addr_eq,
}
use splatit.Prudp.Server.Craft.{calculate_conn_signature}
use splatit.Prudp.Server.Encoders.{get_reliable_encoder, set_reliable_encoder}

-- `std::to_string` of a number with at most `fuel` digits.
abbrev pub decimal : ℕ → ℕ → Bytes
decimal zero n = []
decimal (suc fuel) n =
    let front = decimal fuel (n / 10) in
    if ltb n 10 then (48 + n) ∷ [] else front ++ (48 + n % 10) ∷ []

-- `util::ipv4ToString`
abbrev pub ipv4_to_string : Ipv4Addr → Bytes
ipv4_to_string x =
    decimal 3 x.a ++ b'.' ∷ (decimal 3 x.b ++ b'.' ∷ (decimal 3 x.c ++ b'.' ∷ decimal 3 x.d))

-- "PROXY <address>:<port>|"
abbrev pub proxy_header : Ipv4Addr → Bytes
proxy_header x =
    b'P'
    ∷ b'R'
    ∷ b'O'
    ∷ b'X'
    ∷ b'Y'
    ∷ b' '
    ∷ (ipv4_to_string x ++ b':' ∷ (decimal 5 x.port ++ b'|' ∷ []))

-- What is sent for a destination, straight to it or by its proxy.
abbrev pub datagram : Ipv4Addr → Bytes → Option Ipv4Addr → Event
datagram addr bytes none = sent addr bytes
datagram addr bytes (some proxy) = sent proxy (proxy_header addr ++ bytes)

-- `sendBytes`
unfoldable pub send_bytes : Ipv4Addr → Bytes → Server → Server
send_bytes addr bytes s = emit (datagram addr bytes (lookup addr s.proxy_map)) s

abbrev pub max_packet_size : ℕ
max_packet_size = 962

abbrev pub retry_interval : ℕ
retry_interval = 1000

-- The loop of `sendPacket` that cuts a packet, with the packet that is left at the end. Each round
-- takes bytes away, so the length of the payload is fuel enough.
unfoldable pub fragments : ℕ → ℕ → Packet → List Packet
fragments zero id p = p ∷ []
fragments (suc fuel) id p =
    let rest =
      fragments fuel ((id + 1) % 256)
        (record p { seq_id = (p.seq_id + 1) % 65536; payload = drop max_packet_size p.payload }) in
    if ltb max_packet_size (length p.payload)
    then record p { fragment_id = id; payload = take max_packet_size p.payload } ∷ rest
    else p ∷ []

-- `encode` of the class that the server uses. `PacketV1::encode` throws only for a connection
-- signature of a wrong length, which no packet that the server makes has.
unfoldable pub encode_packet : Digest → Config → Packet → Bytes × Packet
encode_packet digest config p =
    if config.major_version == 0
    then V0.encode digest p
    else elim (V1.encode digest p) [ ok r ↦ r | err e ↦ ([], p) ]

-- The substream that a packet counts on: V0 packets have none.
abbrev pub substream_of : Config → Packet → ℕ
substream_of config p = if config.major_version == 1 then p.substream_id else 0

abbrev add_non_acked : ℕ → ℕ → Substream → Substream
add_non_acked seq_id time u = record u {
  non_acked_packets = insert_ordered seq_id time u.non_acked_packets;
}

-- A reliable packet that wants an acknowledgement is remembered and queued for the next try. The
-- queue holds the packet itself, so what is queued has been encoded.
abbrev pub remember : PrudpAddress → ℕ → Packet → Server → Server
remember addr time f s =
    record (update_client addr
      (update_substream (substream_of s.config f) (add_non_acked f.seq_id time)) s) {
        delayed_packets =
            insert_delayed time (record { addr = addr; num_retries = 0; packet = f })
              s.delayed_packets;
      }

abbrev pub wants_resend_flags : ℕ → Bool
wants_resend_flags flags = has_flag flags flag_need_ack && has_flag flags flag_reliable

abbrev pub wants_resend : Packet → Bool
wants_resend p = wants_resend_flags p.flags

abbrev pub is_some {ℓ} : {A : Type ℓ} → Option A → Bool
is_some none = false
is_some (some a) = true

abbrev pub count_fragments : Bytes → ℕ
count_fragments d = (length d + max_packet_size - 1) / max_packet_size % 65536

abbrev pub advance_seq : ℕ → Substream → Substream
advance_seq n u = record u { seq_id = (u.seq_id + n) % 65536 }

module _ (digest : Digest) where
  -- One round of the second loop of `sendPacket`; `found` says that the client was there.
  unfoldable pub send_fragment : PrudpAddress → Bool → ℕ → Packet → Server → Server × Packet
  unfolding encode_packet send_bytes
  send_fragment addr found now f s =
      let (bytes, g) = encode_packet digest s.config f in
      let t = if wants_resend f && found then remember addr (now + retry_interval) g s else s in
      (send_bytes addr.address bytes t, g)

  -- All fragments share one encoder, so the next one goes on where the last one stopped.
  unfoldable pub send_fragments :
      PrudpAddress → Bool → ℕ → Option Encoder → List Packet → Server → Server × Option Encoder
  unfolding send_fragment
  send_fragments addr found now enc [] s = (s, enc)
  send_fragments addr found now enc (f ∷ fs) s =
      let (t, g) = send_fragment addr found now (record f { encoder = enc }) s in
      send_fragments addr found now g.encoder fs t

  -- `sendPacket`, with the packet's encoder afterwards.
  unfoldable pub send_packet : PrudpAddress → Packet → ℕ → Server → Server × Option Encoder
  unfolding send_fragments fragments
  send_packet addr p now s =
      send_fragments addr (is_some (lookup addr s.clients)) now p.encoder
        (fragments (length p.payload) 1 p) s

  -- The packet of `sendDataPacket`.
  abbrev pub data_packet : Config → PrudpAddress → ClientInfo → Bytes → ℕ → Packet
  data_packet config addr c d id = record new_packet {
    access_key = config.access_key;
    substream_id = if config.major_version == 0 then 0 else id;
    type = data_type;
    src_port = addr.src_v_port;
    src_stream_type = addr.src_stream_type;
    dst_port = addr.v_port;
    dst_stream_type = addr.stream_type;
    flags =
        flag_reliable + flag_need_ack + (if config.major_version == 1 then flag_has_size else 0);
    session_id = c.session_id;
    session_key = c.session_key;
    seq_id = (substream c id).seq_id;
    fragment_id = 0;
    connection_signature = calculate_conn_signature digest config addr.address;
    remote_signature = c.remote_signature;
    encoder = some (get_reliable_encoder c (if config.major_version == 0 then 0 else id));
    payload = d;
  }

  abbrev keep_encoder : ℕ → Option Encoder → ClientInfo → ClientInfo
  keep_encoder id none c = c
  keep_encoder id (some e) c = set_reliable_encoder id e c

  -- `sendDataPacket`
  unfoldable pub send_data_packet : PrudpAddress → Bytes → ℕ → ℕ → Server → Server
  unfolding send_packet calculate_conn_signature get_reliable_encoder set_reliable_encoder
  send_data_packet addr d id now s = elim (lookup addr s.clients) [
    | none ↦ s
    | some c ↦
        let t = update_client addr (update_substream id (advance_seq (count_fragments d))) s in
        let (u, enc) = send_packet addr (data_packet s.config addr c d id) now t in
        update_client addr (keep_encoder (if s.config.major_version == 0 then 0 else id) enc) u
  ]
