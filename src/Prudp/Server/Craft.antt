-- ===== src/Prudp/Server/Craft.antt =====
-- The packets that nex/prudp/server.cpp makes: acknowledgements, pings, aggregate acknowledgements;
-- and the signature of a connection.
use splatit.Base.{
  ℕ, ◌+◌, ◌/◌, ◌%◌, true, List, [], ◌∷◌, ◌==◌, ltb, leb, if◌then◌else◌, take, replicate,
}
use splatit.Base.Bytes.{Bytes}
use splatit.Crypto.{Digest}
use splatit.Prudp.Packet.{
  Packet, PacketType, syn, connect, data_type, ping, new_packet, flag_ack, flag_need_ack,
  flag_has_size, flag_multi_ack,
}
use splatit.Prudp.Server.{Ipv4Addr, PrudpAddress, Config}

module _ (digest : Digest) (config : Config) where
  -- `calculateConnSignature`
  unfoldable pub calculate_conn_signature : Ipv4Addr → Bytes
  calculate_conn_signature addr =
      let signature =
        digest.md5 (addr.a ∷ addr.b ∷ addr.c ∷ addr.d ∷ addr.port % 256 ∷ addr.port / 256 ∷ []) in
      if config.major_version == 0 then take 4 signature else signature

  -- A new packet of the server's version, with the access key.
  abbrev blank : Packet
  blank = record new_packet {
    access_key = config.access_key;
    friends = if config.major_version == 0 then config.friends else true;
  }

  -- What an acknowledgement of a SYN or CONNECT packet says of the server.
  abbrev ack_options : Packet → Packet → Packet
  ack_options req p =
      if config.major_version == 1
      then record p {
        substream_id = req.substream_id;
        minor_version = elim req.type [
          | syn ↦
              if ltb config.minor_version req.minor_version
              then config.minor_version
              else req.minor_version
          | _ ↦ req.minor_version
        ];
        supported_functions = config.supported_functions;
        max_substream_id = config.max_substream_id;
        init_seq_id_unreliable = config.init_seq_id_unreliable;
      }
      else p

  abbrev ack_base : Packet → Packet → Packet
  ack_base req p = record p {
    src_port = req.dst_port;
    src_stream_type = req.dst_stream_type;
    dst_port = req.src_port;
    dst_stream_type = req.src_stream_type;
    type = req.type;
    flags = flag_ack + (if config.minor_version == 1 then flag_has_size else 0);
    seq_id = req.seq_id;
    fragment_id = 0;
  }

  abbrev zero_signature : Bytes
  zero_signature = if config.major_version == 0 then replicate 4 0 else replicate 16 0

  unfoldable pub ack_of_type : PacketType → PrudpAddress → Packet → ℕ → Bytes → Bytes → Packet
  unfolding calculate_conn_signature
  ack_of_type syn addr req session_id remote key = record (ack_base req (ack_options req blank)) {
    session_id = 0;
    connection_signature = calculate_conn_signature addr.address;
  }
  ack_of_type connect addr req session_id remote key =
      record (ack_base req (ack_options req blank)) {
        session_id = session_id;
        connection_signature = zero_signature;
        remote_signature = remote;
      }
  ack_of_type _ addr req session_id remote key = record (ack_base req blank) {
    session_id = session_id;
    session_key = key;
    connection_signature = zero_signature;
    remote_signature = remote;
  }

  -- `craftAck`
  unfoldable pub craft_ack : PrudpAddress → Packet → ℕ → Bytes → Bytes → Packet
  unfolding ack_of_type
  craft_ack addr req session_id remote key = ack_of_type req.type addr req session_id remote key

  abbrev to_client : PrudpAddress → Packet → Packet
  to_client addr p = record p {
    src_port = addr.src_v_port;
    src_stream_type = addr.src_stream_type;
    dst_port = addr.v_port;
    dst_stream_type = addr.stream_type;
    connection_signature = calculate_conn_signature addr.address;
  }

  -- `craftPing`
  unfoldable pub craft_ping : PrudpAddress → ℕ → Bytes → Bytes → Packet
  unfolding calculate_conn_signature
  craft_ping addr session_id remote key = record (to_client addr blank) {
    type = ping;
    flags = if config.major_version == 0 then flag_need_ack else flag_need_ack + flag_has_size;
    session_id = session_id;
    session_key = key;
    seq_id = 1;
    fragment_id = 0;
    remote_signature = remote;
  }

  -- `seqIds.back()`; the callers give a list that is not empty.
  abbrev pub last_seq : List ℕ → ℕ
  last_seq [] = 0
  last_seq (x ∷ []) = x
  last_seq (x ∷ y ∷ ys) = last_seq (y ∷ ys)

  -- `craftAggregateAck`
  unfoldable pub craft_aggregate_ack : PrudpAddress → ℕ → ℕ → ℕ → List ℕ → Bytes → Bytes → Packet
  unfolding calculate_conn_signature
  craft_aggregate_ack addr client_minor session_id substream_id seq_ids remote key =
      record (to_client addr (record new_packet { access_key = config.access_key })) {
        substream_id =
            if leb 2 client_minor then (config.max_substream_id + 1) % 256 else substream_id;
        type = data_type;
        flags = flag_multi_ack + flag_has_size;
        session_id = session_id;
        session_key = key;
        seq_id = if leb 2 client_minor then 0 else last_seq seq_ids;
        fragment_id = 0;
        remote_signature = remote;
        payload =
            if leb 2 client_minor
            then substream_id ∷ 0 ∷ last_seq seq_ids % 256 ∷ last_seq seq_ids / 256 ∷ []
            else [];
      }
