-- ===== src/Prudp/Server/Receive.antt =====
-- `processPacket` of nex/prudp/server.cpp, and the loop of `onData` over the packets of a datagram.
pub mod Wrap
use splatit.Base.{
  ℕ, zero, suc, ◌+◌, Bool, true, false, not, ◌&&◌, ◌||◌, Option, none, some, List, [], ◌∷◌, ◌==◌,
  ltb, leb, if◌then◌else◌, length, drop, Result, ok, err, Exception,
}
use splatit.Base.Bits.{has_flag}
use splatit.Base.Bytes.{Bytes}
use splatit.Base.Dict.{lookup}
use splatit.Prudp.Packet.{
  Packet, PacketType, syn, connect, new_packet, flag_ack, flag_reliable, flag_multi_ack,
  decrypt_data,
}
use splatit.Prudp.V0
use splatit.Prudp.V1
use splatit.Prudp.Server.{
  Ipv4Addr, PrudpAddress, Server, ClientInfo, Substream, Config, Env, substream, update_substream,
  update_client, insert_packet, address_eq,
}
use splatit.Prudp.Server.Clients.{close_client_connection, reset_ping_task}
use splatit.Prudp.Server.Craft.{craft_ack, calculate_conn_signature}
use splatit.Prudp.Server.Encoders.{get_unreliable_encoder}
use splatit.Prudp.Server.Send.{send_packet, substream_of}
use splatit.Prudp.Server.Handle.{handle_packet, Outcome}
use splatit.Prudp.Server.Queue.{Ending, returned, thrown, null_pointer, process_packet_queue}

abbrev pub max_packet_queue_size : ℕ
max_packet_queue_size = 100

abbrev pub address_of : Ipv4Addr → Packet → PrudpAddress
address_of addr p = record {
  address = addr;
  v_port = p.src_port;
  stream_type = p.src_stream_type;
  src_v_port = p.dst_port;
  src_stream_type = p.dst_stream_type;
}

abbrev pub is_syn : PacketType → Bool
is_syn syn = true
is_syn _ = false

abbrev pub is_opening : PacketType → Bool
is_opening syn = true
is_opening connect = true
is_opening _ = false

-- `checkSignature` of the class that the server uses.
unfoldable pub check_signature : Env → Config → Packet → Bool
check_signature env config p =
    if config.major_version == 0
    then V0.check_signature env.digest p
    else V1.check_signature env.digest p

-- The signatures and the key that the packet is checked with.
abbrev pub with_session : Env → Config → PrudpAddress → Option ClientInfo → Packet → Packet
with_session env config addr found p₀ =
    let p = if is_syn p₀.type then p₀ else record p₀ {
      connection_signature = calculate_conn_signature env.digest config addr.address;
    } in
    if is_opening p.type then p else elim found [
      | none ↦ p
      | some c ↦ record p { remote_signature = c.remote_signature; session_key = c.session_key }
    ]

-- The test of the substream ID of a V1 packet.
abbrev pub substream_refused : Config → Packet → Bool
substream_refused config p =
    config.major_version == 1
    && (if has_flag p.flags flag_multi_ack
        then not (p.substream_id == config.max_substream_id + 1)
        else ltb config.max_substream_id p.substream_id)

-- `resetPingTask` behind a call that returned.
unfoldable pub reset_ping : PrudpAddress → ℕ → Server → Ending
unfolding reset_ping_task
reset_ping addr now s = elim (reset_ping_task s addr now) [
  | none ↦ null_pointer s
  | some t ↦ returned t
]

abbrev pub enqueue : Packet → Substream → Substream
enqueue p u = record u { packet_queue = insert_packet p u.packet_queue }

module _ (env : Env) where
  abbrev of_outcome : (Server → Ending) → Outcome → Ending
  of_outcome k (s, ok b) = k s
  of_outcome k (s, err e) = thrown s e

  abbrev pub then_do : (Server → Ending) → Ending → Ending
  then_do k (returned s) = k s
  then_do k (thrown s e) = thrown s e
  then_do k (null_pointer s) = null_pointer s

  -- A packet without `FLAG_RELIABLE`, from a client.
  unfoldable pub receive_unreliable : PrudpAddress → Packet → ℕ → Server → ClientInfo → Ending
  unfolding reset_ping get_unreliable_encoder decrypt_data handle_packet
  receive_unreliable addr p now s c =
      if not (p.fragment_id == 0) && not (has_flag p.flags flag_ack)
      then returned s
      else (let multi = has_flag p.flags flag_multi_ack in
          let q =
            if multi
            then p
            else record p { encoder = some (get_unreliable_encoder env.digest c p) } in
          elim (decrypt_data q multi) [
            | err e ↦ thrown s e
            | ok r ↦ of_outcome (reset_ping addr now) (handle_packet env s addr r now)
          ])

  -- A packet with `FLAG_RELIABLE`, from a client.
  unfoldable pub receive_reliable : PrudpAddress → Packet → ℕ → Server → ClientInfo → Ending
  unfolding reset_ping process_packet_queue
  receive_reliable addr p now s c =
      let id = substream_of s.config p in
      if ltb max_packet_queue_size (length (substream c id).packet_queue)
      then returned (close_client_connection s addr)
      else if leb p.seq_id (substream c id).recv_seq_id
      then reset_ping addr now
          (send_packet env.digest addr
            (craft_ack env.digest s.config addr p c.session_id c.remote_signature c.session_key) now
            s).0
      else then_do (reset_ping addr now) (
          process_packet_queue env addr id now
            (update_client addr (update_substream id (enqueue p)) s))

  receive_known : PrudpAddress → Packet → ℕ → Server → Option ClientInfo → Ending
  unfolding receive_unreliable receive_reliable
  receive_known addr p now s none = returned s
  receive_known addr p now s (some c) =
      if substream_refused s.config p
      then returned s
      else if has_flag p.flags flag_reliable
      then receive_reliable addr p now s c
      else receive_unreliable addr p now s c

  -- `processPacket`
  unfoldable pub process_packet : Ipv4Addr → Packet → ℕ → Server → Ending
  unfolding receive_known check_signature handle_packet
  process_packet ip p₀ now s =
      let addr = address_of ip p₀ in
      let found = lookup addr s.clients in
      let p = with_session env s.config addr found p₀ in
      if not (check_signature env s.config p)
      then returned s
      else if is_opening p.type
      then of_outcome returned (handle_packet env s addr p now)
      else receive_known addr p now s found

  -- The packet that `decode` fills in, and what it gives.
  unfoldable pub decode_packet : Config → Bytes → Result (ℕ × Packet)
  decode_packet config d =
      if config.major_version == 0
      then V0.decode d
          (record new_packet { access_key = config.access_key; friends = config.friends })
      else V1.decode d (record new_packet { access_key = config.access_key })

  -- How the loop over a datagram ends; `overrun` is the erasure of bytes that are not there.
  pub data DatagramEnd : Type 0 where
    finished aborted null overrun : DatagramEnd

  -- The loop of `onData`, on a datagram without a proxy's header. Every packet takes bytes away, so
  -- the length of the datagram is fuel enough.
  unfoldable pub receive_loop : ℕ → Ipv4Addr → ℕ → Bytes → Server → Server × DatagramEnd
  unfolding decode_packet process_packet
  receive_loop fuel ip now [] s = (s, finished)
  receive_loop zero ip now (b ∷ d) s = (s, aborted)
  receive_loop (suc fuel) ip now (b ∷ d) s = elim (decode_packet s.config (b ∷ d)) [
    | err e ↦ (s, aborted)
    | ok (n, p) ↦ elim (process_packet ip p now s) [
      | null_pointer t ↦ (t, null)
      | thrown t e ↦ (t, aborted)
      | returned t ↦ elim (ltb (length (b ∷ d)) n) [
        | true ↦ (t, overrun)
        | false ↦ receive_loop fuel ip now (drop n (b ∷ d)) t
      ]
    ]
  ]

  -- `onData` from an address that is no proxy's
  unfoldable pub receive : Ipv4Addr → ℕ → Bytes → Server → Server × DatagramEnd
  unfolding receive_loop
  receive ip now d s = receive_loop (length d) ip now d s
