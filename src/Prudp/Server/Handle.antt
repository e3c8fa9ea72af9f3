-- ===== src/Prudp/Server/Handle.antt =====
-- `handlePacket` of nex/prudp/server.cpp. The result says whether the queue may go on, or what was
-- thrown; it stands beside the server's state.
pub mod Acks
use Prim.Native.Nat.{bit_and}
use splatit.Base.{
  ℕ, zero, suc, ◌+◌, ◌-◌, ◌*◌, ◌/◌, ◌%◌, ◌^◌, Bool, true, false, not, ◌&&◌, ◌||◌, Option, none,
  some, List, [], ◌∷◌, ◌++◌, ◌==◌, ltb, leb, if◌then◌else◌, length, drop, replicate, Result, ok,
  err, Exception,
}
use splatit.Base.Bits.{has_flag}
use splatit.Base.Bytes.{Bytes, at, read16, le32}
use splatit.Base.Dict.{lookup, insert, nat_eq}
use splatit.Prudp.Packet.{
  Packet, PacketType, syn, connect, data_type, disconnect, ping, flag_ack, flag_reliable,
  flag_need_ack, flag_multi_ack, decrypt_data,
}
use splatit.Prudp.Kerberos.{Request, decrypt_connect_request}
use splatit.Prudp.Server.{
  PrudpAddress, Server, ClientInfo, Substream, DelayedPacket, Config, Env, connected, received,
  emit, contains, substream, update_substream, update_client, insert_delayed, new_substream,
  address_eq,
}
use splatit.Prudp.Server.Clients.{delete_non_acked_packet, close_client_connection, ping_interval}
use splatit.Prudp.Server.Craft.{craft_ack, craft_ping}
use splatit.Prudp.Server.Encoders.{make_encoders}
use splatit.Prudp.Server.Send.{send_packet, substream_of}

abbrev pub Outcome : Type 0
Outcome = Server × Result Bool

-- `data[i] | data[i + 1] << 8` for each pair.
abbrev pub read_pairs : Bytes → List ℕ
read_pairs (a ∷ b ∷ rest) = (a + b * 256) ∷ read_pairs rest
read_pairs _ = []

-- `while (!nonAckPackets.empty() && nonAckPackets.begin()->first <= ackUpTo)`, on the packets that
-- are left of the map; every round erases the first of them.
unfoldable pub ack_up_to : PrudpAddress → ℕ → ℕ → List (ℕ × ℕ) → Server → Server
ack_up_to addr id limit [] s = s
ack_up_to addr id limit ((seq_id, t) ∷ m) s =
    if leb seq_id limit
    then ack_up_to addr id limit m (delete_non_acked_packet s addr seq_id id)
    else s

-- `for (auto seqId : extraAcks)`
unfoldable pub ack_each : PrudpAddress → ℕ → List ℕ → Server → Server
ack_each addr id [] s = s
ack_each addr id (seq_id ∷ more) s =
    ack_each addr id more (delete_non_acked_packet s addr seq_id id)

-- Substream, `ackUpTo` and `extraAcks` of an aggregate acknowledgement.
pub record AggregateAck : Type 0 where
  pub substream_id : ℕ
  pub limit : ℕ
  pub extra : List ℕ

-- The two formats; `none` where the code returns false.
unfoldable pub parse_aggregate_ack : Config → Packet → Option AggregateAck
parse_aggregate_ack config p =
    if leb 2 config.minor_version
    then (if ltb (length p.payload) 4
        then none
        else if ltb config.max_substream_id (at p.payload 0)
        then none
        else if not (length p.payload == 4 + at p.payload 1 * 2)
        then none
        else some (record {
          substream_id = at p.payload 0;
          limit = read16 p.payload 2;
          extra = read_pairs (drop 4 p.payload);
        }))
    else if not (length p.payload % 2 == 0)
    then none
    else some
        (record { substream_id = p.substream_id; limit = p.seq_id; extra = read_pairs p.payload })

unfoldable pub apply_aggregate_ack :
    Server → PrudpAddress → ClientInfo → Option AggregateAck → Outcome
unfolding ack_up_to ack_each
apply_aggregate_ack s addr c none = (s, ok false)
apply_aggregate_ack s addr c (some a) = (
  ack_each addr a.substream_id a.extra
      (ack_up_to addr a.substream_id a.limit (substream c a.substream_id).non_acked_packets s),
  ok true,
)

abbrev is_data : PacketType → Bool
is_data data_type = true
is_data _ = false

abbrev is_ping : PacketType → Bool
is_ping ping = true
is_ping _ = false

-- The part under `flags & FLAG_ACK || flags & FLAG_MULTI_ACK`.
unfoldable pub handle_ack : Server → PrudpAddress → Packet → Option ClientInfo → Outcome
unfolding apply_aggregate_ack parse_aggregate_ack
handle_ack s addr p none = (s, ok true)
handle_ack s addr p (some c) =
    if not (has_flag p.flags flag_multi_ack)
    then (if is_ping p.type
        then (s, ok true)
        else (delete_non_acked_packet s addr p.seq_id (substream_of s.config p), ok true))
    else if s.config.major_version == 0 || (ltb c.minor_version 1 || not (is_data p.type))
    then (s, ok true)
    else apply_aggregate_ack s addr c (parse_aggregate_ack s.config p)

-- The three tests of a V1 CONNECT packet. `x & ~y` is not zero when `x & y` is not `x`.
abbrev pub connect_allowed : Config → Packet → Bool
connect_allowed config p =
    if config.major_version == 1
    then leb p.minor_version config.minor_version
      && (bit_and p.supported_functions config.supported_functions == p.supported_functions
          && p.max_substream_id == config.max_substream_id)
    else true

-- "CD&ML", the key of an authentication server.
abbrev pub default_key : Bytes
default_key = b'C' ∷ b'D' ∷ b'&' ∷ b'M' ∷ b'L' ∷ []

abbrev pub counts_pid : ℕ → Bool
counts_pid pid = not (pid == 0) && not (pid == 100)

module _ (env : Env) where
  abbrev ack_and_send : Server → PrudpAddress → Packet → ℕ → Option ClientInfo → Server
  ack_and_send s addr p now none = s
  ack_and_send s addr p now (some c) =
      (send_packet env.digest addr
        (craft_ack env.digest s.config addr p c.session_id c.remote_signature c.session_key) now
        s).0

  -- The key, the user and the check value of a CONNECT request.
  abbrev authenticate : Config → Packet → Result Request
  authenticate config p =
      if config.auth
      then ok
          (record { session_key = default_key; user_pid = 0; connection_id = 0; check_value = 0 })
      else decrypt_connect_request env.digest env.to_time env.system_now p.payload
          config.secure_passwd config.pid

  -- Closing what the new connection takes the place of.
  unfoldable pub close_old : Server → PrudpAddress → ℕ → Server
  close_old s addr pid = elim (lookup pid s.pid_to_addr) [
    | none ↦ elim (lookup addr s.clients) [ none ↦ s | some c ↦ close_client_connection s addr ]
    | some old ↦ elim (lookup addr s.clients) [
      | none ↦ if counts_pid pid then close_client_connection s old else s
      | some c ↦ close_client_connection s old
    ]
  ]

  abbrev key_for : Config → Request → Bytes
  key_for config r = if config.auth then [] else r.session_key

  abbrev new_client : Config → Packet → Request → ℕ → ℕ → ClientInfo
  new_client config p r session_id next_ping = record {
    encoders = make_encoders (config.max_substream_id + 1) r.session_key;
    encoder_key = r.session_key;
    minor_version = if config.major_version == 1 then p.minor_version else 0;
    supported_functions = config.supported_functions;
    unreliable_seq_id = config.init_seq_id_unreliable;
    remote_signature = p.remote_signature;
    session_id = session_id;
    pid = r.user_pid;
    session_key = key_for config r;
    substreams = replicate (config.max_substream_id + 1) new_substream;
    next_ping = next_ping;
  }

  abbrev connect_ack : Config → PrudpAddress → Packet → Request → ℕ → Packet
  connect_ack config addr p r session_id =
      let ack = craft_ack env.digest config addr p session_id p.remote_signature [] in
      if config.auth
      then ack
      else record ack { payload = 4 ∷ 0 ∷ 0 ∷ 0 ∷ le32 ((r.check_value + 1) % 2 ^ 32) }

  -- All that follows the authentication of a CONNECT packet. `insert` keeps a client that is there.
  unfoldable pub accept_connect : Server → PrudpAddress → Packet → Request → ℕ → Server
  unfolding close_old make_encoders
  accept_connect s₀ addr p r now =
      let s = close_old s₀ addr r.user_pid in
      let next_ping = now + ping_interval in
      let session_id = s.next_session_id in
      let s₁ = record s {
        clients = insert addr (new_client s.config p r session_id next_ping) s.clients;
        pid_to_addr =
            if counts_pid r.user_pid then insert r.user_pid addr s.pid_to_addr else s.pid_to_addr;
      } in
      let s₂ =
        if contains p.dst_port s.config.ports then emit (connected addr r.user_pid) s₁ else s₁ in
      let s₃ =
        update_client addr
          (update_substream (substream_of s.config p) (λ u. record u { recv_seq_id = 1 })) s₂ in
      let s₄ = record s₃ {
        delayed_packets =
            insert_delayed next_ping
              (record {
                addr = addr;
                num_retries = 0;
                packet =
                    craft_ping env.digest s.config addr session_id p.remote_signature
                      (key_for s.config r);
              })
              s₃.delayed_packets;
      } in
      let s₅ = (send_packet env.digest addr (connect_ack s.config addr p r session_id) now s₄).0 in
      record s₅ { next_session_id = (session_id + 1) % 256 }

  connect_with : Server → PrudpAddress → Packet → ℕ → Result Request → Outcome
  connect_with s addr p now (err e) = (s, ok false)
  connect_with s addr p now (ok r) = (accept_connect s addr p r now, ok true)

  handle_connect : Server → PrudpAddress → Packet → ℕ → Outcome
  unfolding connect_with decrypt_data
  handle_connect s addr p now =
      if connect_allowed s.config p
      then elim (decrypt_data p true) [
        | err e ↦ (s, err e)
        | ok q ↦ connect_with s addr q now (authenticate s.config q)
      ]
      else (s, ok false)

  -- `dataFunc` is called if the port is registered; what it throws passes through.
  unfoldable pub handle_data : Server → PrudpAddress → Packet → Option ClientInfo → Outcome
  handle_data s addr p none = (s, ok true)
  handle_data s addr p (some c) =
      if contains p.dst_port s.config.ports
      then (let id = if s.config.major_version == 0 then 0 else p.substream_id in
          let (t, thrown) =
            env.data_func addr c.minor_version id p.payload
              (emit (received addr c.minor_version id p.payload) s) in
          elim thrown [ none ↦ (t, ok true) | some e ↦ (t, err e) ])
      else (s, ok true)

  -- The cases by type of a packet that is no acknowledgement.
  unfoldable pub handle_type : Server → PrudpAddress → Packet → ℕ → PacketType → Outcome
  unfolding handle_connect handle_data
  handle_type s addr p now syn = (
    (send_packet env.digest addr (craft_ack env.digest s.config addr p 0 [] []) now s).0,
    ok true,
  )
  handle_type s addr p now connect = handle_connect s addr p now
  handle_type s addr p now data_type = handle_data s addr p (lookup addr s.clients)
  handle_type s addr p now disconnect = (close_client_connection s addr, ok false)
  handle_type s addr p now ping = (
    if has_flag p.flags flag_need_ack && not (has_flag p.flags flag_reliable)
        then ack_and_send s addr p now (lookup addr s.clients)
        else s,
    ok true,
  )

  -- `handlePacket`
  unfoldable pub handle_packet : Server → PrudpAddress → Packet → ℕ → Outcome
  unfolding handle_ack handle_type
  handle_packet s addr p now =
      if has_flag p.flags flag_ack || has_flag p.flags flag_multi_ack
      then handle_ack s addr p (lookup addr s.clients)
      else handle_type s addr p now p.type
