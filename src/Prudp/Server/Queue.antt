-- ===== src/Prudp/Server/Queue.antt =====
-- `processPacketQueue` of nex/prudp/server.cpp: the reliable packets of one substream, in order.
pub mod Stall
pub mod Crash
pub mod FirstFragment
pub mod Handover
pub mod Whole
use splatit.Base.{
  ℕ, zero, suc, ◌+◌, ◌%◌, Bool, true, false, not, ◌&&◌, ◌||◌, Option, none, some, List, [], ◌∷◌,
  ◌++◌, ◌==◌, ltb, leb, if◌then◌else◌, length, drop, is_empty, Result, ok, err, Exception,
}
use splatit.Base.Bits.{has_flag}
use splatit.Base.Bytes.{Bytes}
use splatit.Base.Dict.{lookup}
use splatit.Prudp.Packet.{
  Packet, PacketType, Encoder, data_type, disconnect, flag_need_ack, decrypt_data,
}
use splatit.Prudp.Server.{
  PrudpAddress, Server, ClientInfo, Substream, Config, Env, substream, update_substream,
  update_client, address_eq,
}
use splatit.Prudp.Server.Craft.{craft_ack, craft_aggregate_ack}
use splatit.Prudp.Server.Encoders.{get_reliable_encoder, set_reliable_encoder}
use splatit.Prudp.Server.Send.{send_packet}
use splatit.Prudp.Server.Handle.{handle_packet, Outcome}

-- How a call ends: it returns, it throws, or it follows a null pointer.
pub data Ending : Type 0 where
  returned : Server → Ending
  thrown : Server → Exception → Ending
  null_pointer : Server → Ending

abbrev pub aggregates : Config → ClientInfo → Bool
aggregates config c = config.major_version == 1 && leb 1 c.minor_version

abbrev pub is_data : PacketType → Bool
is_data data_type = true
is_data _ = false

abbrev pub is_disconnect : PacketType → Bool
is_disconnect disconnect = true
is_disconnect _ = false

abbrev recv_in : Option ClientInfo → ℕ → ℕ
recv_in none id = 0
recv_in (some c) id = (substream c id).recv_seq_id

abbrev pub recv_of : Server → PrudpAddress → ℕ → ℕ
recv_of s addr id = recv_in (lookup addr s.clients) id

abbrev pub bump_recv : Substream → Substream
bump_recv u = record u { recv_seq_id = (u.recv_seq_id + 1) % 65536 }

-- The fragments that the inner loop has looked at: the state, the IDs for the aggregate
-- acknowledgement, whether the message is complete and whether it has more than one fragment.
pub record Scan : Type 0 where
  pub server : Server
  pub acked : List ℕ
  pub complete : Bool
  pub multiple : Bool

module _ (env : Env) (addr : PrudpAddress) (id now : ℕ) where
  abbrev pub send : Packet → Server → Server
  send p s = (send_packet env.digest addr p now s).0

  abbrev pub ack_for : Server → ClientInfo → Packet → Packet
  ack_for s c f = craft_ack env.digest s.config addr f c.session_id c.remote_signature c.session_key

  -- The acknowledgement of one fragment that has not been acknowledged, and `recvSeqId++`.
  unfoldable pub ack_fragment : Server → List ℕ → ClientInfo → Packet → Server × List ℕ
  ack_fragment s acked c f =
      let next = update_client addr (update_substream id bump_recv) in
      if has_flag f.flags flag_need_ack
      then (if aggregates s.config c && is_data f.type
          then (next s, acked ++ f.seq_id ∷ [])
          else if is_disconnect f.type
          then (next (send (ack_for s c f) (send (ack_for s c f) (send (ack_for s c f) s))), acked)
          else (next (send (ack_for s c f) s), acked))
      else (next s, acked)

  unfoldable pub ack_if_new : Server → List ℕ → ClientInfo → Packet → Server × List ℕ
  unfolding ack_fragment
  ack_if_new s acked c f =
      if ltb (recv_of s addr id) f.seq_id then ack_fragment s acked c f else (s, acked)

  abbrev follows : Packet → Packet → Bool
  follows f g =
      g.seq_id == f.seq_id + 1 && (g.fragment_id == f.fragment_id + 1 || g.fragment_id == 0)

  -- The inner loop, on the queue from `fragmentIt` on.
  unfoldable pub scan : ClientInfo → Server → List ℕ → Bool → List Packet → Scan
  unfolding ack_if_new
  scan c s acked multiple [] = record {
    server = s;
    acked = acked;
    complete = false;
    multiple = multiple;
  }
  scan c s acked multiple (f ∷ []) =
      let (t, more) = ack_if_new s acked c f in
      record { server = t; acked = more; complete = f.fragment_id == 0; multiple = multiple }
  scan c s acked multiple (f ∷ g ∷ rest) =
      let (t, more) = ack_if_new s acked c f in
      let next = scan c t more true (g ∷ rest) in
      if f.fragment_id == 0
      then record { server = t; acked = more; complete = true; multiple = multiple }
      else if follows f g
      then next
      else record { server = t; acked = more; complete = false; multiple = multiple }

-- What the `do … while` loop has gone through.
pub record Gathered : Type 0 where
  pub used : List Packet
  pub left : List Packet
  pub content : Bytes
  pub last_fragment : Option Packet
  pub encoder : Encoder

abbrev taken : Packet → Packet → Option Packet → Option Packet
taken f g last = if f.fragment_id == 0 then some g else last

-- The packet with the substream's encoder, decrypted. With an encoder `decryptData` does not throw.
unfoldable pub decrypt_one : Encoder → Packet → Packet
unfolding decrypt_data
decrypt_one e f = elim (decrypt_data (record f { encoder = some e }) false) [ ok g ↦ g | err x ↦ f ]

abbrev pub encoder_or : Encoder → Option Encoder → Encoder
encoder_or e none = e
encoder_or e (some e') = e'

-- The `do … while` loop: it stops in front of a packet whose fragment ID is 0.
unfoldable pub gather : Encoder → Bytes → Option Packet → List Packet → Gathered
unfolding decrypt_one
gather e content last [] = record {
  used = [];
  left = [];
  content = content;
  last_fragment = last;
  encoder = e;
}
gather e content last (f ∷ []) =
    let g = decrypt_one e f in
    record {
      used = g ∷ [];
      left = [];
      content = content ++ g.payload;
      last_fragment = taken f g last;
      encoder = encoder_or e g.encoder;
    }
gather e content last (f ∷ h ∷ rest) =
    let g = decrypt_one e f in
    let more = gather (encoder_or e g.encoder) (content ++ g.payload) (taken f g last) (h ∷ rest) in
    if h.fragment_id == 0
    then record {
      used = g ∷ [];
      left = h ∷ rest;
      content = content ++ g.payload;
      last_fragment = taken f g last;
      encoder = encoder_or e g.encoder;
    }
    else record more { used = g ∷ more.used }

abbrev pub set_queue : List Packet → Substream → Substream
set_queue q u = record u { packet_queue = q }

module _ (env : Env) (addr : PrudpAddress) (id now : ℕ) where
  abbrev send_aggregate : Server → ClientInfo → List ℕ → Server
  send_aggregate s c acked =
      (send_packet env.digest addr
        (craft_aggregate_ack env.digest s.config addr c.minor_version c.session_id id acked
          c.remote_signature c.session_key)
        now s).0

  abbrev pub aggregate_if_any : Bool → Server → ClientInfo → List ℕ → Server
  aggregate_if_any on s c acked = if on && not (is_empty acked) then send_aggregate s c acked else s

  -- Behind the loop, for a client that is still there.
  unfoldable pub finish : ClientInfo → Bool → Server → List ℕ → Ending
  finish c gone s acked = returned (aggregate_if_any (aggregates s.config c && not gone) s c acked)

  -- What follows the `do … while` loop, with the last fragment it found; `loop` is the rest of the
  -- outer loop, on the queue that is left.
  unfoldable pub deliver :
      (Server → List ℕ → Bool → List Packet → Ending)
      → ClientInfo
      → Server
      → List ℕ
      → Bool
      → Bool
      → Gathered
      → Option Packet
      → Ending
  unfolding handle_packet finish
  deliver loop c s acked gone multiple g none = null_pointer s
  deliver loop c s acked gone multiple g (some p) =
      let whole = if multiple then record p { payload = g.content } else p in
      let leaving = is_disconnect whole.type && aggregates s.config c in
      let t = aggregate_if_any leaving s c acked in
      let (u, r) = handle_packet env t addr whole now in
      let forward =
        loop (update_client addr (update_substream id (set_queue g.left)) u) acked (gone || leaving)
          g.left in
      elim r [
        | ok true ↦ forward
        | ok false ↦ finish c (gone || leaving) u acked
        | err e ↦
            thrown
              (update_client addr (update_substream id (set_queue g.left))
                (aggregate_if_any (aggregates u.config c) u c acked))
              e
      ]

  -- The state with the decrypted packets in the queue and the encoder moved on.
  abbrev after_gather : Server → Gathered → Server
  after_gather s g =
      update_client addr
        (λ c.
          update_substream id (set_queue (g.used ++ g.left)) (set_reliable_encoder id g.encoder c))
        s

  -- `getReliableEncoder` of the client as it is now.
  abbrev pub encoder_of : Option ClientInfo → ClientInfo → Encoder
  encoder_of none c = get_reliable_encoder c id
  encoder_of (some c') c = get_reliable_encoder c' id

  -- The body of the outer loop behind its two tests.
  unfoldable pub round_of :
      (Server → List ℕ → Bool → List Packet → Ending)
      → ClientInfo
      → Server
      → List ℕ
      → Bool
      → List Packet
      → Ending
  unfolding scan gather deliver get_reliable_encoder set_reliable_encoder
  round_of loop c s acked gone queue =
      let r = scan env addr id now c s acked false queue in
      let g = gather (encoder_of (lookup addr r.server.clients) c) [] none queue in
      if r.complete
      then deliver loop c (after_gather r.server g) r.acked gone r.multiple g g.last_fragment
      else finish c gone r.server r.acked

  abbrev in_turn : Server → Packet → Bool
  in_turn s p = p.seq_id == recv_of s addr id + 1 && leb p.fragment_id 1

  unfoldable pub round_if :
      Bool
      → (Server → List ℕ → Bool → List Packet → Ending)
      → ClientInfo
      → Server
      → List ℕ
      → Bool
      → List Packet
      → Ending
  unfolding round_of
  round_if true loop c s acked gone queue = round_of loop c s acked gone queue
  round_if false loop c s acked gone queue = finish c gone s acked

  -- The outer loop. Each round takes a packet off the queue, so its length is fuel enough.
  unfoldable pub queue_loop : ℕ → ClientInfo → Server → List ℕ → Bool → List Packet → Ending
  unfolding round_if
  queue_loop zero c s acked gone queue = finish c gone s acked
  queue_loop (suc fuel) c s acked gone [] = finish c gone s acked
  queue_loop (suc fuel) c s acked gone (p ∷ ps) =
      round_if (in_turn s p) (queue_loop fuel c) c s acked gone (p ∷ ps)

  unfoldable pub queue_of : Server → Option ClientInfo → Ending
  unfolding queue_loop
  queue_of s none = returned s
  queue_of s (some c) =
      let queue = (substream c id).packet_queue in queue_loop (length queue) c s [] false queue

  -- `processPacketQueue`
  unfoldable pub process_packet_queue : Server → Ending
  unfolding queue_of
  process_packet_queue s = queue_of s (lookup addr s.clients)
