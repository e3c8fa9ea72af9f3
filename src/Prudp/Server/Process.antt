-- ===== src/Prudp/Server/Process.antt =====
-- `process` of nex/prudp/server.cpp: the delayed packets that are due are sent again, or their client
-- is closed.
pub mod Due
use splatit.Base.{
  ℕ, zero, suc, ◌+◌, ◌-◌, ◌%◌, ◌^◌, Bool, true, false, ◌&&◌, Option, none, some, List, [], ◌∷◌,
  ◌==◌, ltb, leb, if◌then◌else◌, length,
}
use splatit.Base.Dict.{lookup, update, nat_eq}
use splatit.Prudp.Packet.{Packet, PacketType, ping}
use splatit.Prudp.Server.{
  PrudpAddress, Server, ClientInfo, Substream, DelayedPacket, Env, update_substream, update_client,
  insert_delayed, address_eq,
}
use splatit.Prudp.Server.Clients.{close_client_connection}
use splatit.Prudp.Server.Send.{encode_packet, send_bytes, substream_of, retry_interval}

abbrev pub max_retries : ℕ
max_retries = 3

abbrev pub is_ping : PacketType → Bool
is_ping ping = true
is_ping _ = false

unfoldable pub number_found : Server → DelayedPacket → Option ClientInfo → Server × Packet
number_found s d none = (s, d.packet)
number_found s d (some c) = (
  update_client d.addr (λ c'. record c' { unreliable_seq_id = (c.unreliable_seq_id + 1) % 65536 })
      s,
  record (d.packet) { seq_id = c.unreliable_seq_id },
)

-- A ping's first sending takes the client's next sequence ID for unreliable packets.
unfoldable pub number_ping : Server → DelayedPacket → Server × Packet
unfolding number_found
number_ping s d =
    if is_ping d.packet.type && d.num_retries == 0
    then number_found s d (lookup d.addr s.clients)
    else (s, d.packet)

-- The client's note of the time at which the packet stands in the queue.
abbrev pub note_time : ℕ → Packet → ℕ → ClientInfo → ClientInfo
note_time id p time c =
    if is_ping p.type
    then record c { next_ping = time }
    else update_substream id
        (λ u. record u { non_acked_packets = update p.seq_id (λ t. time) u.non_acked_packets }) c

module _ (env : Env) (now : ℕ) where
  -- The packet is sent once more, and queued for the next try.
  unfoldable pub send_again : Server → DelayedPacket → Packet → Server
  unfolding encode_packet send_bytes
  send_again s d p =
      let (bytes, q) = encode_packet env.digest s.config p in
      let u = send_bytes d.addr.address bytes s in
      let time = now + retry_interval in
      update_client d.addr (note_time (substream_of s.config q) q time) (record u {
        delayed_packets =
            insert_delayed time (record d { num_retries = d.num_retries + 1; packet = q })
              u.delayed_packets;
      })

  -- One round, for an entry that has been taken off the queue.
  unfoldable pub retry : Server → DelayedPacket → Server
  unfolding number_ping send_again close_client_connection
  retry s d =
      if leb max_retries d.num_retries
      then close_client_connection s d.addr
      else (let (t, p) = number_ping s d in send_again t d p)

  -- One round, if the entry is due; `loop` is the rest of the loop.
  unfoldable pub round_if :
      Bool → (Server → Server) → Server → DelayedPacket → List (ℕ × DelayedPacket) → Server
  unfolding retry
  round_if true loop s d m = loop (retry (record s { delayed_packets = m }) d)
  round_if false loop s d m = s

  unfoldable pub process_from : (Server → Server) → Server → List (ℕ × DelayedPacket) → Server
  unfolding round_if
  process_from loop s [] = s
  process_from loop s ((t, d) ∷ m) = round_if (ltb t now) loop s d m

  -- The loop; every round takes an entry away that is due and adds none, so the length of the queue
  -- is fuel enough.
  unfoldable pub process_loop : ℕ → Server → Server
  unfolding process_from
  process_loop zero s = s
  process_loop (suc fuel) s = process_from (process_loop fuel) s s.delayed_packets

  -- The milliseconds until the next delayed packet, and the greatest number for none.
  abbrev pub until_next : List (ℕ × DelayedPacket) → ℕ
  until_next [] = 2 ^ 64 - 1
  until_next ((t, d) ∷ m) = t - now

  -- `process`
  unfoldable pub process : Server → Server × ℕ
  unfolding process_loop
  process s = let t = process_loop (length s.delayed_packets) s in (t, until_next t.delayed_packets)
