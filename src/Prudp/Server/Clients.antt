-- ===== src/Prudp/Server/Clients.antt =====
-- What nex/prudp/server.cpp does to the clients and to the packets that wait for them:
-- `deleteNonAckedPacket`, `closeClientConnection`, `resetPingTask`.
pub mod Close
pub mod Forget
use splatit.Base.{
  ℕ, zero, suc, ◌+◌, ◌%◌, Bool, true, false, not, ◌&&◌, Option, none, some, List, [], ◌∷◌, ◌++◌,
  map, ◌==◌, ltb, if◌then◌else◌, erase_if,
}
use splatit.Base.Dict.{lookup, erase, nat_eq}
use splatit.Prudp.Packet.{Packet, PacketType, ping}
use splatit.Prudp.Server.{
  PrudpAddress, Server, ClientInfo, Substream, DelayedPacket, Config, disconnected, emit, contains,
  substream, update_substream, update_client, insert_delayed, addr_eq, address_eq,
}

-- The entries of one time that are for `addr` and carry `seq_id`.
abbrev pub is_resend : ℕ → PrudpAddress → ℕ → ℕ × DelayedPacket → Bool
is_resend task addr seq_id (t, d) = t == task && (addr_eq d.addr addr && d.packet.seq_id == seq_id)

abbrev pub drop_ack : ℕ → Substream → Substream
drop_ack seq_id u = record u { non_acked_packets = erase seq_id u.non_acked_packets }

unfoldable pub delete_task : Server → PrudpAddress → ℕ → ℕ → Option ℕ → Server
delete_task s addr seq_id id none = s
delete_task s addr seq_id id (some task) =
    record (update_client addr (update_substream id (drop_ack seq_id)) s) {
      delayed_packets = erase_if (is_resend task addr seq_id) s.delayed_packets;
    }

unfoldable pub delete_found : Server → PrudpAddress → ℕ → ℕ → Option ClientInfo → Server
unfolding delete_task
delete_found s addr seq_id id none = s
delete_found s addr seq_id id (some c) =
    delete_task s addr seq_id id (lookup seq_id (substream c id).non_acked_packets)

-- `deleteNonAckedPacket`
unfoldable pub delete_non_acked_packet : Server → PrudpAddress → ℕ → ℕ → Server
unfolding delete_found
delete_non_acked_packet s addr seq_id id = delete_found s addr seq_id id (lookup addr s.clients)

-- The times of a client's ping and of its packets that are not acknowledged.
abbrev pub times_of : List Substream → List ℕ
times_of [] = []
times_of (u ∷ us) = map (λ (e : ℕ × ℕ). e.1) u.non_acked_packets ++ times_of us

abbrev pub is_task_of : List ℕ → PrudpAddress → ℕ × DelayedPacket → Bool
is_task_of tasks addr (t, d) = contains t tasks && addr_eq d.addr addr

-- The part behind the callback, for the client that `find` gives.
unfoldable pub close_found : Server → PrudpAddress → Option ClientInfo → Server
close_found s addr none = s
close_found s addr (some c) = record s {
  pid_to_addr = if c.pid == 0 then s.pid_to_addr else erase c.pid s.pid_to_addr;
  delayed_packets =
      erase_if (is_task_of (c.next_ping ∷ times_of c.substreams) addr) s.delayed_packets;
  clients = erase addr s.clients;
}

-- The callback is called also where there is no such client.
abbrev pub say_disconnected : Server → PrudpAddress → Server
say_disconnected s addr =
    if contains addr.src_v_port s.config.ports then emit (disconnected addr) s else s

-- `closeClientConnection`
unfoldable pub close_client_connection : Server → PrudpAddress → Server
unfolding close_found
close_client_connection s addr =
    let t = say_disconnected s addr in close_found t addr (lookup addr t.clients)

abbrev is_ping_type : PacketType → Bool
is_ping_type ping = true
is_ping_type _ = false

-- The first entry of the time `task` that is a ping for `addr`, and the queue without it.
unfoldable pub take_ping :
    ℕ → PrudpAddress → List (ℕ × DelayedPacket) → Option (DelayedPacket × List (ℕ × DelayedPacket))
take_ping task addr [] = none
take_ping task addr ((t, d) ∷ m) =
    let rest = take_ping task addr m in
    if t == task && (addr_eq d.addr addr && is_ping_type d.packet.type)
    then some (d, m)
    else elim rest [ none ↦ none | some (e, m') ↦ some (e, (t, d) ∷ m') ]

abbrev pub ping_interval : ℕ
ping_interval = 20000

-- `if (numRetries > 0) packet->seqId++; numRetries = 0;`
abbrev rearm : DelayedPacket → DelayedPacket
rearm d = record d {
  num_retries = 0;
  packet =
      if ltb 0 d.num_retries
      then record (d.packet) { seq_id = (d.packet.seq_id + 1) % 65536 }
      else d.packet;
}

unfoldable pub reset_found : Server → PrudpAddress → ClientInfo → ℕ → Option Server
reset_found s addr c now = elim (take_ping c.next_ping addr s.delayed_packets) [
  | none ↦ none
  | some (d, m) ↦
      some (record (update_client addr (λ c'. record c' { next_ping = now + ping_interval }) s) {
        delayed_packets = insert_delayed (now + ping_interval) (rearm d) m;
      })
]

-- `resetPingTask`. A client always has its ping among the delayed packets; where it had none the code
-- would queue an uninitialized entry with a null packet, and the result here is `none`.
unfoldable pub reset_ping_task : Server → PrudpAddress → ℕ → Option Server
unfolding reset_found take_ping
reset_ping_task s addr now = elim (lookup addr s.clients) [
  | none ↦ some s
  | some c ↦ reset_found s addr c now
]
