-- ===== src/Prudp/Server.antt =====
-- The state of nex/prudp/server.hpp: clients, substreams, delayed packets, and what leaves the
-- server. The operations stand in the child modules.
pub mod Clients
pub mod Craft
pub mod Encoders
pub mod Send
pub mod Handle
pub mod Queue
pub mod Process
pub mod Receive
pub mod Lookup
use splatit.Base.{
  ℕ, zero, suc, ◌+◌, ◌%◌, ◌≡◌, ◌↔◌, refl, Bool, true, false, ◌&&◌, Option, none, some, List, [],
  ◌∷◌, arith, ==_iff, ◌==◌, ltb, leb, if◌then◌else◌, length, get_or, set, erase_if, Exception,
}
use splatit.Base.Bytes.{Bytes}
use splatit.Base.Dict.{Eq, update, lookup}
use splatit.Crypto.{Digest}
use splatit.Prudp.Packet.{Packet, Encoder, new_encoder}

-- `sock::IPv4Addr`
pub record Ipv4Addr : Type 0 where
  pub a : ℕ
  pub b : ℕ
  pub c : ℕ
  pub d : ℕ
  pub port : ℕ

pub record PrudpAddress : Type 0 where
  pub address : Ipv4Addr
  pub v_port : ℕ
  pub stream_type : ℕ
  pub src_v_port : ℕ
  pub src_stream_type : ℕ

abbrev pub ipv4_eq : Ipv4Addr → Ipv4Addr → Bool
ipv4_eq x y = x.a == y.a && (x.b == y.b && (x.c == y.c && (x.d == y.d && x.port == y.port)))

abbrev pub addr_eq : PrudpAddress → PrudpAddress → Bool
addr_eq x y =
    ipv4_eq x.address y.address
    && (x.v_port == y.v_port
        && (x.stream_type == y.stream_type
            && (x.src_v_port == y.src_v_port && x.src_stream_type == y.src_stream_type)))

pub ipv4_eq_iff : (x y : Ipv4Addr) → (ipv4_eq x y ≡ true) ↔ (x ≡ y)
ipv4_eq_iff x y = (λ h. ground arith, λ h. ground arith)

instance abbrev pub ipv4_addr_eq : Eq Ipv4Addr
ipv4_addr_eq = record { beq = ipv4_eq; beq_iff = ipv4_eq_iff }

pub addr_eq_iff : (x y : PrudpAddress) → (addr_eq x y ≡ true) ↔ (x ≡ y)
addr_eq_iff x y = (λ h. ground arith, λ h. ground arith)

instance abbrev pub address_eq : Eq PrudpAddress
address_eq = record { beq = addr_eq; beq_iff = addr_eq_iff }

-- Times are milliseconds of the steady clock. Both containers are kept in the order of their keys.
pub record Substream : Type 0 where
  pub seq_id : ℕ
  pub recv_seq_id : ℕ
  pub packet_queue : List Packet
  pub non_acked_packets : List (ℕ × ℕ)

-- `encoders` and `encoder_key` are the fields of the `PayloadEncoder`.
pub record ClientInfo : Type 0 where
  pub encoders : List Encoder
  pub encoder_key : Bytes
  pub minor_version : ℕ
  pub supported_functions : ℕ
  pub unreliable_seq_id : ℕ
  pub remote_signature : Bytes
  pub session_id : ℕ
  pub pid : ℕ
  pub session_key : Bytes
  pub substreams : List Substream
  pub next_ping : ℕ

pub record DelayedPacket : Type 0 where
  pub addr : PrudpAddress
  pub num_retries : ℕ
  pub packet : Packet

-- What a server does to the world: datagrams, and calls of the registered RMC server's functions
-- (`connectFunc` and `disconnectFunc`, which only schedule a task, and `dataFunc`).
pub data Event : Type 0 where
  sent : Ipv4Addr → Bytes → Event
  connected : PrudpAddress → ℕ → Event
  disconnected : PrudpAddress → Event
  received : PrudpAddress → ℕ → ℕ → Bytes → Event

-- What the constructor sets, and the ports of `registeredServers`.
pub record Config : Type 0 where
  pub major_version : ℕ
  pub access_key : Bytes
  pub friends : Bool
  pub minor_version : ℕ
  pub supported_functions : ℕ
  pub max_substream_id : ℕ
  pub init_seq_id_unreliable : ℕ
  pub auth : Bool
  pub pid : ℕ
  pub secure_passwd : Bytes
  pub ports : List ℕ

-- The newest event comes first.
pub record Server : Type 0 where
  pub config : Config
  pub clients : List (PrudpAddress × ClientInfo)
  pub pid_to_addr : List (ℕ × PrudpAddress)
  pub next_session_id : ℕ
  pub proxy_map : List (Ipv4Addr × Ipv4Addr)
  pub delayed_packets : List (ℕ × DelayedPacket)
  pub events : List Event

-- What the server is given: the digests, the time in seconds and the reading of a date as a time
-- (`kerberos`), and `dataFunc` of the registered RMC server, which may call the server back and may
-- throw.
pub record Env : Type 0 where
  pub digest : Digest
  pub system_now : ℕ
  pub to_time : ℕ → ℕ → ℕ → ℕ → ℕ → ℕ → ℕ
  pub data_func : PrudpAddress → ℕ → ℕ → Bytes → Server → Server × Option Exception

abbrev pub emit : Event → Server → Server
emit e s = record s { events = e ∷ s.events }

abbrev pub contains : ℕ → List ℕ → Bool
contains x [] = false
contains x (y ∷ ys) = if y == x then true else contains x ys

abbrev pub new_substream : Substream
new_substream = record { seq_id = 1; recv_seq_id = 0; packet_queue = []; non_acked_packets = [] }

-- `substreams[id]`; an ID out of range is undefined in the code, and reads a new substream here.
abbrev pub substream : ClientInfo → ℕ → Substream
substream c id = get_or c.substreams id new_substream

abbrev pub update_substream : ℕ → (Substream → Substream) → ClientInfo → ClientInfo
update_substream id f c = record c { substreams = set c.substreams id (f (substream c id)) }

abbrev pub update_client : PrudpAddress → (ClientInfo → ClientInfo) → Server → Server
update_client addr f s = record s { clients = update addr f s.clients }

-- `std::multimap::insert`: behind the entries of the same time.
abbrev pub insert_delayed : ℕ → DelayedPacket → List (ℕ × DelayedPacket) → List (ℕ × DelayedPacket)
insert_delayed t p [] = (t, p) ∷ []
insert_delayed t p ((u, q) ∷ m) =
    if ltb t u then (t, p) ∷ (u, q) ∷ m else (u, q) ∷ insert_delayed t p m

-- `std::map<uint16_t, timePoint>::insert`: in order, and a key that is there keeps its value.
abbrev pub insert_ordered : ℕ → ℕ → List (ℕ × ℕ) → List (ℕ × ℕ)
insert_ordered k v [] = (k, v) ∷ []
insert_ordered k v ((j, w) ∷ m) =
    if ltb k j
    then (k, v) ∷ (j, w) ∷ m
    else if k == j
    then (j, w) ∷ m
    else (j, w) ∷ insert_ordered k v m

-- `std::set<std::shared_ptr<Packet>, packetCmp>::insert`: by sequence ID, and one packet for each.
abbrev pub insert_packet : Packet → List Packet → List Packet
insert_packet p [] = p ∷ []
insert_packet p (q ∷ qs) =
    if ltb p.seq_id q.seq_id
    then p ∷ q ∷ qs
    else if p.seq_id == q.seq_id
    then q ∷ qs
    else q ∷ insert_packet p qs
