-- ===== src/Prudp/Server/Receive/Wrap.antt =====
-- What `processPacket` of nex/prudp/server.cpp makes of reliable packets that it takes for old ones.
use splatit.Base.{
  ℕ, ◌≤◌, ◌<◌, ◌≡◌, inl, inr, refl, sym, ap, subst, ◌∙◌, arith, Option, none, some, List, [], ◌∷◌,
  length, get_or, ap₂, ge→ltb, le→leb, All, Bool-cases, Option-cases,
}
use splatit.Base.Dict.{lookup, lookup-update}
use splatit.Prudp.Packet.{Packet}
use splatit.Prudp.Server.{
  PrudpAddress, Server, ClientInfo, Substream, Env, Config, new_substream, substream, address_eq,
  addr_eq, addr_eq_iff, update_client,
}
use splatit.Prudp.Server.Clients.{reset_ping_task, reset_found, take_ping}
use splatit.Prudp.Server.Craft.{craft_ack}
use splatit.Prudp.Server.Send.{substream_of}
use splatit.Prudp.Server.Send.Unremembered.{post, send_packet-sent}
use splatit.Prudp.Server.Queue.{Ending, returned, thrown, null_pointer}
use splatit.Prudp.Server.Queue.FirstFragment.{craft_ack-wants_resend}
use splatit.Prudp.Server.Receive.{receive_reliable, reset_ping, max_packet_queue_size}

-- The server that a call leaves, however it ends.
abbrev pub server_of : Ending → Server
server_of (returned s) = s
server_of (thrown s e) = s
server_of (null_pointer s) = s

abbrev substreams_in : Option ClientInfo → Option (List Substream)
substreams_in none = none
substreams_in (some c) = some c.substreams

-- The substreams of a client, with their queues and their sequence IDs.
abbrev pub substreams_at : Server → PrudpAddress → Option (List Substream)
substreams_at s addr = substreams_in (lookup addr s.clients)

-- The same datagrams have been sent, and the substreams of every client are the same.
record Keeps (s t : Server) : Type 0 where
  config : t.config ≡ s.config
  events : t.events ≡ s.events
  substreams : (addr : PrudpAddress) → substreams_at t addr ≡ substreams_at s addr

Keeps-refl : (s : Server) → Keeps s s
Keeps-refl s = record { config = refl; events = refl; substreams = λ addr. refl }

substreams-update :
    (s : Server) (addr a : PrudpAddress) (f : ClientInfo → ClientInfo) (c : ClientInfo)
    → lookup addr s.clients ≡ some c
    → (f c).substreams ≡ c.substreams
    → substreams_at (update_client addr f s) a ≡ substreams_at s a
substreams-update s addr a f c found same =
    ap substreams_in (lookup-update addr a f s.clients c found)
    ∙ elim (Bool-cases (addr_eq addr a)) [
      | inr other ↦ rw other refl
      | inl here ↦ rw here (
          ap some same
          ∙ (ap substreams_in (sym found)
              ∙ ap (λ (b : PrudpAddress). substreams_at s b) ((addr_eq_iff addr a).0 here)))
    ]

abbrev KeepsIf : Server → Option Server → Type 0
KeepsIf s none = Unit {0}
KeepsIf s (some t) = Keeps s t

reset_found-Keeps :
    (s : Server) (addr : PrudpAddress) (c : ClientInfo) (now : ℕ)
    → lookup addr s.clients ≡ some c
    → KeepsIf s (reset_found s addr c now)
unfolding reset_found
reset_found-Keeps s addr c now found =
    elim (Option-cases (take_ping c.next_ping addr s.delayed_packets)) [
      | inl missing ↦ rw (missing, KeepsIf) tt
      | inr ((d, m), taken) ↦
          rw (taken, KeepsIf)
            (record {
              config = refl;
              events = refl;
              substreams = λ a. substreams-update s addr a _ c found refl;
            })
    ]

reset_ping_task-Keeps :
    (s : Server) (addr : PrudpAddress) (now : ℕ) → KeepsIf s (reset_ping_task s addr now)
unfolding reset_ping_task
reset_ping_task-Keeps s addr now = elim (Option-cases (lookup addr s.clients)) [
  | inl missing ↦ rw (missing, KeepsIf) (Keeps-refl s)
  | inr (c, found) ↦ rw (found, KeepsIf) (reset_found-Keeps s addr c now found)
]

reset_ping-Keeps :
    (s : Server) (addr : PrudpAddress) (now : ℕ) → Keeps s (server_of (reset_ping addr now s))
unfolding reset_ping
reset_ping-Keeps s addr now = elim (Option-cases (reset_ping_task s addr now)) [
  | inl missing ↦ rw (missing, server_of) (Keeps-refl s)
  | inr (t, found) ↦
      rw (found, server_of) (subst (KeepsIf s) found (reset_ping_task-Keeps s addr now))
]

some_injective : {A : Type 0} {a b : A} → some a ≡ some b → a ≡ b
some_injective h = cc

module _ (env : Env) (addr : PrudpAddress) (now : ℕ) where
  abbrev pub ack_of : Server → ClientInfo → Packet → Packet
  ack_of s c p = craft_ack env.digest s.config addr p c.session_id c.remote_signature c.session_key

  old_packet-sent :
      (p : Packet) (s : Server) (c : ClientInfo)
      → length (substream c (substream_of s.config p)).packet_queue ≤ max_packet_queue_size
      → p.seq_id ≤ (substream c (substream_of s.config p)).recv_seq_id
      → receive_reliable env addr p now s c
        ≡ reset_ping addr now (post env.digest addr (ack_of s c p) s)
  unfolding receive_reliable
  old_packet-sent p s c short old =
      let u = substream c (substream_of s.config p) in
      rw
        (
          ge→ltb max_packet_queue_size (length u.packet_queue) short,
          le→leb p.seq_id u.recv_seq_id old,
        )
        (ap (reset_ping addr now)
          (send_packet-sent env.digest addr (ack_of s c p) now s (
            craft_ack-wants_resend env.digest s.config addr p c.session_id c.remote_signature
              c.session_key)).0)

  old_packet-Keeps :
      (p : Packet) (s : Server) (c : ClientInfo)
      → length (substream c (substream_of s.config p)).packet_queue ≤ max_packet_queue_size
      → p.seq_id ≤ (substream c (substream_of s.config p)).recv_seq_id
      → Keeps
          (post env.digest addr (ack_of s c p) s)
          (server_of (receive_reliable env addr p now s c))
  old_packet-Keeps p s c short old =
      let t = post env.digest addr (ack_of s c p) s in
      subst (λ (e : Ending). Keeps t (server_of e)) (sym (old_packet-sent p s c short old))
        (reset_ping-Keeps t addr now)

  -- Where the queue is not too long, a reliable packet whose sequence ID is not beyond the last
  -- one received is answered by its acknowledgement and nothing more is sent, and the substreams
  -- of every client are as before.
  pub old_packet-answered :
      (p : Packet) (s : Server) (c : ClientInfo)
      → length (substream c (substream_of s.config p)).packet_queue ≤ max_packet_queue_size
      → p.seq_id ≤ (substream c (substream_of s.config p)).recv_seq_id
      → (let t = server_of (receive_reliable env addr p now s c) in
          (t.events ≡ (post env.digest addr (ack_of s c p) s).events)
          × ((a : PrudpAddress) → substreams_at t a ≡ substreams_at s a))
  old_packet-answered p s c short old =
      let kept = old_packet-Keeps p s c short old in (kept.events, kept.substreams)

  -- A reliable packet from a client that is known.
  abbrev pub receive_one : Server → Option ClientInfo → Packet → Server
  receive_one s none p = s
  receive_one s (some c) p = server_of (receive_reliable env addr p now s c)

  -- Reliable packets one behind the other.
  abbrev pub receive_each : List Packet → Server → Server
  receive_each [] s = s
  receive_each (p ∷ ps) s = receive_each ps (receive_one s (lookup addr s.clients) p)

  -- The client has a substream that has received the last sequence ID, and its queue is not too long.
  abbrev pub Deaf : ℕ → Server → Type 0
  Deaf id s =
      (us : List Substream) × (substreams_at s addr ≡ some us)
      × ((get_or us id new_substream).recv_seq_id ≡ 65535)
      × (length (get_or us id new_substream).packet_queue ≤ max_packet_queue_size)

  abbrev Same : Server → Server → Type 0
  Same s t = (t.config ≡ s.config) × ((a : PrudpAddress) → substreams_at t a ≡ substreams_at s a)

  receive_one-Same :
      (id : ℕ) (p : Packet) (s : Server) (found : Option ClientInfo)
      → lookup addr s.clients ≡ found
      → Deaf id s
      → substream_of s.config p ≡ id
      → p.seq_id < 65536
      → Same s (receive_one s found p)
  receive_one-Same id p s none seen deaf here small = (refl, λ a. refl)
  receive_one-Same id p s (some c) seen (us, is_at, top, short) here small =
      let same : c.substreams ≡ us = some_injective (sym (ap substreams_in seen) ∙ is_at) in
      let own : substream c (substream_of s.config p) ≡ get_or us id new_substream =
        ap₂ (λ (l : List Substream) (i : ℕ). get_or l i new_substream) same here in
      let kept =
        old_packet-Keeps p s c
          (subst (λ (u : Substream). length u.packet_queue ≤ max_packet_queue_size) (sym own) short)
          (subst (λ (u : Substream). p.seq_id ≤ u.recv_seq_id) (sym own)
            (omega (arith, top, small))) in
      (kept.config, kept.substreams)

  receive_each-Same :
      (id : ℕ) (config : Config) (ps : List Packet) (s : Server)
      → s.config ≡ config
      → Deaf id s
      → All (λ (p : Packet). (substream_of config p ≡ id) × (p.seq_id < 65536)) ps
      → (a : PrudpAddress) → substreams_at (receive_each ps s) a ≡ substreams_at s a
  receive_each-Same id config [] s as_set deaf here a = refl
  receive_each-Same id config (p ∷ ps) s as_set (us, is_at, top, short) here a =
      let t = receive_one s (lookup addr s.clients) p in
      let same =
        receive_one-Same id p s (lookup addr s.clients) refl (us, is_at, top, short)
          (ap (λ (k : Config). substream_of k p) as_set ∙ here.0.0) here.0.1 in
      receive_each-Same id config ps t (same.0 ∙ as_set) (us, same.1 addr ∙ is_at, top, short)
        here.1 a
      ∙ same.1 a

  -- Once a substream has received the sequence ID 65535, and its queue is not too long, any
  -- reliable packets that come on it one behind the other, at one time, leave the substreams of
  -- every client as they are.
  pub last_seq_id-Deaf :
      (id : ℕ) (ps : List Packet) (s : Server)
      → Deaf id s
      → All (λ (p : Packet). (substream_of s.config p ≡ id) × (p.seq_id < 65536)) ps
      → (a : PrudpAddress) → substreams_at (receive_each ps s) a ≡ substreams_at s a
  last_seq_id-Deaf id ps s deaf here a = receive_each-Same id s.config ps s refl deaf here a
