-- ===== src/Prudp/Server/Send/Unremembered.antt =====
-- `sendPacket` of nex/prudp/server.cpp, for packets that nobody has to acknowledge.
use splatit.Base.{
  ℕ, zero, suc, ◌+◌, ◌-◌, ◌/◌, ◌%◌, subst, ◌≡◌, refl, sym, ap, ◌∙◌, arith, Bool, false, Option,
  List, [], ◌∷◌, length, drop, All,
}
use splatit.Base.Bytes.{Bytes}
use splatit.Base.Dict.{lookup}
use splatit.Crypto.{Digest}
use splatit.Prudp.Packet.{Packet, Encoder}
use splatit.Prudp.Server.{
  Ipv4Addr, PrudpAddress, Server, Config, Event, emit, ipv4_addr_eq, address_eq,
}
use splatit.Prudp.Server.Send.{
  fragments, max_packet_size, send_fragment, send_fragments, send_packet, send_bytes, datagram,
  is_some, wants_resend_flags, wants_resend, encode_packet,
}
use splatit.Prudp.Server.Send.Fragments.{length-fragments}

-- What is on the way to an address behind some bytes, the newest datagram first.
abbrev pub outbox : Ipv4Addr → Option Ipv4Addr → List Bytes → List Event → List Event
outbox a proxy [] es = es
outbox a proxy (b ∷ bs) es = outbox a proxy bs (datagram a b proxy ∷ es)

-- The bytes of packets one behind the other, which share an encoder.
abbrev pub encodings : Digest → Config → Option Encoder → List Packet → List Bytes
encodings digest config enc [] = []
encodings digest config enc (f ∷ fs) =
    let r = encode_packet digest config (record f { encoder = enc }) in
    r.0 ∷ encodings digest config r.1.encoder fs

-- The bytes of a packet, one datagram for each fragment.
abbrev pub letters : Digest → Config → Packet → List Bytes
letters digest config p = encodings digest config p.encoder (fragments (length p.payload) 1 p)

-- The server, once it has sent the datagrams of a packet to a client.
abbrev pub post : Digest → PrudpAddress → Packet → Server → Server
post digest addr p s = record s {
  events =
      outbox addr.address (lookup addr.address s.proxy_map) (letters digest s.config p) s.events;
}

length-encodings :
    (digest : Digest) (config : Config) (enc : Option Encoder) (fs : List Packet)
    → length (encodings digest config enc fs) ≡ length fs
length-encodings digest config enc [] = refl
length-encodings digest config enc (f ∷ fs) = ap suc (
    length-encodings digest config
      (encode_packet digest config (record f { encoder = enc })).1.encoder fs)

fragments-flags :
    (fuel id : ℕ) (p : Packet) → All (λ (f : Packet). f.flags ≡ p.flags) (fragments fuel id p)
unfolding fragments
fragments-flags zero id p = (refl, tt)
fragments-flags (suc fuel) id p = ground (
  arith,
  fragments-flags fuel ((id + 1) % 256)
      (record p { seq_id = (p.seq_id + 1) % 65536; payload = drop max_packet_size p.payload }),
)

module _ (digest : Digest) (addr : PrudpAddress) (found : Bool) (now : ℕ) where
  send_fragment-once :
      (f : Packet) (s : Server)
      → wants_resend f ≡ false
      → send_fragment digest addr found now f s ≡ (
          let r = encode_packet digest s.config f in
          (emit (datagram addr.address r.0 (lookup addr.address s.proxy_map)) s, r.1))
  unfolding send_fragment send_bytes
  send_fragment-once f s h = rw h refl

  send_fragments-sent :
      (flags : ℕ) (enc : Option Encoder) (fs : List Packet) (s : Server)
      → wants_resend_flags flags ≡ false
      → All (λ (f : Packet). f.flags ≡ flags) fs
      → (send_fragments digest addr found now enc fs s).0 ≡ record s {
        events =
            outbox addr.address
              (lookup addr.address s.proxy_map)
              (encodings digest s.config enc fs)
              s.events;
      }
  unfolding send_fragments
  send_fragments-sent flags enc [] s h k = refl
  send_fragments-sent flags enc (f ∷ fs) s h k =
      let f' = record f { encoder = enc } in
      let r = encode_packet digest s.config f' in
      ap (λ (q : Server × Packet). (send_fragments digest addr found now q.1.encoder fs q.0).0)
        (send_fragment-once f' s (subst (λ n. wants_resend_flags n ≡ false) (sym k.0) h))
      ∙ send_fragments-sent flags r.1.encoder fs
          (emit (datagram addr.address r.0 (lookup addr.address s.proxy_map)) s) h k.1

-- A packet without both the reliable and the need-ack flag is sent: the fragments are encoded one
-- behind the other and go out in this order, to the address or its proxy, and nothing else of the
-- server changes. There is one datagram for every 962 bytes that have begun, and one for an empty
-- payload.
pub send_packet-sent :
    (digest : Digest) (addr : PrudpAddress) (p : Packet) (now : ℕ) (s : Server)
    → wants_resend p ≡ false
    → ((send_packet digest addr p now s).0 ≡ post digest addr p s)
      × (length (letters digest s.config p) ≡ suc ((length p.payload - 1) / max_packet_size))
unfolding send_packet
send_packet-sent digest addr p now s h =
    let fs = fragments (length p.payload) 1 p in
    (
      send_fragments-sent digest addr (is_some (lookup addr s.clients)) now p.flags p.encoder fs s h
          (fragments-flags (length p.payload) 1 p),
      length-encodings digest s.config p.encoder fs
          ∙ length-fragments (length p.payload) 1 p (omega arith),
    )
