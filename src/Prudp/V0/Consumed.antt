-- ===== src/Prudp/V0/Consumed.antt =====
-- How much of a datagram `PacketV0::decode` says it took; `onData` erases that much of it.
use splatit.Base.{
  ℕ, ◌+◌, ◌-◌, ◌≤◌, ◌<◌, ◌≡◌, ◌⊎◌, inr, refl, arith, length, length-take, length-drop, drop,
  malformed, ltb, ok, >>=-eq-ok, throw_if-eq-ok,
}
use splatit.Base.Bytes.{Bytes, slice}
use splatit.Prudp.Packet.{PacketType, syn, connect, data_type, disconnect, ping, Packet}
use splatit.Prudp.V0.{decode, decode_header, decode_specific, decode_payload}

-- The offset behind the packet-specific bytes leaves room for the checksum, but for a SYN or
-- CONNECT packet of 15 bytes.
abbrev Fits : Bytes → ℕ → Type 0
Fits d offset = (offset < length d) ⊎ ((offset ≡ 15) × (length d ≡ 15))

decode_specific-Fits :
    (d : Bytes) (p r : Packet) (t : PacketType) (offset : ℕ)
    → 12 ≤ length d
    → decode_specific d p t ≡ ok (offset, r)
    → Fits d offset
unfolding decode_specific
decode_specific-Fits d p r syn offset h e = ground arith
decode_specific-Fits d p r connect offset h e = ground arith
decode_specific-Fits d p r data_type offset h e = ground arith
decode_specific-Fits d p r disconnect offset h e = ground arith
decode_specific-Fits d p r ping offset h e = ground arith

length-slice :
    (d : Bytes) (from count : ℕ) → from + count ≤ length d → length (slice d from count) ≡ count
length-slice d from count h = omega (arith, length-take count (drop from d), length-drop from d)

decode_payload-end :
    (d : Bytes) (p r : Packet) (offset end : ℕ)
    → Fits d offset
    → decode_payload d offset p ≡ ok (end, r)
    → (end + 1 ≡ length d) ⊎ ((length d ≡ 15) × (end ≡ 15))
unfolding decode_payload
decode_payload-end d p r offset end h e =
    ground (arith, length-slice d offset (length d - 1 - offset))

decode-steps :
    (d : Bytes) (p q : Packet) (n : ℕ)
    → decode d p ≡ ok (n, q)
    → (h r : Packet) × (o end : ℕ) × (12 ≤ length d)
      × (decode_header d p ≡ ok h)
      × (decode_specific d h h.type ≡ ok (o, r))
      × (decode_payload d o r ≡ ok (end, q))
      × (n ≡ end + 1)
unfolding decode
decode-steps d p q n e =
    let (long, e₁) = throw_if-eq-ok (ltb (length d) 12) malformed _ e in
    let (h, eh, e₂) = >>=-eq-ok (decode_header d p) _ e₁ in
    let (r, es, e₃) = >>=-eq-ok (decode_specific d h h.type) _ e₂ in
    let (s, ep, e₄) = >>=-eq-ok (decode_payload d r.0 r.1) _ e₃ in
    (h, r.1, r.0, s.0, ground arith, eh, es, ground arith, ground arith)

-- A V0 packet that is accepted takes the whole datagram, but for a datagram of 15 bytes, of which
-- it may take 16.
pub decode_consumes :
    (d : Bytes) (p q : Packet) (n : ℕ)
    → decode d p ≡ ok (n, q)
    → (n ≡ length d) ⊎ ((length d ≡ 15) × (n ≡ 16))
decode_consumes d p q n e =
    let (h, r, o, end, long, eh, es, ep, en) = decode-steps d p q n e in
    ground (arith, decode_payload-end d r q o end (decode_specific-Fits d h r h.type o long es) ep)

decode_specific-type :
    (d : Bytes) (p r : Packet) (t : PacketType) (offset : ℕ)
    → p.type ≡ t
    → decode_specific d p t ≡ ok (offset, r)
    → (r.type ≡ t) × ((t ≡ syn) ⊎ (t ≡ connect) → offset ≡ 15)
unfolding decode_specific
decode_specific-type d p r syn offset h e = (ground arith, λ k. ground arith)
decode_specific-type d p r connect offset h e = (ground arith, λ k. ground arith)
decode_specific-type d p r data_type offset h e = (ground arith, λ k. ground arith)
decode_specific-type d p r disconnect offset h e = (ground arith, λ k. ground arith)
decode_specific-type d p r ping offset h e = (ground arith, λ k. ground arith)

decode_payload-type :
    (d : Bytes) (p r : Packet) (offset end : ℕ)
    → decode_payload d offset p ≡ ok (end, r)
    → (r.type ≡ p.type) × (offset ≤ end)
unfolding decode_payload
decode_payload-type d p r offset end e = ground arith

-- A datagram of 15 bytes that is accepted as a SYN or CONNECT packet is said to have taken 16.
pub decode_overruns :
    (d : Bytes) (p q : Packet) (n : ℕ)
    → decode d p ≡ ok (n, q)
    → length d ≡ 15
    → (q.type ≡ syn) ⊎ (q.type ≡ connect)
    → n ≡ 16
decode_overruns d p q n e l t =
    let (h, r, o, end, long, eh, es, ep, en) = decode-steps d p q n e in
    let (same, past) = decode_specific-type d h r h.type o refl es in
    let (same', more) = decode_payload-type d r q o end ep in
    let start : o ≡ 15 = past (ground arith) in
    ground (arith, decode_payload-end d r q o end (inr (start, l)) ep)
