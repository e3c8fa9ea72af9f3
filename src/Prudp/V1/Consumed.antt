-- ===== src/Prudp/V1/Consumed.antt =====
-- How much of a datagram `PacketV1::decode` says it took.
use splatit.Base.{ℕ, ◌+◌, ◌≤◌, ◌≡◌, arith, ok, length, >>=-eq-ok}
use splatit.Base.Bytes.{Bytes, at, read16}
use splatit.Prudp.Packet.{Packet}
use splatit.Prudp.V1.{decode, decode_header, options}

decode_header-fits :
    (d : Bytes) (p q : Packet) → decode_header d p ≡ ok q → 30 + at d 3 + read16 d 4 ≤ length d
unfolding decode_header
decode_header-fits d p q e = ground arith

-- A V1 packet that is accepted takes at least its header and signature, and never more than there
-- is.
pub decode_within :
    (d : Bytes) (p q : Packet) (n : ℕ) → decode d p ≡ ok (n, q) → (30 ≤ n) × (n ≤ length d)
unfolding decode
decode_within d p q n e =
    let (h, eh, e₁) = >>=-eq-ok (decode_header d p) _ e in
    let (r, er, e₂) =
      >>=-eq-ok (options (length h.packet_specific_data) h.packet_specific_data h) _ e₁ in
    let bound = decode_header-fits d p h eh in (ground arith, ground arith)
