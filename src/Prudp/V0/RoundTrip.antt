-- ===== src/Prudp/V0/RoundTrip.antt =====
-- `PacketV0::decode` reads back what `PacketV0::encode` wrote.
use splatit.Base.{
  ℕ, ◌+◌, ◌-◌, ◌/◌, ◌%◌, ◌≤◌, ◌<◌, ◌≡◌, refl, sym, subst, ap₂, ◌∙◌, ==_iff, ge→ltb, arith, [], ◌∷◌,
  ◌++◌, ok, length, take, length-append, Bool-cases, inl, inr, append_assoc, ltb, false,
}
use splatit.Base.Bits.{has_flag}
use splatit.Base.Bytes.{Bytes, at, le16, at-append, take-append}
use splatit.Crypto.{Digest}
use splatit.Prudp.Packet.{Packet, flag_has_size}
use splatit.Prudp.V0.{
  decode, decode_specific, decode_payload, calculate_checksum, flags_and_type, pack_port, specific,
  size_field, encode, prepare, or_zeros, calculate_signature,
}
use splatit.Prudp.V0.Stages.{
  Fits, Opens, with_header, wire, with_specific, with_specific_same, decode_header_lem,
  decode_payload_rest, decode_payload_sized, decode_stages, decode_specific_lem, four,
}

-- The signature that `encode` writes.
abbrev pub signature_of : Digest → Packet → Bytes
signature_of digest p = calculate_signature digest p (or_zeros p.remote_signature)

-- What `decode` makes of a fresh packet.
pub decoded : Packet → Bytes → Packet → Packet
unfolding with_header with_specific
decoded f sig p = record (with_specific p.type (with_header f sig p) p) {
  encrypted_data = p.encrypted_data;
}

-- The payload with or without its size, behind any prefix.
decode_payload_lem :
    (pre : Bytes) (ck : ℕ) (p q : Packet)
    → q.encrypted_data ≡ []
    → q.flags ≡ p.flags
    → length p.encrypted_data < 65536
    → decode_payload (pre ++ (size_field p ++ (p.encrypted_data ++ ck ∷ []))) (length pre) q
      ≡ ok (
        length pre + length (size_field p) + length p.encrypted_data,
        record q { encrypted_data = p.encrypted_data },
      )
decode_payload_lem pre ck p q clean same small =
    elim (Bool-cases (has_flag p.flags flag_has_size)) [
      | inl y ↦
          let fits : length p.encrypted_data % 65536 ≡ length p.encrypted_data =
            omega (arith, small) in
          rw (y, fits) (decode_payload_sized pre p.encrypted_data ck q clean (rw same y) small)
      | inr n ↦
          let none : length pre + 0 ≡ length pre = omega arith in
          rw (n, none) (decode_payload_rest pre p.encrypted_data ck q clean (rw same n))
    ]

module _ (p f : Packet) (fits : Fits p) (opens : Opens p.type p) (sa sb sc sd ck : ℕ) where
  abbrev front : Bytes
  front = wire p f fits sa sb sc sd (specific p.type p)

  abbrev whole : Bytes
  whole = front ++ (size_field p ++ p.encrypted_data)

  abbrev sent : Bytes
  sent = front ++ (size_field p ++ (p.encrypted_data ++ ck ∷ []))

  regroup : whole ++ ck ∷ [] ≡ sent
  regroup = simp append_assoc

  length-whole : length whole ≡ length front + length (size_field p) + length p.encrypted_data
  length-whole = omega (
    arith,
    length-append front (size_field p ++ p.encrypted_data),
    length-append (size_field p) p.encrypted_data,
  )

  length-sent : length sent ≡ length whole + 1
  length-sent = subst (λ x. length x ≡ length whole + 1) regroup (length-append whole (ck ∷ []))

  sent_last : at sent (length sent - 1) ≡ ck
  sent_last =
      let n : length sent - 1 ≡ length whole + 0 = omega (arith, length-sent) in
      rw n (
        subst (λ x. at x (length whole + 0) ≡ ck) regroup
          (at-append whole (ck ∷ []) (length whole + 0) 0 refl))

  sent-take : take (length whole) sent ≡ whole
  sent-take =
      subst (λ x. take (length whole) x ≡ whole) regroup
        (take-append whole (ck ∷ []) (length whole) refl)

  abbrev tail : Bytes
  tail = size_field p ++ (p.encrypted_data ++ ck ∷ [])

  tail_long : 1 ≤ length tail
  tail_long = omega (
    arith,
    length-append (size_field p) (p.encrypted_data ++ ck ∷ []),
    length-append p.encrypted_data (ck ∷ []),
  )

  sent_long : ltb (length sent) 12 ≡ false
  sent_long =
      ge→ltb (length sent) 12 (omega (arith, tail_long, length-append (specific p.type p) tail))

  decode_wire :
      f.encrypted_data ≡ []
      → f.access_key ≡ p.access_key
      → ck ≡ calculate_checksum whole p.access_key
      → decode sent f ≡ ok (length whole + 1, decoded f (sa ∷ sb ∷ sc ∷ sd ∷ []) p)
  unfolding decoded with_header
  decode_wire clean keyed sum =
      let h = with_header f (sa ∷ sb ∷ sc ∷ sd ∷ []) p in
      let q = with_specific p.type h p in
      let (key, enc, fl) = with_specific_same p.type h p in
      let n : length front ≡ 11 + length (specific p.type p) = omega arith in
      decode_stages sent f h q (decoded f (sa ∷ sb ∷ sc ∷ sd ∷ []) p) (length front) (length whole)
        sent_long (decode_header_lem p f fits sa sb sc sd (specific p.type p ++ tail))
        (subst (λ (o : ℕ). decode_specific sent h p.type ≡ ok (o, q)) (sym n)
          (decode_specific_lem p f fits sa sb sc sd tail h p.type opens tail_long))
        (subst
          (λ (e : ℕ).
            decode_payload sent (length front) q
            ≡ ok (e, record q { encrypted_data = p.encrypted_data }))
          (sym length-whole) (decode_payload_lem front ck p q (enc ∙ clean) fl fits.size))
        ((==_iff _ _).1
          (sent_last ∙ sum ∙ ap₂ calculate_checksum (sym sent-take) (sym (key ∙ keyed))))

-- The bytes before the checksum, with any signature.
abbrev assemble : Packet → Bytes → Bytes
assemble p sig =
    pack_port p.src_port p.src_stream_type
    ∷ pack_port p.dst_port p.dst_stream_type
    ∷ flags_and_type p % 256
    ∷ flags_and_type p / 256 % 256
    ∷ p.session_id
    ∷ (sig ++ (le16 p.seq_id ++ (specific p.type p ++ (size_field p ++ p.encrypted_data))))

abbrev with_checksum : Packet → Bytes → Bytes
with_checksum p b = b ++ calculate_checksum b p.access_key ∷ []

abbrev ReadBack : Packet → Packet → Bytes → Type 0
ReadBack p f sig =
    decode (with_checksum p (assemble p sig)) f
    ≡ ok (length (with_checksum p (assemble p sig)), decoded f sig p)

ReadBack-wire :
    (p f : Packet) (fits : Fits p) (opens : Opens p.type p) (a b c d : ℕ)
    → f.encrypted_data ≡ []
    → f.access_key ≡ p.access_key
    → ReadBack p f (a ∷ b ∷ c ∷ d ∷ [])
ReadBack-wire p f fits opens a b c d clean keyed =
    let w = assemble p (a ∷ b ∷ c ∷ d ∷ []) in
    let ck = calculate_checksum w p.access_key in
    subst (λ x. decode x f ≡ ok (length x, decoded f (a ∷ b ∷ c ∷ d ∷ []) p))
      (sym (regroup p f fits opens a b c d ck))
      (rw (length-sent p f fits opens a b c d ck)
        (decode_wire p f fits opens a b c d ck clean keyed refl))

-- What `encode` writes for a packet whose fields fit is read back by a fresh packet with the same
-- access key: every field on the wire, the signature and the encrypted payload, with all of the
-- bytes taken. The signature that is written has 4 bytes.
pub decode-encode_packet :
    (digest : Digest) (p f : Packet)
    → Fits (encode digest p).1
    → Opens (encode digest p).1.type (encode digest p).1
    → length (signature_of digest (encode digest p).1) ≡ 4
    → f.encrypted_data ≡ []
    → f.access_key ≡ (encode digest p).1.access_key
    → decode (encode digest p).0 f
      ≡ ok (
        length (encode digest p).0,
        decoded f (signature_of digest (encode digest p).1) (encode digest p).1,
      )
unfolding encode
decode-encode_packet digest p f fits opens four_bytes clean keyed =
    let q : Packet = prepare p in
    let (a, b, c, d, e) = four (signature_of digest q) four_bytes in
    subst (ReadBack q f) (sym e) (ReadBack-wire q f fits opens a b c d clean keyed)
