-- ===== src/Prudp/V0/Stages.antt =====
-- The stages of `PacketV0::decode` on the bytes that `PacketV0::encode` puts together.
use splatit.Base.{
  ℕ, ◌+◌, ◌-◌, ◌/◌, ◌%◌, ◌≤◌, ◌<◌, ◌≡◌, refl, sym, arith, [], ◌∷◌, ◌++◌, ok, length, take,
  length-append, append_assoc, nil_of_length, ltb, ◌==◌, true, false,
}
use splatit.Base.Bits.{has_flag, bit_or_nibbles}
use splatit.Base.Bytes.{Bytes, at, slice, le16, read16, slice-append, at-append}
use splatit.Prudp.Packet.{
  PacketType, syn, connect, data_type, disconnect, ping, Packet, type_code, type_of_code,
  flag_has_size,
}
use splatit.Prudp.V0.{
  decode, decode_header, decode_specific, decode_payload, calculate_checksum, flags_and_type,
  pack_port, specific,
}

-- The values fit the fields of the wire format.
pub record Fits (p : Packet) : Type 0 where
  pub src_port : p.src_port < 16
  pub src_stream : p.src_stream_type < 16
  pub dst_port : p.dst_port < 16
  pub dst_stream : p.dst_stream_type < 16
  pub flags : p.flags < 4096
  pub session : p.session_id < 256
  pub seq : p.seq_id < 65536
  pub size : length p.encrypted_data < 65536

pack_port-low : (port stream : ℕ) → port < 16 → stream < 16 → pack_port port stream % 16 ≡ port
pack_port-low port stream h k = omega (arith, bit_or_nibbles port stream h)

pack_port-high : (port stream : ℕ) → port < 16 → stream < 16 → pack_port port stream / 16 ≡ stream
pack_port-high port stream h k = omega (arith, bit_or_nibbles port stream h)

unfoldable pub with_header : Packet → Bytes → Packet → Packet
with_header f sig p = record f {
  src_port = p.src_port;
  src_stream_type = p.src_stream_type;
  dst_port = p.dst_port;
  dst_stream_type = p.dst_stream_type;
  flags = p.flags;
  type = p.type;
  session_id = p.session_id;
  signature = sig;
  seq_id = p.seq_id;
}

type_code_small : (t : PacketType) → type_code t < 5
type_code_small syn = omega arith
type_code_small connect = omega arith
type_code_small data_type = omega arith
type_code_small disconnect = omega arith
type_code_small ping = omega arith

type_code_test : (t : PacketType) → ltb 4 (type_code t) ≡ false
type_code_test syn = refl
type_code_test connect = refl
type_code_test data_type = refl
type_code_test disconnect = refl
type_code_test ping = refl

type_of_code-type_code : (t : PacketType) → type_of_code (type_code t) ≡ t
type_of_code-type_code syn = refl
type_of_code-type_code connect = refl
type_of_code-type_code data_type = refl
type_of_code-type_code disconnect = refl
type_of_code-type_code ping = refl

module _ (p f : Packet) (fits : Fits p) (a b c d : ℕ) (rest : Bytes) where
  abbrev pub wire : Bytes
  wire =
      pack_port p.src_port p.src_stream_type
      ∷ pack_port p.dst_port p.dst_stream_type
      ∷ flags_and_type p % 256
      ∷ flags_and_type p / 256 % 256
      ∷ p.session_id
      ∷ a
      ∷ b
      ∷ c
      ∷ d
      ∷ p.seq_id % 256
      ∷ p.seq_id / 256 % 256
      ∷ rest

  code_lem : read16 wire 2 % 16 ≡ type_code p.type
  code_lem = omega (arith, fits.flags, type_code_small p.type)

  flags_lem : read16 wire 2 / 16 ≡ p.flags
  flags_lem = omega (arith, fits.flags, type_code_small p.type)

  seq_lem : read16 wire 9 ≡ p.seq_id
  seq_lem = omega (arith, fits.seq)

  pub decode_header_lem : decode_header wire f ≡ ok (with_header f (a ∷ b ∷ c ∷ d ∷ []) p)
  unfolding decode_header with_header
  decode_header_lem = rw (
    code_lem,
    flags_lem,
    seq_lem,
    pack_port-low p.src_port p.src_stream_type fits.src_port fits.src_stream,
    pack_port-high p.src_port p.src_stream_type fits.src_port fits.src_stream,
    pack_port-low p.dst_port p.dst_stream_type fits.dst_port fits.dst_stream,
    pack_port-high p.dst_port p.dst_stream_type fits.dst_port fits.dst_stream,
    type_of_code-type_code p.type,
    type_code_test p.type,
  )

module _ (pre enc : Bytes) (ck : ℕ) (q : Packet) (fresh : q.encrypted_data ≡ []) where
  same_if_empty : enc ≡ [] → q ≡ record q { encrypted_data = enc }
  same_if_empty e = rw e (ground (arith, fresh))

  pub decode_payload_rest :
      has_flag q.flags flag_has_size ≡ false
      → decode_payload (pre ++ (enc ++ ck ∷ [])) (length pre) q
        ≡ ok (length pre + length enc, record q { encrypted_data = enc })
  unfolding decode_payload
  decode_payload_rest h =
      let n : length (pre ++ (enc ++ ck ∷ [])) ≡ length pre + length enc + 1 =
        omega (arith, length-append pre (enc ++ ck ∷ []), length-append enc (ck ∷ [])) in
      let m : length (pre ++ (enc ++ ck ∷ [])) - 1 - length pre ≡ length enc = omega (arith, n) in
      ground
        (arith, n, slice-append pre enc (ck ∷ []) (length pre) _ refl m, nil_of_length enc, fresh)

  pub decode_payload_sized :
      has_flag q.flags flag_has_size ≡ true
      → length enc < 65536
      → decode_payload (pre ++ (le16 (length enc) ++ (enc ++ ck ∷ []))) (length pre) q
        ≡ ok (length pre + 2 + length enc, record q { encrypted_data = enc })
  unfolding decode_payload
  decode_payload_sized h small =
      let tail = enc ++ ck ∷ [] in
      let d = pre ++ (le16 (length enc) ++ tail) in
      let n : length d ≡ length pre + 2 + length enc + 1 =
        omega (arith, length-append pre (le16 (length enc) ++ tail), length-append enc (ck ∷ [])) in
      let size : read16 d (length pre) ≡ length enc = omega (
        arith,
        small,
        at-append pre (le16 (length enc) ++ tail) (length pre) 0 (omega arith),
        at-append pre (le16 (length enc) ++ tail) (length pre + 1) 1 refl,
      ) in
      let cut : slice d (length pre + 2) (length enc) ≡ enc =
        rw (sym (append_assoc pre (le16 (length enc)) tail)) (
          slice-append (pre ++ le16 (length enc)) enc (ck ∷ []) (length pre + 2) (length enc)
            (omega (arith, length-append pre (le16 (length enc)))) refl) in
      ground (arith, n, size, cut, nil_of_length enc, fresh)

-- The stages of `decode`, put together.
pub decode_stages :
    (d : Bytes) (f h r s : Packet) (o end : ℕ)
    → ltb (length d) 12 ≡ false
    → decode_header d f ≡ ok h
    → decode_specific d h h.type ≡ ok (o, r)
    → decode_payload d o r ≡ ok (end, s)
    → (at d (length d - 1) == calculate_checksum (take end d) s.access_key) ≡ true
    → decode d f ≡ ok (end + 1, s)
unfolding decode
decode_stages d f h r s o end e₁ e₂ e₃ e₄ e₅ = rw (e₁, e₂) (rw e₃ (rw (e₄, e₅)))

pub four : (xs : Bytes) → length xs ≡ 4 → (a b c d : ℕ) × (xs ≡ a ∷ b ∷ c ∷ d ∷ [])
four (a ∷ b ∷ c ∷ d ∷ []) h = (a, b, c, d, refl)
four [] h = absurd (omega (arith, h))
four (a ∷ []) h = absurd (omega (arith, h))
four (a ∷ b ∷ []) h = absurd (omega (arith, h))
four (a ∷ b ∷ c ∷ []) h = absurd (omega (arith, h))
four (a ∷ b ∷ c ∷ d ∷ e ∷ xs) h = absurd (omega (arith, h))

-- What the packet-specific bytes set.
unfoldable pub with_specific : PacketType → Packet → Packet → Packet
with_specific syn q p = record q { remote_signature = p.connection_signature }
with_specific connect q p = record q { remote_signature = p.connection_signature }
with_specific data_type q p = record q { fragment_id = p.fragment_id }
with_specific _ q p = q

pub with_specific_same :
    (t : PacketType) (q p : Packet)
    → ((with_specific t q p).access_key ≡ q.access_key)
      × ((with_specific t q p).encrypted_data ≡ q.encrypted_data)
      × ((with_specific t q p).flags ≡ q.flags)
unfolding with_specific
with_specific_same syn q p = (refl, refl, refl)
with_specific_same connect q p = (refl, refl, refl)
with_specific_same data_type q p = (refl, refl, refl)
with_specific_same disconnect q p = (refl, refl, refl)
with_specific_same ping q p = (refl, refl, refl)

-- The connection signature has 4 bytes where it is written.
abbrev pub Opens : PacketType → Packet → Type 0
Opens syn p = length p.connection_signature ≡ 4
Opens connect p = length p.connection_signature ≡ 4
Opens _ p = Unit {0}

module _ (p f : Packet) (fits : Fits p) (sa sb sc sd : ℕ) (rest : Bytes) where
  abbrev opening_wire : ℕ → ℕ → ℕ → ℕ → Bytes
  opening_wire a b c d = wire p f fits sa sb sc sd (a ∷ b ∷ c ∷ d ∷ rest)

  decode_specific_opening :
      (q : Packet) (a b c d : ℕ)
      → (decode_specific (opening_wire a b c d) q syn
          ≡ ok (15, record q { remote_signature = a ∷ b ∷ c ∷ d ∷ [] }))
        × (decode_specific (opening_wire a b c d) q connect
            ≡ ok (15, record q { remote_signature = a ∷ b ∷ c ∷ d ∷ [] }))
  unfolding decode_specific
  decode_specific_opening q a b c d = (ground arith, ground arith)

  decode_specific_fragment :
      (q : Packet) (a : ℕ)
      → 1 ≤ length rest
      → decode_specific (wire p f fits sa sb sc sd (a ∷ rest)) q data_type
        ≡ ok (12, record q { fragment_id = a })
  unfolding decode_specific
  decode_specific_fragment q a h = ground arith

  pub decode_specific_lem :
      (q : Packet) (t : PacketType)
      → Opens t p
      → 1 ≤ length rest
      → decode_specific (wire p f fits sa sb sc sd (specific t p ++ rest)) q t
        ≡ ok (11 + length (specific t p), with_specific t q p)
  unfolding with_specific
  decode_specific_lem q syn h more =
      let (a, b, c, d, sig) = four p.connection_signature h in
      simp sig (decode_specific_opening q a b c d).0
  decode_specific_lem q connect h more =
      let (a, b, c, d, sig) = four p.connection_signature h in
      simp sig (decode_specific_opening q a b c d).1
  decode_specific_lem q data_type h more = decode_specific_fragment q p.fragment_id more
  decode_specific_lem q disconnect h more = unfold decode_specific in refl
  decode_specific_lem q ping h more = unfold decode_specific in refl
