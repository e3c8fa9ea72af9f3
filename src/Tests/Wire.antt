-- ===== src/Tests/Wire.antt =====
-- The theorems on the wire formats, the cipher and the tickets, at concrete bytes.
use splatit.Base.{ℕ, ◌≡◌, ◌≤◌, ◌⊎◌, inl, refl, arith, [], ◌∷◌, ◌++◌, length, replicate, ok}
use splatit.Base.Bytes.{Bytes, le32}
use splatit.Crypto.Arc4.{Arc4, init, encrypt, decrypt, advance}
use splatit.Crypto.Arc4Laws.{decrypt-encrypt}
use splatit.Prudp.Kerberos.{Request, decrypt_connect_request, generate_user_key}
use splatit.Prudp.Kerberos.Guards.{Granted, accepted-Granted, accepted-later}
use splatit.Prudp.Packet.{Packet, new_packet, ping}
use splatit.Prudp.V0
use splatit.Prudp.V0.Consumed.{decode_consumes, decode_overruns}
use splatit.Prudp.V0.Resend.{encode-again}
use splatit.Prudp.V0.Stages.{Fits}
use splatit.Prudp.V0.RoundTrip.{decode-encode_packet, decoded, signature_of}
use splatit.Prudp.V1
use splatit.Prudp.V1.Consumed.{decode_within}
use splatit.Prudp.V1.Options.{OptionRun, options-OptionRun}
use splatit.Tests.Data.{toy_digest, toy_env, data_with}

abbrev plain : Packet
plain = record (data_with 5 0 []) { payload = 1 ∷ 2 ∷ 3 ∷ []; access_key = 9 ∷ [] }

abbrev fresh : Packet
fresh = record new_packet { access_key = 9 ∷ [] }

plain-Fits : Fits (V0.encode toy_digest plain).1
plain-Fits =
    unfold V0.encode in
    record {
      src_port = omega arith;
      src_stream = omega arith;
      dst_port = omega arith;
      dst_stream = omega arith;
      flags = omega arith;
      session = omega arith;
      seq = omega arith;
      size = omega arith;
    }

decode-encode_packet_example :
    V0.decode (V0.encode toy_digest plain).0 fresh
    ≡ ok (
      length (V0.encode toy_digest plain).0,
      decoded fresh
          (signature_of toy_digest (V0.encode toy_digest plain).1)
          (V0.encode toy_digest plain).1,
    )
unfolding V0.encode
decode-encode_packet_example =
    decode-encode_packet toy_digest plain fresh plain-Fits tt refl refl refl

encode-again_example :
    V0.encode toy_digest (V0.encode toy_digest plain).1 ≡ V0.encode toy_digest plain
encode-again_example = encode-again toy_digest plain

-- Fifteen zeros pass as a SYN packet.
abbrev short : Bytes
short = replicate 15 0

-- The number of bytes that `decode` says they are.
abbrev taken : ℕ
taken = 16

abbrev read_short : Packet
read_short = record new_packet {
  src_stream_type = 0;
  dst_stream_type = 0;
  remote_signature = replicate 4 0;
  signature = replicate 4 0;
}

read_short_lem : V0.decode short new_packet ≡ ok (taken, read_short)
unfolding V0.decode
read_short_lem = refl

decode_consumes_example : (taken ≡ length short) ⊎ ((length short ≡ 15) × (taken ≡ 16))
decode_consumes_example = decode_consumes short new_packet read_short taken read_short_lem

decode_overruns_example : taken ≡ 16
decode_overruns_example =
    decode_overruns short new_packet read_short taken read_short_lem refl (inl refl)

abbrev probe : Bytes
probe = 0xEA ∷ 0xD0 ∷ 1 ∷ 0 ∷ 0 ∷ 0 ∷ 0xAF ∷ 0xA1 ∷ 4 ∷ 0 ∷ replicate 20 0

abbrev read_probe : Packet
read_probe = record new_packet {
  type = ping;
  src_port = 15;
  dst_port = 1;
  signature = replicate 16 0;
  header = 0xEA ∷ 0xD0 ∷ 1 ∷ 0 ∷ 0 ∷ 0 ∷ 0xAF ∷ 0xA1 ∷ 4 ∷ 0 ∷ replicate 4 0;
}

read_probe_lem : V1.decode probe new_packet ≡ ok (30, read_probe)
unfolding V1.decode
read_probe_lem = refl

decode_within_example : (30 ≤ 30) × (30 ≤ length probe)
decode_within_example = decode_within probe new_packet read_probe 30 read_probe_lem

options-OptionRun_example :
    OptionRun (4 ∷ 1 ∷ 0 ∷ []) new_packet (V1.options 3 (4 ∷ 1 ∷ 0 ∷ []) new_packet)
options-OptionRun_example = options-OptionRun 3 (4 ∷ 1 ∷ 0 ∷ []) new_packet (omega arith)

abbrev cipher : Arc4
cipher = init (1 ∷ 2 ∷ [])

decrypt-encrypt_example :
    (decrypt cipher (encrypt cipher (5 ∷ 6 ∷ [])) ≡ 5 ∷ 6 ∷ [])
    × (length (encrypt cipher (5 ∷ 6 ∷ [])) ≡ 2)
    × (advance cipher (encrypt cipher (5 ∷ 6 ∷ [])) ≡ advance cipher (5 ∷ 6 ∷ []))
decrypt-encrypt_example = decrypt-encrypt cipher (5 ∷ 6 ∷ [])

-- A ticket as the authentication server makes it, for the user 77.
abbrev sealed : Bytes → Bytes → Bytes
sealed key d = let e = encrypt (init key) d in e ++ toy_digest.hmac_md5 key e

abbrev session_key : Bytes
session_key = replicate 16 8

abbrev connect_request : Bytes
connect_request =
    le32 44
    ++ (sealed (replicate 16 7) (replicate 8 0 ++ (le32 77 ++ session_key))
        ++ (le32 28 ++ sealed session_key (le32 77 ++ (le32 5 ++ le32 6))))

abbrev user : Request
user = record { session_key = session_key; user_pid = 77; connection_id = 5; check_value = 6 }

user_lem :
    decrypt_connect_request toy_digest toy_env.to_time 1000 connect_request (1 ∷ []) 2 ≡ ok user
unfolding decrypt_connect_request encrypt init
user_lem = refl

accepted-Granted_example :
    Granted toy_digest toy_env.to_time
      (generate_user_key toy_digest (1 ∷ []) 2)
      connect_request
      user
accepted-Granted_example =
    accepted-Granted toy_digest toy_env.to_time 1000 connect_request (1 ∷ []) 2 user user_lem

accepted-later_example :
    decrypt_connect_request toy_digest toy_env.to_time 9000 connect_request (1 ∷ []) 2 ≡ ok user
accepted-later_example =
    accepted-later toy_digest toy_env.to_time 1000 9000 connect_request (1 ∷ []) 2 user user_lem
      (omega arith)
