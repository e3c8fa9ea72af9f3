-- ===== src/Prudp/Kerberos.antt =====
-- nex/prudp/kerberos.cpp: the user key and the check of a CONNECT request; and `Datetime::decode` of
-- nex/types/common/datetime.hpp, which it uses.
use splatit.Base.{
  ℕ, zero, suc, ◌+◌, ◌-◌, ◌*◌, ◌/◌, ◌%◌, ◌^◌, Bool, true, false, not, List, [], ◌∷◌, ◌==◌, ltb,
  if◌then◌else◌, length, take, drop, Result, ok, err, ◌>>=◌, ◌>>◌, throw_if, malformed, runtime,
}
use splatit.Base.Bytes.{Bytes, at, slice, read32, bytes_eq}
use splatit.Crypto.{Digest}
use splatit.Crypto.Arc4.{init, decrypt}
pub mod Guards

-- `for (i = 0; i < count; i++) key = MD5(key)`
unfoldable pub iterate_md5 : Digest → ℕ → Bytes → Bytes
iterate_md5 digest zero key = key
iterate_md5 digest (suc count) key = iterate_md5 digest count (digest.md5 key)

-- `generateUserKey`
unfoldable pub generate_user_key : Digest → Bytes → ℕ → Bytes
unfolding iterate_md5
generate_user_key digest password pid = iterate_md5 digest (65000 + pid % 1024) password

-- The fields of `Datetime::decode`, read as a time by `to_time`: year, month, day, hour, minute, second.
unfoldable pub decode_datetime : (ℕ → ℕ → ℕ → ℕ → ℕ → ℕ → ℕ) → Bytes → Result ℕ
decode_datetime to_time d = do
  throw_if (ltb (length d) 8) malformed
  let v = read32 d 0 + read32 d 4 * 2 ^ 32
  ok (
      to_time (v / 2 ^ 26) (v / 2 ^ 22 % 16) (v / 2 ^ 17 % 32) (v / 2 ^ 12 % 32) (v / 2 ^ 6 % 64)
        (v % 64))

pub record Request : Type 0 where
  pub session_key : Bytes
  pub user_pid : ℕ
  pub connection_id : ℕ
  pub check_value : ℕ

-- A length in front of two sections. The sums are made in 32 bits, where they wrap.
pub record Sections : Type 0 where
  pub ticket : Bytes
  pub request : Bytes

unfoldable pub split_sections : Bytes → Result Sections
split_sections d = do
  throw_if (ltb (length d) 4) runtime
  let n = read32 d 0
  throw_if (ltb (length d) ((n + 8) % 2 ^ 32)) runtime
  let m = read32 d ((n + 4) % 2 ^ 32)
  throw_if (ltb (length d) ((n + m + 8) % 2 ^ 32)) runtime
  ok (record { ticket = slice d 4 n; request = slice d (8 + n) m })

-- The last 16 bytes are the HMAC of the bytes before them, which the key decrypts.
unfoldable pub open_sealed : Digest → Bytes → Bytes → Result Bytes
unfolding decrypt init bytes_eq
open_sealed digest key d = do
  throw_if (ltb (length d) 16) runtime
  let body = take (length d - 16) d
  throw_if (not (bytes_eq (digest.hmac_md5 key body) (drop (length d - 16) d))) runtime
  ok (decrypt (init key) body)

-- Two minutes, in the unit of `to_time` (seconds).
abbrev pub ticket_leeway : ℕ
ticket_leeway = 120

module _ (digest : Digest) (to_time : ℕ → ℕ → ℕ → ℕ → ℕ → ℕ → ℕ) (now : ℕ) where
  -- `decryptConnectRequest`, with its four output arguments as a record.
  unfoldable pub decrypt_connect_request : Bytes → Bytes → ℕ → Result Request
  unfolding split_sections open_sealed decode_datetime generate_user_key
  decrypt_connect_request ticket secure_passwd secure_pid = do
    sections ← split_sections ticket
    inner ← open_sealed digest (generate_user_key digest secure_passwd secure_pid) sections.ticket
    throw_if (ltb (length inner) 12) runtime
    date ← decode_datetime to_time inner
    throw_if (ltb (now + ticket_leeway) date) runtime
    let key = drop 12 inner
    body ← open_sealed digest key sections.request
    throw_if (ltb (length body) 12) runtime
    throw_if (not (read32 body 0 == read32 inner 8)) runtime
    ok (record {
      session_key = key;
      user_pid = read32 inner 8;
      connection_id = read32 body 4;
      check_value = read32 body 8;
    })
