-- ===== src/Crypto.antt =====
-- crypto/arc4.cpp, and the digests of crypto/tools.cpp, which call OpenSSL and are parameters.
pub mod Arc4
pub mod Arc4Laws
use splatit.Base.{ℕ, ◌≡◌, List}
use splatit.Base.Bytes.{Bytes, IsBytes}
use splatit.Base.{length}

-- `crypto::MD5` and `crypto::HMAC_MD5` (key, then data).
pub record Digest : Type 0 where
  pub md5 : Bytes → Bytes
  pub hmac_md5 : Bytes → Bytes → Bytes

-- What the code relies on: both give 16 bytes.
pub record IsDigest (d : Digest) : Type 0 where
  pub length-md5 : (x : Bytes) → length (d.md5 x) ≡ 16
  pub length-hmac_md5 : (k x : Bytes) → length (d.hmac_md5 k x) ≡ 16
