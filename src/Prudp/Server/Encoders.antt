-- ===== src/Prudp/Server/Encoders.antt =====
-- The class `PayloadEncoder` of nex/prudp/server.cpp.
use splatit.Base.{ℕ, zero, suc, ◌+◌, ◌-◌, ◌/◌, ◌%◌, List, [], ◌∷◌, ◌++◌, length, set, get_or}
use splatit.Base.Bytes.{Bytes, at}
use splatit.Crypto.{Digest}
use splatit.Crypto.Arc4.{init}
use splatit.Prudp.Packet.{Encoder, new_encoder, Packet}
use splatit.Prudp.Server.{ClientInfo}

-- `sessionKey[j] += (sessionKey[j] + add - j) & 0xFF` for `j` from `j` on, `left` times.
next_key : ℕ → ℕ → ℕ → Bytes → Bytes
next_key zero j add key = key
next_key (suc left) j add key =
    next_key left (j + 1) add (set key j ((at key j + (at key j + add - j) % 256) % 256))

-- One encoder for each of the substreams that are left.
unfoldable pub make_encoders : ℕ → Bytes → List Encoder
unfolding next_key init
make_encoders zero key = []
make_encoders (suc left) key =
    new_encoder key ∷ make_encoders left (next_key (length key / 2) 0 (length key / 2 + 1) key)

-- `getReliableEncoder` and `setReliableEncoder`
unfoldable pub get_reliable_encoder : ClientInfo → ℕ → Encoder
get_reliable_encoder c id = get_or c.encoders id (new_encoder c.encoder_key)

unfoldable pub set_reliable_encoder : ℕ → Encoder → ClientInfo → ClientInfo
set_reliable_encoder id e c = record c { encoders = set c.encoders id e }

module _ (digest : Digest) where
  combine_keys : Bytes → Bytes → Bytes
  combine_keys a b = digest.md5 (a ++ b)

  abbrev constant_a : Bytes
  constant_a = 0x18 ∷ 0xd8 ∷ 0x23 ∷ 0x34 ∷ 0x37 ∷ 0xe4 ∷ 0xe3 ∷ 0xfe ∷ []

  abbrev constant_b : Bytes
  constant_b = 0x23 ∷ 0x3e ∷ 0x60 ∷ 0x01 ∷ 0x23 ∷ 0xcd ∷ 0xab ∷ 0x80 ∷ []

  abbrev add_at : ℕ → ℕ → Bytes → Bytes
  add_at i v key = set key i ((at key i + v) % 256)

  -- `getUnreliableEncoder`
  unfoldable pub get_unreliable_encoder : ClientInfo → Packet → Encoder
  unfolding combine_keys
  get_unreliable_encoder c p =
      let key = combine_keys c.encoder_key constant_a ++ combine_keys c.encoder_key constant_b in
      new_encoder (add_at 31 p.session_id (add_at 1 (p.seq_id / 256) (add_at 0 p.seq_id key)))
