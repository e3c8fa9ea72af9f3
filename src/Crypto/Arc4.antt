-- ===== src/Crypto/Arc4.antt =====
-- The ARC4 class of crypto/arc4.cpp: the key schedule and the stream.
use Prim.Native.Nat.{bit_xor}
use splatit.Base.{ℕ, zero, suc, ◌+◌, ◌%◌, [], ◌∷◌, length, set}
use splatit.Base.Bytes.{Bytes, at}

-- `i` and `j` are the fields that go on from call to call; `state` has 256 entries.
pub record Arc4 : Type 0 where
  pub state : Bytes
  pub i : ℕ
  pub j : ℕ

-- `std::swap(state[a], state[b])`
unfoldable pub swap : Bytes → ℕ → ℕ → Bytes
swap s a b = set (set s a (at s b)) b (at s a)

-- `for (idx = first; …; idx++) state[idx] = idx`, `count` entries.
unfoldable pub identity_state : ℕ → ℕ → Bytes
identity_state zero first = []
identity_state (suc count) first = first ∷ identity_state count (first + 1)

-- The second loop of the constructor, with `rounds` rounds left. A key is not empty: the code
-- computes `idx % key.size()`.
unfoldable pub schedule : Bytes → ℕ → ℕ → ℕ → Bytes → Bytes
schedule key zero idx a s = s
schedule key (suc rounds) idx a s =
    let a' = (a + at s idx + at key (idx % length key)) % 256 in
    schedule key rounds (idx + 1) a' (swap s idx a')

unfoldable pub init : Bytes → Arc4
unfolding schedule identity_state swap
init key = record { state = schedule key 256 0 0 (identity_state 256 0); i = 0; j = 0 }

-- One round of the loop of `encDec`: the cipher afterwards and the byte of the key stream.
unfoldable pub step : Arc4 → Arc4
unfolding swap
step c =
    let i' = (c.i + 1) % 256 in
    let j' = (c.j + at c.state i') % 256 in record { state = swap c.state i' j'; i = i'; j = j' }

unfoldable pub key_byte : Arc4 → ℕ
key_byte c = at c.state ((at c.state c.i + at c.state c.j) % 256)

unfoldable pub enc_dec : Arc4 → Bytes → Bytes
unfolding step key_byte
enc_dec c [] = []
enc_dec c (x ∷ xs) = let c' = step c in bit_xor x (key_byte c') ∷ enc_dec c' xs

-- The cipher after `enc_dec` on as many bytes.
unfoldable pub advance : Arc4 → Bytes → Arc4
unfolding step
advance c [] = c
advance c (x ∷ xs) = advance (step c) xs

-- `encrypt` and `decrypt` are both `encDec`.
unfoldable pub encrypt : Arc4 → Bytes → Bytes
unfolding enc_dec
encrypt c xs = enc_dec c xs

unfoldable pub decrypt : Arc4 → Bytes → Bytes
unfolding enc_dec
decrypt c xs = enc_dec c xs
