-- ===== src/Crypto/Arc4Laws.antt =====
-- What the rest of the program relies on in crypto/arc4.cpp.
use splatit.Base.{suc, ◌≡◌, refl, ap, [], ◌∷◌, length}
use splatit.Base.Bits.{bit_xor_twice}
use splatit.Base.Bytes.{Bytes}
use splatit.Crypto.Arc4.{Arc4, step, key_byte, enc_dec, advance, encrypt, decrypt}

advance-enc_dec : (c : Arc4) (xs : Bytes) → advance c (enc_dec c xs) ≡ advance c xs
unfolding advance enc_dec
advance-enc_dec c [] = refl
advance-enc_dec c (x ∷ xs) = advance-enc_dec (step c) xs

pub length-enc_dec : (c : Arc4) (xs : Bytes) → length (enc_dec c xs) ≡ length xs
unfolding enc_dec
length-enc_dec c [] = refl
length-enc_dec c (x ∷ xs) = ap suc (length-enc_dec (step c) xs)

enc_dec_twice : (c : Arc4) (xs : Bytes) → enc_dec c (enc_dec c xs) ≡ xs
unfolding enc_dec
enc_dec_twice c [] = refl
enc_dec_twice c (x ∷ xs) = rw (bit_xor_twice x (key_byte (step c)), enc_dec_twice (step c) xs)

-- Of two ciphers in the same state one decrypts what the other encrypts, no byte is lost, and both
-- stand at the same state after it.
pub decrypt-encrypt :
    (c : Arc4) (xs : Bytes)
    → (decrypt c (encrypt c xs) ≡ xs)
      × (length (encrypt c xs) ≡ length xs)
      × (advance c (encrypt c xs) ≡ advance c xs)
unfolding encrypt decrypt
decrypt-encrypt c xs = (enc_dec_twice c xs, length-enc_dec c xs, advance-enc_dec c xs)
