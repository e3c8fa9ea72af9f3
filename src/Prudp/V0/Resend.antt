-- ===== src/Prudp/V0/Resend.antt =====
-- A packet that `process` sends again, in nex/prudp/packet.cpp.
use splatit.Base.{
  ℕ, ◌≡◌, refl, sym, ap, ◌∙◌, [], ◌∷◌, ◌++◌, Option, none, some, is_empty, Bool-cases, inl, inr,
  if◌then◌else◌,
}
use splatit.Base.Bytes.{Bytes}
use splatit.Crypto.{Digest}
use splatit.Crypto.Arc4.{encrypt, enc_dec}
use splatit.Prudp.Packet.{Packet, Encoder, encrypt_data, encrypt_with, encoder_encode}
use splatit.Prudp.V0.{encode, prepare, body, calculate_checksum}

encrypt_data-done :
    (p : Packet) (x : ℕ) (xs : Bytes) → p.encrypted_data ≡ x ∷ xs → encrypt_data p ≡ p
unfolding encrypt_data
encrypt_data-done p x xs h = ap (λ d. if is_empty d then encrypt_with p.encoder p else p) h

encrypt_with-some :
    (o : Option Encoder) (p : Packet) (y : ℕ) (ys : Bytes)
    → p.payload ≡ y ∷ ys
    → (x : ℕ) × (xs : Bytes) × ((encrypt_with o p).encrypted_data ≡ x ∷ xs)
unfolding encrypt_with encoder_encode encrypt enc_dec
encrypt_with-some none p y ys h = (y, ys, h)
encrypt_with-some (some e) p y ys h = (_, _, ap (enc_dec e.enc_ctx) h)

encrypt_data-fresh :
    (p : Packet) → p.encrypted_data ≡ [] → encrypt_data p ≡ encrypt_with p.encoder p
unfolding encrypt_data
encrypt_data-fresh p h = ap (λ d. if is_empty d then encrypt_with p.encoder p else p) h

encrypt_data-twice :
    (p : Packet) (d : Bytes) (y : ℕ) (ys : Bytes)
    → p.payload ≡ y ∷ ys
    → p.encrypted_data ≡ d
    → encrypt_data (encrypt_data p) ≡ encrypt_data p
encrypt_data-twice p (x ∷ xs) y ys h k = ap encrypt_data (encrypt_data-done p x xs k)
encrypt_data-twice p [] y ys h k =
    let first = encrypt_data-fresh p k in
    let (x, xs, full) = encrypt_with-some p.encoder p y ys h in
    ap encrypt_data first ∙ (encrypt_data-done (encrypt_with p.encoder p) x xs full ∙ sym first)

encrypt_with-payload : (o : Option Encoder) (p : Packet) → (encrypt_with o p).payload ≡ p.payload
unfolding encrypt_with
encrypt_with-payload none p = refl
encrypt_with-payload (some e) p = refl

encrypt_data-payload : (p : Packet) → (encrypt_data p).payload ≡ p.payload
unfolding encrypt_data
encrypt_data-payload p = elim (Bool-cases (is_empty p.encrypted_data)) [
  | inl fresh ↦ rw fresh (encrypt_with-payload p.encoder p)
  | inr done ↦ rw done
]

prepare-twice : (p : Packet) (d : Bytes) → p.payload ≡ d → prepare (prepare p) ≡ prepare p
prepare-twice p [] h = ap prepare (ap (λ d. if is_empty d then p else encrypt_data p) h)
prepare-twice p (y ∷ ys) h =
    let q = encrypt_data p in
    let once : prepare p ≡ q = ap (λ d. if is_empty d then p else encrypt_data p) h in
    let again : prepare q ≡ encrypt_data q =
      ap (λ d. if is_empty d then q else encrypt_data q) (encrypt_data-payload p ∙ h) in
    ap prepare once ∙ (again ∙ (encrypt_data-twice p p.encrypted_data y ys h refl ∙ sym once))

-- A packet that has been encoded is encoded as the same bytes again, and does not change, its
-- cipher included.
pub encode-again :
    (digest : Digest) (p : Packet) → encode digest (encode digest p).1 ≡ encode digest p
unfolding encode
encode-again digest p =
    ap (λ q. (body digest q ++ calculate_checksum (body digest q) q.access_key ∷ [], q))
      (prepare-twice p p.payload refl)
