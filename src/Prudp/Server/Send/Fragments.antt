-- ===== src/Prudp/Server/Send/Fragments.antt =====
-- How `sendPacket` of nex/prudp/server.cpp cuts a packet, and what `sendDataPacket` counts.
use splatit.Base.{
  ℕ, zero, suc, ◌+◌, ◌-◌, ◌/◌, ◌%◌, ◌≤◌, ◌<◌, ◌≡◌, inl, inr, refl, ap, ◌∙◌, arith, List, [], ◌∷◌,
  ◌++◌, append-nil, length, take, drop, take-append-drop, length-take, length-drop, ltb, All,
  Bool-cases, ltb→lt,
}
use splatit.Base.Bytes.{Bytes}
use splatit.Prudp.Packet.{Packet}
use splatit.Prudp.Server.Send.{fragments, max_packet_size}

-- The bytes that a receiver puts together again.
abbrev pub content : List Packet → Bytes
content [] = []
content (f ∷ fs) = f.payload ++ content fs

-- The packet of the next round, and the fragment of this one.
abbrev rest_of : Packet → Packet
rest_of p = record p { seq_id = (p.seq_id + 1) % 65536; payload = drop max_packet_size p.payload }

abbrev cut : ℕ → Packet → Packet
cut id p = record p { fragment_id = id; payload = take max_packet_size p.payload }

-- What holds of the cut of a small packet and of one more fragment holds of every cut.
fragments-cases {κ} :
    (P : ℕ → Packet → List Packet → Type κ)
    → ((id : ℕ) (p : Packet) → length p.payload ≤ max_packet_size → P id p (p ∷ []))
    → ((id : ℕ) (p : Packet) (fs : List Packet)
        → max_packet_size < length p.payload
        → P ((id + 1) % 256) (rest_of p) fs
        → P id p (cut id p ∷ fs))
    → (fuel id : ℕ) (p : Packet) → length p.payload ≤ fuel
    → P id p (fragments fuel id p)
unfolding fragments
fragments-cases P last more zero id p h = last id p (omega (arith, h))
fragments-cases P last more (suc fuel) id p h =
    elim (Bool-cases (ltb max_packet_size (length p.payload))) [
      | inr small ↦ rw small (last id p (ground arith))
      | inl big ↦ rw big (
          more id p (fragments fuel ((id + 1) % 256) (rest_of p))
            (ltb→lt max_packet_size (length p.payload) big)
            (fragments-cases P last more fuel ((id + 1) % 256) (rest_of p)
              (ground (arith, length-drop max_packet_size p.payload))))
    ]

-- With fuel for the payload, the fragments carry it, whole and in order.
pub content-fragments :
    (fuel id : ℕ) (p : Packet) → length p.payload ≤ fuel → content (fragments fuel id p) ≡ p.payload
content-fragments =
    fragments-cases (λ id p fs. content fs ≡ p.payload) (λ id p h. append-nil p.payload)
      (λ id p fs h e.
        ap (λ (d : Bytes). take max_packet_size p.payload ++ d) e
        ∙ take-append-drop max_packet_size p.payload)

-- With fuel for the payload, no fragment carries more than the greatest size.
pub size-fragments :
    (fuel id : ℕ) (p : Packet)
    → length p.payload ≤ fuel
    → All (λ (f : Packet). length f.payload ≤ max_packet_size) (fragments fuel id p)
size-fragments =
    fragments-cases (λ id p fs. All (λ (f : Packet). length f.payload ≤ max_packet_size) fs)
      (λ id p h. (h, tt)) (λ id p fs h e. (omega (arith, length-take max_packet_size p.payload), e))

-- There are as many as it takes, and one for an empty payload.
pub length-fragments :
    (fuel id : ℕ) (p : Packet)
    → length p.payload ≤ fuel
    → length (fragments fuel id p) ≡ suc ((length p.payload - 1) / max_packet_size)
length-fragments =
    fragments-cases (λ id p fs. length fs ≡ suc ((length p.payload - 1) / max_packet_size))
      (λ id p h. omega (arith, h))
      (λ id p fs h e. omega (arith, h, e, length-drop max_packet_size p.payload))

-- The sequence IDs go up by one, the fragment IDs too, and the last fragment keeps the packet's.
abbrev pub Numbered : ℕ → ℕ → ℕ → List Packet → Type 0
Numbered seq id last [] = ⊥
Numbered seq id last (f ∷ []) = (f.seq_id ≡ seq) × (f.fragment_id ≡ last)
Numbered seq id last (f ∷ g ∷ fs) =
    (f.seq_id ≡ seq)
    × (f.fragment_id ≡ id)
    × Numbered ((seq + 1) % 65536) ((id + 1) % 256) last (g ∷ fs)

Numbered-cons :
    (seq id last : ℕ) (f : Packet) (fs : List Packet)
    → f.seq_id ≡ seq
    → f.fragment_id ≡ id
    → Numbered ((seq + 1) % 65536) ((id + 1) % 256) last fs
    → Numbered seq id last (f ∷ fs)
Numbered-cons seq id last f [] h k r = absurd r
Numbered-cons seq id last f (g ∷ fs) h k r = (h, k, r)

-- With fuel for the payload, sequence IDs and fragment IDs go up by one, and the last fragment
-- keeps the fragment ID of the packet.
pub fragments-Numbered :
    (fuel id : ℕ) (p : Packet)
    → length p.payload ≤ fuel
    → Numbered p.seq_id id p.fragment_id (fragments fuel id p)
fragments-Numbered =
    fragments-cases (λ id p fs. Numbered p.seq_id id p.fragment_id fs) (λ id p h. (refl, refl))
      (λ id p fs h e. Numbered-cons p.seq_id id p.fragment_id (cut id p) fs refl refl e)
