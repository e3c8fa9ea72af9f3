-- ===== src/Prudp/Server/Clients/Forget.antt =====
-- `deleteNonAckedPacket` of nex/prudp/server.cpp: what it takes away, and what it leaves.
use splatit.Base.{
  ℕ, zero, suc, ◌<◌, ◌≡◌, inl, inr, refl, ap, sym, ◌∙◌, arith, Bool, not, ◌&&◌, Option, none, some,
  List, [], ◌∷◌, length, get_or, set, ◌==◌, ==_iff, if◌then◌else◌, erase_if, Bool-cases,
}
use splatit.Base.Dict.{lookup, lookup-update, lookup-erase, nat_eq}
use splatit.Prudp.Server.{
  PrudpAddress, Server, ClientInfo, Substream, DelayedPacket, address_eq, addr_eq, addr_eq_iff,
  substream, update_substream, update_client, new_substream,
}
use splatit.Prudp.Server.Clients.{
  delete_non_acked_packet, delete_found, delete_task, drop_ack, is_resend,
}
use splatit.Prudp.Server.Handle.Acks.{waits, waits_in}

-- How many entries pass a test.
abbrev pub count {ℓ} : {A : Type ℓ} → (A → Bool) → List A → ℕ
count test [] = 0
count test (x ∷ xs) = let n = count test xs in if test x then suc n else n

count-erase_if {ℓ} :
    {A : Type ℓ} (test gone : A → Bool) (xs : List A)
    → count test (erase_if gone xs) ≡ count (λ (x : A). test x && not (gone x)) xs
count-erase_if test gone [] = refl
count-erase_if test gone (x ∷ xs) = ground (arith, count-erase_if test gone xs)

get_or-set-any {ℓ} :
    {A : Type ℓ} (xs : List A) (i j : ℕ) (v d : A)
    → i < length xs
    → get_or (set xs i v) j d ≡ (if i == j then v else get_or xs j d)
get_or-set-any [] i j v d h = absurd (omega (arith, h))
get_or-set-any (x ∷ xs) zero zero v d h = refl
get_or-set-any (x ∷ xs) zero (suc j) v d h = ground arith
get_or-set-any (x ∷ xs) (suc i) zero v d h = ground arith
get_or-set-any (x ∷ xs) (suc i) (suc j) v d h =
    get_or-set-any xs i j v d (omega (arith, h)) ∙ ground arith

module _ (addr : PrudpAddress) (id : ℕ) where
  dropped-waits :
      (c : ClientInfo) (k i j : ℕ)
      → id < length c.substreams
      → lookup j (substream (update_substream id (drop_ack k) c) i).non_acked_packets
        ≡ (if id == i && k == j then none else lookup j (substream c i).non_acked_packets)
  dropped-waits c k i j there =
      let u = drop_ack k (substream c id) in
      ap (λ (u : Substream). lookup j u.non_acked_packets)
        (get_or-set-any c.substreams id i u new_substream there)
      ∙ elim (Bool-cases (id == i)) [
        | inr other ↦ rw other refl
        | inl here ↦ rw here (
            lookup-erase k j (substream c id).non_acked_packets
            ∙ ap (λ (l : List (ℕ × ℕ)). if k == j then none else lookup j l)
                (ap (λ (i : ℕ). (substream c i).non_acked_packets) ((==_iff id i).0 here)))
      ]

  update-waits :
      (s : Server) (c : ClientInfo) (k i j : ℕ) (a : PrudpAddress)
      → lookup addr s.clients ≡ some c
      → id < length c.substreams
      → waits (update_client addr (update_substream id (drop_ack k)) s) a i j
        ≡ (if addr_eq addr a && (id == i && k == j) then none else waits s a i j)
  update-waits s c k i j a found there =
      ap (λ (o : Option ClientInfo). waits_in o i j)
        (lookup-update addr a (update_substream id (drop_ack k)) s.clients c found)
      ∙ elim (Bool-cases (addr_eq addr a)) [
        | inr other ↦ rw other refl
        | inl here ↦ rw here (
            dropped-waits c k i j there
            ∙ ap (λ (o : Option ClientInfo). if id == i && k == j then none else waits_in o i j)
                (sym found
                  ∙ ap (λ (b : PrudpAddress). lookup b s.clients) ((addr_eq_iff addr a).0 here)))
      ]

  -- Where a packet of a substream that is there is waited for, `deleteNonAckedPacket` takes it off
  -- what is waited for, and no other one of any substream or client, and takes its entries at that
  -- time out of the delayed packets, and no others: any test passes as many delayed packets as
  -- passed it before without being such an entry.
  pub delete-forgets :
      (s : Server) (c : ClientInfo) (k task : ℕ)
      → lookup addr s.clients ≡ some c
      → id < length c.substreams
      → lookup k (substream c id).non_acked_packets ≡ some task
      → (let t = delete_non_acked_packet s addr k id in
          ((a : PrudpAddress) (i j : ℕ)
            → waits t a i j
              ≡ (if addr_eq addr a && (id == i && k == j) then none else waits s a i j))
          × ((test : ℕ × DelayedPacket → Bool)
              → count test t.delayed_packets
                ≡ count
                    (λ (e : ℕ × DelayedPacket).
                      test e
                      && not (e.0 == task && (addr_eq e.1.addr addr && e.1.packet.seq_id == k)))
                    s.delayed_packets))
  unfolding delete_non_acked_packet delete_found delete_task
  delete-forgets s c k task found there waited =
      rw (found, waited)
        (
          λ a i j. update-waits s c k i j a found there,
          λ test. count-erase_if test (is_resend task addr k) s.delayed_packets,
        )
