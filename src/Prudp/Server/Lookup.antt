-- ===== src/Prudp/Server/Lookup.antt =====
-- What the reads of the server's state in nex/prudp/server.cpp give behind its writes.
use splatit.Base.{
  ℕ, zero, suc, ◌<◌, ◌≡◌, refl, ap, ◌∙◌, arith, true, some, List, [], ◌∷◌, length, get_or, set,
}
use splatit.Base.Dict.{lookup, lookup-update}
use splatit.Prudp.Server.{
  PrudpAddress, Server, ClientInfo, Substream, address_eq, addr_eq, addr_eq_iff, substream,
  update_substream, update_client, new_substream,
}

pub get_or-set {ℓ} :
    {A : Type ℓ} (xs : List A) (i : ℕ) (v d : A) → i < length xs → get_or (set xs i v) i d ≡ v
get_or-set [] i v d h = absurd (omega (arith, h))
get_or-set (x ∷ xs) zero v d h = refl
get_or-set (x ∷ xs) (suc i) v d h = get_or-set xs i v d (omega (arith, h))

pub length-set {ℓ} : {A : Type ℓ} (xs : List A) (i : ℕ) (v : A) → length (set xs i v) ≡ length xs
length-set [] i v = refl
length-set (x ∷ xs) zero v = refl
length-set (x ∷ xs) (suc i) v = ap suc (length-set xs i v)

pub addr_eq_refl : (a : PrudpAddress) → addr_eq a a ≡ true
addr_eq_refl a = (addr_eq_iff a a).1 refl

pub lookup-update_client :
    (s : Server) (addr : PrudpAddress) (f : ClientInfo → ClientInfo) (c : ClientInfo)
    → lookup addr s.clients ≡ some c
    → lookup addr (update_client addr f s).clients ≡ some (f c)
lookup-update_client s addr f c h = lookup-update addr addr f s.clients c h ∙ rw (addr_eq_refl addr)

pub substream-update_substream :
    (c : ClientInfo) (id : ℕ) (f : Substream → Substream)
    → id < length c.substreams
    → substream (update_substream id f c) id ≡ f (substream c id)
substream-update_substream c id f h =
    get_or-set c.substreams id (f (substream c id)) new_substream h
