-- ===== src/Prudp/Server/Clients/Close.antt =====
-- What `closeClientConnection` of nex/prudp/server.cpp leaves behind.
use splatit.Base.{◌≡◌, refl, ap, ◌∙◌, sym, inl, inr, Option, none, some, if◌then◌else◌, Bool-cases}
use splatit.Base.Dict.{lookup, lookup-erase, nat_eq}
use splatit.Prudp.Server.{
  PrudpAddress, Server, ClientInfo, addr_eq, addr_eq_iff, address_eq, contains,
}
use splatit.Prudp.Server.Clients.{close_client_connection, close_found, say_disconnected}

close_found-lookup :
    (s : Server) (addr other : PrudpAddress) (o : Option ClientInfo)
    → lookup addr s.clients ≡ o
    → lookup other (close_found s addr o).clients
      ≡ (if addr_eq addr other then none else lookup other s.clients)
unfolding close_found
close_found-lookup s addr other none h = elim (Bool-cases (addr_eq addr other)) [
  | inl same ↦ rw same (ap (λ a. lookup a s.clients) (sym ((addr_eq_iff addr other).0 same)) ∙ h)
  | inr apart ↦ rw apart
]
close_found-lookup s addr other (some c) h = lookup-erase addr other s.clients

say_disconnected-clients :
    (s : Server) (addr : PrudpAddress) → (say_disconnected s addr).clients ≡ s.clients
say_disconnected-clients s addr = elim (Bool-cases (contains addr.src_v_port s.config.ports)) [
  | inl known ↦ rw known
  | inr unknown ↦ rw unknown
]

-- Behind `closeClientConnection` the client is gone, and every other client is as it was.
pub close-lookup :
    (s : Server) (addr other : PrudpAddress)
    → lookup other (close_client_connection s addr).clients
      ≡ (if addr_eq addr other then none else lookup other s.clients)
unfolding close_client_connection
close-lookup s addr other =
    let t = say_disconnected s addr in
    close_found-lookup t addr other (lookup addr t.clients) refl
    ∙ ap (λ m. if addr_eq addr other then none else lookup other m)
        (say_disconnected-clients s addr)
