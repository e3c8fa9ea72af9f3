-- ===== src/Tests/Delivery.antt =====
-- The theorems on sending, acknowledging, retrying and closing, at a client with two packets out.
use splatit.Base.{
  ℕ, suc, ◌-◌, ◌/◌, Bool, not, ◌&&◌, ◌≡◌, ◌≤◌, refl, arith, none, some, List, [], ◌∷◌, All, length,
  leb, ◌==◌, if◌then◌else◌, replicate,
}
use splatit.Base.Dict.{lookup}
use splatit.Prudp.Packet.{Packet, new_packet}
use splatit.Prudp.Server.{
  PrudpAddress, Server, ClientInfo, DelayedPacket, address_eq, addr_eq, contains,
}
use splatit.Prudp.Server.Clients.{close_client_connection, delete_non_acked_packet}
use splatit.Prudp.Server.Clients.Close.{close-lookup}
use splatit.Prudp.Server.Handle.{apply_aggregate_ack}
use splatit.Prudp.Server.Handle.Acks.{waits, aggregate_ack-waits}
use splatit.Prudp.Server.Clients.Forget.{count, delete-forgets}
use splatit.Prudp.Server.Process.{process}
use splatit.Prudp.Server.Process.Due.{Sorted, due, process-Done}
use splatit.Prudp.Server.Send.{fragments, max_packet_size, send_packet}
use splatit.Prudp.Server.Send.Fragments.{
  content, content-fragments, size-fragments, Numbered, fragments-Numbered,
}
use splatit.Prudp.Server.Send.Unremembered.{post, letters, send_packet-sent}
use splatit.Tests.Data.{
  toy_digest, toy_env, toy_address, other_address, toy_client, toy_server, data_with,
}

abbrev long : Packet
long = record new_packet { seq_id = 65535; payload = replicate 1000 1 }

content-fragments_example : content (fragments 1000 1 long) ≡ long.payload
content-fragments_example = content-fragments 1000 1 long (omega arith)

size-fragments_example :
    All (λ (f : Packet). length f.payload ≤ max_packet_size) (fragments 1000 1 long)
size-fragments_example = size-fragments 1000 1 long (omega arith)

fragments-Numbered_example : Numbered 65535 1 0 (fragments 1000 1 long)
fragments-Numbered_example = fragments-Numbered 1000 1 long (omega arith)

abbrev waiting : List (ℕ × ℕ)
waiting = (3, 40) ∷ (4, 50) ∷ []

abbrev client : ClientInfo
client = toy_client [] 0 waiting

abbrev delayed : List (ℕ × DelayedPacket)
delayed =
    (40, record { addr = toy_address; num_retries = 0; packet = data_with 3 0 (1 ∷ []) })
    ∷ (50, record { addr = toy_address; num_retries = 3; packet = data_with 4 0 (2 ∷ []) })
    ∷ []

abbrev server : Server
server = toy_server client delayed

aggregate_ack-waits_example :
    waits
      (apply_aggregate_ack server toy_address client
        (some (record { substream_id = 0; limit = 3; extra = [] }))).0
      toy_address
      0
      4
    ≡ (if contains 4 [] then none else if leb 4 3 then none else waits server toy_address 0 4)
aggregate_ack-waits_example =
    aggregate_ack-waits toy_address 0 server client 3 [] 4 refl (omega arith)
      ((omega arith, tt), (tt, tt))

delete-forgets_example :
    (let t = delete_non_acked_packet server toy_address 3 0 in
      ((a : PrudpAddress) (i j : ℕ)
        → waits t a i j
          ≡ (if addr_eq toy_address a && (0 == i && 3 == j) then none else waits server a i j))
      × ((test : ℕ × DelayedPacket → Bool)
          → count test t.delayed_packets
            ≡ count
                (λ (e : ℕ × DelayedPacket).
                  test e
                  && not (e.0 == 40 && (addr_eq e.1.addr toy_address && e.1.packet.seq_id == 3)))
                server.delayed_packets))
delete-forgets_example = delete-forgets toy_address 0 server client 3 40 refl (omega arith) refl

process-Done_example :
    Sorted (process toy_env 60 server).0.delayed_packets
    × (due 60 (process toy_env 60 server).0.delayed_packets ≡ 0)
process-Done_example = process-Done toy_env 60 server ((omega arith, tt), (tt, tt))

close-lookup_example :
    lookup other_address (close_client_connection server toy_address).clients
    ≡ (if addr_eq toy_address other_address then none else lookup other_address server.clients)
close-lookup_example = close-lookup server toy_address other_address

send_packet-sent_example :
    ((send_packet toy_digest toy_address new_packet 10 server).0
      ≡ post toy_digest toy_address new_packet server)
    × (length (letters toy_digest server.config new_packet)
        ≡ suc ((length (new_packet.payload) - 1) / max_packet_size))
send_packet-sent_example = send_packet-sent toy_digest toy_address new_packet 10 server refl
