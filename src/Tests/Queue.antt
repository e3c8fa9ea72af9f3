-- ===== src/Tests/Queue.antt =====
-- The theorems on the packet queue, at a queue with two fragments.
use splatit.Base.{◌≡◌, refl, arith, [], ◌∷◌}
use splatit.Prudp.Packet.{Packet}
use splatit.Prudp.Server.{PrudpAddress, ClientInfo, address_eq, update_client, update_substream}
use splatit.Prudp.Server.Queue.{process_packet_queue, returned}
use splatit.Prudp.Server.Queue.Crash.{Undelivered, fragmented-not_delivered}
use splatit.Prudp.Server.Queue.FirstFragment.{answered, first_fragment-Stalled}
use splatit.Prudp.Server.Queue.Stall.{Stalled, Stalled-forever}
use splatit.Prudp.Server.Receive.{enqueue, receive_reliable}
use splatit.Prudp.Server.Receive.Wrap.{
  server_of, substreams_at, ack_of, receive_each, old_packet-answered, last_seq_id-Deaf,
}
use splatit.Prudp.Server.Send.Unremembered.{post}
use splatit.Tests.Data.{toy_env, toy_address, toy_client, toy_server, data_with}

abbrev first : Packet
first = data_with 1 1 (5 ∷ [])

abbrev last : Packet
last = data_with 2 0 (6 ∷ [])

abbrev both : ClientInfo
both = toy_client (first ∷ last ∷ []) 0 []

abbrev alone : ClientInfo
alone = toy_client (first ∷ []) 0 []

abbrev seen : ClientInfo
seen = toy_client (first ∷ []) 1 []

abbrev at_end : ClientInfo
at_end = toy_client [] 65535 []

fragmented-not_delivered_example :
    Undelivered toy_env toy_address 0 10
      (toy_server both [])
      both
      first
      (last ∷ [])
      (process_packet_queue toy_env toy_address 0 10 (toy_server both []))
fragmented-not_delivered_example =
    fragmented-not_delivered toy_env toy_address 0 10 (toy_server both []) both first (last ∷ [])
      refl refl (λ h. omega (arith, h))

first_fragment-Stalled_example :
    (let w = answered toy_env toy_address 0 10 (toy_server alone []) alone first in
      (process_packet_queue toy_env toy_address 0 10 (toy_server alone []) ≡ returned w)
      × Stalled toy_env toy_address 0 10 w)
first_fragment-Stalled_example =
    first_fragment-Stalled toy_env toy_address 0 10 (toy_server alone []) alone first refl refl
      (omega arith) refl refl (omega arith)

is_Stalled : Stalled toy_env toy_address 0 10 (toy_server seen [])
unfolding Stalled
is_Stalled = (seen, first, [], refl, refl, omega arith, omega arith)

Stalled-forever_example :
    (let t = update_client toy_address (update_substream 0 (enqueue last)) (toy_server seen []) in
      (process_packet_queue toy_env toy_address 0 10 t ≡ returned t)
      × Stalled toy_env toy_address 0 10 t)
Stalled-forever_example =
    Stalled-forever toy_env toy_address 0 10 (toy_server seen []) last is_Stalled (omega arith)

old_packet-answered_example :
    (let s = toy_server seen [] in
      let t = server_of (receive_reliable toy_env toy_address first 10 s seen) in
      (t.events
        ≡ (post toy_env.digest toy_address (ack_of toy_env toy_address 10 s seen first) s).events)
      × ((a : PrudpAddress) → substreams_at t a ≡ substreams_at s a))
old_packet-answered_example =
    old_packet-answered toy_env toy_address 10 first (toy_server seen []) seen (omega arith)
      (omega arith)

last_seq_id-Deaf_example :
    substreams_at
      (receive_each toy_env toy_address 10 (first ∷ last ∷ []) (toy_server at_end []))
      toy_address
    ≡ substreams_at (toy_server at_end []) toy_address
last_seq_id-Deaf_example =
    last_seq_id-Deaf toy_env toy_address 10 0 (first ∷ last ∷ []) (toy_server at_end [])
      (at_end.substreams, refl, refl, omega arith) ((refl, omega arith), ((refl, omega arith), tt))
      toy_address

abbrev message : Packet
message = record (data_with 1 0 (5 ∷ [])) { dst_port = 1 }

abbrev ready : ClientInfo
ready = toy_client (message ∷ []) 0 []
