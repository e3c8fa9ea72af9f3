-- ===== src/Prudp/Server/Queue/Stall.antt =====
-- `processPacketQueue` of nex/prudp/server.cpp, where the head of the queue has been acknowledged.
use splatit.Base.{
  ℕ, zero, suc, ◌≤◌, ◌<◌, ◌≡◌, refl, ap, sym, subst, ◌∙◌, arith, Bool, false, some, List, [], ◌∷◌,
  length,
}
use splatit.Base.Dict.{lookup}
use splatit.Prudp.Packet.{Packet}
use splatit.Prudp.Server.{
  PrudpAddress, Server, ClientInfo, Substream, Env, address_eq, substream, update_client,
  update_substream, insert_packet,
}
use splatit.Prudp.Server.Receive.{enqueue}
use splatit.Prudp.Server.Lookup.{lookup-update_client, substream-update_substream, length-set}
use splatit.Prudp.Server.Queue.{
  returned, finish, round_if, queue_loop, process_packet_queue, queue_of, recv_of, in_turn,
}

module _ (env : Env) (addr : PrudpAddress) (id now : ℕ) where
  -- The head of the queue is not the packet after the last one that was received.
  unfoldable pub Stalled : Server → Type 0
  Stalled s =
      (c : ClientInfo) × (f : Packet) × (rest : List Packet) × (lookup addr s.clients ≡ some c)
      × ((substream c id).packet_queue ≡ f ∷ rest)
      × (id < length c.substreams)
      × (f.seq_id ≤ (substream c id).recv_seq_id)

  pub finish-nil :
      (c : ClientInfo) (gone : Bool) (s : Server) → finish env addr id now c gone s [] ≡ returned s
  unfolding finish
  finish-nil c gone s = ground arith

  pub queue_loop-stalled :
      (fuel : ℕ) (s : Server) (c : ClientInfo) (f : Packet) (rest : List Packet)
      → in_turn env addr id now s f ≡ false
      → queue_loop env addr id now fuel c s [] false (f ∷ rest) ≡ returned s
  unfolding queue_loop round_if
  queue_loop-stalled zero s c f rest h = finish-nil c false s
  queue_loop-stalled (suc fuel) s c f rest h = rw (h, finish-nil c false s)

  not_in_turn :
      (s : Server) (c : ClientInfo) (f : Packet)
      → lookup addr s.clients ≡ some c
      → f.seq_id ≤ (substream c id).recv_seq_id
      → in_turn env addr id now s f ≡ false
  not_in_turn s c f found old = rw found (ground arith)

  pub Stalled-nothing :
      (s : Server) → Stalled s → process_packet_queue env addr id now s ≡ returned s
  unfolding process_packet_queue queue_of Stalled
  Stalled-nothing s (c, f, rest, found, queue, there, old) =
      rw (found, queue)
        (queue_loop-stalled (suc (length rest)) s c f rest (not_in_turn s c f found old))

  insert_packet-behind :
      (p f : Packet) (rest : List Packet)
      → f.seq_id < p.seq_id
      → insert_packet p (f ∷ rest) ≡ f ∷ insert_packet p rest
  insert_packet-behind p f rest h = ground arith

  pub recv_of-found :
      (s : Server) (c : ClientInfo)
      → lookup addr s.clients ≡ some c
      → recv_of s addr id ≡ (substream c id).recv_seq_id
  recv_of-found s c found = rw found refl

  -- The packet comes behind the head, so the queue is as stuck as it was.
  enqueue-Stalled :
      (s : Server) (p : Packet)
      → Stalled s
      → recv_of s addr id < p.seq_id
      → Stalled (update_client addr (update_substream id (enqueue p)) s)
  unfolding Stalled
  enqueue-Stalled s p (c, f, rest, found, queue, there, old) new =
      let seen = substream-update_substream c id (enqueue p) there in
      (
        update_substream id (enqueue p) c,
        f,
        insert_packet p rest,
        lookup-update_client s addr (update_substream id (enqueue p)) c found,
        ap (λ (u : Substream). u.packet_queue) seen
            ∙ (ap (insert_packet p) queue
                ∙ insert_packet-behind p f rest (omega (arith, recv_of-found s c found))),
        rw (length-set c.substreams id (enqueue p (substream c id))) there,
        subst (λ (u : Substream). f.seq_id ≤ u.recv_seq_id) (sym seen) old,
      )

  -- Once the head of a queue has been received, a packet that comes later is put behind it,
  -- nothing else happens, and the head stays received.
  pub Stalled-forever :
      (s : Server) (p : Packet)
      → Stalled s
      → recv_of s addr id < p.seq_id
      → (let t = update_client addr (update_substream id (enqueue p)) s in
          (process_packet_queue env addr id now t ≡ returned t) × Stalled t)
  Stalled-forever s p h new =
      let h' = enqueue-Stalled s p h new in
      (Stalled-nothing (update_client addr (update_substream id (enqueue p)) s) h', h')
