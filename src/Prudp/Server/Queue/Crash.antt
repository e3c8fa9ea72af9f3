-- ===== src/Prudp/Server/Queue/Crash.antt =====
-- What `processPacketQueue` of nex/prudp/server.cpp makes of a message of several fragments.
use splatit.Prudp.Server.Queue.Stall.{queue_loop-stalled}
use splatit.Base.{
  length, ℕ, suc, ◌≡◌, ◌≢◌, ◌⊎◌, inl, inr, Bool-cases, arith, Bool, true, false, none, some, List,
  [], ◌∷◌, ◌++◌,
}
use splatit.Base.Bytes.{Bytes}
use splatit.Base.Dict.{lookup}
use splatit.Prudp.Packet.{Packet, Encoder}
use splatit.Prudp.Server.{substream, PrudpAddress, Server, ClientInfo, Env, address_eq}
use splatit.Prudp.Server.Queue.{
  Ending, returned, null_pointer, process_packet_queue, queue_of, scan, gather, deliver, round_of,
  finish, queue_loop, round_if, after_gather, in_turn, encoder_of, decrypt_one, encoder_or,
}

abbrev encoder_after : Encoder → Packet → Encoder
encoder_after e f = encoder_or e (decrypt_one e f).encoder

-- A `do … while` loop that does not start at a last fragment does not reach one.
gather-misses_last :
    (e : Encoder) (content : Bytes) (f : Packet) (rest : List Packet)
    → f.fragment_id ≢ 0
    → (gather e content none (f ∷ rest)).last_fragment ≡ none
unfolding gather
gather-misses_last e content f [] h = ground arith
gather-misses_last e content f (g ∷ rest) h =
    ground
      (arith, gather-misses_last (encoder_after e f) (content ++ (decrypt_one e f).payload) g rest)

module _ (env : Env) (addr : PrudpAddress) (id now : ℕ) where
  abbrev DeliverLoop : Type 0
  DeliverLoop = Server → List ℕ → Bool → List Packet → Ending

  round_of-fragmented :
      (loop : DeliverLoop) (c : ClientInfo) (s : Server) (acked : List ℕ) (gone : Bool) (f : Packet)
      (rest : List Packet)
      → f.fragment_id ≢ 0
      → (scan env addr id now c s acked false (f ∷ rest)).complete ≡ true
      → (t : Server) × (round_of env addr id now loop c s acked gone (f ∷ rest) ≡ null_pointer t)
  unfolding round_of deliver
  round_of-fragmented loop c s acked gone f rest h done =
      let r = scan env addr id now c s acked false (f ∷ rest) in
      let e = encoder_of env addr id now (lookup addr r.server.clients) c in
      let g = gather e [] none (f ∷ rest) in
      (after_gather env addr id now r.server g, rw (done, gather-misses_last e [] f rest h))

  pub round_of-waits :
      (loop : DeliverLoop) (c : ClientInfo) (s : Server) (acked : List ℕ) (gone : Bool)
      (queue : List Packet)
      → (scan env addr id now c s acked false queue).complete ≡ false
      → round_of env addr id now loop c s acked gone queue ≡ (
          let r = scan env addr id now c s acked false queue in
          finish env addr id now c gone r.server r.acked)
  unfolding round_of
  round_of-waits loop c s acked gone queue missing = rw missing

  -- A null pointer, or a return at once, or a return behind the acknowledgements.
  abbrev pub Undelivered : Server → ClientInfo → Packet → List Packet → Ending → Type 0
  Undelivered s c f rest e =
      let r = scan env addr id now c s [] false (f ∷ rest) in
      ((t : Server) × (e ≡ null_pointer t))
      ⊎ ((e ≡ returned s) ⊎ (e ≡ finish env addr id now c false r.server r.acked))

  fragmented_round :
      (s : Server) (c : ClientInfo) (f : Packet) (rest : List Packet)
      → f.fragment_id ≢ 0
      → (in_turn env addr id now s f ≡ true) ⊎ (in_turn env addr id now s f ≡ false)
      → Undelivered s c f rest
          (queue_loop env addr id now (suc (length rest)) c s [] false (f ∷ rest))
  unfolding queue_loop round_if
  fragmented_round s c f rest h (inr late) =
      inr (inl (queue_loop-stalled env addr id now (suc (length rest)) s c f rest late))
  fragmented_round s c f rest h (inl turn) =
      rw turn (elim (Bool-cases (scan env addr id now c s [] false (f ∷ rest)).complete) [
        | inl done ↦ inl (
            round_of-fragmented (queue_loop env addr id now (length rest) c) c s [] false f rest h
              done)
        | inr missing ↦ inr (
            inr (
              round_of-waits (queue_loop env addr id now (length rest) c) c s [] false (f ∷ rest)
                missing))
      ])

  -- A message of several fragments at the head of a queue is never handed over: the code follows a
  -- null pointer, returns at once, or returns behind the acknowledgements.
  pub fragmented-not_delivered :
      (s : Server) (c : ClientInfo) (f : Packet) (rest : List Packet)
      → lookup addr s.clients ≡ some c
      → (substream c id).packet_queue ≡ f ∷ rest
      → f.fragment_id ≢ 0
      → Undelivered s c f rest (process_packet_queue env addr id now s)
  unfolding process_packet_queue queue_of
  fragmented-not_delivered s c f rest found queue h =
      rw (found, queue) (fragmented_round s c f rest h (Bool-cases (in_turn env addr id now s f)))
