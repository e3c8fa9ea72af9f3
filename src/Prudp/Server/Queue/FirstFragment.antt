-- ===== src/Prudp/Server/Queue/FirstFragment.antt =====
-- `processPacketQueue` of nex/prudp/server.cpp, where a message of several fragments arrives in order.
use splatit.Base.{
  ℕ, ◌+◌, ◌≤◌, ◌<◌, ◌≡◌, inl, inr, refl, ap, sym, subst, ◌∙◌, arith, Bool, true, false, some, List,
  [], ◌∷◌, length, Bool-cases, ◌==◌, ltb, ◌&&◌, if◌then◌else◌,
}
use splatit.Base.Bits.{has_flag}
use splatit.Base.Bytes.{Bytes}
use splatit.Base.Dict.{lookup, update}
use splatit.Crypto.{Digest}
use splatit.Prudp.Packet.{
  Packet, PacketType, syn, connect, data_type, disconnect, ping, flag_need_ack, flag_ack,
  flag_has_size,
}
use splatit.Prudp.Server.{
  PrudpAddress, Server, ClientInfo, Substream, Env, Config, address_eq, substream, update_client,
  update_substream,
}
use splatit.Prudp.Server.Craft.{craft_ack, ack_of_type, craft_aggregate_ack}
use splatit.Prudp.Server.Lookup.{lookup-update_client, substream-update_substream, length-set}
use splatit.Prudp.Server.Send.{wants_resend, wants_resend_flags}
use splatit.Prudp.Server.Send.Unremembered.{post, send_packet-sent}
use splatit.Prudp.Server.Queue.{
  Ending, returned, finish, round_if, queue_loop, round_of, process_packet_queue, queue_of, recv_of,
  in_turn, ack_fragment, ack_if_new, scan, Scan, bump_recv, send, ack_for, aggregates, is_data,
  is_disconnect,
}
use splatit.Prudp.Server.Queue.Crash.{round_of-waits}
use splatit.Prudp.Server.Queue.Stall.{Stalled, recv_of-found, finish-nil}

ack_flags : (b : Bool) → wants_resend_flags (flag_ack + (if b then flag_has_size else 0)) ≡ false
ack_flags true = refl
ack_flags false = refl

-- Acknowledgements do not ask to be acknowledged.
ack_of_type-wants_resend :
    (digest : Digest) (config : Config) (t : PacketType) (addr : PrudpAddress) (p : Packet) (n : ℕ)
    (r k : Bytes)
    → wants_resend (ack_of_type digest config t addr p n r k) ≡ false
unfolding ack_of_type
ack_of_type-wants_resend digest config syn addr p n r k = ack_flags (config.minor_version == 1)
ack_of_type-wants_resend digest config connect addr p n r k = ack_flags (config.minor_version == 1)
ack_of_type-wants_resend digest config data_type addr p n r k =
    ack_flags (config.minor_version == 1)
ack_of_type-wants_resend digest config disconnect addr p n r k =
    ack_flags (config.minor_version == 1)
ack_of_type-wants_resend digest config ping addr p n r k = ack_flags (config.minor_version == 1)

pub craft_ack-wants_resend :
    (digest : Digest) (config : Config) (addr : PrudpAddress) (p : Packet) (n : ℕ) (r k : Bytes)
    → wants_resend (craft_ack digest config addr p n r k) ≡ false
unfolding craft_ack
craft_ack-wants_resend digest config addr p n r k =
    ack_of_type-wants_resend digest config p.type addr p n r k

craft_aggregate_ack-wants_resend :
    (digest : Digest) (config : Config) (addr : PrudpAddress) (m n i : ℕ) (l : List ℕ) (r k : Bytes)
    → wants_resend (craft_aggregate_ack digest config addr m n i l r k) ≡ false
unfolding craft_aggregate_ack
craft_aggregate_ack-wants_resend digest config addr m n i l r k = refl

-- The server, once it has sent some packets to a client.
abbrev pub posts : Digest → PrudpAddress → List Packet → Server → Server
posts digest addr [] s = s
posts digest addr (p ∷ ps) s = posts digest addr ps (post digest addr p s)

pub config-posts :
    (digest : Digest) (addr : PrudpAddress) (ps : List Packet) (s : Server)
    → (posts digest addr ps s).config ≡ s.config
config-posts digest addr [] s = refl
config-posts digest addr (p ∷ ps) s = config-posts digest addr ps (post digest addr p s)

pub clients-posts :
    (digest : Digest) (addr : PrudpAddress) (ps : List Packet) (s : Server)
    → (posts digest addr ps s).clients ≡ s.clients
clients-posts digest addr [] s = refl
clients-posts digest addr (p ∷ ps) s = clients-posts digest addr ps (post digest addr p s)

module _ (env : Env) (addr : PrudpAddress) (id now : ℕ) where
  abbrev aggregate : Server → ClientInfo → List ℕ → Packet
  aggregate s c acked =
      craft_aggregate_ack env.digest s.config addr c.minor_version c.session_id id acked
        c.remote_signature c.session_key

  -- What a fragment is answered with: an acknowledgement if it needs one, three if it disconnects,
  -- and an aggregate acknowledgement of its sequence ID for data of a client that knows these.
  abbrev pub answers : Server → ClientInfo → Packet → List Packet
  answers s c f =
      let a = ack_for env addr id now s c f in
      if has_flag f.flags flag_need_ack
      then (if aggregates s.config c && is_data f.type
          then aggregate s c (f.seq_id ∷ []) ∷ []
          else if is_disconnect f.type
          then a ∷ a ∷ a ∷ []
          else a ∷ [])
      else []

  -- The server, once it has answered a fragment and counted it.
  abbrev pub answered : Server → ClientInfo → Packet → Server
  answered s c f =
      update_client addr (update_substream id bump_recv) (posts env.digest addr (answers s c f) s)

  pub send-sent :
      (s t : Server) (c : ClientInfo) (f : Packet)
      → send env addr id now (ack_for env addr id now s c f) t
        ≡ post env.digest addr (ack_for env addr id now s c f) t
  send-sent s t c f =
      (send_packet-sent env.digest addr (ack_for env addr id now s c f) now t (
        craft_ack-wants_resend env.digest s.config addr f c.session_id c.remote_signature
          c.session_key)).0

  -- The aggregate acknowledgement, behind the loop.
  finish-aggregate :
      (s : Server) (c : ClientInfo) (seq : ℕ)
      → aggregates s.config c ≡ true
      → finish env addr id now c false s (seq ∷ [])
        ≡ returned (post env.digest addr (aggregate s c (seq ∷ [])) s)
  unfolding finish
  finish-aggregate s c seq on = rw on (
      ap returned
        (send_packet-sent env.digest addr (aggregate s c (seq ∷ [])) now s (
          craft_aggregate_ack-wants_resend env.digest s.config addr c.minor_version c.session_id id
            (seq ∷ []) c.remote_signature c.session_key)).0)

  and-left : (a b : Bool) → (a && b) ≡ true → a ≡ true
  and-left true b h = refl
  and-left false b h = h

  ack_fragment-answered :
      (s : Server) (c : ClientInfo) (f : Packet)
      → (let r = ack_fragment env addr id now s [] c f in
          finish env addr id now c false r.0 r.1 ≡ returned (answered s c f))
  unfolding ack_fragment
  ack_fragment-answered s c f =
      let a = ack_for env addr id now s c f in
      let next = update_client addr (update_substream id bump_recv) in
      let d = env.digest in
      elim (Bool-cases (has_flag f.flags flag_need_ack)) [
        | inr off ↦ rw off (finish-nil env addr id now c false (next s))
        | inl on ↦ rw on (elim (Bool-cases (aggregates s.config c && is_data f.type)) [
          | inl group ↦ rw group (
              finish-aggregate (next s) c f.seq_id
                (and-left (aggregates s.config c) (is_data f.type) group))
          | inr alone ↦ rw alone (elim (Bool-cases (is_disconnect f.type)) [
            | inr once ↦ rw once (
                finish-nil env addr id now c false _
                ∙ ap (λ (t : Server). returned (next t)) (send-sent s s c f))
            | inl thrice ↦ rw thrice (
                finish-nil env addr id now c false _
                ∙ ap (λ (t : Server). returned (next t)) (thrice_sent s c f))
          ])
        ])
      ]
    where
      thrice_sent :
          (s : Server) (c : ClientInfo) (f : Packet)
          → (let a = ack_for env addr id now s c f in
              let send_a = send env addr id now a in
              let post_a = post env.digest addr a in
              send_a (send_a (send_a s)) ≡ post_a (post_a (post_a s)))
      thrice_sent s c f =
          let a = ack_for env addr id now s c f in
          let send_a = send env addr id now a in
          let post_a = post env.digest addr a in
          ap (λ (t : Server). send_a (send_a t)) (send-sent s s c f)
          ∙ (ap send_a (send-sent s (post_a s) c f) ∙ send-sent s (post_a (post_a s)) c f)

  scan-first :
      (s : Server) (c : ClientInfo) (f : Packet)
      → f.fragment_id ≡ 1
      → ltb (recv_of s addr id) f.seq_id ≡ true
      → scan env addr id now c s [] false (f ∷ []) ≡ (
          let r = ack_fragment env addr id now s [] c f in
          record { server = r.0; acked = r.1; complete = false; multiple = false })
  unfolding scan ack_if_new
  scan-first s c f one new = rw (new, one) refl

  bumped-Stalled :
      (s w : Server) (c : ClientInfo) (f : Packet)
      → lookup addr s.clients ≡ some c
      → (substream c id).packet_queue ≡ f ∷ []
      → id < length c.substreams
      → f.seq_id ≡ (substream c id).recv_seq_id + 1
      → f.seq_id < 65536
      → w.clients ≡ update addr (update_substream id bump_recv) s.clients
      → Stalled env addr id now w
  unfolding Stalled
  bumped-Stalled s w c f found queue there next small changed =
      let seen = substream-update_substream c id bump_recv there in
      (
        update_substream id bump_recv c,
        f,
        [],
        ap (lookup addr) changed
            ∙ lookup-update_client s addr (update_substream id bump_recv) c found,
        ap (λ (u : Substream). u.packet_queue) seen ∙ queue,
        rw (length-set c.substreams id (bump_recv (substream c id))) there,
        subst (λ (u : Substream). f.seq_id ≤ u.recv_seq_id) (sym seen) (omega (arith, next, small)),
      )

  in_turn-first :
      (s : Server) (f : Packet)
      → f.fragment_id ≡ 1
      → f.seq_id ≡ recv_of s addr id + 1
      → in_turn env addr id now s f ≡ true
  in_turn-first s f one next = ground (arith, one, next)

  pub in_turn-starts :
      (s : Server) (c : ClientInfo) (f : Packet) (rest : List Packet)
      → lookup addr s.clients ≡ some c
      → (substream c id).packet_queue ≡ f ∷ rest
      → in_turn env addr id now s f ≡ true
      → process_packet_queue env addr id now s
        ≡ round_of env addr id now
            (queue_loop env addr id now (length rest) c)
            c
            s
            []
            false
            (f ∷ rest)
  unfolding process_packet_queue queue_of queue_loop round_if
  in_turn-starts s c f rest found queue turn = rw (found, queue) (rw turn)

  round-first :
      (loop : Server → List ℕ → Bool → List Packet → Ending) (s : Server) (c : ClientInfo)
      (f : Packet)
      → f.fragment_id ≡ 1
      → ltb (recv_of s addr id) f.seq_id ≡ true
      → round_of env addr id now loop c s [] false (f ∷ []) ≡ returned (answered s c f)
  round-first loop s c f one new =
      let seen = scan-first s c f one new in
      round_of-waits env addr id now loop c s [] false (f ∷ []) (ap (λ (x : Scan). x.complete) seen)
      ∙ (ap (λ (x : Scan). finish env addr id now c false x.server x.acked) seen
          ∙ ack_fragment-answered s c f)

  -- Where the first fragment of a message comes in turn and alone, `processPacketQueue` returns
  -- once it has sent what the fragment is answered with (nothing, if it needs no acknowledgement)
  -- and has counted it. Nothing else changes, and the queue is stuck behind it.
  pub first_fragment-Stalled :
      (s : Server) (c : ClientInfo) (f : Packet)
      → lookup addr s.clients ≡ some c
      → (substream c id).packet_queue ≡ f ∷ []
      → id < length c.substreams
      → f.fragment_id ≡ 1
      → f.seq_id ≡ (substream c id).recv_seq_id + 1
      → f.seq_id < 65536
      → (process_packet_queue env addr id now s ≡ returned (answered s c f))
        × Stalled env addr id now (answered s c f)
  first_fragment-Stalled s c f found queue there one next small =
      let seen = recv_of-found env addr id now s c found in
      (
        in_turn-starts s c f [] found queue
              (in_turn-first s f one (next ∙ ap (λ (n : ℕ). n + 1) (sym seen)))
            ∙ round-first (queue_loop env addr id now 0 c) s c f one (ground (arith, seen, next)),
        bumped-Stalled s (answered s c f) c f found queue there next small (
            ap (update addr (update_substream id bump_recv))
              (clients-posts env.digest addr (answers s c f) s)),
      )
