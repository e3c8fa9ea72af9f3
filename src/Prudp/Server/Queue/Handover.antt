-- ===== src/Prudp/Server/Queue/Handover.antt =====
-- `processPacketQueue` of nex/prudp/server.cpp, once it has put a message together that is data.
use splatit.Base.{
  ℕ, ◌≡◌, inl, inr, refl, ap, ◌∙◌, Bool, ◌&&◌, Result, ok, err, is_empty, true, false, ◌||◌, Option,
  none, some, List, [], ◌==◌, if◌then◌else◌, Bool-cases, Exception,
}
use splatit.Base.Bits.{has_flag}
use splatit.Base.Dict.{lookup}
use splatit.Prudp.Packet.{
  Packet, Encoder, data_type, flag_ack, flag_multi_ack, decrypt_data, decrypt_with,
}
use splatit.Prudp.Server.{
  PrudpAddress, Server, ClientInfo, Env, received, emit, contains, address_eq, update_client,
  update_substream,
}
use splatit.Prudp.Server.Handle.{Outcome, handle_packet, handle_type, handle_data}
use splatit.Prudp.Server.Queue.{
  Ending, returned, thrown, finish, queue_loop, aggregates, deliver, decrypt_one, set_queue,
  Gathered, is_disconnect, aggregate_if_any,
}
use splatit.Prudp.Server.Queue.Stall.{finish-nil}

abbrev pub Header : Packet → Packet → Type 0
Header g f =
    (g.type ≡ f.type)
    × (g.flags ≡ f.flags)
    × (g.dst_port ≡ f.dst_port)
    × (g.substream_id ≡ f.substream_id)

abbrev HeaderIn : Packet → Result Packet → Type 0
HeaderIn f (ok g) = Header g f
HeaderIn f (err x) = Unit {0}

decrypt_data-HeaderIn :
    (e : Encoder) (f : Packet) → HeaderIn f (decrypt_data (record f { encoder = some e }) false)
unfolding decrypt_data decrypt_with
decrypt_data-HeaderIn e f = elim (Bool-cases (is_empty f.payload)) [
  | inl bare ↦ rw (bare, HeaderIn) (refl, refl, refl, refl)
  | inr there ↦ rw (there, HeaderIn) (refl, refl, refl, refl)
]

pub decrypt_one-Header : (e : Encoder) (f : Packet) → Header (decrypt_one e f) f
unfolding decrypt_one
decrypt_one-Header e f =
    from f (decrypt_data (record f { encoder = some e }) false) (decrypt_data-HeaderIn e f)
  where
    from :
        (f : Packet) (r : Result Packet) → HeaderIn f r → Header (elim r [ ok g ↦ g | err x ↦ f ]) f
    from f (ok g) h = h
    from f (err x) h = (refl, refl, refl, refl)

module _ (env : Env) (addr : PrudpAddress) (id now : ℕ) where
  -- What is left of the queue, in the state that the called function leaves.
  abbrev leaving : List Packet → Server → Server
  leaving queue s = update_client addr (update_substream id (set_queue queue)) s

  -- How the call ends with what the called function returned or threw.
  abbrev pub ends_with : List Packet → Server × Option Exception → Ending
  ends_with queue (s, none) = returned (leaving queue s)
  ends_with queue (s, some e) = thrown (leaving queue s) e

  handle_data-calls :
      (t : Server) (d c : ClientInfo) (p f : Packet)
      → lookup addr t.clients ≡ some d
      → Header p f
      → f.type ≡ data_type
      → has_flag f.flags flag_ack ≡ false
      → has_flag f.flags flag_multi_ack ≡ false
      → handle_packet env t addr p now ≡ handle_data env t addr p (some d)
  unfolding handle_packet handle_type
  handle_data-calls t d c p f found (same, flags, port, sub) is_data no_ack no_multi =
      rw (flags, no_ack, no_multi) (rw (same, is_data) (rw found refl))

  -- The stream that a packet comes on, as the called function is told.
  abbrev pub stream_of : Server → Packet → ℕ
  stream_of s f = if s.config.major_version == 0 then 0 else f.substream_id

  ended : Server × Option Exception → Outcome
  ended (u, none) = (u, ok true)
  ended (u, some e) = (u, err e)

  handle_data-port :
      (t : Server) (d : ClientInfo) (p f : Packet)
      → Header p f
      → contains f.dst_port t.config.ports ≡ true
      → handle_data env t addr p (some d)
        ≡ ended (
            env.data_func addr d.minor_version
              (stream_of t p)
              p.payload
              (emit (received addr d.minor_version (stream_of t p) p.payload) t))
  unfolding handle_data ended
  handle_data-port t d p f (same, flags, port, sub) served =
      rw (port, served)
        (ended_of (
          env.data_func addr d.minor_version (stream_of t p) p.payload
            (emit (received addr d.minor_version (stream_of t p) p.payload) t)))
    where
      ended_of :
          (q : Server × Option Exception)
          → (let thrown = q.1 in
              elim thrown as (λ _. Outcome) [ none ↦ (q.0, ok true) | some e ↦ (q.0, err e) ])
            ≡ ended q
      ended_of (u, none) = refl
      ended_of (u, some e) = refl

  nothing_to_send :
      (on : Bool) (u : Server) (c : ClientInfo) → aggregate_if_any env addr id now on u c [] ≡ u
  nothing_to_send true u c = refl
  nothing_to_send false u c = refl

  -- What follows the handling of the last packet that has been left.
  abbrev outcome_end : ClientInfo → List Packet → Outcome → Ending
  outcome_end c queue o = elim o.1 as (λ _. Ending) [
    | ok true ↦ queue_loop env addr id now 0 c (leaving queue o.0) [] false queue
    | ok false ↦ finish env addr id now c false o.0 []
    | err e ↦
        thrown (leaving queue (aggregate_if_any env addr id now (aggregates o.0.config c) o.0 c []))
          e
  ]

  end_of :
      (c : ClientInfo) (queue : List Packet) (q : Server × Option Exception)
      → outcome_end c queue (ended q) ≡ ends_with queue q
  unfolding ended queue_loop
  end_of c queue (u, none) = finish-nil env addr id now c false (leaving queue u)
  end_of c queue (u, some e) =
      ap (λ (t : Server). thrown (leaving queue t) e) (nothing_to_send (aggregates u.config c) u c)

  deliver-calm :
      (c : ClientInfo) (t : Server) (g : Gathered) (p : Packet)
      → is_disconnect p.type ≡ false
      → deliver env addr id now (queue_loop env addr id now 0 c) c t [] false false g (some p)
        ≡ outcome_end c g.left (handle_packet env t addr p now)
  unfolding deliver
  deliver-calm c t g p calm =
      ap
        (λ (b : Bool).
          let gone = b && aggregates t.config c in
          let o = handle_packet env (aggregate_if_any env addr id now gone t c []) addr p now in
          elim o.1 as (λ _. Ending) [
            | ok true ↦
                queue_loop env addr id now 0 c (leaving g.left o.0) [] (false || gone) g.left
            | ok false ↦ finish env addr id now c (false || gone) o.0 []
            | err e ↦
                thrown
                  (leaving g.left
                    (aggregate_if_any env addr id now (aggregates o.0.config c) o.0 c []))
                  e
          ])
        calm

  -- The loop behind a whole packet: the queue is empty, and nothing is to be acknowledged together.
  pub deliver-whole :
      (c d : ClientInfo) (t : Server) (g : Gathered) (p f : Packet)
      → lookup addr t.clients ≡ some d
      → Header p f
      → f.type ≡ data_type
      → has_flag f.flags flag_ack ≡ false
      → has_flag f.flags flag_multi_ack ≡ false
      → contains f.dst_port t.config.ports ≡ true
      → deliver env addr id now (queue_loop env addr id now 0 c) c t [] false false g (some p)
        ≡ ends_with g.left (
            env.data_func addr d.minor_version
              (stream_of t p)
              p.payload
              (emit (received addr d.minor_version (stream_of t p) p.payload) t))
  deliver-whole c d t g p f found header is_data no_ack no_multi served =
      let calm : is_disconnect p.type ≡ false = ap is_disconnect (header.0 ∙ is_data) in
      let calls =
        handle_data-calls t d c p f found header is_data no_ack no_multi
        ∙ handle_data-port t d p f header served in
      deliver-calm c t g p calm
      ∙ (ap (outcome_end c g.left) calls
          ∙ end_of c g.left (
              env.data_func addr d.minor_version (stream_of t p) p.payload
                (emit (received addr d.minor_version (stream_of t p) p.payload) t)))
