-- ===== src/Prudp/Server/Queue/Whole.antt =====
-- `processPacketQueue` of nex/prudp/server.cpp, where a message of one fragment arrives in order.
use splatit.Base.{ℕ, Bool, false, Option, none, List, [], ◌∷◌, Exception}
use splatit.Base.Dict.{lookup}
use splatit.Prudp.Packet.{Packet}
use splatit.Prudp.Server.{PrudpAddress, Server, ClientInfo, Env, received, emit, address_eq}
use splatit.Prudp.Server.Encoders.{get_reliable_encoder}
use splatit.Prudp.Server.Queue.{
  Ending, Scan, deliver, gather, decrypt_one, after_gather, encoder_of,
}
use splatit.Prudp.Server.Queue.FirstFragment.{answered}
use splatit.Prudp.Server.Queue.Handover.{stream_of}

module _ (env : Env) (addr : PrudpAddress) (id now : ℕ) where
  -- The state that the called function is given, but for the event.
  abbrev pub handing_over : Server → ClientInfo → Packet → Server
  handing_over s c f =
      let e = get_reliable_encoder c id in
      after_gather env addr id now (answered env addr id now s c f) (gather e [] none (f ∷ []))

  -- What follows the inner loop where a message is complete.
  delivered :
      (Server → List ℕ → Bool → List Packet → Ending) → ClientInfo → List Packet → Scan → Ending
  delivered loop c queue r =
      let g = gather (encoder_of env addr id now (lookup addr r.server.clients) c) [] none queue in
      deliver env addr id now loop c (after_gather env addr id now r.server g) r.acked false
        r.multiple g g.last_fragment

  -- What `dataFunc` makes of the message, whose event is the newest one.
  abbrev pub handed : Server → ClientInfo → Packet → Server × Option Exception
  handed s c f =
      let p = decrypt_one (get_reliable_encoder c id) f in
      let t = handing_over s c f in
      env.data_func addr c.minor_version (stream_of env addr id now s p) p.payload
        (emit (received addr c.minor_version (stream_of env addr id now s p) p.payload) t)
