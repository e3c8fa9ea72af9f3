-- ===== src/Prudp/Server/Process/Due.antt =====
-- The loop of `process` of nex/prudp/server.cpp ends with nothing due.
use splatit.Base.{
  ℕ, zero, suc, ◌+◌, ◌≤◌, ◌≡◌, inl, inr, refl, sym, subst, arith, Bool, false, Option, none, some,
  List, [], ◌∷◌, length, ltb, leb, ◌&&◌, ◌==◌, if◌then◌else◌, All, Bool-cases, erase_if,
}
use splatit.Base.Dict.{lookup}
use splatit.Prudp.Server.{
  PrudpAddress, Server, ClientInfo, DelayedPacket, Env, contains, insert_delayed, address_eq,
}
use splatit.Prudp.Server.Process.{
  process, is_ping, max_retries, process_loop, process_from, round_if, retry, send_again,
  number_found, number_ping,
}
use splatit.Prudp.Packet.{Packet}
use splatit.Prudp.Server.Send.{send_bytes, encode_packet, retry_interval}
use splatit.Prudp.Server.Clients.{
  close_client_connection, close_found, is_task_of, times_of, say_disconnected,
}

abbrev pub Queue : Type 0
Queue = List (ℕ × DelayedPacket)

-- As `std::multimap` keeps it.
abbrev pub Sorted : Queue → Type 0
Sorted [] = Unit {0}
Sorted (e ∷ m) = All (λ (e' : ℕ × DelayedPacket). e.0 ≤ e'.0) m × Sorted m

abbrev pub due : ℕ → Queue → ℕ
due now [] = 0
due now (e ∷ m) = if ltb e.0 now then suc (due now m) else due now m

All-erase_if {κ} :
    {A : Type 0} (P : A → Type κ) (t : A → Bool) (xs : List A) → All P xs → All P (erase_if t xs)
All-erase_if P t [] h = h
All-erase_if P t (x ∷ xs) h = elim (Bool-cases (t x)) [
  | inl gone ↦ rw gone (All-erase_if P t xs h.1)
  | inr stays ↦ rw stays (h.0, All-erase_if P t xs h.1)
]

erase_if-Sorted : (t : ℕ × DelayedPacket → Bool) (m : Queue) → Sorted m → Sorted (erase_if t m)
erase_if-Sorted t [] h = h
erase_if-Sorted t (e ∷ m) h = elim (Bool-cases (t e)) [
  | inl gone ↦ rw gone (erase_if-Sorted t m h.1)
  | inr stays ↦
      rw stays
        (All-erase_if (λ (e' : ℕ × DelayedPacket). e.0 ≤ e'.0) t m h.0, erase_if-Sorted t m h.1)
]

due-erase_if :
    (now : ℕ) (t : ℕ × DelayedPacket → Bool) (m : Queue) → due now (erase_if t m) ≤ due now m
due-erase_if now t [] = omega arith
due-erase_if now t (e ∷ m) = ground (arith, due-erase_if now t m)

All-insert_delayed {κ} :
    (P : ℕ × DelayedPacket → Type κ) (u : ℕ) (d : DelayedPacket) (m : Queue)
    → P (u, d)
    → All P m
    → All P (insert_delayed u d m)
All-insert_delayed P u d [] p h = (p, tt)
All-insert_delayed P u d (e ∷ m) p h = elim (Bool-cases (ltb u e.0)) [
  | inl here ↦ rw here (p, h)
  | inr on ↦ rw on (h.0, All-insert_delayed P u d m p h.1)
]

All-weaken :
    (u w : ℕ) (m : Queue)
    → u ≤ w
    → All (λ (e : ℕ × DelayedPacket). w ≤ e.0) m
    → All (λ (e : ℕ × DelayedPacket). u ≤ e.0) m
All-weaken u w [] h k = tt
All-weaken u w (e ∷ m) h k = (omega (arith, h, k.0), All-weaken u w m h k.1)

insert_delayed-Sorted :
    (u : ℕ) (d : DelayedPacket) (m : Queue) → Sorted m → Sorted (insert_delayed u d m)
insert_delayed-Sorted u d [] h = (tt, tt)
insert_delayed-Sorted u d (e ∷ m) h = elim (Bool-cases (ltb u e.0)) [
  | inl here ↦ rw here ((ground arith, All-weaken u e.0 m (ground arith) h.0), h)
  | inr on ↦ rw on (
    All-insert_delayed (λ (e' : ℕ × DelayedPacket). e.0 ≤ e'.0) u d m (ground arith) h.0,
    insert_delayed-Sorted u d m h.1,
  )
]

due-insert_delayed :
    (now u : ℕ) (d : DelayedPacket) (m : Queue)
    → now ≤ u
    → due now (insert_delayed u d m) ≡ due now m
due-insert_delayed now u d [] h = ground arith
due-insert_delayed now u d (e ∷ m) h = ground (arith, due-insert_delayed now u d m h)

-- What a step may do to the queue: keep its order, and make nothing due.
abbrev Tidy : ℕ → Queue → Queue → Type 0
Tidy now before after = (Sorted before → Sorted after) × (due now after ≤ due now before)

close_found-Tidy :
    (now : ℕ) (s : Server) (addr : PrudpAddress) (o : Option ClientInfo)
    → Tidy now s.delayed_packets (close_found s addr o).delayed_packets
unfolding close_found
close_found-Tidy now s addr none = (λ h. h, omega arith)
close_found-Tidy now s addr (some c) =
    let t = is_task_of (c.next_ping ∷ times_of c.substreams) addr in
    (erase_if-Sorted t s.delayed_packets, due-erase_if now t s.delayed_packets)

number_found-delayed :
    (s : Server) (d : DelayedPacket) (o : Option ClientInfo)
    → (number_found s d o).0.delayed_packets ≡ s.delayed_packets
unfolding number_found
number_found-delayed s d none = refl
number_found-delayed s d (some c) = refl

module _ (env : Env) (now : ℕ) where
  send_again-Tidy :
      (s : Server) (d : DelayedPacket) (p : Packet)
      → Tidy now s.delayed_packets (send_again env now s d p).delayed_packets
  unfolding send_again send_bytes
  send_again-Tidy s d p =
      let q = (encode_packet env.digest s.config p).1 in
      let d' = record d { num_retries = d.num_retries + 1; packet = q } in
      (
        insert_delayed-Sorted (now + retry_interval) d' s.delayed_packets,
        omega (
          arith,
          due-insert_delayed now (now + retry_interval) d' s.delayed_packets (omega arith),
        ),
      )

  number_ping-delayed :
      (s : Server) (d : DelayedPacket) → (number_ping s d).0.delayed_packets ≡ s.delayed_packets
  unfolding number_ping
  number_ping-delayed s d = elim (Bool-cases (is_ping d.packet.type && d.num_retries == 0)) [
    | inl first ↦ rw first (number_found-delayed s d (lookup d.addr s.clients))
    | inr later ↦ rw later
  ]

  say_disconnected-delayed :
      (s : Server) (addr : PrudpAddress)
      → (say_disconnected s addr).delayed_packets ≡ s.delayed_packets
  say_disconnected-delayed s addr = elim (Bool-cases (contains addr.src_v_port s.config.ports)) [
    | inl known ↦ rw known
    | inr unknown ↦ rw unknown
  ]

  retry-Tidy :
      (s : Server) (d : DelayedPacket)
      → Tidy now s.delayed_packets (retry env now s d).delayed_packets
  unfolding retry close_client_connection
  retry-Tidy s d = elim (Bool-cases (leb max_retries d.num_retries)) [
    | inl dead ↦ rw dead (
        let t = say_disconnected s d.addr in
        subst (λ q. Tidy now q (close_found t d.addr (lookup d.addr t.clients)).delayed_packets)
          (say_disconnected-delayed s d.addr)
          (close_found-Tidy now t d.addr (lookup d.addr t.clients)))
    | inr live ↦ rw live (
        let r = number_ping s d in
        subst (λ q. Tidy now q (send_again env now r.0 d r.1).delayed_packets)
          (number_ping-delayed s d) (send_again-Tidy r.0 d r.1))
  ]

  none_due :
      (m : Queue) (t : ℕ) (d : DelayedPacket)
      → ltb t now ≡ false
      → Sorted ((t, d) ∷ m)
      → due now ((t, d) ∷ m) ≡ 0
  none_due [] t d h k = ground arith
  none_due ((u, d') ∷ m) t d h k = ground (arith, none_due m t d h (k.0.1, k.1.1))

  abbrev Done : Server → Type 0
  Done s = Sorted s.delayed_packets × (due now s.delayed_packets ≡ 0)

  -- The rest of the loop leaves nothing due where no more than `fuel` are.
  abbrev Finishes : ℕ → (Server → Server) → Type 0
  Finishes fuel loop =
      (s : Server) → Sorted s.delayed_packets → due now s.delayed_packets ≤ fuel → Done (loop s)

  process_from-Done :
      (fuel : ℕ) (loop : Server → Server) (s : Server) (m : Queue)
      → Finishes fuel loop
      → s.delayed_packets ≡ m
      → Sorted m
      → due now m ≤ suc fuel
      → Done (process_from env now loop s m)
  unfolding process_from round_if
  process_from-Done fuel loop s [] ih e h k =
      subst (λ m. Sorted m × (due now m ≡ 0)) (sym e) (tt, refl)
  process_from-Done fuel loop s ((t, d) ∷ m) ih e h k = elim (Bool-cases (ltb t now)) [
    | inr later ↦
        rw later (subst (λ m. Sorted m × (due now m ≡ 0)) (sym e) (h, none_due m t d later h))
    | inl ready ↦ rw ready (
        let s' = record s { delayed_packets = m } in
        let tidy = retry-Tidy s' d in ih (retry env now s' d) (tidy.0 h.1) (ground arith))
  ]

  process_loop-Done : (fuel : ℕ) → Finishes fuel (process_loop env now fuel)
  unfolding process_loop
  process_loop-Done zero s h k = (h, omega (arith, k))
  process_loop-Done (suc fuel) s h k =
      process_from-Done fuel (process_loop env now fuel) s s.delayed_packets
        (process_loop-Done fuel) refl h k

  due-length : (m : Queue) → due now m ≤ length m
  due-length [] = omega arith
  due-length (e ∷ m) = ground (arith, due-length m)

  -- `process` on a queue in order leaves it in order with no entry due, so its loop does end.
  pub process-Done :
      (s : Server)
      → Sorted s.delayed_packets
      → Sorted (process env now s).0.delayed_packets
        × (due now (process env now s).0.delayed_packets ≡ 0)
  unfolding process
  process-Done s h = process_loop-Done (length s.delayed_packets) s h (due-length s.delayed_packets)
