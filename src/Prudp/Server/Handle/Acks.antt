-- ===== src/Prudp/Server/Handle/Acks.antt =====
-- What acknowledgements take off a client's packets in nex/prudp/server.cpp: `deleteNonAckedPacket`
-- and the aggregate acknowledgements of `handlePacket`.
use splatit.Base.{
  ℕ, ◌≤◌, ◌<◌, ◌≡◌, inl, inr, refl, ap, sym, subst, ◌∙◌, arith, Bool, true, false, ◌&&◌, Option,
  none, some, List, [], ◌∷◌, length, leb, ◌==◌, ==_iff, if◌then◌else◌, All, Bool-cases,
}
use splatit.Base.Dict.{lookup, lookup-erase, nat_eq}
use splatit.Prudp.Server.{
  PrudpAddress, Server, ClientInfo, Substream, address_eq, substream, update_substream, contains,
}
use splatit.Prudp.Server.Clients.{delete_non_acked_packet, delete_found, delete_task, drop_ack}
use splatit.Prudp.Server.Lookup.{lookup-update_client, substream-update_substream, length-set}
use splatit.Prudp.Server.Handle.{ack_up_to, ack_each, apply_aggregate_ack}

-- The client is there, with the substream.
abbrev pub Present : Server → PrudpAddress → ℕ → Type 0
Present s addr id = (c : ClientInfo) × (lookup addr s.clients ≡ some c) × (id < length c.substreams)

abbrev pub waits_in : Option ClientInfo → ℕ → ℕ → Option ℕ
waits_in none id j = none
waits_in (some c) id j = lookup j (substream c id).non_acked_packets

-- When the packet that has sequence ID `j` is to be sent again, if it is not acknowledged.
abbrev pub waits : Server → PrudpAddress → ℕ → ℕ → Option ℕ
waits s addr id j = waits_in (lookup addr s.clients) id j

absent : (k j : ℕ) (w : ℕ → Option ℕ) → w k ≡ none → w j ≡ (if k == j then none else w j)
absent k j w h = elim (Bool-cases (k == j)) [
  | inl same ↦ rw same (ap w (sym ((==_iff k j).0 same)) ∙ h)
  | inr other ↦ rw other
]

cut_in :
    (j k : ℕ) (b : Bool) (o : Option ℕ)
    → (if b then none else if k == j then none else o)
      ≡ (if (if k == j then true else b) then none else o)
cut_in j k b o = ground arith

cut_below :
    (j k limit : ℕ) (b : Bool) (o : Option ℕ)
    → leb k limit ≡ true
    → (if leb j limit && b then none else if k == j then none else o)
      ≡ (if leb j limit && (if k == j then true else b) then none else o)
cut_below j k limit b o h = ground arith

off : (b : Bool) (o : Option ℕ) → o ≡ (if b && false then none else o)
off true o = refl
off false o = refl

module _ (addr : PrudpAddress) (id : ℕ) where
  waits-Present :
      (s : Server) (c : ClientInfo) (j : ℕ)
      → lookup addr s.clients ≡ some c
      → waits s addr id j ≡ lookup j (substream c id).non_acked_packets
  waits-Present s c j h = ap (λ o. waits_in o id j) h

  delete_task-Present :
      (s : Server) (k : ℕ) (o : Option ℕ)
      → Present s addr id
      → Present (delete_task s addr k id o) addr id
  unfolding delete_task
  delete_task-Present s k none h = h
  delete_task-Present s k (some task) (c, found, there) = (
    update_substream id (drop_ack k) c,
    lookup-update_client s addr (update_substream id (drop_ack k)) c found,
    rw (length-set c.substreams id (drop_ack k (substream c id))) there,
  )

  delete_task-waits :
      (s : Server) (k j : ℕ) (o : Option ℕ) (h : Present s addr id)
      → lookup k (substream h.0 id).non_acked_packets ≡ o
      → waits (delete_task s addr k id o) addr id j ≡ (if k == j then none else waits s addr id j)
  unfolding delete_task
  delete_task-waits s k j none (c, found, there) e =
      absent k j (waits s addr id) (waits-Present s c k found ∙ e)
  delete_task-waits s k j (some task) (c, found, there) e =
      let f = update_substream id (drop_ack k) in
      let seen = substream-update_substream c id (drop_ack k) there in
      ap (λ o. waits_in o id j) (lookup-update_client s addr f c found)
      ∙ (ap (λ (u : Substream). lookup j u.non_acked_packets) seen
          ∙ (lookup-erase k j (substream c id).non_acked_packets
              ∙ ap (λ o. if k == j then none else o) (sym (waits-Present s c j found))))

  delete-Present :
      (s : Server) (k : ℕ)
      → Present s addr id
      → Present (delete_non_acked_packet s addr k id) addr id
  unfolding delete_non_acked_packet delete_found
  delete-Present s k (c, found, there) =
      rw found
        (delete_task-Present s k (lookup k (substream c id).non_acked_packets) (c, found, there))

  -- An acknowledged packet of a substream that is there is not waited for any more, and all others
  -- are as before.
  pub delete-waits :
      (s : Server) (k j : ℕ)
      → Present s addr id
      → waits (delete_non_acked_packet s addr k id) addr id j
        ≡ (if k == j then none else waits s addr id j)
  unfolding delete_non_acked_packet delete_found
  delete-waits s k j (c, found, there) =
      subst
        (λ o.
          waits (delete_found s addr k id o) addr id j
          ≡ (if k == j then none else waits s addr id j))
        (sym found)
        (delete_task-waits s k j (lookup k (substream c id).non_acked_packets) (c, found, there)
          refl)

  pub ack_each-waits :
      (extra : List ℕ) (s : Server) (j : ℕ)
      → Present s addr id
      → waits (ack_each addr id extra s) addr id j
        ≡ (if contains j extra then none else waits s addr id j)
  unfolding ack_each
  ack_each-waits [] s j h = refl
  ack_each-waits (k ∷ more) s j h =
      ack_each-waits more (delete_non_acked_packet s addr k id) j (delete-Present s k h)
      ∙ (ap (λ o. if contains j more then none else o) (delete-waits s k j h)
          ∙ cut_in j k (contains j more) (waits s addr id j))

  -- As `std::map` keeps its keys.
  abbrev pub Ordered : List (ℕ × ℕ) → Type 0
  Ordered [] = Unit {0}
  Ordered (e ∷ m) = All (λ (e' : ℕ × ℕ). e.0 < e'.0) m × Ordered m

  abbrev has : ℕ → List (ℕ × ℕ) → Bool
  has j [] = false
  has j (e ∷ m) = if e.0 == j then true else has j m

  has-above :
      (m : List (ℕ × ℕ)) (j k : ℕ) → j ≤ k → All (λ (e : ℕ × ℕ). k < e.0) m → has j m ≡ false
  has-above [] j k h a = refl
  has-above (e ∷ m) j k h a = ground (arith, has-above m j k h a.1, a.0)

  has-past :
      (j limit : ℕ) (e : ℕ × ℕ) (m : List (ℕ × ℕ))
      → Ordered (e ∷ m)
      → leb e.0 limit ≡ false
      → (leb j limit && has j (e ∷ m)) ≡ false
  has-past j limit e m o stops = elim (Bool-cases (leb j limit)) [
    | inr above ↦ rw above
    | inl below ↦ ground (arith, has-above m j e.0 (ground arith) o.0)
  ]

  ack_up_to-waits :
      (m : List (ℕ × ℕ)) (limit : ℕ) (s : Server) (j : ℕ)
      → Ordered m
      → Present s addr id
      → waits (ack_up_to addr id limit m s) addr id j
        ≡ (if leb j limit && has j m then none else waits s addr id j)
  unfolding ack_up_to
  ack_up_to-waits [] limit s j o h = off (leb j limit) (waits s addr id j)
  ack_up_to-waits (e ∷ m) limit s j o h = elim (Bool-cases (leb e.0 limit)) [
    | inr stops ↦ rw (stops, has-past j limit e m o stops)
    | inl goes ↦ rw goes (
        ack_up_to-waits m limit (delete_non_acked_packet s addr e.0 id) j o.1
          (delete-Present s e.0 h)
        ∙ (ap (λ w. if leb j limit && has j m then none else w) (delete-waits s e.0 j h)
            ∙ cut_below j e.0 limit (has j m) (waits s addr id j) goes))
  ]

  ack_up_to-Present :
      (m : List (ℕ × ℕ)) (limit : ℕ) (s : Server)
      → Present s addr id
      → Present (ack_up_to addr id limit m s) addr id
  unfolding ack_up_to
  ack_up_to-Present [] limit s h = h
  ack_up_to-Present (e ∷ m) limit s h = elim (Bool-cases (leb e.0 limit)) [
    | inl goes ↦
        rw goes (
          ack_up_to-Present m limit (delete_non_acked_packet s addr e.0 id)
            (delete-Present s e.0 h))
    | inr stops ↦ rw stops h
  ]

  lookup-has : (j : ℕ) (m : List (ℕ × ℕ)) → has j m ≡ false → lookup j m ≡ none
  lookup-has j [] h = refl
  lookup-has j (e ∷ m) h = elim (Bool-cases (e.0 == j)) [
    | inl same ↦ absurd (ground arith)
    | inr other ↦ rw other (lookup-has j m (ground arith))
  ]

  absent_below :
      (j limit : ℕ) (m : List (ℕ × ℕ)) (o : Option ℕ)
      → o ≡ lookup j m
      → (if leb j limit && has j m then none else o) ≡ (if leb j limit then none else o)
  absent_below j limit m o h = elim (Bool-cases (has j m)) [
    | inl there ↦ rw there (ground arith)
    | inr gone ↦ rw (gone, h, lookup-has j m gone) (ground arith)
  ]

  -- An aggregate acknowledgement for a substream that is there, whose map is in order, takes away
  -- the packets up to its limit and those that it lists, and no others.
  pub aggregate_ack-waits :
      (s : Server) (c : ClientInfo) (limit : ℕ) (extra : List ℕ) (j : ℕ)
      → lookup addr s.clients ≡ some c
      → id < length c.substreams
      → Ordered (substream c id).non_acked_packets
      → waits
          (apply_aggregate_ack s addr c
            (some (record { substream_id = id; limit = limit; extra = extra }))).0
          addr
          id
          j
        ≡ (if contains j extra then none else if leb j limit then none else waits s addr id j)
  unfolding apply_aggregate_ack
  aggregate_ack-waits s c limit extra j found there o =
      let m = (substream c id).non_acked_packets in
      ack_each-waits extra (ack_up_to addr id limit m s) j
        (ack_up_to-Present m limit s (c, found, there))
      ∙ ap (λ w. if contains j extra then none else w)
          (ack_up_to-waits m limit s j o (c, found, there)
            ∙ absent_below j limit m (waits s addr id j) (waits-Present s c j found))
