-- ===== src/Telling/Reach.antt =====
-- network/network.go: whom a broadcast reaches.
use carrier.Prelude.{
  ◌+◌, ◌%◌, ◌^◌, ℕ, ◌≡◌, refl, ap, ap₂, sym, ◌∙◌, subst, arith, Bool, true, false, List, [], ◌∷◌,
  ◌++◌, append_assoc, append-nil, Option, none, some, Bytes, bytes_eq, ◌==◌, All, Option-cases, inl,
  inr,
}
use carrier.Prelude.Table.{
  load, load-store, load-store_cases, has_of_load, load_of_has, has_of_none, has-load,
}
use carrier.Wire.Result.{ok}
use carrier.Wire.Message.{Message}
use carrier.Requests.Prepare.{prepare_message}
use carrier.ConnMgr.State.{Protocol, ConnState, Manager}
use carrier.ConnMgr.Operations.{client_peer_id}
use carrier.ConnMgr.Sync.{IsSync}
use carrier.ConnMgr.Writing.{
  WriteError, write, after_send_sent, counted, with_nonce, next_nonce, lacks_conn, numbered-IsSync,
}
use carrier.Telling.Tell.{Speaker, write_as}
use carrier.Telling.Broadcasts.{go_on, each_peer, Spread, unsent, visit_all, broadcast}

-- No key stands twice.
abbrev pub Distinct : List Bytes → Type 0
Distinct [] = Unit
Distinct (k ∷ ks) = All (λ j. (k == j) ≡ false) ks × Distinct ks

-- What a peer with this connection is to get, and nothing is to fail.
abbrev pub delivery : Speaker → Protocol → Message → ConnState → Bytes × Option WriteError
delivery s p m c =
    ((s.sends p (record m { message_nonce = (c.message_nonce + 1) % 2 ^ 64 })).0, none)

-- What each of the keys that are peers is to get: the message, with the next nonce of its connection.
abbrev pub deliveries :
    Speaker → Protocol → Message → List Bytes → Manager → List (Bytes × (Bytes × Option WriteError))
deliveries s p m [] n = []
deliveries s p m (k ∷ ks) n = elim (load k n.connections) [
  | none ↦ deliveries s p m ks n
  | some c ↦ (k, delivery s p m c) ∷ deliveries s p m ks n
]

-- The tables are in sync, the clients have the IDs that they are stored under, and the node can write
-- to every connection.
pub record IsOpen (s : Speaker) (p : Protocol) (n : Manager) : Type 0 where
  pub own : s.own ≡ some p
  pub takes : (m : Message) → (s.sends p m).1 ≡ none
  pub in_sync : IsSync n
  pub keyed : (k : Bytes) (r : ℕ) → load k n.peers ≡ some r → client_peer_id (n.clients r) ≡ k
  pub held :
      (k : Bytes) (c : ConnState)
      → load k n.connections ≡ some c
      → lacks_conn s.is_net_conn p c.conn ≡ false

module _ (s : Speaker) (signing : Bool) (p : Protocol) (m : Message) where
  deliveries-counted :
      (k : Bytes) (c : ConnState) (ks : List Bytes) (n : Manager)
      → All (λ j. (k == j) ≡ false) ks
      → deliveries s p m ks (counted k c n) ≡ deliveries s p m ks n
  deliveries-counted k c [] n h = refl
  deliveries-counted k c (j ∷ ks) n h =
      let same : load j (counted k c n).connections ≡ load j n.connections =
        ground (arith, load-store k j (next_nonce c) n.connections, h.0) in
      ap₂
        (λ (o : Option ConnState) rest.
          elim o as (λ x. List (Bytes × (Bytes × Option WriteError))) [
            | none ↦ rest
            | some c ↦ (j, delivery s p m c) ∷ rest
          ])
        same (deliveries-counted k c ks n h.1)

  counted-IsOpen :
      (k : Bytes) (c : ConnState) (n : Manager)
      → load k n.connections ≡ some c
      → IsOpen s p n
      → IsOpen s p (counted k c n)
  unfolding next_nonce
  counted-IsOpen k c n here o = record {
    own = o.own;
    takes = o.takes;
    in_sync = numbered-IsSync k c (next_nonce c) n here o.in_sync;
    keyed = o.keyed;
    held = λ j d there. elim (load-store_cases k j (next_nonce c) d n.connections there) [
      | inl (same, e) ↦
          subst (λ (x : ConnState). lacks_conn s.is_net_conn p x.conn ≡ false) e (o.held k c here)
      | inr (apart, before) ↦ o.held j d before
    ];
  }

  write-open :
      (k : Bytes) (c : ConnState) (n : Manager)
      → load k n.connections ≡ some c
      → IsOpen s p n
      → write_as s k m n ≡ (delivery s p m c, counted k c n)
  unfolding write next_nonce
  write-open k c n here o =
      rw (write, here, o.own, o.held k c here)
        (after_send_sent k (s.sends p (with_nonce c m)) (counted k c n) (o.takes (with_nonce c m)))

  each_peer-deliveries :
      (order : List Bytes) (b : Spread)
      → Distinct order
      → IsOpen s p b.tables
      → (each_peer (λ b. b.tables) (visit_all s signing m) order b).sent
        ≡ b.sent ++ deliveries s p m order b.tables
  unfolding each_peer
  each_peer-deliveries [] b d o = sym (append-nil b.sent)
  each_peer-deliveries (k ∷ order) b d o = elim (Option-cases (load k b.tables.connections)) [
    | inl absent ↦
        let gone : load k b.tables.peers ≡ none =
          has-load k b.tables.peers
            (sym (o.in_sync k).0 ∙ has_of_none k b.tables.connections absent) in
        rw (gone, each_peer, absent, deliveries) (each_peer-deliveries order b d.1 o)
    | inr (c, here) ↦
        let (r, there) =
          load_of_has k b.tables.peers
            (sym (o.in_sync k).0 ∙ has_of_load k b.tables.connections here) in
        let b' : Spread = record b {
          tables = counted k c b.tables;
          sent = b.sent ++ ((k, delivery s p m c) ∷ []);
        } in
        let rest = each_peer (λ b. b.tables) (visit_all s signing m) order in
        let opened : each_peer (λ b. b.tables) (visit_all s signing m) (k ∷ order) b
            ≡ go_on (visit_all s signing m r b) rest =
          rw (each_peer, there) refl in
        let visited : visit_all s signing m r b ≡ (b', true) =
          rw (o.keyed k r there, write-open k c b.tables here o) refl in
        let same : deliveries s p m (k ∷ order) b.tables
            ≡ (k, delivery s p m c) ∷ deliveries s p m order b.tables =
          rw (here, deliveries) refl in
        ap (λ (x : Spread). x.sent) (opened ∙ ap (λ v. go_on v rest) visited)
        ∙ each_peer-deliveries order b' d.1 (counted-IsOpen k c b.tables here o)
        ∙ ap (λ ds. b'.sent ++ ds) (deliveries-counted k c order b.tables d.0)
        ∙ append_assoc b.sent ((k, delivery s p m c) ∷ []) (deliveries s p m order b.tables)
        ∙ ap (λ ds. b.sent ++ ds) (sym same)
  ]

-- `Broadcast` over tcp, kcp or udp writes the message exactly once to each peer whose key `Range`
-- visits, in that order, to nobody else and with no error, and numbers it one after the last message of
-- that connection, as a word of 64 bits; if the tables are in sync, the clients have the IDs that they
-- are stored under, the connections are of the kind that the protocol needs, and the transport takes
-- the messages.
pub broadcast-deliveries :
    (s : Speaker) (signing : Bool) (p : Protocol) (order : List Bytes) (body : Option s.bodies.Body)
    (n : Manager) {m : Message}
    → prepare_message s.policy s.bodies signing s.node body ≡ ok m
    → Distinct order
    → IsOpen s p n
    → (broadcast s signing order body n).sent ≡ deliveries s p m order n
unfolding broadcast
broadcast-deliveries s signing p order body n {m} made d o =
    rw (made, broadcast) (each_peer-deliveries s signing p m order (unsent n) d o)
