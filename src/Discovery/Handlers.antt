-- ===== src/Discovery/Handlers.antt =====
-- network/components/discovery/component.go: what the handlers keep of the routing table.
use carrier.Prelude.{
  ◌≡◌, ◌≤◌, refl, ap, sym, ◌∙◌, subst, arith, Bool, true, false, List, [], ◌∷◌, Option, none, some,
  inl, inr, if◌then◌else◌, length, All, ◌⊎◌, Bool-cases, Option-cases,
}
use carrier.Prelude.Words.{IsBytes}
use carrier.Prelude.Sort.{IsSorted}
use carrier.Outcome.{Outcome, ok}
use carrier.Peer.Identity.{PeerId, hex_encode, equals}
use carrier.Dht.Routes.{
  RoutingTable, bucket_size, bucket_at, bucket_id, remove_peer, peer_exists, find_peer,
  remove_first, put_bucket, nearer,
}
use carrier.Dht.Invariant.{IsRouting, update-IsRouting, remove_peer-IsRouting}
use carrier.Dht.Lookup.{peer_exists-remove_peer}
use carrier.Dht.Closest.{IsPeer, find_closest_peers-IsSorted}
use carrier.Discovery.Receive.{
  Options, Packet, ping, pong, disconnect, other_packet, lookup_node_request, State, Effect,
  reply_peers, handle, receive, peer_disconnect,
}

-- `PeerDisconnect` never panics, for any id and any table: its test for the peer comes before the
-- removal that has none.
pub peer_disconnect-total :
    (id : Option PeerId) (t : RoutingTable) → (t' : RoutingTable) × (peer_disconnect id t ≡ ok t')
unfolding peer_disconnect peer_exists remove_peer
peer_disconnect-total none t = (t, refl)
peer_disconnect-total (some id) t = elim (Option-cases (bucket_at t (bucket_id t id))) [
  | inl missing ↦ (t, ground arith)
  | inr (b, found) ↦ elim (Option-cases (find_peer id b)) [
    | inl absent ↦ (t, ground arith)
    | inr (p, there) ↦ (put_bucket t (bucket_id t id) (remove_first id b), ground arith)
  ]
]

-- After `PeerDisconnect` of a client with an id of the node's size, on a valid table, the peer is not
-- in the table, every other peer is as it was, and the table is valid.
pub peer_disconnect-gone :
    (id : PeerId) (t : RoutingTable)
    → IsRouting t
    → length id.id ≡ length t.self.id
    → (t' : RoutingTable) × (peer_disconnect (some id) t ≡ ok t')
      × (peer_exists t' id ≡ false)
      × ((q : PeerId) → equals q id ≡ false → peer_exists t' q ≡ peer_exists t q)
      × IsRouting t'
unfolding peer_disconnect
peer_disconnect-gone id t r size = elim (Bool-cases (peer_exists t id)) [
  | inr absent ↦ (t, ground arith, absent, λ q ne. refl, r)
  | inl there ↦
      let (t', e, r', same) = remove_peer-IsRouting t id r size in
      let (gone, others) = peer_exists-remove_peer t id r size e in
      (t', ground arith, gone, others, r')
]

module _ (options : Options) (find : PeerId → RoutingTable → Outcome (List PeerId × RoutingTable))
    (sent : Bool) where
  -- What a message asks for with the table that the update with its sender leaves: a request has a
  -- target, and the call of `FindNode` on a `Pong` returns, with ids of bytes and a valid table.
  abbrev pub IsHandleable : PeerId → RoutingTable → Packet → Type 0
  IsHandleable sender t ping = Unit
  IsHandleable sender t pong =
      (options.disable_pong ≡ true)
      ⊎ ((ps : List PeerId) × (t' : RoutingTable) × (find sender t ≡ ok (ps, t'))
          × IsRouting t'
          × (t'.self ≡ t.self)
          × All (λ p. IsBytes p.id) ps)
  IsHandleable sender t (lookup_node_request none) = options.disable_lookup ≡ true
  IsHandleable sender t (lookup_node_request (some target)) = Unit
  IsHandleable sender t disconnect = Unit
  IsHandleable sender t other_packet = Unit

  abbrev IsHandled : RoutingTable → Outcome (State × List Effect × Bool) → Type 0
  IsHandled t o =
      (s' : State) × (effects : List Effect) × (fine : Bool) × (o ≡ ok (s', effects, fine))
      × IsRouting s'.routes
      × (s'.routes.self ≡ t.self)

  abbrev told : PeerId → State → State
  told sender s = record s { pub_key = hex_encode sender.net_key; recv_channel_closed = true }

  abbrev closing : State → List Effect
  closing s = if s.recv_channel_closed then [] else Effect.close_remote_pub_key ∷ []

  -- With lookups enabled, a `LookupNodeRequest` from a sender whose id is bytes, on a valid table,
  -- for a target whose id has the size of the node's own, is answered by at most 16 peers of
  -- that size, none nearer to the target than one before it.
  pub receive-lookup :
      (sender target : PeerId) (s : State)
      → IsRouting s.routes
      → IsBytes sender.id
      → options.disable_lookup ≡ false
      → length target.id ≡ length s.routes.self.id
      → (s' : State) × (peers : List PeerId) × (receive options find sent sender
            (lookup_node_request (some target))
            s
          ≡ ok (s', reply_peers peers ∷ [], sent))
        × (length peers ≤ bucket_size)
        × IsSorted (nearer target) peers
        × All (IsPeer s.routes.self) peers
  unfolding receive handle
  receive-lookup sender target s r bytes on size =
      let (t, e, r1, same) = update-IsRouting s.routes sender r bytes in
      let (peers, found, bound, sorted, all) =
        find_closest_peers-IsSorted t target bucket_size r1
          (size ∙ ap (λ i. length i.id) (sym same)) in
      (
        record s { routes = t },
        peers,
        ground arith,
        bound,
        sorted,
        subst (λ i. All (IsPeer i) peers) same all,
      )
