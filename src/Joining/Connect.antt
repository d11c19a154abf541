-- ===== src/Joining/Connect.antt =====
-- network/network.go: `ConnectPeer`, `ReconnectPeer`, `Bootstrap`, and the same for proxy servers.
use carrier.Prelude.{
  ℕ, ◌+◌, Bool, true, false, List, [], ◌∷◌, Option, none, some, Bytes, bytes_eq, if◌then◌else◌,
}
use carrier.Prelude.Table.{load}
use carrier.Outcome.{Outcome}
use carrier.Lru.Cache.{Cache}
use carrier.Addresses.Unify.{Net}
use carrier.Addresses.Filter.{filter_peers}
use carrier.ConnMgr.State.{
  tcp, kcp, udp, quic, other, Outside, ClientError, Manager, Reply, put_client,
}
use carrier.ConnMgr.Operations.{
  no_conn, get_or_set_peer_client, client_exist, connection_state_exists, close,
}
use carrier.Telling.Tell.{Speaker, TellError, tell_by_addr}

-- What happens outside during one call: the network as it is then, what the other goroutines do to the
-- tables during the wait for the peer, and whether it has sent its key before the wait ends.
pub record Meeting : Type 0 where
  pub outside : Outside
  pub others : Manager → Manager
  pub answered : Bool

pub data JoinError : Type 0 where
  no_client : ClientError → JoinError
  untold : TellError → JoinError
  no_pub_key : JoinError

-- `waitBootstrapSuccess`: a client that stays silent is closed.
unfoldable pub wait_bootstrap_success : Meeting → ℕ → Manager → Bool × Manager
unfolding close
wait_bootstrap_success met r n =
    if met.answered then (true, met.others n) else (false, close r (met.others n))

-- `client.DisableBackoff()` and `client.Close()` of the client under a key, if there is one.
unfoldable pub drop_client : Bytes → Manager → Manager
unfolding close load
drop_client key n = elim (load key n.peers) [
  | none ↦ n
  | some r ↦ close r (record n {
    clients = put_client r (record (n.clients r) { enable_backoff = false }) n.clients;
  })
]

module _ (s : Speaker) where
  -- The first message to a client, by its address.
  abbrev pub after_dial :
      s.bodies.Body → Reply ℕ × Manager → (Option JoinError × Option ℕ) × Manager
  after_dial body (Reply.err e, n) = ((some (no_client e), none), n)
  after_dial body (Reply.ok r, n) =
      let (told, n') = tell_by_addr s false r (some body) n in
      elim told [ none ↦ ((none, some r), n') | some e ↦ ((some (untold e), none), n') ]

  -- `Client(address, "")`, and `TellByAddr`.
  unfoldable pub greet :
      Outside → s.bodies.Body → Bytes → Manager → (Option JoinError × Option ℕ) × Manager
  unfolding get_or_set_peer_client tell_by_addr
  greet w body address n = after_dial body (get_or_set_peer_client w address [] no_conn n)

  -- `ConnectProxyServer`: the error, if any.
  unfoldable pub connect_proxy_server :
      Outside → s.bodies.Body → Bytes → Manager → Option JoinError × Manager
  unfolding greet connection_state_exists
  connect_proxy_server w request address n =
      if connection_state_exists address n
      then (none, n)
      else let (met, n') = greet w request address n in (met.0, n')

  -- `ReconnectProxyServer`: an address that is not parsed is a nil pointer that is dereferenced.
  unfoldable pub reconnect_proxy_server :
      Outside → s.bodies.Body → Bytes → Bytes → Manager → Outcome (Option JoinError × Manager)
  unfolding connect_proxy_server drop_client
  reconnect_proxy_server w request address peer n = elim (w.protocol address) [
    | none ↦ Outcome.panic
    | some protocol ↦ Outcome.ok (connect_proxy_server w request address (drop_client peer n))
  ]

  abbrev pub waited :
      Meeting → (Option JoinError × Option ℕ) × Manager → (Option JoinError × Bytes) × Manager
  waited met ((some e, r), n) = ((some e, []), n)
  waited met ((none, none), n) = ((none, []), n)
  waited met ((none, some r), n) =
      let (success, n') = wait_bootstrap_success met r n in
      if success then ((none, (n'.clients r).pub_key), n') else ((some no_pub_key, []), n')

  -- `ConnectPeer`: the error, or the ID of the client, which is empty where there is one already.
  unfoldable pub connect_peer :
      Meeting → s.bodies.Body → Bytes → Manager → (Option JoinError × Bytes) × Manager
  unfolding greet wait_bootstrap_success connection_state_exists client_exist
  connect_peer met ping address n =
      if connection_state_exists address n
      then ((none, []), n)
      else if client_exist address n
      then ((none, []), n)
      else waited met (greet met.outside ping address n)

  -- `ReconnectPeer`
  unfoldable pub reconnect_peer :
      Meeting → s.bodies.Body → Bytes → Manager → (Option JoinError × Bytes) × Manager
  unfolding connect_peer drop_client
  reconnect_peer met ping address n = connect_peer met ping address (drop_client address n)

  -- The loop of `Bootstrap`, after `FilterPeers`: the IDs of the clients that answered. An address
  -- that fails is passed over. `met k` is what happens during turn `k`.
  unfoldable pub bootstrap_loop :
      (ℕ → Meeting) → s.bodies.Body → ℕ → List Bytes → Manager → List Bytes × Manager
  unfolding greet wait_bootstrap_success
  bootstrap_loop met ping k [] n = ([], n)
  bootstrap_loop met ping k (address ∷ addresses) n =
      let (result, n') = waited (met k) (greet (met k).outside ping address n) in
      let (ids, n'') = bootstrap_loop met ping (k + 1) addresses n' in
      (elim result.0 [ none ↦ result.1 ∷ ids | some e ↦ ids ], n'')

  -- `Bootstrap`, once the node listens: the addresses are filtered first.
  unfoldable pub bootstrap :
      Net
      → Cache Bytes
      → (ℕ → Meeting)
      → s.bodies.Body
      → List Bytes
      → Manager
      → Outcome (List Bytes × Manager)
  unfolding bootstrap_loop filter_peers
  bootstrap net cache met ping addresses n = elim (filter_peers net n.address addresses cache) [
    | Outcome.panic ↦ Outcome.panic
    | Outcome.ok (peers, cache') ↦ Outcome.ok (bootstrap_loop met ping 0 peers n)
  ]

  -- `ConnectProxyServer` as the argument of the loops over the proxy servers, which counts its calls.
  -- `Dial` ends the process on a scheme without a transport.
  abbrev pub reach_server :
      (ℕ → Outside) → s.bodies.Body → Bytes × Bytes → ℕ × Manager → Outcome (Bool × (ℕ × Manager))
  reach_server w request (ip, peer_id) (k, n) =
      let (error, n') = connect_proxy_server (w k) request ip n in
      let done : Outcome (Bool × (ℕ × Manager)) =
        Outcome.ok (elim error [ none ↦ true | some e ↦ false ], (k + 1, n')) in
      if connection_state_exists ip n then done else elim ((w k).protocol ip) [
        | none ↦ done
        | some tcp ↦ done
        | some kcp ↦ done
        | some udp ↦ done
        | some quic ↦ done
        | some other ↦ Outcome.panic
      ]
