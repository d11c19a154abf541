-- ===== src/Telling/Broadcasts.antt =====
-- network/network.go: the broadcasts, and `Close`. `Range` visits the keys of a map in an order of its
-- own, and a key that is gone when its turn comes is passed over: the order is an argument.
use carrier.Prelude.{
  ℕ, ◌*◌, Bool, true, false, List, [], ◌∷◌, ◌++◌, Option, none, some, Bytes, bytes_eq, ◌==◌, leb,
  ltb, length, take, if◌then◌else◌,
}
use carrier.Prelude.Table.{load}
use carrier.Outcome.{Outcome}
use carrier.Peer.Identity.{PeerId, ℤ, pos, negsuc}
use carrier.Wire.Result.{ok, err}
use carrier.Wire.Message.{Message}
use carrier.Requests.Prepare.{prepare_message}
use carrier.ConnMgr.State.{Manager}
use carrier.ConnMgr.Operations.{client_peer_id}
use carrier.ConnMgr.Writing.{WriteError}
use carrier.ConnMgr.Closing.{Halt, try_close}
use carrier.Proxy.Servers.{ProxyService, get_working_proxy_server}
use carrier.Telling.Tell.{Speaker, write_as}

abbrev pub go_on : {S : Type 0} → S × Bool → (S → S) → S
go_on (s, true) rest = rest s
go_on (s, false) rest = s

-- `EachPeer`, which stops when the callback says so.
unfoldable pub each_peer : {S : Type 0} → (S → Manager) → (ℕ → S → S × Bool) → List Bytes → S → S
unfolding load
each_peer tables visit [] s = s
each_peer tables visit (k ∷ order) s = elim (load k (tables s).peers) [
  | none ↦ each_peer tables visit order s
  | some r ↦ go_on (visit r s) (each_peer tables visit order)
]

-- How a broadcast stands: the tables, what was written to whom, and whether it panicked.
pub record Spread : Type 0 where
  pub tables : Manager
  pub sent : List (Bytes × (Bytes × Option WriteError))
  pub crashed : Bool

abbrev pub unsent : Manager → Spread
unsent n = record { tables = n; sent = []; crashed = false }

module _ (s : Speaker) (signing : Bool) where
  -- One `Write` of a broadcast, whose error is only logged.
  abbrev pub write_to : Bytes → Message → Spread → Spread
  write_to peer m b =
      let (result, n) = write_as s peer m b.tables in
      record b { tables = n; sent = b.sent ++ ((peer, result) ∷ []) }

  abbrev pub visit_all : Message → ℕ → Spread → Spread × Bool
  visit_all m r b = (write_to (client_peer_id (b.tables.clients r)) m b, true)

  -- `Broadcast`
  unfoldable pub broadcast : List Bytes → Option s.bodies.Body → Manager → Spread
  unfolding prepare_message each_peer
  broadcast order body n = elim (prepare_message s.policy s.bodies signing s.node body) [
    | err e ↦ unsent n
    | ok m ↦ each_peer (λ b. b.tables) (visit_all m) order (unsent n)
  ]

  -- The proxy server in use is left out by its address.
  abbrev visit_others : ProxyService → Message → ℕ → Spread → Spread × Bool
  visit_others p m r b = elim (get_working_proxy_server p) [
    | Outcome.panic ↦ (record b { crashed = true }, false)
    | Outcome.ok (address, id) ↦
        if (b.tables.clients r).address == address then (b, true) else visit_all m r b
  ]

  -- `BroadcastToPeers`
  unfoldable pub broadcast_to_peers :
      ProxyService → List Bytes → Option s.bodies.Body → Manager → Spread
  unfolding prepare_message each_peer get_working_proxy_server
  broadcast_to_peers p order body n = elim (prepare_message s.policy s.bodies signing s.node body) [
    | err e ↦ unsent n
    | ok m ↦ each_peer (λ b. b.tables) (visit_others p m) order (unsent n)
  ]

  unfoldable pub write_each : List Bytes → Message → Spread → Spread
  write_each [] m b = b
  write_each (id ∷ ids) m b = write_each ids m (write_to id m b)

  -- `BroadcastByClientIDs`
  unfoldable pub broadcast_by_client_ids : List Bytes → Option s.bodies.Body → Manager → Spread
  unfolding prepare_message write_each
  broadcast_by_client_ids ids body n =
      elim (prepare_message s.policy s.bodies signing s.node body) [
        | err e ↦ unsent n
        | ok m ↦ write_each ids m (unsent n)
      ]

  -- `BroadcastByAddresses` takes an address for a peer ID.
  unfoldable pub broadcast_by_addresses : List Bytes → Option s.bodies.Body → Manager → Spread
  unfolding prepare_message write_each
  broadcast_by_addresses addresses body n =
      elim (prepare_message s.policy s.bodies signing s.node body) [
        | err e ↦ unsent n
        | ok m ↦ write_each addresses m (unsent n)
      ]

  abbrev addresses_of : List PeerId → List Bytes
  addresses_of [] = []
  addresses_of (id ∷ ids) = id.address ∷ addresses_of ids

  -- `BroadcastByIDs`, too
  unfoldable pub broadcast_by_ids : List PeerId → Option s.bodies.Body → Manager → Spread
  unfolding prepare_message write_each
  broadcast_by_ids ids body n = elim (prepare_message s.policy s.bodies signing s.node body) [
    | err e ↦ unsent n
    | ok m ↦ write_each (addresses_of ids) m (unsent n)
  ]

  -- The ids that `BroadcastRandomly` gathers, one more than three times as many at most.
  unfoldable pub gather_ids : ℕ → List Bytes → Manager → List Bytes
  unfolding each_peer
  gather_ids k order n =
      each_peer (λ cids. n)
        (λ r cids.
          let more = cids ++ ((n.clients r).pub_key ∷ []) in (more, leb (length more) (k * 3)))
        order []

  -- `BroadcastRandomly`, with the shuffle of the Go library: the ids that it returns, and what it
  -- wrote. A negative count panics.
  unfoldable pub broadcast_randomly :
      (List Bytes → List Bytes)
      → ℤ
      → List Bytes
      → Option s.bodies.Body
      → Manager
      → Outcome (List Bytes × Spread)
  unfolding gather_ids broadcast_by_client_ids
  broadcast_randomly shuffle (negsuc k) order body n = Outcome.panic
  broadcast_randomly shuffle (pos k) order body n =
      let cids = shuffle (gather_ids k order n) in
      let count = if ltb (length cids) k then length cids else k in
      Outcome.ok (cids, broadcast_by_client_ids (take count cids) body n)

-- What `Close` of the network does to the tables: it closes the clients, until one does not get through.
unfoldable pub close_network : (ℕ → Bool) → List Bytes → Manager → Manager × Option Halt
unfolding each_peer try_close
close_network fits order n =
    each_peer (λ s. s.0)
      (λ r s. elim (try_close fits r s.0) [
        | err h ↦ ((s.0, some h), false)
        | ok n' ↦ ((n', none), true)
      ])
      order (n, none)
