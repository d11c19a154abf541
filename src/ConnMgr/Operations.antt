-- ===== src/ConnMgr/Operations.antt =====
-- network/network.go: `getOrSetPeerClient` and what it calls; network/client.go: `Close`.
use carrier.Prelude.{
  ℕ, suc, Bool, true, List, [], ◌∷◌, ◌++◌, Option, none, some, Bytes, bytes_eq, ◌==◌, if◌then◌else◌,
  ◌&&◌,
}
use carrier.Prelude.Table.{load, store, delete, has}
use carrier.Peer.Identity.{PeerId, public_key_hex}
use carrier.ConnMgr.State.{
  PeerState, unknown, reachable, unreachable, Protocol, tcp, kcp, udp, quic, other, Outside, Client,
  new_multi_stream, Manager, new_client, put_client, no_address, self_dial, invalid_address,
  not_ready, dial_failed, Reply, ok, err,
}

-- `Load(from)`, `Store(to, …)` and `Delete(from)`
unfoldable pub move : {V : Type 0} → Bytes → Bytes → V → List (Bytes × V) → List (Bytes × V)
move from to v m = delete from (store to v m)

-- `resetConnMgrItemByPeerID`: each step returns early where its table lacks the address.
unfoldable pub reset_streams : Bytes → Bytes → Manager → Manager
unfolding move
reset_streams address peer_id n = elim (load address n.streams) [
  | none ↦ n
  | some s ↦ record n { streams = move address peer_id s n.streams }
]

unfoldable pub reset_states : Bytes → Bytes → Manager → Manager
unfolding move reset_streams
reset_states address peer_id n = elim (load address n.conn_states) [
  | none ↦ n
  | some s ↦
      reset_streams address peer_id
        (record n { conn_states = move address peer_id s n.conn_states })
]

unfoldable pub reset_connections : Bytes → Bytes → Manager → Manager
unfolding move reset_states
reset_connections address peer_id n = elim (load address n.connections) [
  | none ↦ n
  | some c ↦
      reset_states address peer_id (record n { connections = move address peer_id c n.connections })
]

unfoldable pub reset_item : Bytes → Bytes → Manager → Manager
unfolding move reset_connections
reset_item address peer_id n = elim (load address n.peers) [
  | none ↦ n
  | some p ↦ reset_connections address peer_id (record n { peers = move address peer_id p n.peers })
]

-- `initConnection`: an unknown scheme stores nothing.
unfoldable pub init_connection : Protocol → Bytes → ℕ → Manager → Manager
init_connection other peer_id conn n = n
init_connection tcp peer_id conn n = record n {
  connections = store peer_id (record { conn = conn; message_nonce = 0 }) n.connections;
}
init_connection kcp peer_id conn n = record n {
  connections = store peer_id (record { conn = conn; message_nonce = 0 }) n.connections;
}
init_connection udp peer_id conn n = record n {
  connections = store peer_id (record { conn = conn; message_nonce = 0 }) n.connections;
}
init_connection quic peer_id conn n = record n {
  connections = store peer_id (record { conn = conn; message_nonce = 0 }) n.connections;
}

unfoldable pub update_conn_state : Bytes → PeerState → Manager → Manager
update_conn_state peer_id state n = record n { conn_states = store peer_id state n.conn_states }

-- The end of `getOrSetPeerClient`: the entries of the new client, which is ready in both ways.
unfoldable pub register : Protocol → Bytes → Bytes → ℕ → Manager → Manager
unfolding init_connection update_conn_state new_client new_multi_stream
register protocol address peer_id conn n =
    let n1 = init_connection protocol peer_id conn n in
    let n2 = record n1 {
      peers = store peer_id n1.next n1.peers;
      streams = store peer_id new_multi_stream n1.streams;
    } in
    let ready = record (new_client address) {
      pub_key = peer_id;
      outgoing_ready = true;
      incoming_ready = true;
    } in
    let n3 = update_conn_state peer_id reachable n2 in
    record n3 { clients = put_client n3.next ready n3.clients; next = suc n3.next }

-- What is given as the connection of a new client: a UDP socket counts as none.
pub data Incoming : Type 0 where
  no_conn : Incoming
  stream_conn : ℕ → Incoming
  udp_conn : ℕ → Incoming

abbrev given : Incoming → Option ℕ
given no_conn = none
given (stream_conn c) = some c
given (udp_conn c) = none

-- What follows the dialing, if there is no connection yet.
unfoldable pub connect : Protocol → Bytes → Bytes → Option ℕ → Manager → Reply ℕ × Manager
unfolding register
connect protocol address peer_id none n =
    (err dial_failed, record n { peers = delete peer_id n.peers })
connect protocol address peer_id (some conn) n =
    (ok n.next, register protocol address peer_id conn n)

-- `if peerID == "" { peerID = address }`
abbrev pub key_or : Bytes → Bytes → Bytes
key_or address [] = address
key_or address (b ∷ peer_id) = b ∷ peer_id

module _ (w : Outside) where
  unfoldable pub create_client : Protocol → Bytes → Bytes → Incoming → Manager → Reply ℕ × Manager
  unfolding connect
  create_client protocol address peer_id incoming n = elim (given incoming) [
    | none ↦ connect protocol address peer_id (w.dial address) n
    | some conn ↦ connect protocol address peer_id (some conn) n
  ]

  -- A cached client is returned if it is ready, within the second that `IsOutgoingReady` waits.
  unfoldable pub find_client : Protocol → Bytes → Bytes → Incoming → Manager → Reply ℕ × Manager
  unfolding create_client
  find_client protocol address peer_id incoming n = elim (load peer_id n.peers) [
    | none ↦ create_client protocol address peer_id incoming n
    | some r ↦ if (n.clients r).outgoing_ready then (ok r, n) else (err not_ready, n)
  ]

  unfoldable pub get_or_set_peer_client : Bytes → Bytes → Incoming → Manager → Reply ℕ × Manager
  unfolding find_client reset_item
  get_or_set_peer_client raw peer_id incoming n =
      let key = key_or raw peer_id in
      elim (w.unify raw) [
        | none ↦ (err no_address, n)
        | some address ↦
            if address == n.address then (err self_dial, n) else elim (w.protocol address) [
              | none ↦ (err invalid_address, n)
              | some protocol ↦
                  find_client protocol address key incoming
                    (if address == key then n else reset_item address key n)
            ]
      ]

unfoldable pub client_exist : Bytes → Manager → Bool
client_exist peer_id n = has peer_id n.peers

unfoldable pub connection_state_exists : Bytes → Manager → Bool
connection_state_exists peer_id n = has peer_id n.connections

abbrev only_reachable : PeerState → Option PeerState
only_reachable reachable = some reachable
only_reachable unreachable = none
only_reachable unknown = none

-- `GetRealConnState`: `none` stands for the error, which comes with PEER_UNREACHABLE.
unfoldable pub get_real_conn_state : Bytes → Manager → Option PeerState
unfolding has
get_real_conn_state peer_id n = elim (load peer_id n.conn_states) [
  | none ↦ none
  | some state ↦
      if has peer_id n.peers && has peer_id n.connections then only_reachable state else none
]

-- `PeerID()` of a client
unfoldable pub client_peer_id : Client → Bytes
client_peer_id c = elim c.id [ none ↦ [] | some id ↦ public_key_hex id ]

unfoldable pub client_address : Client → Bytes
client_address c = elim c.id [ none ↦ c.address | some id ↦ id.address ]

-- The deletions of `RemoveEntries` under one key.
unfoldable pub forget : Bytes → Manager → Manager
unfolding update_conn_state
forget key n = update_conn_state key unreachable (record n {
  peers = delete key n.peers;
  connections = delete key n.connections;
  streams = delete key n.streams;
})

unfoldable pub forget_peer : Bytes → Bytes → Manager → Manager
unfolding forget has
forget_peer key client_id n =
    if has key n.connections
    then record (forget key n) { node_quit = n.node_quit ++ (client_id ∷ []) }
    else n

unfoldable pub forget_address : Bytes → Manager → Manager
unfolding forget has
forget_address key n = if has key n.connections then forget key n else n

-- `RemoveEntries`. The address of the node itself has been parsed when it was built, so the
-- parse does not fail here. The type assertions on the connections hold here, and the send on
-- `nodeQuit` finds room: `Closing.removal_halts` tells where not.
unfoldable pub remove_entries : ℕ → Manager → Manager
unfolding forget_peer forget_address client_peer_id client_address
remove_entries r n =
    let c = n.clients r in
    elim (client_address c) [
      | [] ↦ n
      | b ∷ address ↦ forget_address (b ∷ address) (forget_peer (client_peer_id c) c.pub_key n)
    ]

-- `Close`, but for the callbacks of the components.
unfoldable pub close : ℕ → Manager → Manager
unfolding remove_entries
close r n =
    if (n.clients r).closed
    then n
    else remove_entries r (record n {
      clients =
          put_client r (record (n.clients r) { closed = true; stream_closed = true }) n.clients;
    })

-- `client.ID = msg.Sender` of the accept loops
unfoldable pub set_client_id : ℕ → PeerId → Manager → Manager
set_client_id r id n = record n {
  clients = put_client r (record (n.clients r) { id = some id }) n.clients;
}
