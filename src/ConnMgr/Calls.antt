-- ===== src/ConnMgr/Calls.antt =====
-- network/network.go and network/client.go: the calls of the connection manager keep the tables in
-- sync.
use carrier.Prelude.{
  ℕ, ◌≡◌, ◌≢◌, refl, ap, ◌∙◌, arith, Bool, true, false, [], ◌∷◌, Option, none, some, Bytes,
  bytes_eq, bytes_beq_iff, ◌==◌, if◌then◌else◌, Bool-cases, Option-cases, inl, inr,
}
use carrier.Prelude.Table.{load, store, has, has-store, has-delete, has_of_none}
use carrier.ConnMgr.State.{
  reachable, unreachable, Protocol, tcp, kcp, udp, quic, other, Outside, ConnState, MultiStream,
  new_multi_stream, Manager, Reply, ok, err, not_ready, put_client,
}
use carrier.ConnMgr.Operations.{
  reset_item, init_connection, update_conn_state, register, Incoming, no_conn, stream_conn,
  udp_conn, key_or, connect, create_client, find_client, get_or_set_peer_client, forget,
  forget_peer, forget_address, remove_entries, close, client_address, client_peer_id,
}
use carrier.ConnMgr.Sync.{IsSync, reset_item-IsSync}

entered-IsSync :
    (peer_id : Bytes) (p : ℕ) (c : ConnState) (m : MultiStream) (n : Manager)
    → IsSync n
    → IsSync (record n {
      peers = store peer_id p n.peers;
      connections = store peer_id c n.connections;
      streams = store peer_id m n.streams;
      conn_states = store peer_id reachable n.conn_states;
    })
entered-IsSync peer_id p c m n h k = ground (
  arith,
  h k,
  has-store peer_id k p n.peers,
  has-store peer_id k c n.connections,
  has-store peer_id k m n.streams,
  has-store peer_id k reachable n.conn_states,
)

-- A new client's entries keep the tables in sync, under a scheme that the manager supports.
register-IsSync :
    (protocol : Protocol) (address peer_id : Bytes) (conn : ℕ) (n : Manager)
    → protocol ≢ other
    → IsSync n
    → IsSync (register protocol address peer_id conn n)
unfolding register init_connection update_conn_state
register-IsSync tcp address peer_id conn n p h =
    entered-IsSync peer_id n.next (record { conn = conn; message_nonce = 0 }) new_multi_stream n h
register-IsSync kcp address peer_id conn n p h =
    entered-IsSync peer_id n.next (record { conn = conn; message_nonce = 0 }) new_multi_stream n h
register-IsSync udp address peer_id conn n p h =
    entered-IsSync peer_id n.next (record { conn = conn; message_nonce = 0 }) new_multi_stream n h
register-IsSync quic address peer_id conn n p h =
    entered-IsSync peer_id n.next (record { conn = conn; message_nonce = 0 }) new_multi_stream n h
register-IsSync other address peer_id conn n p h = absurd (p refl)

forget-IsSync : (key : Bytes) (n : Manager) → IsSync n → IsSync (forget key n)
unfolding forget update_conn_state
forget-IsSync key n h k = ground (
  arith,
  h k,
  has-delete key k n.peers,
  has-delete key k n.connections,
  has-delete key k n.streams,
  has-store key k unreachable n.conn_states,
)

forget_peer-IsSync :
    (key client_id : Bytes) (n : Manager) → IsSync n → IsSync (forget_peer key client_id n)
unfolding forget_peer
forget_peer-IsSync key client_id n h = elim (Bool-cases (has key n.connections)) [
  | inl there ↦ rw there (forget-IsSync key n h)
  | inr missing ↦ rw missing h
]

forget_address-IsSync : (key : Bytes) (n : Manager) → IsSync n → IsSync (forget_address key n)
unfolding forget_address
forget_address-IsSync key n h = elim (Bool-cases (has key n.connections)) [
  | inl there ↦ rw there (forget-IsSync key n h)
  | inr missing ↦ rw missing h
]

remove_entries-IsSync : (r : ℕ) (n : Manager) → IsSync n → IsSync (remove_entries r n)
unfolding remove_entries
remove_entries-IsSync r n h = go (client_address (n.clients r))
  where
    go :
        (address : Bytes)
        → IsSync (elim address [
          | [] ↦ n
          | b ∷ rest ↦
              forget_address
                (b ∷ rest)
                (forget_peer (client_peer_id (n.clients r)) (n.clients r).pub_key n)
        ])
    go [] = h
    go (b ∷ rest) = forget_address-IsSync (b ∷ rest) _ (forget_peer-IsSync _ _ n h)

-- `Close` keeps the tables in sync.
pub close-IsSync : (r : ℕ) (n : Manager) → IsSync n → IsSync (close r n)
unfolding close
close-IsSync r n h = elim (Bool-cases (n.clients r).closed) [
  | inl again ↦ rw again h
  | inr first ↦ rw first (
      remove_entries-IsSync r
        (record n {
          clients =
              put_client r (record (n.clients r) { closed = true; stream_closed = true }) n.clients;
        })
        h)
]

connect-IsSync :
    (protocol : Protocol) (address key : Bytes) (conn : Option ℕ) (n : Manager)
    → protocol ≢ other
    → load key n.peers ≡ none
    → IsSync n
    → IsSync (connect protocol address key conn n).1
unfolding connect
connect-IsSync protocol address key none n p new h = λ k.
    ground (arith, h k, has-delete key k n.peers, has_of_none key n.peers new, bytes_beq_iff key k)
connect-IsSync protocol address key (some conn) n p new h =
    register-IsSync protocol address key conn n p h

module _ (w : Outside) where
  create_client-IsSync :
      (protocol : Protocol) (address key : Bytes) (incoming : Incoming) (n : Manager)
      → protocol ≢ other
      → load key n.peers ≡ none
      → IsSync n
      → IsSync (create_client w protocol address key incoming n).1
  unfolding create_client
  create_client-IsSync protocol address key no_conn n p new h =
      connect-IsSync protocol address key (w.dial address) n p new h
  create_client-IsSync protocol address key (stream_conn c) n p new h =
      connect-IsSync protocol address key (some c) n p new h
  create_client-IsSync protocol address key (udp_conn c) n p new h =
      connect-IsSync protocol address key (w.dial address) n p new h

  find_client-IsSync :
      (protocol : Protocol) (address key : Bytes) (incoming : Incoming) (n : Manager)
      → protocol ≢ other
      → IsSync n
      → IsSync (find_client w protocol address key incoming n).1
  unfolding find_client
  find_client-IsSync protocol address key incoming n p h = elim (Option-cases (load key n.peers)) [
    | inl new ↦ rw (new, find_client) (create_client-IsSync protocol address key incoming n p new h)
    | inr (r, found) ↦ rw (found, find_client) (either r ((n.clients r).outgoing_ready))
  ]
    where
      either :
          (r : ℕ) (t : Bool)
          → IsSync (if◌then◌else◌ {A = Reply ℕ × Manager} t (ok r, n) (err not_ready, n)).1
      either r true = h
      either r false = h

  reset_if-IsSync :
      (t : Bool) (from to : Bytes) (n : Manager)
      → IsSync n
      → IsSync (if t then n else reset_item from to n)
  reset_if-IsSync true from to n h = h
  reset_if-IsSync false from to n h = reset_item-IsSync from to n h

  -- `getOrSetPeerClient` keeps the tables in sync, whether it returns a client or an error, if the
  -- addresses have schemes that the manager supports.
  pub get_or_set_peer_client-IsSync :
      (raw peer_id : Bytes) (incoming : Incoming) (n : Manager)
      → ((a : Bytes) → w.protocol a ≢ some other)
      → IsSync n
      → IsSync (get_or_set_peer_client w raw peer_id incoming n).1
  unfolding get_or_set_peer_client
  get_or_set_peer_client-IsSync raw peer_id incoming n p h = elim (Option-cases (w.unify raw)) [
    | inl bad ↦ rw (bad, get_or_set_peer_client) h
    | inr (address, unified) ↦ elim (Bool-cases (address == n.address)) [
      | inl self ↦ rw (unified, get_or_set_peer_client, self) h
      | inr away ↦ elim (Option-cases (w.protocol address)) [
        | inl bad ↦ rw (unified, get_or_set_peer_client, away, bad) h
        | inr (protocol, scheme) ↦
            rw (unified, get_or_set_peer_client, away, scheme)
              (find_client-IsSync protocol address _ incoming _ (supported address protocol scheme)
                (reset_if-IsSync (address == key_or raw peer_id) address _ n h))
      ]
    ]
  ]
    where
      supported : (a : Bytes) (q : Protocol) → w.protocol a ≡ some q → q ≢ other
      supported a q e same = p a (e ∙ ap some same)
