-- ===== src/ConnMgr/Rekey.antt =====
-- network/network.go: an address that becomes a public key (`resetConnMgrItemByPeerID`).
use carrier.Prelude.{
  ℕ, ◌≡◌, refl, ap, ◌∙◌, arith, true, false, ◌∷◌, none, some, Bytes, bytes_eq, ◌==◌, beq_refl,
}
use carrier.Prelude.Table.{load, has_of_load}
use carrier.ConnMgr.State.{Protocol, Outside, Manager, ok}
use carrier.ConnMgr.Operations.{reset_item, Incoming, find_client, get_or_set_peer_client}
use carrier.ConnMgr.Sync.{IsSync, Moved, absent, moved, reset_item-Moved, load-move}

-- What is known of a client under `from` in the first manager is known of it under `to` in the second.
abbrev pub IsRekeyed : Bytes → Bytes → ℕ → Manager → Manager → Type 0
IsRekeyed from to r n m =
    (load to m.peers ≡ some r)
    × (load to m.connections ≡ load from n.connections)
    × (load to m.conn_states ≡ load from n.conn_states)
    × (load to m.streams ≡ load from n.streams)
    × (load from m.peers ≡ none)
    × (load from m.connections ≡ none)
    × (m.clients ≡ n.clients)

reset_item-IsRekeyed :
    (from to : Bytes) (r : ℕ) (n : Manager)
    → IsSync n
    → (from == to) ≡ false
    → load from n.peers ≡ some r
    → IsRekeyed from to r n (reset_item from to n)
reset_item-IsRekeyed from to r n h distinct known = go (reset_item-Moved from to n h)
  where
    go : {m : Manager} → Moved from to n m → IsRekeyed from to r n m
    go (absent e) = ground (arith, has_of_load from n.peers known)
    go (moved p c s m ep ec es em) = ground (
      arith,
      beq_refl from,
      beq_refl to,
      load-move from to to p n.peers,
      load-move from to to c n.connections,
      load-move from to to s n.conn_states,
      load-move from to to m n.streams,
      load-move from to from p n.peers,
      load-move from to from c n.connections,
    )

find_client-ready :
    (w : Outside) (protocol : Protocol) (address key : Bytes) (incoming : Incoming) (r : ℕ)
    (n : Manager)
    → load key n.peers ≡ some r
    → (n.clients r).outgoing_ready ≡ true
    → find_client w protocol address key incoming n ≡ (ok r, n)
unfolding find_client
find_client-ready w protocol address key incoming r n known ready =
    rw (find_client, known, ready) refl

-- With the tables in sync, a ready client that is known by its address, which is not the node's own
-- and has a known scheme, is returned when it is asked for by its address and another key: the same
-- client, whose connection, state and streams are then found under the key, while the address has
-- neither client nor connection. No client is changed.
pub get_or_set_peer_client-IsRekeyed :
    (w : Outside) (raw address : Bytes) (k : ℕ) (key : Bytes) (protocol : Protocol)
    (incoming : Incoming) (r : ℕ) (n : Manager)
    → IsSync n
    → w.unify raw ≡ some address
    → (address == n.address) ≡ false
    → w.protocol address ≡ some protocol
    → (address == (k ∷ key)) ≡ false
    → load address n.peers ≡ some r
    → (n.clients r).outgoing_ready ≡ true
    → ((get_or_set_peer_client w raw (k ∷ key) incoming n).0 ≡ ok r)
      × IsRekeyed address (k ∷ key) r n (get_or_set_peer_client w raw (k ∷ key) incoming n).1
unfolding get_or_set_peer_client
get_or_set_peer_client-IsRekeyed w raw address k key protocol incoming r n h unified away scheme
      distinct known ready =
    let rekeyed = reset_item-IsRekeyed address (k ∷ key) r n h distinct known in
    let found =
      find_client-ready w protocol address (k ∷ key) incoming r (reset_item address (k ∷ key) n)
        rekeyed.0 (ap (λ clients. (clients r).outgoing_ready) rekeyed.6 ∙ ready) in
    rw (get_or_set_peer_client, unified, away, scheme, distinct, found) (refl, rekeyed)
