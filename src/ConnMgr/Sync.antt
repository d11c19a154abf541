-- ===== src/ConnMgr/Sync.antt =====
-- network/network.go: the tables of the connection manager hold the same keys.
use carrier.Prelude.{
  ℕ, ◌≡◌, ap, ◌∙◌, arith, true, false, List, none, some, Bytes, bytes_eq, ◌==◌, if◌then◌else◌,
  Option-cases, inl, inr,
}
use carrier.Prelude.Table.{
  load, store, has, has-store, has-delete, has_of_load, load_of_has, has_of_none, load-store,
  load-delete,
}
use carrier.ConnMgr.State.{PeerState, ConnState, MultiStream, Manager}
use carrier.ConnMgr.Operations.{move, reset_streams, reset_states, reset_connections, reset_item}

-- A peer has a connection and streams, and nobody else has; and its state is known.
abbrev pub IsSyncAt : Bytes → Manager → Type 0
IsSyncAt k n =
    (has k n.connections ≡ has k n.peers)
    × (has k n.streams ≡ has k n.peers)
    × (has k n.peers ≡ true → has k n.conn_states ≡ true)

abbrev pub IsSync : Manager → Type 0
IsSync n = (k : Bytes) → IsSyncAt k n

has-move :
    {V : Type 0} (from to j : Bytes) (v : V) (m : List (Bytes × V))
    → has j (move from to v m) ≡ (if from == j then false else if to == j then true else has j m)
unfolding move
has-move from to j v m =
    has-delete from j (store to v m) ∙ ap (λ b. if from == j then false else b) (has-store to j v m)

pub load-move :
    {V : Type 0} (from to j : Bytes) (v : V) (m : List (Bytes × V))
    → load j (move from to v m) ≡ (if from == j then none else if to == j then some v else load j m)
unfolding move
load-move from to j v m =
    load-delete from j (store to v m)
    ∙ ap (λ b. if from == j then none else b) (load-store to j v m)

-- In sync, a reset moves all four entries of a known address, or changes nothing.
pub data Moved (from to : Bytes) (n : Manager) : Manager → Type 0 where
  absent : has from n.peers ≡ false → Moved from to n n
  moved :
      (p : ℕ) (c : ConnState) (s : PeerState) (m : MultiStream)
      → load from n.peers ≡ some p
      → load from n.connections ≡ some c
      → load from n.conn_states ≡ some s
      → load from n.streams ≡ some m
      → Moved from to n (record n {
        peers = move from to p n.peers;
        connections = move from to c n.connections;
        conn_states = move from to s n.conn_states;
        streams = move from to m n.streams;
      })

pub reset_item-Moved :
    (from to : Bytes) (n : Manager) → IsSync n → Moved from to n (reset_item from to n)
unfolding reset_item reset_connections reset_states reset_streams
reset_item-Moved from to n h = elim (Option-cases (load from n.peers)) [
  | inl missing ↦
      let same : reset_item from to n ≡ n = ground arith in
      rw same (absent (has_of_none from n.peers missing))
  | inr (p, ep) ↦
      let here = has_of_load from n.peers ep in
      let (c, ec) = load_of_has from n.connections ((h from).0 ∙ here) in
      let (s, es) = load_of_has from n.conn_states ((h from).2 here) in
      let (m, em) = load_of_has from n.streams ((h from).1 ∙ here) in
      let all_moved : reset_item from to n ≡ record n {
        peers = move from to p n.peers;
        connections = move from to c n.connections;
        conn_states = move from to s n.conn_states;
        streams = move from to m n.streams;
      } =
        ground arith in
      rw all_moved (moved p c s m ep ec es em)
]

pub reset_item-IsSync : (from to : Bytes) (n : Manager) → IsSync n → IsSync (reset_item from to n)
reset_item-IsSync from to n h k = go (reset_item-Moved from to n h)
  where
    go : {n' : Manager} → Moved from to n n' → IsSyncAt k n'
    go (absent e) = h k
    go (moved p c s m ep ec es em) = ground (
      arith,
      h k,
      has-move from to k p n.peers,
      has-move from to k c n.connections,
      has-move from to k s n.conn_states,
      has-move from to k m n.streams,
    )
