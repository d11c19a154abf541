-- ===== src/Tests/Tables.antt =====
-- dht/routes.go: the table of a node with an id of two bytes, and four peers in it.
use carrier.Prelude.{ℕ, ◌≡◌, ◌≤◌, refl, sym, ◌∙◌, subst, arith, true, List, [], ◌∷◌, length, All}
use mathlib.Core.List.{Mem, mem-cons_self}
use carrier.Prelude.Sort.{IsSorted, sort}
use carrier.Prelude.Words.{IsBytes}
use carrier.Outcome.{ok}
use carrier.Peer.Identity.{PeerId, equals, xor_bytes, leading_zeros8, less_than, xor_id, prefix_len}
use carrier.Peer.Distance.{zeros}
use carrier.Dht.Routes.{
  Bucket, update_bucket, find_peer, find_closest_at, widen, widen_once, remove_first, RoutingTable,
  create_routing_table, update, remove_peer, find_closest_peers, nearer,
}
use carrier.Dht.Invariant.{IsRouting, create_routing_table-IsRouting, update-IsRouting}
use carrier.Dht.Closest.{
  IsPeer, find_closest_peers-IsSorted, find_closest_peers_complete, find_closest_peers_nearest,
}

abbrev pub peer : ℕ → ℕ → PeerId
peer a b = record {
  address = a ∷ b ∷ [];
  id = a ∷ b ∷ [];
  net_key = a ∷ b ∷ [];
  connection_id = [];
}

abbrev pub me : PeerId
me = peer 0 0

-- The table of `me` with that first bucket, and the node itself in the last one.
abbrev pub table_of : Bucket → RoutingTable
table_of b = record {
  self = me;
  buckets =
      b ∷ [] ∷ [] ∷ [] ∷ [] ∷ [] ∷ [] ∷ [] ∷ [] ∷ [] ∷ [] ∷ [] ∷ [] ∷ [] ∷ [] ∷ (me ∷ []) ∷ [];
}

abbrev my_table : RoutingTable
my_table = table_of []

abbrev one_peer : RoutingTable
one_peer = table_of (peer 128 1 ∷ [])

abbrev pub two_peers : RoutingTable
two_peers = table_of (peer 192 2 ∷ peer 128 1 ∷ [])

pub ok-injective : {A : Type 0} {a b : A} → ok a ≡ ok b → a ≡ b
ok-injective e = cc

my_table-created : create_routing_table me ≡ ok my_table
unfolding create_routing_table update update_bucket find_peer equals prefix_len xor_id
my_table-created = refl

me-IsBytes : IsBytes me.id
me-IsBytes = (omega arith, (omega arith, tt))

my_table-IsRouting : IsRouting my_table
my_table-IsRouting =
    let (t, created, v, same) = create_routing_table-IsRouting me me-IsBytes (omega arith) in
    subst IsRouting (ok-injective (sym created ∙ my_table-created)) v

updated :
    (t : RoutingTable) (a b : ℕ) {t' : RoutingTable}
    → IsRouting t
    → IsBytes (peer a b).id
    → update t (peer a b) ≡ ok t'
    → IsRouting t'
updated t a b v bytes e =
    let (t1, done, v1, same) = update-IsRouting t (peer a b) v bytes in
    subst IsRouting (ok-injective (sym done ∙ e)) v1

one_peer-IsRouting : IsRouting one_peer
unfolding update update_bucket find_peer equals prefix_len xor_id
one_peer-IsRouting = updated my_table 128 1 my_table-IsRouting (omega arith, (omega arith, tt)) refl

pub two_peers-IsRouting : IsRouting two_peers
unfolding update update_bucket find_peer equals prefix_len xor_id
two_peers-IsRouting =
    updated one_peer 192 2 one_peer-IsRouting (omega arith, (omega arith, tt)) refl

update-IsRouting_example :
    (t' : RoutingTable) × (update two_peers (peer 64 3) ≡ ok t')
    × IsRouting t'
    × (t'.self ≡ two_peers.self)
update-IsRouting_example =
    update-IsRouting two_peers (peer 64 3) two_peers-IsRouting (omega arith, (omega arith, tt))

find_closest_peers-IsSorted_example :
    (peers : List PeerId) × (find_closest_peers two_peers (peer 129 0) 2 ≡ ok peers)
    × (length peers ≤ 2)
    × IsSorted (nearer (peer 129 0)) peers
    × All (IsPeer two_peers.self) peers
find_closest_peers-IsSorted_example =
    find_closest_peers-IsSorted two_peers (peer 129 0) 2 two_peers-IsRouting refl

two_answers : find_closest_peers two_peers (peer 129 0) 2 ≡ ok (peer 128 1 ∷ peer 192 2 ∷ [])
unfolding find_closest_peers find_closest_at prefix_len xor_id sort widen widen_once nearer
    less_than
two_answers = refl

three_answers : find_closest_peers two_peers (peer 129 0) 4 ≡ ok (peer 128 1 ∷ peer 192 2 ∷ me ∷ [])
unfolding find_closest_peers find_closest_at prefix_len xor_id sort widen widen_once nearer
    less_than
three_answers = refl

find_closest_peers_complete_example : Mem (peer 192 2) (peer 128 1 ∷ peer 192 2 ∷ me ∷ [])
find_closest_peers_complete_example =
    find_closest_peers_complete two_peers (peer 129 0) 4 two_peers-IsRouting refl 0
      (peer 192 2 ∷ peer 128 1 ∷ []) (peer 192 2) three_answers (omega arith) refl mem-cons_self

find_closest_peers_nearest_example :
    All (λ p. nearer (peer 129 0) p me ≡ true) (peer 128 1 ∷ peer 192 2 ∷ [])
unfolding zeros xor_bytes leading_zeros8
find_closest_peers_nearest_example =
    find_closest_peers_nearest two_peers (peer 129 0) 2 two_peers-IsRouting refl
      (peer 192 2 ∷ peer 128 1 ∷ []) 15 me two_answers (omega arith, (omega arith, tt)) refl
      (omega arith) (omega arith) (refl, (omega arith, (omega arith, tt)), refl) (omega arith)

two_updated : update one_peer (peer 192 2) ≡ ok two_peers
unfolding update update_bucket find_peer equals prefix_len xor_id
two_updated = refl

one_removed : remove_peer two_peers (peer 192 2) ≡ ok (one_peer, true)
unfolding remove_peer remove_first find_peer equals prefix_len xor_id
one_removed = refl
