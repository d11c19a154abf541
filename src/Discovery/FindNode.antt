-- ===== src/Discovery/FindNode.antt =====
-- network/components/discovery/rpc.go: `FindNode`. The lookups run one after the other, since each
-- holds the mutex as long as it runs; `lock_order` is the order in which they get it.
use carrier.Prelude.{
  ℕ, suc, ◌%◌, Bool, true, false, List, [], ◌∷◌, ◌++◌, none, some, Bytes, bytes_beq, ltb,
  if◌then◌else◌, length, get_elem?, set, take,
}
use carrier.Outcome.{Outcome, ok, panic}
use carrier.Peer.Identity.{PeerId, xor_key, less_than, public_key_hex}
use carrier.Dht.Routes.{RoutingTable, bucket_size, find_closest_peers}
use carrier.Discovery.Lookup.{Answer, searching, perform_lookup_closest}

-- What the first loop collects.
pub record Paths : Type 0 where
  pub visited : List Bytes
  pub lookups : List (List PeerId)
  pub results : List PeerId

-- The first loop, at index `i`: a peer joins the queue of lookup `i % disjointPaths`, which must
-- be there. The node itself is skipped.
unfoldable pub distribute : ℕ → Bytes → ℕ → List PeerId → Paths → Outcome Paths
distribute paths own i [] s = ok s
distribute paths own i (p ∷ ps) s =
    let visited = public_key_hex p ∷ s.visited in
    let lookups = if ltb (length s.lookups) paths then s.lookups ++ ([] ∷ []) else s.lookups in
    elim (bytes_beq p.address own) [
      | true ↦ distribute paths own (suc i) ps (record s { visited = visited })
      | false ↦ elim (get_elem? lookups (i % paths)) [
        | none ↦ panic
        | some queue ↦ distribute paths own (suc i) ps (record {
          visited = visited;
          lookups = set lookups (i % paths) (queue ++ (p ∷ []));
          results = s.results ++ (p ∷ []);
        })
      ]
    ]

-- The comparison of the last sort.
unfoldable pub key_nearer : PeerId → PeerId → PeerId → Bool
key_nearer target p q = less_than (xor_key p target) (xor_key q target)

module _ (sort_slice : (ℕ → ℕ → Bool) → List PeerId → List PeerId) (target : PeerId)
    (alpha : ℕ) where
  -- The lookups, each with the answers that come to its queries: the results and the table.
  unfoldable pub run_lookups :
      List (List PeerId)
      → List (List Answer)
      → List Bytes
      → RoutingTable
      → List PeerId
      → Outcome (List PeerId × RoutingTable)
  unfolding perform_lookup_closest
  run_lookups [] answers visited routes results = ok (results, routes)
  run_lookups (queue ∷ queues) [] visited routes results =
      elim (perform_lookup_closest sort_slice target alpha [] (searching queue visited routes)) [
        | panic ↦ panic
        | ok s ↦ run_lookups queues [] s.visited s.routes (results ++ s.results)
      ]
  run_lookups (queue ∷ queues) (a ∷ answers) visited routes results =
      elim (perform_lookup_closest sort_slice target alpha a (searching queue visited routes)) [
        | panic ↦ panic
        | ok s ↦ run_lookups queues answers s.visited s.routes (results ++ s.results)
      ]

  -- `FindNode` of a node with address `own` and key `own_key`: `sort_results` is the last sort.
  unfoldable pub find_node :
      ((PeerId → PeerId → Bool) → List PeerId → List PeerId)
      → (List (List PeerId) → List (List PeerId))
      → ℕ
      → Bytes
      → Bytes
      → List (List Answer)
      → RoutingTable
      → Outcome (List PeerId × RoutingTable)
  unfolding find_closest_peers distribute run_lookups key_nearer
  find_node sort_results lock_order paths own own_key answers t =
      elim (find_closest_peers t target alpha) [
        | panic ↦ panic
        | ok closest ↦
            elim (distribute paths own 0 closest
              (record { visited = []; lookups = []; results = [] })) [
                | panic ↦ panic
                | ok s ↦
                    elim (run_lookups (lock_order s.lookups) answers (own_key ∷ s.visited) t
                      s.results) [
                        | panic ↦ panic
                        | ok (results, t') ↦
                            ok (take bucket_size (sort_results (key_nearer target) results), t')
                      ]
              ]
      ]
