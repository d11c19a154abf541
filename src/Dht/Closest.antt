-- ===== src/Dht/Closest.antt =====
-- dht/routes.go: `FindClosestPeers`.
use carrier.Prelude.{
  ℕ, zero, suc, ◌-◌, ◌*◌, ◌≤◌, ◌<◌, ◌≡◌, ◌≢◌, ap, Bool, true, false, List, [], ◌∷◌, arith, length,
  take, length-take, take_all, some, inl, inr, Option-cases, get_elem?, All, All-take,
}
use carrier.Prelude.Words.{IsBytes}
use carrier.Prelude.Sort.{sort, sort-perm, length-sort, All-sort, IsSorted, sort-IsSorted}
use mathlib.Core.List.{Mem}
use mathlib.Core.List.Perm
use carrier.Outcome.{ok}
use carrier.Peer.Identity.{PeerId}
use carrier.Peer.Metric.{less_than-shared}
use carrier.Dht.Invariant.{
  IsRouting, InBucket, bucket_index, bucket_id_lem, bucket_exists, in_range,
}
use carrier.Dht.Order.{nearer_asym, nearer_trans}
use carrier.Dht.Routes.{
  Bucket, RoutingTable, bucket_or_empty, widen, nearer, find_closest_at, find_closest_peers,
}
use carrier.Dht.Widen.{bucket_or_empty-some, widen-All, widen_enough, widen_covers}

-- A peer that the table may hold: an id of bytes, of the size of the node's own.
abbrev pub IsPeer : PeerId → PeerId → Type 0
IsPeer s p = (length p.id ≡ length s.id) × IsBytes p.id

weaken : (s : PeerId) (i : ℕ) (b : Bucket) → All (InBucket s i) b → All (IsPeer s) b
weaken s i [] h = tt
weaken s i (p ∷ b) h = ((h.0.0, h.0.1), weaken s i b h.1)

IsSorted-take :
    (less : PeerId → PeerId → Bool) (n : ℕ) (xs : List PeerId)
    → IsSorted less xs
    → IsSorted less (take n xs)
IsSorted-take less zero xs h = tt
IsSorted-take less (suc n) [] h = tt
IsSorted-take less (suc n) (x ∷ xs) h =
    (All-take (λ y. less y x ≡ false) n xs h.0, IsSorted-take less n xs h.1)

module _ (t : RoutingTable) (target : PeerId) (count : ℕ) (v : IsRouting t)
    (e : length target.id ≡ length t.self.id) where
  abbrev index : ℕ
  index = bucket_index t.self target

  abbrev size : ℕ
  size = length t.self.id * 8

  abbrev gathered : List PeerId
  gathered = widen size t.buckets size count index 1 (bucket_or_empty t.buckets index)

  index-lt : index < size
  index-lt = omega (arith, v.nonempty, ap (λ (n : ℕ). n * 8) e)

  find_closest_lem :
      find_closest_peers t target count ≡ ok (take count (sort (nearer target) gathered))
  unfolding find_closest_peers find_closest_at
  find_closest_lem =
      let (b, found) = bucket_exists t target v e in
      ground (
        arith,
        bucket_id_lem t target,
        v.nonempty,
        found,
        bucket_or_empty-some t.buckets index b found,
      )

  All-placed : (j : ℕ) → All (IsPeer t.self) (bucket_or_empty t.buckets j)
  unfolding bucket_or_empty
  All-placed j = elim (Option-cases (get_elem? t.buckets j)) [
    | inl missing ↦ rw (missing, bucket_or_empty) tt
    | inr (b, found) ↦ rw (found, bucket_or_empty) (weaken t.self j b (v.placed j b found).peers)
  ]

  -- On a valid table, for a target whose id has the size of the node's own, the call returns at
  -- most `count` peers of that size, none nearer than one before it.
  pub find_closest_peers-IsSorted :
      (peers : List PeerId) × (find_closest_peers t target count ≡ ok peers)
      × (length peers ≤ count)
      × IsSorted (nearer target) peers
      × All (IsPeer t.self) peers
  find_closest_peers-IsSorted =
      let sorted = sort (nearer target) gathered in
      (
        take count sorted,
        find_closest_lem,
        omega (arith, length-take count sorted),
        IsSorted-take (nearer target) count sorted
            (sort-IsSorted (nearer target) (nearer_asym target) (nearer_trans target) gathered),
        All-take (IsPeer t.self) count sorted (
            All-sort (nearer target) (IsPeer t.self) gathered (
              widen-All (IsPeer t.self) t.buckets All-placed size size count index 1
                (bucket_or_empty t.buckets index) (All-placed index))),
      )

  -- On a valid table, for a target whose id has the size of the node's own, an answer with fewer
  -- than `count` peers holds every peer of the table.
  pub find_closest_peers_complete :
      {peers : List PeerId} (j : ℕ) (b : Bucket) (q : PeerId)
      → find_closest_peers t target count ≡ ok peers
      → length peers < count
      → get_elem? t.buckets j ≡ some b
      → Mem q b
      → Mem q peers
  find_closest_peers_complete {peers} j b q h few found m =
      let sorted = sort (nearer target) gathered in
      let same : take count sorted ≡ peers = cc find_closest_lem in
      let short : length gathered < count = omega (
        arith,
        length-take count sorted,
        length-sort (nearer target) gathered,
        ap (length {A = PeerId}) same,
      ) in
      let whole : take count sorted ≡ sorted =
        take_all count sorted (omega (arith, length-sort (nearer target) gathered)) in
      let gathered_mem : Mem q gathered = covered short in
      rw (← same, whole) ((Perm.mem_iff (sort-perm (nearer target) gathered)).1 gathered_mem)
    where
      covered : length gathered < count → Mem q gathered
      covered short =
          elim (widen_covers t.buckets size index v.sized index-lt count
            (bucket_or_empty t.buckets index) (λ q m. m)) [
              | inl enough ↦ absurd (omega arith)
              | inr all ↦
                  all j (omega (arith, v.sized, in_range t.buckets j found)) q
                    (rw (bucket_or_empty-some t.buckets j b found) m)
            ]

  -- On a valid table, a target of bytes, of the size of the node's id, whose own bucket is not the
  -- last and holds at least `count` peers, gets peers that are all nearer than every id that
  -- belongs in another bucket.
  pub find_closest_peers_nearest :
      {peers : List PeerId} (b : Bucket) (j : ℕ) (q : PeerId)
      → find_closest_peers t target count ≡ ok peers
      → IsBytes target.id
      → get_elem? t.buckets index ≡ some b
      → count ≤ length b
      → index < size - 1
      → InBucket t.self j q
      → j ≢ index
      → All (λ p. nearer target p q ≡ true) peers
  unfolding nearer
  find_closest_peers_nearest {peers} b j q h bytes found enough inner placed other =
      let alone : gathered ≡ b =
        rw (bucket_or_empty-some t.buckets index b found)
          (widen_enough size t.buckets size count index 1 b enough) in
      let same : take count (sort (nearer target) b) ≡ peers =
        rw alone at (cc_ok find_closest_lem h) in
      rw (← same) (
        All-take _ count (sort (nearer target) b)
          (All-sort (nearer target) _ b (all_nearer b (v.placed index b found).peers)))
    where
      cc_ok :
          {xs : List PeerId}
          → find_closest_peers t target count ≡ ok xs
          → find_closest_peers t target count ≡ ok peers
          → xs ≡ peers
      cc_ok h k = cc

      one_nearer : (p : PeerId) → InBucket t.self index p → nearer target p q ≡ true
      one_nearer p h =
          less_than-shared t.self target p q e h.0 placed.0 v.own bytes h.1 placed.1
            (omega (arith, h.2)) (omega (arith, h.2)) (omega (arith, h.2, placed.2))

      all_nearer :
          (c : Bucket) → All (InBucket t.self index) c → All (λ p. nearer target p q ≡ true) c
      all_nearer [] a = tt
      all_nearer (p ∷ c) a = (one_nearer p a.0, all_nearer c a.1)
