-- ===== src/Dht/Lookup.antt =====
-- dht/routes.go: what `PeerExists` says after `Update` and `RemovePeer`.
use carrier.Prelude.{
  ℕ, ◌≤◌, ◌<◌, ◌≡◌, ◌⊎◌, refl, Bool, true, false, arith, length, Option, none, some, inl, inr,
  Option-cases, get_elem?, set, get_elem?-eq-none, get_elem?-set_self, get_elem?-set_ne,
}
use carrier.Outcome.{ok, panic}
use carrier.Peer.Identity.{PeerId, ℤ, pos, negsuc, equals, xor_id, prefix_len}
use carrier.Dht.Bucket.{
  find_peer-remove_first, find_peer-remove_first_ne, find_peer-update_bucket,
  find_peer-update_bucket_ne,
}
use carrier.Dht.Invariant.{IsRouting, bucket_index, bucket_id_lem, bucket_exists, in_range}
use carrier.Dht.Routes.{
  Bucket, RoutingTable, bucket_size, bucket_at, bucket_id, find_peer, remove_first, update_bucket,
  put_bucket, update, remove_peer, peer_exists,
}

-- A peer is found in its bucket alone, so a write to a bucket that keeps its search keeps it.
peer_exists-put :
    (t : RoutingTable) (i : ℕ) (b c : Bucket) (q : PeerId)
    → get_elem? t.buckets i ≡ some b
    → find_peer q c ≡ find_peer q b
    → peer_exists (record t { buckets = set t.buckets i c }) q ≡ peer_exists t q
unfolding peer_exists bucket_at bucket_id
peer_exists-put t i b c q found same = go (prefix_len (xor_id q t.self)) refl
  where
    go :
        (n : ℤ)
        → prefix_len (xor_id q t.self) ≡ n
        → peer_exists (record t { buckets = set t.buckets i c }) q ≡ peer_exists t q
    go (negsuc k) e = rw (e, peer_exists, bucket_id)
    go (pos j) e = ground (
      arith,
      get_elem?-set_self t.buckets i c (in_range t.buckets i found),
      get_elem?-set_ne t.buckets i j c,
    )

abbrev is_found : Option PeerId → Bool
is_found none = false
is_found (some p) = true

-- The search of a peer of the right size reads its own bucket.
peer_exists_lem :
    (t : RoutingTable) (q : PeerId) (b : Bucket)
    → 0 < length q.id
    → get_elem? t.buckets (bucket_index t.self q) ≡ some b
    → peer_exists t q ≡ is_found (find_peer q b)
unfolding peer_exists bucket_at
peer_exists_lem t q b l found = ground (arith, bucket_id_lem t q)

module _ (t : RoutingTable) (target : PeerId) (b : Bucket) (v : IsRouting t)
    (e : length target.id ≡ length t.self.id)
    (found : get_elem? t.buckets (bucket_index t.self target) ≡ some b) where
  update-eq :
      update t target
      ≡ ok (record t {
        buckets = set t.buckets (bucket_index t.self target) (update_bucket target b);
      })
  unfolding update bucket_at put_bucket
  update-eq = ground (arith, bucket_id_lem t target, v.nonempty)

  -- On a valid table, for a target whose id has the size of the node's own and whose bucket is `b`:
  -- after `Update` the target is in the table, unless it is new and `b` held more than 16 peers.
  pub peer_exists-update :
      {t' : RoutingTable}
      → (peer_exists t target ≡ true) ⊎ (length b ≤ bucket_size)
      → update t target ≡ ok t'
      → peer_exists t' target ≡ true
  peer_exists-update {t'} h u =
      let i = bucket_index t.self target in
      let c = update_bucket target b in
      let t'' : RoutingTable = record t { buckets = set t.buckets i c } in
      let written : t'' ≡ t' = cc update-eq in
      let stored : get_elem? t''.buckets i ≡ some c =
        get_elem?-set_self t.buckets i c (in_range t.buckets i found) in
      let before = peer_exists_lem t target b (omega (arith, v.nonempty)) found in
      let after = peer_exists_lem t'' target c (omega (arith, v.nonempty)) stored in
      rw (← written) (ground (arith, before, after, find_peer-update_bucket target b))

-- `Update` changes nothing for another peer.
pub peer_exists-update_ne :
    (t : RoutingTable) (target q : PeerId) {t' : RoutingTable}
    → equals q target ≡ false
    → update t target ≡ ok t'
    → peer_exists t' q ≡ peer_exists t q
unfolding update bucket_at bucket_id put_bucket
peer_exists-update_ne t target q {t'} ne u = go (prefix_len (xor_id target t.self)) refl
  where
    go : (n : ℤ) → prefix_len (xor_id target t.self) ≡ n → peer_exists t' q ≡ peer_exists t q
    go (negsuc k) h = ground arith
    go (pos i) h = elim (Option-cases (get_elem? t.buckets i)) [
      | inl missing ↦ ground arith
      | inr (b, found) ↦ ground (
        arith,
        peer_exists-put t i b (update_bucket target b) q found
            (find_peer-update_bucket_ne target q b ne),
      )
    ]

-- `RemovePeer` changes nothing for another peer.
remove_peer_ne :
    (t : RoutingTable) (target q : PeerId) {t' : RoutingTable} {was : Bool}
    → equals q target ≡ false
    → remove_peer t target ≡ ok (t', was)
    → peer_exists t' q ≡ peer_exists t q
unfolding remove_peer bucket_at bucket_id put_bucket
remove_peer_ne t target q {t'} {was} ne u = go (prefix_len (xor_id target t.self)) refl
  where
    go : (n : ℤ) → prefix_len (xor_id target t.self) ≡ n → peer_exists t' q ≡ peer_exists t q
    go (negsuc k) h = ground arith
    go (pos i) h = elim (Option-cases (get_elem? t.buckets i)) [
      | inl missing ↦ ground arith
      | inr (b, found) ↦ ground (
        arith,
        peer_exists-put t i b (remove_first target b) q found
            (find_peer-remove_first_ne target q b ne),
      )
    ]

-- After `RemovePeer` on a valid table, for an id of the right size, the peer is not in it, and every other peer is as before.
pub peer_exists-remove_peer :
    (t : RoutingTable) (target : PeerId) {t' : RoutingTable} {was : Bool}
    → IsRouting t
    → length target.id ≡ length t.self.id
    → remove_peer t target ≡ ok (t', was)
    → (peer_exists t' target ≡ false)
      × ((q : PeerId) → equals q target ≡ false → peer_exists t' q ≡ peer_exists t q)
unfolding remove_peer bucket_at put_bucket
peer_exists-remove_peer t target {t'} {was} v e r = (gone, λ q ne. remove_peer_ne t target q ne r)
  where
    i : ℕ
    i = bucket_index t.self target

    gone : peer_exists t' target ≡ false
    gone =
        let (b, found) = bucket_exists t target v e in
        let c = remove_first target b in
        let t'' : RoutingTable = record t { buckets = set t.buckets i c } in
        let stored : get_elem? t''.buckets i ≡ some c =
          get_elem?-set_self t.buckets i c (in_range t.buckets i found) in
        let before = peer_exists_lem t target b (omega (arith, v.nonempty)) found in
        let after = peer_exists_lem t'' target c (omega (arith, v.nonempty)) stored in
        let none_left = find_peer-remove_first target b (v.placed i b found).distinct in
        elim (Option-cases (find_peer target b)) [
          | inl absent ↦
              let kept : t ≡ t' = ground (arith, bucket_id_lem t target, v.nonempty) in
              rw (← kept) (ground (arith, before))
          | inr (p, present) ↦
              let written : t'' ≡ t' = ground (arith, bucket_id_lem t target, v.nonempty) in
              rw (← written) (ground (arith, after, none_left))
        ]

-- `RemovePeer` has no test on the size of the id, as `PeerExists` has: for an id whose prefix length
-- is no index of a bucket it dereferences the nil bucket, where `PeerExists` returns false.
pub remove_peer-panic :
    (t : RoutingTable) (target : PeerId) (n : ℕ)
    → prefix_len (xor_id target t.self) ≡ pos n
    → length t.buckets ≤ n
    → (remove_peer t target ≡ panic) × (peer_exists t target ≡ false)
unfolding remove_peer peer_exists bucket_at bucket_id
remove_peer-panic t target n h l = ground (arith, get_elem?-eq-none t.buckets n)
