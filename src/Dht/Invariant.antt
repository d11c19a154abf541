-- ===== src/Dht/Invariant.antt =====
-- dht/routes.go: every peer stands in the bucket of its distance, once; no call on a table with
-- that invariant dereferences the nil bucket.
use carrier.Prelude.{
  ℕ, zero, suc, ◌-◌, ◌*◌, ◌≤◌, ◌<◌, ◌≡◌, refl, ap, sym, ◌∙◌, List, [], ◌∷◌, arith, length, min,
  none, some, All, inl, inr, Option-cases, get_elem?, set, replicate, length-set,
  get_elem?-set_self, get_elem?-set_ne, get_elem?_total, length-replicate, get_elem?-replicate,
}
use carrier.Prelude.Words.{IsBytes}
use native.Mathlib.Decide.{ℕ_discrete}
use carrier.Outcome.{ok}
use carrier.Peer.Identity.{PeerId, pos, xor_id}
use carrier.Peer.Distance.{prefix_len-zeros, length-xor_bytes}
use carrier.Peer.Metric.{shared}
use carrier.Dht.Bucket.{
  IsDistinct, update_bucket-All, remove_first-All, remove_first-IsDistinct, length-update_bucket,
  update_bucket-IsDistinct, length-remove_first-le,
}
use carrier.Dht.Routes.{
  Bucket, RoutingTable, bucket_at, bucket_id, find_peer, remove_first, update_bucket, put_bucket,
  update, create_routing_table, remove_peer, peer_exists,
}

-- The bucket of a peer in the table of the node `s`.
abbrev pub bucket_index : PeerId → PeerId → ℕ
bucket_index s p = min (shared p.id s.id) (length p.id * 8 - 1)

pub bucket_id_lem :
    (t : RoutingTable) (p : PeerId) → 0 < length p.id → bucket_id t p ≡ pos (bucket_index t.self p)
unfolding bucket_id xor_id
bucket_id_lem t p h =
    rw (← length-xor_bytes p.id t.self.id)
      (prefix_len-zeros (xor_id p t.self) (omega (arith, length-xor_bytes p.id t.self.id)))

abbrev pub InBucket : PeerId → ℕ → PeerId → Type 0
InBucket s i p = (length p.id ≡ length s.id) × IsBytes p.id × (bucket_index s p ≡ i)

pub record IsBucket (s : PeerId) (i : ℕ) (b : Bucket) : Type 0 where
  pub peers : All (InBucket s i) b
  pub distinct : IsDistinct b
  pub bounded : length b ≤ 17

pub record IsRouting (t : RoutingTable) : Type 0 where
  pub own : IsBytes t.self.id
  pub nonempty : 0 < length t.self.id
  pub sized : length t.buckets ≡ length t.self.id * 8
  pub placed : (i : ℕ) (b : Bucket) → get_elem? t.buckets i ≡ some b → IsBucket t.self i b

-- The bucket of a peer whose id has the size of the node's own exists.
pub bucket_exists :
    (t : RoutingTable) (p : PeerId)
    → IsRouting t
    → length p.id ≡ length t.self.id
    → (b : Bucket) × (get_elem? t.buckets (bucket_index t.self p) ≡ some b)
bucket_exists t p v e =
    get_elem?_total t.buckets (bucket_index t.self p)
      (omega (arith, v.sized, v.nonempty, ap (λ (n : ℕ). n * 8) e))

replace-placed :
    (t : RoutingTable) (i : ℕ) (b : Bucket)
    → IsRouting t
    → IsBucket t.self i b
    → i < length t.buckets
    → IsRouting (record t { buckets = set t.buckets i b })
replace-placed t i b v h l = record {
  own = v.own;
  nonempty = v.nonempty;
  sized = length-set t.buckets i b ∙ v.sized;
  placed = λ j c e. elim (ℕ_discrete i j) [
    | yes same ↦ at_self j c same e
    | no other ↦ v.placed j c (sym (get_elem?-set_ne t.buckets i j b other) ∙ e)
  ];
}
  where
    at_self :
        (j : ℕ) (c : Bucket)
        → i ≡ j
        → get_elem? (set t.buckets i b) j ≡ some c
        → IsBucket t.self j c
    at_self j c same e =
        let found : get_elem? (set t.buckets i b) j ≡ some b =
          rw (← same) (get_elem?-set_self t.buckets i b l) in
        let stored : b ≡ c = cc in rw (← same, ← stored) h

pub in_range : {A : Type 0} (xs : List A) (i : ℕ) {a : A} → get_elem? xs i ≡ some a → i < length xs
in_range [] i h = absurd (not_some h)
  where
    not_some : {A : Type 0} {a : A} → none ≡ some a → ⊥
    not_some h = cc
in_range (x ∷ xs) zero h = omega arith
in_range (x ∷ xs) (suc i) h = omega (arith, in_range xs i h)

-- `Update` of a valid table with an id of bytes returns, and keeps the invariant and the node's id.
pub update-IsRouting :
    (t : RoutingTable) (target : PeerId)
    → IsRouting t
    → IsBytes target.id
    → (t' : RoutingTable) × (update t target ≡ ok t') × IsRouting t' × (t'.self ≡ t.self)
unfolding update bucket_at put_bucket
update-IsRouting t target v h = elim (ℕ_discrete (length target.id) (length t.self.id)) [
  | yes e ↦
      let i = bucket_index t.self target in
      let (b, found) = bucket_exists t target v e in
      let old = v.placed i b found in
      let new : IsBucket t.self i (update_bucket target b) = record {
        peers = update_bucket-All (InBucket t.self i) target b (e, h, refl) old.peers;
        distinct = update_bucket-IsDistinct target b old.distinct;
        bounded = length-update_bucket target b old.bounded;
      } in
      (
        record t { buckets = set t.buckets i (update_bucket target b) },
        ground (arith, bucket_id_lem t target, v.nonempty, found),
        replace-placed t i (update_bucket target b) v new (in_range t.buckets i found),
        refl,
      )
  | no ne ↦ (t, ground arith, v, refl)
]

-- The table of a node whose id has at least one byte is created, with the invariant.
pub create_routing_table-IsRouting :
    (id : PeerId)
    → IsBytes id.id
    → 0 < length id.id
    → (t : RoutingTable) × (create_routing_table id ≡ ok t) × IsRouting t × (t.self ≡ id)
unfolding create_routing_table
create_routing_table-IsRouting id h l = update-IsRouting fresh id fresh-IsRouting h
  where
    fresh : RoutingTable
    fresh = record { self = id; buckets = replicate (length id.id * 8) [] }

    empty_placed : (i : ℕ) (b : Bucket) → get_elem? fresh.buckets i ≡ some b → IsBucket id i b
    empty_placed i b e =
        let l : i < length id.id * 8 = omega (
          arith,
          in_range fresh.buckets i e,
          length-replicate {0} {A = Bucket} (length id.id * 8) [],
        ) in
        let found : get_elem? fresh.buckets i ≡ some [] =
          get_elem?-replicate (length id.id * 8) i [] l in
        let empty : [] ≡ b = cc in
        rw (← empty) (record { peers = tt; distinct = tt; bounded = omega arith })

    fresh-IsRouting : IsRouting fresh
    fresh-IsRouting = record {
      own = h;
      nonempty = l;
      sized = length-replicate (length id.id * 8) [];
      placed = empty_placed;
    }

-- `RemovePeer` of an id of the right size returns whether the peer was there, and keeps the
-- invariant.
pub remove_peer-IsRouting :
    (t : RoutingTable) (target : PeerId)
    → IsRouting t
    → length target.id ≡ length t.self.id
    → (t' : RoutingTable) × (remove_peer t target ≡ ok (t', peer_exists t target))
      × IsRouting t'
      × (t'.self ≡ t.self)
unfolding remove_peer peer_exists bucket_at put_bucket
remove_peer-IsRouting t target v e =
    let i = bucket_index t.self target in
    let (b, found) = bucket_exists t target v e in
    let old = v.placed i b found in
    let new : IsBucket t.self i (remove_first target b) = record {
      peers = remove_first-All (InBucket t.self i) target b old.peers;
      distinct = remove_first-IsDistinct target b old.distinct;
      bounded = length-remove_first-le target b old.bounded;
    } in
    elim (Option-cases (find_peer target b)) [
      | inl absent ↦ (t, ground (arith, bucket_id_lem t target, v.nonempty), v, refl)
      | inr (p, present) ↦ (
        record t { buckets = set t.buckets i (remove_first target b) },
        ground (arith, bucket_id_lem t target, v.nonempty),
        replace-placed t i (remove_first target b) v new (in_range t.buckets i found),
        refl,
      )
    ]
