-- ===== src/Dht/Routes.antt =====
-- dht/routes.go: the routing table and its operations. A bucket is the list of its peers, front
-- first. A call that dereferences the nil that `Bucket` returns is a `panic`. The mutexes of the
-- buckets are held for the whole of each loop, so an operation is one step.
use carrier.Prelude.{
  ℕ, zero, suc, ◌+◌, ◌-◌, ◌*◌, Bool, true, false, ◌&&◌, ◌||◌, List, [], ◌∷◌, ◌++◌, if◌then◌else◌,
  ltb, leb, nat_beq, Bytes, length, get_elem?, set, take, replicate, bytes_beq, Option, none, some,
}
use carrier.Prelude.Sort.{sort}
use carrier.Outcome.{Outcome, ok, panic}
use carrier.Peer.Identity.{
  PeerId, ℤ, pos, negsuc, equals, xor_id, prefix_len, less_than, public_key_hex,
}

abbrev pub bucket_size : ℕ
bucket_size = 16

abbrev pub Bucket : Type 0
Bucket = List PeerId

pub record RoutingTable : Type 0 where
  pub self : PeerId
  pub buckets : List Bucket

-- `Bucket(id)`: `none` is the nil that it returns for an id out of range.
unfoldable pub bucket_at : RoutingTable → ℤ → Option Bucket
bucket_at t (pos i) = get_elem? t.buckets i
bucket_at t (negsuc i) = none

unfoldable pub bucket_id : RoutingTable → PeerId → ℤ
bucket_id t target = prefix_len (xor_id target t.self)

-- The search loops: the first peer of the bucket that equals the target.
unfoldable pub find_peer : PeerId → Bucket → Option PeerId
find_peer target [] = none
find_peer target (p ∷ ps) = if equals p target then some p else find_peer target ps

-- `bucket.Remove(e)` at the element that the loop found
unfoldable pub remove_first : PeerId → Bucket → Bucket
remove_first target [] = []
remove_first target (p ∷ ps) = if equals p target then ps else p ∷ remove_first target ps

-- The locked part of `Update`: `MoveToFront` keeps the stored value.
unfoldable pub update_bucket : PeerId → Bucket → Bucket
update_bucket target bucket = elim (find_peer target bucket) [
  | none ↦ if leb (length bucket) bucket_size then target ∷ bucket else bucket
  | some element ↦ element ∷ remove_first target bucket
]

-- A write through the pointer that `Bucket` returned.
unfoldable pub put_bucket : RoutingTable → ℤ → Bucket → RoutingTable
put_bucket t (pos i) bucket = record t { buckets = set t.buckets i bucket }
put_bucket t (negsuc i) bucket = t

unfoldable pub update : RoutingTable → PeerId → Outcome RoutingTable
unfolding bucket_at bucket_id put_bucket
update t target =
    if nat_beq (length t.self.id) (length target.id)
    then elim (bucket_at t (bucket_id t target)) [
      | none ↦ panic
      | some bucket ↦ ok (put_bucket t (bucket_id t target) (update_bucket target bucket))
    ]
    else ok t

unfoldable pub create_routing_table : PeerId → Outcome RoutingTable
create_routing_table id =
    update (record { self = id; buckets = replicate (length id.id * 8) [] }) id

unfoldable pub remove_peer : RoutingTable → PeerId → Outcome (RoutingTable × Bool)
unfolding bucket_at bucket_id put_bucket
remove_peer t target = elim (bucket_at t (bucket_id t target)) [
  | none ↦ panic
  | some bucket ↦ elim (find_peer target bucket) [
    | none ↦ ok (t, false)
    | some _ ↦ ok (put_bucket t (bucket_id t target) (remove_first target bucket), true)
  ]
]

unfoldable pub peer_exists : RoutingTable → PeerId → Bool
unfolding bucket_at bucket_id
peer_exists t target = elim (bucket_at t (bucket_id t target)) [
  | none ↦ false
  | some bucket ↦ elim (find_peer target bucket) [ none ↦ false | some _ ↦ true ]
]

-- `visited` of `GetPeers` and `GetPeerAddresses`: the keys seen so far.
unfoldable pub seen : Bytes → List Bytes → Bool
seen key [] = false
seen key (k ∷ ks) = bytes_beq k key || seen key ks

-- The inner loop over one bucket: the peers appended, and the keys visited.
unfoldable pub visit_bucket : Bucket → List Bytes → List PeerId → List PeerId × List Bytes
visit_bucket [] visited peers = (peers, visited)
visit_bucket (p ∷ ps) visited peers =
    let old = visit_bucket ps visited peers in
    let new = visit_bucket ps (public_key_hex p ∷ visited) (peers ++ (p ∷ [])) in
    if seen (public_key_hex p) visited then old else new

unfoldable pub visit_buckets : List Bucket → List Bytes → List PeerId → List PeerId
visit_buckets [] visited peers = peers
visit_buckets (b ∷ bs) visited peers =
    let (peers', visited') = visit_bucket b visited peers in visit_buckets bs visited' peers'

unfoldable pub get_peers : RoutingTable → List PeerId
get_peers t = visit_buckets t.buckets (public_key_hex t.self ∷ []) []

addresses_of : List PeerId → List Bytes
addresses_of [] = []
addresses_of (p ∷ ps) = p.address ∷ addresses_of ps

-- `GetPeerAddresses` is the same loop, which keeps the addresses.
unfoldable pub get_peer_addresses : RoutingTable → List Bytes
unfolding addresses_of
get_peer_addresses t = addresses_of (get_peers t)

-- The peers of bucket `i`, or none where the index is out of range.
unfoldable pub bucket_or_empty : List Bucket → ℕ → Bucket
bucket_or_empty buckets i = elim (get_elem? buckets i) [ none ↦ [] | some b ↦ b ]

-- The body of the widening loop at distance `i` from bucket `b`: the lower bucket if
-- `b - i >= 0`, then the upper one if `b + i < n`.
unfoldable pub widen_once : List Bucket → ℕ → ℕ → ℕ → List PeerId → List PeerId
unfolding bucket_or_empty
widen_once buckets n b i peers =
    let lower = if leb i b then peers ++ bucket_or_empty buckets (b - i) else peers in
    if ltb (b + i) n then lower ++ bucket_or_empty buckets (b + i) else lower

-- The widening loop on fuel: every round past `n` ends it, so `n` rounds are enough.
unfoldable pub widen : ℕ → List Bucket → ℕ → ℕ → ℕ → ℕ → List PeerId → List PeerId
widen zero buckets n count b i peers = peers
widen (suc fuel) buckets n count b i peers =
    let rest = widen fuel buckets n count b (suc i) (widen_once buckets n b i peers) in
    if ltb (length peers) count && (leb i b || ltb (b + i) n) then rest else peers

-- The comparison of the final sort: by distance to the target.
unfoldable pub nearer : PeerId → PeerId → PeerId → Bool
nearer target p q = less_than (xor_id p target) (xor_id q target)

unfoldable pub find_closest_at : RoutingTable → PeerId → ℕ → ℤ → Outcome (List PeerId)
find_closest_at t target count (negsuc i) = panic
find_closest_at t target count (pos b) = elim (get_elem? t.buckets b) [
  | none ↦ panic
  | some bucket ↦
      let n = length t.self.id * 8 in
      ok (take count (sort (nearer target) (widen n t.buckets n count b 1 bucket)))
]

unfoldable pub find_closest_peers : RoutingTable → PeerId → ℕ → Outcome (List PeerId)
unfolding bucket_id
find_closest_peers t target count =
    if nat_beq (length t.self.id) (length target.id)
    then find_closest_at t target count (bucket_id t target)
    else ok []

-- `GetRandomPeers`: the buckets that hold a peer, shuffled, and the front of each until there are
-- `count` peers. `rand i` is what `rand.Intn(i)` returns.
unfoldable pub nonempty_buckets : List Bucket → List Bucket
nonempty_buckets [] = []
nonempty_buckets ([] ∷ bs) = nonempty_buckets bs
nonempty_buckets ((p ∷ ps) ∷ bs) = (p ∷ ps) ∷ nonempty_buckets bs

unfoldable pub swap_at {ℓ} : {A : Type ℓ} → List A → ℕ → ℕ → List A
swap_at xs i j = elim (get_elem? xs i) [
  | none ↦ xs
  | some x ↦ elim (get_elem? xs j) [ none ↦ xs | some y ↦ set (set xs i y) j x ]
]

-- The loop `for i := uint32(len(buckets)) - 1; i > 0; i--`.
unfoldable pub shuffle {ℓ} : {A : Type ℓ} → (ℕ → ℕ) → ℕ → List A → List A
unfolding swap_at
shuffle rand zero xs = xs
shuffle rand (suc i) xs = shuffle rand i (swap_at xs (suc i) (rand (suc i)))

unfoldable pub fronts : ℕ → List Bucket → List PeerId → List PeerId
fronts count [] peers = peers
fronts count ([] ∷ bs) peers =
    let rest = fronts count bs peers in if leb count (length peers) then peers else rest
fronts count ((p ∷ ps) ∷ bs) peers =
    let rest = fronts count bs (peers ++ (p ∷ [])) in
    if leb count (length peers + 1) then peers ++ (p ∷ []) else rest

unfoldable pub get_random_peers : (ℕ → ℕ) → RoutingTable → ℕ → List PeerId
unfolding nonempty_buckets shuffle fronts
get_random_peers rand t count =
    let full = nonempty_buckets t.buckets in fronts count (shuffle rand (length full - 1) full) []
