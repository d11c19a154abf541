-- ===== src/Dht/Random.antt =====
-- dht/routes.go: `GetRandomPeers`.
use carrier.Prelude.{
  ℕ, zero, suc, ◌+◌, ◌-◌, ◌<◌, ◌≡◌, refl, ◌∙◌, List, [], ◌∷◌, ◌++◌, arith, length, leb, Bool-cases,
  All, All-append, set, get_elem?, Option-cases, All-get, length-append, length-set, inl, inr, min,
}
use carrier.Peer.Identity.{PeerId}
use carrier.Dht.Routes.{
  Bucket, RoutingTable, nonempty_buckets, swap_at, shuffle, fronts, get_random_peers,
}

-- A shuffled list of buckets.
All-set {ℓ κ} :
    {A : Type ℓ} (P : A → Type κ) (xs : List A) (i : ℕ) (v : A)
    → P v
    → All P xs
    → All P (set xs i v)
All-set P [] i v p h = tt
All-set P (x ∷ xs) zero v p h = (p, h.1)
All-set P (x ∷ xs) (suc i) v p h = (h.0, All-set P xs i v p h.1)

swap_at-All {ℓ κ} :
    {A : Type ℓ} (P : A → Type κ) (xs : List A) (i j : ℕ) → All P xs → All P (swap_at xs i j)
unfolding swap_at
swap_at-All P xs i j h = elim (Option-cases (get_elem? xs i)) [
  | inl out ↦ rw (out, swap_at) h
  | inr (x, found) ↦ elim (Option-cases (get_elem? xs j)) [
    | inl out ↦ rw (found, out, swap_at) h
    | inr (y, found') ↦
        rw (found, found', swap_at)
          (All-set P (set xs i y) j x (All-get P xs i x h found)
            (All-set P xs i y (All-get P xs j y h found') h))
  ]
]

length-swap_at {ℓ} : {A : Type ℓ} (xs : List A) (i j : ℕ) → length (swap_at xs i j) ≡ length xs
unfolding swap_at
length-swap_at xs i j = elim (Option-cases (get_elem? xs i)) [
  | inl out ↦ rw (out, swap_at)
  | inr (x, found) ↦ elim (Option-cases (get_elem? xs j)) [
    | inl out ↦ rw (found, out, swap_at)
    | inr (y, found') ↦
        rw (found, found', swap_at) (length-set (set xs i y) j x ∙ length-set xs i y)
  ]
]

shuffle-All {ℓ κ} :
    {A : Type ℓ} (P : A → Type κ) (rand : ℕ → ℕ) (i : ℕ) (xs : List A)
    → All P xs
    → All P (shuffle rand i xs)
unfolding shuffle
shuffle-All P rand zero xs h = h
shuffle-All P rand (suc i) xs h = shuffle-All P rand i _ (swap_at-All P xs (suc i) (rand (suc i)) h)

length-shuffle {ℓ} :
    {A : Type ℓ} (rand : ℕ → ℕ) (i : ℕ) (xs : List A) → length (shuffle rand i xs) ≡ length xs
unfolding shuffle
length-shuffle rand zero xs = refl
length-shuffle rand (suc i) xs =
    length-shuffle rand i (swap_at xs (suc i) (rand (suc i)))
    ∙ length-swap_at xs (suc i) (rand (suc i))

-- A bucket that holds a peer, and only peers with the property.
abbrev IsFull {κ} : (PeerId → Type κ) → Bucket → Type κ
IsFull P b = (0 < length b) × All P b

nonempty_buckets-All {κ} :
    (P : PeerId → Type κ) (bs : List Bucket) → All (All P) bs → All (IsFull P) (nonempty_buckets bs)
unfolding nonempty_buckets
nonempty_buckets-All P [] h = tt
nonempty_buckets-All P ([] ∷ bs) h = nonempty_buckets-All P bs h.1
nonempty_buckets-All P ((p ∷ b) ∷ bs) h = ((omega arith, h.0), nonempty_buckets-All P bs h.1)

-- The loop over full buckets takes one peer of each, up to `count`, and always the first.
fronts_lem {κ} :
    (P : PeerId → Type κ) (count : ℕ) (bs : List Bucket) (peers : List PeerId)
    → All (IsFull P) bs
    → All P peers
    → All P (fronts count bs peers)
      × (length peers < count
          → length (fronts count bs peers) ≡ min count (length peers + length bs))
unfolding fronts
fronts_lem P count [] peers h a = (a, λ l. omega arith)
fronts_lem P count ([] ∷ bs) peers h a = absurd (omega (arith, h.0.0))
fronts_lem P count ((p ∷ b) ∷ bs) peers h a =
    let more : All P (peers ++ (p ∷ [])) = All-append P peers (p ∷ []) a (h.0.1.0, tt) in
    let ih = fronts_lem P count bs (peers ++ (p ∷ [])) h.1 more in
    let grown = length-append peers (p ∷ []) in
    elim (Bool-cases (leb count (length peers + 1))) [
      | inl enough ↦ rw enough (more, λ l. ground arith)
      | inr few ↦ rw few (ih.0, λ l. ground (arith, ih.1))
    ]

-- `GetRandomPeers` of at least one peer returns peers of the table, one for each bucket that holds
-- any, up to `count`, whatever numbers `rand` draws.
pub get_random_peers_lem {κ} :
    (P : PeerId → Type κ) (rand : ℕ → ℕ) (t : RoutingTable) (count : ℕ)
    → All (All P) t.buckets
    → 0 < count
    → All P (get_random_peers rand t count)
      × (length (get_random_peers rand t count) ≡ min count (length (nonempty_buckets t.buckets)))
unfolding get_random_peers
get_random_peers_lem P rand t count h l =
    let full = nonempty_buckets t.buckets in
    let n = length full - 1 in
    let shuffled = shuffle-All (IsFull P) rand n full (nonempty_buckets-All P t.buckets h) in
    let taken = fronts_lem P count (shuffle rand n full) [] shuffled tt in
    (taken.0, omega (arith, taken.1 l, length-shuffle rand n full))
