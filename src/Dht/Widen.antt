-- ===== src/Dht/Widen.antt =====
-- dht/routes.go: the loop of `FindClosestPeers` that widens the search around the target's bucket.
use carrier.Prelude.{
  ℕ, zero, suc, ◌+◌, ◌-◌, ◌≤◌, ◌<◌, ◌≡◌, ◌⊎◌, refl, Bool, true, false, ◌&&◌, ◌||◌, List, [], ◌++◌,
  arith, length, some, inl, inr, if◌then◌else◌, ltb, leb, Bool-cases, get_elem?, get_elem?-eq-none,
  All, All-append,
}
use mathlib.Core.List.{Mem, not-mem-nil, mem-append_left, mem-append_right}
use native.Mathlib.Decide.{ℕ_discrete}
use carrier.Peer.Identity.{PeerId}
use carrier.Dht.Routes.{Bucket, bucket_or_empty, widen_once, widen}

bucket_or_empty_out : (bs : List Bucket) (j : ℕ) → length bs ≤ j → bucket_or_empty bs j ≡ []
unfolding bucket_or_empty
bucket_or_empty_out bs j h = rw (get_elem?-eq-none bs j h, bucket_or_empty)

pub bucket_or_empty-some :
    (bs : List Bucket) (j : ℕ) (b : Bucket) → get_elem? bs j ≡ some b → bucket_or_empty bs j ≡ b
unfolding bucket_or_empty
bucket_or_empty-some bs j b h = rw (h, bucket_or_empty)

module _ {κ} (P : PeerId → Type κ) (bs : List Bucket)
    (own : (j : ℕ) → All P (bucket_or_empty bs j)) where
  widen_once-All :
      (n b i : ℕ) (peers : List PeerId) → All P peers → All P (widen_once bs n b i peers)
  unfolding widen_once
  widen_once-All n b i peers h = upper _ (ltb (b + i) n) (lower (leb i b))
    where
      lower : (c : Bool) → All P (if c then peers ++ bucket_or_empty bs (b - i) else peers)
      lower true = All-append P peers _ h (own (b - i))
      lower false = h

      upper :
          (ps : List PeerId) (c : Bool)
          → All P ps
          → All P (if c then ps ++ bucket_or_empty bs (b + i) else ps)
      upper ps true a = All-append P ps _ a (own (b + i))
      upper ps false a = a

  pub widen-All :
      (fuel n count b i : ℕ) (peers : List PeerId)
      → All P peers
      → All P (widen fuel bs n count b i peers)
  unfolding widen
  widen-All zero n count b i peers h = h
  widen-All (suc fuel) n count b i peers h =
      choose _ (ltb (length peers) count && (leb i b || ltb (b + i) n)) (
        widen-All fuel n count b (suc i) (widen_once bs n b i peers) (widen_once-All n b i peers h))
    where
      choose : (rest : List PeerId) (c : Bool) → All P rest → All P (if c then rest else peers)
      choose rest true a = a
      choose rest false a = h

module _ (bs : List Bucket) (n b : ℕ) (sized : length bs ≡ n) (inside : b < n) where
  -- The peers of the buckets at a distance below `i` from `b` are among `peers`.
  abbrev Covers : ℕ → List PeerId → Type 0
  Covers i peers =
      (j : ℕ) → b < j + i → j < b + i → (q : PeerId) → Mem q (bucket_or_empty bs j) → Mem q peers

  abbrev pub CoversAll : List PeerId → Type 0
  CoversAll peers = (j : ℕ) → j < n → (q : PeerId) → Mem q (bucket_or_empty bs j) → Mem q peers

  module _ (i : ℕ) (peers : List PeerId) where
    widen_once-keeps : (q : PeerId) → Mem q peers → Mem q (widen_once bs n b i peers)
    unfolding widen_once
    widen_once-keeps q m = upper (ltb (b + i) n) (lower (leb i b))
      where
        lower : (c : Bool) → Mem q (if c then peers ++ bucket_or_empty bs (b - i) else peers)
        lower true = mem-append_left _ m
        lower false = m

        upper :
            {ps : List PeerId} (c : Bool)
            → Mem q ps
            → Mem q (if c then ps ++ bucket_or_empty bs (b + i) else ps)
        upper true a = mem-append_left _ a
        upper false a = a

    widen_once-lower :
        (q : PeerId)
        → i ≤ b
        → Mem q (bucket_or_empty bs (b - i))
        → Mem q (widen_once bs n b i peers)
    unfolding widen_once
    widen_once-lower q h m =
        let passed : leb i b ≡ true = ground arith in
        rw passed (upper (ltb (b + i) n) (mem-append_right peers m))
      where
        upper :
            {ps : List PeerId} (c : Bool)
            → Mem q ps
            → Mem q (if c then ps ++ bucket_or_empty bs (b + i) else ps)
        upper true a = mem-append_left _ a
        upper false a = a

    widen_once-upper :
        (q : PeerId)
        → b + i < n
        → Mem q (bucket_or_empty bs (b + i))
        → Mem q (widen_once bs n b i peers)
    unfolding widen_once
    widen_once-upper q h m =
        let passed : ltb (b + i) n ≡ true = ground arith in rw passed (mem-append_right _ m)

    Covers-widen_once : Covers i peers → Covers (suc i) (widen_once bs n b i peers)
    Covers-widen_once c j h k q m = elim (ℕ_discrete (j + i) b) [
      | yes e ↦ widen_once-lower q (omega arith) (rw (index_lower e) at m)
      | no ne ↦ elim (ℕ_discrete j (b + i)) [
        | yes e ↦ widen_once-upper q (in_bounds e m) (rw e at m)
        | no ne' ↦ widen_once-keeps q (c j (omega arith) (omega arith) q m)
      ]
    ]
      where
        index_lower : j + i ≡ b → j ≡ b - i
        index_lower e = omega arith

        in_bounds : j ≡ b + i → Mem q (bucket_or_empty bs j) → b + i < n
        in_bounds e m = elim (Bool-cases (ltb j n)) [
          | inl l ↦ ground arith
          | inr g ↦ absurd (not-mem-nil (rw (bucket_or_empty_out bs j (ground arith)) at m))
        ]

  -- The loop ends with enough peers, or with those of every bucket, if the fuel is not short.
  widen_complete :
      (fuel count i : ℕ) (peers : List PeerId)
      → n < fuel + i
      → Covers i peers
      → (count ≤ length (widen fuel bs n count b i peers))
        ⊎ CoversAll (widen fuel bs n count b i peers)
  unfolding widen
  widen_complete zero count i peers h c = inr (λ j l q m. c j (omega arith) (omega arith) q m)
  widen_complete (suc fuel) count i peers h c = elim (Bool-cases (ltb (length peers) count)) [
    | inl few ↦ elim (Bool-cases (leb i b || ltb (b + i) n)) [
      | inl more ↦
          rw (few, more)
            (widen_complete fuel count (suc i) (widen_once bs n b i peers) (omega arith)
              (Covers-widen_once i peers c))
      | inr done ↦ rw (few, done) (inr (λ j l q m. c j (ground arith) (ground arith) q m))
    ]
    | inr enough ↦ rw enough (inl (ground arith))
  ]

  pub widen_covers :
      (count : ℕ) (peers : List PeerId)
      → ((q : PeerId) → Mem q (bucket_or_empty bs b) → Mem q peers)
      → (count ≤ length (widen n bs n count b 1 peers)) ⊎ CoversAll (widen n bs n count b 1 peers)
  widen_covers count peers h =
      widen_complete n count 1 peers (omega arith) (λ j l k q m. h q (own_bucket j l k q m))
    where
      own_bucket :
          (j : ℕ)
          → b < j + 1
          → j < b + 1
          → (q : PeerId) → Mem q (bucket_or_empty bs j)
          → Mem q (bucket_or_empty bs b)
      own_bucket j l k q m = let e : j ≡ b = omega arith in rw e at m

pub widen_enough :
    (fuel : ℕ) (bs : List Bucket) (n count b i : ℕ) (peers : List PeerId)
    → count ≤ length peers
    → widen fuel bs n count b i peers ≡ peers
unfolding widen
widen_enough zero bs n count b i peers h = refl
widen_enough (suc fuel) bs n count b i peers h = ground arith
