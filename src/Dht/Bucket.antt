-- ===== src/Dht/Bucket.antt =====
-- dht/routes.go: the loops over one bucket, by the peer that a search finds.
use carrier.Prelude.{
  ℕ, ◌+◌, ◌≤◌, ◌≡◌, ◌≢◌, ◌↔◌, ◌⊎◌, refl, ap, sym, ◌∙◌, Bool, true, false, [], ◌∷◌, arith, length,
  none, some, All, inl, inr, if◌then◌else◌, bytes_beq, bytes_beq_iff, leb, Bool-cases, Option-cases,
}
use carrier.Peer.Identity.{PeerId, equals}
use carrier.Dht.Routes.{Bucket, bucket_size, find_peer, remove_first, update_bucket}

-- The ids of the bucket are all different.
abbrev pub IsDistinct : Bucket → Type 0
IsDistinct [] = Unit
IsDistinct (p ∷ ps) = All (λ q. equals q p ≡ false) ps × IsDistinct ps

pub equals_iff : (p q : PeerId) → (equals p q ≡ true) ↔ (p.id ≡ q.id)
unfolding equals
equals_iff p q = bytes_beq_iff p.id q.id

pub equals_congr : (r q t : PeerId) → equals q t ≡ true → equals r q ≡ equals r t
unfolding equals
equals_congr r q t h = ap (bytes_beq r.id) ((equals_iff q t).0 h)

pub find_peer-equals : (t p : PeerId) (b : Bucket) → find_peer t b ≡ some p → p.id ≡ t.id
unfolding find_peer
find_peer-equals t p [] h = cc
find_peer-equals t p (q ∷ b) h = ground (arith, equals_iff q t, find_peer-equals t p b)

pub find_peer_all {κ} :
    (P : PeerId → Type κ) (t p : PeerId) (b : Bucket) → All P b → find_peer t b ≡ some p → P p
unfolding find_peer
find_peer_all P t p [] a h = cc
find_peer_all P t p (q ∷ b) a h = elim (Bool-cases (equals q t)) [
  | inl e ↦ rw (some_eq (rw e at h)) at a.0
  | inr e ↦ find_peer_all P t p b a.1 (rw e at h)
]
  where
    some_eq : some q ≡ some p → q ≡ p
    some_eq h = cc

pub remove_first-All {κ} :
    (P : PeerId → Type κ) (t : PeerId) (b : Bucket) → All P b → All P (remove_first t b)
unfolding remove_first
remove_first-All P t [] a = tt
remove_first-All P t (q ∷ b) a = elim (Bool-cases (equals q t)) [
  | inl e ↦ rw e a.1
  | inr e ↦ rw e (a.0, remove_first-All P t b a.1)
]

pub update_bucket-All {κ} :
    (P : PeerId → Type κ) (t : PeerId) (b : Bucket) → P t → All P b → All P (update_bucket t b)
unfolding update_bucket
update_bucket-All P t b p a = elim (Option-cases (find_peer t b)) [
  | inl none_found ↦ rw (none_found, update_bucket) (if_all (leb (length b) bucket_size))
  | inr (q, found) ↦
      rw (found, update_bucket) (find_peer_all P t q b a found, remove_first-All P t b a)
]
  where
    if_all : (c : Bool) → All P (if c then t ∷ b else b)
    if_all true = (p, a)
    if_all false = a

none_found-All : (t : PeerId) (b : Bucket) → find_peer t b ≡ none → All (λ q. equals q t ≡ false) b
unfolding find_peer
none_found-All t [] h = tt
none_found-All t (q ∷ b) h = elim (Bool-cases (equals q t)) [
  | inl e ↦ absurd (not_none (rw e at h))
  | inr e ↦ (e, none_found-All t b (rw e at h))
]
  where
    not_none : some q ≡ none → ⊥
    not_none h = cc

others_congr :
    (q t : PeerId) (c : Bucket)
    → equals q t ≡ true
    → All (λ r. equals r q ≡ false) c
    → All (λ r. equals r t ≡ false) c
others_congr q t [] e a = tt
others_congr q t (r ∷ c) e a = (sym (equals_congr r q t e) ∙ a.0, others_congr q t c e a.1)

remove_first-none :
    (t : PeerId) (b : Bucket) → IsDistinct b → All (λ q. equals q t ≡ false) (remove_first t b)
unfolding remove_first
remove_first-none t [] d = tt
remove_first-none t (q ∷ b) d = elim (Bool-cases (equals q t)) [
  | inl e ↦ rw e (others_congr q t b e d.0)
  | inr e ↦ rw e (e, remove_first-none t b d.1)
]

pub remove_first-IsDistinct :
    (t : PeerId) (b : Bucket) → IsDistinct b → IsDistinct (remove_first t b)
unfolding remove_first
remove_first-IsDistinct t [] d = tt
remove_first-IsDistinct t (q ∷ b) d = elim (Bool-cases (equals q t)) [
  | inl e ↦ rw e d.1
  | inr e ↦
      rw e (remove_first-All (λ r. equals r q ≡ false) t b d.0, remove_first-IsDistinct t b d.1)
]

All-none : (t : PeerId) (b : Bucket) → All (λ q. equals q t ≡ false) b → find_peer t b ≡ none
unfolding find_peer
All-none t [] a = refl
All-none t (q ∷ b) a = rw a.0 (All-none t b a.1)

pub find_peer-remove_first :
    (t : PeerId) (b : Bucket) → IsDistinct b → find_peer t (remove_first t b) ≡ none
find_peer-remove_first t b d = All-none t (remove_first t b) (remove_first-none t b d)

pub find_peer-remove_first_ne :
    (t q : PeerId) (b : Bucket)
    → equals q t ≡ false
    → find_peer q (remove_first t b) ≡ find_peer q b
unfolding find_peer remove_first
find_peer-remove_first_ne t q [] h = refl
find_peer-remove_first_ne t q (p ∷ b) h =
    ground
      (arith, equals_iff q t, equals_iff p t, equals_iff p q, find_peer-remove_first_ne t q b h)

pub length-remove_first :
    (t : PeerId) (b : Bucket) → find_peer t b ≢ none → length (remove_first t b) + 1 ≡ length b
unfolding find_peer remove_first
length-remove_first t [] h = absurd (h refl)
length-remove_first t (q ∷ b) h = ground (arith, length-remove_first t b)

-- The peers that a bucket of at most 16 holds, and the target: `Update` brings the target to the
-- front, or leaves a bucket of more than 16 peers without it.
pub find_peer-update_bucket :
    (t : PeerId) (b : Bucket)
    → (find_peer t b ≢ none) ⊎ (length b ≤ bucket_size)
    → find_peer t (update_bucket t b) ≢ none
unfolding find_peer update_bucket
find_peer-update_bucket t b h = elim (Option-cases (find_peer t b)) [
  | inl new ↦ ground (arith, equals_iff t t)
  | inr (p, found) ↦ ground (arith, equals_iff p t, find_peer-equals t p b)
]

pub find_peer-update_bucket_ne :
    (t q : PeerId) (b : Bucket)
    → equals q t ≡ false
    → find_peer q (update_bucket t b) ≡ find_peer q b
unfolding find_peer update_bucket
find_peer-update_bucket_ne t q b h = elim (Option-cases (find_peer t b)) [
  | inl new ↦ ground (arith, equals_iff t q, equals_iff q t)
  | inr (p, found) ↦ ground (
    arith,
    equals_iff p q,
    equals_iff q t,
    find_peer-equals t p b,
    find_peer-remove_first_ne t q b,
  )
]

pub length-update_bucket :
    (t : PeerId) (b : Bucket) → length b ≤ 17 → length (update_bucket t b) ≤ 17
unfolding update_bucket
length-update_bucket t b h = ground (arith, length-remove_first t b)

pub update_bucket-IsDistinct :
    (t : PeerId) (b : Bucket) → IsDistinct b → IsDistinct (update_bucket t b)
unfolding update_bucket
update_bucket-IsDistinct t b d = elim (Option-cases (find_peer t b)) [
  | inl new ↦ rw (new, update_bucket) (if_new new (leb (length b) bucket_size))
  | inr (q, found) ↦
      rw (found, update_bucket)
        (
          others_congr t q (remove_first t b)
              (ground (arith, equals_iff t q, find_peer-equals t q b)) (remove_first-none t b d),
          remove_first-IsDistinct t b d,
        )
]
  where
    if_new : find_peer t b ≡ none → (c : Bool) → IsDistinct (if c then t ∷ b else b)
    if_new new true = (none_found-All t b new, d)
    if_new new false = d

pub length-remove_first-le :
    (t : PeerId) (b : Bucket) {n : ℕ} → length b ≤ n → length (remove_first t b) ≤ n
unfolding remove_first
length-remove_first-le t [] h = h
length-remove_first-le t (q ∷ b) {n} h =
    ground (arith, length-remove_first-le t b {n = length b} (omega arith))
