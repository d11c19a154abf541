-- ===== src/Metric/Counts.antt =====
-- network/components/metric/component.go: the counts behind the expectation.
use carrier.Prelude.{
  ℕ, suc, ◌+◌, ◌≡◌, ◌≢◌, arith, List, [], ◌∷◌, nat_beq, nat_beq_iff, length, All, if◌then◌else◌,
}
use carrier.Metric.Statistics.{Element, count_distance, count_distances}

-- How often a distance was measured.
abbrev pub occurrences : ℕ → List ℕ → ℕ
occurrences d [] = 0
occurrences d (x ∷ xs) = let rest = occurrences d xs in if nat_beq d x then suc rest else rest

-- All the counts of a distance among the elements.
abbrev pub count_of : ℕ → List Element → ℕ
count_of d [] = 0
count_of d (e ∷ es) =
    let rest = count_of d es in if nat_beq d e.distance then e.count + rest else rest

abbrev pub Apart : List Element → Type 0
Apart [] = Unit
Apart (e ∷ es) = All (λ (o : Element). e.distance ≢ o.distance) es × Apart es

count_of-count_distance :
    (d x : ℕ) (es : List Element)
    → count_of x (count_distance d es)
      ≡ (if nat_beq x d then suc (count_of x es) else count_of x es)
unfolding count_distance
count_of-count_distance d x [] = ground (arith, nat_beq_iff x d)
count_of-count_distance d x (e ∷ es) = ground (
  arith,
  count_of-count_distance d x es,
  nat_beq_iff x d,
  nat_beq_iff d e.distance,
  nat_beq_iff x e.distance,
)

All-count_distance :
    (d x : ℕ) (es : List Element)
    → x ≢ d
    → All (λ (o : Element). x ≢ o.distance) es
    → All (λ (o : Element). x ≢ o.distance) (count_distance d es)
unfolding count_distance
All-count_distance d x [] apart h = (apart, tt)
All-count_distance d x (e ∷ es) apart h = ground (arith, All-count_distance d x es apart h.1, h)

count_distance-Apart : (d : ℕ) (es : List Element) → Apart es → Apart (count_distance d es)
unfolding count_distance
count_distance-Apart d [] h = (tt, tt)
count_distance-Apart d (e ∷ es) h = ground (
  arith,
  h,
  count_distance-Apart d es h.1,
  All-count_distance d e.distance es,
  nat_beq_iff d e.distance,
)

abbrev pub total : List Element → ℕ
total [] = 0
total (e ∷ es) = e.count + total es

total-count_distance : (d : ℕ) (es : List Element) → total (count_distance d es) ≡ suc (total es)
unfolding count_distance
total-count_distance d [] = omega arith
total-count_distance d (e ∷ es) = ground (arith, total-count_distance d es)

-- The elements that the loop makes of the distances from some elements on.
record IsCounted (ds : List ℕ) (es es' : List Element) : Type 0 where
  pub apart : Apart es'
  pub counts : (x : ℕ) → count_of x es' ≡ occurrences x ds + count_of x es
  pub totals : total es' ≡ length ds + total es

count_distances-IsCounted :
    (ds : List ℕ) (es : List Element) → Apart es → IsCounted ds es (count_distances ds es)
unfolding count_distances
count_distances-IsCounted [] es h = record {
  apart = h;
  counts = λ x. omega arith;
  totals = omega arith;
}
count_distances-IsCounted (d ∷ ds) es h =
    let later = count_distances-IsCounted ds (count_distance d es) (count_distance-Apart d es h) in
    record {
      apart = later.apart;
      counts = λ x. ground (arith, later.counts x, count_of-count_distance d x es);
      totals = omega (arith, later.totals, total-count_distance d es);
    }

-- The elements behind the expectation are a histogram of the measured distances: no distance stands
-- twice, each has the count of its occurrences, one that was not measured has none, and the counts add
-- up to the number of samples, so that the rates add up to one.
pub count_distances-occurrences :
    (ds : List ℕ)
    → Apart (count_distances ds [])
      × ((x : ℕ) → count_of x (count_distances ds []) ≡ occurrences x ds)
      × (total (count_distances ds []) ≡ length ds)
count_distances-occurrences ds =
    let all = count_distances-IsCounted ds [] tt in
    (all.apart, λ x. omega (arith, all.counts x), omega (arith, all.totals))
