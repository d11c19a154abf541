-- ===== src/Metric/Statistics.antt =====
-- network/components/metric/component.go: the statistics of the samples. Floating-point arithmetic is
-- the record `Floats`; each reading of the clock, in microseconds, is the value of a function.
use carrier.Prelude.{
  ℕ, zero, suc, ◌+◌, ◌-◌, ◌/◌, ◌%◌, ◌^◌, List, [], ◌∷◌, nat_beq, ltb, take, if◌then◌else◌,
}
use carrier.Metric.Samples.{TimeDistance, TimeMetric}

pub record Floats : Type 1 where
  pub Float : Type 0
  pub of_int : ℕ → Float
  pub to_int : Float → ℕ
  pub add : Float → Float → Float
  pub multiply : Float → Float → Float
  pub divide : Float → Float → Float
  pub abs : Float → Float
  pub square : Float → Float
  pub sqrt : Float → Float

-- Words of 64 bits: their difference, and the quotient by a count, rounded towards 0.
abbrev pub sub64 : ℕ → ℕ → ℕ
sub64 a b = (a + 2 ^ 64 - b) % 2 ^ 64

abbrev pub div64 : ℕ → ℕ → ℕ
div64 a n = if ltb a (2 ^ 63) then a / n else (2 ^ 64 - (2 ^ 64 - a) / n) % 2 ^ 64

-- The time that a sample took, up to now if it is open.
abbrev pub elapsed : ℕ → TimeDistance → ℕ
elapsed now d =
    if nat_beq d.end_time 0 then sub64 now d.start_time else sub64 d.end_time d.start_time

-- `timeMetric[i].distance = distance`, for the first `n` samples; `i` counts them.
unfoldable pub fill_distances : (ℕ → ℕ) → ℕ → ℕ → List TimeDistance → List TimeDistance
fill_distances now i zero ds = ds
fill_distances now i (suc n) [] = []
fill_distances now i (suc n) (d ∷ ds) =
    record d { distance = elapsed (now i) d } ∷ fill_distances now (i + 1) n ds

abbrev pub distances : List TimeDistance → List ℕ
distances [] = []
distances (d ∷ ds) = d.distance ∷ distances ds

pub record Element : Type 0 where
  pub distance : ℕ
  pub count : ℕ

-- The inner loop: a distance that is there is counted, and another one is put at the end.
unfoldable pub count_distance : ℕ → List Element → List Element
count_distance d [] = record { distance = d; count = 1 } ∷ []
count_distance d (e ∷ es) =
    let rest = count_distance d es in
    if nat_beq d e.distance then record e { count = e.count + 1 } ∷ es else e ∷ rest

unfoldable pub count_distances : List ℕ → List Element → List Element
unfolding count_distance
count_distances [] es = es
count_distances (d ∷ ds) es = count_distances ds (count_distance d es)

module _ (f : Floats) where
  -- `sum += rate * float64(distance)`, over the elements.
  unfoldable pub weigh : ℕ → List Element → f.Float → f.Float
  weigh n [] sum = sum
  weigh n (e ∷ es) sum =
      weigh n es
        (f.add sum (f.multiply (f.divide (f.of_int e.count) (f.of_int n)) (f.of_int e.distance)))

  -- `timeDistanceExpect`, which also fills in the distances.
  unfoldable pub time_distance_expect : (ℕ → ℕ) → TimeMetric → ℕ × TimeMetric
  unfolding fill_distances count_distances weigh
  time_distance_expect now m = elim m.index [
    | zero ↦ (0, m)
    | suc n ↦
        let filled = fill_distances now 0 (suc n) m.time_metric in
        let statics = count_distances (distances (take (suc n) filled)) [] in
        (f.to_int (weigh (suc n) statics (f.of_int 0)), record m { time_metric = filled })
  ]

  unfoldable pub sum_elapsed : (ℕ → ℕ) → ℕ → List TimeDistance → ℕ → ℕ
  sum_elapsed now i [] sum = sum
  sum_elapsed now i (d ∷ ds) sum = sum_elapsed now (i + 1) ds ((sum + elapsed (now i) d) % 2 ^ 64)

  -- `timeDistanceAverage`
  unfoldable pub time_distance_average : (ℕ → ℕ) → TimeMetric → ℕ
  unfolding sum_elapsed
  time_distance_average now m = elim m.index [
    | zero ↦ 0
    | suc n ↦ div64 (sum_elapsed now 0 (take (suc n) m.time_metric) 0) (suc n)
  ]

  unfoldable pub sum_squares : ℕ → List ℕ → f.Float → f.Float
  sum_squares expect [] sum = sum
  sum_squares expect (d ∷ ds) sum =
      sum_squares expect ds (f.add sum (f.square (f.abs (f.of_int (sub64 expect d)))))

  pub record Statistics : Type 0 where
    pub expect : ℕ
    pub dis_var : ℕ
    pub average : ℕ

  -- `timeDistanceVar`; `now` and `later` are the readings of its two callees.
  unfoldable pub time_distance_var : (ℕ → ℕ) → (ℕ → ℕ) → TimeMetric → Statistics × TimeMetric
  unfolding time_distance_expect time_distance_average sum_squares
  time_distance_var now later m = elim m.index [
    | zero ↦ (record { expect = 0; dis_var = 0; average = 0 }, m)
    | suc n ↦
        let (expect, filled) = time_distance_expect now m in
        let average = time_distance_average later filled in
        let squares =
          sum_squares expect (distances (take (suc n) filled.time_metric)) (f.of_int 0) in
        (
          record {
            expect = expect;
            dis_var = f.to_int (f.divide squares (f.of_int (suc n)));
            average = average;
          },
          filled,
        )
  ]

  -- `TimeDistanceStandard`: the statistics, with the square root of the variance.
  unfoldable pub time_distance_standard :
      (ℕ → ℕ) → (ℕ → ℕ) → TimeMetric → (Statistics × ℕ) × TimeMetric
  unfolding time_distance_var
  time_distance_standard now later m = elim m.index [
    | zero ↦ ((record { expect = 0; dis_var = 0; average = 0 }, 0), m)
    | suc n ↦
        let (s, filled) = time_distance_var now later m in
        ((s, f.to_int (f.sqrt (f.of_int s.dis_var))), filled)
  ]
