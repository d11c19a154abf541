-- ===== src/Metric/Samples.antt =====
-- network/components/metric/component.go: the samples, and the request that takes one. An `int64` is
-- its word of 64 bits.
use carrier.Prelude.{
  ℕ, zero, suc, ◌+◌, ◌-◌, Bool, true, false, List, [], ◌∷◌, none, some, leb, ltb, length, get_elem?,
  set, replicate, if◌then◌else◌,
}
use carrier.Outcome.{Outcome, ok, panic}

pub record TimeDistance : Type 0 where
  pub start_time : ℕ
  pub end_time : ℕ
  pub distance : ℕ

-- `TimeMetric`, with the `sampleSize` that it was made for.
pub record TimeMetric : Type 0 where
  pub time_metric : List TimeDistance
  pub index : ℕ
  pub is_full : Bool
  pub sample_size : ℕ

abbrev pub empty_sample : TimeDistance
empty_sample = record { start_time = 0; end_time = 0; distance = 0 }

-- `Startup`
unfoldable pub start_metric : ℕ → TimeMetric
start_metric size = record {
  time_metric = replicate size empty_sample;
  index = 0;
  is_full = false;
  sample_size = size;
}

abbrev pub begun : ℕ → TimeDistance
begun now = record { start_time = now; end_time = 0; distance = 0 }

-- `for i := 0; i < p.sampleSize-1; i++ { timeMetric[i] = timeMetric[i+1] }`
unfoldable pub shift_samples : List TimeDistance → List TimeDistance
shift_samples [] = []
shift_samples (x ∷ []) = x ∷ []
shift_samples (x ∷ y ∷ rest) = y ∷ shift_samples (y ∷ rest)

-- A write to an index, which panics out of range.
abbrev pub put_sample : ℕ → TimeDistance → TimeMetric → Outcome TimeMetric
put_sample i d m =
    if ltb i (length m.time_metric)
    then ok (record m { time_metric = set m.time_metric i d })
    else panic

-- Where the sample of a request goes once `sampleSize` many have been begun: `timeMetric[-1]` panics.
unfoldable pub place_full : ℕ → ℕ → TimeMetric → Outcome TimeMetric
unfolding shift_samples
place_full zero now m = panic
place_full (suc last) now m = elim (get_elem? m.time_metric last) [
  | none ↦ panic
  | some d ↦
      if ltb 0 d.start_time
      then put_sample last (begun now) (record m { time_metric = shift_samples m.time_metric })
      else put_sample m.index (begun now) m
]

unfoldable pub place_sample : ℕ → TimeMetric → Outcome TimeMetric
unfolding place_full
place_sample now m =
    if leb m.sample_size m.index
    then place_full m.sample_size now m
    else put_sample m.index (begun now) m

-- The index that the request works with, and the next.
unfoldable pub count_sample : TimeMetric → ℕ × TimeMetric
count_sample m =
    let m1 : TimeMetric =
      if leb m.sample_size (m.index + 1)
      then record m { is_full = true; index = m.sample_size - 1 }
      else m in
    (m1.index, record m1 { index = m1.index + 1 })

abbrev pub counted_outcome : Outcome TimeMetric → Outcome (ℕ × TimeMetric)
counted_outcome (ok m) = ok (count_sample m)
counted_outcome panic = panic

-- `sendMetricRequest`, up to the request.
unfoldable pub begin_sample : ℕ → TimeMetric → Outcome (ℕ × TimeMetric)
unfolding place_sample count_sample
begin_sample now m = counted_outcome (place_sample now m)

-- And after it: an error leaves the sample open. The lock is not held any longer.
unfoldable pub end_sample : Bool → ℕ → ℕ → TimeMetric → Outcome TimeMetric
end_sample replied working now m =
    if replied
    then elim (get_elem? m.time_metric working) [
      | none ↦ panic
      | some d ↦
          ok (record m { time_metric = set m.time_metric working (record d { end_time = now }) })
    ]
    else ok m
