-- ===== src/Metric/Beginning.antt =====
-- network/components/metric/component.go: a request begins, whether the samples are full or not.
use carrier.Prelude.{
  ℕ, suc, ◌-◌, ◌<◌, ◌≡◌, refl, ap, sym, ◌∙◌, subst, arith, List, [], ◌∷◌, ◌++◌, ltb, length, All,
  All-drop, All-append, Bool-cases, inl, inr, length-set, length-append,
}
use carrier.Outcome.{ok}
use carrier.Metric.Samples.{TimeDistance, TimeMetric, begun, begin_sample}
use carrier.Metric.Recent.{
  starts, IsMetric, IsBegun, IsAdded, begin-room, begin-full, IsAdded-room, IsAdded-full,
}

pub split :
    (n : ℕ) (xs : List TimeDistance)
    → 0 < n
    → length xs ≡ n
    → (x : TimeDistance) × (rest : List TimeDistance) × (xs ≡ x ∷ rest)
split n [] h e = absurd (omega arith)
split n (x ∷ xs) h e = (x, xs, refl)

pub begun-IsMetric :
    (m m' : TimeMetric) (w now : ℕ) (ds : List TimeDistance)
    → IsMetric m
    → 0 < now
    → w < m.sample_size
    → length ds ≡ m.sample_size
    → IsBegun m w ds m'
    → IsAdded m now m'
    → IsMetric m'
begun-IsMetric m m' w now ds v positive fits sized b added = record {
  sized = ap (length {A = TimeDistance}) b.holds ∙ sized ∙ sym b.size;
  some_size = omega (arith, v.some_size, b.size);
  within = omega (arith, b.index, b.size, fits);
  started = subst (All (λ t. 0 < t)) (sym added) (
      All-drop (λ t. 0 < t) (length (starts m ++ (now ∷ [])) - m.sample_size)
        (starts m ++ (now ∷ []))
        (All-append (λ t. 0 < t) (starts m) (now ∷ []) v.started (positive, tt)));
}

-- A request begins a sample, whether there is room or not.
pub begin_sample-IsAdded :
    (now : ℕ) (m : TimeMetric)
    → IsMetric m
    → 0 < now
    → (w : ℕ) × (m' : TimeMetric) × (begin_sample now m ≡ ok (w, m'))
      × IsMetric m'
      × IsAdded m now m'
      × (m'.sample_size ≡ m.sample_size)
begin_sample-IsAdded now m v positive = elim (Bool-cases (ltb m.index m.sample_size)) [
  | inl below ↦
      let room : m.index < m.sample_size = ground arith in
      let (m', e, b) = begin-room now m v room in
      let added = IsAdded-room m m' now v room b in
      (
        m.index,
        m',
        e,
        begun-IsMetric m m' m.index now _ v positive room
            (length-set m.time_metric m.index (begun now) ∙ v.sized) b added,
        added,
        b.size,
      )
  | inr above ↦
      let full : m.index ≡ m.sample_size = ground (arith, v.within) in
      let (x, xs, there) = split m.sample_size m.time_metric v.some_size v.sized in
      let (m', e, b) = begin-full now m x xs v full there in
      let added = IsAdded-full m m' now x xs v full there b in
      let size : suc (length xs) ≡ m.sample_size =
        sym (ap (length {A = TimeDistance}) there) ∙ v.sized in
      (
        length xs,
        m',
        e,
        begun-IsMetric m m' (length xs) now _ v positive (omega (arith, size))
            (omega (arith, length-append xs (begun now ∷ []), size)) b added,
        added,
        b.size,
      )
]
