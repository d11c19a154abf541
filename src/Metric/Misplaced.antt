-- ===== src/Metric/Misplaced.antt =====
-- network/components/metric/component.go: a reply that comes late.
use carrier.Prelude.{
  ℕ, suc, ◌<◌, ◌≡◌, refl, ap, sym, ◌∙◌, subst, arith, true, List, [], ◌∷◌, ◌++◌, some, length,
  get_elem?, set, get_elem?-set_self, length-append,
}
use carrier.Outcome.{ok}
use carrier.Metric.Samples.{TimeDistance, TimeMetric, begun, begin_sample, end_sample}
use carrier.Metric.Beginning.{split, begun-IsMetric}
use carrier.Metric.Recent.{IsMetric, begin-full, IsAdded-full}

get-append_last :
    (ys : List TimeDistance) (d : TimeDistance) → get_elem? (ys ++ (d ∷ [])) (length ys) ≡ some d
get-append_last [] d = refl
get-append_last (y ∷ ys) d = get-append_last ys d

end_sample-last :
    (m : TimeMetric) (ys : List TimeDistance) (start replied_at : ℕ)
    → m.time_metric ≡ ys ++ (begun start ∷ [])
    → (m1 : TimeMetric) × (end_sample true (length ys) replied_at m ≡ ok m1)
      × (get_elem? m1.time_metric (length ys)
          ≡ some (record { start_time = start; end_time = replied_at; distance = 0 }))
unfolding end_sample
end_sample-last m ys start replied_at holds =
    let there : get_elem? m.time_metric (length ys) ≡ some (begun start) =
      ap (λ ds. get_elem? ds (length ys)) holds ∙ get-append_last ys (begun start) in
    let inside : length ys < length m.time_metric =
      omega (arith, ap (length {A = TimeDistance}) holds, length-append ys (begun start ∷ [])) in
    let stamped : TimeDistance = record {
      start_time = start;
      end_time = replied_at;
      distance = 0;
    } in
    (
      record m { time_metric = set m.time_metric (length ys) stamped },
      rw (there, end_sample) refl,
      get_elem?-set_self m.time_metric (length ys) stamped inside,
    )

-- Once the samples are full, a reply to a request that comes after the next request has begun is
-- taken for the reply to that one.
pub end_sample-misplaced :
    (first second replied_at : ℕ) (m : TimeMetric)
    → IsMetric m
    → m.index ≡ m.sample_size
    → 0 < first
    → (w : ℕ) × (m1 : TimeMetric) × (m2 : TimeMetric) × (begin_sample first m ≡ ok (w, m1))
      × (begin_sample second m1 ≡ ok (w, m2))
      × (m3 : TimeMetric) × (end_sample true w replied_at m2 ≡ ok m3)
      × (get_elem? m3.time_metric w
          ≡ some (record { start_time = second; end_time = replied_at; distance = 0 }))
unfolding end_sample
end_sample-misplaced first second replied_at m v full positive =
    let stamped : TimeDistance = record {
      start_time = second;
      end_time = replied_at;
      distance = 0;
    } in
    let (x, xs, there) = split m.sample_size m.time_metric v.some_size v.sized in
    let size : suc (length xs) ≡ m.sample_size =
      sym (ap (length {A = TimeDistance}) there) ∙ v.sized in
    let (m1, e1, b1) = begin-full first m x xs v full there in
    let v1 =
      begun-IsMetric m m1 (length xs) first (xs ++ (begun first ∷ [])) v positive
        (omega (arith, size)) (omega (arith, length-append xs (begun first ∷ []), size)) b1
        (IsAdded-full m m1 first x xs v full there b1) in
    let full1 : m1.index ≡ m1.sample_size = b1.index ∙ size ∙ sym b1.size in
    let (y, ys, there1) = split m1.sample_size m1.time_metric v1.some_size v1.sized in
    let (m2, e2, b2) = begin-full second m1 y ys v1 full1 there1 in
    let same : length ys ≡ length xs =
      omega (arith, ap (length {A = TimeDistance}) there1, v1.sized, b1.size, size) in
    let (m3, e3, last) =
      subst
        (λ n.
          (m3 : TimeMetric) × (end_sample true n replied_at m2 ≡ ok m3)
          × (get_elem? m3.time_metric n ≡ some stamped))
        same (end_sample-last m2 ys second replied_at b2.holds) in
    (length xs, m1, m2, e1, e2 ∙ ap (λ n. ok (n, m2)) same, m3, e3, last)
