-- ===== src/Metric/Runs.antt =====
-- network/components/metric/component.go: requests that begin and end, in any order.
use carrier.Prelude.{
  ℕ, zero, suc, ◌<◌, ◌≤◌, ◌≡◌, refl, ap, sym, ◌∙◌, subst, arith, Bool, true, false, List, [], ◌∷◌,
  ◌++◌, map, Option, none, some, length, get_elem?, get_elem?_total, set, take, All, length-take,
  append_assoc, append-nil, length-set, length-replicate,
}
use carrier.Outcome.{Outcome, ok, panic}
use carrier.Metric.Latest.{recent, recent-append, recent-all}
use carrier.Metric.Samples.{
  TimeDistance, TimeMetric, empty_sample, start_metric, begin_sample, end_sample,
}
use carrier.Metric.Beginning.{begin_sample-IsAdded}
use carrier.Metric.Recent.{samples, starts, length-map, IsMetric}

-- A request begins, or one that began at an index ends.
pub data Event : Type 0 where
  begins : ℕ → Event
  ends : Bool → ℕ → ℕ → Event

abbrev pub and_then :
    Outcome (ℕ × TimeMetric) → (TimeMetric → Outcome TimeMetric) → Outcome TimeMetric
and_then panic next = panic
and_then (ok (w, m)) next = next m

abbrev pub on_ok : Outcome TimeMetric → (TimeMetric → Outcome TimeMetric) → Outcome TimeMetric
on_ok panic next = panic
on_ok (ok m) next = next m

-- The component, event by event.
abbrev pub run_metric : List Event → TimeMetric → Outcome TimeMetric
run_metric [] m = ok m
run_metric (begins now ∷ events) m = and_then (begin_sample now m) (run_metric events)
run_metric (ends replied w now ∷ events) m = on_ok (end_sample replied w now m) (run_metric events)

-- The times at which requests begin.
abbrev pub begin_times : List Event → List ℕ
begin_times [] = []
begin_times (begins now ∷ events) = now ∷ begin_times events
begin_times (ends replied w now ∷ events) = begin_times events

-- A request ends at an index of the samples.
abbrev pub IsWithin : ℕ → Event → Type 0
IsWithin size (begins now) = Unit
IsWithin size (ends replied w now) = w < size

starts-set :
    (i w : ℕ) (ds : List TimeDistance) (d d' : TimeDistance)
    → get_elem? ds w ≡ some d
    → d'.start_time ≡ d.start_time
    → map (λ (d : TimeDistance). d.start_time) (take i (set ds w d'))
      ≡ map (λ (d : TimeDistance). d.start_time) (take i ds)
starts-set zero w ds d d' h e = refl
starts-set (suc i) w [] d d' h e = refl
starts-set (suc i) zero (x ∷ ds) d d' h e =
    ap (λ t. t ∷ map (λ (d : TimeDistance). d.start_time) (take i ds))
      (e
        ∙ sym (
            ap
              (λ (o : Option TimeDistance). elim o as (λ x. ℕ) [ none ↦ 0 | some y ↦ y.start_time ])
              h))
starts-set (suc i) (suc w) (x ∷ ds) d d' h e = ap (◌∷◌ x.start_time) (starts-set i w ds d d' h e)

-- The end of a request changes no start time.
end_sample-starts :
    (replied : Bool) (w now : ℕ) (m : TimeMetric)
    → w < length m.time_metric
    → (m1 : TimeMetric) × (end_sample replied w now m ≡ ok m1)
      × (starts m1 ≡ starts m)
      × (length m1.time_metric ≡ length m.time_metric)
      × (m1.index ≡ m.index)
      × (m1.sample_size ≡ m.sample_size)
unfolding end_sample
end_sample-starts false w now m h = (m, refl, refl, refl, refl, refl)
end_sample-starts true w now m h =
    let (d, there) = get_elem?_total m.time_metric w h in
    let closed : TimeDistance = record d { end_time = now } in
    (
      record m { time_metric = set m.time_metric w closed },
      rw (there, end_sample) refl,
      starts-set m.index w m.time_metric d closed there refl,
      length-set m.time_metric w closed,
      refl,
      refl,
    )

ended-IsMetric :
    (m m1 : TimeMetric)
    → starts m1 ≡ starts m
    → length m1.time_metric ≡ length m.time_metric
    → m1.index ≡ m.index
    → m1.sample_size ≡ m.sample_size
    → IsMetric m
    → IsMetric m1
ended-IsMetric m m1 same long index size v = record {
  sized = long ∙ v.sized ∙ sym size;
  some_size = omega (arith, v.some_size, size);
  within = omega (arith, v.within, index, size);
  started = subst (All (λ t. 0 < t)) (sym same) v.started;
}

few : (m : TimeMetric) → IsMetric m → length (starts m) ≤ m.sample_size
few m v = omega (arith, length-map (samples m), length-take m.index m.time_metric, v.within)

-- So from any metric on.
run_metric-recent :
    (events : List Event) (m : TimeMetric)
    → IsMetric m
    → All (IsWithin m.sample_size) events
    → All (λ t. 0 < t) (begin_times events)
    → (m' : TimeMetric) × (run_metric events m ≡ ok m')
      × IsMetric m'
      × (starts m' ≡ recent m.sample_size (starts m ++ begin_times events))
run_metric-recent [] m v inside h = (
  m,
  refl,
  v,
  sym (
      ap (recent m.sample_size) (append-nil (starts m))
      ∙ recent-all m.sample_size (starts m) (few m v)),
)
run_metric-recent (begins now ∷ events) m v inside h =
    let (w, m1, e, v1, added, size) = begin_sample-IsAdded now m v h.0 in
    let (m', e', v', latest) =
      run_metric-recent events m1 v1 (subst (λ s. All (IsWithin s) events) (sym size) inside.1)
        h.1 in
    let tail = begin_times events in
    (
      m',
      ap (λ o. and_then o (run_metric events)) e ∙ e',
      v',
      latest
          ∙ ap (λ s. recent s (starts m1 ++ tail)) size
          ∙ ap (λ ts. recent m.sample_size (ts ++ tail)) added
          ∙ recent-append m.sample_size (starts m ++ (now ∷ [])) tail
          ∙ ap (recent m.sample_size) (append_assoc (starts m) (now ∷ []) tail),
    )
run_metric-recent (ends replied w now ∷ events) m v inside h =
    let (m1, e, same, long, index, size) =
      end_sample-starts replied w now m (subst (λ s. w < s) (sym v.sized) inside.0) in
    let (m', e', v', latest) =
      run_metric-recent events m1 (ended-IsMetric m m1 same long index size v)
        (subst (λ s. All (IsWithin s) events) (sym size) inside.1) h in
    (
      m',
      ap (λ o. on_ok o (run_metric events)) e ∙ e',
      v',
      latest
          ∙ ap (λ s. recent s (starts m1 ++ begin_times events)) size
          ∙ ap (λ ts. recent m.sample_size (ts ++ begin_times events)) same,
    )

start_metric-IsMetric : (size : ℕ) → 0 < size → IsMetric (start_metric size)
unfolding start_metric
start_metric-IsMetric size h = record {
  sized = length-replicate size empty_sample;
  some_size = h;
  within = omega arith;
  started = tt;
}

-- However requests begin, at times after 0, and end at indices of the samples, a component for at least
-- one sample does not panic, and the start times of its samples are those of the latest requests, in the
-- order in which they began: as many as it has room for.
pub run_metric-latest :
    (size : ℕ) (events : List Event)
    → 0 < size
    → All (IsWithin size) events
    → All (λ t. 0 < t) (begin_times events)
    → (m : TimeMetric) × (run_metric events (start_metric size) ≡ ok m)
      × (starts m ≡ recent size (begin_times events))
unfolding start_metric
run_metric-latest size events h inside positive =
    let (m, e, v, latest) =
      run_metric-recent events (start_metric size) (start_metric-IsMetric size h) inside positive in
    (m, e, latest)
