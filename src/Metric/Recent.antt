-- ===== src/Metric/Recent.antt =====
-- network/components/metric/component.go: the samples are those of the latest requests.
use carrier.Prelude.{
  ℕ, zero, suc, ◌-◌, ◌<◌, ◌≤◌, ◌≡◌, refl, ap, sym, ◌∙◌, subst, arith, true, false, List, [], ◌∷◌,
  ◌++◌, map, some, leb, ltb, length, get_elem?, set, take, drop, All, length-append, length-take,
  take_all, inl, inr, ◌⊎◌,
}
use carrier.Outcome.{ok}
use carrier.Metric.Latest.{recent, recent-all}
use carrier.Metric.Samples.{
  TimeDistance, TimeMetric, begun, shift_samples, counted_outcome, place_full, place_sample,
  count_sample, begin_sample,
}

-- The samples that have been begun.
abbrev pub samples : TimeMetric → List TimeDistance
samples m = take m.index m.time_metric

-- The times that they were begun at.
abbrev pub starts : TimeMetric → List ℕ
starts m = map (λ (d : TimeDistance). d.start_time) (samples m)

pub record IsMetric (m : TimeMetric) : Type 0 where
  pub sized : length m.time_metric ≡ m.sample_size
  pub some_size : 0 < m.sample_size
  pub within : m.index ≤ m.sample_size
  pub started : All (λ t. 0 < t) (starts m)

shift-put :
    (x : TimeDistance) (xs : List TimeDistance) (d : TimeDistance)
    → set (shift_samples (x ∷ xs)) (length xs) d ≡ xs ++ (d ∷ [])
unfolding shift_samples
shift-put x [] d = refl
shift-put x (y ∷ ys) d = ap (◌∷◌ y) (shift-put y ys d)

length-shift_samples : (xs : List TimeDistance) → length (shift_samples xs) ≡ length xs
unfolding shift_samples
length-shift_samples [] = refl
length-shift_samples (x ∷ []) = refl
length-shift_samples (x ∷ y ∷ ys) = ap suc (length-shift_samples (y ∷ ys))

take-set :
    (i : ℕ) (xs : List TimeDistance) (d : TimeDistance)
    → i < length xs
    → take (suc i) (set xs i d) ≡ take i xs ++ (d ∷ [])
take-set i [] d h = absurd (omega arith)
take-set zero (x ∷ xs) d h = refl
take-set (suc i) (x ∷ xs) d h = ap (◌∷◌ x) (take-set i xs d (omega arith))

get-last :
    (x : TimeDistance) (xs : List TimeDistance)
    → All (λ t. 0 < t) (map (λ (d : TimeDistance). d.start_time) (x ∷ xs))
    → (d : TimeDistance) × (get_elem? (x ∷ xs) (length xs) ≡ some d) × (0 < d.start_time)
get-last x [] h = (x, refl, h.0)
get-last x (y ∷ ys) h = get-last y ys h.1

-- What `count_sample` does to a metric whose new sample stands at `w`.
count_sample_lem :
    (m : TimeMetric) (w : ℕ)
    → w < m.sample_size
    → (m.index ≡ w) ⊎ ((m.index ≡ m.sample_size) × (suc w ≡ m.sample_size))
    → ((count_sample m).0 ≡ w)
      × ((count_sample m).1.index ≡ suc w)
      × ((count_sample m).1.time_metric ≡ m.time_metric)
      × ((count_sample m).1.sample_size ≡ m.sample_size)
unfolding count_sample
count_sample_lem m w h at_w = ground arith

-- A sample that was begun at `w`: what the metric then holds.
pub record IsBegun (m : TimeMetric) (w : ℕ) (ds : List TimeDistance) (m' : TimeMetric)
    : Type 0 where
  pub index : m'.index ≡ suc w
  pub holds : m'.time_metric ≡ ds
  pub size : m'.sample_size ≡ m.sample_size

begin-placed :
    (now w : ℕ) (m m1 : TimeMetric)
    → place_sample now m ≡ ok m1
    → m1.sample_size ≡ m.sample_size
    → w < m1.sample_size
    → (m1.index ≡ w) ⊎ ((m1.index ≡ m1.sample_size) × (suc w ≡ m1.sample_size))
    → (m' : TimeMetric) × (begin_sample now m ≡ ok (w, m')) × IsBegun m w m1.time_metric m'
unfolding begin_sample
begin-placed now w m m1 placed size h at_w =
    let (working, index, holds, same) = count_sample_lem m1 w h at_w in
    (
      (count_sample m1).1,
      ap counted_outcome placed ∙ ap (λ (k : ℕ). ok (k, (count_sample m1).1)) working,
      record { index = index; holds = holds; size = same ∙ size },
    )

-- A metric that has room begins a sample at its index.
pub begin-room :
    (now : ℕ) (m : TimeMetric)
    → IsMetric m
    → m.index < m.sample_size
    → (m' : TimeMetric) × (begin_sample now m ≡ ok (m.index, m'))
      × IsBegun m m.index (set m.time_metric m.index (begun now)) m'
unfolding place_sample
begin-room now m v room =
    let not_full : leb m.sample_size m.index ≡ false = ground arith in
    let inside : ltb m.index (length m.time_metric) ≡ true = ground (arith, v.sized) in
    begin-placed now m.index m (record m { time_metric = set m.time_metric m.index (begun now) })
      (rw (place_sample, not_full, inside) refl) refl room (inl refl)

placed-full :
    (now : ℕ) (m : TimeMetric) (last : ℕ) (d : TimeDistance)
    → m.sample_size ≡ suc last
    → leb m.sample_size m.index ≡ true
    → get_elem? m.time_metric last ≡ some d
    → 0 < d.start_time
    → last < length (shift_samples m.time_metric)
    → place_sample now m
      ≡ ok (record m { time_metric = set (shift_samples m.time_metric) last (begun now) })
unfolding place_sample place_full
placed-full now m last d size full there positive inside =
    let fits : ltb last (length (shift_samples m.time_metric)) ≡ true = ground arith in
    let starts : ltb 0 d.start_time ≡ true = ground arith in
    let chosen : place_sample now m ≡ place_full m.sample_size now m =
      rw (place_sample, full) refl in
    let put : place_full (suc last) now m
        ≡ ok (record m { time_metric = set (shift_samples m.time_metric) last (begun now) }) =
      rw (there, place_full, starts, fits) refl in
    chosen ∙ ap (λ k. place_full k now m) size ∙ put

-- A full one drops its first sample.
pub begin-full :
    (now : ℕ) (m : TimeMetric) (x : TimeDistance) (xs : List TimeDistance)
    → IsMetric m
    → m.index ≡ m.sample_size
    → m.time_metric ≡ x ∷ xs
    → (m' : TimeMetric) × (begin_sample now m ≡ ok (length xs, m'))
      × IsBegun m (length xs) (xs ++ (begun now ∷ [])) m'
unfolding place_sample
begin-full now m x xs v full there =
    let size : suc (length xs) ≡ m.sample_size =
      sym (ap (length {A = TimeDistance}) there) ∙ v.sized in
    let all : samples m ≡ x ∷ xs =
      take_all m.index m.time_metric (omega (arith, v.sized, full)) ∙ there in
    let (d, last, positive) = get-last x xs (
      subst (λ ds. All (λ t. 0 < t) (map (λ (d : TimeDistance). d.start_time) ds)) all v.started) in
    let full_test : leb m.sample_size m.index ≡ true = ground arith in
    let there_last : get_elem? m.time_metric (length xs) ≡ some d =
      ap (λ ts. get_elem? ts (length xs)) there ∙ last in
    let put : set (shift_samples m.time_metric) (length xs) (begun now) ≡ xs ++ (begun now ∷ []) =
      ap (λ ts. set (shift_samples ts) (length xs) (begun now)) there
      ∙ shift-put x xs (begun now) in
    let inside : length xs < length (shift_samples m.time_metric) =
      omega (arith, length-shift_samples m.time_metric, v.sized, size) in
    let placed : place_sample now m ≡ ok (record m { time_metric = xs ++ (begun now ∷ []) }) =
      placed-full now m (length xs) d (sym size) full_test there_last positive inside
      ∙ ap (λ ts. ok (record m { time_metric = ts })) put in
    begin-placed now (length xs) m (record m { time_metric = xs ++ (begun now ∷ []) }) placed refl
      (omega (arith, size)) (inr (full, size))

map-append :
    (xs ys : List TimeDistance)
    → map (λ (d : TimeDistance). d.start_time) (xs ++ ys)
      ≡ map (λ (d : TimeDistance). d.start_time) xs ++ map (λ (d : TimeDistance). d.start_time) ys
map-append [] ys = refl
map-append (x ∷ xs) ys = ap (◌∷◌ x.start_time) (map-append xs ys)

pub length-map :
    (xs : List TimeDistance) → length (map (λ (d : TimeDistance). d.start_time) xs) ≡ length xs
length-map [] = refl
length-map (x ∷ xs) = ap suc (length-map xs)

-- The start times once a sample has been begun.
abbrev pub IsAdded : TimeMetric → ℕ → TimeMetric → Type 0
IsAdded m now m' = starts m' ≡ recent m.sample_size (starts m ++ (now ∷ []))

pub IsAdded-room :
    (m m' : TimeMetric) (now : ℕ)
    → IsMetric m
    → m.index < m.sample_size
    → IsBegun m m.index (set m.time_metric m.index (begun now)) m'
    → IsAdded m now m'
IsAdded-room m m' now v room b =
    let held : samples m' ≡ samples m ++ (begun now ∷ []) =
      ap (λ i. take i m'.time_metric) b.index
      ∙ ap (take (suc m.index)) b.holds
      ∙ take-set m.index m.time_metric (begun now) (omega (arith, v.sized, room)) in
    let few : length (starts m ++ (now ∷ [])) ≤ m.sample_size = omega (
      arith,
      length-append (starts m) (now ∷ []),
      length-map (samples m),
      length-take m.index m.time_metric,
      room,
    ) in
    ap (map (λ (d : TimeDistance). d.start_time)) held
    ∙ map-append (samples m) (begun now ∷ [])
    ∙ sym (recent-all m.sample_size (starts m ++ (now ∷ [])) few)

pub IsAdded-full :
    (m m' : TimeMetric) (now : ℕ) (x : TimeDistance) (xs : List TimeDistance)
    → IsMetric m
    → m.index ≡ m.sample_size
    → m.time_metric ≡ x ∷ xs
    → IsBegun m (length xs) (xs ++ (begun now ∷ [])) m'
    → IsAdded m now m'
IsAdded-full m m' now x xs v full there b =
    let start = λ (d : TimeDistance). d.start_time in
    let size : suc (length xs) ≡ m.sample_size =
      sym (ap (length {A = TimeDistance}) there) ∙ v.sized in
    let all : samples m ≡ x ∷ xs =
      take_all m.index m.time_metric (omega (arith, v.sized, full)) ∙ there in
    let held : samples m' ≡ xs ++ (begun now ∷ []) =
      ap (λ i. take i m'.time_metric) b.index
      ∙ ap (take (suc (length xs))) b.holds
      ∙ take_all (suc (length xs)) (xs ++ (begun now ∷ []))
          (omega (arith, length-append xs (begun now ∷ []))) in
    let before : starts m ++ (now ∷ []) ≡ x.start_time ∷ (map start xs ++ (now ∷ [])) =
      ap (λ ds. map start ds ++ (now ∷ [])) all in
    let one : length (starts m ++ (now ∷ [])) - m.sample_size ≡ 1 = omega (
      arith,
      ap (length {A = ℕ}) before,
      length-append (map start xs) (now ∷ []),
      length-map xs,
      size,
    ) in
    ap (map start) held
    ∙ map-append xs (begun now ∷ [])
    ∙ sym (ap (λ n. drop n (starts m ++ (now ∷ []))) one ∙ ap (drop 1) before)
