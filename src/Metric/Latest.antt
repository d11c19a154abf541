-- ===== src/Metric/Latest.antt =====
-- network/components/metric/component.go: the start times of the samples are the latest.
use carrier.Prelude.{
  ℕ, zero, suc, ◌+◌, ◌-◌, ◌≤◌, ◌≡◌, refl, ap, sym, ◌∙◌, arith, List, [], ◌∷◌, ◌++◌, length, drop,
  length-append, length-drop,
}

-- The last `size` items of a list.
abbrev pub recent : ℕ → List ℕ → List ℕ
recent size ts = drop (length ts - size) ts

drop-append_le : (n : ℕ) (xs ys : List ℕ) → n ≤ length xs → drop n (xs ++ ys) ≡ drop n xs ++ ys
drop-append_le zero xs ys h = refl
drop-append_le (suc n) [] ys h = absurd (omega arith)
drop-append_le (suc n) (x ∷ xs) ys h = drop-append_le n xs ys (omega arith)

drop_nil : (n : ℕ) → drop {A = ℕ} n [] ≡ []
drop_nil zero = refl
drop_nil (suc n) = refl

drop-drop : (n k : ℕ) (xs : List ℕ) → drop n (drop k xs) ≡ drop (k + n) xs
drop-drop n zero xs = ap (λ i. drop i xs) (omega arith)
drop-drop n (suc k) [] = let e : suc k + n ≡ suc (k + n) = omega arith in rw e (drop_nil n)
drop-drop n (suc k) (x ∷ xs) =
    let e : suc k + n ≡ suc (k + n) = omega arith in rw e (drop-drop n k xs)

pub recent-append :
    (size : ℕ) (xs ys : List ℕ) → recent size (recent size xs ++ ys) ≡ recent size (xs ++ ys)
recent-append size xs ys =
    let k = length xs - size in
    let joined : recent size xs ++ ys ≡ drop k (xs ++ ys) =
      sym (drop-append_le k xs ys (omega arith)) in
    let left : length (drop k xs ++ ys) ≡ length xs - k + length ys =
      length-append (drop k xs) ys ∙ ap (λ n. n + length ys) (length-drop k xs) in
    let count : k + (length (drop k xs ++ ys) - size) ≡ length (xs ++ ys) - size =
      omega (arith, left, length-append xs ys) in
    ap (drop (length (drop k xs ++ ys) - size)) joined
    ∙ drop-drop (length (drop k xs ++ ys) - size) k (xs ++ ys)
    ∙ ap (λ n. drop n (xs ++ ys)) count

pub recent-all : (size : ℕ) (xs : List ℕ) → length xs ≤ size → recent size xs ≡ xs
recent-all size xs h = let e : length xs - size ≡ 0 = omega arith in rw e refl
