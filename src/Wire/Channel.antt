-- ===== src/Wire/Channel.antt =====
-- network/stream.go: the loops that read from and write to a connection. A connection that is read
-- is the list of the segments that have arrived or will; a `Read` takes from the first one, and
-- fails when there is none. A writer is the list of its answers to the next calls.
use carrier.Prelude.{
  ℕ, zero, suc, ◌-◌, ◌≤◌, ◌<◌, ◌≡◌, refl, ap, sym, ◌∙◌, arith, true, List, [], ◌∷◌, ◌++◌, Option,
  none, some, Bytes, leb, if◌then◌else◌, length, take, drop, Bool-cases, inl, inr, length-append,
  take-append, drop-append,
}

abbrev pub Conn : Type 0
Conn = List Bytes

-- All bytes that the connection delivers.
abbrev pub content : Conn → Bytes
content [] = []
content (s ∷ c) = s ++ content c

abbrev pub prepend : Bytes → Option (Bytes × Conn) → Option (Bytes × Conn)
prepend s none = none
prepend s (some (rest, c)) = some (s ++ rest, c)

-- `for total < size && err == nil { n, err = conn.Read(buffer[total:]); total += n }`
unfoldable pub read_exact : ℕ → Conn → Option (Bytes × Conn)
read_exact zero c = some ([], c)
read_exact (suc n) [] = none
read_exact (suc n) (s ∷ c) =
    let rest = read_exact (suc n - length s) c in
    if leb (length s) (suc n) then prepend s rest else some (take (suc n) s, drop (suc n) s ∷ c)

take-append_le {ℓ} :
    {A : Type ℓ} (n : ℕ) (xs ys : List A) → n ≤ length xs → take n (xs ++ ys) ≡ take n xs
take-append_le zero xs ys h = refl
take-append_le (suc n) [] ys h = absurd (omega arith)
take-append_le (suc n) (x ∷ xs) ys h = ap (◌∷◌ x) (take-append_le n xs ys (omega arith))

drop-append_le {ℓ} :
    {A : Type ℓ} (n : ℕ) (xs ys : List A) → n ≤ length xs → drop n (xs ++ ys) ≡ drop n xs ++ ys
drop-append_le zero xs ys h = refl
drop-append_le (suc n) [] ys h = absurd (omega arith)
drop-append_le (suc n) (x ∷ xs) ys h = drop-append_le n xs ys (omega arith)

take-append_ge {ℓ} :
    {A : Type ℓ} (n : ℕ) (xs ys : List A)
    → length xs ≤ n
    → take n (xs ++ ys) ≡ xs ++ take (n - length xs) ys
take-append_ge n [] ys h = ap (λ k. take k ys) (omega arith)
take-append_ge zero (x ∷ xs) ys h = absurd (omega arith)
take-append_ge (suc n) (x ∷ xs) ys h =
    ap (◌∷◌ x) (take-append_ge n xs ys (omega arith) ∙ ap (λ k. xs ++ take k ys) (omega arith))

drop-append_ge {ℓ} :
    {A : Type ℓ} (n : ℕ) (xs ys : List A)
    → length xs ≤ n
    → drop n (xs ++ ys) ≡ drop (n - length xs) ys
drop-append_ge n [] ys h = ap (λ k. drop k ys) (omega arith)
drop-append_ge zero (x ∷ xs) ys h = absurd (omega arith)
drop-append_ge (suc n) (x ∷ xs) ys h =
    drop-append_ge n xs ys (omega arith) ∙ ap (λ k. drop k ys) (omega arith)

-- However the bytes are cut into segments, the loop reads the first `n` of them and leaves the
-- others.
pub read_exact_enough :
    (n : ℕ) (c : Conn)
    → n ≤ length (content c)
    → (c' : Conn) × (read_exact n c ≡ some (take n (content c), c'))
      × (content c' ≡ drop n (content c))
unfolding read_exact
read_exact_enough zero c h = (c, refl, refl)
read_exact_enough (suc n) [] h = absurd (omega arith)
read_exact_enough (suc n) (s ∷ c) h = elim (Bool-cases (leb (length s) (suc n))) [
  | inl whole ↦
      let l : length s ≤ suc n = ground arith in
      let (c', e, rest) =
        read_exact_enough (suc n - length s) c (omega (arith, length-append s (content c))) in
      (
        c',
        rw (whole, e, take-append_ge (suc n) s (content c) l),
        rest ∙ sym (drop-append_ge (suc n) s (content c) l),
      )
  | inr part ↦
      let l : suc n ≤ length s = ground arith in
      (
        drop (suc n) s ∷ c,
        rw (part, take-append_le (suc n) s (content c) l),
        sym (drop-append_le (suc n) s (content c) l),
      )
]

-- It fails where there are fewer.
pub read_exact_short : (n : ℕ) (c : Conn) → length (content c) < n → read_exact n c ≡ none
unfolding read_exact
read_exact_short zero c h = absurd (omega arith)
read_exact_short (suc n) [] h = refl
read_exact_short (suc n) (s ∷ c) h =
    let total = length-append s (content c) in
    let whole : leb (length s) (suc n) ≡ true = ground arith in
    rw (whole, read_exact_short (suc n - length s) c (omega arith))

-- A connection that starts with these bytes.
pub read_exact_prefix :
    (xs ys : Bytes) (c : Conn)
    → content c ≡ xs ++ ys
    → (c' : Conn) × (read_exact (length xs) c ≡ some (xs, c')) × (content c' ≡ ys)
read_exact_prefix xs ys c h =
    let (c', e, rest) =
      read_exact_enough (length xs) c (omega (arith, ap (length {A = ℕ}) h, length-append xs ys)) in
    (
      c',
      e ∙ ap (λ b. some (b, c')) (ap (take (length xs)) h ∙ take-append xs ys),
      rest ∙ ap (drop (length xs)) h ∙ drop-append xs ys,
    )
