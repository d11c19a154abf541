-- ===== src/Peer/Distance.antt =====
-- peer/identity.go: the XOR metric behind `XorID`, `PrefixLen` and `Less`.
use carrier.Prelude.{
  ℕ, zero, suc, ◌+◌, ◌-◌, ◌*◌, ◌≤◌, ◌<◌, ◌≡◌, refl, ap, ap₂, [], ◌∷◌, if◌then◌else◌, ltb, nat_beq,
  arith, Bytes, bit_xor, length, min, none, some,
}
use carrier.Prelude.Words.{IsBytes}
use carrier.Prelude.Xor.{
  xor_comm, xor_self, xor_cancel, xor-zero, xor-lt-pow, eq_of_xor-zero, zero-xor,
}
use carrier.Peer.LeadingZeros.{
  leading_zeros8-le, leading_zeros8_pos, leading_zeros8_zero, leading_zeros8-xor_lt,
  leading_zeros8-xor_eq, lt_of_leading_zeros8,
}
use carrier.Peer.Identity.{
  PeerId, pos, leading_zeros8, first_bit, minus_one, prefix_len, xor_bytes, compare_bytes, less,
}

-- The number of zero bits in front, of all bytes taken as one bit string.
unfoldable pub zeros : Bytes → ℕ
zeros [] = 0
zeros (b ∷ bs) = let rest = zeros bs in if nat_beq b 0 then 8 + rest else leading_zeros8 b

pub zeros-le : (bs : Bytes) → zeros bs ≤ length bs * 8
unfolding zeros
zeros-le [] = omega arith
zeros-le (b ∷ bs) = ground (arith, zeros-le bs, leading_zeros8-le b)

first_bit_cases :
    (i : ℕ) (bs : Bytes)
    → first_bit i bs ≡ (if ltb (zeros bs) (length bs * 8) then some (i * 8 + zeros bs) else none)
unfolding first_bit zeros
first_bit_cases i [] = refl
first_bit_cases i (b ∷ bs) =
    ground (arith, first_bit_cases (suc i) bs, leading_zeros8_pos b, zeros-le bs)

minus_one_pos : (n : ℕ) → 0 < n → minus_one n ≡ pos (n - 1)
unfolding minus_one
minus_one_pos zero h = absurd (omega arith)
minus_one_pos (suc n) h = ap pos (omega arith)

-- The bucket of a distance: its leading zeros, and the last bucket for the distance 0.
pub prefix_len-zeros :
    (a : PeerId) → 0 < length a.id → prefix_len a ≡ pos (min (zeros a.id) (length a.id * 8 - 1))
unfolding prefix_len
prefix_len-zeros a h =
    ground (arith, first_bit_cases 0 a.id, zeros-le a.id, minus_one_pos (length a.id * 8))

pub length-xor_bytes : (xs ys : Bytes) → length (xor_bytes xs ys) ≡ length xs
unfolding xor_bytes
length-xor_bytes [] ys = refl
length-xor_bytes (x ∷ xs) [] = ap suc (length-xor_bytes xs [])
length-xor_bytes (x ∷ xs) (y ∷ ys) = ap suc (length-xor_bytes xs ys)

pub xor_bytes-IsBytes : (xs ys : Bytes) → IsBytes xs → IsBytes ys → IsBytes (xor_bytes xs ys)
unfolding xor_bytes
xor_bytes-IsBytes [] ys p q = tt
xor_bytes-IsBytes (x ∷ xs) [] p q = (omega arith, xor_bytes-IsBytes xs [] p.1 tt)
xor_bytes-IsBytes (x ∷ xs) (y ∷ ys) p q =
    (xor-lt-pow 8 x y p.0 q.0, xor_bytes-IsBytes xs ys p.1 q.1)

pub xor_bytes_comm : (xs ys : Bytes) → length xs ≡ length ys → xor_bytes xs ys ≡ xor_bytes ys xs
unfolding xor_bytes
xor_bytes_comm [] [] h = refl
xor_bytes_comm [] (y ∷ ys) h = absurd (omega arith)
xor_bytes_comm (x ∷ xs) [] h = absurd (omega arith)
xor_bytes_comm (x ∷ xs) (y ∷ ys) h = ap₂ ◌∷◌ (xor_comm x y) (xor_bytes_comm xs ys (omega arith))

-- The distance between two keys is that between their distances to a third one.
pub xor_bytes_cancel :
    (xs ys ss : Bytes)
    → length xs ≡ length ss
    → length ys ≡ length ss
    → xor_bytes (xor_bytes xs ss) (xor_bytes ys ss) ≡ xor_bytes xs ys
unfolding xor_bytes
xor_bytes_cancel [] [] [] p q = refl
xor_bytes_cancel (x ∷ xs) (y ∷ ys) (s ∷ ss) p q =
    ap₂ ◌∷◌ (xor_cancel x y s) (xor_bytes_cancel xs ys ss (omega arith) (omega arith))
xor_bytes_cancel [] ys (s ∷ ss) p q = absurd (omega arith)
xor_bytes_cancel (x ∷ xs) ys [] p q = absurd (omega arith)
xor_bytes_cancel [] (y ∷ ys) [] p q = absurd (omega arith)
xor_bytes_cancel (x ∷ xs) [] (s ∷ ss) p q = absurd (omega arith)

-- The shorter common prefix decides.
pub zeros-xor_lt :
    (xs ys : Bytes)
    → length xs ≡ length ys
    → IsBytes xs
    → IsBytes ys
    → zeros xs < zeros ys
    → zeros (xor_bytes xs ys) ≡ zeros xs
unfolding zeros xor_bytes
zeros-xor_lt [] [] e p q h = absurd (omega arith)
zeros-xor_lt [] (y ∷ ys) e p q h = absurd (omega arith)
zeros-xor_lt (x ∷ xs) [] e p q h = absurd (omega arith)
zeros-xor_lt (x ∷ xs) (y ∷ ys) e p q h = ground (
  arith,
  leading_zeros8-le x,
  leading_zeros8-le y,
  leading_zeros8_pos x,
  leading_zeros8_pos y,
  leading_zeros8_zero x,
  leading_zeros8_zero y,
  leading_zeros8_zero (bit_xor x y),
  leading_zeros8_pos (bit_xor x y),
  zero-xor y,
  xor-zero x,
  xor_self x,
  eq_of_xor-zero x y,
  leading_zeros8-xor_lt x y,
  zeros-xor_lt xs ys,
)

-- Two distances that start at the same bit differ from one another only behind it.
pub zeros-xor_eq :
    (xs ys : Bytes)
    → length xs ≡ length ys
    → IsBytes xs
    → IsBytes ys
    → zeros xs ≡ zeros ys
    → zeros xs < length xs * 8
    → zeros xs < zeros (xor_bytes xs ys)
unfolding zeros xor_bytes
zeros-xor_eq [] ys e p q h l = absurd (omega arith)
zeros-xor_eq (x ∷ xs) [] e p q h l = absurd (omega arith)
zeros-xor_eq (x ∷ xs) (y ∷ ys) e p q h l = ground (
  arith,
  leading_zeros8-le x,
  leading_zeros8-le y,
  leading_zeros8_pos x,
  leading_zeros8_pos y,
  leading_zeros8_zero x,
  leading_zeros8_zero y,
  leading_zeros8_zero (bit_xor x y),
  leading_zeros8_pos (bit_xor x y),
  zero-xor y,
  xor-zero x,
  xor_self x,
  eq_of_xor-zero x y,
  leading_zeros8-xor_eq x y,
  zeros-xor_eq xs ys,
)

-- A distance with more leading zeros is less.
pub compare_bytes-zeros :
    (xs ys : Bytes)
    → length xs ≡ length ys
    → IsBytes xs
    → IsBytes ys
    → zeros ys < zeros xs
    → compare_bytes xs ys ≡ less
unfolding zeros compare_bytes
compare_bytes-zeros [] ys e p q h = absurd (omega arith)
compare_bytes-zeros (x ∷ xs) [] e p q h = absurd (omega arith)
compare_bytes-zeros (x ∷ xs) (y ∷ ys) e p q h = ground (
  arith,
  leading_zeros8-le x,
  leading_zeros8-le y,
  leading_zeros8_pos x,
  leading_zeros8_pos y,
  leading_zeros8_zero x,
  leading_zeros8_zero y,
  lt_of_leading_zeros8 x y,
  compare_bytes-zeros xs ys,
)

-- The leading zeros that two distances share stay.
pub zeros-xor_min :
    (xs ys : Bytes)
    → length xs ≡ length ys
    → IsBytes xs
    → IsBytes ys
    → min (zeros xs) (zeros ys) ≤ zeros (xor_bytes xs ys)
unfolding zeros xor_bytes
zeros-xor_min [] ys e p q = omega arith
zeros-xor_min (x ∷ xs) [] e p q = absurd (omega arith)
zeros-xor_min (x ∷ xs) (y ∷ ys) e p q = ground (
  arith,
  leading_zeros8-le x,
  leading_zeros8-le y,
  leading_zeros8_pos x,
  leading_zeros8_pos y,
  leading_zeros8_zero x,
  leading_zeros8_zero y,
  leading_zeros8_zero (bit_xor x y),
  leading_zeros8_pos (bit_xor x y),
  zero-xor y,
  xor-zero x,
  xor_comm x y,
  leading_zeros8-xor_eq x y,
  leading_zeros8-xor_lt x y,
  leading_zeros8-xor_lt y x,
  zeros-xor_min xs ys,
)
