-- ===== src/Peer/LeadingZeros.antt =====
-- The number of leading zeros of a byte, as bounds on the byte.
use carrier.Prelude.{ℕ, zero, suc, ◌-◌, ◌^◌, ◌/◌, ◌≤◌, ◌<◌, ◌≡◌, ◌≢◌, arith, bit_xor}
use carrier.Prelude.Words.{IsByte}
use carrier.Prelude.Xor.{xor_step, xor_assoc, xor_self, xor-zero, xor-lt-pow}
use native.Mathlib.Nat.{pow-suc}
use native.Mathlib.Decide.{dec_lt}
use carrier.Peer.Identity.{leading_zeros8}

-- Two numbers with the same highest digit have an exclusive or without that digit.
xor-top : (n a b : ℕ) → 2 ^ n ≤ a → a < 2 ^ suc n → 2 ^ n ≤ b → b < 2 ^ suc n → bit_xor a b < 2 ^ n
xor-top zero a b p q r s =
    let ea : a ≡ 1 = omega arith in
    let eb : b ≡ 1 = omega arith in
    let none_left : bit_xor a b ≡ 0 = rw (ea, eb) (xor_self 1) in omega (arith, none_left)
xor-top (suc n) a b p q r s = omega (
  arith,
  xor_step a b,
  pow-suc 2 n,
  pow-suc 2 (suc n),
  xor-top n (a / 2) (b / 2) (omega (arith, pow-suc 2 n)) (omega (arith, pow-suc 2 (suc n)))
      (omega (arith, pow-suc 2 n)) (omega (arith, pow-suc 2 (suc n))),
)

pub leading_zeros8-le : (x : ℕ) → leading_zeros8 x ≤ 8
unfolding leading_zeros8
leading_zeros8-le x = ground arith

pub leading_zeros8_pos : (x : ℕ) → x ≢ 0 → leading_zeros8 x < 8
unfolding leading_zeros8
leading_zeros8_pos x h = ground arith

pub leading_zeros8_zero : (x : ℕ) → x ≡ 0 → leading_zeros8 x ≡ 8
unfolding leading_zeros8
leading_zeros8_zero x h = ground arith

at : (k x : ℕ) → k < 8 → x < 256 → leading_zeros8 x ≡ k → (2 ^ (7 - k) ≤ x) × (x < 2 ^ suc (7 - k))
unfolding leading_zeros8
at zero x l b h = ground arith
at (suc zero) x l b h = ground arith
at (suc (suc zero)) x l b h = ground arith
at (suc (suc (suc zero))) x l b h = ground arith
at (suc (suc (suc (suc zero)))) x l b h = ground arith
at (suc (suc (suc (suc (suc zero))))) x l b h = ground arith
at (suc (suc (suc (suc (suc (suc zero)))))) x l b h = ground arith
at (suc (suc (suc (suc (suc (suc (suc zero))))))) x l b h = ground arith
at (suc (suc (suc (suc (suc (suc (suc (suc k)))))))) x l b h = absurd (omega arith)

at_conv : (k x : ℕ) → k < 8 → 2 ^ (7 - k) ≤ x → x < 2 ^ suc (7 - k) → leading_zeros8 x ≡ k
unfolding leading_zeros8
at_conv zero x l p q = ground arith
at_conv (suc zero) x l p q = ground arith
at_conv (suc (suc zero)) x l p q = ground arith
at_conv (suc (suc (suc zero))) x l p q = ground arith
at_conv (suc (suc (suc (suc zero)))) x l p q = ground arith
at_conv (suc (suc (suc (suc (suc zero))))) x l p q = ground arith
at_conv (suc (suc (suc (suc (suc (suc zero)))))) x l p q = ground arith
at_conv (suc (suc (suc (suc (suc (suc (suc zero))))))) x l p q = ground arith
at_conv (suc (suc (suc (suc (suc (suc (suc (suc k)))))))) x l p q = absurd (omega arith)

above : (k x : ℕ) → k < 8 → k < leading_zeros8 x → x < 2 ^ (7 - k)
unfolding leading_zeros8
above zero x l h = ground arith
above (suc zero) x l h = ground arith
above (suc (suc zero)) x l h = ground arith
above (suc (suc (suc zero))) x l h = ground arith
above (suc (suc (suc (suc zero)))) x l h = ground arith
above (suc (suc (suc (suc (suc zero))))) x l h = ground arith
above (suc (suc (suc (suc (suc (suc zero)))))) x l h = ground arith
above (suc (suc (suc (suc (suc (suc (suc zero))))))) x l h = ground arith
above (suc (suc (suc (suc (suc (suc (suc (suc k)))))))) x l h = absurd (omega arith)

above_conv : (k x : ℕ) → k < 8 → x < 2 ^ (7 - k) → k < leading_zeros8 x
unfolding leading_zeros8
above_conv zero x l h = ground arith
above_conv (suc zero) x l h = ground arith
above_conv (suc (suc zero)) x l h = ground arith
above_conv (suc (suc (suc zero))) x l h = ground arith
above_conv (suc (suc (suc (suc zero)))) x l h = ground arith
above_conv (suc (suc (suc (suc (suc zero))))) x l h = ground arith
above_conv (suc (suc (suc (suc (suc (suc zero)))))) x l h = ground arith
above_conv (suc (suc (suc (suc (suc (suc (suc zero))))))) x l h = ground arith
above_conv (suc (suc (suc (suc (suc (suc (suc (suc k)))))))) x l h = absurd (omega arith)

xor_again : (x y : ℕ) → bit_xor (bit_xor x y) y ≡ x
xor_again x y = cc (xor_assoc x y y, xor_self y, xor-zero x)

-- The byte with fewer leading zeros decides those of the exclusive or.
pub leading_zeros8-xor_lt :
    (x y : ℕ)
    → IsByte x
    → leading_zeros8 x < leading_zeros8 y
    → leading_zeros8 (bit_xor x y) ≡ leading_zeros8 x
leading_zeros8-xor_lt x y bx h =
    let k = leading_zeros8 x in
    let small : k < 8 = omega (arith, leading_zeros8-le y) in
    let own = at k x small bx (omega arith) in
    let other = above k y small h in
    let wide : 2 ^ (7 - k) < 2 ^ suc (7 - k) = omega (arith, own) in
    let low : 2 ^ (7 - k) ≤ bit_xor x y = elim (dec_lt (bit_xor x y) (2 ^ (7 - k))) [
      | yes p ↦ absurd (omega (arith, xor-lt-pow (7 - k) (bit_xor x y) y p other, xor_again x y))
      | no p ↦ omega arith
    ] in
    at_conv k (bit_xor x y) small low (xor-lt-pow (suc (7 - k)) x y own.1 (omega arith))

-- Two bytes that are not 0, with as many leading zeros, have an exclusive or with more of them.
pub leading_zeros8-xor_eq :
    (x y : ℕ)
    → IsByte x
    → IsByte y
    → x ≢ 0
    → leading_zeros8 x ≡ leading_zeros8 y
    → leading_zeros8 x < leading_zeros8 (bit_xor x y)
leading_zeros8-xor_eq x y bx by ne h =
    let k = leading_zeros8 x in
    let small : k < 8 = leading_zeros8_pos x ne in
    let own = at k x small bx (omega arith) in
    let other = at k y small by (omega arith) in
    above_conv k (bit_xor x y) small (xor-top (7 - k) x y own.0 own.1 other.0 other.1)

pub lt_of_leading_zeros8 : (x y : ℕ) → IsByte x → leading_zeros8 y < leading_zeros8 x → x < y
unfolding leading_zeros8
lt_of_leading_zeros8 x y bx h = ground arith
