-- ===== src/Prelude/Decimal.antt =====
-- The decimal digits that `strconv.Itoa` and the verb `%d` print, and names that end in a number.
use Prim.Native.Nat.{ℕ, zero, suc, ◌+◌, ◌-◌, ◌*◌, ◌/◌, ◌%◌, ◌≤◌, ◌<◌}
use mathlib.Core.Path.{◌≡◌, ap, sym, ◌∙◌, subst}
use mathlib.Core.Bool.{true, false}
use mathlib.Core.List.{[], ◌∷◌, ◌++◌}
use native.Mathlib.Omega.{arith}
use carrier.Prelude.Equality.{Bytes}
use carrier.Prelude.Lists.{All}
use carrier.Prelude.Tests.{ltb}

unfoldable digits : ℕ → ℕ → Bytes → Bytes
digits zero n acc = acc
digits (suc fuel) n acc = elim (ltb n 10) [
  | true ↦ (48 + n) ∷ acc
  | false ↦ digits fuel (n / 10) ((48 + n % 10) ∷ acc)
]

-- One more unit of fuel than the number: each digit divides it by ten.
unfoldable pub decimal : ℕ → Bytes
unfolding digits
decimal n = digits (suc n) n []

abbrev IsDigit : ℕ → Type 0
IsDigit d = (48 ≤ d) × (d < 58)

value_from : ℕ → Bytes → ℕ
value_from a [] = a
value_from a (d ∷ ds) = value_from (a * 10 + (d - 48)) ds

value-digits :
    (fuel n : ℕ) (acc : Bytes) → n < fuel → value_from 0 (digits fuel n acc) ≡ value_from n acc
unfolding digits value_from
value-digits zero n acc h = ground arith
value-digits (suc fuel) n acc h = ground (arith, value-digits fuel (n / 10) ((48 + n % 10) ∷ acc))

digits-All : (fuel n : ℕ) (acc : Bytes) → All IsDigit acc → All IsDigit (digits fuel n acc)
unfolding digits
digits-All zero n acc h = h
digits-All (suc fuel) n acc h = ground (arith, digits-All fuel (n / 10) ((48 + n % 10) ∷ acc))

-- A name and a number after a colon: the last colon tells them apart.
abbrev pub numbered : Bytes → ℕ → Bytes
numbered name n = name ++ 58 ∷ decimal n

pub decimal-injective : (n k : ℕ) → decimal n ≡ decimal k → n ≡ k
unfolding decimal value_from
decimal-injective n k h =
    sym (value-digits (suc n) n [] (omega arith))
    ∙ ap (value_from 0) h
    ∙ value-digits (suc k) k [] (omega arith)

decimal-All : (n : ℕ) → All IsDigit (decimal n)
unfolding decimal
decimal-All n = digits-All (suc n) n [] tt

colon-not_digits : (b ys : Bytes) → All IsDigit (b ++ 58 ∷ ys) → ⊥
colon-not_digits [] ys h = omega (arith, h.0)
colon-not_digits (x ∷ b) ys h = colon-not_digits b ys h.1

colon-cancel :
    (a b xs ys : Bytes) → All IsDigit xs → All IsDigit ys → a ++ 58 ∷ xs ≡ b ++ 58 ∷ ys → xs ≡ ys
colon-cancel [] [] xs ys p q h = cc
colon-cancel [] (y ∷ b) xs ys p q h =
    absurd (colon-not_digits b ys (subst (All IsDigit) (ground arith) p))
colon-cancel (x ∷ a) [] xs ys p q h =
    absurd (colon-not_digits a xs (subst (All IsDigit) (ground arith) q))
colon-cancel (x ∷ a) (y ∷ b) xs ys p q h = colon-cancel a b xs ys p q (ground arith)

pub numbered-injective : (a b : Bytes) (n k : ℕ) → numbered a n ≡ numbered b k → n ≡ k
numbered-injective a b n k h =
    decimal-injective n k
      (colon-cancel a b (decimal n) (decimal k) (decimal-All n) (decimal-All k) h)
