-- ===== src/Wire/Result.antt =====
-- A Go call that returns a value or one of its errors.
use carrier.Prelude.{◌≡◌, refl}

pub data Result {ℓ} (E A : Type ℓ) : Type ℓ where
  ok : A → Result E A
  err : E → Result E A

infixl 5 ◌>>=◌
abbrev pub ◌>>=◌ {ℓ} :
    {Problem A B : Type ℓ} → Result Problem A → (A → Result Problem B) → Result Problem B
err problem >>= next = err problem
ok value >>= next = next value

-- A chain that succeeds, taken apart.
pub >>=-eq-ok {ℓ} :
    {Problem A B : Type ℓ} (call : Result Problem A) (next : A → Result Problem B) {result : B}
    → (call >>= next) ≡ ok result
    → (value : A) × (call ≡ ok value) × (next value ≡ ok result)
>>=-eq-ok (err problem) next chain = cc
>>=-eq-ok (ok value) next chain = (value, refl, chain)
