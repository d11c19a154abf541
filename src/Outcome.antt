-- ===== src/Outcome.antt =====
-- What a Go call can do besides returning: a failed call returns an error value, and a nil
-- dereference, an index out of range or an explicit `panic` stops it.

pub data Outcome {ℓ} (A : Type ℓ) : Type ℓ where
  ok : A → Outcome A
  panic : Outcome A
