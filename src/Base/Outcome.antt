-- ===== src/Base/Outcome.antt =====
-- The outcome of a Go call that may panic.
pub data Outcome {ℓ} (A : Type ℓ) : Type ℓ where
  returns : A → Outcome A
  panics : Outcome A
