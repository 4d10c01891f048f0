-- ===== src/Base/Run.antt =====
-- A loop that ran out of fuel, a panic, or a result.
pub data Run {ℓ} (A : Type ℓ) : Type ℓ where
  stuck panic : Run A
  done : A → Run A
