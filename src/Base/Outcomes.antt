-- ===== src/Base/Outcomes.antt =====
-- How a run on a bounded number of rounds ends.

-- With a result; at a read or a write out of bounds; or with no round left.
pub data Outcome {ℓ} (A : Type ℓ) : Type ℓ where
  done : A → Outcome A
  out_of_bounds : Outcome A
  out_of_rounds : Outcome A
