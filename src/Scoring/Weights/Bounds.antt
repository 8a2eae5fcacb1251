-- ===== src/Scoring/Weights/Bounds.antt =====
-- The range of the weights and the number of the uids.
use gm_validator.Prelude.{ℕ, ◌≤◌, List, [], ◌∷◌, All, ◌≡◌, arith, sum, length}
use gm_validator.Prelude.Dict.{Dict}
use gm_validator.Decimal.{Decimal}
use gm_validator.Errors.{ok}
use gm_validator.Metrics.{Metrics}
use gm_validator.Summary.{EpochSummary}
use gm_validator.Scoring.Rows.{Scores}
use gm_validator.Scoring.Weights.{WeightVector, compute_weights}
use gm_validator.Scoring.Weights.Vector.{compute_weights-IsSound}

-- A positive number of a list is at most the sum, and so is the length of a list of them.
positive_bounds :
    (n : ℕ) (ws : List ℕ)
    → All (λ w. 1 ≤ w) ws
    → sum ws ≤ n
    → All (λ (w : ℕ). (1 ≤ w) × (w ≤ n)) ws × (length ws ≤ n)
positive_bounds n [] h l = (tt, omega arith)
positive_bounds n (w ∷ ws) (h, hs) l =
    let (rest, _) = positive_bounds n ws hs (omega (arith, l)) in
    let (_, short) = positive_bounds (sum ws) ws hs (omega arith) in
    (((h, omega (arith, l)), rest), omega (arith, h, l, short))

some_weight : (ws us : List ℕ) → sum ws ≡ 65535 → length us ≡ length ws → 1 ≤ length us
some_weight [] us h e = cc
some_weight (w ∷ ws) us h e = omega (arith, e)

-- Each weight that `compute_weights` returns is from 1 to 65535, and so is the number of uids.
pub compute_weights_bounds :
    (scores : Scores) (uid_lookup : Dict ℕ) (summary : EpochSummary) (owner : ℕ)
    (multiplier : Decimal) (m : Metrics) (v : WeightVector)
    → (compute_weights scores uid_lookup summary owner multiplier m).1 ≡ ok v
    → All (λ (w : ℕ). (1 ≤ w) × (w ≤ 65535)) v.weights
      × (1 ≤ length v.uids)
      × (length v.uids ≤ 65535)
compute_weights_bounds scores uid_lookup summary owner multiplier m v h =
    let (fine, _, _) = compute_weights-IsSound scores uid_lookup summary owner multiplier m v h in
    let (each, short) = positive_bounds 65535 v.weights (fine.paid) (omega (arith, fine.whole)) in
    (
      each,
      some_weight v.weights v.uids (fine.whole) (fine.aligned),
      omega (arith, fine.aligned, short),
    )
