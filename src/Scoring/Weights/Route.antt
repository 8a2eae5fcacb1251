-- ===== src/Scoring/Weights/Route.antt =====
-- What `route` returns.
use gm_validator.Prelude.{
  ℕ, suc, ◌≤◌, ◌<◌, Option, some, List, [], ◌∷◌, length, sum, All, ◌≡◌, refl, sym, ap, ◌∙◌, inl,
  inr, arith, Bool-cases, ltb, ltb→lt, ltb→le,
}
use gm_validator.Prelude.Dict.{Dict}
use gm_validator.Errors.{Result, ok, raised, value_error, ok_injective}
use gm_validator.Metrics.{Metrics}
use gm_validator.Economics.Epoch.{EpochWeightsResult}
use gm_validator.Economics.Water.{Entry, total}
use gm_validator.Economics.Water.Floor.{IsFloored, uids_of}
use gm_validator.Economics.Normalize.{max_weight, positive_shares, weights_of}
use gm_validator.Economics.Normalize.Budget.{
  IsFull, IsPayout, normalize_weights-IsPayout, normalize_weights_over,
}
use gm_validator.Scoring.Rows.{Scores}
use gm_validator.Scoring.Weights.Known.{IsPayable, payout-IsPayable}
use gm_validator.Scoring.Weights.{
  WeightVector, uids_by_index, miner_pairs, full_demand_total, route,
}

-- The vector spends the whole budget, and pays each uid on it 1 unit at least.
pub record IsSubmittable (v : WeightVector) : Type 0 where
  pub whole : sum v.weights ≡ max_weight
  pub paid : All (λ w. 1 ≤ w) v.weights
  pub aligned : length v.uids ≡ length v.weights

sum-weights_of : (es : List Entry) → sum (weights_of es) ≡ total es
sum-weights_of [] = refl
sum-weights_of (e ∷ es) = omega (arith, sum-weights_of es)

All-weights_of : (es : List Entry) → IsFloored es → All (λ w. 1 ≤ w) (weights_of es)
All-weights_of [] f = tt
All-weights_of (e ∷ es) (f, fs) = (f, All-weights_of es fs)

length-uids_of : (es : List Entry) → length (uids_of es) ≡ length (weights_of es)
length-uids_of [] = refl
length-uids_of (e ∷ es) = ap suc (length-uids_of es)

-- The vector that a list of entries becomes.
abbrev pub vector_of : ℕ → EpochWeightsResult → List Entry → WeightVector
vector_of burn result es = record {
  uids = uids_of es;
  weights = weights_of es;
  burn_uid = burn;
  epoch_result = result;
}

vector_of-IsSubmittable :
    (burn : ℕ) (result : EpochWeightsResult) (es : List Entry)
    → IsFull es
    → IsSubmittable (vector_of burn result es)
vector_of-IsSubmittable burn result es f = record {
  whole = sum-weights_of es ∙ f.whole;
  paid = All-weights_of es f.floored;
  aligned = length-uids_of es;
}

-- The outcome of `route`, when there are units enough: the vector of a payout.
pub route-IsPayout :
    (uids : List (Option ℕ)) (owner : ℕ) (result : EpochWeightsResult) (m : Metrics)
    → length (positive_shares (miner_pairs result.miners uids)) ≤ max_weight
    → (es : List Entry) × ((route uids owner (ok result) m).1 ≡ ok (vector_of owner result es))
      × IsPayout owner (positive_shares (miner_pairs result.miners uids)) es
unfolding route
route-IsPayout uids owner result m h =
    let (es, e, p) =
      normalize_weights-IsPayout (miner_pairs result.miners uids) owner
        (some (full_demand_total result)) m h in
    (es, rw e, p)

route_over :
    (uids : List (Option ℕ)) (owner : ℕ) (result : EpochWeightsResult) (m : Metrics)
    → max_weight < length (positive_shares (miner_pairs result.miners uids))
    → (route uids owner (ok result) m).1 ≡ raised value_error
unfolding route
route_over uids owner result m h = rw (
    normalize_weights_over (miner_pairs result.miners uids) owner (some (full_demand_total result))
      m h)

-- A vector that the validator may submit: full, and for known uids and the owner only.
abbrev pub IsSound : Dict ℕ → ℕ → WeightVector → Type 0
IsSound uid_lookup owner v =
    IsSubmittable v × All (IsPayable uid_lookup owner) v.uids × (v.burn_uid ≡ owner)

-- What `route` returns was made from a payout.
abbrev pub IsRouted : List (Option ℕ) → ℕ → WeightVector → Type 0
IsRouted uids owner v =
    (result : EpochWeightsResult) × (es : List Entry) × (v ≡ vector_of owner result es)
    × IsPayout owner (positive_shares (miner_pairs result.miners uids)) es

pub route-IsRouted :
    (uids : List (Option ℕ)) (owner : ℕ) (r : Result EpochWeightsResult) (m : Metrics)
    (v : WeightVector)
    → (route uids owner r m).1 ≡ ok v
    → IsRouted uids owner v
route-IsRouted uids owner (raised e) m v h = unfold route in cc
route-IsRouted uids owner (ok result) m v h =
    let pairs = positive_shares (miner_pairs result.miners uids) in
    elim (Bool-cases (ltb max_weight (length pairs))) [
      | inl over ↦ cc (route_over uids owner result m (ltb→lt _ _ over))
      | inr fits ↦
          let (es, e, p) = route-IsPayout uids owner result m (ltb→le _ _ fits) in
          (result, es, ok_injective (sym h ∙ e), p)
    ]

pub IsRouted-IsSound :
    (uid_lookup : Dict ℕ) (scores : Scores) (owner : ℕ) (v : WeightVector)
    → IsRouted (uids_by_index uid_lookup scores) owner v
    → IsSound uid_lookup owner v
IsRouted-IsSound uid_lookup scores owner v (result, es, e, p) = rw e (
  vector_of-IsSubmittable owner result es p.0,
  payout-IsPayable uid_lookup scores owner result.miners es p,
  refl,
)
