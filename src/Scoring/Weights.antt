-- ===== src/Scoring/Weights.antt =====
-- `compute_weights`: from the scores to the vector that is submitted.
pub mod Known
pub mod Route
pub mod Vector
pub mod Distinct
pub mod Bounds
mod Tests
use Prim.Native.String.{String}
use gm_validator.Prelude.{
  ℕ, ◌^◌, Bool, true, false, Option, none, some, List, [], ◌∷◌, map, ◌&&◌, if◌then◌else◌,
}
use gm_validator.Prelude.Int.{ℤ, pos, ◌+ℤ◌}
use gm_validator.Prelude.Dict.{Dict, lookup}
use gm_validator.Decimal
use gm_validator.Decimal.{Decimal, of_int, one, nought, div, floor_scale, sum_from}
use gm_validator.Errors.{Result, ok, raised, stale_metagraph, stale_epoch_summary}
use gm_validator.Metrics.{Metrics}
use gm_validator.Summary.{EpochSummary}
use gm_validator.Economics.Epoch.{
  MinerEpochData, MinerWeight, EpochWeightsResult, compute_epoch_weights,
}
use gm_validator.Economics.Water.{Entry}
use gm_validator.Economics.Water.Floor.{uids_of}
use gm_validator.Economics.Normalize.{Share, weights_of, normalize_weights}
use gm_validator.Scoring.Rows.{MinerScore, Scores}

-- `NDOLLARS_PER_USD`
abbrev pub ndollars_per_usd : Decimal
ndollars_per_usd = of_int (pos (10 ^ 9))

pub record WeightVector : Type 0 where
  pub uids : List ℕ
  pub weights : List ℕ
  pub burn_uid : ℕ
  pub epoch_result : EpochWeightsResult

unfoldable pub apply_earnings_multiplier : ℤ → Decimal → ℤ
apply_earnings_multiplier ndollars multiplier =
    if Decimal.eq multiplier one then ndollars else floor_scale ndollars multiplier

unfoldable pub miner_data : Decimal → String × MinerScore → MinerEpochData
unfolding apply_earnings_multiplier
miner_data multiplier (miner_id, s) =
    let scaled =
      apply_earnings_multiplier (s.earnings_ndollars +ℤ s.surcharge_ndollars) multiplier in
    record {
      hotkey = miner_id;
      consumed_usd = div (of_int scaled) ndollars_per_usd;
      is_blacklisted = false;
    }

-- `uids_by_index`
unfoldable pub uids_by_index : Dict ℕ → Scores → List (Option ℕ)
uids_by_index uid_lookup [] = []
uids_by_index uid_lookup ((id, s) ∷ scores) = lookup id uid_lookup ∷ uids_by_index uid_lookup scores

-- `miners_data and all(uid is None for uid in uids_by_index)`
abbrev pub all_missing : List (Option ℕ) → Bool
all_missing [] = true
all_missing (none ∷ uids) = all_missing uids
all_missing (some uid ∷ uids) = false

abbrev pub is_stale : List (Option ℕ) → Bool
is_stale [] = false
is_stale (uid ∷ uids) = all_missing (uid ∷ uids)

-- The loop that makes `miner_pairs`; the lists are of one length.
unfoldable pub miner_pairs : List MinerWeight → List (Option ℕ) → List Share
miner_pairs (w ∷ ws) (none ∷ uids) = miner_pairs ws uids
miner_pairs (w ∷ ws) (some uid ∷ uids) = (uid, w.weight) ∷ miner_pairs ws uids
miner_pairs _ _ = []

-- `sum((miner_weight.weight for ...), Decimal(0))`
unfoldable pub full_demand_total : EpochWeightsResult → Decimal
full_demand_total result = sum_from nought (map (λ (w : MinerWeight). w.weight) result.miners)

abbrev to_vector : ℕ → EpochWeightsResult → Result (List Entry) → Result WeightVector
to_vector burn result (raised e) = raised e
to_vector burn result (ok u16) = ok (record {
  uids = uids_of u16;
  weights = weights_of u16;
  burn_uid = burn;
  epoch_result = result;
})

-- What follows `compute_epoch_weights`.
unfoldable pub route :
    List (Option ℕ) → ℕ → Result EpochWeightsResult → Metrics → Metrics × Result WeightVector
route uids owner (raised e) m = (m, raised e)
route uids owner (ok result) m =
    let (m', u16) =
      normalize_weights (miner_pairs result.miners uids) owner (some (full_demand_total result))
        m in
    (m', to_vector owner result u16)

unfoldable pub compute_with_emissions :
    Scores → Dict ℕ → EpochSummary → Decimal → ℕ → Decimal → Metrics → Metrics × Result WeightVector
compute_with_emissions scores uid_lookup summary emissions owner multiplier m =
    let uids = uids_by_index uid_lookup scores in
    if is_stale uids
    then (m, raised stale_metagraph)
    else route uids owner
        (compute_epoch_weights (map (miner_data multiplier) scores) summary.alpha_price_usd
          emissions)
        m

unfoldable pub compute_weights :
    Scores → Dict ℕ → EpochSummary → ℕ → Decimal → Metrics → Metrics × Result WeightVector
compute_weights scores uid_lookup summary owner multiplier m = elim summary.emissions_alpha [
  | none ↦ (m, raised stale_epoch_summary)
  | some emissions ↦ compute_with_emissions scores uid_lookup summary emissions owner multiplier m
]
