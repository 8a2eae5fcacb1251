-- ===== src/Economics/Tests.antt =====
-- Runs of the vector pipeline, and the theorems at concrete inputs.
use gm_validator.Prelude.{◌≡◌, refl, List, [], ◌∷◌, none, arith, ◌+◌, ◌≤◌}
use gm_validator.Prelude.Int.{pos, negsuc}
use gm_validator.Decimal.{Decimal, one, nought, div, lt, mul, to_int, max, sum_from}
use gm_validator.Errors.{ok}
use gm_validator.Metrics.{fresh_metrics}
use gm_validator.Economics.Water.{
  Entry, total, weight_at, descending_order, water_level, reclaim_overflow,
}
use gm_validator.Economics.Water.Floor.{IsFloored}
use gm_validator.Economics.Water.Writes.{view}
use gm_validator.Economics.Water.Least.{water_level_iff}
use gm_validator.Economics.Water.Leveled.{IsCutAt, reclaim_overflow-IsCutAt}
use gm_validator.Prelude.{◌↔◌}
use gm_validator.Economics.Water.Level.{excess}
use gm_validator.Economics.Water.Reclaim.{reclaim_overflow-total}
use gm_validator.Economics.Normalize.{Share, positive_shares, normalize_weights, quantize, settle}
use gm_validator.Prelude.{true, false}
use gm_validator.Economics.Epoch.{MinerEpochData, is_positive, compute_epoch_weights}
use gm_validator.Economics.Epoch.Sums.{pool_of, weighed, compute_epoch_weights_iff}
use gm_validator.Economics.Normalize.Pay.{Pays, normalize_weights-Pays}
use gm_validator.Economics.Normalize.Fair.{normalize_weights_monotone}
use gm_validator.Economics.Normalize.Budget.{IsPayout, normalize_weights-IsPayout}

-- 1.5, 0.000001 and two that are not positive
abbrev demand : List Share
demand =
    (7, record { coef = pos 15; exp = negsuc 0 })
    ∷ (8, record { coef = pos 1; exp = negsuc 5 })
    ∷ (9, nought)
    ∷ (10, record { coef = negsuc 4; exp = pos 0 })
    ∷ []

-- The over-subscribed vector gives the floored unit back from the heaviest entry.
oversubscribed : (normalize_weights demand 3 none fresh_metrics).1 ≡ ok ((7, 65534) ∷ (8, 1) ∷ [])
unfolding normalize_weights positive_shares quantize reclaim_overflow lt sum_from settle to_int mul
    div max
oversubscribed = refl

levels : water_level (10 ∷ 9 ∷ 9 ∷ 1 ∷ []) 5 ≡ 8
unfolding water_level
levels = refl

normalize_weights-IsPayout_example :
    (out : List Entry) × ((normalize_weights demand 3 none fresh_metrics).1 ≡ ok out)
    × IsPayout 3 (positive_shares demand) out
unfolding positive_shares lt
normalize_weights-IsPayout_example =
    normalize_weights-IsPayout demand 3 none fresh_metrics (omega arith)

normalize_weights-Pays_example : Pays 3 none (positive_shares demand) ((7, 65534) ∷ (8, 1) ∷ [])
unfolding positive_shares lt
normalize_weights-Pays_example =
    normalize_weights-Pays demand 3 none fresh_metrics ((7, 65534) ∷ (8, 1) ∷ []) oversubscribed

-- 20 units are paid where 12 may be, by entries of at least 1.
abbrev entries : List Entry
entries = (1, 4) ∷ (2, 9) ∷ (3, 6) ∷ (4, 1) ∷ []

abbrev shares : List Decimal
shares = one ∷ one ∷ one ∷ one ∷ []

entries-IsFloored : IsFloored entries
entries-IsFloored = ground arith

reclaim_overflow-total_example : total (reclaim_overflow entries shares 8) + 8 ≡ 20
reclaim_overflow-total_example =
    reclaim_overflow-total entries shares 8 entries-IsFloored (omega arith) (omega arith)

normalize_weights_monotone_example :
    weight_at ((7, 65534) ∷ (8, 1) ∷ []) 1 ≤ weight_at ((7, 65534) ∷ (8, 1) ∷ []) 0
unfolding positive_shares lt quantize to_int mul div max sum_from
normalize_weights_monotone_example =
    normalize_weights_monotone demand 3 none fresh_metrics ((7, 65534) ∷ (8, 1) ∷ []) 1 0
      (omega arith) (omega arith) (λ e. ground arith) oversubscribed (omega arith)

water_level_iff_example :
    (excess 8 (10 ∷ 9 ∷ 9 ∷ 1 ∷ []) ≤ 5) ↔ (water_level (10 ∷ 9 ∷ 9 ∷ 1 ∷ []) 5 ≤ 8)
water_level_iff_example =
    water_level_iff 10 (9 ∷ 9 ∷ 1 ∷ []) 5 8 (ground arith) (ground arith) (omega arith)

reclaim_overflow-IsCutAt_example :
    let level = water_level (view entries (descending_order entries shares)) 8 in
    IsCutAt level 9 (weight_at (reclaim_overflow entries shares 8) 1)
reclaim_overflow-IsCutAt_example =
    reclaim_overflow-IsCutAt entries shares 8 1 entries-IsFloored (omega arith) (omega arith)
      (omega arith)

abbrev miner : MinerEpochData
miner = record { hotkey = "5Alice"; consumed_usd = one; is_blacklisted = false }

-- Two miners, the second of them blacklisted.
abbrev miners : List MinerEpochData
miners = miner ∷ record miner { hotkey = "5Bob"; is_blacklisted = true } ∷ []

compute_epoch_weights_iff_example :
    (compute_epoch_weights miners one one ≡ ok (weighed (pool_of one one) nought miners)) ↔ (
      (is_positive one ≡ true)
      × (is_positive one ≡ true)
      × (weighed (pool_of one one) nought miners ≡ weighed (pool_of one one) nought miners))
compute_epoch_weights_iff_example =
    compute_epoch_weights_iff miners one one (weighed (pool_of one one) nought miners)
