-- ===== src/Economics/Epoch.antt =====
-- `compute_epoch_weights`: each miner's share of the epoch's pool.
pub mod Sums
use Prim.Native.String.{String}
use gm_validator.Prelude.{Bool, List, [], ◌∷◌, if◌then◌else◌, not}
use gm_validator.Prelude.Int.{pos, negsuc}
use gm_validator.Decimal.{Decimal, nought, add, mul, div, lt}
use gm_validator.Errors.{Result, ok, raised, value_error}

-- `MINER_EMISSION_PCT`, 0.41
abbrev pub miner_emission_pct : Decimal
miner_emission_pct = record { coef = pos 41; exp = negsuc 1 }

pub record MinerEpochData : Type 0 where
  pub hotkey : String
  pub consumed_usd : Decimal
  pub is_blacklisted : Bool

pub record MinerWeight : Type 0 where
  pub hotkey : String
  pub is_banned : Bool
  pub consumed_usd : Decimal
  pub weight : Decimal

pub record EpochWeightsResult : Type 0 where
  pub pool_usd_total : Decimal
  pub total_consumed_usd : Decimal
  pub miners : List MinerWeight

-- `d > 0`
abbrev pub is_positive : Decimal → Bool
is_positive d = lt nought d

abbrev pub consumed : MinerEpochData → Decimal
consumed m = if m.is_blacklisted then nought else m.consumed_usd

unfoldable pub miner_weight : Decimal → MinerEpochData → MinerWeight
miner_weight pool_usd m = record {
  hotkey = m.hotkey;
  is_banned = m.is_blacklisted;
  consumed_usd = consumed m;
  weight = if is_positive pool_usd then div (consumed m) pool_usd else nought;
}

-- The loop, on what is left to visit, the rows so far and the running total.
unfoldable pub weigh_miners : Decimal → List MinerEpochData → Decimal → EpochWeightsResult
unfolding miner_weight
weigh_miners pool_usd [] total = record {
  pool_usd_total = pool_usd;
  total_consumed_usd = total;
  miners = [];
}
weigh_miners pool_usd (m ∷ ms) total =
    let rest = weigh_miners pool_usd ms (add total (consumed m)) in
    record rest { miners = miner_weight pool_usd m ∷ rest.miners }

unfoldable pub compute_epoch_weights :
    List MinerEpochData → Decimal → Decimal → Result EpochWeightsResult
unfolding weigh_miners
compute_epoch_weights miners alpha_price_usd emissions_alpha =
    if not (is_positive alpha_price_usd)
    then raised value_error
    else if not (is_positive emissions_alpha)
    then raised value_error
    else (let pool_usd = mul (mul emissions_alpha miner_emission_pct) alpha_price_usd in
        ok (weigh_miners pool_usd miners nought))
