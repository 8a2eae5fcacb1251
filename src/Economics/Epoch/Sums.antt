-- ===== src/Economics/Epoch/Sums.antt =====
-- `compute_epoch_weights` against a row for each miner and a sum.
use gm_validator.Prelude.{
  true, false, List, [], ◌∷◌, map, ◌≡◌, ◌↔◌, refl, sym, ap, ◌∙◌, Bool-cases, inl, inr, arith,
}
use gm_validator.Decimal.{Decimal, nought, add, mul, div, sum_from}
use gm_validator.Decimal.Positive.{mul_positive, lt-nought-pos}
use gm_validator.Errors.{ok, ok_injective}
use gm_validator.Economics.Epoch.{
  MinerEpochData, MinerWeight, EpochWeightsResult, miner_emission_pct, is_positive, consumed,
  miner_weight, weigh_miners, compute_epoch_weights,
}

-- The pool in USD: the miners' part of the emissions, at the price.
abbrev pub pool_of : Decimal → Decimal → Decimal
pool_of price emissions = mul (mul emissions miner_emission_pct) price

-- What counts of a miner: nothing of a blacklisted one, and all that any other consumed.
abbrev pub billed : MinerEpochData → Decimal
billed m = elim m.is_blacklisted [ true ↦ nought | false ↦ m.consumed_usd ]

-- The row of a miner: a blacklisted one is marked as banned and has the weight of nothing; the weight
-- of any other is what it consumed over the pool.
abbrev pub row_of : Decimal → MinerEpochData → MinerWeight
row_of pool m = elim m.is_blacklisted [
  | true ↦ record {
    hotkey = m.hotkey;
    is_banned = true;
    consumed_usd = nought;
    weight = div nought pool;
  }
  | false ↦ record {
    hotkey = m.hotkey;
    is_banned = false;
    consumed_usd = m.consumed_usd;
    weight = div m.consumed_usd pool;
  }
]

abbrev pub weighed : Decimal → Decimal → List MinerEpochData → EpochWeightsResult
weighed pool total miners = record {
  pool_usd_total = pool;
  total_consumed_usd = sum_from total (map billed miners);
  miners = map (row_of pool) miners;
}

consumed-billed : (m : MinerEpochData) → consumed m ≡ billed m
consumed-billed m = elim (Bool-cases m.is_blacklisted) [ inl e ↦ rw (e) refl | inr e ↦ rw (e) refl ]

miner_weight-row_of :
    (pool : Decimal) (m : MinerEpochData)
    → is_positive pool ≡ true
    → miner_weight pool m ≡ row_of pool m
unfolding miner_weight
miner_weight-row_of pool m h = elim (Bool-cases m.is_blacklisted) [
  | inl e ↦ rw (h, e) refl
  | inr e ↦ rw (h, e) refl
]

weigh_miners-weighed :
    (pool total : Decimal) (miners : List MinerEpochData)
    → is_positive pool ≡ true
    → weigh_miners pool miners total ≡ weighed pool total miners
unfolding weigh_miners sum_from
weigh_miners-weighed pool total [] h = refl
weigh_miners-weighed pool total (m ∷ ms) h =
    let rest = weigh_miners-weighed pool (add total (consumed m)) ms h in
    ap (λ (r : EpochWeightsResult). record r { miners = miner_weight pool m ∷ r.miners }) rest
    ∙ rw (miner_weight-row_of pool m h, consumed-billed m) refl

pool_of-is_positive :
    (price emissions : Decimal)
    → is_positive price ≡ true
    → is_positive emissions ≡ true
    → is_positive (pool_of price emissions) ≡ true
pool_of-is_positive price emissions p e =
    mul_positive (mul emissions miner_emission_pct) price
      (mul_positive emissions miner_emission_pct e (lt-nought-pos 41 _ (omega arith))) p

weigh_miners-epoch :
    (miners : List MinerEpochData) (price emissions : Decimal)
    → is_positive price ≡ true
    → is_positive emissions ≡ true
    → weigh_miners (pool_of price emissions) miners nought
      ≡ weighed (pool_of price emissions) nought miners
weigh_miners-epoch miners price emissions p e =
    weigh_miners-weighed (pool_of price emissions) nought miners
      (pool_of-is_positive price emissions p e)

-- `compute_epoch_weights` returns exactly on a positive price and positive emissions. Then the pool is
-- 41 % of the emissions at the price; the rows are the miners' in their order, a blacklisted one
-- marked and with the weight of nothing, any other with what it consumed over the pool; and the total
-- is the sum of what the miners consumed, with nothing for a blacklisted one.
pub compute_epoch_weights_iff :
    (miners : List MinerEpochData) (price emissions : Decimal) (r : EpochWeightsResult)
    → (compute_epoch_weights miners price emissions ≡ ok r) ↔ (
        (is_positive price ≡ true)
        × (is_positive emissions ≡ true)
        × (r ≡ weighed (pool_of price emissions) nought miners))
unfolding compute_epoch_weights
compute_epoch_weights_iff miners price emissions r = (
  λ h. elim (Bool-cases (is_positive price)) [
    | inr p ↦ cc (rw p at h)
    | inl p ↦ elim (Bool-cases (is_positive emissions)) [
      | inr e ↦ cc (rw (p, e) at h)
      | inl e ↦ (
        p,
        e,
        sym (ok_injective (rw (p, e) at h)) ∙ weigh_miners-epoch miners price emissions p e,
      )
    ]
  ],
  λ (p, e, known). rw (p, e, known) (ap ok (weigh_miners-epoch miners price emissions p e)),
)
