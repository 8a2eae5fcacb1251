-- ===== src/Economics/Normalize/Fair.antt =====
-- The order of the miners' units before and after `normalize_weights`.
use mathlib.Core.Path.{subst}
use gm_validator.Prelude.{
  ℕ, zero, suc, ◌-◌, ◌≤◌, ◌<◌, ◌≡◌, ◌≢◌, refl, ap, Option, List, [], ◌∷◌, length, arith, Bool-cases,
  inl, inr, ltb, ◌==◌, ltb→lt, ltb→le,
}
use gm_validator.Decimal.{Decimal, nought, sum_from}
use gm_validator.Errors.{ok, ok_injective}
use gm_validator.Metrics.{Metrics}
use gm_validator.Economics.Epoch.{is_positive}
use gm_validator.Economics.Water.{Entry, total, weight_at, uid_at}
use gm_validator.Economics.Water.Floor.{IsFloored}
use gm_validator.Economics.Water.Fair.{reclaim_overflow_monotone}
use gm_validator.Economics.Normalize.{
  Share, max_weight, positive_shares, add_burn, settle, shares_of, distribute, normalize_weights,
  renorm_of,
}
use gm_validator.Economics.Normalize.Budget.{
  AllPositive, unpaid, positive_shares-AllPositive, length_zero, quantize-IsFloored,
  length-quantize,
}
use gm_validator.Economics.Normalize.Pay.{units_of}

-- An entry that is below another one before is not above it afterwards.
abbrev pub KeepsOrder : List Entry → List Entry → ℕ → ℕ → Type 0
KeepsOrder es out i j = weight_at es i < weight_at es j → weight_at out i ≤ weight_at out j

add_burn_le :
    (burn rest : ℕ) (es : List Entry) (i : ℕ)
    → i < length es
    → weight_at es i ≤ weight_at (add_burn burn rest es) i
unfolding add_burn
add_burn_le burn rest [] i h = absurd (omega arith)
add_burn_le burn rest ((u, w) ∷ es) zero h = ground arith
add_burn_le burn rest ((u, w) ∷ es) (suc i) h = elim (Bool-cases (u == burn)) [
  | inl e ↦ rw e (omega arith)
  | inr e ↦ rw e (add_burn_le burn rest es i (omega arith))
]

add_burn_other :
    (burn rest : ℕ) (es : List Entry) (i : ℕ)
    → i < length es
    → uid_at es i ≢ burn
    → weight_at (add_burn burn rest es) i ≡ weight_at es i
unfolding add_burn
add_burn_other burn rest [] i h n = absurd (omega arith)
add_burn_other burn rest ((u, w) ∷ es) zero h n = ground arith
add_burn_other burn rest ((u, w) ∷ es) (suc i) h n = elim (Bool-cases (u == burn)) [
  | inl e ↦ rw e refl
  | inr e ↦ rw e (add_burn_other burn rest es i (omega arith) n)
]

settle-KeepsOrder :
    (es : List Entry) (shares : List Decimal) (burn i j : ℕ)
    → IsFloored es
    → length es ≤ max_weight
    → i < length es
    → j < length es
    → uid_at es i ≢ burn
    → KeepsOrder es (settle es shares burn) i j
unfolding settle
settle-KeepsOrder es shares burn i j f h il jl n lt =
    elim (Bool-cases (ltb max_weight (total es))) [
      | inl over ↦
          let more = ltb→lt _ _ over in
          rw over (
            reclaim_overflow_monotone es shares (total es - max_weight) i j f (omega (arith, more))
              (omega (arith, more)) il jl lt)
      | inr within ↦ elim (Bool-cases (ltb (total es) max_weight)) [
        | inl under ↦
            let rest = max_weight - total es in
            rw (within, under)
              (omega (arith, add_burn_other burn rest es i il n, add_burn_le burn rest es j jl))
        | inr exact ↦ rw (within, exact) (omega arith)
      ]
    ]

module _ (cleaned : List Share) (burn : ℕ) (demand : Option Decimal) where
  distribute-KeepsOrder :
      (m : Metrics) (out : List Entry) (i j : ℕ)
      → AllPositive cleaned
      → length cleaned ≤ max_weight
      → i < length cleaned
      → j < length cleaned
      → uid_at (units_of cleaned demand) i ≢ burn
      → (distribute cleaned burn demand m).1 ≡ ok out
      → KeepsOrder (units_of cleaned demand) out i j
  unfolding distribute
  distribute-KeepsOrder m out i j p fits il jl n h =
      elim (Bool-cases (is_positive (sum_from nought (shares_of cleaned)))) [
        | inl e ↦
            let renorm = renorm_of (sum_from nought (shares_of cleaned)) demand in
            let same = length-quantize renorm cleaned in
            subst (λ o. KeepsOrder (units_of cleaned demand) o i j) (ok_injective (rw e at h))
              (settle-KeepsOrder (units_of cleaned demand) (shares_of cleaned) burn i j
                (quantize-IsFloored renorm cleaned) (omega (arith, same)) (omega (arith, same))
                (omega (arith, same)) n)
        | inr e ↦ let none_left = unpaid cleaned p e in absurd (omega (arith, ap length none_left))
      ]

-- No miner but the burn uid overtakes another: for two miners of positive weight, if the first is not
-- the burn uid and has fewer units than the second, what `normalize_weights` returns does not pay the
-- first more than the second.
pub normalize_weights_monotone :
    (miner_weights : List Share) (burn : ℕ) (demand : Option Decimal) (m : Metrics)
    (out : List Entry) (i j : ℕ)
    → let cleaned = positive_shares miner_weights in
      i < length cleaned
      → j < length cleaned
      → uid_at (units_of cleaned demand) i ≢ burn
      → (normalize_weights miner_weights burn demand m).1 ≡ ok out
      → weight_at (units_of cleaned demand) i < weight_at (units_of cleaned demand) j
      → weight_at out i ≤ weight_at out j
unfolding normalize_weights
normalize_weights_monotone miner_weights burn demand m out i j il jl n h lt =
    let cleaned = positive_shares miner_weights in
    elim (Bool-cases (length cleaned == 0)) [
      | inl e ↦ absurd (omega (arith, ap length (length_zero cleaned e)))
      | inr e ↦ elim (Bool-cases (ltb max_weight (length cleaned))) [
        | inl over ↦ cc (rw (e, over) at h)
        | inr fits ↦
            distribute-KeepsOrder cleaned burn demand m out i j
              (positive_shares-AllPositive miner_weights) (ltb→le _ _ fits) il jl n
              (rw (e, fits) at h) lt
      ]
    ]
