-- ===== src/Economics/Normalize.antt =====
-- `normalize_weights` and `_report_payment_accuracy`: u16 weights that sum to the budget, with the
-- burn slot taking what is left.
pub mod Budget
pub mod Pay
pub mod Fair
use gm_validator.Prelude.{
  ℕ, zero, suc, ◌+◌, ◌-◌, Bool, true, false, Option, none, some, List, [], ◌∷◌, map, ltb, ◌==◌,
  if◌then◌else◌, length, take,
}
use gm_validator.Prelude.Int.{ℤ, pos, pos_part}
use gm_validator.Decimal
use gm_validator.Decimal.{Decimal, nought, one, of_int, div, mul, lt, to_int, sum_from}
use gm_validator.Errors.{Result, ok, raised, value_error}
use gm_validator.Metrics.{Metrics, record_payment_accuracy}
use gm_validator.Economics.Epoch.{is_positive}
use gm_validator.Economics.Water.{Entry, total, reclaim_overflow}

-- `MAX_WEIGHT`
abbrev pub max_weight : ℕ
max_weight = 65535

-- `_QUANTUM`, one u16 unit as a share
abbrev pub quantum : Decimal
quantum = div one (of_int (pos max_weight))

abbrev pub Share : Type 0
Share = ℕ × Decimal

-- `[(uid, w) for uid, w in miner_weights if w > 0]`
unfoldable pub positive_shares : List Share → List Share
positive_shares [] = []
positive_shares ((uid, w) ∷ ws) =
    if is_positive w then (uid, w) ∷ positive_shares ws else positive_shares ws

record Accuracy : Type 0 where
  residual : Decimal
  below_quantum : ℕ
  floored_total : Decimal

-- One round of the loop of `_report_payment_accuracy`.
tally_accuracy : Decimal → Share → ℕ → Accuracy → Accuracy
tally_accuracy renorm (_, weight) u16 acc =
    let intended = div weight renorm in
    let submitted = div (of_int (pos u16)) (of_int (pos max_weight)) in
    let residual = Decimal.add acc.residual (Decimal.magnitude (Decimal.sub intended submitted)) in
    if lt intended quantum
    then (record {
      residual = residual;
      below_quantum = acc.below_quantum + 1;
      floored_total =
          Decimal.add acc.floored_total
            (Decimal.sub (of_int (pos u16)) (mul intended (of_int (pos max_weight))));
    })
    else (record acc { residual = residual })

-- The lists are of one length, as `zip(..., strict=True)` asks.
tally_all : Decimal → List Share → List ℕ → Accuracy → Accuracy
unfolding tally_accuracy
tally_all renorm (s ∷ ss) (u16 ∷ us) acc = tally_all renorm ss us (tally_accuracy renorm s u16 acc)
tally_all renorm _ _ acc = acc

unfoldable pub report_payment_accuracy : Decimal → List Share → List ℕ → Metrics → Metrics
unfolding tally_all record_payment_accuracy
report_payment_accuracy renorm cleaned miner_u16 m =
    let acc =
      tally_all renorm cleaned miner_u16
        (record { residual = nought; below_quantum = 0; floored_total = nought }) in
    record_payment_accuracy acc.residual acc.below_quantum acc.floored_total m

-- `max(1, int((weight / renorm) * MAX_WEIGHT))`
unfoldable pub quantize : Decimal → Share → Entry
quantize renorm (uid, weight) =
    let units = pos_part (to_int (mul (div weight renorm) (of_int (pos max_weight)))) in
    (uid, if ltb 1 units then units else 1)

-- The `for`/`else` that gives the remainder to the burn uid, in its own entry or at the end.
unfoldable pub add_burn : ℕ → ℕ → List Entry → List Entry
add_burn burn_uid remainder [] = (burn_uid, remainder) ∷ []
add_burn burn_uid remainder ((uid, w) ∷ rest) =
    if uid == burn_uid
    then (uid, w + remainder) ∷ rest
    else (uid, w) ∷ add_burn burn_uid remainder rest

abbrev pub weights_of : List Entry → List ℕ
weights_of = map λ (e : Entry). e.1

-- The vector once the quantized entries are made: the two branches on the sign of the remainder.
unfoldable pub settle : List Entry → List Decimal → ℕ → List Entry
settle result shares burn_uid =
    let running_total = total result in
    if ltb max_weight running_total
    then reclaim_overflow result shares (running_total - max_weight)
    else if ltb running_total max_weight
    then add_burn burn_uid (max_weight - running_total) result
    else result

abbrev pub shares_of : List Share → List Decimal
shares_of = map λ (s : Share). s.1

abbrev renorm_of : Decimal → Option Decimal → Decimal
renorm_of total none = Decimal.max total one
renorm_of total (some demand) = Decimal.max demand one

-- The vector of a non-empty list of positive shares.
unfoldable pub distribute :
    List Share → ℕ → Option Decimal → Metrics → Metrics × Result (List Entry)
unfolding report_payment_accuracy
distribute cleaned burn_uid renorm_total m =
    let total = sum_from nought (shares_of cleaned) in
    if is_positive total
    then (let renorm = renorm_of total renorm_total in
        let result = settle (map (quantize renorm) cleaned) (shares_of cleaned) burn_uid in
        (
          report_payment_accuracy renorm cleaned (weights_of (take (length cleaned) result)) m,
          ok result,
        ))
    else (report_payment_accuracy nought [] [] m, ok ((burn_uid, max_weight) ∷ []))

unfoldable pub normalize_weights :
    List Share → ℕ → Option Decimal → Metrics → Metrics × Result (List Entry)
unfolding distribute
normalize_weights miner_weights burn_uid renorm_total m =
    let cleaned = positive_shares miner_weights in
    if length cleaned == 0
    then (report_payment_accuracy nought [] [] m, ok ((burn_uid, max_weight) ∷ []))
    else if ltb max_weight (length cleaned)
    then (m, raised value_error)
    else distribute cleaned burn_uid renorm_total m
