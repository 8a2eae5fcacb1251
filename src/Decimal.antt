-- ===== src/Decimal.antt =====
-- Python's `decimal.Decimal` under its default context, as far as the validator uses it: finite
-- values, 28 significant digits, ROUND_HALF_EVEN. A value is coef * 10 ^ exp; two records can stand
-- for one value, and no operation below tells them apart but by its value. Not modelled: NaN and
-- infinities, the sign of zero, and the exponent limits of the context (999999 either way).
pub mod Positive
mod Tests
use Prim.Native.Nat.{min}
use gm_validator.Prelude.{
  ℕ, zero, suc, ◌+◌, ◌-◌, ◌*◌, ◌/◌, ◌%◌, ◌^◌, Bool, true, false, not, List, [], ◌∷◌, ltb, ◌==◌,
  if◌then◌else◌,
}
use gm_validator.Prelude.Int.{
  ℤ, pos, negsuc, pos_part, neg_part, sub_ℕ, signed, abs, ◌+ℤ◌, ◌-ℤ◌, ◌*ℤ◌, floor_div, ltb_ℤ,
}

pub record Decimal : Type 0 where
  pub coef : ℤ
  pub exp : ℤ

-- `getcontext().prec`
abbrev precision : ℕ
precision = 28

-- `Decimal(n)` is exact, whatever the context.
abbrev pub of_int : ℤ → Decimal
of_int n = record { coef = n; exp = pos 0 }

abbrev pub nought : Decimal
nought = of_int (pos 0)

abbrev pub one : Decimal
one = of_int (pos 1)

-- The decimal digits of n, `len(str(n))`. The fuel n is enough, since each round divides by ten.
digits_from : ℕ → ℕ → ℕ
digits_from zero n = 1
digits_from (suc fuel) n = elim (ltb n 10) [ true ↦ 1 | false ↦ 1 + digits_from fuel (n / 10) ]

digits : ℕ → ℕ
unfolding digits_from
digits n = digits_from n n

-- n / 10 ^ k to the nearest integer, ties to the even one.
round_half_even : ℕ → ℕ → ℕ
round_half_even n k =
    let p = 10 ^ k in
    let q = n / p in
    let twice = 2 * (n % p) in if ltb twice p then q else if ltb p twice then q + 1 else q + q % 2

-- A result that is rounded to the context's precision.
finish : Bool → ℕ → ℤ → Decimal
unfolding digits round_half_even ◌+ℤ◌
finish negative n e =
    let k = digits n - precision in
    if k == 0
    then record { coef = signed negative n; exp = e }
    else record { coef = signed negative (round_half_even n k); exp = e +ℤ pos k }

is_negative : ℤ → Bool
is_negative n = ltb_ℤ n (pos 0)

-- The exponent at which two values are compared and added: the smaller one.
common_exp : Decimal → Decimal → ℤ
common_exp a b = if ltb_ℤ a.exp b.exp then a.exp else b.exp

-- The coefficient at a smaller exponent.
scaled : Decimal → ℤ → ℤ
unfolding ◌-ℤ◌ ◌*ℤ◌
scaled d e = d.coef *ℤ pos (10 ^ pos_part (d.exp -ℤ e))

unfoldable pub add : Decimal → Decimal → Decimal
unfolding finish is_negative common_exp scaled ◌+ℤ◌
add a b =
    let e = common_exp a b in
    let total = scaled a e +ℤ scaled b e in finish (is_negative total) (abs total) e

unfoldable pub neg : Decimal → Decimal
unfolding finish is_negative ◌-ℤ◌
neg a = finish (not (is_negative a.coef)) (abs a.coef) a.exp

unfoldable pub sub : Decimal → Decimal → Decimal
unfolding finish is_negative common_exp scaled ◌-ℤ◌
sub a b =
    let e = common_exp a b in
    let diff = scaled a e -ℤ scaled b e in finish (is_negative diff) (abs diff) e

-- `abs(d)`
unfoldable pub magnitude : Decimal → Decimal
unfolding finish
magnitude a = finish false (abs a.coef) a.exp

unfoldable pub mul : Decimal → Decimal → Decimal
unfolding finish is_negative ◌*ℤ◌ ◌+ℤ◌
mul a b = let prod = a.coef *ℤ b.coef in finish (is_negative prod) (abs prod) (a.exp +ℤ b.exp)

-- The quotient's sign: the signs differ.
signs_differ : ℤ → ℤ → Bool
unfolding is_negative
signs_differ a b = if is_negative a then not (is_negative b) else is_negative b

-- One digit more than the precision is computed, and a last digit that would look like a tie or an
-- exact value is moved off it where there is a remainder; so one rounding is enough. The code never
-- divides by zero.
unfoldable pub div : Decimal → Decimal → Decimal
unfolding finish digits signs_differ ◌-ℤ◌
div a b =
    let n = abs a.coef in
    let m = abs b.coef in
    let shift = sub_ℕ (digits m + precision + 1) (digits n) in
    let top = n * 10 ^ pos_part shift in
    let bottom = m * 10 ^ neg_part shift in
    let q = top / bottom in
    let sticky = if top % bottom == 0 then q else if q % 5 == 0 then q + 1 else q in
    finish (signs_differ a.coef b.coef) sticky (a.exp -ℤ b.exp -ℤ shift)

-- Comparisons are exact.
unfoldable pub lt : Decimal → Decimal → Bool
unfolding common_exp scaled
lt a b = let e = common_exp a b in ltb_ℤ (scaled a e) (scaled b e)

-- `max(a, b)`: the first on a tie.
unfoldable pub max : Decimal → Decimal → Decimal
unfolding lt
max a b = if lt a b then b else a

-- `int(d)` cuts off towards zero.
unfoldable pub to_int : Decimal → ℤ
unfolding is_negative
to_int d = signed (is_negative d.coef) (abs d.coef * 10 ^ pos_part d.exp / 10 ^ neg_part d.exp)

-- `sum(ds, start)`: each addition is rounded.
unfoldable pub sum_from : Decimal → List Decimal → Decimal
unfolding add
sum_from acc [] = acc
sum_from acc (d ∷ ds) = sum_from (add acc d) ds

-- `n * numerator // denominator` for `numerator, denominator = d.as_integer_ratio()`. The ratio is
-- not in lowest terms here, which does not change the floor.
unfoldable pub floor_scale : ℤ → Decimal → ℤ
unfolding ◌*ℤ◌ floor_div
floor_scale n d = floor_div (n *ℤ (d.coef *ℤ pos (10 ^ pos_part d.exp))) (10 ^ neg_part d.exp)

-- `a == b`
unfoldable pub eq : Decimal → Decimal → Bool
unfolding lt
eq a b = if lt a b then false else not (lt b a)
