-- ===== src/Decimal/Positive.antt =====
-- The signs of sums of decimals.
use native.Mathlib.Nat.{pow-le-pow_right, le-div_iff_mul-le}
use gm_validator.Prelude.{
  ℕ, zero, suc, ◌+◌, ◌-◌, ◌*◌, ◌/◌, ◌^◌, ◌≤◌, ◌≡◌, refl, sym, ap, ◌∙◌, true, false, List, [], ◌∷◌,
  All, arith, ltb, ltb→lt, ltb→le, Bool-cases, inl, inr, ◌==◌,
}
use gm_validator.Prelude.Int.{
  ℤ, pos, negsuc, pos_part, neg_part, abs, sub_ℕ, ltb_ℤ, ◌+ℤ◌, ◌-ℤ◌, ◌*ℤ◌,
}
use gm_validator.Decimal.{
  Decimal, nought, digits_from, digits, precision, round_half_even, finish, scaled, common_exp,
  is_negative, add, mul, lt, sum_from,
}

power_pos : (k : ℕ) → 1 ≤ 10 ^ k
power_pos k = pow-le-pow_right (omega arith) {i = 0} {j = k} (omega arith)

digits_from_last : (fuel n : ℕ) → ltb n 10 ≡ true → digits_from (suc fuel) n ≡ 1
unfolding digits_from
digits_from_last fuel n h = rw (digits_from, h) refl

digits_from_more :
    (fuel n : ℕ) → ltb n 10 ≡ false → digits_from (suc fuel) n ≡ 1 + digits_from fuel (n / 10)
unfolding digits_from
digits_from_more fuel n h = rw (digits_from, h) refl

-- A positive number is at least ten to the number of its digits less one.
digits_from_low : (fuel n : ℕ) → 1 ≤ n → (p : ℕ) × (digits_from fuel n ≡ suc p) × (10 ^ p ≤ n)
digits_from_low zero n h = (0, unfold digits_from in refl, h)
digits_from_low (suc fuel) n h = elim (Bool-cases (ltb n 10)) [
  | inl e ↦ (0, digits_from_last fuel n e, h)
  | inr e ↦
      let big = ltb→le n 10 e in
      let (p, d, low) = digits_from_low fuel (n / 10) (omega (arith, big)) in
      (suc p, digits_from_more fuel n e ∙ omega (arith, d), omega (arith, low))
]

round_positive : (n k : ℕ) → 10 ^ k ≤ n → 1 ≤ round_half_even n k
unfolding round_half_even
round_positive n k h =
    let q : 1 ≤ n / 10 ^ k = (le-div_iff_mul-le (power_pos k)).1 (omega (arith, h)) in
    ground (arith, q)

-- A positive coefficient.
abbrev pub IsPositive : Decimal → Type 0
IsPositive d = 1 ≤ pos_part d.coef

finish-IsPositive : (n : ℕ) (e : ℤ) → 1 ≤ n → IsPositive (finish false n e)
unfolding finish digits
finish-IsPositive n e h = elim (Bool-cases (digits n - precision == 0)) [
  | inl short ↦ rw short h
  | inr long ↦
      let (p, d, low) = digits_from_low n n h in
      let fits : 10 ^ (digits n - precision) ≤ 10 ^ p =
        pow-le-pow_right (omega arith) (omega (arith, d)) in
      rw long (round_positive n (digits n - precision) (omega (arith, fits, low)))
]

abbrev IsNonneg : Decimal → Type 0
IsNonneg d = (n : ℕ) × (d.coef ≡ pos n)

positive_coef : (z : ℤ) → 1 ≤ pos_part z → (n : ℕ) × (z ≡ pos n) × (1 ≤ n)
positive_coef (pos n) h = (n, refl, h)
positive_coef (negsuc n) h = absurd (omega (arith, h))

times_pos : (a b : ℕ) → pos a *ℤ pos b ≡ pos (a * b)
unfolding ◌*ℤ◌
times_pos a b = ground arith

plus_pos : (a b : ℕ) → pos a +ℤ pos b ≡ pos (a + b)
unfolding ◌+ℤ◌
plus_pos a b = ground arith

is_negative-pos : (n : ℕ) → is_negative (pos n) ≡ false
unfolding is_negative
is_negative-pos n = ground arith

finish_pos-IsPositive :
    (n : ℕ) (z e : ℤ) → z ≡ pos n → 1 ≤ n → IsPositive (finish (is_negative z) (abs z) e)
finish_pos-IsPositive n z e h l =
    rw (h, is_negative-pos n) (finish-IsPositive (n + 0) e (omega (arith, l)))

scaled-pos :
    (d : Decimal) (e : ℤ) (n : ℕ)
    → d.coef ≡ pos n
    → scaled d e ≡ pos (n * 10 ^ pos_part (d.exp -ℤ e))
unfolding scaled
scaled-pos d e n h = rw h (times_pos n (10 ^ pos_part (d.exp -ℤ e)))

scaled_positive : (n k : ℕ) → 1 ≤ n → 1 ≤ n * 10 ^ k
scaled_positive zero k h = elim h [ ]
scaled_positive (suc n) k h = omega (arith, power_pos k)

times_positive : (m n : ℕ) → 1 ≤ m → 1 ≤ n → 1 ≤ m * n
times_positive zero n h k = elim h [ ]
times_positive (suc m) n h k = omega (arith, k)

add-IsPositive : (a b : Decimal) → IsNonneg a → IsPositive b → IsPositive (add a b)
unfolding add
add-IsPositive a b (m, h) p =
    let e = common_exp a b in
    let (n, g, l) = positive_coef b.coef p in
    let i = pos_part (a.exp -ℤ e) in
    let j = pos_part (b.exp -ℤ e) in
    finish_pos-IsPositive (m * 10 ^ i + n * 10 ^ j) (scaled a e +ℤ scaled b e) e
      (ap (λ z. z +ℤ scaled b e) (scaled-pos a e m h)
        ∙ ap (λ z. pos (m * 10 ^ i) +ℤ z) (scaled-pos b e n g)
        ∙ plus_pos (m * 10 ^ i) (n * 10 ^ j))
      (omega (arith, scaled_positive n j l))

IsPositive-IsNonneg : (d : Decimal) → IsPositive d → IsNonneg d
IsPositive-IsNonneg d p = let (n, e, _) = positive_coef d.coef p in (n, e)

sum_from-IsPositive :
    (acc : Decimal) (ds : List Decimal)
    → IsPositive acc
    → All IsPositive ds
    → IsPositive (sum_from acc ds)
unfolding sum_from
sum_from-IsPositive acc [] p ps = p
sum_from-IsPositive acc (d ∷ ds) p (q, qs) =
    sum_from-IsPositive (add acc d) ds (add-IsPositive acc d (IsPositive-IsNonneg acc p) q) qs

lt-nought :
    (d : Decimal)
    → let e = common_exp nought d in
      lt nought d ≡ ltb_ℤ (pos (0 * 10 ^ pos_part (nought.exp -ℤ e))) (scaled d e)
unfolding lt
lt-nought d =
    let e = common_exp nought d in ap (λ z. ltb_ℤ z (scaled d e)) (scaled-pos nought e 0 refl)

difference_low : (a b : ℕ) → pos_part (sub_ℕ a b) ≤ a
difference_low a b = ground arith

scaled_low :
    (d : Decimal) (e : ℤ)
    → pos_part (scaled d e) ≤ pos_part d.coef * 10 ^ pos_part (d.exp -ℤ e) + neg_part d.coef * 0
unfolding scaled ◌*ℤ◌
scaled_low d e = difference_low _ _

-- A value above 0 has a positive coefficient, and the other way round.
lt-IsPositive : (d : Decimal) → lt nought d ≡ true → IsPositive d
lt-IsPositive d h = elim (Bool-cases (ltb 0 (pos_part d.coef))) [
  | inl e ↦ ltb→lt _ _ e
  | inr e ↦
      let none_left : pos_part d.coef ≡ 0 = omega (arith, ltb→le _ _ e) in
      let low = scaled_low d (common_exp nought d) in
      let low' = rw none_left at low in
      let above = sym (lt-nought d) ∙ h in absurd (ground (arith, low', above))
]

IsPositive-lt : (d : Decimal) → IsPositive d → lt nought d ≡ true
IsPositive-lt d p =
    let e = common_exp nought d in
    let (n, g, l) = positive_coef d.coef p in
    let j = pos_part (d.exp -ℤ e) in
    let more = scaled_positive n j l in
    lt-nought d
    ∙ ap (λ z. ltb_ℤ (pos (0 * 10 ^ pos_part (nought.exp -ℤ e))) z) (scaled-pos d e n g)
    ∙ ground (arith, more)

All-IsPositive :
    (ds : List Decimal) → All (λ (x : Decimal). lt nought x ≡ true) ds → All IsPositive ds
All-IsPositive [] h = tt
All-IsPositive (d ∷ ds) (h, hs) = (lt-IsPositive d h, All-IsPositive ds hs)

-- A sum of values above 0, of which there are some, is above 0.
pub sum_from_positive :
    (d : Decimal) (ds : List Decimal)
    → lt nought d ≡ true
    → All (λ (x : Decimal). lt nought x ≡ true) ds
    → lt nought (sum_from nought (d ∷ ds)) ≡ true
unfolding sum_from
sum_from_positive d ds h hs = IsPositive-lt (sum_from (add nought d) ds) (
    sum_from-IsPositive (add nought d) ds (add-IsPositive nought d (0, refl) (lt-IsPositive d h))
      (All-IsPositive ds hs))

mul-IsPositive : (a b : Decimal) → IsPositive a → IsPositive b → IsPositive (mul a b)
unfolding mul
mul-IsPositive a b p q =
    let (m, g, l) = positive_coef a.coef p in
    let (n, h, k) = positive_coef b.coef q in
    finish_pos-IsPositive (m * n) (a.coef *ℤ b.coef) (a.exp +ℤ b.exp)
      (ap (λ z. z *ℤ b.coef) g ∙ ap (λ z. pos m *ℤ z) h ∙ times_pos m n) (times_positive m n l k)

-- A product of values above 0 is above 0.
pub mul_positive :
    (a b : Decimal) → lt nought a ≡ true → lt nought b ≡ true → lt nought (mul a b) ≡ true
mul_positive a b h k =
    IsPositive-lt (mul a b) (mul-IsPositive a b (lt-IsPositive a h) (lt-IsPositive b k))

pub lt-nought-pos : (n : ℕ) (e : ℤ) → 1 ≤ n → lt nought (record { coef = pos n; exp = e }) ≡ true
lt-nought-pos n e h = IsPositive-lt (record { coef = pos n; exp = e }) h
