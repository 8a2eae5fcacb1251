-- ===== src/Economics/Water/Positions.antt =====
-- The order that `_reclaim_overflow` visits, by positions.
use Prim.Native.Nat.{min}
use gm_validator.Prelude.{
  ℕ, zero, suc, ◌+◌, ◌≤◌, ◌<◌, ◌≡◌, refl, Bool, List, [], ◌∷◌, length, All-get_or, get_or,
  range_from, arith, Bool-cases, inl, inr, leb, leb→le, leb→lt,
}
use gm_validator.Decimal.{Decimal}
use gm_validator.Economics.Water.{Entry, key_gt, insert_index, sort_indices, descending_order}
use gm_validator.Economics.Water.Writes.{capped}
use gm_validator.Economics.Water.Level.{IsDescending, reaching}

-- The index stands in the order.
abbrev pub Stands : ℕ → List ℕ → Type 0
Stands i order = (k : ℕ) × (k < length order) × (get_or order k 0 ≡ i)

Stands-later : (i x : ℕ) (xs : List ℕ) → Stands i xs → Stands i (x ∷ xs)
Stands-later i x xs (k, lt, e) = (suc k, omega arith, e)

insert_index-Stands_self :
    (gt : ℕ → ℕ → Bool) (i : ℕ) (js : List ℕ) → Stands i (insert_index gt i js)
unfolding insert_index
insert_index-Stands_self gt i [] = (0, omega arith, refl)
insert_index-Stands_self gt i (j ∷ js) = elim (Bool-cases (gt j i)) [
  | inl e ↦ rw e (Stands-later i j (insert_index gt i js) (insert_index-Stands_self gt i js))
  | inr e ↦ rw e (0, omega arith, refl)
]

insert_index-Stands :
    (gt : ℕ → ℕ → Bool) (i x : ℕ) (js : List ℕ) → Stands x js → Stands x (insert_index gt i js)
unfolding insert_index
insert_index-Stands gt i x [] (k, lt, e) = absurd (omega arith)
insert_index-Stands gt i x (j ∷ js) (k, lt, e) = elim (Bool-cases (gt j i)) [
  | inr g ↦ rw g (suc k, omega arith, e)
  | inl g ↦ rw g (
      elim k
          as (λ k.
            k < suc (length js) → get_or (j ∷ js) k 0 ≡ x → Stands x (j ∷ insert_index gt i js)) [
              | zero ↦ λ _ e. (0, omega arith, e)
              | suc k ↦ λ lt e.
                  Stands-later x j (insert_index gt i js)
                    (insert_index-Stands gt i x js (k, omega arith, e))
            ]
        lt e)
]

sort_indices-Stands :
    (gt : ℕ → ℕ → Bool) (x : ℕ) (is : List ℕ) → Stands x is → Stands x (sort_indices gt is)
unfolding sort_indices
sort_indices-Stands gt x [] h = h
sort_indices-Stands gt x (i ∷ is) (zero, lt, e) =
    rw (← e) (insert_index-Stands_self gt i (sort_indices gt is))
sort_indices-Stands gt x (i ∷ is) (suc k, lt, e) =
    insert_index-Stands gt i x (sort_indices gt is)
      (sort_indices-Stands gt x is (k, omega arith, e))

range_from-Stands : (i n x : ℕ) → i ≤ x → x < i + n → Stands x (range_from i n)
range_from-Stands i zero x h k = absurd (omega arith)
range_from-Stands i (suc n) x h k = elim (Bool-cases (leb x i)) [
  | inl e ↦ (0, omega arith, omega (arith, leb→le x i e))
  | inr e ↦
      Stands-later x i (range_from (suc i) n)
        (range_from-Stands (suc i) n x (leb→lt x i e) (omega arith))
]

pub descending_order-Stands :
    (result : List Entry) (shares : List Decimal) (i : ℕ)
    → i < length result
    → Stands i (descending_order result shares)
unfolding descending_order
descending_order-Stands result shares i h =
    sort_indices-Stands (key_gt result shares) i (range_from 0 (length result))
      (range_from-Stands 0 (length result) i (omega arith) (omega arith))

-- A descending list by positions.
pub IsDescending-at :
    (ws : List ℕ) (a b : ℕ)
    → IsDescending ws
    → a < b
    → b < length ws
    → get_or ws b 0 ≤ get_or ws a 0
IsDescending-at [] a b d h k = omega arith
IsDescending-at (w ∷ ws) a zero d h k = absurd (omega arith)
IsDescending-at (w ∷ ws) zero (suc b) (d, ds) h k = All-get_or (λ y. y ≤ w) ws b 0 d (omega arith)
IsDescending-at (w ∷ ws) (suc a) (suc b) (d, ds) h k =
    IsDescending-at ws a b ds (omega arith) (omega arith)

pub get_or-capped :
    (level : ℕ) (ws : List ℕ) (c : ℕ) → get_or (capped level ws) c 0 ≡ min (get_or ws c 0) level
get_or-capped level [] c = omega arith
get_or-capped level (w ∷ ws) zero = refl
get_or-capped level (w ∷ ws) (suc c) = get_or-capped level ws c

-- What does not reach the level stands behind what does.
pub below_reaching :
    (level : ℕ) (ws : List ℕ) (c : ℕ)
    → IsDescending ws
    → reaching level ws ≤ c
    → c < length ws
    → get_or ws c 0 < level
below_reaching level [] c d h k = absurd (omega arith)
below_reaching level (w ∷ ws) c (d, ds) h k = elim (Bool-cases (leb level w)) [
  | inl e ↦
      elim c
          as (λ c.
            reaching level (w ∷ ws) ≤ c → c < suc (length ws) → get_or (w ∷ ws) c 0 < level) [
              | zero ↦ λ h k. absurd (ground arith)
              | suc c ↦ λ h k. below_reaching level ws c ds (ground arith) (omega arith)
            ]
        h k
  | inr e ↦
      elim c as (λ c. c < suc (length ws) → get_or (w ∷ ws) c 0 < level) [
        | zero ↦ λ k. leb→lt level w e
        | suc c ↦
            λ k. omega (arith, leb→lt level w e, All-get_or (λ y. y ≤ w) ws c 0 d (omega arith))
      ]
        k
]
