-- ===== src/Economics/Normalize/Budget.antt =====
-- The vector of `normalize_weights`: its sum, its entries and its uids.
use gm_validator.Prelude.{
  ℕ, suc, ◌+◌, ◌-◌, ◌≤◌, ◌<◌, ◌≡◌, ◌⊎◌, refl, sym, ◌∙◌, ap, All, true, false, Option, List, [], ◌∷◌,
  map, length, arith, Bool-cases, inl, inr, ltb, ◌==◌, ltb→lt, ltb→le, if◌then◌else◌,
}
use mathlib.Core.Bool.{true≢false}
use gm_validator.Decimal.{Decimal, nought, sum_from, lt}
use gm_validator.Decimal.Positive.{sum_from_positive}
use gm_validator.Errors.{ok, raised, value_error}
use gm_validator.Metrics.{Metrics}
use gm_validator.Economics.Epoch.{is_positive}
use gm_validator.Economics.Water.{Entry, total}
use gm_validator.Economics.Water.Floor.{IsFloored, uids_of, uids_of-reclaim_overflow}
use gm_validator.Economics.Water.Reclaim.{reclaim_overflow-total, reclaim_overflow-IsFloored}
use gm_validator.Economics.Normalize.{
  Share, max_weight, positive_shares, quantize, add_burn, settle, shares_of, distribute,
  normalize_weights, renorm_of,
}

total-add_burn : (burn rest : ℕ) (es : List Entry) → total (add_burn burn rest es) ≡ total es + rest
unfolding add_burn
total-add_burn burn rest [] = omega arith
total-add_burn burn rest ((uid, w) ∷ es) = ground (arith, total-add_burn burn rest es)

add_burn-IsFloored :
    (burn rest : ℕ) (es : List Entry) → 1 ≤ rest → IsFloored es → IsFloored (add_burn burn rest es)
unfolding add_burn
add_burn-IsFloored burn rest [] h f = (h, tt)
add_burn-IsFloored burn rest ((uid, w) ∷ es) h (f, fs) =
    ground (arith, add_burn-IsFloored burn rest es h fs)

-- The uids with the burn uid at the end, unless it is there.
abbrev pub with_burn : ℕ → List ℕ → List ℕ
with_burn burn [] = burn ∷ []
with_burn burn (u ∷ us) = if u == burn then u ∷ us else u ∷ with_burn burn us

uids_of-add_burn :
    (burn rest : ℕ) (es : List Entry)
    → uids_of (add_burn burn rest es) ≡ with_burn burn (uids_of es)
unfolding add_burn
uids_of-add_burn burn rest [] = refl
uids_of-add_burn burn rest ((uid, w) ∷ es) = ground (arith, uids_of-add_burn burn rest es)

pub quantize-IsFloored : (renorm : Decimal) (ss : List Share) → IsFloored (map (quantize renorm) ss)
unfolding quantize
quantize-IsFloored renorm [] = tt
quantize-IsFloored renorm (s ∷ ss) = (ground arith, quantize-IsFloored renorm ss)

pub length-quantize :
    (renorm : Decimal) (ss : List Share) → length (map (quantize renorm) ss) ≡ length ss
length-quantize renorm [] = refl
length-quantize renorm (s ∷ ss) = ap suc (length-quantize renorm ss)

-- A vector that sums to the budget in weights of at least 1.
pub record IsFull (es : List Entry) : Type 0 where
  pub whole : total es ≡ max_weight
  pub floored : IsFloored es

settle-IsFull :
    (es : List Entry) (shares : List Decimal) (burn : ℕ)
    → IsFloored es
    → length es ≤ max_weight
    → IsFull (settle es shares burn)
unfolding settle
settle-IsFull es shares burn f h = elim (Bool-cases (ltb max_weight (total es))) [
  | inl over ↦
      let gap : 1 ≤ total es - max_weight = omega (arith, ltb→lt _ _ over) in
      let covered : total es - max_weight + length es ≤ total es = omega (arith, ltb→lt _ _ over) in
      rw over (record {
        whole =
            omega (arith, reclaim_overflow-total es shares (total es - max_weight) f gap covered);
        floored = reclaim_overflow-IsFloored es shares (total es - max_weight) f gap covered;
      })
  | inr within ↦ elim (Bool-cases (ltb (total es) max_weight)) [
    | inl under ↦
        let rest = max_weight - total es in
        rw (within, under)
          (record {
            whole = omega (arith, total-add_burn burn rest es, ltb→lt _ _ under);
            floored = add_burn-IsFloored burn rest es (omega (arith, ltb→lt _ _ under)) f;
          })
    | inr exact ↦
        rw (within, exact)
          (record { whole = omega (arith, ltb→le _ _ within, ltb→le _ _ exact); floored = f })
  ]
]

-- Who is in the vector: the miners in order, and the burn uid if it is one of them or stands at the
-- end.
abbrev pub HasUids : ℕ → List ℕ → List Entry → Type 0
HasUids burn us es = (uids_of es ≡ us) ⊎ (uids_of es ≡ with_burn burn us)

settle-HasUids :
    (es : List Entry) (shares : List Decimal) (burn : ℕ)
    → HasUids burn (uids_of es) (settle es shares burn)
unfolding settle
settle-HasUids es shares burn = elim (Bool-cases (ltb max_weight (total es))) [
  | inl over ↦ rw over (inl (uids_of-reclaim_overflow es shares (total es - max_weight)))
  | inr within ↦ elim (Bool-cases (ltb (total es) max_weight)) [
    | inl under ↦ rw (within, under) (inr (uids_of-add_burn burn (max_weight - total es) es))
    | inr exact ↦ rw (within, exact) (inl refl)
  ]
]

abbrev pub share_uids : List Share → List ℕ
share_uids = map λ (s : Share). s.0

uids_of-quantize :
    (renorm : Decimal) (ss : List Share) → uids_of (map (quantize renorm) ss) ≡ share_uids ss
unfolding quantize
uids_of-quantize renorm [] = refl
uids_of-quantize renorm (s ∷ ss) = rw (uids_of-quantize renorm ss)

-- What a returned vector is: the full budget, in positive parts, for the miners of positive weight
-- and the burn uid, or, where there is no such miner, for the burn uid alone.
abbrev pub IsPayout : ℕ → List Share → List Entry → Type 0
IsPayout burn cleaned out =
    IsFull out
    × (HasUids burn (share_uids cleaned) out ⊎ ((uids_of out ≡ burn ∷ []) × (cleaned ≡ [])))

all_burn-IsFull : (burn : ℕ) → IsFull ((burn, max_weight) ∷ [])
all_burn-IsFull burn = record { whole = refl; floored = (omega arith, tt) }

-- Positive weights, of which there are some, have a positive sum.
abbrev pub AllPositive : List Share → Type 0
AllPositive = All λ (s : Share). is_positive s.1 ≡ true

AllPositive-shares_of :
    (ss : List Share) → AllPositive ss → All (λ (d : Decimal). lt nought d ≡ true) (shares_of ss)
AllPositive-shares_of [] h = tt
AllPositive-shares_of (s ∷ ss) (h, hs) = (h, AllPositive-shares_of ss hs)

pub unpaid :
    (ss : List Share)
    → AllPositive ss
    → is_positive (sum_from nought (shares_of ss)) ≡ false
    → ss ≡ []
unpaid [] h e = refl
unpaid (s ∷ ss) (h, hs) e =
    let above = sum_from_positive s.1 (shares_of ss) h (AllPositive-shares_of ss hs) in
    absurd (true≢false (sym above ∙ e))

pub positive_shares-AllPositive : (ss : List Share) → AllPositive (positive_shares ss)
unfolding positive_shares
positive_shares-AllPositive [] = tt
positive_shares-AllPositive ((u, w) ∷ ss) = elim (Bool-cases (is_positive w)) [
  | inl e ↦ rw e (e, positive_shares-AllPositive ss)
  | inr e ↦ rw e (positive_shares-AllPositive ss)
]

pub length_zero : (ss : List Share) → (length ss == 0) ≡ true → ss ≡ []
length_zero [] h = refl
length_zero (s ∷ ss) h = absurd (ground arith)

distribute-IsPayout :
    (cleaned : List Share) (burn : ℕ) (demand : Option Decimal) (m : Metrics)
    → AllPositive cleaned
    → length cleaned ≤ max_weight
    → (out : List Entry) × ((distribute cleaned burn demand m).1 ≡ ok out)
      × IsPayout burn cleaned out
unfolding distribute
distribute-IsPayout cleaned burn demand m p h =
    let sum_positive = is_positive (sum_from nought (shares_of cleaned)) in
    let renorm = renorm_of (sum_from nought (shares_of cleaned)) demand in
    let es = map (quantize renorm) cleaned in
    elim (Bool-cases sum_positive) [
      | inl e ↦ rw e (
        settle es (shares_of cleaned) burn,
        refl,
        (
          settle-IsFull es (shares_of cleaned) burn (quantize-IsFloored renorm cleaned)
              (omega (arith, length-quantize renorm cleaned)),
          inl (
              rw (uids_of-quantize renorm cleaned) at (settle-HasUids es (shares_of cleaned) burn)),
        ),
      )
      | inr e ↦
          rw e
            ((burn, max_weight) ∷ [], refl, (all_burn-IsFull burn, inr (refl, unpaid cleaned p e)))
    ]

-- Whenever at most 65535 miners have a positive weight, `normalize_weights` returns a vector. Its
-- weights sum to exactly 65535 and each is at least 1. Its uids are those miners' in their order,
-- with the burn uid at the end where it is needed and is not among them, or, only where there is no
-- such miner, the burn uid alone.
pub normalize_weights-IsPayout :
    (miner_weights : List Share) (burn : ℕ) (demand : Option Decimal) (m : Metrics)
    → length (positive_shares miner_weights) ≤ max_weight
    → (out : List Entry) × ((normalize_weights miner_weights burn demand m).1 ≡ ok out)
      × IsPayout burn (positive_shares miner_weights) out
unfolding normalize_weights
normalize_weights-IsPayout miner_weights burn demand m h =
    let cleaned = positive_shares miner_weights in
    elim (Bool-cases (length cleaned == 0)) [
      | inl e ↦
          rw e (
            (burn, max_weight) ∷ [],
            refl,
            (all_burn-IsFull burn, inr (refl, length_zero cleaned e)),
          )
      | inr e ↦
          let fits : ltb max_weight (length cleaned) ≡ false = ground arith in
          rw (e, fits)
            (distribute-IsPayout cleaned burn demand m (positive_shares-AllPositive miner_weights)
              h)
    ]

-- With more positive miners than units it raises a ValueError, and leaves the gauges alone.
pub normalize_weights_over :
    (miner_weights : List Share) (burn : ℕ) (demand : Option Decimal) (m : Metrics)
    → max_weight < length (positive_shares miner_weights)
    → normalize_weights miner_weights burn demand m ≡ (m, raised value_error)
unfolding normalize_weights
normalize_weights_over miner_weights burn demand m h = ground arith
