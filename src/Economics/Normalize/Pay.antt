-- ===== src/Economics/Normalize/Pay.antt =====
-- What each miner is paid by `normalize_weights`, against what its share is worth in units.
use gm_validator.Prelude.{
  ℕ, ◌+◌, ◌-◌, if◌then◌else◌, ◌≤◌, ◌<◌, ◌≡◌, ◌⊎◌, refl, Option, List, [], ◌∷◌, map, length, arith,
  Bool-cases, inl, inr, ltb, ◌==◌, ltb→lt, ltb→le,
}
use gm_validator.Decimal.{Decimal, nought, one, of_int, mul, div, max, to_int, sum_from}
use gm_validator.Prelude.{zero, suc, none, some}
use gm_validator.Prelude.Int.{pos, pos_part}
use mathlib.Core.Option
use mathlib.Core.Path.{subst}
use gm_validator.Prelude.{sym}
use gm_validator.Errors.{ok, ok_injective}
use gm_validator.Metrics.{Metrics}
use gm_validator.Economics.Epoch.{is_positive}
use gm_validator.Economics.Water.{Entry, total}
use gm_validator.Economics.Water.Lower.{NoMore, reclaim_overflow-NoMore}
use gm_validator.Economics.Normalize.{
  Share, max_weight, positive_shares, quantize, add_burn, settle, shares_of, distribute,
  normalize_weights, renorm_of,
}
use gm_validator.Economics.Normalize.Budget.{
  AllPositive, unpaid, positive_shares-AllPositive, length_zero,
}

-- The same uids and weights, but for the weight of the burn uid and an entry for it at the end.
abbrev pub KeepsBut : ℕ → List Entry → List Entry → Type 0
KeepsBut burn [] [] = Unit
KeepsBut burn [] (e ∷ []) = e.0 ≡ burn
KeepsBut burn ((u, w) ∷ es) ((v, x) ∷ out) = (v ≡ u) × ((x ≡ w) ⊎ (u ≡ burn)) × KeepsBut burn es out
KeepsBut _ _ _ = ⊥

KeepsBut-refl : (burn : ℕ) (es : List Entry) → KeepsBut burn es es
KeepsBut-refl burn [] = tt
KeepsBut-refl burn ((u, w) ∷ es) = (refl, inl refl, KeepsBut-refl burn es)

add_burn-KeepsBut : (burn rest : ℕ) (es : List Entry) → KeepsBut burn es (add_burn burn rest es)
unfolding add_burn
add_burn-KeepsBut burn rest [] = refl
add_burn-KeepsBut burn rest ((u, w) ∷ es) = elim (Bool-cases (u == burn)) [
  | inl e ↦ let same : u ≡ burn = ground arith in rw e (refl, inr same, KeepsBut-refl burn es)
  | inr e ↦ rw e (refl, inl refl, add_burn-KeepsBut burn rest es)
]

-- What a uid gets of a vector, in all.
abbrev pub earned : ℕ → List Entry → ℕ
earned uid [] = 0
earned uid ((u, w) ∷ es) = (if u == uid then w else 0) + earned uid es

-- Every uid gets what it got, and the burn uid exactly so many units on top.
abbrev pub Tops : ℕ → ℕ → List Entry → List Entry → Type 0
Tops burn rest es out =
    (uid : ℕ) → earned uid out ≡ earned uid es + (if uid == burn then rest else 0)

Tops-refl : (burn : ℕ) (es : List Entry) → Tops burn 0 es es
Tops-refl burn es uid = elim (Bool-cases (uid == burn)) [
  | inl e ↦ rw e (omega arith)
  | inr e ↦ rw e (omega arith)
]

add_burn-Tops : (burn rest : ℕ) (es : List Entry) → Tops burn rest es (add_burn burn rest es)
unfolding add_burn
add_burn-Tops burn rest [] uid = ground arith
add_burn-Tops burn rest ((u, w) ∷ es) uid =
    let more = add_burn-Tops burn rest es uid in
    elim (Bool-cases (u == burn)) [
      | inl e ↦ rw e (ground arith)
      | inr e ↦ rw e (omega (arith, more))
    ]

-- Where the units of all miners fit into the budget each miner gets exactly its units, and the burn
-- uid exactly what is left of 65535 on top; where they do not, none gets more than its units.
abbrev pub IsPaid : ℕ → List Entry → List Entry → Type 0
IsPaid burn es out =
    ((total es ≤ max_weight) × KeepsBut burn es out × Tops burn (max_weight - total es) es out)
    ⊎ ((max_weight < total es) × NoMore es out)

settle-IsPaid :
    (es : List Entry) (shares : List Decimal) (burn : ℕ) → IsPaid burn es (settle es shares burn)
unfolding settle
settle-IsPaid es shares burn = elim (Bool-cases (ltb max_weight (total es))) [
  | inl over ↦
      let more = ltb→lt _ _ over in
      rw over (inr (more, reclaim_overflow-NoMore es shares (total es - max_weight)))
  | inr within ↦
      let fits = ltb→le _ _ within in
      elim (Bool-cases (ltb (total es) max_weight)) [
        | inl under ↦
            rw (within, under)
              (inl (
                fits,
                add_burn-KeepsBut burn (max_weight - total es) es,
                add_burn-Tops burn (max_weight - total es) es,
              ))
        | inr exact ↦
            let none_left : 0 ≡ max_weight - total es = ground arith in
            rw (within, exact)
              (inl (
                fits,
                KeepsBut-refl burn es,
                subst (λ rest. Tops burn rest es es) none_left (Tops-refl burn es),
              ))
      ]
]

-- The units of each share: its part of the larger of 1 and the demand, in 65535ths rounded down, and
-- 1 at least.
abbrev pub units_of : List Share → Option Decimal → List Entry
units_of cleaned demand =
    map (quantize (renorm_of (sum_from nought (shares_of cleaned)) demand)) cleaned

-- The same, share by share: what `int` leaves of 65535 times the share over the scale, and 1 for
-- nothing.
abbrev pub at_least_one : ℕ → ℕ
at_least_one zero = 1
at_least_one (suc n) = suc n

abbrev pub scale_of : List Share → Option Decimal → Decimal
scale_of cleaned demand = max (Option.get_or demand (sum_from nought (shares_of cleaned))) one

abbrev pub due : Decimal → List Share → List Entry
due scale [] = []
due scale ((uid, share) ∷ cleaned) =
    (uid, at_least_one (pos_part (to_int (mul (div share scale) (of_int (pos 65535))))))
    ∷ due scale cleaned

floored : (n : ℕ) → (if ltb 1 n then n else 1) ≡ at_least_one n
floored zero = refl
floored (suc n) = ground arith

quantize-due :
    (scale : Decimal) (cleaned : List Share) → map (quantize scale) cleaned ≡ due scale cleaned
unfolding quantize
quantize-due scale [] = refl
quantize-due scale ((uid, share) ∷ cleaned) =
    rw
      (
        quantize-due scale cleaned,
        floored (pos_part (to_int (mul (div share scale) (of_int (pos 65535))))),
      )
      refl

units_of-due :
    (cleaned : List Share) (demand : Option Decimal)
    → units_of cleaned demand ≡ due (scale_of cleaned demand) cleaned
units_of-due cleaned none = quantize-due _ cleaned
units_of-due cleaned (some d) = quantize-due _ cleaned

abbrev pub Pays : ℕ → Option Decimal → List Share → List Entry → Type 0
Pays burn demand cleaned out =
    IsPaid burn (due (scale_of cleaned demand) cleaned) out
    ⊎ ((cleaned ≡ []) × (out ≡ (burn, max_weight) ∷ []))

distribute-Pays :
    (cleaned : List Share) (burn : ℕ) (demand : Option Decimal) (m : Metrics) (out : List Entry)
    → AllPositive cleaned
    → (distribute cleaned burn demand m).1 ≡ ok out
    → Pays burn demand cleaned out
unfolding distribute
distribute-Pays cleaned burn demand m out p h =
    elim (Bool-cases (is_positive (sum_from nought (shares_of cleaned)))) [
      | inl e ↦ inl (
          subst (λ es. IsPaid burn es out) (units_of-due cleaned demand)
            (subst (IsPaid burn (units_of cleaned demand)) (ok_injective (rw e at h))
              (settle-IsPaid (units_of cleaned demand) (shares_of cleaned) burn)))
      | inr e ↦ inr (unpaid cleaned p e, sym (ok_injective (rw e at h)))
    ]

-- Whatever `normalize_weights` returns pays the miners of positive weight by their units: 65535 times
-- the share over the larger of 1 and the demand (the sum of the shares where none is given), rounded
-- down, and 1 unit at least. Each gets exactly its units where all of them fit into 65535, and the
-- burn uid exactly what is then left of 65535 on top of its own; none more than its units where they
-- do not fit. Only where there is no such miner does the burn uid get everything.
pub normalize_weights-Pays :
    (miner_weights : List Share) (burn : ℕ) (demand : Option Decimal) (m : Metrics)
    (out : List Entry)
    → (normalize_weights miner_weights burn demand m).1 ≡ ok out
    → Pays burn demand (positive_shares miner_weights) out
unfolding normalize_weights
normalize_weights-Pays miner_weights burn demand m out h =
    let cleaned = positive_shares miner_weights in
    elim (Bool-cases (length cleaned == 0)) [
      | inl e ↦ inr (length_zero cleaned e, sym (ok_injective (rw e at h)))
      | inr e ↦ elim (Bool-cases (ltb max_weight (length cleaned))) [
        | inl over ↦ cc (rw (e, over) at h)
        | inr fits ↦
            distribute-Pays cleaned burn demand m out (positive_shares-AllPositive miner_weights)
              (rw (e, fits) at h)
      ]
    ]
