-- ===== src/Economics/Water/Floor.antt =====
-- The uids and the 1-unit floor under `_reclaim_overflow`.
use gm_validator.Prelude.{
  ℕ, zero, suc, ◌-◌, ◌≤◌, ◌≡◌, ◌∙◌, refl, List, [], ◌∷◌, map, All, All-set, get_or, arith,
  Bool-cases, inl, inr, leb, ltb, ◌==◌, ltb→lt, if◌then◌else◌,
}
use gm_validator.Decimal.{Decimal}
use gm_validator.Economics.Water.{
  Entry, weight_at, uid_at, cap_tallest, shave_plateau, reclaim_along, reclaim_overflow,
  plateau_end, water_level, descending_order,
}
use gm_validator.Economics.Water.Writes.{put}

-- Every weight is at least 1.
abbrev pub IsFloored : List Entry → Type 0
IsFloored = All λ (e : Entry). 1 ≤ e.1

abbrev pub uids_of : List Entry → List ℕ
uids_of = map λ (e : Entry). e.0

uids_of-put : (r : List Entry) (i w : ℕ) → uids_of (put r i w) ≡ uids_of r
uids_of-put [] i w = refl
uids_of-put (e ∷ r) zero w = refl
uids_of-put (e ∷ r) (suc i) w = rw (uids_of-put r i w)

uids_of-cap_tallest :
    (level : ℕ) (order : List ℕ) (r : List Entry) (d : ℕ)
    → uids_of (cap_tallest level order r d).0 ≡ uids_of r
unfolding cap_tallest
uids_of-cap_tallest level [] r d = refl
uids_of-cap_tallest level (idx ∷ order) r d = elim (Bool-cases (leb (weight_at r idx) level)) [
  | inl e ↦ rw e
  | inr e ↦ rw e (
      uids_of-cap_tallest level order (put r idx level) (d - (weight_at r idx - level))
      ∙ uids_of-put r idx level)
]

cap_tallest-IsFloored :
    (level : ℕ) (order : List ℕ) (r : List Entry) (d : ℕ)
    → 1 ≤ level
    → IsFloored r
    → IsFloored (cap_tallest level order r d).0
unfolding cap_tallest
cap_tallest-IsFloored level [] r d l f = f
cap_tallest-IsFloored level (idx ∷ order) r d l f =
    elim (Bool-cases (leb (weight_at r idx) level)) [
      | inl e ↦ rw e f
      | inr e ↦ rw e (
          cap_tallest-IsFloored level order (put r idx level) (d - (weight_at r idx - level)) l
            (All-set (λ (e : Entry). 1 ≤ e.1) r idx (uid_at r idx, level) f l))
    ]

-- What the round of `shave_plateau` at an index leaves.
abbrev shaved : List Entry → ℕ → List Entry
shaved r i = if ltb 1 (weight_at r i) then put r i (weight_at r i - 1) else r

uids_of-shaved : (r : List Entry) (i : ℕ) → uids_of (shaved r i) ≡ uids_of r
uids_of-shaved r i = elim (Bool-cases (ltb 1 (weight_at r i))) [
  | inl e ↦ rw e (uids_of-put r i (weight_at r i - 1))
  | inr e ↦ rw e
]

shaved-IsFloored : (r : List Entry) (i : ℕ) → IsFloored r → IsFloored (shaved r i)
shaved-IsFloored r i f = elim (Bool-cases (ltb 1 (weight_at r i))) [
  | inl e ↦
      let tall = ltb→lt 1 (weight_at r i) e in
      rw e (All-set (λ (e : Entry). 1 ≤ e.1) r i (uid_at r i, weight_at r i - 1) f (omega arith))
  | inr e ↦ rw e f
]

uids_of-shave_plateau :
    (k : ℕ) (order : List ℕ) (r : List Entry) (d : ℕ)
    → uids_of (shave_plateau k order r d) ≡ uids_of r
unfolding shave_plateau
uids_of-shave_plateau zero order r d = refl
uids_of-shave_plateau (suc c) order r d = elim (Bool-cases (d == 0)) [
  | inl e ↦ rw e
  | inr e ↦
      let i = get_or order c 0 in
      rw e (
        uids_of-shave_plateau c order (shaved r i) (if ltb 1 (weight_at r i) then d - 1 else d)
        ∙ uids_of-shaved r i)
]

shave_plateau-IsFloored :
    (k : ℕ) (order : List ℕ) (r : List Entry) (d : ℕ)
    → IsFloored r
    → IsFloored (shave_plateau k order r d)
unfolding shave_plateau
shave_plateau-IsFloored zero order r d f = f
shave_plateau-IsFloored (suc c) order r d f = elim (Bool-cases (d == 0)) [
  | inl e ↦ rw e f
  | inr e ↦
      let i = get_or order c 0 in
      rw e (
        shave_plateau-IsFloored c order (shaved r i) (if ltb 1 (weight_at r i) then d - 1 else d)
          (shaved-IsFloored r i f))
]

uids_of-reclaim_along :
    (r : List Entry) (order : List ℕ) (level d : ℕ)
    → uids_of (reclaim_along r order level d) ≡ uids_of r
unfolding reclaim_along
uids_of-reclaim_along r order level d =
    let (out, left) = cap_tallest level order r d in
    uids_of-shave_plateau (plateau_end level order out) order out left
    ∙ uids_of-cap_tallest level order r d

pub uids_of-reclaim_overflow :
    (r : List Entry) (shares : List Decimal) (d : ℕ)
    → uids_of (reclaim_overflow r shares d) ≡ uids_of r
unfolding reclaim_overflow
uids_of-reclaim_overflow r shares d =
    let order = descending_order r shares in
    uids_of-reclaim_along r order (water_level (map (weight_at r) order) d) d

pub reclaim_along-IsFloored :
    (r : List Entry) (order : List ℕ) (level d : ℕ)
    → 1 ≤ level
    → IsFloored r
    → IsFloored (reclaim_along r order level d)
unfolding reclaim_along
reclaim_along-IsFloored r order level d l f =
    let (out, left) = cap_tallest level order r d in
    shave_plateau-IsFloored (plateau_end level order out) order out left
      (cap_tallest-IsFloored level order r d l f)
