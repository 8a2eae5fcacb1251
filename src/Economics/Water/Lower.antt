-- ===== src/Economics/Water/Lower.antt =====
-- The entries before and after `_reclaim_overflow`, one by one.
use gm_validator.Prelude.{
  ℕ, zero, suc, ◌-◌, ◌≤◌, ◌≡◌, refl, ◌∙◌, List, [], ◌∷◌, map, get_or, arith, Bool-cases, inl, inr,
  leb, ltb, leb→lt, ◌==◌, if◌then◌else◌,
}
use gm_validator.Decimal.{Decimal}
use gm_validator.Economics.Water.{
  Entry, weight_at, cap_tallest, shave_plateau, reclaim_along, reclaim_overflow, plateau_end,
  water_level, descending_order,
}
use gm_validator.Economics.Water.Writes.{put}

-- The same uids, with weights that are no larger.
abbrev pub NoMore : List Entry → List Entry → Type 0
NoMore [] [] = Unit
NoMore ((u, w) ∷ es) ((v, x) ∷ out) = (v ≡ u) × (x ≤ w) × NoMore es out
NoMore _ _ = ⊥

NoMore-refl : (es : List Entry) → NoMore es es
NoMore-refl [] = tt
NoMore-refl ((u, w) ∷ es) = (refl, omega arith, NoMore-refl es)

NoMore-trans : (a b c : List Entry) → NoMore a b → NoMore b c → NoMore a c
NoMore-trans [] [] [] h k = tt
NoMore-trans ((u, w) ∷ a) ((v, x) ∷ b) ((t, y) ∷ c) (e, l, h) (f, m, k) =
    (f ∙ e, omega (arith, l, m), NoMore-trans a b c h k)
NoMore-trans [] (_ ∷ _) c h k = absurd h
NoMore-trans (_ ∷ _) [] c h k = absurd h
NoMore-trans [] [] (_ ∷ _) h k = absurd k
NoMore-trans (_ ∷ _) (_ ∷ _) [] h k = absurd k

put-NoMore : (r : List Entry) (i w : ℕ) → w ≤ weight_at r i → NoMore r (put r i w)
put-NoMore [] i w h = tt
put-NoMore ((u, x) ∷ r) zero w h = (refl, h, NoMore-refl r)
put-NoMore ((u, x) ∷ r) (suc i) w h = (refl, omega arith, put-NoMore r i w h)

cap_tallest-NoMore :
    (level : ℕ) (order : List ℕ) (r : List Entry) (d : ℕ) → NoMore r (cap_tallest level order r d).0
unfolding cap_tallest
cap_tallest-NoMore level [] r d = NoMore-refl r
cap_tallest-NoMore level (idx ∷ order) r d = elim (Bool-cases (leb (weight_at r idx) level)) [
  | inl e ↦ rw e (NoMore-refl r)
  | inr e ↦
      let above = leb→lt _ _ e in
      rw e (
        NoMore-trans r (put r idx level) _ (put-NoMore r idx level (omega (arith, above)))
          (cap_tallest-NoMore level order (put r idx level) (d - (weight_at r idx - level))))
]

abbrev shaved : List Entry → ℕ → List Entry
shaved r i = if ltb 1 (weight_at r i) then put r i (weight_at r i - 1) else r

shaved-NoMore : (r : List Entry) (i : ℕ) → NoMore r (shaved r i)
shaved-NoMore r i = elim (Bool-cases (ltb 1 (weight_at r i))) [
  | inl e ↦ rw e (put-NoMore r i (weight_at r i - 1) (omega arith))
  | inr e ↦ rw e (NoMore-refl r)
]

shave_plateau-NoMore :
    (k : ℕ) (order : List ℕ) (r : List Entry) (d : ℕ) → NoMore r (shave_plateau k order r d)
unfolding shave_plateau
shave_plateau-NoMore zero order r d = NoMore-refl r
shave_plateau-NoMore (suc c) order r d = elim (Bool-cases (d == 0)) [
  | inl e ↦ rw e (NoMore-refl r)
  | inr e ↦
      let i = get_or order c 0 in
      rw e (
        NoMore-trans r (shaved r i) _ (shaved-NoMore r i)
          (shave_plateau-NoMore c order (shaved r i) (if ltb 1 (weight_at r i) then d - 1 else d)))
]

pub reclaim_overflow-NoMore :
    (r : List Entry) (shares : List Decimal) (d : ℕ) → NoMore r (reclaim_overflow r shares d)
unfolding reclaim_overflow reclaim_along
reclaim_overflow-NoMore r shares d =
    let order = descending_order r shares in
    let level = water_level (map (weight_at r) order) d in
    let (out, left) = cap_tallest level order r d in
    NoMore-trans r out _ (cap_tallest-NoMore level order r d)
      (shave_plateau-NoMore (plateau_end level order out) order out left)
