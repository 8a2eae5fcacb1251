-- ===== src/Economics/Water/Reclaim.antt =====
-- `_reclaim_overflow` as a whole: the level, the first loop and the second.
use gm_validator.Prelude.{
  ℕ, ◌+◌, ◌≤◌, ◌<◌, ◌≡◌, ◌∙◌, refl, sym, ap, List, [], ◌∷◌, length, sum, All, All-get_or, get_or,
  arith, Bool-cases, inl, inr, leb, leb→le, leb→lt,
}
use gm_validator.Economics.Water.{
  Entry, total, weight_at, cap_tallest, plateau_end, descending_order, water_level,
  reclaim_overflow, reclaim_along,
}
use gm_validator.Decimal.{Decimal}
use gm_validator.Economics.Water.Level.{excess, reaching, water_level-Accounts}
use gm_validator.Economics.Water.Order.{IsOrder, descending_order-IsOrder}
use gm_validator.Economics.Water.Writes.{view}
use gm_validator.Economics.Water.Cap.{
  IsCapped, cap_tallest-IsCapped, plateau_end-reaching, reaching-capped, reaching-le-length,
  length-map, on_plateau, get_or-view,
}
use gm_validator.Economics.Water.Floor.{IsFloored, reclaim_along-IsFloored}
use gm_validator.Economics.Water.Shave.{shave_done, shave_plateau-total}

view-floored :
    (r : List Entry) (order : List ℕ)
    → IsFloored r
    → All (λ i. i < length r) order
    → All (λ w. 1 ≤ w) (view r order)
view-floored r [] f h = tt
view-floored r (i ∷ order) f (h, hs) =
    (All-get_or (λ (e : Entry). 1 ≤ e.1) r i (0, 0) f h, view-floored r order f hs)

excess_one : (ws : List ℕ) → All (λ w. 1 ≤ w) ws → excess 1 ws + length ws ≡ sum ws
excess_one [] h = refl
excess_one (w ∷ ws) (h, hs) = omega (arith, excess_one ws hs)

-- The level of a floored vector whose surplus covers the deficit.
pub level_of_order :
    (r : List Entry) (order : List ℕ) (d : ℕ)
    → IsOrder r order
    → IsFloored r
    → 1 ≤ d
    → d + length r ≤ total r
    → let level = water_level (view r order) d in
      (residue : ℕ) × (1 ≤ level)
      × (excess level (view r order) + residue ≡ d)
      × (residue < reaching level (view r order))
level_of_order r [] d o f p c = absurd (omega (arith, o.same_total))
level_of_order r (i ∷ order) d o f p c =
    water_level-Accounts (weight_at r i) (view r order) d o.descending
      (view-floored r (i ∷ order) f o.in_range)
      (omega (arith, o.same_total, length-map (weight_at r) order, o.complete))

-- The vector between the two loops: capped, with so many entries at the level that each gives at most
-- one of the units that are left, and none left where the level is 1.
pub record IsPlateau (level : ℕ) (order : List ℕ) (r : List Entry) (d : ℕ) (out : List Entry × ℕ)
    : Type 0 where
  pub cap : IsCapped level order r d out
  pub small : out.1 < plateau_end level order out.0
  pub reached : plateau_end level order out.0 ≡ reaching level (view r order)
  pub inside : plateau_end level order out.0 ≤ length order
  pub flat :
      (b : ℕ) → b < plateau_end level order out.0 → weight_at out.0 (get_or order b 0) ≡ level
  pub spent : level ≤ 1 → out.1 ≡ 0

pub cap_tallest-IsPlateau :
    (r : List Entry) (order : List ℕ) (level d residue : ℕ)
    → IsOrder r order
    → IsFloored r
    → d + length r ≤ total r
    → 1 ≤ level
    → excess level (view r order) + residue ≡ d
    → residue < reaching level (view r order)
    → IsPlateau level order r d (cap_tallest level order r d)
cap_tallest-IsPlateau r order level d residue o f c low paid few =
    let cap = cap_tallest-IsCapped level order r d o.nodup o.in_range o.descending (omega arith) in
    let (out, left) = cap_tallest level order r d in
    let plateau : plateau_end level order out ≡ reaching level (view r order) =
      plateau_end-reaching level order out
      ∙ ap (reaching level) cap.cut
      ∙ reaching-capped level (view r order) in
    record {
      cap = cap;
      small = omega (arith, cap.paid);
      reached = plateau;
      inside =
          omega (arith, reaching-le-length level (view r order), length-map (weight_at r) order);
      flat = λ b lt.
          sym (
            get_or-view out order b (
              omega
                (arith, reaching-le-length level (view r order), length-map (weight_at r) order)))
          ∙ ap (λ ws. get_or ws b 0) cap.cut
          ∙ on_plateau level (view r order) b (omega arith);
      spent = λ e.
          let one_unit : level ≡ 1 = omega arith in
          let ones = excess_one (view r order) (view-floored r order f o.in_range) in
          let cut = rw one_unit at paid in
          omega (arith, cap.paid, length-map (weight_at r) order, o.complete, o.same_total);
    }

reclaim_along-total :
    (r : List Entry) (order : List ℕ) (level d residue : ℕ)
    → IsOrder r order
    → IsFloored r
    → d + length r ≤ total r
    → 1 ≤ level
    → excess level (view r order) + residue ≡ d
    → residue < reaching level (view r order)
    → total (reclaim_along r order level d) + d ≡ total r
unfolding reclaim_along
reclaim_along-total r order level d residue o f c low paid few =
    let p = cap_tallest-IsPlateau r order level d residue o f c low paid few in
    let (out, left) = cap_tallest level order r d in
    let m = plateau_end level order out in
    elim (Bool-cases (leb level 1)) [
      | inl e ↦
          rw (p.spent (leb→le level 1 e), shave_done m order out)
            (omega (arith, p.cap.taken, p.cap.paid, p.spent (leb→le level 1 e)))
      | inr e ↦ omega (
        arith,
        shave_plateau-total level m order out left (leb→lt level 1 e) (p.inside)
            (omega (arith, p.small)) o.nodup (rw (← p.cap.same_length) at o.in_range) (p.flat),
        p.cap.taken,
        p.cap.paid,
      )
    ]

-- From a vector of weights of at least 1, a deficit that its sum covers beside a unit for each entry
-- is taken exactly.
pub reclaim_overflow-total :
    (r : List Entry) (shares : List Decimal) (d : ℕ)
    → IsFloored r
    → 1 ≤ d
    → d + length r ≤ total r
    → total (reclaim_overflow r shares d) + d ≡ total r
unfolding reclaim_overflow
reclaim_overflow-total r shares d f p c =
    let order = descending_order r shares in
    let o = descending_order-IsOrder r shares in
    let (residue, low, paid, small) = level_of_order r order d o f p c in
    reclaim_along-total r order (water_level (view r order) d) d residue o f c low paid small

-- Under the same conditions every entry is at 1 or more after the deficit is taken.
pub reclaim_overflow-IsFloored :
    (r : List Entry) (shares : List Decimal) (d : ℕ)
    → IsFloored r
    → 1 ≤ d
    → d + length r ≤ total r
    → IsFloored (reclaim_overflow r shares d)
unfolding reclaim_overflow
reclaim_overflow-IsFloored r shares d f p c =
    let order = descending_order r shares in
    let (residue, low, paid, small) =
      level_of_order r order d (descending_order-IsOrder r shares) f p c in
    reclaim_along-IsFloored r order (water_level (view r order) d) d low f
