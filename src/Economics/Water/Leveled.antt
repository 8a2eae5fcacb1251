-- ===== src/Economics/Water/Leveled.antt =====
-- Each entry before and after `_reclaim_overflow`, against the water level.
use Prim.Native.Nat.{min}
use gm_validator.Prelude.{
  ℕ, zero, suc, ◌+◌, ◌-◌, ◌≤◌, ◌<◌, ◌≡◌, ◌≢◌, ◌⊎◌, ◌∙◌, refl, sym, List, length, All, All-get_or,
  get_or, arith, Bool-cases, inl, inr, leb, ltb, ◌==◌, leb→le, leb→lt, ltb→lt, ltb→le,
}
use mathlib.Core.Path.{subst}
use gm_validator.Economics.Water.{
  Entry, total, weight_at, cap_tallest, plateau_end, shave_plateau, descending_order, water_level,
  reclaim_overflow, reclaim_along,
}
use gm_validator.Decimal.{Decimal}
use gm_validator.Economics.Water.Order.{IsNodup, IsOrder, descending_order-IsOrder}
use gm_validator.Economics.Water.Writes.{view, put, put_self, put_ne, in_range-put}
use gm_validator.Economics.Water.Floor.{IsFloored}
use gm_validator.Economics.Water.Shave.{IsNodup-get_or, shave_done, shave_step}
use gm_validator.Economics.Water.Positions.{descending_order-Stands}
use gm_validator.Economics.Water.Reclaim.{IsPlateau, cap_tallest-IsPlateau, level_of_order}
use gm_validator.Economics.Water.Fair.{at, at-capped}

-- The entries at the other positions stay.
shave_plateau-frame :
    (level k : ℕ) (order : List ℕ) (r : List Entry) (d j : ℕ)
    → 2 ≤ level
    → k ≤ length order
    → d ≤ k
    → IsNodup order
    → ((b : ℕ) → b < k → at order r b ≡ level)
    → ((b : ℕ) → b < k → get_or order b 0 ≢ j)
    → weight_at (shave_plateau k order r d) j ≡ weight_at r j
shave_plateau-frame level k order r zero j l kl dk n flat apart = rw (shave_done k order r) refl
shave_plateau-frame level zero order r (suc d) j l kl dk n flat apart = absurd (omega arith)
shave_plateau-frame level (suc c) order r (suc d) j l kl dk n flat apart =
    let i = get_or order c 0 in
    let w = weight_at r i - 1 in
    rw (shave_step c order r d (omega (arith, flat c (omega arith)))) (
      shave_plateau-frame level c order (put r i w) d j l (omega arith) (omega arith) n
        (λ b lt.
          put_ne r i (get_or order b 0) w (λ q. IsNodup-get_or order b c n lt (omega arith) (sym q))
          ∙ flat b (omega arith))
        (λ b lt. apart b (omega arith))
      ∙ put_ne r i j w (apart c (omega arith)))

-- On the plateau each entry stays at the level or loses one unit.
shave_plateau-unit :
    (level k : ℕ) (order : List ℕ) (r : List Entry) (d b : ℕ)
    → 2 ≤ level
    → k ≤ length order
    → d ≤ k
    → IsNodup order
    → All (λ i. i < length r) order
    → ((b : ℕ) → b < k → at order r b ≡ level)
    → b < k
    → let out = shave_plateau k order r d in (at order out b ≡ level) ⊎ (at order out b + 1 ≡ level)
shave_plateau-unit level k order r zero b l kl dk n h flat bk =
    rw (shave_done k order r) (inl (flat b bk))
shave_plateau-unit level zero order r (suc d) b l kl dk n h flat bk = absurd (omega arith)
shave_plateau-unit level (suc c) order r (suc d) b l kl dk n h flat bk =
    let i = get_or order c 0 in
    let w = weight_at r i - 1 in
    let flat' = λ (a : ℕ) (lt : a < c).
      put_ne r i (get_or order a 0) w (λ q. IsNodup-get_or order a c n lt (omega arith) (sym q))
      ∙ flat a (omega arith) in
    rw (shave_step c order r d (omega (arith, flat c (omega arith)))) (elim (Bool-cases (b == c)) [
      | inl e ↦
          let same : b ≡ c = ground arith in
          let kept =
            shave_plateau-frame level c order (put r i w) d i l (omega arith) (omega arith) n flat'
              (λ a lt. IsNodup-get_or order a c n lt (omega arith)) in
          let wrote = put_self r i w (All-get_or (λ j. j < length r) order c 0 h (omega arith)) in
          rw same (inr (omega (arith, kept, wrote, flat c (omega arith))))
      | inr e ↦
          shave_plateau-unit level c order (put r i w) d b l (omega arith) (omega arith) n
            (in_range-put r i w order h) flat' (ground arith)
    ])

-- An entry cut at a level, and perhaps shaved.
abbrev pub IsCutAt : (level before after : ℕ) → Type 0
IsCutAt level before after = (after ≡ min before level) ⊎ ((level ≤ before) × (after + 1 ≡ level))

reclaim_along-IsCutAt :
    (r : List Entry) (order : List ℕ) (level d b : ℕ)
    → IsOrder r order
    → IsPlateau level order r d (cap_tallest level order r d)
    → b < length order
    → IsCutAt level (at order r b) (at order (reclaim_along r order level d) b)
unfolding reclaim_along
reclaim_along-IsCutAt r order level d b o p bl =
    let (out, left) = cap_tallest level order r d in
    let m = plateau_end level order out in
    let cut = at-capped r out order level b p.cap.cut bl in
    let range = rw (← p.cap.same_length) at o.in_range in
    elim (Bool-cases (leb level 1)) [
      | inl e ↦ rw (p.spent (leb→le level 1 e), shave_done m order out) (inl cut)
      | inr e ↦
          let two = leb→lt level 1 e in
          elim (Bool-cases (ltb b m)) [
            | inl f ↦
                let on = ltb→lt b m f in
                elim (shave_plateau-unit level m order out left b two (p.inside)
                  (omega (arith, p.small)) o.nodup range (p.flat) on) [
                    | inl same ↦ inl (omega (arith, same, cut, p.flat b on))
                    | inr less ↦ inr (omega (arith, cut, p.flat b on), less)
                  ]
            | inr f ↦ inl (
                shave_plateau-frame level m order out left (get_or order b 0) two (p.inside)
                  (omega (arith, p.small)) o.nodup (p.flat)
                  (λ a lt. IsNodup-get_or order a b o.nodup (omega (arith, lt, ltb→le b m f)) bl)
                ∙ cut)
          ]
    ]

-- From a vector of weights of at least 1, with a deficit that its sum covers beside a unit for each
-- entry, every entry is cut at the water level of the vector: it ends at the smaller of its weight and
-- the level, or, where it reaches the level, one unit below the level.
pub reclaim_overflow-IsCutAt :
    (r : List Entry) (shares : List Decimal) (d i : ℕ)
    → IsFloored r
    → 1 ≤ d
    → d + length r ≤ total r
    → i < length r
    → let level = water_level (view r (descending_order r shares)) d in
      IsCutAt level (weight_at r i) (weight_at (reclaim_overflow r shares d) i)
unfolding reclaim_overflow
reclaim_overflow-IsCutAt r shares d i f p c il =
    let order = descending_order r shares in
    let o = descending_order-IsOrder r shares in
    let level = water_level (view r order) d in
    let (residue, low, paid, few) = level_of_order r order d o f p c in
    let plateau = cap_tallest-IsPlateau r order level d residue o f c low paid few in
    let (b, bl, e) = descending_order-Stands r shares i il in
    subst (λ j. IsCutAt level (weight_at r j) (weight_at (reclaim_along r order level d) j)) e
      (reclaim_along-IsCutAt r order level d b o plateau bl)
