-- ===== src/Economics/Water/Least.antt =====
-- `_water_level` against the caps that a deficit covers.
use gm_validator.Prelude.{
  ℕ, zero, suc, ◌+◌, ◌≤◌, ◌<◌, ◌≡◌, ◌↔◌, refl, List, [], ◌∷◌, length, sum, All, arith, Bool-cases,
  inl, inr, leb, leb→le, leb→lt,
}
use gm_validator.Economics.Water.{water_level}
use gm_validator.Economics.Water.Level.{
  IsDescending, excess, reaching, excess_zero, All-le_trans, water_level-Accounts,
}

excess_antitone : (a b : ℕ) (ws : List ℕ) → a ≤ b → excess b ws ≤ excess a ws
excess_antitone a b [] h = omega arith
excess_antitone a b (w ∷ ws) h = omega (arith, excess_antitone a b ws h)

-- One level lower, the cap takes a unit more of each entry that reaches the level.
excess-suc :
    (l : ℕ) (ws : List ℕ) → IsDescending ws → excess l ws ≡ excess (suc l) ws + reaching (suc l) ws
excess-suc l [] d = refl
excess-suc l (w ∷ ws) (d, ds) = elim (Bool-cases (leb (suc l) w)) [
  | inl e ↦ ground (arith, excess-suc l ws ds)
  | inr e ↦
      let low = All-le_trans w l ws (omega (arith, leb→lt _ _ e)) d in
      let lower = All-le_trans l (suc l) ws (omega arith) low in
      ground (arith, leb→lt _ _ e, excess_zero l ws low, excess_zero (suc l) ws lower)
]

least :
    (level deficit residue l : ℕ) (ws : List ℕ)
    → IsDescending ws
    → excess level ws + residue ≡ deficit
    → residue < reaching level ws
    → excess l ws ≤ deficit
    → 1 ≤ level
    → level ≤ l
least (suc k) deficit residue l ws d paid few h low = elim (Bool-cases (leb (suc k) l)) [
  | inl e ↦ leb→le _ _ e
  | inr e ↦
      absurd
        (omega (arith, excess-suc k ws d, excess_antitone l k ws (omega (arith, leb→lt _ _ e))))
]
least zero deficit residue l ws d paid few h low = omega arith

-- On descending weights of at least 1 whose sum less their number covers the deficit, a cap at a level
-- takes no more than the deficit exactly when the level is at least the one that `_water_level` finds.
pub water_level_iff :
    (w : ℕ) (ws : List ℕ) (deficit l : ℕ)
    → IsDescending (w ∷ ws)
    → All (λ x. 1 ≤ x) (w ∷ ws)
    → deficit + length (w ∷ ws) ≤ sum (w ∷ ws)
    → (excess l (w ∷ ws) ≤ deficit) ↔ (water_level (w ∷ ws) deficit ≤ l)
water_level_iff w ws deficit l d f c =
    let (residue, low, paid, few) = water_level-Accounts w ws deficit d f c in
    let level = water_level (w ∷ ws) deficit in
    (
      λ h. least level deficit residue l (w ∷ ws) d paid few h low,
      λ h. omega (arith, paid, excess_antitone level l (w ∷ ws) h),
    )
