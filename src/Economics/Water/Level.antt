-- ===== src/Economics/Water/Level.antt =====
-- The level of `_water_level` on weights in descending order.
use gm_validator.Prelude.{
  ℕ, suc, ◌+◌, ◌-◌, ◌*◌, ◌/◌, ◌%◌, ◌≤◌, ◌<◌, ◌≡◌, refl, sym, List, [], ◌∷◌, leb, ltb, if◌then◌else◌,
  length, sum, All, arith, Bool-cases, inl, inr, leb→le, leb→lt, true, false,
}
use mathlib.Core.Path.{subst}
use gm_validator.Economics.Water.{water_from, water_level}

abbrev pub IsDescending : List ℕ → Type 0
IsDescending [] = Unit
IsDescending (x ∷ xs) = All (λ y. y ≤ x) xs × IsDescending xs

-- What capping at a level takes off a vector, and how many of its entries reach the level.
abbrev pub excess : ℕ → List ℕ → ℕ
excess level [] = 0
excess level (w ∷ ws) = (w - level) + excess level ws

abbrev pub reaching : ℕ → List ℕ → ℕ
reaching level [] = 0
reaching level (w ∷ ws) = if ltb w level then 0 else suc (reaching level ws)

div-le : (x r m : ℕ) → 0 < r → x ≤ r * m → x / r ≤ m
div-le x r m h k = grind arith

split_mul : (r a b c : ℕ) → c ≤ b → b ≤ a → r * (a - b) + r * (b - c) ≡ r * (a - c)
split_mul r a b c h k = grind arith

mul_back : (r a b : ℕ) → b ≤ a → r * (a - b) + r * b ≡ r * a
mul_back r a b h = grind arith

div_split : (x r : ℕ) → 0 < r → (r * (x / r) + x % r ≡ x) × (x % r < r)
div_split x r h = grind arith

pub excess_zero : (level : ℕ) (ws : List ℕ) → All (λ y. y ≤ level) ws → excess level ws ≡ 0
excess_zero level [] h = refl
excess_zero level (w ∷ ws) (h, hs) = omega (arith, excess_zero level ws hs)

pub All-le_trans : (a b : ℕ) (ws : List ℕ) → a ≤ b → All (λ y. y ≤ a) ws → All (λ y. y ≤ b) ws
All-le_trans a b [] h k = tt
All-le_trans a b (w ∷ ws) h (k, ks) = (omega arith, All-le_trans a b ws h ks)

-- The bookkeeping of a level: all of the deficit but a residue is taken by the cap, and the residue
-- is smaller than the number of entries that reach the level.
abbrev pub Accounts : (rank reclaimed deficit prev : ℕ) → List ℕ → ℕ → Type 0
Accounts rank reclaimed deficit prev ws level =
    (residue : ℕ) × (level ≤ prev)
    × (reclaimed + rank * (prev - level) + excess level ws + residue ≡ deficit)
    × (residue < rank + reaching level ws)

-- The branch that stops at `prev`, where the level is at least the next weight.
stop_Accounts :
    (rank reclaimed deficit prev : ℕ) (ws : List ℕ)
    → 0 < rank
    → reclaimed ≤ deficit
    → (deficit - reclaimed) / rank ≤ prev
    → All (λ y. y ≤ prev - (deficit - reclaimed) / rank) ws
    → Accounts rank reclaimed deficit prev ws (prev - (deficit - reclaimed) / rank)
stop_Accounts rank reclaimed deficit prev ws h k q low =
    let x = deficit - reclaimed in
    let (whole, small) = div_split x rank h in
    let back : prev - (prev - x / rank) ≡ x / rank = omega arith in
    (
      x % rank,
      omega arith,
      rw (back, excess_zero (prev - x / rank) ws low) (omega arith),
      omega arith,
    )

-- The weights can give the deficit up and keep a unit each.
abbrev pub Covers : (rank reclaimed deficit prev : ℕ) → List ℕ → Type 0
Covers rank reclaimed deficit prev ws =
    deficit + (rank + length ws) ≤ reclaimed + (rank * prev + sum ws)

last_quotient :
    (rank reclaimed deficit prev : ℕ)
    → 0 < rank
    → 1 ≤ prev
    → Covers rank reclaimed deficit prev []
    → (deficit - reclaimed) / rank + 1 ≤ prev
last_quotient rank reclaimed deficit prev h p c =
    let low : deficit - reclaimed ≤ rank * (prev - 1) = omega (arith, mul_back rank prev 1 p) in
    omega (arith, div-le (deficit - reclaimed) rank (prev - 1) h low)

step_Covers :
    (rank reclaimed deficit prev w : ℕ) (ws : List ℕ)
    → w ≤ prev
    → Covers rank reclaimed deficit prev (w ∷ ws)
    → Covers (rank + 1) (reclaimed + rank * (prev - w)) deficit w ws
step_Covers rank reclaimed deficit prev w ws h c = omega (arith, mul_back rank prev w h)

step_Accounts :
    (rank reclaimed deficit prev w : ℕ) (ws : List ℕ) (level : ℕ)
    → w ≤ prev
    → Accounts (rank + 1) (reclaimed + rank * (prev - w)) deficit w ws level
    → Accounts rank reclaimed deficit prev (w ∷ ws) level
step_Accounts rank reclaimed deficit prev w ws level h (residue, le, total, small) =
    (residue, omega arith, omega (arith, split_mul rank prev w level le h), ground arith)

water_from_stop :
    (rank reclaimed deficit prev w : ℕ) (ws : List ℕ)
    → leb deficit (reclaimed + rank * (prev - w)) ≡ true
    → water_from rank reclaimed deficit prev (w ∷ ws) ≡ prev - (deficit - reclaimed) / rank
unfolding water_from
water_from_stop rank reclaimed deficit prev w ws e = rw e

water_from_step :
    (rank reclaimed deficit prev w : ℕ) (ws : List ℕ)
    → leb deficit (reclaimed + rank * (prev - w)) ≡ false
    → water_from rank reclaimed deficit prev (w ∷ ws)
      ≡ water_from (rank + 1) (reclaimed + rank * (prev - w)) deficit w ws
unfolding water_from
water_from_step rank reclaimed deficit prev w ws e = rw e

water_from_last :
    (rank reclaimed deficit prev : ℕ)
    → water_from rank reclaimed deficit prev [] ≡ prev - (deficit - reclaimed) / rank
unfolding water_from
water_from_last rank reclaimed deficit prev = refl

water_from-Accounts :
    (rank reclaimed deficit prev : ℕ) (ws : List ℕ)
    → 0 < rank
    → reclaimed ≤ deficit
    → IsDescending (prev ∷ ws)
    → All (λ y. 1 ≤ y) (prev ∷ ws)
    → Covers rank reclaimed deficit prev ws
    → let level = water_from rank reclaimed deficit prev ws in
      (1 ≤ level) × Accounts rank reclaimed deficit prev ws level
water_from-Accounts rank reclaimed deficit prev [] h k d p c =
    let q = last_quotient rank reclaimed deficit prev h p.0 c in
    rw (water_from_last rank reclaimed deficit prev)
      (omega arith, stop_Accounts rank reclaimed deficit prev [] h k (omega arith) tt)
water_from-Accounts rank reclaimed deficit prev (w ∷ ws) h k ((hw, hws), d) (p, ps) c =
    let Good = λ (level : ℕ). (1 ≤ level) × Accounts rank reclaimed deficit prev (w ∷ ws) level in
    elim (Bool-cases (leb deficit (reclaimed + rank * (prev - w)))) [
      | inl stop ↦
          let low : (deficit - reclaimed) / rank ≤ prev - w =
            div-le (deficit - reclaimed) rank (prev - w) h (omega (arith, leb→le _ _ stop)) in
          let level = prev - (deficit - reclaimed) / rank in
          let top : w ≤ level = omega arith in
          subst Good (sym (water_from_stop rank reclaimed deficit prev w ws stop)) (
            omega arith,
            stop_Accounts rank reclaimed deficit prev (w ∷ ws) h k (omega arith)
                (top, All-le_trans w level ws top d.0),
          )
      | inr more ↦
          let ih =
            water_from-Accounts (rank + 1) (reclaimed + rank * (prev - w)) deficit w ws
              (omega arith) (omega (arith, leb→lt _ _ more)) d ps
              (step_Covers rank reclaimed deficit prev w ws hw c) in
          subst Good (sym (water_from_step rank reclaimed deficit prev w ws more))
            (ih.0, step_Accounts rank reclaimed deficit prev w ws _ hw ih.1)
    ]

-- On descending weights of at least 1 each whose sum less their number covers the deficit, the level
-- is at least 1, capping at it takes at most the deficit, and what is then left of the deficit is
-- less than the number of entries that reach the level.
pub water_level-Accounts :
    (w : ℕ) (ws : List ℕ) (deficit : ℕ)
    → IsDescending (w ∷ ws)
    → All (λ y. 1 ≤ y) (w ∷ ws)
    → deficit + length (w ∷ ws) ≤ sum (w ∷ ws)
    → let level = water_level (w ∷ ws) deficit in
      (residue : ℕ) × (1 ≤ level)
      × (excess level (w ∷ ws) + residue ≡ deficit)
      × (residue < reaching level (w ∷ ws))
unfolding water_level
water_level-Accounts w ws deficit d p c =
    let (low, (residue, le, total, small)) =
      water_from-Accounts 1 0 deficit w ws (omega arith) (omega arith) d p (omega arith) in
    (residue, low, omega arith, ground arith)
