-- ===== src/Economics/Water/Cap.antt =====
-- The first loop of `_reclaim_overflow` caps the weights at the level.
use Prim.Native.Nat.{min}
use mathlib.Core.Path.{subst}
use gm_validator.Prelude.{
  ℕ, zero, suc, ◌+◌, ◌-◌, ◌≤◌, ◌<◌, ◌≡◌, ◌≢◌, ◌∙◌, refl, sym, ap, true, false, List, [], ◌∷◌, map,
  length, All, length-set, get_or, arith, Bool-cases, inl, inr, leb, leb→le, leb→lt,
}
use gm_validator.Economics.Water.{Entry, total, weight_at, uid_at, cap_tallest, plateau_end}
use gm_validator.Economics.Water.Writes.{
  view, capped, put, put_self, put_ne, view-put, total-set, in_range-put,
}
use gm_validator.Economics.Water.Level.{IsDescending, excess, reaching, excess_zero, All-le_trans}
use gm_validator.Economics.Water.Order.{IsNodup}

capped_low : (level : ℕ) (ws : List ℕ) → All (λ y. y ≤ level) ws → capped level ws ≡ ws
capped_low level [] h = refl
capped_low level (w ∷ ws) (h, hs) =
    let e : min w level ≡ w = omega arith in rw (e, capped_low level ws hs)

-- One step of the cap loop.
cap_stop :
    (level idx : ℕ) (order : List ℕ) (r : List Entry) (d : ℕ)
    → leb (weight_at r idx) level ≡ true
    → cap_tallest level (idx ∷ order) r d ≡ (r, d)
unfolding cap_tallest
cap_stop level idx order r d e = rw e

cap_step :
    (level idx : ℕ) (order : List ℕ) (r : List Entry) (d : ℕ)
    → leb (weight_at r idx) level ≡ false
    → cap_tallest level (idx ∷ order) r d
      ≡ cap_tallest level order (put r idx level) (d - (weight_at r idx - level))
unfolding cap_tallest
cap_step level idx order r d e = rw e

cap_nil : (level : ℕ) (r : List Entry) (d : ℕ) → cap_tallest level [] r d ≡ (r, d)
unfolding cap_tallest
cap_nil level r d = refl

-- What the cap does along an order: weights are cut to the level, the deficit and the sum fall by
-- what is cut off, and an index off the order keeps its weight.
pub record IsCapped (level : ℕ) (order : List ℕ) (r : List Entry) (d : ℕ) (out : List Entry × ℕ)
    : Type 0 where
  pub cut : view out.0 order ≡ capped level (view r order)
  pub paid : out.1 + excess level (view r order) ≡ d
  pub taken : total out.0 + excess level (view r order) ≡ total r
  pub frame : (i : ℕ) → All (λ j. i ≢ j) order → weight_at out.0 i ≡ weight_at r i
  pub same_length : length out.0 ≡ length r

-- The step of the cap loop, on what it does along the rest of the order.
step-IsCapped :
    (level idx : ℕ) (order : List ℕ) (r : List Entry) (d : ℕ) (out : List Entry × ℕ)
    → All (λ j. idx ≢ j) order
    → idx < length r
    → level < weight_at r idx
    → weight_at r idx - level ≤ d
    → IsCapped level order (put r idx level) (d - (weight_at r idx - level)) out
    → IsCapped level (idx ∷ order) r d out
step-IsCapped level idx order r d out n h e x ih =
    let same = view-put r idx level order n in
    let head : weight_at out.0 idx ≡ min (weight_at r idx) level =
      omega (arith, ih.frame idx n, put_self r idx level h) in
    let rest : view out.0 order ≡ capped level (view r order) = rw same at ih.cut in
    let paid = rw same at ih.paid in
    let taken = rw same at ih.taken in
    record {
      cut = rw (head, rest);
      paid = omega arith;
      taken = omega (arith, total-set r idx (uid_at r idx, level) h);
      frame = λ i k. ih.frame i k.1 ∙ put_ne r idx i level (λ q. k.0 (sym q));
      same_length = ih.same_length ∙ length-set r idx (uid_at r idx, level);
    }

pub cap_tallest-IsCapped :
    (level : ℕ) (order : List ℕ) (r : List Entry) (d : ℕ)
    → IsNodup order
    → All (λ i. i < length r) order
    → IsDescending (view r order)
    → excess level (view r order) ≤ d
    → IsCapped level order r d (cap_tallest level order r d)
cap_tallest-IsCapped level [] r d n h ds x = rw (cap_nil level r d) (record {
  cut = refl;
  paid = omega arith;
  taken = omega arith;
  frame = λ i k. refl;
  same_length = refl;
})
cap_tallest-IsCapped level (idx ∷ order) r d (n, ns) (h, hs) (ds, dss) x =
    elim (Bool-cases (leb (weight_at r idx) level)) [
      | inl e ↦
          let le : weight_at r idx ≤ level = leb→le _ _ e in
          let low = All-le_trans (weight_at r idx) level (view r order) le ds in
          let zero_excess = excess_zero level (view r (idx ∷ order)) (le, low) in
          rw (cap_stop level idx order r d e) (record {
            cut = sym (capped_low level (view r (idx ∷ order)) (le, low));
            paid = omega (arith, zero_excess);
            taken = omega (arith, zero_excess);
            frame = λ i k. refl;
            same_length = refl;
          })
      | inr e ↦
          let above = leb→lt _ _ e in
          let same = view-put r idx level order n in
          rw (cap_step level idx order r d e) (
            step-IsCapped level idx order r d _ n h above (omega arith) (
              cap_tallest-IsCapped level order (put r idx level) (d - (weight_at r idx - level)) ns
                (in_range-put r idx level order hs) (subst IsDescending (sym same) dss)
                (rw same (omega arith))))
    ]

-- The plateau is what reaches the level.
pub plateau_end-reaching :
    (level : ℕ) (order : List ℕ) (r : List Entry)
    → plateau_end level order r ≡ reaching level (view r order)
unfolding plateau_end
plateau_end-reaching level [] r = refl
plateau_end-reaching level (idx ∷ order) r = ground (arith, plateau_end-reaching level order r)

pub reaching-capped :
    (level : ℕ) (ws : List ℕ) → reaching level (capped level ws) ≡ reaching level ws
reaching-capped level [] = refl
reaching-capped level (w ∷ ws) = ground (arith, reaching-capped level ws)

pub reaching-le-length : (level : ℕ) (ws : List ℕ) → reaching level ws ≤ length ws
reaching-le-length level [] = omega arith
reaching-le-length level (w ∷ ws) = ground (arith, reaching-le-length level ws)

pub length-map : (f : ℕ → ℕ) (is : List ℕ) → length (map f is) ≡ length is
length-map f [] = refl
length-map f (i ∷ is) = ap suc (length-map f is)

pub on_plateau :
    (level : ℕ) (ws : List ℕ) (c : ℕ) → c < reaching level ws → get_or (capped level ws) c 0 ≡ level
on_plateau level [] c h = absurd (omega arith)
on_plateau level (w ∷ ws) zero h = ground arith
on_plateau level (w ∷ ws) (suc c) h = ground (arith, on_plateau level ws c)

pub get_or-view :
    (r : List Entry) (order : List ℕ) (c : ℕ)
    → c < length order
    → get_or (view r order) c 0 ≡ weight_at r (get_or order c 0)
get_or-view r [] c h = absurd (omega arith)
get_or-view r (i ∷ order) zero h = refl
get_or-view r (i ∷ order) (suc c) h = get_or-view r order c (omega arith)
