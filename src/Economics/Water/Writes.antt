-- ===== src/Economics/Water/Writes.antt =====
-- Weights seen along an order, and what one write does to them and to their sum.
use Prim.Native.Nat.{min}
use gm_validator.Prelude.{
  ℕ, zero, suc, ◌+◌, ◌<◌, ◌≡◌, ◌≢◌, refl, ap, List, [], ◌∷◌, map, length, All, length-set, set,
  get_or-set_self, get_or-set_ne, arith,
}
use gm_validator.Economics.Water.{Entry, total, weight_at, uid_at}

abbrev pub view : List Entry → List ℕ → List ℕ
view result order = map (weight_at result) order

abbrev pub capped : ℕ → List ℕ → List ℕ
capped level = map λ w. min w level

-- A write that keeps the uid.
abbrev pub put : List Entry → ℕ → ℕ → List Entry
put result i w = set result i (uid_at result i, w)

pub put_self : (r : List Entry) (i w : ℕ) → i < length r → weight_at (put r i w) i ≡ w
put_self r i w h = ap (λ (e : Entry). e.1) (get_or-set_self r i (uid_at r i, w) (0, 0) h)

pub put_ne : (r : List Entry) (i j w : ℕ) → i ≢ j → weight_at (put r i w) j ≡ weight_at r j
put_ne r i j w h = ap (λ (e : Entry). e.1) (get_or-set_ne r i j (uid_at r i, w) (0, 0) h)

pub view-put :
    (r : List Entry) (i w : ℕ) (order : List ℕ)
    → All (λ j. i ≢ j) order
    → view (put r i w) order ≡ view r order
view-put r i w [] h = refl
view-put r i w (j ∷ order) (h, hs) = rw (put_ne r i j w h, view-put r i w order hs)

pub total-set :
    (r : List Entry) (i : ℕ) (e : Entry)
    → i < length r
    → total (set r i e) + weight_at r i ≡ total r + e.1
total-set [] i e h = elim h [ ]
total-set (x ∷ r) zero e h = omega arith
total-set (x ∷ r) (suc i) e h = omega (arith, total-set r i e (omega arith))

pub in_range-put :
    (r : List Entry) (i w : ℕ) (order : List ℕ)
    → All (λ j. j < length r) order
    → All (λ j. j < length (put r i w)) order
in_range-put r i w order h = rw (length-set r i (uid_at r i, w)) h
