-- ===== src/Economics/Water/Shave.antt =====
-- The second loop of `_reclaim_overflow` takes single units off the plateau, from its end.
use gm_validator.Prelude.{
  ℕ, zero, suc, ◌+◌, ◌-◌, ◌≤◌, ◌<◌, ◌≡◌, ◌≢◌, ◌∙◌, refl, sym, List, [], ◌∷◌, length, All,
  All-get_or, get_or, arith,
}
use gm_validator.Economics.Water.{Entry, total, weight_at, uid_at, shave_plateau}
use gm_validator.Economics.Water.Writes.{put, put_ne, total-set, in_range-put}
use gm_validator.Economics.Water.Order.{IsNodup}

pub IsNodup-get_or :
    (order : List ℕ) (i j : ℕ)
    → IsNodup order
    → i < j
    → j < length order
    → get_or order i 0 ≢ get_or order j 0
IsNodup-get_or [] i j n h k = absurd (omega arith)
IsNodup-get_or (x ∷ order) zero zero n h k = absurd (omega arith)
IsNodup-get_or (x ∷ order) zero (suc j) (n, ns) h k =
    All-get_or (λ y. x ≢ y) order j 0 n (omega arith)
IsNodup-get_or (x ∷ order) (suc i) zero n h k = absurd (omega arith)
IsNodup-get_or (x ∷ order) (suc i) (suc j) (n, ns) h k =
    IsNodup-get_or order i j ns (omega arith) (omega arith)

pub shave_done : (k : ℕ) (order : List ℕ) (r : List Entry) → shave_plateau k order r 0 ≡ r
unfolding shave_plateau
shave_done zero order r = refl
shave_done (suc c) order r = refl

pub shave_step :
    (c : ℕ) (order : List ℕ) (r : List Entry) (d : ℕ)
    → 1 < weight_at r (get_or order c 0)
    → let i = get_or order c 0 in
      shave_plateau (suc c) order r (suc d) ≡ shave_plateau c order (put r i (weight_at r i - 1)) d
unfolding shave_plateau
shave_step c order r d h = ground arith

-- On a plateau of 2 at least that holds as many entries as units are left, all of them are taken.
pub shave_plateau-total :
    (level k : ℕ) (order : List ℕ) (r : List Entry) (d : ℕ)
    → 2 ≤ level
    → k ≤ length order
    → d ≤ k
    → IsNodup order
    → All (λ i. i < length r) order
    → ((c : ℕ) → c < k → weight_at r (get_or order c 0) ≡ level)
    → total (shave_plateau k order r d) + d ≡ total r
shave_plateau-total level k order r zero l kl dk n h flat = rw (shave_done k order r) (omega arith)
shave_plateau-total level zero order r (suc d) l kl dk n h flat = absurd (omega arith)
shave_plateau-total level (suc c) order r (suc d) l kl dk n h flat =
    let i = get_or order c 0 in
    let here = flat c (omega arith) in
    let w = weight_at r i - 1 in
    let inside = All-get_or (λ j. j < length r) order c 0 h (omega arith) in
    let rest =
      shave_plateau-total level c order (put r i w) d l (omega arith) (omega arith) n
        (in_range-put r i w order h)
        (λ b lt.
          put_ne r i (get_or order b 0) w (λ q. IsNodup-get_or order b c n lt (omega arith) (sym q))
          ∙ flat b (omega arith)) in
    rw (shave_step c order r d (omega arith)) (omega (arith, total-set r i (uid_at r i, w) inside))
