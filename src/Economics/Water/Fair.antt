-- ===== src/Economics/Water/Fair.antt =====
-- The order of the weights before and after `_reclaim_overflow`.
use Prim.Native.Nat.{min}
use gm_validator.Prelude.{
  ℕ, zero, suc, ◌+◌, ◌-◌, ◌≤◌, ◌<◌, ◌≡◌, ◌∙◌, sym, ap, List, length, All, All-get_or, get_or, arith,
  Bool-cases, inl, inr, leb, ltb, ◌==◌, leb→le, leb→lt, ltb→lt, ltb→le,
}
use gm_validator.Economics.Water.{
  Entry, total, weight_at, cap_tallest, plateau_end, shave_plateau, descending_order, water_level,
  reclaim_overflow, reclaim_along,
}
use gm_validator.Decimal.{Decimal}
use gm_validator.Economics.Water.Order.{IsNodup, IsOrder, descending_order-IsOrder}
use gm_validator.Economics.Water.Writes.{view, capped, put, put_self, put_ne, in_range-put}
use gm_validator.Economics.Water.Cap.{get_or-view, length-map}
use gm_validator.Economics.Water.Floor.{IsFloored}
use gm_validator.Economics.Water.Shave.{IsNodup-get_or, shave_done, shave_step}
use gm_validator.Economics.Water.Positions.{
  descending_order-Stands, IsDescending-at, get_or-capped, below_reaching,
}
use gm_validator.Economics.Water.Reclaim.{IsPlateau, cap_tallest-IsPlateau, level_of_order}

abbrev pub at : List ℕ → List Entry → ℕ → ℕ
at order r b = weight_at r (get_or order b 0)

-- The weights fall along an order.
abbrev pub Falls : List ℕ → List Entry → Type 0
Falls order r = (a b : ℕ) → a < b → b < length order → at order r b ≤ at order r a

-- A plateau of so many entries at the level, and what lies lower behind it.
record IsStepped (level m : ℕ) (order : List ℕ) (r : List Entry) : Type 0 where
  flat : (b : ℕ) → b < m → at order r b ≡ level
  low : (a b : ℕ) → m ≤ a → a < b → b < length order → at order r b ≤ at order r a
  under : (a : ℕ) → m ≤ a → a < length order → at order r a < level

IsStepped-Falls :
    (level m : ℕ) (order : List ℕ) (r : List Entry) → IsStepped level m order r → Falls order r
IsStepped-Falls level m order r s a b lt k = elim (Bool-cases (ltb a m)) [
  | inr e ↦ s.low a b (ltb→le a m e) lt k
  | inl e ↦ elim (Bool-cases (ltb b m)) [
    | inl f ↦ omega (arith, s.flat a (ltb→lt a m e), s.flat b (ltb→lt b m f))
    | inr f ↦ omega (arith, s.flat a (ltb→lt a m e), s.under b (ltb→le b m f) k)
  ]
]

-- One unit off the last entry of the plateau.
step-IsStepped :
    (level c : ℕ) (order : List ℕ) (r : List Entry)
    → 2 ≤ level
    → c < length order
    → IsNodup order
    → All (λ i. i < length r) order
    → IsStepped level (suc c) order r
    → IsStepped level c order (put r (get_or order c 0) (at order r c - 1))
step-IsStepped level c order r l cl n h s =
    let i = get_or order c 0 in
    let r' = put r i (at order r c - 1) in
    let here : at order r' c ≡ level - 1 =
      put_self r i (at order r c - 1) (All-get_or (λ j. j < length r) order c 0 h cl)
      ∙ ap (λ w. w - 1) (s.flat c (omega arith)) in
    let before = λ (b : ℕ) (lt : b < c).
      put_ne r i (get_or order b 0) (at order r c - 1)
        (λ q. IsNodup-get_or order b c n lt cl (sym q)) in
    let behind = λ (b : ℕ) (lt : c < b) (k : b < length order).
      put_ne r i (get_or order b 0) (at order r c - 1) (IsNodup-get_or order c b n lt k) in
    record {
      flat = λ b lt. before b lt ∙ s.flat b (omega arith);
      low = λ a b ca ab bl. elim (Bool-cases (ltb c a)) [
        | inl e ↦
            let lt = ltb→lt c a e in
            omega (
              arith,
              behind a lt (omega arith),
              behind b (omega arith) bl,
              s.low a b (omega arith) ab bl,
            )
        | inr e ↦
            let same : a ≡ c = omega (arith, ltb→le c a e) in
            rw same (omega (arith, here, behind b (omega arith) bl, s.under b (omega arith) bl))
      ];
      under = λ a ca al. elim (Bool-cases (ltb c a)) [
        | inl e ↦ let lt = ltb→lt c a e in omega (arith, behind a lt al, s.under a (omega arith) al)
        | inr e ↦ let same : a ≡ c = omega (arith, ltb→le c a e) in rw same (omega (arith, here))
      ];
    }

shave_plateau-Falls :
    (level k : ℕ) (order : List ℕ) (r : List Entry) (d : ℕ)
    → 2 ≤ level
    → k ≤ length order
    → d ≤ k
    → IsNodup order
    → All (λ i. i < length r) order
    → IsStepped level k order r
    → Falls order (shave_plateau k order r d)
shave_plateau-Falls level k order r zero l kl dk n h s =
    rw (shave_done k order r) (IsStepped-Falls level k order r s)
shave_plateau-Falls level zero order r (suc d) l kl dk n h s = absurd (omega arith)
shave_plateau-Falls level (suc c) order r (suc d) l kl dk n h s =
    let i = get_or order c 0 in
    rw (shave_step c order r d (omega (arith, s.flat c (omega arith)))) (
      shave_plateau-Falls level c order (put r i (weight_at r i - 1)) d l (omega arith)
        (omega arith) n (in_range-put r i (weight_at r i - 1) order h)
        (step-IsStepped level c order r l (omega arith) n h s))

-- The weight at a position of the order once the first loop has capped it.
pub at-capped :
    (r out : List Entry) (order : List ℕ) (level b : ℕ)
    → view out order ≡ capped level (view r order)
    → b < length order
    → at order out b ≡ min (at order r b) level
at-capped r out order level b cut h =
    sym (get_or-view out order b h)
    ∙ ap (λ ws. get_or ws b 0) cut
    ∙ get_or-capped level (view r order) b
    ∙ ap (λ w. min w level) (get_or-view r order b h)

IsOrder-Falls : (r : List Entry) (order : List ℕ) → IsOrder r order → Falls order r
IsOrder-Falls r order o a b lt k = omega (
  arith,
  IsDescending-at (view r order) a b o.descending lt
      (omega (arith, length-map (weight_at r) order)),
  get_or-view r order a (omega arith),
  get_or-view r order b k,
)

IsPlateau-IsStepped :
    (r : List Entry) (order : List ℕ) (level d : ℕ) (out : List Entry × ℕ)
    → IsOrder r order
    → IsPlateau level order r d out
    → IsStepped level (plateau_end level order out.0) order out.0
IsPlateau-IsStepped r order level d out o p = record {
  flat = p.flat;
  low = λ a b ma ab bl. omega (
    arith,
    at-capped r out.0 order level a (p.cap.cut) (omega arith),
    at-capped r out.0 order level b (p.cap.cut) bl,
    IsOrder-Falls r order o a b ab bl,
  );
  under = λ a ma al. omega (
    arith,
    at-capped r out.0 order level a (p.cap.cut) al,
    below_reaching level (view r order) a o.descending (omega (arith, p.reached))
        (omega (arith, length-map (weight_at r) order)),
    get_or-view r order a al,
  );
}

reclaim_along-Falls :
    (r : List Entry) (order : List ℕ) (level d : ℕ)
    → IsOrder r order
    → IsPlateau level order r d (cap_tallest level order r d)
    → Falls order (reclaim_along r order level d)
unfolding reclaim_along
reclaim_along-Falls r order level d o p =
    let (out, left) = cap_tallest level order r d in
    let m = plateau_end level order out in
    let s = IsPlateau-IsStepped r order level d (out, left) o p in
    elim (Bool-cases (leb level 1)) [
      | inl e ↦
          rw (p.spent (leb→le level 1 e), shave_done m order out)
            (IsStepped-Falls level m order out s)
      | inr e ↦
          shave_plateau-Falls level m order out left (leb→lt level 1 e) (p.inside)
            (omega (arith, p.small)) o.nodup (rw (← p.cap.same_length) at o.in_range) s
    ]

-- Two entries of an order along which the weights fall before and after.
Falls-keeps :
    (order : List ℕ) (r out : List Entry) (a b : ℕ)
    → Falls order r
    → Falls order out
    → a < length order
    → b < length order
    → at order r a < at order r b
    → at order out a ≤ at order out b
Falls-keeps order r out a b fr fo al bl lt = elim (Bool-cases (ltb b a)) [
  | inl e ↦ fo b a (ltb→lt b a e) al
  | inr e ↦ elim (Bool-cases (a == b)) [
    | inl s ↦ let same : a ≡ b = ground arith in absurd (omega (arith, ap (at order r) same))
    | inr s ↦ let further : a < b = ground arith in absurd (omega (arith, fr a b further bl))
  ]
]

-- From a vector of weights of at least 1, with a deficit that its sum covers beside a unit for each
-- entry, the order of the weights is kept: an entry that was below another is not above it afterwards.
pub reclaim_overflow_monotone :
    (r : List Entry) (shares : List Decimal) (d i j : ℕ)
    → IsFloored r
    → 1 ≤ d
    → d + length r ≤ total r
    → i < length r
    → j < length r
    → weight_at r i < weight_at r j
    → let out = reclaim_overflow r shares d in weight_at out i ≤ weight_at out j
unfolding reclaim_overflow
reclaim_overflow_monotone r shares d i j f p c il jl lt =
    let order = descending_order r shares in
    let o = descending_order-IsOrder r shares in
    let level = water_level (view r order) d in
    let (residue, low, paid, few) = level_of_order r order d o f p c in
    let plateau = cap_tallest-IsPlateau r order level d residue o f c low paid few in
    let out = reclaim_along r order level d in
    let (a, al, ea) = descending_order-Stands r shares i il in
    let (b, bl, eb) = descending_order-Stands r shares j jl in
    let kept =
      Falls-keeps order r out a b (IsOrder-Falls r order o)
        (reclaim_along-Falls r order level d o plateau) al bl
        (omega (arith, ap (weight_at r) ea, ap (weight_at r) eb)) in
    omega (arith, kept, ap (weight_at out) ea, ap (weight_at out) eb)
