-- ===== src/Economics/Water.antt =====
-- `_reclaim_overflow` and `_water_level`: trimming a vector that is over the u16 budget. Differences
-- are of naturals, which stop at 0. The caller passes weights of at least 1 each whose sum less their
-- number covers the deficit.
pub mod Order
pub mod Writes
pub mod Cap
pub mod Shave
pub mod Floor
pub mod Lower
pub mod Level
pub mod Reclaim
pub mod Least
pub mod Positions
pub mod Fair
pub mod Leveled
use gm_validator.Prelude.{
  ℕ, zero, suc, ◌+◌, ◌-◌, ◌*◌, ◌/◌, Bool, List, [], ◌∷◌, map, ltb, leb, ◌==◌, ◌&&◌, ◌||◌,
  if◌then◌else◌, length, get_or, set, range_from,
}
use gm_validator.Decimal.{Decimal, nought, lt}

-- One `(uid, u16_weight)` of the vector.
abbrev pub Entry : Type 0
Entry = ℕ × ℕ

abbrev pub weight_at : List Entry → ℕ → ℕ
weight_at result i = (get_or result i (0, 0)).1

abbrev pub uid_at : List Entry → ℕ → ℕ
uid_at result i = (get_or result i (0, 0)).0

-- The weights' sum, the caller's `running_total`.
abbrev pub total : List Entry → ℕ
total [] = 0
total ((_, w) ∷ es) = w + total es

-- The loop of `_water_level` at `rank`, with `weights[rank - 1]` and `weights[rank:]`.
unfoldable pub water_from : (rank reclaimed deficit prev : ℕ) → List ℕ → ℕ
water_from rank reclaimed deficit prev [] = prev - (deficit - reclaimed) / rank
water_from rank reclaimed deficit prev (w ∷ ws) =
    let drop = prev - w in
    let rest = water_from (rank + 1) (reclaimed + rank * drop) deficit w ws in
    if leb deficit (reclaimed + rank * drop) then prev - (deficit - reclaimed) / rank else rest

-- Of an empty list the code has no level (an IndexError); the caller never passes one.
unfoldable pub water_level : List ℕ → ℕ → ℕ
unfolding water_from
water_level [] deficit = 0
water_level (w ∷ ws) deficit = water_from 1 0 deficit w ws

-- The sort key `(result[i][1], shares[i])`, and its strict order.
abbrev pub key_gt : List Entry → List Decimal → ℕ → ℕ → Bool
key_gt result shares i j =
    ltb (weight_at result j) (weight_at result i)
    || (weight_at result i == weight_at result j
        && lt (get_or shares j nought) (get_or shares i nought))

-- `sorted(..., reverse=True)` is stable: an index goes in front of the later ones that tie with it.
unfoldable pub insert_index : (ℕ → ℕ → Bool) → ℕ → List ℕ → List ℕ
insert_index gt i [] = i ∷ []
insert_index gt i (j ∷ js) = if gt j i then j ∷ insert_index gt i js else i ∷ j ∷ js

unfoldable pub sort_indices : (ℕ → ℕ → Bool) → List ℕ → List ℕ
unfolding insert_index
sort_indices gt [] = []
sort_indices gt (i ∷ is) = insert_index gt i (sort_indices gt is)

unfoldable pub descending_order : List Entry → List Decimal → List ℕ
unfolding sort_indices
descending_order result shares = sort_indices (key_gt result shares) (range_from 0 (length result))

-- The first `for`: cap the entries above the level, and count down the deficit.
unfoldable pub cap_tallest : ℕ → List ℕ → List Entry → ℕ → List Entry × ℕ
cap_tallest level [] result deficit = (result, deficit)
cap_tallest level (idx ∷ order) result deficit =
    let weight = weight_at result idx in
    if leb weight level
    then (result, deficit)
    else cap_tallest level order (set result idx (uid_at result idx, level))
        (deficit - (weight - level))

-- `next(rank for ... if result[idx][1] < level, len(order))`
unfoldable pub plateau_end : ℕ → List ℕ → List Entry → ℕ
plateau_end level [] result = 0
plateau_end level (idx ∷ order) result =
    if ltb (weight_at result idx) level then 0 else suc (plateau_end level order result)

-- The `while`, with `cursor + 1` rounds left at most.
unfoldable pub shave_plateau : ℕ → List ℕ → List Entry → ℕ → List Entry
shave_plateau zero order result deficit = result
shave_plateau (suc cursor) order result deficit =
    let idx = get_or order cursor 0 in
    let weight = weight_at result idx in
    let taller = ltb 1 weight in
    let rest =
      shave_plateau cursor order
        (if taller then set result idx (uid_at result idx, weight - 1) else result)
        (if taller then deficit - 1 else deficit) in
    if deficit == 0 then result else rest

-- The two loops, with the order and the level at hand.
unfoldable pub reclaim_along : List Entry → List ℕ → ℕ → ℕ → List Entry
unfolding cap_tallest plateau_end shave_plateau
reclaim_along result order level deficit =
    let (out, left) = cap_tallest level order result deficit in
    shave_plateau (plateau_end level order out) order out left

unfoldable pub reclaim_overflow : List Entry → List Decimal → ℕ → List Entry
unfolding descending_order water_level reclaim_along
reclaim_overflow result shares deficit =
    let order = descending_order result shares in
    reclaim_along result order (water_level (map (weight_at result) order) deficit) deficit
