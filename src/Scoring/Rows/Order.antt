-- ===== src/Scoring/Rows/Order.antt =====
-- Which rows `score` takes, and the same rows in another order.
use Prim.Native.String.{String}
use mathlib.Core.Path.{subst}
use mathlib.Core.List.{Permᴰ}
use text.Mathlib.Text.{◌==◌ as str_eq}
use text.Mathlib.TextEquality.{eq_iff}
use gm_validator.Prelude.{
  Option, none, some, ◌≢◌, inl, inr, Bool-cases, List, [], ◌∷◌, All, ◌≡◌, ◌↔◌, refl, sym, ap, ◌∙◌,
}
use gm_validator.Prelude.Int.{int_laws, parts_of_eq}
use gm_validator.Prelude.Dict.{insert}
use gm_validator.Prelude.Lists.{All-perm}
use gm_validator.Errors.{ok, unbind, unbind_then}
use gm_validator.Scoring.Json.{Json, null, boolean, int, float, str, array, object, Fields, get}
use gm_validator.Scoring.Rows.{
  Scores, require_int, optional_int, assert_zero_earning_no_miner_row, MinerId, unplaced, corrupt,
  hotkey, miner_id_of, product_key, bucket, add_row, score_hotkey, score_row, score_from, score,
}
use gm_validator.Scoring.Rows.Readable.{IsCreditable, IsReadableFor, IsReadable}
use gm_validator.Scoring.Rows.Readable.Amounts.{
  require_int_iff, optional_int_iff, assert_zero_earning_no_miner_row_iff,
}
use gm_validator.Scoring.Rows.Readable.Products.{product_key_iff}
use gm_validator.Scoring.Rows.Credits.{
  str_same, score_row_unplaced, score_row_corrupt, score_row_hotkey, not_a_dict,
}
use gm_validator.Scoring.Rows.Tally.{Sum, kept, part_of, tally, score-tally}

-- Which rows the readers of `score` take.
abbrev IsTaken : Fields → MinerId → Type 0
IsTaken row unplaced = assert_zero_earning_no_miner_row row ≡ ok tt
IsTaken row corrupt = ⊥
IsTaken row (hotkey id) =
    ((n : _) × (require_int row "earnings_ndollars" ≡ ok n))
    × ((n : _) × (require_int row "surcharge_ndollars" ≡ ok n))
    × ((n : _) × (optional_int row "successful_requests" ≡ ok n))
    × ((n : _) × (optional_int row "failed_requests" ≡ ok n))
    × ((key : _) × (product_key row ≡ ok key))

IsTaken-iff_IsCreditable : (row : Fields) (id : String) → IsTaken row (hotkey id) ↔ IsCreditable row
IsTaken-iff_IsCreditable row id = (
  λ (a, b, c, d, e). (
    (require_int_iff row _).0 a,
    (require_int_iff row _).0 b,
    (optional_int_iff row _).0 c,
    (optional_int_iff row _).0 d,
    (product_key_iff row).0 e,
  ),
  λ (a, b, c, d, e). (
    (require_int_iff row _).1 a,
    (require_int_iff row _).1 b,
    (optional_int_iff row _).1 c,
    (optional_int_iff row _).1 d,
    (product_key_iff row).1 e,
  ),
)

-- They take a row exactly when its values are fine, whatever its `miner_id` is.
IsTaken-iff :
    (row : Fields) (id : Option Json) → IsTaken row (miner_id_of id) ↔ IsReadableFor row id
unfolding miner_id_of
IsTaken-iff row none = assert_zero_earning_no_miner_row_iff row
IsTaken-iff row (some null) = assert_zero_earning_no_miner_row_iff row
IsTaken-iff row (some (str s)) = elim (Bool-cases (str_eq s "")) [
  | inl e ↦
      let none_there = str_same s "" e in
      rw e (
        λ h. inl (none_there, (assert_zero_earning_no_miner_row_iff row).0 h),
        λ h. elim h [
          | inl (_, free) ↦ (assert_zero_earning_no_miner_row_iff row).1 free
          | inr (there, _) ↦ absurd (there none_there)
        ],
      )
  | inr e ↦
      let there : s ≢ "" = λ same. cc (sym e ∙ (eq_iff s "").1 same) in
      rw e (
        λ h. inr (there, (IsTaken-iff_IsCreditable row s).0 h),
        λ h. elim h [
          | inl (none_there, _) ↦ absurd (there none_there)
          | inr (_, fine) ↦ (IsTaken-iff_IsCreditable row s).1 fine
        ],
      )
]
IsTaken-iff row (some (boolean _)) = (λ h. absurd h, λ h. absurd h)
IsTaken-iff row (some (int _)) = (λ h. absurd h, λ h. absurd h)
IsTaken-iff row (some (float _)) = (λ h. absurd h, λ h. absurd h)
IsTaken-iff row (some (array _)) = (λ h. absurd h, λ h. absurd h)
IsTaken-iff row (some (object _)) = (λ h. absurd h, λ h. absurd h)

score_hotkey-readable :
    (id : String) (row : Fields) (scores : Scores)
    → IsTaken row (hotkey id)
    → (out : Scores) × (score_hotkey id row scores ≡ ok out)
unfolding score_hotkey
score_hotkey-readable id row scores ((a, ha), (b, hb), (c, hc), (d, hd), (e, he)) =
    (insert id (add_row a b c d e (bucket id scores)) scores, rw (ha, hb, hc, hd, he) refl)

placed_readable :
    (row : Fields) (scores : Scores) (m : MinerId)
    → miner_id_of (get "miner_id" row) ≡ m
    → IsTaken row m
    → (out : Scores) × (score_row (object row) scores ≡ ok out)
placed_readable row scores unplaced e h = (scores, score_row_unplaced row scores e ∙ rw h refl)
placed_readable row scores corrupt e h = absurd h
placed_readable row scores (hotkey id) e h =
    let (out, fine) = score_hotkey-readable id row scores h in
    (out, score_row_hotkey row scores id e ∙ fine)

score_row-readable :
    (row : Json) (scores : Scores)
    → IsReadable row
    → (out : Scores) × (score_row row scores ≡ ok out)
score_row-readable (object row) scores h =
    placed_readable row scores _ refl ((IsTaken-iff row _).1 h)
score_row-readable _ scores h = absurd h

placed-IsTaken :
    (row : Fields) (scores out : Scores) (m : MinerId)
    → miner_id_of (get "miner_id" row) ≡ m
    → score_row (object row) scores ≡ ok out
    → IsTaken row m
unfolding score_hotkey
placed-IsTaken row scores out unplaced e h =
    (unbind_then (assert_zero_earning_no_miner_row row) (ok scores)
      (rw (score_row_unplaced row scores e) at h)).0
placed-IsTaken row scores out corrupt e h = cc (score_row_corrupt row scores e)
placed-IsTaken row scores out (hotkey id) e h =
    let (earn, he, h1) =
      unbind (require_int row "earnings_ndollars") _ (rw (score_row_hotkey row scores id e) at h) in
    let (surch, hs, h2) = unbind (require_int row "surcharge_ndollars") _ h1 in
    let (right, hr, h3) = unbind (optional_int row "successful_requests") _ h2 in
    let (wrong, hw, h4) = unbind (optional_int row "failed_requests") _ h3 in
    let (key, hk, h5) = unbind (product_key row) _ h4 in
    ((earn, he), (surch, hs), (right, hr), (wrong, hw), (key, hk))

score_row-IsReadable :
    (row : Json) (scores out : Scores) → score_row row scores ≡ ok out → IsReadable row
score_row-IsReadable row scores out h =
    let (r, e) = not_a_dict row scores out h in
    subst (λ x. IsReadable x) (sym e)
      ((IsTaken-iff r _).0
        (placed-IsTaken r scores out _ refl (subst (λ x. score_row x scores ≡ ok out) e h)))

score_from-IsReadable :
    (rows : List Json) (scores out : Scores) → score_from rows scores ≡ ok out → All IsReadable rows
unfolding score_from
score_from-IsReadable [] scores out h = tt
score_from-IsReadable (row ∷ rows) scores out h =
    let (next, step, rest) = unbind (score_row row scores) (score_from rows) h in
    (score_row-IsReadable row scores next step, score_from-IsReadable rows next out rest)

score_from-readable :
    (rows : List Json) (scores : Scores)
    → All IsReadable rows
    → (out : Scores) × (score_from rows scores ≡ ok out)
unfolding score_from
score_from-readable [] scores h = (scores, refl)
score_from-readable (row ∷ rows) scores (h, hs) =
    let (next, step) = score_row-readable row scores h in
    let (out, rest) = score_from-readable rows next hs in (out, rw step rest)

-- `score` returns exactly when every row is fine by its own values: a dict whose `miner_id` is missing,
-- null or empty and whose two amounts are each missing or 0; or a dict with a non-empty text as its
-- `miner_id`, both amounts there and integers (JSON integers, or texts that `int(text, 10)` reads), each
-- count missing or an integer, and a product that is missing, counts as false, or is a dict with no
-- array and no dict as its provider or model.
pub score_iff_IsReadable :
    (rows : List Json) → ((scores : Scores) × (score rows ≡ ok scores)) ↔ All IsReadable rows
unfolding score
score_iff_IsReadable rows =
    (λ (scores, h). score_from-IsReadable rows [] scores h, λ h. score_from-readable rows [] h)

tally-perm :
    (f : Sum) (id : String) {rows rows' : List Json}
    → Permᴰ rows rows'
    → tally f id rows ≡ tally f id rows'
tally-perm f id Permᴰ.nil = refl
tally-perm f id (Permᴰ.cons e p) =
    omega (int_laws, parts_of_eq (ap (part_of f id) e), parts_of_eq (tally-perm f id p))
tally-perm f id (Permᴰ.swap e d) =
    omega (int_laws, parts_of_eq (ap (part_of f id) e), parts_of_eq (ap (part_of f id) d))
tally-perm f id (Permᴰ.trans p q) = tally-perm f id p ∙ tally-perm f id q

-- The order of the rows does not matter: when `score` returns, it returns on the same rows in any
-- order, with the same four sums for each hotkey.
pub score-perm :
    (rows rows' : List Json) (scores : Scores)
    → Permᴰ rows rows'
    → score rows ≡ ok scores
    → (scores' : Scores) × (score rows' ≡ ok scores')
      × ((f : Sum) (id : String) → kept f (bucket id scores') ≡ kept f (bucket id scores))
score-perm rows rows' scores p h =
    let fine = (score_iff_IsReadable rows).0 (scores, h) in
    let (scores', h') = (score_iff_IsReadable rows').1 (All-perm IsReadable p fine) in
    (
      scores',
      h',
      λ f id.
          score-tally rows' scores' f id h'
          ∙ sym (tally-perm f id p)
          ∙ sym (score-tally rows scores f id h),
    )
