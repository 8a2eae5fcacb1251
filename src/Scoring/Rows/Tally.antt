-- ===== src/Scoring/Rows/Tally.antt =====
-- The four sums of a score, and the fields of the rows that they are made of.
use Prim.Native.String.{String}
use mathlib.Core.Path.{subst}
use text.Mathlib.Text.{◌==◌ as str_eq}
use gm_validator.Prelude.{
  List, [], ◌∷◌, ◌≡◌, refl, sym, ap, inl, inr, arith, Bool-cases, if◌then◌else◌,
}
use gm_validator.Prelude.Int.{ℤ, pos, ◌+ℤ◌, int_laws, parts_of_eq}
use gm_validator.Prelude.Dict.{insert}
use gm_validator.Errors.{ok, unbind, unbind_then, ok_injective}
use gm_validator.Scoring.Json.{Json, object, Fields, get}
use gm_validator.Scoring.Rows.{
  MinerScore, Scores, require_int, optional_int, assert_zero_earning_no_miner_row, MinerId,
  unplaced, corrupt, hotkey, miner_id_of, product_key, bucket, add_row, score_hotkey, score_row,
  score_from, score,
}
use gm_validator.Scoring.Rows.Money.{amount_of, require_int-amount, bucket-insert}
use gm_validator.Scoring.Rows.Credits.{
  score_row_unplaced, score_row_corrupt, score_row_hotkey, not_a_dict, str_same,
}

-- The sums that a score keeps.
pub data Sum : Type 0 where
  earnings surcharge successful failed : Sum

abbrev pub key_of : Sum → String
key_of earnings = "earnings_ndollars"
key_of surcharge = "surcharge_ndollars"
key_of successful = "successful_requests"
key_of failed = "failed_requests"

abbrev pub kept : Sum → MinerScore → ℤ
kept earnings s = s.earnings_ndollars
kept surcharge s = s.surcharge_ndollars
kept successful s = s.successful_requests
kept failed s = s.failed_requests

-- The part of a row's field that is for a hotkey.
abbrev pub part_if : String → ℤ → MinerId → ℤ
part_if id n (hotkey h) = if str_eq h id then n else pos 0
part_if id n _ = pos 0

abbrev pub part_of : Sum → String → Json → ℤ
part_of f id (object row) =
    part_if id (amount_of (get (key_of f) row)) (miner_id_of (get "miner_id" row))
part_of f id _ = pos 0

abbrev pub tally : Sum → String → List Json → ℤ
tally f id [] = pos 0
tally f id (row ∷ rows) = part_of f id row +ℤ tally f id rows

optional_int-amount :
    (row : Fields) (key : String) {n : ℤ}
    → optional_int row key ≡ ok n
    → amount_of (get key row) ≡ n
unfolding optional_int
optional_int-amount row key h = ground arith

-- A row for a hotkey writes one score, with each sum raised by the row's field.
abbrev Adds : String → Fields → Scores → Scores → Type 0
Adds id row scores out =
    (s : MinerScore) × (out ≡ insert id s scores)
    × ((f : Sum) → kept f s ≡ kept f (bucket id scores) +ℤ amount_of (get (key_of f) row))

score_hotkey-Adds :
    (id : String) (row : Fields) (scores out : Scores)
    → score_hotkey id row scores ≡ ok out
    → Adds id row scores out
unfolding score_hotkey add_row
score_hotkey-Adds id row scores out h =
    let (earn, he, h1) = unbind (require_int row "earnings_ndollars") _ h in
    let (surch, hs, h2) = unbind (require_int row "surcharge_ndollars") _ h1 in
    let (right, hr, h3) = unbind (optional_int row "successful_requests") _ h2 in
    let (wrong, hw, h4) = unbind (optional_int row "failed_requests") _ h3 in
    let (key, _, h5) = unbind (product_key row) _ h4 in
    let old = bucket id scores in
    (
      add_row earn surch right wrong key old,
      sym (ok_injective h5),
      elim [
        | earnings ↦ ap (λ n. old.earnings_ndollars +ℤ n) (sym (require_int-amount row _ he))
        | surcharge ↦ ap (λ n. old.surcharge_ndollars +ℤ n) (sym (require_int-amount row _ hs))
        | successful ↦ ap (λ n. old.successful_requests +ℤ n) (sym (optional_int-amount row _ hr))
        | failed ↦ ap (λ n. old.failed_requests +ℤ n) (sym (optional_int-amount row _ hw))
      ],
    )

-- One row: each sum of each hotkey rises by its part of the row.
abbrev Tallies : Json → Scores → Scores → Type 0
Tallies row scores out =
    (f : Sum) (id : String) → kept f (bucket id out) ≡ kept f (bucket id scores) +ℤ part_of f id row

Adds-Tallies :
    (id : String) (row : Fields) (scores out : Scores)
    → miner_id_of (get "miner_id" row) ≡ hotkey id
    → Adds id row scores out
    → Tallies (object row) scores out
Adds-Tallies id row scores out e (s, written, h) f other = elim (Bool-cases (str_eq id other)) [
  | inl same ↦
      rw (e, written, bucket-insert id other s scores, same) (rw (← str_same id other same) (h f))
  | inr different ↦ rw (e, written, bucket-insert id other s scores, different) (omega int_laws)
]

placed-Tallies :
    (row : Fields) (scores out : Scores) (m : MinerId)
    → miner_id_of (get "miner_id" row) ≡ m
    → score_row (object row) scores ≡ ok out
    → Tallies (object row) scores out
placed-Tallies row scores out unplaced e h f id =
    let (zero, same) =
      unbind_then (assert_zero_earning_no_miner_row row) (ok scores)
        (rw (score_row_unplaced row scores e) at h) in
    rw (← ok_injective same, e) (omega int_laws)
placed-Tallies row scores out corrupt e h f id = cc (score_row_corrupt row scores e)
placed-Tallies row scores out (hotkey id) e h f other =
    Adds-Tallies id row scores out e
      (score_hotkey-Adds id row scores out (rw (score_row_hotkey row scores id e) at h)) f other

score_row-Tallies :
    (row : Json) (scores out : Scores) → score_row row scores ≡ ok out → Tallies row scores out
score_row-Tallies row scores out h =
    let (r, e) = not_a_dict row scores out h in
    subst (λ x. Tallies x scores out) (sym e)
      (placed-Tallies r scores out (miner_id_of (get "miner_id" r)) refl
        (subst (λ x. score_row x scores ≡ ok out) e h))

score_from-tally :
    (f : Sum) (id : String) (rows : List Json) (scores out : Scores)
    → score_from rows scores ≡ ok out
    → kept f (bucket id out) ≡ kept f (bucket id scores) +ℤ tally f id rows
unfolding score_from
score_from-tally f id [] scores out h = rw (← ok_injective h) (omega int_laws)
score_from-tally f id (row ∷ rows) scores out h =
    let (next, step, rest) = unbind (score_row row scores) (score_from rows) h in
    omega (
      int_laws,
      parts_of_eq (score_row-Tallies row scores next step f id),
      parts_of_eq (score_from-tally f id rows next out rest),
    )

kept_empty : (f : Sum) (id : String) → kept f (bucket id []) ≡ pos 0
unfolding bucket
kept_empty earnings id = refl
kept_empty surcharge id = refl
kept_empty successful id = refl
kept_empty failed id = refl

-- If `score` returns, each of the four sums of each hotkey, its earnings, surcharge, successful and
-- failed requests, is that of the field over its own rows, and 0 for a hotkey that has no score.
pub score-tally :
    (rows : List Json) (scores : Scores) (f : Sum) (id : String)
    → score rows ≡ ok scores
    → kept f (bucket id scores) ≡ tally f id rows
unfolding score
score-tally rows scores f id h =
    omega (
      int_laws,
      parts_of_eq (score_from-tally f id rows [] scores h),
      parts_of_eq (kept_empty f id),
    )
