-- ===== src/Scoring/Rows/Money.antt =====
-- The money of a row and of a score, and what one write does to it.
use Prim.Native.String.{String}
use text.Mathlib.Text.{◌==◌ as str_eq}
use text.Mathlib.TextEquality.{eq_iff}
use gm_validator.Prelude.{
  true, false, Option, none, some, List, [], ◌∷◌, ◌≡◌, sym, inl, inr, arith, Bool-cases,
  if◌then◌else◌,
}
use gm_validator.Prelude.Int.{ℤ, pos, ◌+ℤ◌, int_laws, parts_of_eq}
use gm_validator.Prelude.Dict.{insert, lookup-insert}
use gm_validator.Errors.{Result, ok, raised, unbind, unbind_then, ok_injective}
use gm_validator.Scoring.Json.{Json, object, Fields, get}
use gm_validator.Scoring.Rows.{
  MinerScore, Scores, coerce_int, require_int, optional_int, assert_zero,
  assert_zero_earning_no_miner_row, MinerId, hotkey, miner_id_of, product_key, bucket, add_row,
  score_hotkey, ProductKey,
}

-- The amount of a field, read on its own: 0 where it is missing or no integer.
abbrev pub readable : Result ℤ → ℤ
readable (ok n) = n
readable (raised e) = pos 0

abbrev pub amount_of : Option Json → ℤ
amount_of none = pos 0
amount_of (some value) = readable (coerce_int value)

-- The money of a row, whoever it is for.
abbrev pub row_money : Json → ℤ
row_money (object row) =
    amount_of (get "earnings_ndollars" row) +ℤ amount_of (get "surcharge_ndollars" row)
row_money _ = pos 0

abbrev pub total_money : List Json → ℤ
total_money [] = pos 0
total_money (row ∷ rows) = row_money row +ℤ total_money rows

-- What a score owes its miner.
abbrev pub owed : MinerScore → ℤ
owed s = s.earnings_ndollars +ℤ s.surcharge_ndollars

abbrev pub total_owed : Scores → ℤ
total_owed [] = pos 0
total_owed ((id, s) ∷ scores) = owed s +ℤ total_owed scores

pub require_int-amount :
    (row : Fields) (key : String) {n : ℤ} → require_int row key ≡ ok n → amount_of (get key row) ≡ n
unfolding require_int
require_int-amount row key h = ground arith

assert_zero-amount :
    (row : Fields) (key : String) → assert_zero row key ≡ ok tt → amount_of (get key row) ≡ pos 0
unfolding assert_zero
assert_zero-amount row key h = ground arith

bucket_here :
    (k id : String) (old : MinerScore) (scores : Scores)
    → str_eq k id ≡ true
    → bucket id ((k, old) ∷ scores) ≡ old
unfolding bucket
bucket_here k id old scores e = rw (bucket, e)

bucket_there :
    (k id : String) (old : MinerScore) (scores : Scores)
    → str_eq k id ≡ false
    → bucket id ((k, old) ∷ scores) ≡ bucket id scores
unfolding bucket
bucket_there k id old scores e = rw (bucket, e)

pub total_owed-insert :
    (id : String) (s : MinerScore) (scores : Scores)
    → total_owed (insert id s scores) +ℤ owed (bucket id scores) ≡ total_owed scores +ℤ owed s
total_owed-insert id s [] = unfold bucket in omega int_laws
total_owed-insert id s ((k, old) ∷ scores) = elim (Bool-cases (str_eq k id)) [
  | inl e ↦ rw (e, bucket_here k id old scores e) (omega int_laws)
  | inr e ↦
      rw (e, bucket_there k id old scores e)
        (omega (int_laws, parts_of_eq (total_owed-insert id s scores)))
]

owed-add_row :
    (earn surch successful failed : ℤ) (key : ProductKey) (s : MinerScore)
    → owed (add_row earn surch successful failed key s) ≡ owed s +ℤ (earn +ℤ surch)
unfolding add_row
owed-add_row earn surch successful failed key s = omega int_laws

-- A row for a hotkey writes one score, which owes the row's money more than the one before.
abbrev pub Writes : String → Json → Scores → Scores → Type 0
Writes id row scores out =
    (s : MinerScore) × (out ≡ insert id s scores)
    × (owed s ≡ owed (bucket id scores) +ℤ row_money row)

pub score_hotkey-Writes :
    (id : String) (row : Fields) (scores out : Scores)
    → score_hotkey id row scores ≡ ok out
    → Writes id (object row) scores out
unfolding score_hotkey
score_hotkey-Writes id row scores out h =
    let (earn, he, h1) = unbind (require_int row "earnings_ndollars") _ h in
    let (surch, hs, h2) = unbind (require_int row "surcharge_ndollars") _ h1 in
    let (successful, _, h3) = unbind (optional_int row "successful_requests") _ h2 in
    let (failed, _, h4) = unbind (optional_int row "failed_requests") _ h3 in
    let (key, _, h5) = unbind (product_key row) _ h4 in
    (
      add_row earn surch successful failed key (bucket id scores),
      sym (ok_injective h5),
      rw (require_int-amount row _ he, require_int-amount row _ hs)
          (owed-add_row earn surch successful failed key (bucket id scores)),
    )

-- An unplaced row carries no money, or it is refused.
pub assert_zero-row_money :
    (row : Fields) → assert_zero_earning_no_miner_row row ≡ ok tt → row_money (object row) ≡ pos 0
unfolding assert_zero_earning_no_miner_row
assert_zero-row_money row h =
    let (he, hs) = unbind_then (assert_zero row "earnings_ndollars") _ h in
    rw
      (
        assert_zero-amount row "earnings_ndollars" he,
        assert_zero-amount row "surcharge_ndollars" hs,
      )
      (omega int_laws)

-- The money of a row that is for a given miner.
abbrev pub money_if : String → ℤ → MinerId → ℤ
money_if id money (hotkey h) = if str_eq h id then money else pos 0
money_if id money _ = pos 0

abbrev pub money_for : String → Json → ℤ
money_for id (object row) = money_if id (row_money (object row)) (miner_id_of (get "miner_id" row))
money_for id _ = pos 0

abbrev pub total_for : String → List Json → ℤ
total_for id [] = pos 0
total_for id (row ∷ rows) = money_for id row +ℤ total_for id rows

pub bucket-insert :
    (id other : String) (s : MinerScore) (scores : Scores)
    → bucket other (insert id s scores) ≡ (if str_eq id other then s else bucket other scores)
unfolding bucket
bucket-insert id other s scores = ground (arith, lookup-insert id other s scores, eq_iff id other)
