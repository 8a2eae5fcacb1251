-- ===== src/Scoring/Rows/Credits.antt =====
-- The money that `score` credits, in all and to each miner.
use Prim.Native.String.{String}
use mathlib.Core.Path.{subst}
use text.Mathlib.Text.{◌==◌ as str_eq}
use text.Mathlib.TextEquality.{eq_iff}
use gm_validator.Prelude.{true, List, [], ◌∷◌, ◌≡◌, refl, sym, inl, inr, Bool-cases, if◌then◌else◌}
use gm_validator.Prelude.Int.{pos, ◌+ℤ◌, int_laws, parts_of_eq}
use gm_validator.Errors.{ok, raised, ◌>>◌, unbind, unbind_then, ok_injective, malformed_artifact}
use gm_validator.Scoring.Json.{Json, object, Fields, get}
use gm_validator.Scoring.Rows.{
  Scores, assert_zero_earning_no_miner_row, MinerId, unplaced, corrupt, hotkey, miner_id_of, bucket,
  score_hotkey, score_row, score_from, score,
}
use gm_validator.Scoring.Rows.Money.{
  row_money, total_money, owed, total_owed, money_for, total_for, Writes, score_hotkey-Writes,
  assert_zero-row_money, total_owed-insert, bucket-insert,
}

-- One row: the sum of what is owed rises by its money, and each miner's part by what is for it.
record Credits (row : Json) (scores out : Scores) : Type 0 where
  whole : total_owed out ≡ total_owed scores +ℤ row_money row
  each : (id : String) → owed (bucket id out) ≡ owed (bucket id scores) +ℤ money_for id row

Writes-whole :
    (id : String) (row : Json) (scores out : Scores)
    → Writes id row scores out
    → total_owed out ≡ total_owed scores +ℤ row_money row
Writes-whole id row scores out (s, e, h) =
    rw e (omega (int_laws, parts_of_eq (total_owed-insert id s scores), parts_of_eq h))

pub str_same : (k j : String) → str_eq k j ≡ true → k ≡ j
str_same k j e = (eq_iff k j).0 e

Writes-each :
    (id other : String) (row : Json) (scores out : Scores)
    → Writes id row scores out
    → owed (bucket other out)
      ≡ owed (bucket other scores) +ℤ (if str_eq id other then row_money row else pos 0)
Writes-each id other row scores out (s, e, h) = elim (Bool-cases (str_eq id other)) [
  | inl same ↦ rw (e, bucket-insert id other s scores, same) (rw (← str_same id other same) h)
  | inr different ↦ rw (e, bucket-insert id other s scores, different) (omega int_laws)
]

-- The three ways that a row goes.
pub score_row_unplaced :
    (row : Fields) (scores : Scores)
    → miner_id_of (get "miner_id" row) ≡ unplaced
    → score_row (object row) scores ≡ (assert_zero_earning_no_miner_row row >> ok scores)
unfolding score_row
score_row_unplaced row scores e = rw (score_row, e)

pub score_row_corrupt :
    (row : Fields) (scores : Scores)
    → miner_id_of (get "miner_id" row) ≡ corrupt
    → score_row (object row) scores ≡ raised malformed_artifact
unfolding score_row
score_row_corrupt row scores e = rw (score_row, e)

pub score_row_hotkey :
    (row : Fields) (scores : Scores) (id : String)
    → miner_id_of (get "miner_id" row) ≡ hotkey id
    → score_row (object row) scores ≡ score_hotkey id row scores
unfolding score_row
score_row_hotkey row scores id e = rw (score_row, e)

placed-Credits :
    (row : Fields) (scores out : Scores) (m : MinerId)
    → miner_id_of (get "miner_id" row) ≡ m
    → score_row (object row) scores ≡ ok out
    → Credits (object row) scores out
placed-Credits row scores out unplaced e h =
    let (zero, same) =
      unbind_then (assert_zero_earning_no_miner_row row) (ok scores)
        (rw (score_row_unplaced row scores e) at h) in
    let money = assert_zero-row_money row zero in
    record {
      whole = rw (← ok_injective same, money) (omega int_laws);
      each = λ id. rw (← ok_injective same, e) (omega int_laws);
    }
placed-Credits row scores out corrupt e h = cc (score_row_corrupt row scores e)
placed-Credits row scores out (hotkey id) e h =
    let writes =
      score_hotkey-Writes id row scores out (rw (score_row_hotkey row scores id e) at h) in
    record {
      whole = Writes-whole id (object row) scores out writes;
      each = λ other. rw e (Writes-each id other (object row) scores out writes);
    }

pub not_a_dict :
    (row : Json) (scores out : Scores)
    → score_row row scores ≡ ok out
    → (f : Fields) × (row ≡ object f)
unfolding score_row
not_a_dict (object f) scores out h = (f, refl)
not_a_dict _ scores out h = cc

score_row-Credits :
    (row : Json) (scores out : Scores) → score_row row scores ≡ ok out → Credits row scores out
score_row-Credits row scores out h =
    let (f, e) = not_a_dict row scores out h in
    subst (λ r. Credits r scores out) (sym e)
      (placed-Credits f scores out (miner_id_of (get "miner_id" f)) refl
        (subst (λ r. score_row r scores ≡ ok out) e h))

score_from-whole :
    (rows : List Json) (scores out : Scores)
    → score_from rows scores ≡ ok out
    → total_owed out ≡ total_owed scores +ℤ total_money rows
unfolding score_from
score_from-whole [] scores out h = rw (← ok_injective h) (omega int_laws)
score_from-whole (row ∷ rows) scores out h =
    let (next, step, rest) = unbind (score_row row scores) (score_from rows) h in
    omega (
      int_laws,
      parts_of_eq ((score_row-Credits row scores next step).whole),
      parts_of_eq (score_from-whole rows next out rest),
    )

score_from-each :
    (id : String) (rows : List Json) (scores out : Scores)
    → score_from rows scores ≡ ok out
    → owed (bucket id out) ≡ owed (bucket id scores) +ℤ total_for id rows
unfolding score_from
score_from-each id [] scores out h = rw (← ok_injective h) (omega int_laws)
score_from-each id (row ∷ rows) scores out h =
    let (next, step, rest) = unbind (score_row row scores) (score_from rows) h in
    omega (
      int_laws,
      parts_of_eq ((score_row-Credits row scores next step).each id),
      parts_of_eq (score_from-each id rows next out rest),
    )

-- If `score` returns, the earnings and surcharges of all its scores add up to those of all the rows,
-- the rows without a miner included.
pub score-conserves :
    (rows : List Json) (scores : Scores)
    → score rows ≡ ok scores
    → total_owed scores ≡ total_money rows
unfolding score
score-conserves rows scores h = omega (int_laws, parts_of_eq (score_from-whole rows [] scores h))

-- If `score` returns, the earnings and surcharge of each hotkey are those of its own rows, and 0 for a
-- hotkey that has no score.
pub score-credits :
    (rows : List Json) (scores : Scores) (id : String)
    → score rows ≡ ok scores
    → owed (bucket id scores) ≡ total_for id rows
unfolding score bucket
score-credits rows scores id h = omega (int_laws, parts_of_eq (score_from-each id rows [] scores h))
