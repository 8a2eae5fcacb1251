-- ===== src/Scoring/Rows/Tests.antt =====
-- A file of three rows, and the theorems about it.
use Prim.Native.String.{String}
use gm_validator.Prelude.{true, ◌≡◌, refl, List, [], ◌∷◌}
use gm_validator.Prelude.Int.{pos, ◌+ℤ◌}
use gm_validator.Errors.{ok, raised, malformed_artifact}
use gm_validator.Scoring.Json.{Json, boolean, int, str, object, end, field, get, key_eq}
use gm_validator.Scoring.Rows.{
  MinerScore, Scores, miner_id_of, require_int, optional_int, product_key, bucket, coerce_int,
  assert_zero_earning_no_miner_row, add_row, score_row, score_hotkey, score,
}
use gm_validator.Scoring.Rows.Money.{total_owed, total_money}
use gm_validator.Scoring.Rows.Credits.{score-conserves}
use gm_validator.Scoring.Rows.Tally.{Sum, kept, tally, successful, score-tally}
use gm_validator.Scoring.Rows.Readable.{IsReadable}
use gm_validator.Scoring.Rows.Order.{score_iff_IsReadable, score-perm}
use mathlib.Core.List.{Permᴰ}
use gm_validator.Prelude.{◌↔◌, All}

abbrev paid_row : Json
paid_row = object (
    field "miner_id" (str "5Alice")
      (field "earnings_ndollars" (str " 120 ") (field "surcharge_ndollars" (int (pos 3)) end)))

abbrev unplaced_row : Json
unplaced_row = object (field "earnings_ndollars" (int (pos 0)) end)

abbrev rows : List Json
rows = paid_row ∷ unplaced_row ∷ paid_row ∷ []

abbrev alice : MinerScore
alice = record {
  miner_id = "5Alice";
  earnings_ndollars = pos 240;
  surcharge_ndollars = pos 6;
  successful_requests = pos 0;
  failed_requests = pos 0;
  per_product = ((str "", str ""), pos 246) ∷ [];
}

abbrev alice_only : Scores
alice_only = ("5Alice", alice) ∷ []

scored : score rows ≡ ok alice_only
unfolding score score_row miner_id_of get score_hotkey require_int coerce_int optional_int
    product_key assert_zero_earning_no_miner_row add_row bucket ◌+ℤ◌ key_eq
scored = refl

-- A bool is no amount.
bool_amount :
    score
      (object (field "miner_id" (str "5Alice") (field "earnings_ndollars" (boolean true) end)) ∷ [])
    ≡ raised malformed_artifact
unfolding score score_row miner_id_of get score_hotkey require_int coerce_int
bool_amount = refl

score-conserves_example : total_owed alice_only ≡ total_money rows
score-conserves_example = score-conserves rows alice_only scored

abbrev busy_row : Json
busy_row = object (
    field "miner_id" (str "5Bob") (
      field "earnings_ndollars" (int (pos 1))
        (field "surcharge_ndollars" (int (pos 0)) (field "successful_requests" (int (pos 4)) end))))

abbrev two_rows : List Json
two_rows = paid_row ∷ busy_row ∷ []

abbrev two_scores : Scores
two_scores =
    (
      "5Alice",
      record alice {
        earnings_ndollars = pos 120;
        surcharge_ndollars = pos 3;
        per_product = ((str "", str ""), pos 123) ∷ [];
      },
    )
    ∷ (
      "5Bob",
      record {
        miner_id = "5Bob";
        earnings_ndollars = pos 1;
        surcharge_ndollars = pos 0;
        successful_requests = pos 4;
        failed_requests = pos 0;
        per_product = ((str "", str ""), pos 1) ∷ [];
      },
    )
    ∷ []

two_scored : score two_rows ≡ ok two_scores
unfolding score score_row miner_id_of get score_hotkey require_int coerce_int optional_int
    product_key add_row bucket ◌+ℤ◌ key_eq
two_scored = refl

score-tally_example : kept successful (bucket "5Bob" two_scores) ≡ tally successful "5Bob" two_rows
score-tally_example = score-tally two_rows two_scores successful "5Bob" two_scored

score_iff_IsReadable_example : ((scores : Scores) × (score rows ≡ ok scores)) ↔ All IsReadable rows
score_iff_IsReadable_example = score_iff_IsReadable rows

score-perm_example :
    (scores' : Scores) × (score (busy_row ∷ paid_row ∷ []) ≡ ok scores')
    × ((f : Sum) (id : String) → kept f (bucket id scores') ≡ kept f (bucket id two_scores))
score-perm_example =
    score-perm two_rows (busy_row ∷ paid_row ∷ []) two_scores (Permᴰ.swap refl refl) two_scored
