-- ===== src/Validator/Progress/Tests.antt =====
-- A tick of the examples that submits, and one whose summary has no emissions.
use gm_validator.Prelude.{true, none, [], ◌∷◌, ◌≡◌, refl, inl, inr, arith}
use gm_validator.Prelude.Int.{pos}
use gm_validator.Errors.{ok}
use gm_validator.Decimal.{lt}
use gm_validator.Adapter.{Mock, mock_submit}
use gm_validator.Summary.{EpochSummary}
use gm_validator.Mirror.{Artifact, Bucket, File, read_file, epoch_summary}
use gm_validator.Mirror.Progress.{served}
use gm_validator.Scoring.Rows.{load_aggregated}
use gm_validator.Validator.State.{Parts}
use gm_validator.Validator.Target.{refresh_miner_uid_lookup, observe_weight_status}
use gm_validator.Validator.Process.{outcome_of}
use gm_validator.Validator.Loop.{begin_tick, process_once}
use gm_validator.Validator.Guards.{SameGuards}
use gm_validator.Validator.Progress.Ticks.{process_once_ready}
use gm_validator.Validator.Progress.Stale.{process_once_stale}
use gm_validator.Validator.Examples.{alice, alice_scored, row, prices, parts, validator, tick}

-- The prices of a finalizer that does not write emissions.
abbrev old_prices : EpochSummary
old_prices = record prices { emissions_alpha = none }

abbrev old_parts : Parts Mock
old_parts = record parts { validate_summary = λ (f : File). ok old_prices }

process_once_ready_example :
    (process_once parts tick validator).1 ≡ ok (outcome_of 41 true alice ∷ [])
unfolding begin_tick refresh_miner_uid_lookup observe_weight_status read_file load_aggregated lt
    mock_submit
process_once_ready_example = process_once_ready parts tick validator 41 alice (record {
  next = record {
    allowed = refl;
    opened = refl;
    due = record { marked = refl; tick_is_open = refl; epoch_is_open = refl };
  };
  good = record {
    summary = prices;
    read = record {
      files = λ (a : Artifact). "row" ∷ [];
      there = λ (a : Artifact). refl;
      rows = row ∷ [];
      decoded = refl;
      scored = alice_scored;
      checked = refl;
    };
    emissions = record { coef = pos 148; exp = pos 0 };
    emitted = refl;
    price_is_positive = refl;
    emissions_is_positive = refl;
    fits = omega arith;
    known = inr (inl (7, refl));
  };
  taken = λ vector fine. refl;
})

process_once_stale_example :
    let (v', r) = process_once old_parts tick validator in
    (r ≡ ok [])
    × SameGuards validator v'
    × (v'.chain ≡ validator.chain)
    × ((bucket : Bucket)
        → served bucket 41 v'.disk epoch_summary ≡ bucket.download 41 epoch_summary)
unfolding begin_tick refresh_miner_uid_lookup observe_weight_status read_file load_aggregated
process_once_stale_example =
    process_once_stale old_parts tick validator 41 alice old_prices
      (record {
        allowed = refl;
        opened = refl;
        due = record { marked = refl; tick_is_open = refl; epoch_is_open = refl };
      })
      (record {
        files = λ (a : Artifact). "row" ∷ [];
        there = λ (a : Artifact). refl;
        rows = row ∷ [];
        decoded = refl;
        scored = alice_scored;
        checked = refl;
      })
      refl
