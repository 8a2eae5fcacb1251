-- ===== src/Validator/Tests.antt =====
-- A run of three turns against the in-memory chain, and the theorems about it.
use gm_validator.Prelude.Print.{print_nat}
use gm_validator.Validator.Report.{logged, deferred, tick_summary, format_weight_vector}
use gm_validator.Validator.State.{static}
use gm_validator.Prelude.Text.{codes}
use gm_validator.Decimal.{one}
use gm_validator.Prelude.{ℕ, true, none, some, [], ◌∷◌, ◌≡◌, ◌↔◌, refl, sum, All}
use gm_validator.Prelude.Int.{pos}
use gm_validator.Errors.{ok}
use gm_validator.Adapter.{
  within_rate_limit_window, ValidatorWeightStatus, SubmitCall, Mock, mock_submit,
}
use gm_validator.Economics.Normalize.{max_weight}
use gm_validator.Validator.State.{Validator}
use gm_validator.Validator.Target.{
  select_at, select_target_epoch, observe_weight_status, refresh_miner_uid_lookup,
}
use gm_validator.Validator.Process.{
  process_target_epoch, process_epoch, weigh_and_submit, load_inputs, load_scores,
  load_epoch_summary, submit_vector,
}
use gm_validator.Mirror.{latest_finalized_epoch, mirror_epoch, prune, read_file}
use gm_validator.Scoring.Rows.{
  load_aggregated, score, score_row, miner_id_of, score_hotkey, require_int, coerce_int,
  optional_int, product_key, add_row, bucket,
}
use gm_validator.Scoring.Json.{get, key_eq}
use gm_validator.Scoring.Weights.{
  compute_weights, compute_with_emissions, uids_by_index, route, miner_data, miner_pairs,
  full_demand_total,
}
use gm_validator.Economics.Epoch.{compute_epoch_weights}
use gm_validator.Economics.Normalize.{
  normalize_weights, positive_shares, quantize, settle, add_burn,
}
use gm_validator.Economics.Water.{reclaim_overflow}
use gm_validator.Decimal.{lt, sum_from, to_int, mul, div, max, eq}
use gm_validator.Metrics.{record_weight_submission}
use gm_validator.Prelude.Int.{◌+ℤ◌}
use gm_validator.Validator.Loop.{
  finish_tick, begin_tick, act_on, process_once, after_tick, run_loop,
}
use gm_validator.Validator.Selection.{IsDue, select_at_iff_IsDue}
use gm_validator.Validator.Guards.{Step}
use gm_validator.Validator.Climb.{IsClimbing, process_once-Step, run_loop-IsClimbing}
use gm_validator.Validator.Window.{process_once_in_window}
use gm_validator.Prelude.Dict.{OneToOne, insert-OneToOne}
use gm_validator.Prelude.Lists.{All-append}
use gm_validator.Scoring.Weights.Distinct.{NoRepeat}
use gm_validator.Validator.Submission.{Keeps, AllSent}
use gm_validator.Validator.Submission.Runs.{run_loop-Sent}
use gm_validator.Validator.Examples.{parts, validator, tick, ticks}

-- Every call that the in-memory submitter recorded has the whole budget in its weights, and no uid
-- twice.
abbrev IsFine : SubmitCall → Type 0
IsFine c = (sum c.weights ≡ max_weight) × NoRepeat c.uids

abbrev IsWhole : Mock → Type 0
IsWhole m = All IsFine m.calls

mock-Keeps : Keeps IsWhole OneToOne parts
unfolding mock_submit
mock-Keeps = record {
  on_submit = λ uids v epoch s known fine apart p.
      All-append IsFine s.calls _ p ((fine.whole, apart known), tt);
  on_status = λ s p. p;
  on_cursor = λ s p. p;
  on_hotkeys = λ source s h p. cc;
  on_lookup = λ source s uids h p found. cc;
}

alice_only : OneToOne validator.miner_uid_lookup
alice_only = insert-OneToOne "5Alice" 7 [] (λ key n e. cc) (λ key other n e f. cc)

select_at_iff_IsDue_example :
    (select_at parts tick validator (some 42) ≡ ok (some (42, 41)))
    ↔ ((◌≡◌ {A = ℕ × ℕ} (42, 41) (42, 41)) × IsDue tick validator 41)
select_at_iff_IsDue_example = select_at_iff_IsDue parts tick validator 41 (42, 41)

process_once-Step_example :
    let (v', outcomes) = after_tick (process_once parts tick validator) in
    Step validator outcomes v'
process_once-Step_example = process_once-Step parts tick validator

run_loop-IsClimbing_example : IsClimbing none (run_loop parts ticks validator).1
run_loop-IsClimbing_example = run_loop-IsClimbing parts ticks validator

run_loop-Sent_example :
    let (v', outcomes) = run_loop parts ticks validator in
    (IsWhole (v'.chain) × OneToOne v'.miner_uid_lookup) × AllSent outcomes
run_loop-Sent_example =
    run_loop-Sent IsWhole OneToOne parts ticks validator mock-Keeps (tt, alice_only)

-- The same validator 10 blocks after its last update, where 100 are the limit.
abbrev recent : ValidatorWeightStatus
recent = record {
  registered = true;
  last_update_block = some 990;
  current_block = 1000;
  weights_rate_limit = 100;
}

abbrev limited : Validator Mock
limited = record validator { chain = record { calls = []; status = some recent; epoch = some 42 } }

process_once_in_window_example :
    let (v', outcomes) = after_tick (process_once parts tick limited) in
    (outcomes ≡ []) × (v'.chain ≡ limited.chain)
unfolding begin_tick refresh_miner_uid_lookup observe_weight_status within_rate_limit_window
process_once_in_window_example = process_once_in_window parts tick limited recent refl refl

-- The run submits once.
run_once :
    (run_loop parts ticks validator).1
    ≡ record {
      epoch_id = 41;
      weights_submitted = true;
      miner_count = 1;
      total_ndollars = pos 5000000000;
    }
      ∷ []
unfolding run_loop process_once finish_tick select_target_epoch select_at begin_tick
    observe_weight_status refresh_miner_uid_lookup latest_finalized_epoch act_on
    process_target_epoch process_epoch weigh_and_submit mirror_epoch prune load_inputs load_scores
    load_aggregated load_epoch_summary read_file submit_vector mock_submit score compute_weights
    score_row miner_id_of get score_hotkey require_int coerce_int optional_int product_key add_row
    bucket ◌+ℤ◌ key_eq compute_with_emissions uids_by_index route compute_epoch_weights miner_data
    normalize_weights positive_shares quantize reclaim_overflow lt sum_from settle to_int mul div
    max miner_pairs full_demand_total record_weight_submission eq add_burn
run_once = refl

-- Inside the window a selected epoch is deferred.
deferred_line :
    logged parts tick limited
    ≡ some (record {
      target = some 41;
      miners = 0;
      disposition = deferred;
      entries = 1;
      status = static;
    })
unfolding logged begin_tick refresh_miner_uid_lookup observe_weight_status select_target_epoch
    select_at latest_finalized_epoch act_on within_rate_limit_window tick_summary
deferred_line = refl

all_burn_text :
    format_weight_vector (record {
      uids = 0 ∷ [];
      weights = 65535 ∷ [];
      burn_uid = 0;
      epoch_result = record { miners = []; pool_usd_total = one; total_consumed_usd = one };
    })
    ≡ ok (codes "all-burn [(0,65535)]")
unfolding format_weight_vector print_nat
all_burn_text = refl
