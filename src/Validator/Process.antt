-- ===== src/Validator/Process.antt =====
-- `_process_epoch` and `_process_target_epoch`: from the artifacts of an epoch to its submission.
use gm_validator.Prelude.{
  ℕ, Bool, true, false, Option, none, some, List, [], ◌∷◌, if◌then◌else◌, length,
}
use gm_validator.Prelude.Int.{pos}
use gm_validator.Errors.{
  Error, Result, ok, raised, ◌>>=◌, ◌>>◌, stale_epoch_summary, file_not_found,
}
use gm_validator.Metrics.{record_submit_failure, record_weight_submission}
use gm_validator.Mirror.{
  Disk, File, aggregated, epoch_summary, mirror_epoch, read_file, invalidate_artifact,
}
use gm_validator.Summary.{EpochSummary}
use gm_validator.Scoring.Rows.{Scores, load_aggregated, score}
use gm_validator.Scoring.Weights.{WeightVector, compute_weights}
use gm_validator.Validator.State.{EpochOutcome, Validator, Parts, Tick, scores_total}

-- `open(path)` on a mirrored file
abbrev pub open_file : Option File → Result File
open_file none = raised file_not_found
open_file (some f) = ok f

abbrev pub is_empty {ℓ} : {A : Type ℓ} → List A → Bool
is_empty [] = true
is_empty (x ∷ xs) = false

abbrev pub outcome_of : ℕ → Bool → Scores → EpochOutcome
outcome_of epoch_id submitted scores = record {
  epoch_id = epoch_id;
  weights_submitted = submitted;
  miner_count = length scores;
  total_ndollars = scores_total (pos 0) scores;
}

module _ {S : Type 0} where
  -- `load_aggregated` and `score` on the mirrored file
  unfoldable pub load_scores : Parts S → ℕ → Disk → Result Scores
  load_scores parts epoch_id disk = do
    file ← open_file (read_file epoch_id aggregated disk)
    rows ← load_aggregated parts.loads file
    score rows

  unfoldable pub load_epoch_summary : Parts S → ℕ → Disk → Result EpochSummary
  load_epoch_summary parts epoch_id disk =
      open_file (read_file epoch_id epoch_summary disk) >>= parts.validate_summary

  -- The `try` round the call of `submit`.
  abbrev pub after_submit :
      Tick → ℕ → Scores → Validator S → S × Result (Unit {0}) → Validator S × Result EpochOutcome
  after_submit tick epoch_id scores v (chain, raised e) =
      (record v { chain = chain; metrics = record_submit_failure v.metrics }, raised e)
  after_submit tick epoch_id scores v (chain, ok _) = (
    record v { chain = chain; metrics = record_weight_submission tick.now epoch_id v.metrics },
    ok (outcome_of epoch_id true scores),
  )

  -- `_process_epoch` once the vector is there or refused
  unfoldable pub submit_vector :
      Parts S
      → Tick
      → ℕ
      → Scores
      → Validator S
      → Result WeightVector
      → Validator S × Result EpochOutcome
  submit_vector parts tick epoch_id scores v (raised e) = (v, raised e)
  submit_vector parts tick epoch_id scores v (ok vector) =
      if is_empty vector.uids
      then (v, ok (outcome_of epoch_id false scores))
      else after_submit tick epoch_id scores v (
          parts.submitter.submit parts.config.bittensor_netuid vector.uids vector.weights epoch_id
            v.chain)

  -- `_process_epoch` once the files are read
  unfoldable pub weigh_and_submit :
      Parts S
      → Tick
      → ℕ
      → Validator S
      → Result (Scores × EpochSummary)
      → Validator S × Result EpochOutcome
  weigh_and_submit parts tick epoch_id v (raised e) = (v, raised e)
  weigh_and_submit parts tick epoch_id v (ok (scores, summary)) =
      let (metrics, vector) =
        compute_weights scores v.miner_uid_lookup summary parts.config.subnet_owner_uid
          parts.config.weight_earnings_multiplier v.metrics in
      submit_vector parts tick epoch_id scores (record v { metrics = metrics }) vector

  unfoldable pub load_inputs : Parts S → ℕ → Disk → Result (Scores × EpochSummary)
  load_inputs parts epoch_id disk = do
    scores ← load_scores parts epoch_id disk
    summary ← load_epoch_summary parts epoch_id disk
    ok (scores, summary)

  unfoldable pub process_epoch :
      Parts S → Tick → ℕ → Validator S → Validator S × Result EpochOutcome
  process_epoch parts tick epoch_id v =
      let (disk, mirrored) = mirror_epoch tick.bucket epoch_id v.disk in
      weigh_and_submit parts tick epoch_id (record v { disk = disk })
        (mirrored >> load_inputs parts epoch_id disk)

  -- The `except` clauses: a stale summary is dropped from the mirror, anything else is logged only.
  abbrev pub after_error : ℕ → Validator S → Error → Validator S
  after_error epoch_id v stale_epoch_summary = record v {
    disk = invalidate_artifact epoch_id epoch_summary v.disk;
  }
  after_error epoch_id v _ = v

  abbrev pub settle_target :
      ℕ → ℕ → Validator S × Result EpochOutcome → Validator S × Option EpochOutcome
  settle_target open_epoch epoch_id (v, raised e) = (after_error epoch_id v e, none)
  settle_target open_epoch epoch_id (v, ok outcome) = (
    record v { last_submitted_open_epoch = some open_epoch; last_submitted_epoch = some epoch_id },
    some outcome,
  )

  unfoldable pub process_target_epoch :
      Parts S → Tick → ℕ → ℕ → Validator S → Validator S × Option EpochOutcome
  process_target_epoch parts tick open_epoch epoch_id v =
      settle_target open_epoch epoch_id (process_epoch parts tick epoch_id v)
