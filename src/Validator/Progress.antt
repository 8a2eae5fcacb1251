-- ===== src/Validator/Progress.antt =====
-- When the processing of an epoch submits: from its artifacts to the outcome.
pub mod Ticks
pub mod Stale
mod Tests
use gm_validator.Prelude.{
  ℕ, suc, ◌≤◌, true, false, Option, some, List, [], ◌∷◌, length, ◌≡◌, ◌⊎◌, refl, ap, ◌∙◌,
}
use gm_validator.Errors.{Result, ok, raised, ◌>>◌}
use gm_validator.Decimal.{Decimal}
use gm_validator.Adapter.{ValidatorWeightStatus}
use gm_validator.Summary.{EpochSummary}
use gm_validator.Prelude.Dict.{Dict}
use gm_validator.Mirror.{Artifact, aggregated, epoch_summary, File, Disk, read_file, mirror_epoch}
use gm_validator.Mirror.Progress.{served, mirror_epoch_ends, read_file-mirror_epoch}
use gm_validator.Economics.Epoch.{is_positive}
use gm_validator.Economics.Normalize.{max_weight}
use gm_validator.Scoring.Json.{Json}
use gm_validator.Scoring.Rows.{Scores, load_aggregated, score}
use gm_validator.Scoring.Weights.{WeightVector, compute_weights}
use gm_validator.Scoring.Weights.Route.{IsSubmittable}
use gm_validator.Scoring.Weights.Vector.{HasKnown, compute_weights_returns, compute_weights-IsSound}
use gm_validator.Validator.State.{EpochOutcome, Validator, Parts, Tick}
use gm_validator.Validator.Target.{select_at, select_target_epoch}
use gm_validator.Validator.Process.{
  outcome_of, open_file, load_scores, load_epoch_summary, after_submit, submit_vector,
  weigh_and_submit, load_inputs, process_epoch, settle_target, process_target_epoch,
}
use gm_validator.Validator.Loop.{
  in_window, outcomes_of, act_on, finish_tick, begin_tick, process_once,
}
use gm_validator.Validator.Selection.{IsDue, select_at_due}
use gm_validator.Validator.Submission.{uids_nonempty}

module _ {S : Type 0} (parts : Parts S) (tick : Tick) (closed : ℕ) where
  -- The artifacts of the epoch are there, and they are read as these scores and this summary.
  pub record IsRead (disk : Disk) (scores : Scores) (summary : EpochSummary) : Type 0 where
    pub files : Artifact → File
    pub there : (a : Artifact) → served tick.bucket closed disk a ≡ ok (files a)
    pub rows : List Json
    pub decoded : load_aggregated parts.loads (files aggregated) ≡ ok rows
    pub scored : score rows ≡ ok scores
    pub checked : parts.validate_summary (files epoch_summary) ≡ ok summary

  -- They are good: the price and the emissions are positive, the vector is not too long, and the
  -- lookup knows a scored miner, if there is one.
  pub record IsGood (disk : Disk) (uid_lookup : Dict ℕ) (scores : Scores) : Type 0 where
    pub summary : EpochSummary
    pub read : IsRead disk scores summary
    pub emissions : Decimal
    pub emitted : summary.emissions_alpha ≡ some emissions
    pub price_is_positive : is_positive summary.alpha_price_usd ≡ true
    pub emissions_is_positive : is_positive emissions ≡ true
    pub fits : length scores ≤ max_weight
    pub known : (scores ≡ []) ⊎ HasKnown uid_lookup scores

  -- The chain takes every vector that can be submitted for the epoch.
  abbrev pub IsTaken : S → Type 0
  IsTaken chain =
      (vector : WeightVector)
      → IsSubmittable vector
      → (parts.submitter.submit parts.config.bittensor_netuid vector.uids vector.weights closed
          chain).1
        ≡ ok tt

module _ {S : Type 0} (parts : Parts S) (tick : Tick) where
  after_submit_taken :
      (epoch : ℕ) (scores : Scores) (v : Validator S) (r : S × Result (Unit {0}))
      → r.1 ≡ ok tt
      → (after_submit tick epoch scores v r).1 ≡ ok (outcome_of epoch true scores)
  after_submit_taken epoch scores v (chain, raised e) h = cc
  after_submit_taken epoch scores v (chain, ok tt) h = refl

  submit_vector_taken :
      (epoch : ℕ) (scores : Scores) (v : Validator S) (vector : WeightVector)
      → IsSubmittable vector
      → IsTaken parts tick epoch v.chain
      → (submit_vector parts tick epoch scores v (ok vector)).1 ≡ ok (outcome_of epoch true scores)
  unfolding submit_vector
  submit_vector_taken epoch scores v vector fine taken =
      rw (uids_nonempty vector.uids vector.weights (fine.whole) (fine.aligned))
        (after_submit_taken epoch scores v _ (taken vector fine))

  -- A vector that came out of `compute_weights` is submitted.
  weigh_and_submit_computed :
      (epoch : ℕ) (v : Validator S) (scores : Scores) (summary : EpochSummary)
      (vector : WeightVector)
      → (compute_weights scores v.miner_uid_lookup summary parts.config.subnet_owner_uid
          parts.config.weight_earnings_multiplier v.metrics).1
        ≡ ok vector
      → IsTaken parts tick epoch v.chain
      → (weigh_and_submit parts tick epoch v (ok (scores, summary))).1
        ≡ ok (outcome_of epoch true scores)
  unfolding weigh_and_submit
  weigh_and_submit_computed epoch v scores summary vector h taken =
      let fine =
        compute_weights-IsSound scores v.miner_uid_lookup summary parts.config.subnet_owner_uid
          parts.config.weight_earnings_multiplier v.metrics vector h in
      rw h (submit_vector_taken epoch scores _ vector (fine.0) taken)

  load_scores_read :
      (epoch : ℕ) (disk : Disk) (file : File) (rows : List Json)
      → read_file epoch aggregated disk ≡ some file
      → load_aggregated parts.loads file ≡ ok rows
      → load_scores parts epoch disk ≡ score rows
  unfolding load_scores
  load_scores_read epoch disk file rows here h = rw (here, h) refl

  load_epoch_summary_read :
      (epoch : ℕ) (disk : Disk) (file : File)
      → read_file epoch epoch_summary disk ≡ some file
      → load_epoch_summary parts epoch disk ≡ parts.validate_summary file
  unfolding load_epoch_summary
  load_epoch_summary_read epoch disk file here = rw here refl

  load_inputs_read :
      (epoch : ℕ) (disk : Disk) (scores : Scores) (summary : EpochSummary)
      → load_scores parts epoch disk ≡ ok scores
      → load_epoch_summary parts epoch disk ≡ ok summary
      → load_inputs parts epoch disk ≡ ok (scores, summary)
  unfolding load_inputs
  load_inputs_read epoch disk scores summary h k = rw (h, k) refl

  -- What is read after the mirroring.
  pub process_epoch_read :
      (epoch : ℕ) (v : Validator S) (scores : Scores) (summary : EpochSummary)
      → IsRead parts tick epoch v.disk scores summary
      → process_epoch parts tick epoch v
        ≡ weigh_and_submit parts tick epoch
            (record v { disk = (mirror_epoch tick.bucket epoch v.disk).0 })
            (ok (scores, summary))
  unfolding process_epoch
  process_epoch_read epoch v scores summary r =
      let disk = (mirror_epoch tick.bucket epoch v.disk).0 in
      let here = read_file-mirror_epoch tick.bucket epoch v.disk (r.files) (r.there) in
      let read =
        load_inputs_read epoch disk scores summary
          (load_scores_read epoch disk (r.files aggregated) (r.rows) (here aggregated) (r.decoded)
            ∙ r.scored)
          (load_epoch_summary_read epoch disk (r.files epoch_summary) (here epoch_summary)
            ∙ r.checked) in
      rw (mirror_epoch_ends tick.bucket epoch v.disk (r.files) (r.there), read) refl

  pub process_epoch_good :
      (epoch : ℕ) (v : Validator S) (scores : Scores)
      → IsGood parts tick epoch v.disk v.miner_uid_lookup scores
      → IsTaken parts tick epoch v.chain
      → (process_epoch parts tick epoch v).1 ≡ ok (outcome_of epoch true scores)
  process_epoch_good epoch v scores g taken =
      let (vector, computed) =
        compute_weights_returns scores v.miner_uid_lookup (g.summary) parts.config.subnet_owner_uid
          parts.config.weight_earnings_multiplier v.metrics (g.emissions) (g.emitted)
          (g.price_is_positive) (g.emissions_is_positive) (g.fits) (g.known) in
      rw (process_epoch_read epoch v scores (g.summary) (g.read)) (
        weigh_and_submit_computed epoch
          (record v { disk = (mirror_epoch tick.bucket epoch v.disk).0 }) scores (g.summary) vector
          computed taken)
