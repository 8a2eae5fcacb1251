-- ===== src/Validator/Gauge/Runs.antt =====
-- The gauge of the last weight epoch over a run.
use gm_validator.Prelude.{
  ℕ, Option, none, some, List, [], ◌∷◌, ◌≡◌, refl, sym, ap, ◌∙◌, Bool-cases, Option-cases, inl, inr,
}
use gm_validator.Prelude.Dict.{Dict}
use gm_validator.Errors.{Error, Result, ok, raised, stale_epoch_summary}
use gm_validator.Metrics.{record_submit_failure, record_loop_error}
use gm_validator.Summary.{EpochSummary}
use gm_validator.Scoring.Rows.{Scores}
use gm_validator.Scoring.Weights.{WeightVector, compute_weights}
use gm_validator.Scoring.Weights.Route.{IsSubmittable}
use gm_validator.Scoring.Weights.Vector.{compute_weights-IsSound}
use gm_validator.Validator.State.{EpochOutcome, Validator, Parts, Tick}
use gm_validator.Validator.Target.{
  keep_lookup, refresh_miner_uid_lookup, observe_weight_status, select_at, select_target_epoch,
}
use gm_validator.Validator.Process.{
  after_error, after_submit, submit_vector, weigh_and_submit, process_epoch, settle_target,
  process_target_epoch,
}
use gm_validator.Validator.Loop.{
  in_window, act_on, finish_tick, begin_tick, process_once, after_tick, run_loop,
}
use gm_validator.Validator.Guards.{IsAbove}
use gm_validator.Validator.Climb.{IsOpen, select_at-IsOpen}
use gm_validator.Validator.Submission.{uids_nonempty}
use gm_validator.Adapter.{ValidatorWeightStatus}
use gm_validator.Mirror.{mirror_epoch}
use gm_validator.Validator.Gauge.{
  gauge, gauge_at, compute_weights-gauge, record_weight_submission-gauge,
}

-- The epoch that was submitted last, once the processing of this one has ended.
abbrev reached : ℕ → Option ℕ → Result EpochOutcome → Option ℕ
reached epoch last (raised e) = last
reached epoch last (ok o) = some epoch

module _ {S : Type 0} where
  -- The gauge shows the epoch that was submitted last.
  abbrev pub Shows : Validator S → Type 0
  Shows v = gauge v.metrics ≡ gauge_at v.last_submitted_epoch

  -- The guard waits for the end of the epoch; the gauge moves with the submission.
  abbrev Processed : ℕ → Option ℕ → Validator S × Result EpochOutcome → Type 0
  Processed epoch last r =
      (r.0.last_submitted_epoch ≡ last) × (gauge r.0.metrics ≡ gauge_at (reached epoch last r.1))

module _ {S : Type 0} (parts : Parts S) (tick : Tick) where
  after_submit-Processed :
      (epoch : ℕ) (scores : Scores) (v : Validator S) (r : S × Result (Unit {0}))
      → Shows v
      → IsAbove epoch v.last_submitted_epoch
      → Processed epoch v.last_submitted_epoch (after_submit tick epoch scores v r)
  unfolding record_submit_failure
  after_submit-Processed epoch scores v (chain, raised e) h above = (refl, h)
  after_submit-Processed epoch scores v (chain, ok u) h above =
      (refl, record_weight_submission-gauge tick.now epoch v.last_submitted_epoch v.metrics h above)

  submit_vector-Processed :
      (epoch : ℕ) (scores : Scores) (v : Validator S) (r : Result WeightVector)
      → ((vector : WeightVector) → r ≡ ok vector → IsSubmittable vector)
      → Shows v
      → IsAbove epoch v.last_submitted_epoch
      → Processed epoch v.last_submitted_epoch (submit_vector parts tick epoch scores v r)
  unfolding submit_vector
  submit_vector-Processed epoch scores v (raised e) good h above = (refl, h)
  submit_vector-Processed epoch scores v (ok vector) good h above =
      let fine = good vector refl in
      rw (uids_nonempty vector.uids vector.weights (fine.whole) (fine.aligned))
        (after_submit-Processed epoch scores v _ h above)

  weigh_and_submit-Processed :
      (epoch : ℕ) (v : Validator S) (r : Result (Scores × EpochSummary))
      → Shows v
      → IsAbove epoch v.last_submitted_epoch
      → Processed epoch v.last_submitted_epoch (weigh_and_submit parts tick epoch v r)
  unfolding weigh_and_submit
  weigh_and_submit-Processed epoch v (raised e) h above = (refl, h)
  weigh_and_submit-Processed epoch v (ok (scores, summary)) h above =
      let owner = parts.config.subnet_owner_uid in
      let multiplier = parts.config.weight_earnings_multiplier in
      let (m, r) = compute_weights scores v.miner_uid_lookup summary owner multiplier v.metrics in
      submit_vector-Processed epoch scores (record v { metrics = m }) r
        (λ vector e.
          (compute_weights-IsSound scores v.miner_uid_lookup summary owner multiplier v.metrics
            vector e).0)
        (compute_weights-gauge scores v.miner_uid_lookup summary owner multiplier v.metrics ∙ h)
        above

  process_epoch-Processed :
      (epoch : ℕ) (v : Validator S)
      → Shows v
      → IsAbove epoch v.last_submitted_epoch
      → Processed epoch v.last_submitted_epoch (process_epoch parts tick epoch v)
  unfolding process_epoch
  process_epoch-Processed epoch v h above =
      weigh_and_submit-Processed epoch
        (record v { disk = (mirror_epoch tick.bucket epoch v.disk).0 }) _ h above

  after_error-Shows :
      (epoch : ℕ) (v : Validator S) (e : Error) → Shows v → Shows (after_error epoch v e)
  after_error-Shows epoch v stale_epoch_summary h = h
  after_error-Shows epoch v _ h = h

  settle_target-Shows :
      (open_epoch epoch : ℕ) (last : Option ℕ) (r : Validator S × Result EpochOutcome)
      → Processed epoch last r
      → Shows (settle_target open_epoch epoch r).0
  settle_target-Shows open_epoch epoch last (v, raised e) (same, h) =
      after_error-Shows epoch v e (h ∙ ap gauge_at (sym same))
  settle_target-Shows open_epoch epoch last (v, ok o) (same, h) = h

  act_on-Shows :
      (status : Option ValidatorWeightStatus) (v : Validator S) (selection : Option (ℕ × ℕ))
      → IsOpen v selection
      → Shows v
      → Shows (act_on parts tick status v selection).0
  unfolding act_on process_target_epoch
  act_on-Shows status v none o h = h
  act_on-Shows status v (some (open_epoch, target)) (e, above) h =
      elim (Bool-cases (in_window status)) [
        | inl w ↦ rw w h
        | inr w ↦ rw w (
            settle_target-Shows open_epoch target v.last_submitted_epoch
              (process_epoch parts tick target v) (process_epoch-Processed target v h above))
      ]

  finish_tick-Shows :
      (status : Option ValidatorWeightStatus) (v : Validator S) (r : Result (Option (ℕ × ℕ)))
      → ((selection : Option (ℕ × ℕ)) → r ≡ ok selection → IsOpen v selection)
      → Shows v
      → Shows (after_tick (finish_tick parts tick status v r)).0
  unfolding finish_tick record_loop_error
  finish_tick-Shows status v (raised e) o h = h
  finish_tick-Shows status v (ok selection) o h =
      act_on-Shows status v selection (o selection refl) h

  keep_lookup-Shows :
      (v : Validator S) (r : S × Result (Dict ℕ)) → Shows v → Shows (keep_lookup v r).0
  keep_lookup-Shows v (chain, raised e) h = h
  keep_lookup-Shows v (chain, ok uids) h = h

  begin_tick-Shows : (v : Validator S) → Shows v → Shows (begin_tick parts v).0
  unfolding begin_tick observe_weight_status refresh_miner_uid_lookup
  begin_tick-Shows v h = elim (Option-cases parts.metagraph_source) [
    | inl e ↦ rw e h
    | inr (source, e) ↦ rw e (keep_lookup-Shows v (source.hotkeys v.chain) h)
  ]

  process_once-Shows :
      (v : Validator S) → Shows v → Shows (after_tick (process_once parts tick v)).0
  unfolding process_once select_target_epoch
  process_once-Shows v h =
      let (w, status) = begin_tick parts v in
      let (chain, open_epoch) = parts.cursor.current_epoch w.chain in
      finish_tick-Shows status (record w { chain = chain }) (select_at parts tick w open_epoch)
        (λ selection e. select_at-IsOpen parts tick w open_epoch selection e) (begin_tick-Shows v h)

-- Over any run the gauge of the last weight epoch shows the epoch that was submitted last, if it did
-- so when the run began.
pub run_loop-Shows :
    {S : Type 0} (parts : Parts S) (ticks : List Tick) (v : Validator S)
    → Shows v
    → Shows (run_loop parts ticks v).0
unfolding run_loop
run_loop-Shows parts [] v h = h
run_loop-Shows parts (tick ∷ ticks) v h =
    run_loop-Shows parts ticks (after_tick (process_once parts tick v)).0
      (process_once-Shows parts tick v h)
