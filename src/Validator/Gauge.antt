-- ===== src/Validator/Gauge.antt =====
-- The gauge of the last weight epoch: what moves it.
pub mod Runs
use gm_validator.Prelude.{
  ℕ, true, false, Option, none, some, List, [], ◌∷◌, ◌≡◌, refl, sym, ap, ◌∙◌, Bool-cases,
  Option-cases, inl, inr, arith, length, ◌==◌, ltb,
}
use gm_validator.Prelude.Int.{ℤ, pos, negsuc, ltb_ℤ}
use gm_validator.Prelude.Dict.{Dict}
use gm_validator.Decimal.{Decimal, sum_from, nought}
use gm_validator.Errors.{Error, Result, ok, raised, stale_epoch_summary, Result-cases}
use gm_validator.Metrics.{
  Metrics, record_weight_submission, record_submit_failure, record_loop_error,
}
use gm_validator.Summary.{EpochSummary}
use gm_validator.Economics.Epoch.{EpochWeightsResult, is_positive}
use gm_validator.Economics.Normalize.{
  Share, max_weight, positive_shares, shares_of, report_payment_accuracy, distribute,
  normalize_weights,
}
use gm_validator.Scoring.Rows.{Scores}
use gm_validator.Scoring.Weights.{
  WeightVector, uids_by_index, is_stale, route, compute_with_emissions, compute_weights,
}
use gm_validator.Scoring.Weights.Route.{IsSubmittable}
use gm_validator.Scoring.Weights.Vector.{compute_weights-IsSound}
use gm_validator.Validator.State.{EpochOutcome, Validator, Parts, Tick}
use gm_validator.Validator.Target.{
  keep_lookup, refresh_miner_uid_lookup, observe_weight_status, select_at, select_target_epoch,
}
use gm_validator.Validator.Process.{
  after_error, after_submit, submit_vector, weigh_and_submit, process_epoch, settle_target,
  process_target_epoch,
}
use gm_validator.Validator.Loop.{
  in_window, act_on, finish_tick, begin_tick, process_once, after_tick, run_loop,
}
use gm_validator.Validator.Guards.{IsAbove}
use gm_validator.Validator.Climb.{IsOpen, select_at-IsOpen, begin_tick-SameGuards}
use gm_validator.Validator.Submission.{uids_nonempty}

-- The gauge of the epoch, and the highest epoch that it guards itself with.
abbrev pub gauge : Metrics → Option ℕ × ℤ
gauge m = (m.last_weight_epoch, m.highest_submitted)

-- What it shows where that epoch was submitted last.
abbrev pub gauge_at : Option ℕ → Option ℕ × ℤ
gauge_at none = (none, negsuc 0)
gauge_at (some epoch) = (some epoch, pos epoch)

-- The accuracy gauges are other ones.
distribute-gauge :
    (ss : List Share) (burn : ℕ) (demand : Option Decimal) (m : Metrics)
    → gauge (distribute ss burn demand m).0 ≡ gauge m
unfolding distribute report_payment_accuracy
distribute-gauge ss burn demand m =
    elim (Bool-cases (is_positive (sum_from nought (shares_of ss)))) [
      | inl e ↦ rw e refl
      | inr e ↦ rw e refl
    ]

normalize_weights-gauge :
    (ss : List Share) (burn : ℕ) (demand : Option Decimal) (m : Metrics)
    → gauge (normalize_weights ss burn demand m).0 ≡ gauge m
unfolding normalize_weights report_payment_accuracy
normalize_weights-gauge ss burn demand m =
    let cleaned = positive_shares ss in
    elim (Bool-cases (length cleaned == 0)) [
      | inl e ↦ rw e refl
      | inr e ↦ elim (Bool-cases (ltb max_weight (length cleaned))) [
        | inl over ↦ rw (e, over) refl
        | inr fits ↦ rw (e, fits) (distribute-gauge cleaned burn demand m)
      ]
    ]

route-gauge :
    (uids : List (Option ℕ)) (owner : ℕ) (r : Result EpochWeightsResult) (m : Metrics)
    → gauge (route uids owner r m).0 ≡ gauge m
unfolding route
route-gauge uids owner (raised e) m = refl
route-gauge uids owner (ok result) m = normalize_weights-gauge _ owner _ m

compute_weights-gauge :
    (scores : Scores) (uid_lookup : Dict ℕ) (summary : EpochSummary) (owner : ℕ)
    (multiplier : Decimal) (m : Metrics)
    → gauge (compute_weights scores uid_lookup summary owner multiplier m).0 ≡ gauge m
unfolding compute_weights compute_with_emissions
compute_weights-gauge scores uid_lookup summary owner multiplier m =
    elim (Option-cases summary.emissions_alpha) [
      | inl e ↦ rw (compute_weights, e) refl
      | inr (x, e) ↦ elim (Bool-cases (is_stale (uids_by_index uid_lookup scores))) [
        | inl s ↦ rw (compute_weights, e, s) refl
        | inr s ↦ rw (compute_weights, e, s) (route-gauge _ owner _ m)
      ]
    ]

-- An epoch above the one of the gauge moves it.
record_weight_submission-gauge :
    (now epoch : ℕ) (last : Option ℕ) (m : Metrics)
    → gauge m ≡ gauge_at last
    → IsAbove epoch last
    → gauge (record_weight_submission now epoch m) ≡ gauge_at (some epoch)
unfolding record_weight_submission
record_weight_submission-gauge now epoch none m h above =
    let high : ltb_ℤ m.highest_submitted (pos epoch) ≡ true = rw (ap (λ g. g.1) h) (ground arith) in
    rw high refl
record_weight_submission-gauge now epoch (some last) m h above =
    let high : ltb_ℤ m.highest_submitted (pos epoch) ≡ true = rw (ap (λ g. g.1) h) (ground arith) in
    rw high refl
