-- ===== src/Validator/Loop.antt =====
-- `process_once`, and the loop of `main._run` round it.
use gm_validator.Prelude.{ℕ, Bool, false, Option, none, some, List, [], ◌∷◌, ◌++◌, if◌then◌else◌}
use gm_validator.Errors.{Result, ok, raised}
use gm_validator.Metrics.{record_loop_error}
use gm_validator.Adapter.{ValidatorWeightStatus, within_rate_limit_window}
use gm_validator.Mirror.{prune}
use gm_validator.Validator.State.{EpochOutcome, Validator, Parts, Tick}
use gm_validator.Validator.Target.{
  refresh_miner_uid_lookup, observe_weight_status, select_target_epoch,
}
use gm_validator.Validator.Process.{process_target_epoch}

abbrev pub in_window : Option ValidatorWeightStatus → Bool
in_window none = false
in_window (some status) = within_rate_limit_window status

abbrev pub outcomes_of : Option EpochOutcome → List EpochOutcome
outcomes_of none = []
outcomes_of (some outcome) = outcome ∷ []

module _ {S : Type 0} where
  -- The part of a tick that depends on the selection.
  unfoldable pub act_on :
      Parts S
      → Tick
      → Option ValidatorWeightStatus
      → Validator S
      → Option (ℕ × ℕ)
      → Validator S × List EpochOutcome
  act_on parts tick status v none = (v, [])
  act_on parts tick status v (some (open_epoch, target)) =
      if in_window status
      then (v, [])
      else (let (v', outcome) = process_target_epoch parts tick open_epoch target v in
          (v', outcomes_of outcome))

  -- The end of a tick: an exception of the selection leaves it at once, without pruning.
  unfoldable pub finish_tick :
      Parts S
      → Tick
      → Option ValidatorWeightStatus
      → Validator S
      → Result (Option (ℕ × ℕ))
      → Validator S × Result (List EpochOutcome)
  finish_tick parts tick status v (raised e) = (v, raised e)
  finish_tick parts tick status v (ok selection) =
      let (v', outcomes) = act_on parts tick status v selection in
      (record v' { disk = prune parts.config.mirror_retention_epochs v'.disk }, ok outcomes)

  -- The state before the selection, and the status that the tick goes by.
  unfoldable pub begin_tick : Parts S → Validator S → Validator S × Option ValidatorWeightStatus
  begin_tick parts v =
      let (v', _) = refresh_miner_uid_lookup parts v in
      let (chain, status) = parts.submitter.weight_status v'.chain in
      (observe_weight_status status (record v' { chain = chain }), status)

  unfoldable pub process_once :
      Parts S → Tick → Validator S → Validator S × Result (List EpochOutcome)
  process_once parts tick v =
      let (v', status) = begin_tick parts v in
      let (v'', selection) = select_target_epoch parts tick v' in
      finish_tick parts tick status v'' selection

  -- The `while` of `main._run` over the ticks that it gets to, with the outcomes of each.
  abbrev pub after_tick : Validator S × Result (List EpochOutcome) → Validator S × List EpochOutcome
  after_tick (v, raised e) = (record v { metrics = record_loop_error v.metrics }, [])
  after_tick (v, ok outcomes) = (v, outcomes)

  unfoldable pub run_loop : Parts S → List Tick → Validator S → Validator S × List EpochOutcome
  run_loop parts [] v = (v, [])
  run_loop parts (tick ∷ ticks) v =
      let (v', outcomes) = after_tick (process_once parts tick v) in
      let (v'', rest) = run_loop parts ticks v' in (v'', outcomes ++ rest)
