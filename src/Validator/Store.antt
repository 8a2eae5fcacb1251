-- ===== src/Validator/Store.antt =====
-- The mirror's disk over a turn of the loop.
use mathlib.Core.Path.{subst}
use gm_validator.Prelude.{
  ℕ, ◌≤◌, Option, none, some, List, ◌≡◌, refl, sym, length, Bool-cases, Option-cases, inl, inr,
}
use gm_validator.Prelude.Int.{pos}
use gm_validator.Prelude.Dict.{Dict}
use gm_validator.Errors.{Error, Result, ok, raised, stale_epoch_summary}
use gm_validator.Mirror.{epoch_summary, epochs_of, mirror_epoch, prune}
use gm_validator.Mirror.Ranks.{Distinct}
use gm_validator.Mirror.Prune.{length-prune}
use gm_validator.Mirror.Distinct.{
  mirror_epoch-Distinct, invalidate_artifact-Distinct, prune-Distinct,
}
use gm_validator.Scoring.Rows.{Scores}
use gm_validator.Scoring.Weights.{WeightVector}
use gm_validator.Validator.State.{EpochOutcome, Validator, Parts, Tick}
use gm_validator.Validator.Target.{
  keep_lookup, refresh_miner_uid_lookup, observe_weight_status, select_target_epoch,
}
use gm_validator.Validator.Process.{
  after_error, after_submit, submit_vector, weigh_and_submit, process_epoch, settle_target,
  process_target_epoch, is_empty,
}
use gm_validator.Validator.Loop.{
  in_window, act_on, finish_tick, begin_tick, process_once, after_tick,
}

module _ {S : Type 0} where
  after_submit-disk :
      (tick : Tick) (epoch : ℕ) (scores : Scores) (v : Validator S) (r : S × Result (Unit {0}))
      → (after_submit tick epoch scores v r).0.disk ≡ v.disk
  after_submit-disk tick epoch scores v (chain, raised e) = refl
  after_submit-disk tick epoch scores v (chain, ok u) = refl

  submit_vector-disk :
      (parts : Parts S) (tick : Tick) (epoch : ℕ) (scores : Scores) (v : Validator S)
      (r : Result WeightVector)
      → (submit_vector parts tick epoch scores v r).0.disk ≡ v.disk
  unfolding submit_vector
  submit_vector-disk parts tick epoch scores v (raised e) = refl
  submit_vector-disk parts tick epoch scores v (ok vector) =
      elim (Bool-cases (is_empty vector.uids)) [
        | inl e ↦ rw e refl
        | inr e ↦ rw e (after_submit-disk tick epoch scores v _)
      ]

  weigh_and_submit-disk :
      (parts : Parts S) (tick : Tick) (epoch : ℕ) (v : Validator S) (r : _)
      → (weigh_and_submit parts tick epoch v r).0.disk ≡ v.disk
  unfolding weigh_and_submit
  weigh_and_submit-disk parts tick epoch v (raised e) = refl
  weigh_and_submit-disk parts tick epoch v (ok (scores, summary)) =
      submit_vector-disk parts tick epoch scores _ _

  process_epoch-disk :
      (parts : Parts S) (tick : Tick) (epoch : ℕ) (v : Validator S)
      → (process_epoch parts tick epoch v).0.disk ≡ (mirror_epoch tick.bucket epoch v.disk).0
  unfolding process_epoch
  process_epoch-disk parts tick epoch v = weigh_and_submit-disk parts tick epoch _ _

  after_error-Distinct :
      (epoch : ℕ) (v : Validator S) (e : Error)
      → Distinct (epochs_of v.disk)
      → Distinct (epochs_of (after_error epoch v e).disk)
  after_error-Distinct epoch v stale_epoch_summary d =
      invalidate_artifact-Distinct epoch epoch_summary v.disk d
  after_error-Distinct epoch v _ d = d

  settle_target-Distinct :
      (open_epoch epoch : ℕ) (r : Validator S × Result EpochOutcome)
      → Distinct (epochs_of r.0.disk)
      → Distinct (epochs_of (settle_target open_epoch epoch r).0.disk)
  settle_target-Distinct open_epoch epoch (v, raised e) d = after_error-Distinct epoch v e d
  settle_target-Distinct open_epoch epoch (v, ok o) d = d

  act_on-Distinct :
      (parts : Parts S) (tick : Tick) (status : _) (v : Validator S) (selection : Option (ℕ × ℕ))
      → Distinct (epochs_of v.disk)
      → Distinct (epochs_of (act_on parts tick status v selection).0.disk)
  unfolding act_on process_target_epoch
  act_on-Distinct parts tick status v none d = d
  act_on-Distinct parts tick status v (some (open_epoch, target)) d =
      elim (Bool-cases (in_window status)) [
        | inl w ↦ rw w d
        | inr w ↦ rw w (
            settle_target-Distinct open_epoch target (process_epoch parts tick target v) (
              subst (λ t. Distinct (epochs_of t)) (sym (process_epoch-disk parts tick target v))
                (mirror_epoch-Distinct tick.bucket target v.disk d)))
      ]

  -- What holds of the disk after a turn: with a retention, at most so many directories where the turn
  -- got to its end.
  abbrev pub Trimmed : ℕ → Validator S × Result (List EpochOutcome) → Type 0
  Trimmed r (v, raised e) = Unit
  Trimmed r (v, ok outcomes) = length v.disk ≤ r

  finish_tick-Distinct :
      (parts : Parts S) (tick : Tick) (status : _) (v : Validator S) (r : Result (Option (ℕ × ℕ)))
      → Distinct (epochs_of v.disk)
      → Distinct (epochs_of (finish_tick parts tick status v r).0.disk)
  unfolding finish_tick
  finish_tick-Distinct parts tick status v (raised e) d = d
  finish_tick-Distinct parts tick status v (ok selection) d =
      prune-Distinct parts.config.mirror_retention_epochs
        (act_on parts tick status v selection).0.disk
        (act_on-Distinct parts tick status v selection d)

  finish_tick-Trimmed :
      (parts : Parts S) (tick : Tick) (status : _) (v : Validator S) (r : Result (Option (ℕ × ℕ)))
      (retention : ℕ)
      → parts.config.mirror_retention_epochs ≡ pos retention
      → 1 ≤ retention
      → Distinct (epochs_of v.disk)
      → Trimmed retention (finish_tick parts tick status v r)
  unfolding finish_tick
  finish_tick-Trimmed parts tick status v (raised e) retention set h d = tt
  finish_tick-Trimmed parts tick status v (ok selection) retention set h d =
      subst (λ n. length (prune n (act_on parts tick status v selection).0.disk) ≤ retention)
        (sym set)
        (length-prune retention (act_on parts tick status v selection).0.disk h
          (act_on-Distinct parts tick status v selection d))

  keep_lookup-disk : (v : Validator S) (r : S × Result (Dict ℕ)) → (keep_lookup v r).0.disk ≡ v.disk
  keep_lookup-disk v (chain, raised e) = refl
  keep_lookup-disk v (chain, ok uids) = refl

  refresh-disk :
      (parts : Parts S) (v : Validator S) → (refresh_miner_uid_lookup parts v).0.disk ≡ v.disk
  unfolding refresh_miner_uid_lookup
  refresh-disk parts v = elim (Option-cases parts.metagraph_source) [
    | inl e ↦ rw e refl
    | inr (source, e) ↦ rw e (keep_lookup-disk v (source.hotkeys v.chain))
  ]

  begin_tick-disk : (parts : Parts S) (v : Validator S) → (begin_tick parts v).0.disk ≡ v.disk
  unfolding begin_tick observe_weight_status
  begin_tick-disk parts v = refresh-disk parts v

  after_tick-disk :
      (r : Validator S × Result (List EpochOutcome)) → (after_tick r).0.disk ≡ r.0.disk
  after_tick-disk (v, raised e) = refl
  after_tick-disk (v, ok outcomes) = refl

  process_once-Distinct :
      (parts : Parts S) (tick : Tick) (v : Validator S)
      → Distinct (epochs_of v.disk)
      → Distinct (epochs_of (process_once parts tick v).0.disk)
  unfolding process_once select_target_epoch
  process_once-Distinct parts tick v d =
      finish_tick-Distinct parts tick (begin_tick parts v).1 _ _
        (subst (λ t. Distinct (epochs_of t)) (sym (begin_tick-disk parts v)) d)

  -- With a retention of 1 or more, and no epoch with two directories before it, a turn of the loop
  -- that gets to its end leaves at most so many directories.
  pub process_once-Trimmed :
      (parts : Parts S) (tick : Tick) (v : Validator S) (retention : ℕ)
      → parts.config.mirror_retention_epochs ≡ pos retention
      → 1 ≤ retention
      → Distinct (epochs_of v.disk)
      → Trimmed retention (process_once parts tick v)
  unfolding process_once select_target_epoch
  process_once-Trimmed parts tick v retention set h d =
      finish_tick-Trimmed parts tick (begin_tick parts v).1 _ _ retention set h
        (subst (λ t. Distinct (epochs_of t)) (sym (begin_tick-disk parts v)) d)
