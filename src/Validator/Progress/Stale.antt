-- ===== src/Validator/Progress/Stale.antt =====
-- A tick whose summary has no emissions: what it leaves for the next one.
use gm_validator.Prelude.{ℕ, suc, false, Option, none, some, [], ◌≡◌, refl, ◌∙◌}
use gm_validator.Errors.{ok, raised, stale_epoch_summary}
use gm_validator.Adapter.{ValidatorWeightStatus}
use gm_validator.Summary.{EpochSummary}
use gm_validator.Mirror.{Bucket, epoch_summary, read_file, invalidate_artifact, mirror_epoch}
use gm_validator.Mirror.Progress.{served, served_fresh}
use gm_validator.Mirror.Invalidate.{invalidated}
use gm_validator.Mirror.Absent.{prune_absent}
use gm_validator.Scoring.Rows.{Scores}
use gm_validator.Scoring.Weights.Vector.{compute_weights_stale_summary}
use gm_validator.Validator.State.{Validator, Parts, Tick}
use gm_validator.Validator.Process.{weigh_and_submit, submit_vector, process_target_epoch}
use gm_validator.Validator.Loop.{in_window, act_on, finish_tick, begin_tick, process_once}
use gm_validator.Validator.Guards.{SameGuards}
use gm_validator.Validator.Climb.{begin_tick-SameGuards}
use gm_validator.Validator.Progress.{IsRead, process_epoch_read}
use gm_validator.Validator.Progress.Ticks.{IsNext, process_once_next}

module _ {S : Type 0} (parts : Parts S) (tick : Tick) where
  weigh_and_submit_stale :
      (epoch : ℕ) (v : Validator S) (scores : Scores) (summary : EpochSummary)
      → summary.emissions_alpha ≡ none
      → weigh_and_submit parts tick epoch v (ok (scores, summary)) ≡ (v, raised stale_epoch_summary)
  unfolding weigh_and_submit submit_vector
  weigh_and_submit_stale epoch v scores summary h =
      rw
        (compute_weights_stale_summary scores v.miner_uid_lookup summary
          parts.config.subnet_owner_uid parts.config.weight_earnings_multiplier v.metrics h)
        refl

  process_target_epoch_stale :
      (open_epoch epoch : ℕ) (v : Validator S) (scores : Scores) (summary : EpochSummary)
      → IsRead parts tick epoch v.disk scores summary
      → summary.emissions_alpha ≡ none
      → process_target_epoch parts tick open_epoch epoch v ≡ (
        record v {
          disk = invalidate_artifact epoch epoch_summary (mirror_epoch tick.bucket epoch v.disk).0;
        },
        none,
      )
  unfolding process_target_epoch
  process_target_epoch_stale open_epoch epoch v scores summary r h =
      let x = record v { disk = (mirror_epoch tick.bucket epoch v.disk).0 } in
      rw
        (
          process_epoch_read parts tick epoch v scores summary r,
          weigh_and_submit_stale epoch x scores summary h,
        )
        refl

  -- No outcome, the guards and the chain as before, and the summary off the disk.
  record IsDropped (epoch : ℕ) (v v' : Validator S) : Type 0 where
    pub chain : v'.chain ≡ v.chain
    pub last : v'.last_submitted_epoch ≡ v.last_submitted_epoch
    pub last_open : v'.last_submitted_open_epoch ≡ v.last_submitted_open_epoch
    pub absent : read_file epoch epoch_summary v'.disk ≡ none

  finish_tick_stale :
      (status : Option ValidatorWeightStatus) (v : Validator S) (closed : ℕ) (scores : Scores)
      (summary : EpochSummary)
      → in_window status ≡ false
      → IsRead parts tick closed v.disk scores summary
      → summary.emissions_alpha ≡ none
      → let (v', r) = finish_tick parts tick status v (ok (some (suc closed, closed))) in
        (r ≡ ok []) × IsDropped closed v v'
  unfolding finish_tick act_on
  finish_tick_stale status v closed scores summary allowed read h =
      let mirrored = (mirror_epoch tick.bucket closed v.disk).0 in
      rw (allowed, process_target_epoch_stale (suc closed) closed v scores summary read h)
        (
          refl,
          record {
            chain = refl;
            last = refl;
            last_open = refl;
            absent =
                prune_absent parts.config.mirror_retention_epochs closed epoch_summary
                  (invalidate_artifact closed epoch_summary mirrored)
                  (invalidated closed epoch_summary mirrored);
          },
        )

  -- A summary without emissions holds up its epoch for one tick: when the artifacts of the newest
  -- closed epoch are read, it is next, and its summary has no emissions, the tick has no outcome, both
  -- guards and the chain that the cursor left stay, and the next reading of the summary is the
  -- bucket's.
  pub process_once_stale :
      (v : Validator S) (closed : ℕ) (scores : Scores) (summary : EpochSummary)
      → IsNext parts tick (begin_tick parts v).0 closed (begin_tick parts v).1
      → IsRead parts tick closed (begin_tick parts v).0.disk scores summary
      → summary.emissions_alpha ≡ none
      → let (v', r) = process_once parts tick v in
        (r ≡ ok [])
        × SameGuards v v'
        × (v'.chain ≡ (parts.cursor.current_epoch (begin_tick parts v).0.chain).0)
        × ((bucket : Bucket)
            → served bucket closed v'.disk epoch_summary ≡ bucket.download closed epoch_summary)
  process_once_stale v closed scores summary next read h =
      let (w, status) = begin_tick parts v in
      let x = record w { chain = (parts.cursor.current_epoch w.chain).0 } in
      let (none_out, d) = finish_tick_stale status x closed scores summary (next.allowed) read h in
      let (a, b) = begin_tick-SameGuards parts v in
      rw (process_once_next parts tick v closed next) (
        none_out,
        (d.last ∙ a, d.last_open ∙ b),
        d.chain,
        λ bucket. served_fresh bucket closed _ epoch_summary (d.absent),
      )
