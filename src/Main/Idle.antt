-- ===== src/Main/Idle.antt =====
-- A process with the in-memory submitter.
use gm_validator.Prelude.{ℕ, true, none, List, [], ◌∷◌, ◌≡◌, refl, ap, ◌∙◌}
use gm_validator.Errors.{Result, ok}
use gm_validator.Main.Client.{build_s3_client}
use gm_validator.Config.{ValidatorConfig}
use gm_validator.Mirror.{Disk, prune}
use gm_validator.Adapter.{Mock, mock_cursor}
use gm_validator.Submitter.Hotkey.{use_mock_submitter}
use gm_validator.Validator.State.{EpochOutcome, Validator, Parts, Tick}
use gm_validator.Validator.Target.{
  refresh_miner_uid_lookup, observe_weight_status, select_at, select_target_epoch,
}
use gm_validator.Validator.Loop.{act_on, finish_tick, begin_tick, process_once, run_loop}
use gm_validator.Main.{
  turns, loop_end, pause, Ending, with_client, mocked, Platform, new_validator, Service, idle_mock,
  submitter_of, submitter_for, with_submitter, after_build, build_submitter, build_cursor,
  build_miner_uid_lookup, build_metagraph_source, build_service, run_service, run,
}

-- The disk after a prune in each tick.
abbrev pub pruned : ValidatorConfig ℕ → List Tick → Disk → Disk
pruned c [] disk = disk
pruned c (tick ∷ ticks) disk = pruned c ticks (prune c.mirror_retention_epochs disk)

module _ {W C K : Type 0} (p : Platform W C K) (c : ValidatorConfig ℕ) where
  abbrev pub idle_parts : Parts Mock
  idle_parts = record {
    config = c;
    submitter = submitter_of p mocked;
    cursor = mock_cursor;
    metagraph_source = none;
    loads = p.loads;
    validate_summary = p.validate_summary;
  }

  abbrev pub idle : Disk → Validator Mock
  idle disk = new_validator [] disk (idle_mock p)

  run_loop-idle :
      (ticks : List Tick) (disk : Disk)
      → run_loop idle_parts ticks (idle disk) ≡ (idle (pruned c ticks disk), [])
  unfolding run_loop process_once begin_tick refresh_miner_uid_lookup observe_weight_status
      select_target_epoch select_at finish_tick act_on
  run_loop-idle [] disk = refl
  run_loop-idle (tick ∷ ticks) disk = run_loop-idle ticks (prune c.mirror_retention_epochs disk)

  abbrev pub idle_service : Disk → Service W C
  idle_service disk = record { kind = mocked; parts = idle_parts; validator = idle disk }

  finished : Disk → List Tick → Result (Unit {0}) → Ending W C
  finished disk ticks slept =
      let (v, outcomes) = run_loop idle_parts (turns slept ticks) (idle disk) in
      (record { kind = mocked; parts = idle_parts; validator = v }, outcomes, loop_end slept ticks)

  -- In mock mode, with options that the S3 client takes and an interval that `time.sleep` takes, the
  -- process starts whatever else the settings and the world are, and over all its ticks it does nothing
  -- but prune the disk: it fetches nothing, submits nothing, has no outcome, leaves the world alone and
  -- ends by the signal.
  pub run-idle :
      (disk : Disk) (ticks : List Tick) (w : W)
      → p.s3_client (build_s3_client c) ≡ ok tt
      → pause c.poll_interval_secs ≡ ok tt
      → c.bittensor_mock ≡ true
      → run p c disk ticks w ≡ (w, ok (idle_service (pruned c ticks disk), [], ok tt))
  unfolding run build_service build_submitter build_cursor build_miner_uid_lookup
      build_metagraph_source run_service use_mock_submitter finished
  run-idle disk ticks w client slept mock =
      let asked : use_mock_submitter c ≡ ok true = rw mock refl in
      ap (λ r. after_build p ticks (with_client p c disk w r)) client
      ∙ ap (λ r. after_build p ticks (with_submitter p c disk (submitter_for p c w r))) asked
      ∙ ap (λ s. (w, ok (finished disk ticks s))) slept
      ∙ ap
          (λ (r : Validator Mock × List EpochOutcome).
            (w, ok (record { kind = mocked; parts = idle_parts; validator = r.0 }, r.1, ok tt)))
          (run_loop-idle ticks disk)
