-- ===== src/Main.antt =====
-- validator/src/gm_validator/main.py: how the process is put together, and its run. The world outside
-- is the SDK's; the S3 client and the server of the metrics are arguments. Of the ticks a run gets
-- those before the signal that stops it.
pub mod Client
pub mod Logging
pub mod Idle
pub mod Signing
pub mod Whole
mod Tests
use Prim.Native.String.{String}
use gm_validator.Prelude.{
  ℕ, Bool, true, false, Option, none, some, List, [], ◌∷◌, ltb, if◌then◌else◌,
}
use gm_validator.Prelude.Int.{ℤ, pos, negsuc}
use gm_validator.Main.Client.{ClientOptions, build_s3_client}
use gm_validator.Prelude.Dict.{Dict}
use gm_validator.Errors.{Result, ok, raised, value_error, foreign}
use gm_validator.Metrics.{Metrics, fresh_metrics}
use gm_validator.Adapter.{
  ChainCursor, MetagraphSource, Mock, Submitter, mock_submitter, mock_cursor,
}
use gm_validator.Config.{ValidatorConfig, from_env, with_natural_ids}
use gm_validator.Config.Parsers.{Text, Environ}
use gm_validator.Submitter.{
  Sdk, RealSubmitter, real_submitter, real_cursor, real_metagraph_source, metagraph_hotkeys,
}
use gm_validator.Submitter.Hotkey.{Keychain, use_mock_submitter}
use gm_validator.Submitter.Start.{new_real_submitter}
use gm_validator.Summary.{EpochSummary}
use gm_validator.Mirror.{Disk, File}
use gm_validator.Scoring.Json.{Json}
use gm_validator.Validator.State.{EpochOutcome, Validator, Parts, Tick}
use gm_validator.Validator.Loop.{run_loop}

-- Whether a submitter is a `RealSubmitter`.
pub data Kind : Type 0 where
  mocked signing : Kind

-- The state of the chain objects of either kind.
abbrev pub ChainOf : Type 0 → Type 0 → Kind → Type 0
ChainOf W C mocked = Mock
ChainOf W C signing = RealSubmitter W C

-- What the process calls outside.
pub record Platform (W C K : Type 0) : Type 0 where
  pub sdk : Sdk W C
  pub keys : Keychain K
  pub loads : String → Result Json
  pub validate_summary : File → Result EpochSummary
  pub start_http_server : Text → ℕ → W → W × Result (Unit {0})
  -- `boto3.client("s3", ...)`, which refuses some options
  pub s3_client : ClientOptions → Result (Unit {0})

-- `Validator.__init__`
abbrev pub new_validator : {S : Type 0} → Dict ℕ → Disk → S → Validator S
new_validator uids disk chain = record {
  miner_uid_lookup = uids;
  last_submitted_open_epoch = none;
  last_submitted_epoch = none;
  last_update_block = none;
  disk = disk;
  metrics = fresh_metrics;
  chain = chain;
}

-- What `_run` has before its loop.
pub record Service (W C : Type 0) : Type 0 where
  pub kind : Kind
  pub parts : Parts (ChainOf W C kind)
  pub validator : Validator (ChainOf W C kind)

-- `time.sleep` on a number of seconds: a negative one is a `ValueError`, and one whose nanoseconds do
-- not fit into 63 bits an `OverflowError`.
unfoldable pub pause : ℤ → Result (Unit {0})
pause (negsuc _) = raised value_error
pause (pos seconds) = if ltb 9223372036 seconds then raised foreign else ok tt

-- The ticks that get their turn: a sleep that raises is the last step of the first turn.
abbrev pub turns : Result (Unit {0}) → List Tick → List Tick
turns (raised e) (tick ∷ ticks) = tick ∷ []
turns _ ticks = ticks

-- How the loop ends: by the signal, or by the exception of the sleep after its first turn.
abbrev pub loop_end : Result (Unit {0}) → List Tick → Result (Unit {0})
loop_end (raised e) (tick ∷ ticks) = raised e
loop_end _ ticks = ok tt

-- A loop that has ended: what it leaves, its outcomes, and how it ended.
abbrev pub Ending : Type 0 → Type 0 → Type 0
Ending W C = Service W C × List EpochOutcome × Result (Unit {0})

module _ {W C K : Type 0} (p : Platform W C K) where
  -- The in-memory submitter, with its cursor that has no epoch.
  abbrev pub idle_mock : Mock
  idle_mock = record { calls = []; status = none; epoch = none }

  abbrev pub as_signing : W × Result (RealSubmitter W C) → W × Result ((k : Kind) × ChainOf W C k)
  as_signing (w, raised e) = (w, raised e)
  as_signing (w, ok s) = (w, ok (signing, s))

  abbrev pub submitter_for :
      ValidatorConfig ℕ → W → Result Bool → W × Result ((k : Kind) × ChainOf W C k)
  submitter_for c w (raised e) = (w, raised e)
  submitter_for c w (ok true) = (w, ok (mocked, idle_mock))
  submitter_for c w (ok false) = as_signing (
      new_real_submitter p.sdk p.keys c.bittensor_netuid c.bittensor_hotkey_seed
        c.bittensor_wallet_name c.bittensor_wallet_hotkey c.bittensor_wallet_path w)

  unfoldable pub build_submitter : ValidatorConfig ℕ → W → W × Result ((k : Kind) × ChainOf W C k)
  unfolding use_mock_submitter new_real_submitter
  build_submitter c w = submitter_for c w (use_mock_submitter c)

  abbrev pub submitter_of : (k : Kind) → Submitter (ChainOf W C k)
  submitter_of mocked = mock_submitter
  submitter_of signing = real_submitter p.sdk

  unfoldable pub build_cursor :
      ValidatorConfig ℕ → (k : Kind) → Result (ChainCursor (ChainOf W C k))
  build_cursor c mocked = ok mock_cursor
  build_cursor c signing = real_cursor p.sdk c.blocks_per_epoch

  unfoldable pub build_miner_uid_lookup :
      ValidatorConfig ℕ → (k : Kind) → ChainOf W C k → ChainOf W C k × Result (Dict ℕ)
  build_miner_uid_lookup c mocked m = (m, ok [])
  build_miner_uid_lookup c signing s = metagraph_hotkeys p.sdk c.bittensor_netuid s

  unfoldable pub build_metagraph_source :
      ValidatorConfig ℕ → (k : Kind) → Option (MetagraphSource (ChainOf W C k))
  build_metagraph_source c mocked = none
  build_metagraph_source c signing = some (real_metagraph_source p.sdk c.bittensor_netuid)

  -- The world after a call over the chain objects.
  abbrev pub world_of : (k : Kind) → W → ChainOf W C k → W
  world_of mocked w m = w
  world_of signing w s = s.world

  -- What the validator is built with.
  abbrev pub service_parts :
      ValidatorConfig ℕ → (k : Kind) → ChainCursor (ChainOf W C k) → Parts (ChainOf W C k)
  service_parts c k cursor = record {
    config = c;
    submitter = submitter_of k;
    cursor = cursor;
    metagraph_source = build_metagraph_source c k;
    loads = p.loads;
    validate_summary = p.validate_summary;
  }

  abbrev pub with_lookup :
      ValidatorConfig ℕ
      → Disk
      → W
      → (k : Kind) → ChainCursor (ChainOf W C k)
      → ChainOf W C k × Result (Dict ℕ)
      → W × Result (Service W C)
  with_lookup c disk w k cursor (s, raised e) = (world_of k w s, raised e)
  with_lookup c disk w k cursor (s, ok uids) = (
    world_of k w s,
    ok (record {
      kind = k;
      parts = service_parts c k cursor;
      validator = new_validator uids disk s;
    }),
  )

  abbrev pub with_cursor :
      ValidatorConfig ℕ
      → Disk
      → W
      → (k : Kind) → ChainOf W C k
      → Result (ChainCursor (ChainOf W C k))
      → W × Result (Service W C)
  with_cursor c disk w k s (raised e) = (w, raised e)
  with_cursor c disk w k s (ok cursor) =
      with_lookup c disk w k cursor (build_miner_uid_lookup c k s)

  abbrev pub with_submitter :
      ValidatorConfig ℕ → Disk → W × Result ((k : Kind) × ChainOf W C k) → W × Result (Service W C)
  with_submitter c disk (w, raised e) = (w, raised e)
  with_submitter c disk (w, ok (k, s)) = with_cursor c disk w k s (build_cursor c k)

  abbrev pub with_client :
      ValidatorConfig ℕ → Disk → W → Result (Unit {0}) → W × Result (Service W C)
  with_client c disk w (raised e) = (w, raised e)
  with_client c disk w (ok tt) = with_submitter c disk (build_submitter c w)

  -- `_run` up to its loop, on the disk as the mirror finds it. The S3 client comes first.
  unfoldable pub build_service : ValidatorConfig ℕ → Disk → W → W × Result (Service W C)
  unfolding build_submitter build_cursor build_miner_uid_lookup build_metagraph_source
      build_s3_client
  build_service c disk w = with_client c disk w (p.s3_client (build_s3_client c))

  unfoldable pub run_service : Service W C → List Tick → Ending W C
  unfolding pause
  run_service service ticks =
      let slept = pause service.parts.config.poll_interval_secs in
      let (v, outcomes) = run_loop service.parts (turns slept ticks) service.validator in
      (
        record { kind = service.kind; parts = service.parts; validator = v },
        outcomes,
        loop_end slept ticks,
      )

  -- `_run`
  abbrev pub after_build : List Tick → W × Result (Service W C) → W × Result (Ending W C)
  after_build ticks (w, raised e) = (w, raised e)
  after_build ticks (w, ok service) =
      let (service', outcomes, end) = run_service service ticks in
      (world_of service'.kind w service'.validator.chain, ok (service', outcomes, end))

  unfoldable pub run : ValidatorConfig ℕ → Disk → List Tick → W → W × Result (Ending W C)
  unfolding build_service run_service
  run c disk ticks w = after_build ticks (build_service c disk w)

  -- The server of the metrics, where its address is set.
  abbrev pub serve_metrics : Option (Text × ℕ) → W → W × Result (Unit {0})
  serve_metrics none w = (w, ok tt)
  serve_metrics (some (host, port)) w = p.start_http_server host port w

  abbrev pub after_serving :
      ValidatorConfig ℕ → Disk → List Tick → W × Result (Unit {0}) → W × Result (Ending W C)
  after_serving c disk ticks (w, raised e) = (w, raised e)
  after_serving c disk ticks (w, ok tt) = run c disk ticks w

  -- `main`, but for the logging; `none` where an id of the settings is negative, which the model
  -- leaves out.
  unfoldable pub main : Environ → Disk → List Tick → W → Option (W × Result (Ending W C))
  unfolding from_env with_natural_ids run
  main env disk ticks w = elim (from_env env) [
    | raised e ↦ some (w, raised e)
    | ok settings ↦ elim (with_natural_ids settings) [
      | none ↦ none
      | some c ↦ some (after_serving c disk ticks (serve_metrics c.metrics_bind w))
    ]
  ]
