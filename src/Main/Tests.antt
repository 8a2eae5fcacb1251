-- ===== src/Main/Tests.antt =====
-- A process that signs, in a world that is the list of the weights that were set, newest first.
use Prim.Native.String.{String}
use gm_validator.Prelude.{ℕ, false, true, Option, some, List, [], ◌∷◌, ◌≡◌, refl, All}
use gm_validator.Prelude.Text.{codes}
use gm_validator.Errors.{ok, raised, value_error}
use gm_validator.Config.{ValidatorConfig}
use gm_validator.Mirror.{File, prune}
use gm_validator.Submitter.{Sdk}
use gm_validator.Submitter.Whole.{Preserves}
use gm_validator.Validator.Examples.{settings, row, prices, ticks}
use gm_validator.Main.{
  Platform, pause, run, main, build_service, build_submitter, build_cursor, build_miner_uid_lookup,
  build_metagraph_source, run_service,
}
use gm_validator.Submitter.Hotkey.{use_mock_submitter}
use gm_validator.Validator.Target.{select_at, select_target_epoch}
use gm_validator.Validator.Loop.{act_on, finish_tick, run_loop}
use gm_validator.Mirror.Keys.{mirror_prefix}
use gm_validator.Prelude.{none}
use gm_validator.Main.Client.{
  ClientOptions, build_s3_client, new_mirror, when_required, unsigned, virtual,
}
use gm_validator.Main.Idle.{idle_service, run-idle}
use gm_validator.Config.Parsers.{Text}
use gm_validator.Prelude.{map}
use gm_validator.Prelude.{if◌then◌else◌}
use gm_validator.Main.Logging.{
  starts_with, Level, notset, info, warning, critical, Loggers, effective_level, configure_logging,
  reset_own, set_level,
}
use gm_validator.Main.Logging.Visible.{configure_logging-info}
use gm_validator.Metrics.{fresh_metrics}
use gm_validator.Prelude.{none, inl, inr, arith}
use gm_validator.Prelude.Int.{pos, negsuc}
use gm_validator.Decimal.{lt}
use gm_validator.Mirror.{Artifact, read_file}
use gm_validator.Scoring.Rows.{load_aggregated}
use gm_validator.Adapter.{within_rate_limit_window}
use gm_validator.Connect.{run_with_timeout}
use gm_validator.Submitter.{
  RealSubmitter, real_submitter, head_cursor, weight_status, read_status, read_last_update,
  maybe_reconnect, current_epoch, head_block, read_head,
}
use gm_validator.Validator.State.{Validator, Parts}
use gm_validator.Validator.Target.{refresh_miner_uid_lookup, observe_weight_status}
use gm_validator.Validator.Process.{outcome_of}
use gm_validator.Validator.Loop.{begin_tick, process_once}
use gm_validator.Validator.Examples.{tick, alice, alice_scored}
use gm_validator.Main.Signing.{signing_parts, process_once_signing}
use gm_validator.Main.Whole.{IsValid, Ended, run-Ended}

abbrev World : Type 0
World = List (ℕ × List ℕ × List ℕ)

-- The head is in epoch 42, and 5Alice has uid 1.
abbrev sdk : Sdk World ℕ
sdk = record {
  dialer = record { factory = λ (w : World). (w, some (ok 5)); sleep = λ (s : ℕ) (w : World). w };
  close = λ (c : ℕ) (w : World). w;
  get_current_block = λ (c : ℕ) (w : World). (w, some (ok 15180));
  metagraph = λ (c netuid : ℕ) (w : World). (w, some (ok ("5Owner" ∷ "5Alice" ∷ [])));
  get_uid = λ (c : ℕ) (hotkey : String) (netuid : ℕ) (w : World). (w, some (ok (some 3)));
  last_update = λ (c netuid uid : ℕ) (w : World). (w, some (ok 15000));
  set_weights =
      λ (c netuid : ℕ) (uids weights : List ℕ) (w : World). ((netuid, uids, weights) ∷ w, ok true);
  weights_rate_limit = λ (c netuid : ℕ) (w : World). (w, some (ok (some 100)));
}

abbrev platform : Platform World ℕ (List ℕ)
platform = record {
  sdk = sdk;
  keys = record {
    create_from_seed = λ (s : List ℕ). ok s;
    create_from_mnemonic = λ (s : List ℕ). ok s;
    wallet_hotkey = λ (name hotkey : List ℕ) (path : Option (List ℕ)). ok hotkey;
    ss58_address = λ (k : List ℕ). "5Validator";
  };
  loads = λ (line : String). ok row;
  validate_summary = λ (f : File). ok prices;
  start_http_server = λ (host : List ℕ) (port : ℕ) (w : World). (w, ok tt);
  -- An endpoint without a scheme is refused.
  s3_client = λ (options : ClientOptions). elim options.endpoint_url [
    | none ↦ ok tt
    | some url ↦ if starts_with (codes "http") url then ok tt else raised value_error
  ];
}

-- An anonymous bucket is read unsigned, by its own host.
anonymous_client : build_s3_client settings ≡ record {
  region_name = [];
  endpoint_url = none;
  request_checksum_calculation = when_required;
  response_checksum_validation = when_required;
  signature_version = unsigned;
  addressing_style = virtual;
}
unfolding build_s3_client
anonymous_client = refl

trimmed_prefix : (new_mirror (codes "gm") (codes "/v1/") (codes "data") true).prefix ≡ codes "v1"
unfolding new_mirror mirror_prefix
trimmed_prefix = refl

abbrev real : ValidatorConfig ℕ
real = record settings { bittensor_mock = false; bittensor_hotkey_seed = some (codes "0xab") }

abbrev AllValid : World → Type 0
AllValid = All λ ((n, uids, weights) : ℕ × List ℕ × List ℕ). IsValid real n uids weights

safe : Preserves sdk AllValid (IsValid real)
safe = record {
  on_factory = λ w q. q;
  on_sleep = λ s w q. q;
  on_close = λ c w q. q;
  on_block = λ c w q. q;
  on_metagraph = λ c netuid w q. q;
  on_uid = λ c hotkey netuid w q. q;
  on_last_update = λ c netuid uid w q. q;
  on_limit = λ c netuid w q. q;
  on_weights = λ c netuid uids weights w fit q. (fit, q);
}

no_settings : main platform [] [] ticks [] ≡ some ([], raised value_error)
unfolding main
no_settings = refl

run-Ended_example : Ended platform real AllValid safe (run platform real [] ticks [])
run-Ended_example = run-Ended platform real AllValid safe [] ticks [] tt

run-idle_example :
    run platform settings [] ticks [] ≡ ([], ok (idle_service platform settings [], [], ok tt))
unfolding prune build_s3_client pause
run-idle_example = run-idle platform settings [] ticks [] refl refl refl

-- An import that silences the loggers that are there.
abbrev silenced : Loggers → Loggers
silenced = map λ (l : Text × Level). (l.0, critical)

abbrev loggers : Loggers
loggers = (codes "gm_validator.validator", notset) ∷ (codes "gm_validator_tools", notset) ∷ []

others_stay :
    effective_level warning (codes "gm_validator_tools") (configure_logging silenced loggers)
    ≡ critical
unfolding effective_level configure_logging reset_own set_level
others_stay = refl

configure_logging-info_example :
    effective_level warning (codes "gm_validator.validator") (configure_logging silenced loggers)
    ≡ info
configure_logging-info_example =
    configure_logging-info silenced loggers warning (codes "gm_validator.validator") refl

-- A validator that signs, over connection 5.
abbrev signing_validator : Validator (RealSubmitter World ℕ)
signing_validator = record {
  miner_uid_lookup = ("5Alice", 1) ∷ [];
  last_submitted_open_epoch = none;
  last_submitted_epoch = none;
  last_update_block = none;
  disk = [];
  metrics = fresh_metrics;
  chain = record {
    netuid = 28;
    hotkey = "5Validator";
    subtensor = some 5;
    consecutive_failures = 0;
    weights_rate_limit = 100;
    world = [];
  };
}

abbrev parts_of_real : Parts (RealSubmitter World ℕ)
parts_of_real = record {
  config = real;
  submitter = real_submitter sdk;
  cursor = head_cursor sdk 361;
  metagraph_source = none;
  loads = λ (line : String). ok row;
  validate_summary = λ (f : File). ok prices;
}

process_once_signing_example :
    (process_once (signing_parts sdk parts_of_real) tick signing_validator).1
    ≡ ok (outcome_of 41 true alice ∷ [])
unfolding begin_tick refresh_miner_uid_lookup observe_weight_status read_file load_aggregated lt
    real_submitter weight_status read_status read_last_update maybe_reconnect current_epoch
    head_block read_head run_with_timeout within_rate_limit_window
process_once_signing_example =
    process_once_signing sdk parts_of_real tick signing_validator 41 alice
      (record {
        allowed = refl;
        opened = refl;
        due = record { marked = refl; tick_is_open = refl; epoch_is_open = refl };
      })
      (record {
        summary = prices;
        read = record {
          files = λ (a : Artifact). "row" ∷ [];
          there = λ (a : Artifact). refl;
          rows = row ∷ [];
          decoded = refl;
          scored = alice_scored;
          checked = refl;
        };
        emissions = record { coef = pos 148; exp = pos 0 };
        emitted = refl;
        price_is_positive = refl;
        emissions_is_positive = refl;
        fits = omega arith;
        known = inr (inl (1, refl));
      })
      (record { subnet = refl; connection = 5; held = refl; accepts = λ vector fine. refl })

-- An endpoint that the client refuses ends the process before it starts.
bad_endpoint :
    run platform (record settings { s3_endpoint_url = some (codes "bucket") }) [] ticks []
    ≡ ([], raised value_error)
unfolding run build_service build_s3_client
bad_endpoint = refl

-- A negative interval ends it after the first of its three ticks.
negative_interval : run platform (record settings { poll_interval_secs = negsuc 0 }) [] ticks [] ≡ (
  [],
  ok (
    idle_service platform (record settings { poll_interval_secs = negsuc 0 }) [],
    [],
    raised value_error,
  ),
)
unfolding run build_service build_s3_client build_submitter build_cursor build_miner_uid_lookup
    build_metagraph_source run_service pause run_loop process_once begin_tick
    refresh_miner_uid_lookup observe_weight_status select_target_epoch select_at finish_tick act_on
    prune use_mock_submitter
negative_interval = refl
