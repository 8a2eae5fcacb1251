-- ===== src/Validator/Examples.antt =====
-- A validator over the in-memory chain, and three ticks for it.
use Prim.Native.String.{String}
use gm_validator.Prelude.{◌≡◌, refl, ℕ, ◌==◌, true, none, some, List, [], ◌∷◌, if◌then◌else◌}
use gm_validator.Prelude.Int.{pos}
use gm_validator.Decimal.{one}
use gm_validator.Errors.{ok, raised, client_error}
use gm_validator.Metrics.{fresh_metrics}
use gm_validator.Summary.{EpochSummary}
use gm_validator.Adapter.{Mock, mock_submitter, mock_cursor}
use gm_validator.Mirror.{Artifact, Bucket, File, found, refused}
use gm_validator.Prelude.Text.{codes}
use gm_validator.Config.{ValidatorConfig}
use gm_validator.Scoring.Rows.{
  Scores, score, score_row, miner_id_of, score_hotkey, require_int, coerce_int, optional_int,
  product_key, add_row, bucket,
}
use gm_validator.Prelude.Int.{◌+ℤ◌}
use gm_validator.Scoring.Json.{get, Json, str, int, object, field, end}
use gm_validator.Validator.State.{Validator, Parts, Tick}

abbrev pub settings : ValidatorConfig ℕ
settings = record {
  s3_bucket = codes "gm";
  s3_prefix = [];
  s3_endpoint_url = none;
  aws_region = [];
  s3_anonymous = true;
  local_mirror_dir = codes "mirror";
  mirror_retention_epochs = pos 2;
  blocks_per_epoch = pos 361;
  finalized_lookback_epochs = pos 0;
  bittensor_netuid = 28;
  bittensor_endpoint = none;
  bittensor_hotkey_seed = none;
  bittensor_wallet_name = none;
  bittensor_wallet_hotkey = none;
  bittensor_wallet_path = none;
  bittensor_mock = true;
  subtensor_connect_timeout_secs = pos 30;
  subtensor_rpc_timeout_secs = pos 30;
  poll_interval_secs = pos 12;
  metrics_bind = none;
  subnet_owner_uid = 0;
  weight_earnings_multiplier = one;
}

abbrev pub row : Json
row = object (
    field "miner_id" (str "5Alice") (
      field "earnings_ndollars" (int (pos 5000000000))
        (field "surcharge_ndollars" (int (pos 0)) end)))

abbrev pub prices : EpochSummary
prices = record {
  epoch_id = 41;
  finalized_at = "";
  alpha_price_in_tao = one;
  tao_price_usd = one;
  alpha_price_usd = one;
  emissions_alpha = some (record { coef = pos 148; exp = pos 0 });
  price_block_height = 1;
  price_alpha_source = "";
  price_tao_usd_source = "";
  emissions_alpha_source = none;
  finalizer_version = "";
}

abbrev pub parts : Parts Mock
parts = record {
  config = settings;
  submitter = mock_submitter;
  cursor = mock_cursor;
  metagraph_source = none;
  loads = λ (line : String). ok row;
  validate_summary = λ (f : File). ok prices;
}

abbrev pub validator : Validator Mock
validator = record {
  miner_uid_lookup = ("5Alice", 7) ∷ [];
  last_submitted_open_epoch = none;
  last_submitted_epoch = none;
  last_update_block = none;
  disk = [];
  metrics = fresh_metrics;
  chain = record { calls = []; status = none; epoch = some 42 };
}

-- The first turn finds no marker, the second one does, and the third comes after a submission.
abbrev pub missing : Bucket
missing = record {
  head_marker = λ (e : ℕ). refused "404";
  download = λ (e : ℕ) (a : Artifact). raised client_error;
}

abbrev pub finalized_bucket : Bucket
finalized_bucket = record {
  head_marker = λ (e : ℕ). if e == 41 then found else refused "404";
  download = λ (e : ℕ) (a : Artifact). ok ("row" ∷ []);
}

abbrev pub tick : Tick
tick = record { bucket = finalized_bucket; now = 100 }

abbrev pub ticks : List Tick
ticks = record { bucket = missing; now = 99 } ∷ tick ∷ tick ∷ []

abbrev pub alice : Scores
alice =
    (
      "5Alice",
      record {
        miner_id = "5Alice";
        earnings_ndollars = pos 5000000000;
        surcharge_ndollars = pos 0;
        successful_requests = pos 0;
        failed_requests = pos 0;
        per_product = ((str "", str ""), pos 5000000000) ∷ [];
      },
    )
    ∷ []

-- The scores of the row.
pub alice_scored : score (row ∷ []) ≡ ok alice
unfolding score score_row miner_id_of get score_hotkey require_int coerce_int optional_int
    product_key add_row bucket ◌+ℤ◌
alice_scored = refl
