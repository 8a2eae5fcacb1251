-- ===== src/Config.antt =====
-- validator/src/gm_validator/config.py: the settings of a process, and how the environment gives
-- them. Texts are lists of code points. The two ids may be any integers in the environment and are
-- naturals in the rest of the model, so their type is a parameter.
pub mod Parsers
pub mod Laws
mod Tests
use Prim.Native.String.{String}
use gm_validator.Prelude.{ℕ, Bool, true, false, Option, none, some, List, [], ◌∷◌, ◌++◌, ◌||◌, ◌==◌}
use gm_validator.Prelude.Int.{ℤ, pos, negsuc}
use gm_validator.Prelude.Dict.{Dict, lookup}
use gm_validator.Prelude.Text.{codes, strip_by}
use gm_validator.Prelude.Print.{print_nat}
use gm_validator.Decimal.{Decimal}
use gm_validator.Errors.{Result, ok, raised, ◌>>=◌, ◌>>◌}
use gm_validator.Config.Parsers.{
  Text, Environ, get_env, same_text, require_env, opt_env, int_env, int_value, decimal_env,
  metrics_bind_env,
}

pub record ValidatorConfig (Uid : Type 0) : Type 0 where
  pub s3_bucket : Text
  pub s3_prefix : Text
  pub s3_endpoint_url : Option Text
  pub aws_region : Text
  pub s3_anonymous : Bool
  pub local_mirror_dir : Text
  pub mirror_retention_epochs : ℤ
  pub blocks_per_epoch : ℤ
  pub finalized_lookback_epochs : ℤ
  pub bittensor_netuid : Uid
  pub bittensor_endpoint : Option Text
  pub bittensor_hotkey_seed : Option Text
  pub bittensor_wallet_name : Option Text
  pub bittensor_wallet_hotkey : Option Text
  pub bittensor_wallet_path : Option Text
  pub bittensor_mock : Bool
  pub subtensor_connect_timeout_secs : ℤ
  pub subtensor_rpc_timeout_secs : ℤ
  pub poll_interval_secs : ℤ
  pub metrics_bind : Option (Text × ℕ)
  pub subnet_owner_uid : Uid
  pub weight_earnings_multiplier : Decimal

-- `os.environ.get(name, default)`
abbrev get_or : Environ → String → Text → Text
get_or env name default = elim (get_env env name) [ none ↦ default | some value ↦ value ]

-- `… in {"1", "true", "True"}`
abbrev is_on : Text → Bool
is_on value =
    same_text value (codes "1") || same_text value (codes "true") || same_text value (codes "True")

-- `ValidatorConfig.from_env`: the settings are read in this order, and the first that is refused
-- ends it.
unfoldable pub from_env : Environ → Result (ValidatorConfig ℤ)
unfolding require_env opt_env int_env decimal_env metrics_bind_env
from_env env = do
  bucket ← require_env env "S3_BUCKET"
  retention ← int_env env "MIRROR_RETENTION_EPOCHS" (pos 10)
  blocks ← int_env env "BLOCKS_PER_EPOCH" (pos 361)
  lookback ← int_env env "FINALIZED_LOOKBACK_EPOCHS" (pos 3)
  netuid ← int_env env "BITTENSOR_NETUID" (pos 0)
  connect ← int_env env "SUBTENSOR_CONNECT_TIMEOUT_SECS" (pos 30)
  rpc ← int_env env "SUBTENSOR_RPC_TIMEOUT_SECS" (pos 30)
  poll ← int_env env "POLL_INTERVAL_SECS" (pos 60)
  bind ← metrics_bind_env env "GM_VALIDATOR_METRICS_BIND"
  owner_text ← require_env env "SUBNET_OWNER_UID"
  owner ← int_value owner_text
  multiplier ← decimal_env env "GM_WEIGHT_EARNINGS_MULTIPLIER" (codes "1")
  ok (record {
    s3_bucket = bucket;
    s3_prefix = strip_by (λ c. c == b'/') (get_or env "S3_PREFIX" (codes "v1"));
    s3_endpoint_url = get_env env "S3_ENDPOINT_URL";
    aws_region = get_or env "AWS_REGION" (codes "us-east-1");
    s3_anonymous = is_on (get_or env "GM_VALIDATOR_S3_ANONYMOUS" (codes "0"));
    local_mirror_dir = get_or env "LOCAL_MIRROR_DIR" (codes "/var/cache/gm-validator");
    mirror_retention_epochs = retention;
    blocks_per_epoch = blocks;
    finalized_lookback_epochs = lookback;
    bittensor_netuid = netuid;
    bittensor_endpoint = get_env env "BITTENSOR_ENDPOINT";
    bittensor_hotkey_seed = get_env env "BITTENSOR_HOTKEY_SEED";
    bittensor_wallet_name = opt_env env "WALLET_NAME";
    bittensor_wallet_hotkey = opt_env env "WALLET_HOTKEY";
    bittensor_wallet_path = opt_env env "WALLET_PATH";
    bittensor_mock = is_on (get_or env "BITTENSOR_MOCK" (codes "0"));
    subtensor_connect_timeout_secs = connect;
    subtensor_rpc_timeout_secs = rpc;
    poll_interval_secs = poll;
    metrics_bind = bind;
    subnet_owner_uid = owner;
    weight_earnings_multiplier = multiplier;
  })

-- The settings that the rest of the model starts from: those with no negative id.
abbrev natural : ℤ → Option ℕ
natural (pos n) = some n
natural (negsuc n) = none

unfoldable pub with_natural_ids : ValidatorConfig ℤ → Option (ValidatorConfig ℕ)
with_natural_ids c = elim (natural c.bittensor_netuid) [
  | none ↦ none
  | some netuid ↦ elim (natural c.subnet_owner_uid) [
    | none ↦ none
    | some owner ↦ some (record {
      s3_bucket = c.s3_bucket;
      s3_prefix = c.s3_prefix;
      s3_endpoint_url = c.s3_endpoint_url;
      aws_region = c.aws_region;
      s3_anonymous = c.s3_anonymous;
      local_mirror_dir = c.local_mirror_dir;
      mirror_retention_epochs = c.mirror_retention_epochs;
      blocks_per_epoch = c.blocks_per_epoch;
      finalized_lookback_epochs = c.finalized_lookback_epochs;
      bittensor_netuid = netuid;
      bittensor_endpoint = c.bittensor_endpoint;
      bittensor_hotkey_seed = c.bittensor_hotkey_seed;
      bittensor_wallet_name = c.bittensor_wallet_name;
      bittensor_wallet_hotkey = c.bittensor_wallet_hotkey;
      bittensor_wallet_path = c.bittensor_wallet_path;
      bittensor_mock = c.bittensor_mock;
      subtensor_connect_timeout_secs = c.subtensor_connect_timeout_secs;
      subtensor_rpc_timeout_secs = c.subtensor_rpc_timeout_secs;
      poll_interval_secs = c.poll_interval_secs;
      metrics_bind = c.metrics_bind;
      subnet_owner_uid = owner;
      weight_earnings_multiplier = c.weight_earnings_multiplier;
    })
  ]
]

-- `finalized_prefix`
unfoldable pub finalized_prefix : {Uid : Type 0} → ValidatorConfig Uid → ℕ → Text
unfolding print_nat
finalized_prefix c epoch_id =
    c.s3_prefix ++ (codes "/finalized/epoch=" ++ (print_nat epoch_id ++ codes "/"))
