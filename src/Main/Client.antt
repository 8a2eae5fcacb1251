-- ===== src/Main/Client.antt =====
-- `_build_s3_client` and `S3Mirror.__init__`: what the S3 client and the mirror are built with. The
-- client itself is boto3's.
use gm_validator.Prelude.{ℕ, Bool, Option, none, some, if◌then◌else◌}
use gm_validator.Config.{ValidatorConfig}
use gm_validator.Config.Parsers.{Text, non_empty}
use gm_validator.Mirror.Keys.{mirror_prefix}

-- `botocore.UNSIGNED`, or `None` for the default signature
pub data Signature : Type 0 where
  unsigned default_signature : Signature

-- The style of `s3={...}`; an empty dict leaves it to the client.
pub data Addressing : Type 0 where
  virtual default_addressing : Addressing

pub data Checksums : Type 0 where
  when_required when_supported : Checksums

-- The arguments of `boto3.client("s3", ...)`.
pub record ClientOptions : Type 0 where
  pub region_name : Text
  pub endpoint_url : Option Text
  pub request_checksum_calculation : Checksums
  pub response_checksum_validation : Checksums
  pub signature_version : Signature
  pub addressing_style : Addressing

-- An empty endpoint counts as none.
unfoldable pub build_s3_client : ValidatorConfig ℕ → ClientOptions
build_s3_client c = record {
  region_name = c.aws_region;
  endpoint_url = elim c.s3_endpoint_url [ none ↦ none | some url ↦ non_empty url ];
  request_checksum_calculation = when_required;
  response_checksum_validation = when_required;
  signature_version = if c.s3_anonymous then unsigned else default_signature;
  addressing_style = if c.s3_anonymous then virtual else default_addressing;
}

-- The attributes of an `S3Mirror`, but for its client.
pub record S3Mirror : Type 0 where
  pub bucket : Text
  pub prefix : Text
  pub local_root : Text
  pub anonymous : Bool

unfoldable pub new_mirror : (bucket prefix local_root : Text) → Bool → S3Mirror
unfolding mirror_prefix
new_mirror bucket prefix local_root anonymous = record {
  bucket = bucket;
  prefix = mirror_prefix prefix;
  local_root = local_root;
  anonymous = anonymous;
}
