-- ===== src/Summary.antt =====
-- validator/src/gm_validator/epoch_summary.py: the finalizer's price snapshot. Reading the file is
-- the caller's; checking its fields is pydantic's, and is an argument where a file is read.
use Prim.Native.String.{String}
use gm_validator.Prelude.{ℕ, Option}
use gm_validator.Decimal.{Decimal}

pub record EpochSummary : Type 0 where
  pub epoch_id : ℕ
  pub finalized_at : String
  pub alpha_price_in_tao : Decimal
  pub tao_price_usd : Decimal
  pub alpha_price_usd : Decimal
  pub emissions_alpha : Option Decimal
  pub price_block_height : ℕ
  pub price_alpha_source : String
  pub price_tao_usd_source : String
  pub emissions_alpha_source : Option String
  pub finalizer_version : String
