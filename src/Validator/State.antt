-- ===== src/Validator/State.antt =====
-- What a validator keeps, what it is built with, and what a tick sees.
use Prim.Native.String.{String}
use gm_validator.Prelude.{ℕ, Bool, Option, [], ◌∷◌}
use gm_validator.Prelude.Int.{ℤ, ◌+ℤ◌}
use gm_validator.Prelude.Dict.{Dict}
use gm_validator.Errors.{Result}
use gm_validator.Metrics.{Metrics}
use gm_validator.Adapter.{Submitter, ChainCursor, MetagraphSource}
use gm_validator.Mirror.{Bucket, Disk, File}
use gm_validator.Config.{ValidatorConfig}
use gm_validator.Summary.{EpochSummary}
use gm_validator.Scoring.Json.{Json}
use gm_validator.Scoring.Rows.{Scores}

pub record EpochOutcome : Type 0 where
  pub epoch_id : ℕ
  pub weights_submitted : Bool
  pub miner_count : ℕ
  pub total_ndollars : ℤ

-- The word that `_refresh_miner_uid_lookup` reports.
pub data Refresh : Type 0 where
  static failed refreshed : Refresh

-- The state of a `Validator`, with the disk of its mirror, the metrics of its process and the state
-- of the chain objects that it holds.
pub record Validator (S : Type 0) : Type 0 where
  pub miner_uid_lookup : Dict ℕ
  pub last_submitted_open_epoch : Option ℕ
  pub last_submitted_epoch : Option ℕ
  pub last_update_block : Option ℕ
  pub disk : Disk
  pub metrics : Metrics
  pub chain : S

-- What a validator is built with and never changes. The JSON decoder of a line and pydantic's check
-- of the summary file are arguments.
pub record Parts (S : Type 0) : Type 0 where
  pub config : ValidatorConfig ℕ
  pub submitter : Submitter S
  pub cursor : ChainCursor S
  pub metagraph_source : Option (MetagraphSource S)
  pub loads : String → Result Json
  pub validate_summary : File → Result EpochSummary

-- What a tick finds outside: the bucket and the clock.
pub record Tick : Type 0 where
  pub bucket : Bucket
  pub now : ℕ

-- `sum(s.earnings_ndollars + s.surcharge_ndollars for s in scores.values())`
abbrev pub scores_total : ℤ → Scores → ℤ
scores_total acc [] = acc
scores_total acc ((id, s) ∷ scores) =
    scores_total (acc +ℤ (s.earnings_ndollars +ℤ s.surcharge_ndollars)) scores
