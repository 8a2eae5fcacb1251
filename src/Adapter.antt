-- ===== src/Adapter.antt =====
-- validator/src/gm_validator/bittensor_adapter.py: the weight status, the protocols that the
-- validator calls, and the in-memory implementations.
pub mod Window
mod Tests
use gm_validator.Prelude.{
  ℕ, Bool, true, false, Option, none, some, List, [], ◌∷◌, ◌++◌, ltb, ◌&&◌, not,
}
use gm_validator.Prelude.Int.{ℤ, pos, sub_ℕ, ltb_ℤ}
use gm_validator.Prelude.Dict.{Dict}
use gm_validator.Errors.{Result, ok}

pub record ValidatorWeightStatus : Type 0 where
  pub registered : Bool
  pub last_update_block : Option ℕ
  pub current_block : ℕ
  pub weights_rate_limit : ℕ

-- The head can be behind the last update for a moment, so the difference is signed.
unfoldable pub blocks_since_last_update : ValidatorWeightStatus → Option ℤ
blocks_since_last_update s = elim s.last_update_block [
  | none ↦ none
  | some last ↦ some (sub_ℕ s.current_block last)
]

abbrev pub is_within : ℕ → Option ℤ → Bool
is_within limit none = false
is_within limit (some blocks) = ltb 0 limit && not (ltb_ℤ (pos limit) blocks)

unfoldable pub within_rate_limit_window : ValidatorWeightStatus → Bool
unfolding blocks_since_last_update
within_rate_limit_window s = is_within s.weights_rate_limit (blocks_since_last_update s)

-- The protocols, over the state of whatever implements them. A method that raises returns the
-- exception beside the state that it leaves.
pub record Submitter (S : Type 0) : Type 0 where
  pub submit : (netuid : ℕ) (uids weights : List ℕ) (epoch_id : ℕ) → S → S × Result (Unit {0})
  pub weight_status : S → S × Option ValidatorWeightStatus

pub record ChainCursor (S : Type 0) : Type 0 where
  pub current_epoch : S → S × Option ℕ

pub record MetagraphSource (S : Type 0) : Type 0 where
  pub hotkeys : S → S × Result (Dict ℕ)

-- `MockSubmitter` and `MockChainCursor`.
pub record SubmitCall : Type 0 where
  pub netuid : ℕ
  pub uids : List ℕ
  pub weights : List ℕ
  pub epoch_id : ℕ

pub record Mock : Type 0 where
  pub calls : List SubmitCall
  pub status : Option ValidatorWeightStatus
  pub epoch : Option ℕ

unfoldable pub mock_submit : ℕ → List ℕ → List ℕ → ℕ → Mock → Mock × Result (Unit {0})
mock_submit netuid uids weights epoch_id m = (
  record m {
    calls =
        m.calls
        ++ (record { netuid = netuid; uids = uids; weights = weights; epoch_id = epoch_id } ∷ []);
  },
  ok tt,
)

abbrev pub mock_submitter : Submitter Mock
mock_submitter = record { submit = mock_submit; weight_status = λ m. (m, m.status) }

abbrev pub mock_cursor : ChainCursor Mock
mock_cursor = record { current_epoch = λ m. (m, m.epoch) }
