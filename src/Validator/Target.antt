-- ===== src/Validator/Target.antt =====
-- The start of a tick: the lookup, the weight status, and the epoch to submit.
use gm_validator.Prelude.{ℕ, zero, suc, Bool, false, Option, none, some, leb, if◌then◌else◌}
use gm_validator.Prelude.Dict.{Dict}
use gm_validator.Errors.{Result, ok, raised, ◌>>=◌}
use gm_validator.Adapter.{ValidatorWeightStatus}
use gm_validator.Mirror.{latest_finalized_epoch}
use gm_validator.Validator.State.{Refresh, static, failed, refreshed, Validator, Parts, Tick}

-- The block to remember: the latest one, unless it is unknown or the hotkey is not registered.
abbrev pub observed : Option ValidatorWeightStatus → Option ℕ → Option ℕ
observed none block = block
observed (some status) block =
    if status.registered
    then elim status.last_update_block [ none ↦ block | some latest ↦ some latest ]
    else block

-- `last is not None and value <= last`
abbrev pub is_done : ℕ → Option ℕ → Bool
is_done value none = false
is_done value (some last) = leb value last

module _ {S : Type 0} where
  -- A refresh that fails keeps the last good lookup.
  abbrev pub keep_lookup : Validator S → S × Result (Dict ℕ) → Validator S × Refresh
  keep_lookup v (chain, raised e) = (record v { chain = chain }, failed)
  keep_lookup v (chain, ok uids) = (record v { chain = chain; miner_uid_lookup = uids }, refreshed)

  unfoldable pub refresh_miner_uid_lookup : Parts S → Validator S → Validator S × Refresh
  refresh_miner_uid_lookup parts v = elim parts.metagraph_source [
    | none ↦ (v, static)
    | some source ↦ keep_lookup v (source.hotkeys v.chain)
  ]

  -- `_observe_weight_status`, but for its log lines
  unfoldable pub observe_weight_status : Option ValidatorWeightStatus → Validator S → Validator S
  observe_weight_status status v = record v {
    last_update_block = observed status v.last_update_block;
  }

  -- The rest of `_select_target_epoch` for a finalized target or none.
  abbrev pub select_finalized : Validator S → ℕ → Option ℕ → Option (ℕ × ℕ)
  select_finalized v open_epoch none = none
  select_finalized v open_epoch (some target) =
      if is_done target v.last_submitted_epoch then none else some (open_epoch, target)

  -- `_select_target_epoch` at the open epoch that the cursor gave
  unfoldable pub select_at : Parts S → Tick → Validator S → Option ℕ → Result (Option (ℕ × ℕ))
  select_at parts tick v none = ok none
  select_at parts tick v (some zero) = ok none
  select_at parts tick v (some (suc newest_closed)) =
      if is_done (suc newest_closed) v.last_submitted_open_epoch
      then ok none
      else latest_finalized_epoch parts.config.s3_anonymous tick.bucket newest_closed 0
        >>= λ target. ok (select_finalized v (suc newest_closed) target)

  unfoldable pub select_target_epoch :
      Parts S → Tick → Validator S → Validator S × Result (Option (ℕ × ℕ))
  select_target_epoch parts tick v =
      let (chain, open_epoch) = parts.cursor.current_epoch v.chain in
      (record v { chain = chain }, select_at parts tick v open_epoch)
