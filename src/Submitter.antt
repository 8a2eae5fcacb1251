-- ===== src/Submitter.antt =====
-- validator/src/gm_validator/bittensor_real.py: the submitter that signs, its one connection, and the
-- cursor and metagraph source that read through it. The SDK is an argument, over the state of the
-- world outside; a call that is bounded by `run_with_timeout` comes back as timed.
pub mod Hotkey
pub mod Calls
pub mod Start
pub mod Whole
pub mod Recovery
pub mod Accepting
pub mod Uids
mod Tests
use Prim.Native.String.{String}
use gm_validator.Prelude.{
  ℕ, zero, suc, ◌/◌, ◌==◌, Bool, true, false, not, Option, none, some, List, [], ◌∷◌, length, ltb,
  ◌||◌, if◌then◌else◌,
}
use gm_validator.Prelude.Int.{ℤ, pos, pos_part, ltb_ℤ}
use gm_validator.Prelude.Dict.{Dict, insert}
use gm_validator.Errors.{Result, ok, raised, weight_submission, value_error}
use gm_validator.Adapter.{ValidatorWeightStatus, Submitter, ChainCursor, MetagraphSource}
use gm_validator.Connect.{Timed, run_with_timeout, Dialer, connect_subtensor}

-- `_RECONNECT_AFTER_FAILURES`
abbrev pub reconnect_after_failures : ℕ
reconnect_after_failures = 3

-- The calls of the SDK on a connection. `set_weights` says whether the chain accepted.
pub record Sdk (W C : Type 0) : Type 0 where
  pub dialer : Dialer W C
  pub close : C → W → W
  pub get_current_block : C → W → W × Timed ℕ
  pub metagraph : C → ℕ → W → W × Timed (List String)
  pub get_uid : C → String → ℕ → W → W × Timed (Option ℕ)
  pub last_update : C → ℕ → ℕ → W → W × Timed ℕ
  pub set_weights : C → ℕ → List ℕ → List ℕ → W → W × Result Bool
  pub weights_rate_limit : C → ℕ → W → W × Timed (Option ℕ)

-- The attributes of a `RealSubmitter`, with the world.
pub record RealSubmitter (W C : Type 0) : Type 0 where
  pub netuid : ℕ
  pub hotkey : String
  pub subtensor : Option C
  pub consecutive_failures : ℕ
  pub weights_rate_limit : ℕ
  pub world : W

-- `{hotkey: uid for uid, hotkey in enumerate(hotkeys)}`
abbrev pub enumerate_from : ℕ → List String → Dict ℕ → Dict ℕ
enumerate_from uid [] d = d
enumerate_from uid (hotkey ∷ hotkeys) d = enumerate_from (suc uid) hotkeys (insert hotkey uid d)

module _ {W C : Type 0} where
  abbrev pub close_subtensor : Sdk W C → Option C → W → W
  close_subtensor sdk none w = w
  close_subtensor sdk (some c) w = sdk.close c w

  -- The old connection is closed once the fresh one is there; a failed attempt keeps it.
  abbrev pub adopt : Sdk W C → RealSubmitter W C → W × Result C → RealSubmitter W C
  adopt sdk s (w, raised e) = record s { world = w }
  adopt sdk s (w, ok fresh) = record s {
    subtensor = some fresh;
    consecutive_failures = 0;
    world = close_subtensor sdk s.subtensor w;
  }

  unfoldable pub maybe_reconnect : Sdk W C → RealSubmitter W C → RealSubmitter W C
  maybe_reconnect sdk s =
      if ltb s.consecutive_failures reconnect_after_failures
      then s
      else adopt sdk s (connect_subtensor sdk.dialer s.world)

  -- A failure that counts toward the reconnection.
  abbrev pub count_failure : RealSubmitter W C → W → RealSubmitter W C
  count_failure s w = record s { consecutive_failures = suc s.consecutive_failures; world = w }

  abbrev pub after_head : RealSubmitter W C → W × Result ℕ → RealSubmitter W C × Result ℕ
  after_head s (w, raised e) = (count_failure s w, raised weight_submission)
  after_head s (w, ok block) = (record s { world = w }, ok block)

  -- `head_block` after the reconnection
  unfoldable pub read_head : Sdk W C → RealSubmitter W C → RealSubmitter W C × Result ℕ
  read_head sdk s = elim s.subtensor [
    | none ↦ (s, raised weight_submission)
    | some c ↦ let (w, r) = sdk.get_current_block c s.world in after_head s (w, run_with_timeout r)
  ]

  unfoldable pub head_block : Sdk W C → RealSubmitter W C → RealSubmitter W C × Result ℕ
  head_block sdk s = read_head sdk (maybe_reconnect sdk s)

  abbrev pub after_metagraph :
      RealSubmitter W C → W × Result (List String) → RealSubmitter W C × Result (Dict ℕ)
  after_metagraph s (w, raised e) = (record s { world = w }, raised weight_submission)
  after_metagraph s (w, ok hotkeys) = (record s { world = w }, ok (enumerate_from 0 hotkeys []))

  unfoldable pub read_metagraph :
      Sdk W C → ℕ → RealSubmitter W C → RealSubmitter W C × Result (Dict ℕ)
  read_metagraph sdk netuid s = elim s.subtensor [
    | none ↦ (s, raised weight_submission)
    | some c ↦
        let (w, r) = sdk.metagraph c netuid s.world in after_metagraph s (w, run_with_timeout r)
  ]

  unfoldable pub metagraph_hotkeys :
      Sdk W C → ℕ → RealSubmitter W C → RealSubmitter W C × Result (Dict ℕ)
  metagraph_hotkeys sdk netuid s = read_metagraph sdk netuid (maybe_reconnect sdk s)

  abbrev pub after_set_weights :
      RealSubmitter W C → W × Result Bool → RealSubmitter W C × Result (Unit {0})
  after_set_weights s (w, raised e) = (count_failure s w, raised weight_submission)
  after_set_weights s (w, ok false) = (record s { world = w }, raised weight_submission)
  after_set_weights s (w, ok true) = (record s { consecutive_failures = 0; world = w }, ok tt)

  -- `submit` after the reconnection
  unfoldable pub send_weights :
      Sdk W C → ℕ → List ℕ → List ℕ → RealSubmitter W C → RealSubmitter W C × Result (Unit {0})
  send_weights sdk netuid uids weights s = elim s.subtensor [
    | none ↦ (s, raised weight_submission)
    | some c ↦ after_set_weights s (sdk.set_weights c netuid uids weights s.world)
  ]

  unfoldable pub submit :
      Sdk W C → ℕ → List ℕ → List ℕ → ℕ → RealSubmitter W C → RealSubmitter W C × Result (Unit {0})
  submit sdk netuid uids weights epoch_id s =
      if not (netuid == s.netuid)
      then (s, raised weight_submission)
      else if not (length uids == length weights)
      then (s, raised weight_submission)
      else if length uids == 0
      then (s, ok tt)
      else send_weights sdk netuid uids weights (maybe_reconnect sdk s)

  -- What `weight_status` says once the uid and the head are read.
  unfoldable pub read_last_update :
      Sdk W C
      → C
      → ℕ
      → RealSubmitter W C
      → Option ℕ
      → RealSubmitter W C × Option ValidatorWeightStatus
  read_last_update sdk c head s none = (
    s,
    some (record {
      registered = false;
      last_update_block = none;
      current_block = head;
      weights_rate_limit = s.weights_rate_limit;
    }),
  )
  read_last_update sdk c head s (some uid) =
      let (w, r) = sdk.last_update c s.netuid uid s.world in
      elim (run_with_timeout r) [
        | raised e ↦ (record s { world = w }, none)
        | ok last ↦ (
          record s { world = w },
          some (record {
            registered = true;
            last_update_block = some last;
            current_block = head;
            weights_rate_limit = s.weights_rate_limit;
          }),
        )
      ]

  -- The `try` of `weight_status`: an exception of any read ends it without a status, uncounted.
  unfoldable pub read_status :
      Sdk W C → C → RealSubmitter W C → RealSubmitter W C × Option ValidatorWeightStatus
  unfolding read_last_update
  read_status sdk c s =
      let (w, r) = sdk.get_uid c s.hotkey s.netuid s.world in
      elim (run_with_timeout r) [
        | raised e ↦ (record s { world = w }, none)
        | ok uid ↦
            let (w', r') = sdk.get_current_block c w in
            elim (run_with_timeout r') [
              | raised e ↦ (record s { world = w' }, none)
              | ok head ↦ read_last_update sdk c head (record s { world = w' }) uid
            ]
      ]

  unfoldable pub weight_status :
      Sdk W C → RealSubmitter W C → RealSubmitter W C × Option ValidatorWeightStatus
  unfolding read_status
  weight_status sdk s =
      let s' = maybe_reconnect sdk s in
      elim s'.subtensor [ none ↦ (s', none) | some c ↦ read_status sdk c s' ]

  -- `RealChainCursor.current_epoch`
  abbrev pub epoch_of : ℕ → RealSubmitter W C × Result ℕ → RealSubmitter W C × Option ℕ
  epoch_of blocks_per_epoch (s, raised e) = (s, none)
  epoch_of blocks_per_epoch (s, ok block) = (s, some (block / blocks_per_epoch))

  unfoldable pub current_epoch : Sdk W C → ℕ → RealSubmitter W C → RealSubmitter W C × Option ℕ
  current_epoch sdk blocks_per_epoch s = epoch_of blocks_per_epoch (head_block sdk s)

  -- The objects that the validator gets; the cursor's constructor refuses an epoch without blocks.
  unfoldable pub real_submitter : Sdk W C → Submitter (RealSubmitter W C)
  real_submitter sdk = record { submit = submit sdk; weight_status = weight_status sdk }

  abbrev pub head_cursor : Sdk W C → ℕ → ChainCursor (RealSubmitter W C)
  head_cursor sdk blocks = record { current_epoch = current_epoch sdk blocks }

  unfoldable pub real_cursor : Sdk W C → ℤ → Result (ChainCursor (RealSubmitter W C))
  real_cursor sdk blocks_per_epoch =
      if ltb_ℤ (pos 0) blocks_per_epoch
      then ok (head_cursor sdk (pos_part blocks_per_epoch))
      else raised value_error

  unfoldable pub real_metagraph_source : Sdk W C → ℕ → MetagraphSource (RealSubmitter W C)
  real_metagraph_source sdk netuid = record { hotkeys = metagraph_hotkeys sdk netuid }
