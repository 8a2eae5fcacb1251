-- ===== src/Submitter/Tests.antt =====
-- A socket that dies, and the one that replaces it.
use Prim.Native.String.{String}
use gm_validator.Prelude.{
  false, Option, ℕ, suc, ◌==◌, true, none, some, List, [], ◌∷◌, ◌≡◌, refl, if◌then◌else◌,
}
use gm_validator.Errors.{ok, raised, foreign, value_error, weight_submission}
use gm_validator.Connect.{dial, run_with_timeout, connect_subtensor}
use gm_validator.Submitter.{
  Sdk, RealSubmitter, maybe_reconnect, read_head, head_block, submit, current_epoch,
}
use gm_validator.Prelude.Int.{pos}
use gm_validator.Decimal.{one}
use gm_validator.Prelude.Text.{codes}
use gm_validator.Config.{ValidatorConfig}
use gm_validator.Submitter.Hotkey.{Keychain, load_keypair, keypair_from_seed}
use gm_validator.Submitter.Recovery.{reads, IsRedialed, maybe_reconnect-reads}
use gm_validator.Prelude.{arith}
use gm_validator.Submitter.Accepting.{Accepts, submit_iff_Accepts}
use gm_validator.Prelude.{◌↔◌, ◌<◌, ◌⊎◌}

-- The world is the last connection that was dialled. Connection 0 is dead, any other one works.
abbrev sdk : Sdk ℕ ℕ
sdk = record {
  dialer = record { factory = λ (w : ℕ). (suc w, some (ok (suc w))); sleep = λ (s w : ℕ). w };
  close = λ (c w : ℕ). w;
  get_current_block = λ (c w : ℕ). (w, if c == 0 then none else some (ok 15180));
  metagraph = λ (c netuid w : ℕ). (w, some (ok ("5Alice" ∷ [])));
  get_uid = λ (c : ℕ) (hotkey : String) (netuid w : ℕ). (w, some (ok (some 3)));
  last_update = λ (c netuid uid w : ℕ). (w, some (ok 15000));
  set_weights = λ (c netuid : ℕ) (uids weights : List ℕ) (w : ℕ).
      (w, if c == 0 then raised foreign else ok true);
  weights_rate_limit = λ (c netuid w : ℕ). (w, some (ok (some 100)));
}

abbrev after : ℕ → RealSubmitter ℕ ℕ
after failures = record {
  netuid = 28;
  hotkey = "5Validator";
  subtensor = some 0;
  consecutive_failures = failures;
  weights_rate_limit = 100;
  world = 0;
}

third_failure : head_block sdk (after 2) ≡ (after 3, raised weight_submission)
unfolding head_block maybe_reconnect read_head run_with_timeout
third_failure = refl

reconnected :
    current_epoch sdk 361 (after 3) ≡ (record (after 0) { subtensor = some 1; world = 1 }, some 42)
unfolding current_epoch head_block maybe_reconnect read_head run_with_timeout connect_subtensor dial
reconnected = refl

submit_iff_Accepts_example :
    ((submit sdk 28 (7 ∷ []) (65535 ∷ []) 41 (after 3)).1 ≡ ok tt)
    ↔ Accepts sdk 28 (7 ∷ []) (65535 ∷ []) (after 3)
submit_iff_Accepts_example = submit_iff_Accepts sdk 28 (7 ∷ []) (65535 ∷ []) 41 (after 3) refl

-- A wallet name without its hotkey does not count, and the seed is used.
abbrev settings : ValidatorConfig ℕ
settings = record {
  s3_bucket = codes "gm";
  s3_prefix = [];
  s3_endpoint_url = none;
  aws_region = [];
  s3_anonymous = true;
  local_mirror_dir = codes "mirror";
  mirror_retention_epochs = pos 2;
  blocks_per_epoch = pos 361;
  finalized_lookback_epochs = pos 0;
  bittensor_netuid = 28;
  bittensor_endpoint = none;
  bittensor_hotkey_seed = some (codes " 0xab ");
  bittensor_wallet_name = some (codes "main");
  bittensor_wallet_hotkey = none;
  bittensor_wallet_path = none;
  bittensor_mock = false;
  subtensor_connect_timeout_secs = pos 30;
  subtensor_rpc_timeout_secs = pos 30;
  poll_interval_secs = pos 12;
  metrics_bind = none;
  subnet_owner_uid = 0;
  weight_earnings_multiplier = one;
}

-- The keys are the code points that they were made from.
abbrev keys : Keychain (List ℕ)
keys = record {
  create_from_seed = λ (s : List ℕ). ok s;
  create_from_mnemonic = λ (s : List ℕ). raised value_error;
  wallet_hotkey = λ (name hotkey : List ℕ) (path : Option (List ℕ)). raised foreign;
  ss58_address = λ (k : List ℕ). "5Validator";
}

hex_seed :
    load_keypair keys (some (codes " 0xab ")) (some (codes "main")) none none
    ≡ ok (48 ∷ 120 ∷ 97 ∷ 98 ∷ [])
unfolding load_keypair keypair_from_seed
hex_seed = refl

-- Three reads over the dead connection 0, and then it is replaced.
maybe_reconnect-reads_example :
    ((reads sdk 3 (after 0)).subtensor ≡ some 0)
    × ((reads sdk 3 (after 0)).consecutive_failures ≡ 3)
    × (((3 < 3) × (maybe_reconnect sdk (reads sdk 3 (after 0)) ≡ reads sdk 3 (after 0)))
        ⊎ (◌≡◌ {A = ℕ} 3 3
            × IsRedialed sdk 0
                (reads sdk 3 (after 0))
                (maybe_reconnect sdk (reads sdk 3 (after 0)))
                (connect_subtensor sdk.dialer (reads sdk 3 (after 0)).world)))
unfolding head_block maybe_reconnect read_head run_with_timeout
maybe_reconnect-reads_example =
    maybe_reconnect-reads sdk 3 0 (after 0) (omega arith) refl refl (tt, (tt, (tt, tt)))
