-- ===== src/Submitter/Start.antt =====
-- `RealSubmitter.__init__`: the keypair, the first connection and the rate limit.
use Prim.Native.String.{String}
use gm_validator.Prelude.{ℕ, Option, none, some}
use gm_validator.Errors.{Result, ok, raised, weight_submission}
use gm_validator.Config.Parsers.{Text}
use gm_validator.Connect.{run_with_timeout, connect_subtensor}
use gm_validator.Submitter.{Sdk, RealSubmitter}
use gm_validator.Submitter.Hotkey.{Keychain, load_keypair}

-- `int(value or 0)`, and 0 where the read raises.
abbrev pub limit_of : Result (Option ℕ) → ℕ
limit_of (raised e) = 0
limit_of (ok none) = 0
limit_of (ok (some limit)) = limit

module _ {W C : Type 0} (sdk : Sdk W C) where
  -- `_read_weights_rate_limit`
  unfoldable pub read_weights_rate_limit : ℕ → Option C → W → W × ℕ
  read_weights_rate_limit netuid none w = (w, 0)
  read_weights_rate_limit netuid (some c) w =
      let (w', r) = sdk.weights_rate_limit c netuid w in (w', limit_of (run_with_timeout r))

  -- The constructor once the keypair is there, on what the connection came to.
  abbrev pub after_connect : ℕ → String → W × Result C → W × Result (RealSubmitter W C)
  after_connect netuid hotkey (w, raised e) = (w, raised weight_submission)
  after_connect netuid hotkey (w, ok c) =
      let (w', limit) = read_weights_rate_limit netuid (some c) w in
      (
        w',
        ok (record {
          netuid = netuid;
          hotkey = hotkey;
          subtensor = some c;
          consecutive_failures = 0;
          weights_rate_limit = limit;
          world = w';
        }),
      )

  abbrev pub after_keypair :
      {K : Type 0} → Keychain K → ℕ → W → Result K → W × Result (RealSubmitter W C)
  after_keypair keys netuid w (raised e) = (w, raised e)
  after_keypair keys netuid w (ok key) =
      after_connect netuid (keys.ss58_address key) (connect_subtensor sdk.dialer w)

  unfoldable pub new_real_submitter :
      {K : Type 0}
      → Keychain K
      → ℕ
      → (seed name hotkey path : Option Text) → W
      → W × Result (RealSubmitter W C)
  unfolding load_keypair read_weights_rate_limit
  new_real_submitter keys netuid seed name hotkey path w =
      after_keypair keys netuid w (load_keypair keys seed name hotkey path)
