-- ===== src/Submitter/Hotkey.antt =====
-- Where the hotkey comes from: `_load_keypair` and its two sources in bittensor_real.py, and
-- `_use_mock_submitter` in main.py, which asks for one beforehand. The SDK's keys are an argument,
-- texts are code points.
use Prim.Native.String.{String}
use gm_validator.Prelude.{
  ℕ, Bool, true, false, not, Option, none, some, List, [], ◌∷◌, ◌&&◌, ◌||◌, ◌==◌, if◌then◌else◌,
  ◌≡◌, ◌⊎◌, refl, inl, inr, Bool-cases,
}
use gm_validator.Prelude.Text.{strip, is_blank}
use gm_validator.Errors.{Result, ok, raised, hotkey_config, hotkey_not_configured}
use gm_validator.Config.{ValidatorConfig}
use gm_validator.Config.Parsers.{Text}

-- The calls of the SDK that make a keypair, and the address of one.
pub record Keychain (K : Type 0) : Type 0 where
  pub create_from_seed : List ℕ → Result K
  pub create_from_mnemonic : List ℕ → Result K
  pub wallet_hotkey : Text → Text → Option Text → Result K
  pub ss58_address : K → String

abbrev pub is_no_text : List ℕ → Bool
is_no_text [] = true
is_no_text (c ∷ cs) = false

-- An optional text as a condition.
abbrev pub is_set : Option Text → Bool
is_set none = false
is_set (some s) = not (is_no_text s)

-- `seed and seed.strip()`
abbrev pub has_text : Option Text → Bool
has_text none = false
has_text (some s) = not (is_no_text s) && not (is_blank s)

abbrev pub text_of : Option Text → Text
text_of none = []
text_of (some s) = s

-- Any exception of the SDK becomes a HotkeyConfigError.
abbrev pub or_misconfigured : {K : Type 0} → Result K → Result K
or_misconfigured (raised e) = raised hotkey_config
or_misconfigured (ok k) = ok k

-- `candidate.startswith("0x")`
abbrev pub is_hex : List ℕ → Bool
is_hex (a ∷ b ∷ _) = (a == 48) && (b == 120)
is_hex _ = false

module _ {K : Type 0} where
  unfoldable pub keypair_from_seed : Keychain K → Text → Result K
  keypair_from_seed keys seed =
      let candidate = strip seed in
      if is_no_text candidate
      then raised hotkey_config
      else or_misconfigured (
          if is_hex candidate
          then keys.create_from_seed candidate
          else keys.create_from_mnemonic candidate)

  unfoldable pub keypair_from_wallet : Keychain K → Text → Text → Option Text → Result K
  keypair_from_wallet keys name hotkey path =
      or_misconfigured (keys.wallet_hotkey name hotkey (if is_set path then path else none))

  unfoldable pub load_keypair : Keychain K → (seed name hotkey path : Option Text) → Result K
  load_keypair keys seed name hotkey path =
      if is_set name && is_set hotkey
      then keypair_from_wallet keys (text_of name) (text_of hotkey) path
      else if has_text seed
      then keypair_from_seed keys (text_of seed)
      else raised hotkey_config

unfoldable pub use_mock_submitter : {Uid : Type 0} → ValidatorConfig Uid → Result Bool
use_mock_submitter c =
    if c.bittensor_mock
    then ok true
    else if not (
        has_text c.bittensor_hotkey_seed
        || (is_set c.bittensor_wallet_name && is_set c.bittensor_wallet_hotkey))
    then raised hotkey_not_configured
    else ok false

-- Without mock mode the check at startup agrees with the loading of the key: either it raises, and
-- the loading would raise a HotkeyConfigError whatever the keys; or it asks for the real submitter,
-- and the loading turns to the wallet or to the seed.
pub use_mock_submitter-load_keypair :
    {K Uid : Type 0} (keys : Keychain K) (c : ValidatorConfig Uid)
    → c.bittensor_mock ≡ false
    → let loaded =
        load_keypair keys c.bittensor_hotkey_seed c.bittensor_wallet_name c.bittensor_wallet_hotkey
          c.bittensor_wallet_path in
      ((use_mock_submitter c ≡ raised hotkey_not_configured) × (loaded ≡ raised hotkey_config))
      ⊎ ((use_mock_submitter c ≡ ok false)
          × ((loaded
                ≡ keypair_from_wallet keys
                    (text_of c.bittensor_wallet_name)
                    (text_of c.bittensor_wallet_hotkey)
                    c.bittensor_wallet_path)
              ⊎ (loaded ≡ keypair_from_seed keys (text_of c.bittensor_hotkey_seed))))
unfolding use_mock_submitter load_keypair
use_mock_submitter-load_keypair keys c real =
    elim (Bool-cases (is_set c.bittensor_wallet_name && is_set c.bittensor_wallet_hotkey)) [
      | inl wallet ↦ elim (Bool-cases (has_text c.bittensor_hotkey_seed)) [
        | inl seed ↦ inr (rw (real, seed) refl, inl (rw wallet refl))
        | inr no_seed ↦ inr (rw (real, no_seed, wallet) refl, inl (rw wallet refl))
      ]
      | inr no_wallet ↦ elim (Bool-cases (has_text c.bittensor_hotkey_seed)) [
        | inl seed ↦ inr (rw (real, seed) refl, inr (rw (no_wallet, seed) refl))
        | inr no_seed ↦ inl (rw (real, no_seed, no_wallet) refl, rw (no_wallet, no_seed) refl)
      ]
    ]
