-- ===== src/Errors.antt =====
-- The exceptions that the validator's code raises and tells apart, and results that carry them.

use gm_validator.Prelude.{◌≡◌, ◌⊎◌, inl, inr, refl}

pub data Error : Type 0 where
  -- `scoring.StaleMetagraphError`, `StaleEpochSummaryError`, `MalformedArtifactError`
  stale_metagraph stale_epoch_summary malformed_artifact : Error
  -- `bittensor_real.WeightSubmissionError`, `HotkeyConfigError`
  weight_submission hotkey_config : Error
  -- `main.HotkeyNotConfiguredError`
  hotkey_not_configured : Error
  -- `ValueError`, `TypeError`, `AttributeError`, `FileNotFoundError`
  value_error type_error attribute_error file_not_found : Error
  -- `decimal.InvalidOperation`
  invalid_operation : Error
  -- `TimeoutError`
  timeout : Error
  -- an error of the S3 client, and any exception of another library
  client_error foreign : Error

pub data Result {ℓ} (A : Type ℓ) : Type ℓ where
  raised : Error → Result A
  ok : A → Result A

module _ {ℓ} {A : Type ℓ} where
  infixl 5 ◌>>=◌ ◌>>◌
  -- What follows an exception is skipped.
  abbrev pub ◌>>=◌ {κ} : {B : Type κ} → Result A → (A → Result B) → Result B
  ◌>>=◌ first next = elim first [ raised e ↦ raised e | ok a ↦ next a ]

  abbrev pub ◌>>◌ {κ} : {B : Type κ} → Result A → Result B → Result B
  ◌>>◌ first next = elim first [ raised e ↦ raised e | ok _ ↦ next ]

module _ {ℓ κ} {A : Type ℓ} {B : Type κ} where
  -- A chain that ends well has ended well at its first step.
  pub unbind :
      (first : Result A) (next : A → Result B) {b : B}
      → (first >>= next) ≡ ok b
      → (a : A) × (first ≡ ok a) × (next a ≡ ok b)
  unbind (raised e) next h = cc
  unbind (ok a) next h = (a, refl, h)

pub unbind_then {ℓ} :
    {B : Type ℓ} (first : Result (Unit {0})) (next : Result B) {b : B}
    → (first >> next) ≡ ok b
    → (first ≡ ok tt) × (next ≡ ok b)
unbind_then (raised e) next h = cc
unbind_then (ok tt) next h = (refl, h)

pub ok_injective {ℓ} : {A : Type ℓ} {a b : A} → Result.ok a ≡ ok b → a ≡ b
ok_injective h = cc

pub Result-cases {ℓ} :
    {A : Type ℓ} (r : Result A) → ((e : Error) × (r ≡ raised e)) ⊎ ((a : A) × (r ≡ ok a))
Result-cases (raised e) = inl (e, refl)
Result-cases (ok a) = inr (a, refl)
