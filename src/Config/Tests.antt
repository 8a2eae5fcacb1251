-- ===== src/Config/Tests.antt =====
-- Settings read from small environments.
use gm_validator.Prelude.{none, some, [], ◌∷◌, ◌≡◌, refl, arith}
use gm_validator.Prelude.Int.{pos, negsuc}
use gm_validator.Prelude.Text.{codes}
use gm_validator.Prelude.Print.{print_nat}
use gm_validator.Errors.{ok, raised, ◌>>=◌, value_error}
use gm_validator.Config.Parsers.{
  Environ, parse_decimal, decimal_env, opt_env, bind_of, metrics_bind_env,
}
use gm_validator.Config.Laws.{metrics_bind_env-address}
use gm_validator.Config.{from_env, finalized_prefix}

abbrev env : Environ
env =
    ("S3_BUCKET", codes "gm")
    ∷ ("SUBNET_OWNER_UID", codes "99")
    ∷ ("S3_PREFIX", codes "/v2/")
    ∷ ("WALLET_NAME", codes "  ")
    ∷ ("GM_VALIDATOR_METRICS_BIND", codes " ::1:9100 ")
    ∷ ("GM_WEIGHT_EARNINGS_MULTIPLIER", codes " 1_0.50e-1")
    ∷ []

bound : metrics_bind_env env "GM_VALIDATOR_METRICS_BIND" ≡ ok (some (codes "::1", 9100))
unfolding metrics_bind_env
bound = refl

blank_wallet : opt_env env "WALLET_NAME" ≡ none
unfolding opt_env
blank_wallet = refl

multiplier :
    decimal_env env "GM_WEIGHT_EARNINGS_MULTIPLIER" (codes "1")
    ≡ ok (record { coef = pos 1050; exp = negsuc 2 })
unfolding decimal_env
multiplier = refl

no_decimal : parse_decimal (codes "1.5x") ≡ none
unfolding parse_decimal
no_decimal = refl

no_bucket : from_env [] ≡ raised value_error
unfolding from_env
no_bucket = refl

-- The prefix loses its slashes.
prefix : (from_env env >>= λ c. ok (finalized_prefix c 120)) ≡ ok (codes "v2/finalized/epoch=120/")
unfolding from_env finalized_prefix
prefix = refl

port_too_large : bind_of (codes "65536") ≡ raised value_error
unfolding bind_of
port_too_large = refl

metrics_bind_env-address_example :
    metrics_bind_env (("BIND", codes "::1:9100") ∷ []) "BIND" ≡ ok (some (codes "::1", 9100))
unfolding print_nat
metrics_bind_env-address_example =
    metrics_bind_env-address (("BIND", codes "::1:9100") ∷ []) "BIND" b':' (codes ":1") 9100 refl
      refl (omega arith) (omega arith)
