-- ===== src/Validator/Records.antt =====
-- The disk and the record of calls over the runs of the examples.
use gm_validator.Prelude.{◌≡◌, refl}
use gm_validator.Errors.{ok}
use gm_validator.Validator.Loop.{process_once, after_tick, run_loop}
use gm_validator.Validator.Examples.{settings, row, prices, parts, validator, tick, ticks}
use gm_validator.Prelude.{arith}
use gm_validator.Validator.Store.{Trimmed, process_once-Trimmed}
use gm_validator.Validator.Ledger.{Turn, process_once-Turn}
use gm_validator.Validator.Gauge.Runs.{Shows, run_loop-Shows}
use gm_validator.Validator.Ledger.Runs.{sent, told, run_loop-sent}

process_once-Trimmed_example : Trimmed 2 (process_once parts tick validator)
process_once-Trimmed_example = process_once-Trimmed parts tick validator 2 refl (omega arith) tt

process_once-Turn_example :
    Turn settings
      (λ line. ok row)
      (λ f. ok prices)
      tick
      validator
      (after_tick (process_once parts tick validator))
process_once-Turn_example =
    process_once-Turn settings (λ line. ok row) (λ f. ok prices) tick validator

run_loop-sent_example :
    let (v', outcomes) = run_loop parts ticks validator in sent v'.chain.calls ≡ told outcomes
run_loop-sent_example = run_loop-sent settings (λ line. ok row) (λ f. ok prices) ticks validator

run_loop-Shows_example : Shows (run_loop parts ticks validator).0
run_loop-Shows_example = run_loop-Shows parts ticks validator refl
