-- ===== src/Metrics.antt =====
-- validator/src/gm_validator/metrics.py: the gauges and counters, as one record. The Prometheus
-- client only stores what it is given. `float(...)` of a Decimal is left out: the gauges keep the
-- Decimal itself. The wall clock is an argument.
use gm_validator.Prelude.{ℕ, ◌+◌, Option, none, some, if◌then◌else◌}
use gm_validator.Prelude.Int.{ℤ, pos, negsuc, ltb_ℤ}
use gm_validator.Decimal.{Decimal, nought}

pub record Metrics : Type 0 where
  -- `LAST_WEIGHT_EPOCH` and `LAST_WEIGHT_TIMESTAMP`
  pub last_weight_epoch : Option ℕ
  pub last_weight_timestamp : Option ℕ
  pub weight_quantization_residual : Decimal
  pub miners_below_quantum : ℕ
  pub floored_weight_total : Decimal
  pub submit_failures : ℕ
  pub loop_errors : ℕ
  -- the module's `_highest_submitted`
  pub highest_submitted : ℤ

abbrev pub fresh_metrics : Metrics
fresh_metrics = record {
  last_weight_epoch = none;
  last_weight_timestamp = none;
  weight_quantization_residual = nought;
  miners_below_quantum = 0;
  floored_weight_total = nought;
  submit_failures = 0;
  loop_errors = 0;
  highest_submitted = negsuc 0;
}

unfoldable pub record_weight_submission : ℕ → ℕ → Metrics → Metrics
record_weight_submission now epoch m =
    if ltb_ℤ m.highest_submitted (pos epoch)
    then (record m {
      highest_submitted = pos epoch;
      last_weight_epoch = some epoch;
      last_weight_timestamp = some now;
    })
    else (record m { last_weight_timestamp = some now })

unfoldable pub record_submit_failure : Metrics → Metrics
record_submit_failure m = record m { submit_failures = m.submit_failures + 1 }

unfoldable pub record_loop_error : Metrics → Metrics
record_loop_error m = record m { loop_errors = m.loop_errors + 1 }

unfoldable pub record_payment_accuracy : Decimal → ℕ → Decimal → Metrics → Metrics
record_payment_accuracy residual below floored m = record m {
  weight_quantization_residual = residual;
  miners_below_quantum = below;
  floored_weight_total = floored;
}
