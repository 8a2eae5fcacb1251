-- ===== src/Adapter/Tests.antt =====
-- Statuses in and out of the rate-limit window.
use gm_validator.Prelude.{ℕ, true, false, some, ◌≡◌, refl}
use gm_validator.Adapter.{ValidatorWeightStatus, within_rate_limit_window}

abbrev status : ℕ → ℕ → ValidatorWeightStatus
status last now = record {
  registered = true;
  last_update_block = some last;
  current_block = now;
  weights_rate_limit = 100;
}

at_the_limit : within_rate_limit_window (status 900 1000) ≡ true
unfolding within_rate_limit_window
at_the_limit = refl

past_the_limit : within_rate_limit_window (status 899 1000) ≡ false
unfolding within_rate_limit_window
past_the_limit = refl

behind : within_rate_limit_window (status 1001 1000) ≡ true
unfolding within_rate_limit_window
behind = refl
