-- ===== src/Connect.antt =====
-- validator/src/gm_validator/subtensor_connect.py: calls with a time limit, and the connection with
-- retries. The SDK and the clock are arguments: a factory for connections and a sleep, over the state
-- of the world outside. Waits are in whole seconds.
pub mod Attempts
pub mod Pauses
mod Tests
use gm_validator.Prelude.{ℕ, zero, suc, ◌*◌, Option, none, some, ltb, if◌then◌else◌}
use gm_validator.Errors.{Error, timeout, Result, ok, raised}

-- A call that may not finish in time.
abbrev pub Timed {ℓ} : Type ℓ → Type ℓ
Timed A = Option (Result A)

-- `run_with_timeout`, on what the worker came to: a result that is late is never looked at.
unfoldable pub run_with_timeout {ℓ} : {A : Type ℓ} → Timed A → Result A
run_with_timeout none = raised timeout
run_with_timeout (some r) = r

pub record Dialer (W C : Type 0) : Type 0 where
  pub factory : W → W × Timed C
  pub sleep : ℕ → W → W

-- `_MAX_ATTEMPTS` less the last one, `_INITIAL_BACKOFF_SECS` and `_MAX_BACKOFF_SECS`.
abbrev pub retries : ℕ
retries = 7

abbrev pub initial_backoff : ℕ
initial_backoff = 1

abbrev pub max_backoff : ℕ
max_backoff = 60

unfoldable pub next_backoff : ℕ → ℕ
next_backoff backoff = if ltb max_backoff (backoff * 2) then max_backoff else backoff * 2

module _ {W C : Type 0} where
  -- One attempt.
  unfoldable pub dial : Dialer W C → W → W × Result C
  dial d w = let (w', r) = d.factory w in (w', run_with_timeout r)

  -- The loop over the attempts, with so many left after this one.
  unfoldable pub connect_from : Dialer W C → ℕ → ℕ → W → W × Result C
  connect_from d zero backoff w = dial d w
  connect_from d (suc left) backoff w =
      let (w', r) = dial d w in
      elim r [
        | ok c ↦ (w', ok c)
        | raised e ↦ connect_from d left (next_backoff backoff) (d.sleep backoff w')
      ]

  unfoldable pub connect_subtensor : Dialer W C → W → W × Result C
  unfolding connect_from
  connect_subtensor d w = connect_from d retries initial_backoff w
