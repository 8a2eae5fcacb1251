-- ===== src/Validator/Window.antt =====
-- A tick inside the rate-limit window.
use gm_validator.Prelude.{ℕ, true, Option, none, some, List, [], ◌≡◌, refl}
use gm_validator.Errors.{Result, ok, raised}
use gm_validator.Adapter.{ValidatorWeightStatus, within_rate_limit_window}
use gm_validator.Validator.State.{EpochOutcome, Validator, Parts, Tick}
use gm_validator.Validator.Target.{select_target_epoch}
use gm_validator.Validator.Loop.{
  in_window, act_on, finish_tick, begin_tick, process_once, after_tick,
}

module _ {S : Type 0} (parts : Parts S) (tick : Tick) where
  act_on_window :
      (status : Option ValidatorWeightStatus) (v : Validator S) (selection : Option (ℕ × ℕ))
      → in_window status ≡ true
      → act_on parts tick status v selection ≡ (v, [])
  unfolding act_on
  act_on_window status v none h = refl
  act_on_window status v (some (open_epoch, target)) h = rw (act_on, h) refl

  -- Nothing comes of the rest of the tick, and the chain objects are left as they were.
  Idle : Validator S → Validator S × List EpochOutcome → Type 0
  Idle v r = (r.1 ≡ []) × ((r.0).chain ≡ v.chain)

  finish_tick-Idle :
      (status : Option ValidatorWeightStatus) (v : Validator S) (r : Result (Option (ℕ × ℕ)))
      → in_window status ≡ true
      → Idle v (after_tick (finish_tick parts tick status v r))
  unfolding finish_tick Idle
  finish_tick-Idle status v (raised e) h = (refl, refl)
  finish_tick-Idle status v (ok selection) h = rw (act_on_window status v selection h) (refl, refl)

  -- A tick whose weight status is inside the rate-limit window submits nothing: it has no outcome, and
  -- of the chain objects it calls only the cursor after the status was read.
  pub process_once_in_window :
      (v : Validator S) (status : ValidatorWeightStatus)
      → (begin_tick parts v).1 ≡ some status
      → within_rate_limit_window status ≡ true
      → let (v', outcomes) = after_tick (process_once parts tick v) in
        (outcomes ≡ []) × (v'.chain ≡ (parts.cursor.current_epoch ((begin_tick parts v).0.chain)).0)
  unfolding process_once select_target_epoch Idle
  process_once_in_window v status h w = finish_tick-Idle (begin_tick parts v).1 _ _ (rw h w)
