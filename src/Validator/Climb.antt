-- ===== src/Validator/Climb.antt =====
-- The guards over one turn of the loop and the outcomes of a run.
use gm_validator.Prelude.{
  ℕ, zero, suc, false, Option, none, some, List, [], ◌∷◌, ◌≡◌, refl, sym, ap, ◌∙◌, leb→lt, ◌++◌,
  Bool-cases, Option-cases, inl, inr,
}
use gm_validator.Errors.{Result, ok, raised}
use gm_validator.Validator.State.{EpochOutcome, Validator, Parts, Tick}
use gm_validator.Validator.Target.{
  keep_lookup, refresh_miner_uid_lookup, observe_weight_status, select_at, select_target_epoch,
  is_done,
}
use gm_validator.Validator.Selection.{select_at-IsDue}
use gm_validator.Validator.Loop.{
  in_window, act_on, finish_tick, begin_tick, process_once, after_tick, run_loop,
}
use gm_validator.Validator.Guards.{IsAbove, SameGuards, Step, process_target_epoch-Step}

-- Each epoch is above the one before, and the first above the given one.
abbrev pub IsClimbing : Option ℕ → List EpochOutcome → Type 0
IsClimbing last [] = Unit
IsClimbing last (o ∷ os) = IsAbove o.epoch_id last × IsClimbing (some o.epoch_id) os

is_done-IsAbove : (epoch : ℕ) (last : Option ℕ) → is_done epoch last ≡ false → IsAbove epoch last
is_done-IsAbove epoch none h = tt
is_done-IsAbove epoch (some last) h = leb→lt epoch last h

module _ {S : Type 0} where
  -- A selection that may be acted on.
  abbrev pub IsOpen : Validator S → Option (ℕ × ℕ) → Type 0
  IsOpen v none = Unit
  IsOpen v (some (open_epoch, target)) =
      (open_epoch ≡ suc target) × IsAbove target v.last_submitted_epoch

  act_on-Step :
      (parts : Parts S) (tick : Tick) (status : _) (v : Validator S) (selection : Option (ℕ × ℕ))
      → IsOpen v selection
      → let (v', outcomes) = act_on parts tick status v selection in Step v outcomes v'
  unfolding act_on
  act_on-Step parts tick status v none o = (refl, refl)
  act_on-Step parts tick status v (some (open_epoch, target)) (e, above) =
      elim (Bool-cases (in_window status)) [
        | inl w ↦ rw w (refl, refl)
        | inr w ↦ rw (w, e) (process_target_epoch-Step parts tick target v above)
      ]

  -- Another disk changes nothing.
  Step-SameGuards :
      (u v w : Validator S) (outcomes : List EpochOutcome) (x : Validator S)
      → SameGuards u v
      → SameGuards w x
      → Step v outcomes w
      → Step u outcomes x
  Step-SameGuards u v w [] x (a, b) (c, d) (e, f) = (c ∙ e ∙ a, d ∙ f ∙ b)
  Step-SameGuards u v w (o ∷ []) x (a, b) (c, d) (above, e, f) = (rw (← a) above, c ∙ e, d ∙ f)
  Step-SameGuards u v w (o ∷ _ ∷ _) x s t h = absurd h

  pub select_at-IsOpen :
      (parts : Parts S) (tick : Tick) (v : Validator S) (open_epoch : Option ℕ) (selection : _)
      → select_at parts tick v open_epoch ≡ ok selection
      → IsOpen v selection
  unfolding select_at
  select_at-IsOpen parts tick v open_epoch none h = tt
  select_at-IsOpen parts tick v none (some selected) h = cc
  select_at-IsOpen parts tick v (some zero) (some selected) h = cc
  select_at-IsOpen parts tick v (some (suc closed)) (some (open_epoch, target)) h =
      let (e, due) = select_at-IsDue parts tick v closed (open_epoch, target) h in
      let target_eq = ap (λ p. p.1) e in
      (
        ap (λ p. p.0) e ∙ ap (λ n. suc n) (sym target_eq),
        rw target_eq (is_done-IsAbove closed v.last_submitted_epoch (due.epoch_is_open)),
      )

  finish_tick-Step :
      (parts : Parts S) (tick : Tick) (status : _) (v : Validator S) (r : Result (Option (ℕ × ℕ)))
      → ((selection : Option (ℕ × ℕ)) → r ≡ ok selection → IsOpen v selection)
      → let (v', outcomes) = after_tick (finish_tick parts tick status v r) in Step v outcomes v'
  unfolding finish_tick
  finish_tick-Step parts tick status v (raised e) o = (refl, refl)
  finish_tick-Step parts tick status v (ok selection) o =
      let (w, outcomes) = act_on parts tick status v selection in
      Step-SameGuards v v w outcomes _ (refl, refl) (refl, refl)
        (act_on-Step parts tick status v selection (o selection refl))

  keep_lookup-SameGuards : (v : Validator S) (r : _) → SameGuards v (keep_lookup v r).0
  keep_lookup-SameGuards v (chain, raised e) = (refl, refl)
  keep_lookup-SameGuards v (chain, ok uids) = (refl, refl)

  refresh-SameGuards :
      (parts : Parts S) (v : Validator S) → SameGuards v (refresh_miner_uid_lookup parts v).0
  unfolding refresh_miner_uid_lookup
  refresh-SameGuards parts v = elim (Option-cases parts.metagraph_source) [
    | inl e ↦ rw e (refl, refl)
    | inr (source, e) ↦ rw e (keep_lookup-SameGuards v (source.hotkeys v.chain))
  ]

  pub begin_tick-SameGuards :
      (parts : Parts S) (v : Validator S) → SameGuards v (begin_tick parts v).0
  unfolding begin_tick observe_weight_status
  begin_tick-SameGuards parts v = refresh-SameGuards parts v

  -- One turn of the loop: when it has no outcome both guards stay; else it has one, for an epoch
  -- above the last submitted one, and the guards become that epoch and the one after it.
  pub process_once-Step :
      (parts : Parts S) (tick : Tick) (v : Validator S)
      → let (v', outcomes) = after_tick (process_once parts tick v) in Step v outcomes v'
  unfolding process_once select_target_epoch
  process_once-Step parts tick v =
      let (w, status) = begin_tick parts v in
      let (chain, open_epoch) = parts.cursor.current_epoch w.chain in
      let w' = record w { chain = chain } in
      let r = select_at parts tick w open_epoch in
      let (x, outcomes) = after_tick (finish_tick parts tick status w' r) in
      let (a, b) = begin_tick-SameGuards parts v in
      Step-SameGuards v w' x outcomes x (a, b) (refl, refl)
        (finish_tick-Step parts tick status w' r
          (λ selection h. select_at-IsOpen parts tick w open_epoch selection h))

  IsClimbing-Step :
      (v v' : Validator S) (outcomes rest : List EpochOutcome)
      → Step v outcomes v'
      → IsClimbing v'.last_submitted_epoch rest
      → IsClimbing v.last_submitted_epoch (outcomes ++ rest)
  IsClimbing-Step v v' [] rest (a, b) c = rw (← a) c
  IsClimbing-Step v v' (o ∷ []) rest (above, a, b) c = (above, rw (← a) c)
  IsClimbing-Step v v' (o ∷ _ ∷ _) rest h c = absurd h

  -- Over any run the outcomes are for strictly increasing epochs, each above the one that was
  -- submitted last when the run began: no epoch comes out twice.
  pub run_loop-IsClimbing :
      (parts : Parts S) (ticks : List Tick) (v : Validator S)
      → IsClimbing v.last_submitted_epoch (run_loop parts ticks v).1
  unfolding run_loop
  run_loop-IsClimbing parts [] v = tt
  run_loop-IsClimbing parts (tick ∷ ticks) v =
      let (v', outcomes) = after_tick (process_once parts tick v) in
      IsClimbing-Step v v' outcomes (run_loop parts ticks v').1 (process_once-Step parts tick v)
        (run_loop-IsClimbing parts ticks v')
