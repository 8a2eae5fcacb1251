-- ===== src/Validator/Progress/Ticks.antt =====
-- When a tick submits: from the selection to the outcome.
use gm_validator.Prelude.{ℕ, suc, true, false, Option, some, List, [], ◌∷◌, ◌≡◌, refl, ap, ◌∙◌}
use gm_validator.Errors.{Result, ok, raised}
use gm_validator.Adapter.{ValidatorWeightStatus}
use gm_validator.Scoring.Rows.{Scores}
use gm_validator.Validator.State.{EpochOutcome, Validator, Parts, Tick}
use gm_validator.Validator.Target.{select_at, select_target_epoch}
use gm_validator.Validator.Process.{outcome_of, settle_target, process_target_epoch}
use gm_validator.Validator.Loop.{
  in_window, outcomes_of, act_on, finish_tick, begin_tick, process_once,
}
use gm_validator.Validator.Selection.{IsDue, select_at_due}
use gm_validator.Validator.Progress.{IsGood, IsTaken, process_epoch_good}

module _ {S : Type 0} (parts : Parts S) (tick : Tick) (v : Validator S) (closed : ℕ) where
  -- The newest closed epoch is selected and may be acted on, in the state after the lookup's refresh
  -- and with the weight status that the tick goes by.
  pub record IsNext (status : Option ValidatorWeightStatus) : Type 0 where
    pub allowed : in_window status ≡ false
    pub opened : (parts.cursor.current_epoch v.chain).1 ≡ some (suc closed)
    pub due : IsDue tick v closed

  -- All that a tick needs to submit for it.
  pub record IsReady (status : Option ValidatorWeightStatus) (scores : Scores) : Type 0 where
    pub next : IsNext status
    pub good : IsGood parts tick closed v.disk v.miner_uid_lookup scores
    pub taken : IsTaken parts tick closed (parts.cursor.current_epoch v.chain).0

module _ {S : Type 0} (parts : Parts S) (tick : Tick) where
  settle_target-outcome :
      (open_epoch epoch : ℕ) (o : EpochOutcome) (r : Validator S × Result EpochOutcome)
      → r.1 ≡ ok o
      → (settle_target open_epoch epoch r).1 ≡ some o
  settle_target-outcome open_epoch epoch o (v, raised e) h = cc
  settle_target-outcome open_epoch epoch o (v, ok x) h = cc

  act_on_good :
      (status : Option ValidatorWeightStatus) (v : Validator S) (closed : ℕ) (scores : Scores)
      → in_window status ≡ false
      → IsGood parts tick closed v.disk v.miner_uid_lookup scores
      → IsTaken parts tick closed v.chain
      → (act_on parts tick status v (some (suc closed, closed))).1
        ≡ outcome_of closed true scores ∷ []
  unfolding act_on process_target_epoch
  act_on_good status v closed scores allowed good taken = rw allowed (
      ap outcomes_of (
        settle_target-outcome (suc closed) closed _ _
          (process_epoch_good parts tick closed v scores good taken)))

  pub finish_tick_selected :
      (status : Option ValidatorWeightStatus) (v : Validator S) (selection : Option (ℕ × ℕ))
      (outcomes : List EpochOutcome)
      → (act_on parts tick status v selection).1 ≡ outcomes
      → (finish_tick parts tick status v (ok selection)).1 ≡ ok outcomes
  unfolding finish_tick
  finish_tick_selected status v selection outcomes h = rw h refl

  -- The tick acts on the closed epoch that is next.
  pub process_once_next :
      (v : Validator S) (closed : ℕ)
      → IsNext parts tick (begin_tick parts v).0 closed (begin_tick parts v).1
      → let (w, status) = begin_tick parts v in
        let chain = (parts.cursor.current_epoch w.chain).0 in
        process_once parts tick v
        ≡ finish_tick parts tick status
            (record w { chain = chain })
            (ok (some (suc closed, closed)))
  unfolding process_once select_target_epoch
  process_once_next v closed next =
      let (w, status) = begin_tick parts v in
      let selected =
        ap (select_at parts tick w) (next.opened) ∙ select_at_due parts tick w closed (next.due) in
      rw selected refl

  -- A tick that is ready submits: outside the rate-limit window, with a newest closed epoch that is
  -- due, its artifacts on the disk or in the bucket and good, and a chain that takes the vector, the
  -- tick ends without an exception and its one outcome is the submission of that epoch's scores.
  pub process_once_ready :
      (v : Validator S) (closed : ℕ) (scores : Scores)
      → IsReady parts tick (begin_tick parts v).0 closed (begin_tick parts v).1 scores
      → (process_once parts tick v).1 ≡ ok (outcome_of closed true scores ∷ [])
  process_once_ready v closed scores ready =
      let (w, status) = begin_tick parts v in
      let x = record w { chain = (parts.cursor.current_epoch w.chain).0 } in
      rw (process_once_next v closed (ready.next)) (
        finish_tick_selected status x (some (suc closed, closed)) _
          (act_on_good status x closed scores (ready.next.allowed) (ready.good) (ready.taken)))
