-- ===== src/Validator/Guards.antt =====
-- The two guards of `Validator`, `_last_submitted_epoch` and `_last_submitted_open_epoch`: what writes
-- them while an epoch is processed.
use gm_validator.Prelude.{
  ℕ, suc, ◌<◌, Option, none, some, List, [], ◌∷◌, ◌≡◌, refl, sym, ap, ◌∙◌, Bool-cases, inl, inr,
}
use gm_validator.Errors.{Error, Result, ok, raised, stale_epoch_summary}
use gm_validator.Validator.State.{EpochOutcome, Validator, Parts, Tick}
use gm_validator.Validator.Process.{
  after_error, after_submit, submit_vector, weigh_and_submit, process_epoch, settle_target,
  process_target_epoch, is_empty,
}
use gm_validator.Validator.Loop.{outcomes_of}

-- The epoch is above the last one.
abbrev pub IsAbove : ℕ → Option ℕ → Type 0
IsAbove epoch none = Unit
IsAbove epoch (some last) = last < epoch

abbrev pub IsFor : ℕ → Result EpochOutcome → Type 0
IsFor epoch (raised e) = Unit
IsFor epoch (ok o) = o.epoch_id ≡ epoch

module _ {S : Type 0} where
  abbrev pub SameGuards : Validator S → Validator S → Type 0
  SameGuards v v' =
      (v'.last_submitted_epoch ≡ v.last_submitted_epoch)
      × (v'.last_submitted_open_epoch ≡ v.last_submitted_open_epoch)

  -- Processing an epoch leaves the guards alone; an outcome is the epoch's.
  abbrev Processed : ℕ → Validator S → Validator S × Result EpochOutcome → Type 0
  Processed epoch v r = SameGuards v r.0 × IsFor epoch r.1

  after_submit-Processed :
      (tick : Tick) (epoch : ℕ) (scores : _) (v : Validator S) (r : S × Result (Unit {0}))
      → Processed epoch v (after_submit tick epoch scores v r)
  after_submit-Processed tick epoch scores v (chain, raised e) = ((refl, refl), tt)
  after_submit-Processed tick epoch scores v (chain, ok u) = ((refl, refl), refl)

  submit_vector-Processed :
      (parts : Parts S) (tick : Tick) (epoch : ℕ) (scores : _) (v : Validator S) (r : _)
      → Processed epoch v (submit_vector parts tick epoch scores v r)
  unfolding submit_vector
  submit_vector-Processed parts tick epoch scores v (raised e) = ((refl, refl), tt)
  submit_vector-Processed parts tick epoch scores v (ok vector) =
      elim (Bool-cases (is_empty vector.uids)) [
        | inl e ↦ rw e ((refl, refl), refl)
        | inr e ↦ rw e (after_submit-Processed tick epoch scores v _)
      ]

  weigh_and_submit-Processed :
      (parts : Parts S) (tick : Tick) (epoch : ℕ) (v : Validator S) (r : _)
      → Processed epoch v (weigh_and_submit parts tick epoch v r)
  unfolding weigh_and_submit
  weigh_and_submit-Processed parts tick epoch v (raised e) = ((refl, refl), tt)
  weigh_and_submit-Processed parts tick epoch v (ok (scores, summary)) =
      submit_vector-Processed parts tick epoch scores _ _

  process_epoch-Processed :
      (parts : Parts S) (tick : Tick) (epoch : ℕ) (v : Validator S)
      → Processed epoch v (process_epoch parts tick epoch v)
  unfolding process_epoch
  process_epoch-Processed parts tick epoch v = weigh_and_submit-Processed parts tick epoch _ _

  after_error-SameGuards :
      (epoch : ℕ) (v : Validator S) (e : Error) → SameGuards v (after_error epoch v e)
  after_error-SameGuards epoch v stale_epoch_summary = (refl, refl)
  after_error-SameGuards epoch v _ = (refl, refl)

  -- What the outcomes of a tick say of the guards before and after it.
  abbrev pub Step : Validator S → List EpochOutcome → Validator S → Type 0
  Step v [] v' = SameGuards v v'
  Step v (o ∷ []) v' =
      IsAbove o.epoch_id v.last_submitted_epoch
      × (v'.last_submitted_epoch ≡ some o.epoch_id)
      × (v'.last_submitted_open_epoch ≡ some (suc o.epoch_id))
  Step v (_ ∷ _ ∷ _) v' = ⊥

  settle_target-Step :
      (epoch : ℕ) (v : Validator S) (r : Validator S × Result EpochOutcome)
      → IsAbove epoch v.last_submitted_epoch
      → Processed epoch v r
      → let (v', outcome) = settle_target (suc epoch) epoch r in Step v (outcomes_of outcome) v'
  settle_target-Step epoch v (v', raised e) above ((e_last, e_open), p) =
      let (last', open') = after_error-SameGuards epoch v' e in (last' ∙ e_last, open' ∙ e_open)
  settle_target-Step epoch v (v', ok o) above (same, p) =
      (rw p above, ap some (sym p), ap (λ n. some (suc n)) (sym p))

  pub process_target_epoch-Step :
      (parts : Parts S) (tick : Tick) (epoch : ℕ) (v : Validator S)
      → IsAbove epoch v.last_submitted_epoch
      → let (v', outcome) = process_target_epoch parts tick (suc epoch) epoch v in
        Step v (outcomes_of outcome) v'
  unfolding process_target_epoch
  process_target_epoch-Step parts tick epoch v above =
      settle_target-Step epoch v _ above (process_epoch-Processed parts tick epoch v)
