-- ===== src/Validator/Ledger/Runs.antt =====
-- The record of calls of the in-memory chain over a run.
use mathlib.Core.List.{append-nil, append_assoc, map-append}
use gm_validator.Prelude.{ℕ, List, [], ◌∷◌, ◌++◌, map, ◌≡◌, sym, ap, ◌∙◌}
use Prim.Native.String.{String}
use gm_validator.Errors.{Result}
use gm_validator.Adapter.{SubmitCall, Mock}
use gm_validator.Config.{ValidatorConfig}
use gm_validator.Mirror.{File}
use gm_validator.Summary.{EpochSummary}
use gm_validator.Scoring.Json.{Json}
use gm_validator.Validator.State.{EpochOutcome, Validator, Tick}
use gm_validator.Validator.Loop.{process_once, after_tick, run_loop}
use gm_validator.Validator.Ledger.{mock_parts, call_of, Turn, process_once-Turn}

-- The epochs of the calls, and of the outcomes.
abbrev pub sent : List SubmitCall → List ℕ
sent = map λ (c : SubmitCall). c.epoch_id

abbrev pub told : List EpochOutcome → List ℕ
told = map λ (o : EpochOutcome). o.epoch_id

module _ (config : ValidatorConfig ℕ) (loads : String → Result Json)
    (validate : File → Result EpochSummary) where
  Turn-sent :
      (tick : Tick) (v w : Validator Mock) (outcomes : List EpochOutcome)
      → Turn config loads validate tick v (w, outcomes)
      → sent w.chain.calls ≡ sent v.chain.calls ++ told outcomes
  Turn-sent tick v w [] t = ap sent t ∙ sym (append-nil (sent v.chain.calls))
  Turn-sent tick v w (o ∷ []) (epoch, p) =
      ap sent (p.called)
      ∙ map-append (λ (c : SubmitCall). c.epoch_id) v.chain.calls
          (call_of config loads validate epoch p.vector ∷ [])
      ∙ ap (λ (o : EpochOutcome). sent v.chain.calls ++ (o.epoch_id ∷ [])) (sym (p.told))
  Turn-sent tick v w (_ ∷ _ ∷ _) t = absurd t

  -- Over a run against the in-memory chain the calls are, epoch by epoch, those that were there and
  -- then those of the outcomes: every submission has its outcome, and every outcome its submission.
  pub run_loop-sent :
      (ticks : List Tick) (v : Validator Mock)
      → let (v', outcomes) = run_loop (mock_parts config loads validate) ticks v in
        sent v'.chain.calls ≡ sent v.chain.calls ++ told outcomes
  unfolding run_loop
  run_loop-sent [] v = sym (append-nil (sent v.chain.calls))
  run_loop-sent (tick ∷ ticks) v =
      let (w, outcomes) = after_tick (process_once (mock_parts config loads validate) tick v) in
      let rest = (run_loop (mock_parts config loads validate) ticks w).1 in
      run_loop-sent ticks w
      ∙ ap (λ es. es ++ told rest)
          (Turn-sent tick v w outcomes (process_once-Turn config loads validate tick v))
      ∙ append_assoc (sent v.chain.calls) (told outcomes) (told rest)
      ∙ ap (λ es. sent v.chain.calls ++ es)
          (sym (map-append (λ (o : EpochOutcome). o.epoch_id) outcomes rest))
