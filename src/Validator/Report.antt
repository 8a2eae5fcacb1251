-- ===== src/Validator/Report.antt =====
-- What a tick logs: `_format_weight_vector` and `_log_tick_summary`. Texts are lists of code points.
use gm_validator.Prelude.{
  ℕ, Bool, false, Option, none, some, List, [], ◌∷◌, ◌++◌, ◌&&◌, ◌==◌, length, if◌then◌else◌, ◌≡◌,
  ◌≢◌,
}
use mathlib.Core.Path.{subst}
use gm_validator.Prelude.{some_injective}
use gm_validator.Prelude.Text.{codes}
use gm_validator.Prelude.Print.{print_nat}
use gm_validator.Errors.{Result, ok, raised, value_error}
use gm_validator.Adapter.{ValidatorWeightStatus}
use gm_validator.Config.Parsers.{Text}
use gm_validator.Economics.Normalize.{max_weight}
use gm_validator.Scoring.Weights.{WeightVector}
use gm_validator.Validator.State.{EpochOutcome, Refresh, Validator, Parts, Tick}
use gm_validator.Validator.Target.{refresh_miner_uid_lookup, select_target_epoch}
use gm_validator.Prelude.Dict.{Dict}
use gm_validator.Validator.Submission.{AllSent, Keeps, act_on-Sent}
use gm_validator.Validator.Loop.{act_on, begin_tick}

-- `zip(uids, weights, strict=True)`
abbrev zip_strict : List ℕ → List ℕ → Result (List (ℕ × ℕ))
zip_strict [] [] = ok []
zip_strict (u ∷ us) (w ∷ ws) = elim (zip_strict us ws) [
  | raised e ↦ raised e
  | ok pairs ↦ ok ((u, w) ∷ pairs)
]
zip_strict _ _ = raised value_error

abbrev pair_text : ℕ × ℕ → Text
pair_text (u, w) = codes "(" ++ (print_nat u ++ (codes "," ++ (print_nat w ++ codes ")")))

-- `", ".join(...)`
abbrev joined : List (ℕ × ℕ) → Text
joined [] = []
joined (p ∷ []) = pair_text p
joined (p ∷ q ∷ ps) = pair_text p ++ (codes ", " ++ joined (q ∷ ps))

-- `pairs == [(burn_uid, MAX_WEIGHT)]`
abbrev is_all_burn : ℕ → List (ℕ × ℕ) → Bool
is_all_burn burn ((u, w) ∷ []) = u == burn && w == max_weight
is_all_burn burn _ = false

abbrev pairs_text : ℕ → List (ℕ × ℕ) → Text
pairs_text burn pairs =
    let body = codes "[" ++ (joined pairs ++ codes "]") in
    if is_all_burn burn pairs then codes "all-burn " ++ body else body

unfoldable pub format_weight_vector : WeightVector → Result Text
format_weight_vector v = elim (zip_strict v.uids v.weights) [
  | raised e ↦ raised e
  | ok pairs ↦ ok (pairs_text v.burn_uid pairs)
]

-- The word for what became of the weights.
pub data Disposition : Type 0 where
  submitted scored_no_submit deferred idle : Disposition

-- The values of the line that ends a tick.
pub record TickSummary : Type 0 where
  pub target : Option ℕ
  pub miners : ℕ
  pub disposition : Disposition
  pub entries : ℕ
  pub status : Refresh

abbrev target_of : Option (ℕ × ℕ) → Option ℕ
target_of none = none
target_of (some (open_epoch, target)) = some target

abbrev pub disposition_of : Option (ℕ × ℕ) → List EpochOutcome → Disposition
disposition_of none [] = idle
disposition_of (some selection) [] = deferred
disposition_of selection (o ∷ outcomes) =
    if o.weights_submitted then submitted else scored_no_submit

abbrev miners_of : List EpochOutcome → ℕ
miners_of [] = 0
miners_of (o ∷ outcomes) = o.miner_count

unfoldable pub tick_summary : Option (ℕ × ℕ) → List EpochOutcome → ℕ → Refresh → TickSummary
tick_summary selection outcomes entries status = record {
  target = target_of selection;
  miners = miners_of outcomes;
  disposition = disposition_of selection outcomes;
  entries = entries;
  status = status;
}

disposition_sent :
    (selection : Option (ℕ × ℕ)) (outcomes : List EpochOutcome)
    → AllSent outcomes
    → disposition_of selection outcomes ≢ scored_no_submit
disposition_sent none [] h e = cc
disposition_sent (some s) [] h e = cc
disposition_sent none (o ∷ outcomes) (h, hs) e = cc (rw h at e)
disposition_sent (some s) (o ∷ outcomes) (h, hs) e = cc (rw h at e)

module _ {S : Type 0} where
  -- The summary that `process_once` logs at its end; a tick that an exception ends has none.
  abbrev summary_after :
      Parts S
      → Tick
      → ℕ × Refresh
      → Option ValidatorWeightStatus
      → Validator S
      → Result (Option (ℕ × ℕ))
      → Option TickSummary
  summary_after parts tick (entries, word) status v (raised e) = none
  summary_after parts tick (entries, word) status v (ok selection) =
      some (tick_summary selection (act_on parts tick status v selection).1 entries word)

  unfoldable pub logged : Parts S → Tick → Validator S → Option TickSummary
  unfolding tick_summary
  logged parts tick v =
      let (looked_up, word) = refresh_miner_uid_lookup parts v in
      let (v', status) = begin_tick parts v in
      let (v'', selection) = select_target_epoch parts tick v' in
      summary_after parts tick (length looked_up.miner_uid_lookup, word) status v'' selection

  any_state : (parts : Parts S) → Keeps (λ (s : S). Unit {0}) (λ (uids : Dict ℕ). Unit {0}) parts
  any_state parts = record {
    on_submit = λ uids v epoch s known fine apart p. tt;
    on_status = λ s p. tt;
    on_cursor = λ s p. tt;
    on_hotkeys = λ source s made p. tt;
    on_lookup = λ source s uids made p h. tt;
  }

  summary_after-Sent :
      (parts : Parts S) (tick : Tick) (lookup_part : ℕ × Refresh) (status : _) (v : Validator S)
      (r : Result (Option (ℕ × ℕ))) (line : TickSummary)
      → summary_after parts tick lookup_part status v r ≡ some line
      → line.disposition ≢ scored_no_submit
  unfolding tick_summary
  summary_after-Sent parts tick lookup_part status v (raised e) line h = cc
  summary_after-Sent parts tick lookup_part status v (ok selection) line h =
      let (_, sent) =
        act_on-Sent (λ (s : S). Unit {0}) (λ (uids : Dict ℕ). Unit {0}) parts (any_state parts) tick
          status v selection (tt, tt) in
      subst (λ (l : TickSummary). l.disposition ≢ scored_no_submit) (some_injective h)
        (disposition_sent selection (act_on parts tick status v selection).1 sent)

  -- No tick logs the word for weights that were scored and not submitted.
  pub logged_disposition :
      (parts : Parts S) (tick : Tick) (v : Validator S) (line : TickSummary)
      → logged parts tick v ≡ some line
      → line.disposition ≢ scored_no_submit
  unfolding logged
  logged_disposition parts tick v line h =
      summary_after-Sent parts tick _ (begin_tick parts v).1 _ _ line h
