-- ===== src/Scoring/Weights/Tests.antt =====
-- Two miners, one of them in the lookup, and the theorems about them.
use gm_validator.Prelude.Dict.{OneToOne, insert-OneToOne}
use gm_validator.Scoring.Weights.Distinct.{NoRepeat, compute_weights-NoRepeat}
use gm_validator.Prelude.{◌≡◌, refl, [], ◌∷◌, none, some, inl, inr, arith, ℕ}
use gm_validator.Prelude.Int.{pos}
use gm_validator.Prelude.Dict.{Dict}
use gm_validator.Decimal.{Decimal, one, lt}
use gm_validator.Errors.{ok, raised, stale_metagraph, stale_epoch_summary}
use gm_validator.Metrics.{fresh_metrics}
use gm_validator.Summary.{EpochSummary}
use gm_validator.Scoring.Rows.{Scores, empty_score}
use gm_validator.Scoring.Weights.{WeightVector, compute_weights}
use gm_validator.Scoring.Weights.Vector.{
  compute_weights_stale_summary, compute_weights_stale_metagraph, compute_weights_returns,
  compute_weights-IsSound,
}
use gm_validator.Scoring.Weights.Route.{IsSound}

abbrev scores : Scores
scores =
    ("5Alice", record (empty_score "5Alice") { earnings_ndollars = pos 5000000000 })
    ∷ ("5Bob", record (empty_score "5Bob") { earnings_ndollars = pos 70 })
    ∷ []

abbrev known : Dict ℕ
known = ("5Alice", 7) ∷ []

abbrev summary : EpochSummary
summary = record {
  epoch_id = 41;
  finalized_at = "";
  alpha_price_in_tao = one;
  tao_price_usd = one;
  alpha_price_usd = one;
  emissions_alpha = some (record { coef = pos 148; exp = pos 0 });
  price_block_height = 1;
  price_alpha_source = "";
  price_tao_usd_source = "";
  emissions_alpha_source = none;
  finalizer_version = "";
}

abbrev emissions : Decimal
emissions = record { coef = pos 148; exp = pos 0 }

abbrev old_summary : EpochSummary
old_summary = record summary { emissions_alpha = none }

compute_weights_stale_summary_example :
    compute_weights scores known old_summary 0 one fresh_metrics
    ≡ (fresh_metrics, raised stale_epoch_summary)
compute_weights_stale_summary_example =
    compute_weights_stale_summary scores known old_summary 0 one fresh_metrics refl

compute_weights_stale_metagraph_example :
    compute_weights scores [] summary 0 one fresh_metrics ≡ (fresh_metrics, raised stale_metagraph)
compute_weights_stale_metagraph_example =
    compute_weights_stale_metagraph scores [] summary 0 one fresh_metrics emissions refl (λ e. cc)
      (refl, (refl, tt))

compute_weights_returns_example :
    (v : WeightVector) × ((compute_weights scores known summary 0 one fresh_metrics).1 ≡ ok v)
unfolding lt
compute_weights_returns_example =
    compute_weights_returns scores known summary 0 one fresh_metrics emissions refl refl refl
      (omega arith) (inr (inl (7, refl)))

returned :
    (v : WeightVector) × ((compute_weights scores known summary 0 one fresh_metrics).1 ≡ ok v)
unfolding lt
returned =
    compute_weights_returns scores known summary 0 one fresh_metrics emissions refl refl refl
      (omega arith) (inr (inl (7, refl)))

compute_weights-IsSound_example : IsSound known 0 (returned.0)
compute_weights-IsSound_example =
    compute_weights-IsSound scores known summary 0 one fresh_metrics (returned.0) (returned.1)

alice_only : OneToOne known
alice_only = insert-OneToOne "5Alice" 7 [] (λ key n e. cc) (λ key other n e f. cc)

compute_weights-NoRepeat_example : NoRepeat (returned.0).uids
compute_weights-NoRepeat_example =
    compute_weights-NoRepeat scores known summary 0 one fresh_metrics (returned.0)
      (refl, (refl, tt)) alice_only (returned.1)
