-- ===== src/Scoring/Weights/Vector.antt =====
-- What `compute_weights` returns, and when it raises.
use Prim.Native.String.{String}
use gm_validator.Prelude.{
  ℕ, ◌≤◌, true, false, none, some, List, [], ◌∷◌, map, length, All, ◌≡◌, ◌≢◌, ◌⊎◌, refl, ◌∙◌, inl,
  inr, arith, Bool-cases, Option-cases,
}
use gm_validator.Prelude.Dict.{Dict, lookup}
use gm_validator.Decimal.{Decimal, mul, nought}
use gm_validator.Errors.{ok, raised, stale_metagraph, stale_epoch_summary}
use gm_validator.Metrics.{Metrics}
use gm_validator.Summary.{EpochSummary}
use gm_validator.Economics.Epoch.{
  MinerEpochData, EpochWeightsResult, compute_epoch_weights, weigh_miners, miner_emission_pct,
  is_positive,
}
use gm_validator.Economics.Normalize.{max_weight, positive_shares}
use gm_validator.Scoring.Rows.{MinerScore, Scores}
use gm_validator.Scoring.Weights.Known.{
  length-uids_by_index, length-miner_pairs, length-positive_shares,
}
use gm_validator.Scoring.Weights.{
  WeightVector, miner_data, uids_by_index, is_stale, all_missing, miner_pairs, route,
  compute_with_emissions, compute_weights,
}
use gm_validator.Scoring.Weights.Route.{
  IsSound, IsRouted, IsRouted-IsSound, vector_of, route-IsPayout, route-IsRouted,
}

all_missing_lem :
    (uid_lookup : Dict ℕ) (scores : Scores)
    → All (λ (entry : String × MinerScore). lookup entry.0 uid_lookup ≡ none) scores
    → all_missing (uids_by_index uid_lookup scores) ≡ true
unfolding uids_by_index
all_missing_lem uid_lookup [] h = refl
all_missing_lem uid_lookup ((id, s) ∷ scores) (h, hs) = rw h (all_missing_lem uid_lookup scores hs)

is_stale_missing :
    (uid_lookup : Dict ℕ) (scores : Scores)
    → scores ≢ []
    → All (λ (entry : String × MinerScore). lookup entry.0 uid_lookup ≡ none) scores
    → is_stale (uids_by_index uid_lookup scores) ≡ true
unfolding uids_by_index
is_stale_missing uid_lookup [] n h = absurd (n refl)
is_stale_missing uid_lookup (s ∷ scores) n h = all_missing_lem uid_lookup (s ∷ scores) h

-- Some scored miner is in the lookup.
abbrev pub HasKnown : Dict ℕ → Scores → Type 0
HasKnown uid_lookup [] = ⊥
HasKnown uid_lookup ((id, s) ∷ scores) =
    ((uid : ℕ) × (lookup id uid_lookup ≡ some uid)) ⊎ HasKnown uid_lookup scores

not_all_missing :
    (uid_lookup : Dict ℕ) (scores : Scores)
    → HasKnown uid_lookup scores
    → all_missing (uids_by_index uid_lookup scores) ≡ false
unfolding uids_by_index
not_all_missing uid_lookup [] h = absurd h
not_all_missing uid_lookup ((id, s) ∷ scores) (inl (uid, e)) = rw e refl
not_all_missing uid_lookup ((id, s) ∷ scores) (inr h) = elim (Option-cases (lookup id uid_lookup)) [
  | inl e ↦ rw e (not_all_missing uid_lookup scores h)
  | inr (uid, e) ↦ rw e refl
]

not_stale :
    (uid_lookup : Dict ℕ) (scores : Scores)
    → (scores ≡ []) ⊎ HasKnown uid_lookup scores
    → is_stale (uids_by_index uid_lookup scores) ≡ false
unfolding uids_by_index
not_stale uid_lookup [] h = refl
not_stale uid_lookup (s ∷ scores) (inl e) = cc
not_stale uid_lookup (s ∷ scores) (inr h) = not_all_missing uid_lookup (s ∷ scores) h

-- The pool computation succeeds on a positive price and positive emissions.
compute_epoch_weights_ok :
    (miners : List MinerEpochData) (price emissions : Decimal)
    → is_positive price ≡ true
    → is_positive emissions ≡ true
    → (r : EpochWeightsResult) × (compute_epoch_weights miners price emissions ≡ ok r)
unfolding compute_epoch_weights
compute_epoch_weights_ok miners price emissions p e =
    (weigh_miners (mul (mul emissions miner_emission_pct) price) miners nought, rw (p, e))

module _ (scores : Scores) (uid_lookup : Dict ℕ) (summary : EpochSummary) (owner : ℕ)
    (multiplier : Decimal) (m : Metrics) where
  -- An artifact without emissions is refused as stale, before anything else is looked at.
  pub compute_weights_stale_summary :
      summary.emissions_alpha ≡ none
      → compute_weights scores uid_lookup summary owner multiplier m
        ≡ (m, raised stale_epoch_summary)
  unfolding compute_weights
  compute_weights_stale_summary h = rw (compute_weights, h)

  with_emissions :
      {e : Decimal}
      → summary.emissions_alpha ≡ some e
      → compute_weights scores uid_lookup summary owner multiplier m
        ≡ compute_with_emissions scores uid_lookup summary e owner multiplier m
  unfolding compute_weights
  with_emissions h = simp (compute_weights, h)

  with_emissions_stale :
      (e : Decimal)
      → is_stale (uids_by_index uid_lookup scores) ≡ true
      → compute_with_emissions scores uid_lookup summary e owner multiplier m
        ≡ (m, raised stale_metagraph)
  unfolding compute_with_emissions
  with_emissions_stale e h = rw (compute_with_emissions, h)

  with_emissions_fresh :
      (e : Decimal)
      → is_stale (uids_by_index uid_lookup scores) ≡ false
      → compute_with_emissions scores uid_lookup summary e owner multiplier m
        ≡ route
            (uids_by_index uid_lookup scores)
            owner
            (compute_epoch_weights (map (miner_data multiplier) scores) summary.alpha_price_usd e)
            m
  unfolding compute_with_emissions
  with_emissions_fresh e h = rw (compute_with_emissions, h)

  compute_with_emissions-IsRouted :
      (e : Decimal) (v : WeightVector)
      → (compute_with_emissions scores uid_lookup summary e owner multiplier m).1 ≡ ok v
      → IsRouted (uids_by_index uid_lookup scores) owner v
  compute_with_emissions-IsRouted e v h =
      elim (Bool-cases (is_stale (uids_by_index uid_lookup scores))) [
        | inl stale ↦ cc (with_emissions_stale e stale)
        | inr fresh ↦
            route-IsRouted (uids_by_index uid_lookup scores) owner _ m v
              (rw (with_emissions_fresh e fresh) at h)
      ]

  pub compute_weights-IsRouted :
      (v : WeightVector)
      → (compute_weights scores uid_lookup summary owner multiplier m).1 ≡ ok v
      → IsRouted (uids_by_index uid_lookup scores) owner v
  compute_weights-IsRouted v h = elim (Option-cases summary.emissions_alpha) [
    | inl old ↦ cc (compute_weights_stale_summary old)
    | inr (e, found) ↦ compute_with_emissions-IsRouted e v (rw (with_emissions found) at h)
  ]

  -- Whatever `compute_weights` returns can be submitted: its weights sum to 65535 and each is at
  -- least 1, its uids are as many, and each of them is a miner's of the lookup or the subnet owner's.
  pub compute_weights-IsSound :
      (v : WeightVector)
      → (compute_weights scores uid_lookup summary owner multiplier m).1 ≡ ok v
      → IsSound uid_lookup owner v
  compute_weights-IsSound v h =
      IsRouted-IsSound uid_lookup scores owner v (compute_weights-IsRouted v h)

  -- With emissions, when some miner has a score and the lookup has no scored miner, the metagraph is
  -- stale.
  pub compute_weights_stale_metagraph :
      (e : Decimal)
      → summary.emissions_alpha ≡ some e
      → scores ≢ []
      → All (λ (entry : String × MinerScore). lookup entry.0 uid_lookup ≡ none) scores
      → compute_weights scores uid_lookup summary owner multiplier m ≡ (m, raised stale_metagraph)
  compute_weights_stale_metagraph e found some_scores missing =
      with_emissions found
      ∙ with_emissions_stale e (is_stale_missing uid_lookup scores some_scores missing)

  -- It does return: with a positive price and positive emissions, at most 65535 scored miners, and no
  -- scored miner at all or one of them in the lookup.
  pub compute_weights_returns :
      (e : Decimal)
      → summary.emissions_alpha ≡ some e
      → is_positive summary.alpha_price_usd ≡ true
      → is_positive e ≡ true
      → length scores ≤ max_weight
      → (scores ≡ []) ⊎ HasKnown uid_lookup scores
      → (v : WeightVector) × ((compute_weights scores uid_lookup summary owner multiplier m).1
          ≡ ok v)
  compute_weights_returns e found price emissions small known =
      let uids = uids_by_index uid_lookup scores in
      let (r, computed) =
        compute_epoch_weights_ok (map (miner_data multiplier) scores) summary.alpha_price_usd e
          price emissions in
      let pairs = miner_pairs r.miners uids in
      let fits : length (positive_shares pairs) ≤ max_weight = omega (
        arith,
        length-positive_shares pairs,
        length-miner_pairs r.miners uids,
        length-uids_by_index uid_lookup scores,
      ) in
      let (es, routed, p) = route-IsPayout uids owner r m fits in
      (
        vector_of owner r es,
        rw
            (
              with_emissions found,
              with_emissions_fresh e (not_stale uid_lookup scores known),
              computed,
            )
            routed,
      )
