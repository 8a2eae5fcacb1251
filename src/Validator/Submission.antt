-- ===== src/Validator/Submission.antt =====
-- What the validator sends to the chain.
pub mod Runs
use gm_validator.Prelude.{
  ℕ, true, false, Option, none, some, List, [], ◌∷◌, ◌++◌, ◌≡◌, refl, sym, length, sum, All,
  Bool-cases, Option-cases, inl, inr,
}
use mathlib.Core.Path.{subst}
use gm_validator.Prelude.Dict.{Dict}
use gm_validator.Errors.{Error, Result, ok, raised, stale_epoch_summary}
use gm_validator.Prelude.Dict.{OneToOne, IsKeyed}
use gm_validator.Errors.{unbind, unbind_then, ok_injective, ◌>>◌}
use gm_validator.Prelude.{ap, ◌∙◌}
use gm_validator.Mirror.{Disk, aggregated, read_file, mirror_epoch}
use gm_validator.Summary.{EpochSummary}
use gm_validator.Scoring.Rows.{load_aggregated}
use gm_validator.Scoring.Rows.Keys.{score-IsKeyed}
use gm_validator.Scoring.Weights.Distinct.{NoRepeat, compute_weights-NoRepeat}
use gm_validator.Validator.Process.{open_file, load_scores, load_epoch_summary, load_inputs}
use gm_validator.Adapter.{MetagraphSource}
use gm_validator.Economics.Normalize.{max_weight}
use gm_validator.Scoring.Rows.{Scores}
use gm_validator.Scoring.Weights.{WeightVector}
use gm_validator.Scoring.Weights.Route.{IsSubmittable}
use gm_validator.Scoring.Weights.Vector.{compute_weights-IsSound}
use gm_validator.Validator.State.{static, EpochOutcome, Validator, Parts, Tick}
use gm_validator.Validator.Target.{
  keep_lookup, refresh_miner_uid_lookup, observe_weight_status, select_target_epoch,
}
use gm_validator.Validator.Process.{
  after_error, after_submit, submit_vector, weigh_and_submit, process_epoch, settle_target,
  process_target_epoch, is_empty,
}
use gm_validator.Validator.Keyed.{load_inputs-IsKeyed}
use gm_validator.Validator.Loop.{
  in_window, outcomes_of, act_on, finish_tick, begin_tick, process_once, after_tick, run_loop,
}

-- A vector that spends the whole budget has an entry.
pub uids_nonempty :
    (uids weights : List ℕ)
    → sum weights ≡ max_weight
    → length uids ≡ length weights
    → is_empty uids ≡ false
uids_nonempty [] [] s e = cc
uids_nonempty [] (w ∷ ws) s e = cc
uids_nonempty (u ∷ us) ws s e = refl

abbrev pub AllSent : List EpochOutcome → Type 0
AllSent = All λ (o : EpochOutcome). o.weights_submitted ≡ true

module _ {S : Type 0} (P : S → Type 0) (K : Dict ℕ → Type 0) where
  -- The chain objects keep a property through every call that the validator can make of them; it
  -- submits only vectors that can be submitted, on the subnet of its settings, and without a repeated
  -- uid where the lookup has none. What they give as a lookup has a property as well.
  pub record Keeps (parts : Parts S) : Type 0 where
    pub on_submit :
        (uids : Dict ℕ) (v : WeightVector) (epoch : ℕ) (s : S)
        → K uids
        → IsSubmittable v
        → (OneToOne uids → NoRepeat v.uids)
        → P s
        → P (parts.submitter.submit parts.config.bittensor_netuid v.uids v.weights epoch s).0
    pub on_status : (s : S) → P s → P (parts.submitter.weight_status s).0
    pub on_cursor : (s : S) → P s → P (parts.cursor.current_epoch s).0
    pub on_hotkeys :
        (source : MetagraphSource S) (s : S)
        → parts.metagraph_source ≡ some source
        → P s
        → P (source.hotkeys s).0
    pub on_lookup :
        (source : MetagraphSource S) (s : S) (uids : Dict ℕ)
        → parts.metagraph_source ≡ some source
        → P s
        → (source.hotkeys s).1 ≡ ok uids
        → K uids

  abbrev pub Holds : Validator S → Type 0
  Holds v = P (v.chain) × K v.miner_uid_lookup

  -- An outcome tells of a submission.
  abbrev Sent : Result EpochOutcome → Type 0
  Sent (raised e) = Unit
  Sent (ok o) = o.weights_submitted ≡ true

  abbrev Processed : Validator S × Result EpochOutcome → Type 0
  Processed r = Holds r.0 × Sent r.1

  module _ (parts : Parts S) (keeps : Keeps parts) (tick : Tick) where
    after_submit-Processed :
        (epoch : ℕ) (scores : Scores) (v : Validator S) (r : S × Result (Unit {0}))
        → P r.0
        → K v.miner_uid_lookup
        → Processed (after_submit tick epoch scores v r)
    after_submit-Processed epoch scores v (chain, raised e) p k = ((p, k), tt)
    after_submit-Processed epoch scores v (chain, ok u) p k = ((p, k), refl)

    submit_vector-Processed :
        (epoch : ℕ) (scores : Scores) (v : Validator S) (r : Result WeightVector)
        → ((vector : WeightVector)
            → r ≡ ok vector
            → IsSubmittable vector × (OneToOne v.miner_uid_lookup → NoRepeat vector.uids))
        → Holds v
        → Processed (submit_vector parts tick epoch scores v r)
    unfolding submit_vector
    submit_vector-Processed epoch scores v (raised e) good p = (p, tt)
    submit_vector-Processed epoch scores v (ok vector) good (p, k) =
        let (fine, apart) = good vector refl in
        rw (uids_nonempty vector.uids vector.weights (fine.whole) (fine.aligned)) (
          after_submit-Processed epoch scores v _
            (keeps.on_submit v.miner_uid_lookup vector epoch v.chain k fine apart p) k)

    weigh_and_submit-Processed :
        (epoch : ℕ) (v : Validator S) (r : Result (Scores × EpochSummary))
        → ((scores : Scores) (summary : EpochSummary) → r ≡ ok (scores, summary) → IsKeyed scores)
        → Holds v
        → Processed (weigh_and_submit parts tick epoch v r)
    unfolding weigh_and_submit
    weigh_and_submit-Processed epoch v (raised e) keyed p = (p, tt)
    weigh_and_submit-Processed epoch v (ok (scores, summary)) keyed p =
        let owner = parts.config.subnet_owner_uid in
        let multiplier = parts.config.weight_earnings_multiplier in
        submit_vector-Processed epoch scores _ _
          (λ vector h. (
            (compute_weights-IsSound scores v.miner_uid_lookup summary owner multiplier v.metrics
                vector h).0,
            λ apart.
                compute_weights-NoRepeat scores v.miner_uid_lookup summary owner multiplier
                  v.metrics vector (keyed scores summary refl) apart h,
          ))
          p

    process_epoch-Processed :
        (epoch : ℕ) (v : Validator S) → Holds v → Processed (process_epoch parts tick epoch v)
    unfolding process_epoch
    process_epoch-Processed epoch v p =
        let (disk, mirrored) = mirror_epoch tick.bucket epoch v.disk in
        weigh_and_submit-Processed epoch (record v { disk = disk })
          (mirrored >> load_inputs parts epoch disk)
          (λ scores summary h.
            load_inputs-IsKeyed parts epoch disk scores summary
              ((unbind_then mirrored (load_inputs parts epoch disk) h).1))
          p

    after_error-Holds :
        (epoch : ℕ) (v : Validator S) (e : Error) → Holds v → Holds (after_error epoch v e)
    after_error-Holds epoch v stale_epoch_summary p = p
    after_error-Holds epoch v _ p = p

    settle_target-Sent :
        (open_epoch epoch : ℕ) (r : _)
        → Processed r
        → let (v', outcome) = settle_target open_epoch epoch r in
          Holds v' × AllSent (outcomes_of outcome)
    settle_target-Sent open_epoch epoch (v, raised e) (p, s) = (after_error-Holds epoch v e p, tt)
    settle_target-Sent open_epoch epoch (v, ok o) (p, s) = (p, (s, tt))

    pub act_on-Sent :
        (status : _) (v : Validator S) (selection : Option (ℕ × ℕ))
        → Holds v
        → let (v', outcomes) = act_on parts tick status v selection in Holds v' × AllSent outcomes
    unfolding act_on process_target_epoch
    act_on-Sent status v none p = (p, tt)
    act_on-Sent status v (some (open_epoch, target)) p = elim (Bool-cases (in_window status)) [
      | inl w ↦ rw w (p, tt)
      | inr w ↦ rw w (settle_target-Sent open_epoch target _ (process_epoch-Processed target v p))
    ]
