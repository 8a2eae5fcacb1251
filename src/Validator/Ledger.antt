-- ===== src/Validator/Ledger.antt =====
-- The validator against the in-memory chain: what each turn of the loop adds to its record of calls.
pub mod Runs
use mathlib.Core.List.{append-nil, append_assoc, map-append}
use gm_validator.Prelude.{
  ℕ, true, Option, none, some, List, [], ◌∷◌, ◌++◌, map, ◌≡◌, refl, sym, ap, ◌∙◌, Bool-cases, inl,
  inr,
}
use Prim.Native.String.{String}
use gm_validator.Errors.{Error, Result, ok, raised, ◌>>◌, unbind_then, stale_epoch_summary}
use gm_validator.Adapter.{SubmitCall, Mock, mock_submit, mock_submitter, mock_cursor}
use gm_validator.Config.{ValidatorConfig}
use gm_validator.Mirror.{Disk, File, mirror_epoch}
use gm_validator.Summary.{EpochSummary}
use gm_validator.Scoring.Json.{Json}
use gm_validator.Scoring.Rows.{Scores}
use gm_validator.Scoring.Weights.{WeightVector, compute_weights}
use gm_validator.Scoring.Weights.Vector.{compute_weights-IsSound}
use gm_validator.Validator.State.{EpochOutcome, Validator, Parts, Tick}
use gm_validator.Validator.Target.{
  refresh_miner_uid_lookup, observed, observe_weight_status, select_at, select_target_epoch,
}
use gm_validator.Validator.Process.{
  outcome_of, after_error, submit_vector, weigh_and_submit, load_inputs, process_epoch,
  settle_target, process_target_epoch,
}
use gm_validator.Validator.Loop.{
  in_window, outcomes_of, act_on, finish_tick, begin_tick, process_once, after_tick, run_loop,
}
use gm_validator.Validator.Submission.{uids_nonempty}

module _ (config : ValidatorConfig ℕ) (loads : String → Result Json)
    (validate : File → Result EpochSummary) where
  -- The validator as it is built over the in-memory chain.
  abbrev pub mock_parts : Parts Mock
  mock_parts = record {
    config = config;
    submitter = mock_submitter;
    cursor = mock_cursor;
    metagraph_source = none;
    loads = loads;
    validate_summary = validate;
  }

  abbrev pub call_of : ℕ → WeightVector → SubmitCall
  call_of epoch vector = record {
    netuid = config.bittensor_netuid;
    uids = vector.uids;
    weights = vector.weights;
    epoch_id = epoch;
  }

  -- The vector of an epoch as it stands by the disk, the lookup and the settings, with its scores.
  pub record IsVectorOf (epoch : ℕ) (disk : Disk) (v : Validator Mock) (scores : Scores)
      (vector : WeightVector) : Type 0 where
    pub summary : EpochSummary
    pub inputs : load_inputs mock_parts epoch disk ≡ ok (scores, summary)
    pub computed :
        (compute_weights scores v.miner_uid_lookup summary config.subnet_owner_uid
          config.weight_earnings_multiplier v.metrics).1
        ≡ ok vector

  -- One call more, and the outcome that tells of it.
  pub record IsSubmission (epoch : ℕ) (disk : Disk) (v : Validator Mock) (o : EpochOutcome)
      (v' : Validator Mock) : Type 0 where
    pub scores : Scores
    pub vector : WeightVector
    pub exact : IsVectorOf epoch disk v scores vector
    pub called : v'.chain.calls ≡ v.chain.calls ++ (call_of epoch vector ∷ [])
    pub told : o ≡ outcome_of epoch true scores

  abbrev Produced : ℕ → Disk → Validator Mock → Validator Mock × Result EpochOutcome → Type 0
  Produced epoch disk v (v', raised e) = v'.chain ≡ v.chain
  Produced epoch disk v (v', ok o) = IsSubmission epoch disk v o v'

  submit_vector-Produced :
      (tick : Tick) (epoch : ℕ) (disk : Disk) (scores : Scores) (summary : EpochSummary)
      (v w : Validator Mock) (r : Result WeightVector)
      → load_inputs mock_parts epoch disk ≡ ok (scores, summary)
      → (compute_weights scores v.miner_uid_lookup summary config.subnet_owner_uid
          config.weight_earnings_multiplier v.metrics).1
        ≡ r
      → w.chain ≡ v.chain
      → Produced epoch disk v (submit_vector mock_parts tick epoch scores w r)
  unfolding submit_vector mock_submit
  submit_vector-Produced tick epoch disk scores summary v w (raised e) inputs computed same = same
  submit_vector-Produced tick epoch disk scores summary v w (ok vector) inputs computed same =
      let fine =
        (compute_weights-IsSound scores v.miner_uid_lookup summary config.subnet_owner_uid
          config.weight_earnings_multiplier v.metrics vector computed).0 in
      rw (uids_nonempty vector.uids vector.weights (fine.whole) (fine.aligned)) (record {
        scores = scores;
        vector = vector;
        exact = record { summary = summary; inputs = inputs; computed = computed };
        called = ap (λ (m : Mock). m.calls ++ (call_of epoch vector ∷ [])) same;
        told = refl;
      })

  weigh_and_submit-Produced :
      (tick : Tick) (epoch : ℕ) (disk : Disk) (v : Validator Mock)
      (r : Result (Scores × EpochSummary))
      → ((inputs : Scores × EpochSummary)
          → r ≡ ok inputs
          → load_inputs mock_parts epoch disk ≡ ok inputs)
      → Produced epoch disk v (weigh_and_submit mock_parts tick epoch (record v { disk = disk }) r)
  unfolding weigh_and_submit
  weigh_and_submit-Produced tick epoch disk v (raised e) inputs = refl
  weigh_and_submit-Produced tick epoch disk v (ok (scores, summary)) inputs =
      submit_vector-Produced tick epoch disk scores summary v _ _ (inputs (scores, summary) refl)
        refl refl

  process_epoch-Produced :
      (tick : Tick) (epoch : ℕ) (v : Validator Mock)
      → Produced epoch
          (mirror_epoch tick.bucket epoch v.disk).0
          v
          (process_epoch mock_parts tick epoch v)
  unfolding process_epoch
  process_epoch-Produced tick epoch v =
      let (disk, mirrored) = mirror_epoch tick.bucket epoch v.disk in
      weigh_and_submit-Produced tick epoch disk v (mirrored >> load_inputs mock_parts epoch disk)
        (λ inputs h. (unbind_then mirrored (load_inputs mock_parts epoch disk) h).1)

  -- What a turn of the loop promises: nothing, or one submission of the vector of one epoch.
  abbrev pub Turn : Tick → Validator Mock → Validator Mock × List EpochOutcome → Type 0
  Turn tick v (v', []) = v'.chain.calls ≡ v.chain.calls
  Turn tick v (v', o ∷ []) =
      (epoch : ℕ) × IsSubmission epoch (mirror_epoch tick.bucket epoch v.disk).0 v o v'
  Turn tick v (v', _ ∷ _ ∷ _) = ⊥

  after_error-chain :
      (epoch : ℕ) (v : Validator Mock) (e : Error) → (after_error epoch v e).chain ≡ v.chain
  after_error-chain epoch v stale_epoch_summary = refl
  after_error-chain epoch v _ = refl

  settle_target-Turn :
      (tick : Tick) (open_epoch epoch : ℕ) (v : Validator Mock) (r : _)
      → Produced epoch (mirror_epoch tick.bucket epoch v.disk).0 v r
      → let (v', outcome) = settle_target open_epoch epoch r in
        Turn tick v (v', outcomes_of outcome)
  settle_target-Turn tick open_epoch epoch v (v', raised e) p =
      ap (λ (m : Mock). m.calls) (after_error-chain epoch v' e ∙ p)
  settle_target-Turn tick open_epoch epoch v (v', ok o) p = (
    epoch,
    record {
      scores = p.scores;
      vector = p.vector;
      exact = p.exact;
      called = p.called;
      told = p.told;
    },
  )

  act_on-Turn :
      (tick : Tick) (status : _) (v : Validator Mock) (selection : Option (ℕ × ℕ))
      → Turn tick v (act_on mock_parts tick status v selection)
  unfolding act_on process_target_epoch
  act_on-Turn tick status v none = refl
  act_on-Turn tick status v (some (open_epoch, target)) = elim (Bool-cases (in_window status)) [
    | inl w ↦ rw w refl
    | inr w ↦
        rw w (settle_target-Turn tick open_epoch target v _ (process_epoch-Produced tick target v))
  ]

  -- Another disk at the end changes nothing of this.
  Turn-disk :
      (tick : Tick) (v w x : Validator Mock) (outcomes : List EpochOutcome)
      → x.chain ≡ w.chain
      → Turn tick v (w, outcomes)
      → Turn tick v (x, outcomes)
  Turn-disk tick v w x [] same t = ap (λ (m : Mock). m.calls) same ∙ t
  Turn-disk tick v w x (o ∷ []) same (epoch, p) = (
    epoch,
    record {
      scores = p.scores;
      vector = p.vector;
      exact = p.exact;
      called = ap (λ (m : Mock). m.calls) same ∙ p.called;
      told = p.told;
    },
  )
  Turn-disk tick v w x (_ ∷ _ ∷ _) same t = absurd t

  finish_tick-Turn :
      (tick : Tick) (status : _) (v : Validator Mock) (r : Result (Option (ℕ × ℕ)))
      → Turn tick v (after_tick (finish_tick mock_parts tick status v r))
  unfolding finish_tick
  finish_tick-Turn tick status v (raised e) = refl
  finish_tick-Turn tick status v (ok selection) =
      let (w, outcomes) = act_on mock_parts tick status v selection in
      Turn-disk tick v w _ outcomes refl (act_on-Turn tick status v selection)

  -- Nor does another block of the last update at the start.
  Turn-observed :
      (tick : Tick) (v : Validator Mock) (block : Option ℕ) (w : Validator Mock)
      (outcomes : List EpochOutcome)
      → Turn tick (record v { last_update_block = block }) (w, outcomes)
      → Turn tick v (w, outcomes)
  Turn-observed tick v block w [] t = t
  Turn-observed tick v block w (o ∷ []) (epoch, p) =
      let x = p.exact in
      (
        epoch,
        record {
          scores = p.scores;
          vector = p.vector;
          exact = record { summary = x.summary; inputs = x.inputs; computed = x.computed };
          called = p.called;
          told = p.told;
        },
      )
  Turn-observed tick v block w (_ ∷ _ ∷ _) t = absurd t

  -- Each turn of the loop over the in-memory chain does what `Turn` promises: without an outcome it
  -- adds no call; with one it adds one call, for the outcome's epoch, of the vector that
  -- `compute_weights` makes of the epoch's mirrored files with the lookup and the settings.
  pub process_once-Turn :
      (tick : Tick) (v : Validator Mock) → Turn tick v (after_tick (process_once mock_parts tick v))
  unfolding process_once select_target_epoch begin_tick refresh_miner_uid_lookup
      observe_weight_status
  process_once-Turn tick v =
      let w = record v { last_update_block = observed v.chain.status v.last_update_block } in
      let r = select_at mock_parts tick w v.chain.epoch in
      let (x, outcomes) = after_tick (finish_tick mock_parts tick v.chain.status w r) in
      Turn-observed tick v (observed v.chain.status v.last_update_block) x outcomes
        (finish_tick-Turn tick v.chain.status w r)
