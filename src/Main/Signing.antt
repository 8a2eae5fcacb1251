-- ===== src/Main/Signing.antt =====
-- A tick of a validator that signs.
use gm_validator.Prelude.{ℕ, ◌==◌, true, false, some, List, [], ◌∷◌, length, ◌≡◌, arith}
use gm_validator.Errors.{ok}
use gm_validator.Submitter.{Sdk, RealSubmitter, maybe_reconnect, real_submitter}
use gm_validator.Scoring.Rows.{Scores}
use gm_validator.Scoring.Weights.{WeightVector}
use gm_validator.Scoring.Weights.Route.{IsSubmittable}
use gm_validator.Validator.State.{Validator, Parts, Tick}
use gm_validator.Validator.Process.{outcome_of, is_empty}
use gm_validator.Validator.Loop.{begin_tick, process_once}
use gm_validator.Validator.Submission.{uids_nonempty}
use gm_validator.Validator.Progress.{IsGood, IsTaken}
use gm_validator.Validator.Progress.Ticks.{IsNext, process_once_ready}
use gm_validator.Submitter.Accepting.{submit_accepted}

module _ {W C : Type 0} (sdk : Sdk W C) where
  not_empty : (uids : List ℕ) → is_empty uids ≡ false → (length uids == 0) ≡ false
  not_empty [] h = cc
  not_empty (u ∷ us) h = ground arith

  -- A submitter that holds a connection over which the chain accepts whatever can be submitted.
  pub record IsOpenTo (netuid : ℕ) (s : RealSubmitter W C) : Type 0 where
    pub subnet : netuid ≡ s.netuid
    pub connection : C
    pub held : (maybe_reconnect sdk s).subtensor ≡ some connection
    pub accepts :
        (vector : WeightVector)
        → IsSubmittable vector
        → (sdk.set_weights connection netuid vector.uids vector.weights
            ((maybe_reconnect sdk s).world)).1
          ≡ ok true

  -- The parts of a validator that signs.
  abbrev pub signing_parts : Parts (RealSubmitter W C) → Parts (RealSubmitter W C)
  signing_parts parts = record parts { submitter = real_submitter sdk }

  IsOpenTo-IsTaken :
      (parts : Parts (RealSubmitter W C)) (tick : Tick) (closed : ℕ) (s : RealSubmitter W C)
      → IsOpenTo parts.config.bittensor_netuid s
      → IsTaken (signing_parts parts) tick closed s
  unfolding real_submitter
  IsOpenTo-IsTaken parts tick closed s o = λ vector fine.
      submit_accepted sdk parts.config.bittensor_netuid vector.uids vector.weights closed s
        (not_empty vector.uids
          (uids_nonempty vector.uids vector.weights (fine.whole) (fine.aligned)))
        (record {
          same_subnet = o.subnet;
          aligned = fine.aligned;
          connection = o.connection;
          held = o.held;
          accepted = o.accepts vector fine;
        })

  -- A tick of a validator that signs submits: outside the rate-limit window, with a newest closed
  -- epoch that is due, its artifacts on the disk or in the bucket and good, and a connection over
  -- which the chain accepts what can be submitted, the tick ends without an exception and its one
  -- outcome is the submission of that epoch's scores.
  pub process_once_signing :
      (parts0 : Parts (RealSubmitter W C)) (tick : Tick) (v : Validator (RealSubmitter W C))
      (closed : ℕ) (scores : Scores)
      → let parts = signing_parts parts0 in
        let (w, status) = begin_tick parts v in
        IsNext parts tick w closed status
        → IsGood parts tick closed w.disk w.miner_uid_lookup scores
        → IsOpenTo parts.config.bittensor_netuid (parts.cursor.current_epoch w.chain).0
        → (process_once parts tick v).1 ≡ ok (outcome_of closed true scores ∷ [])
  process_once_signing parts0 tick v closed scores next good opened =
      let parts = signing_parts parts0 in
      let (w, status) = begin_tick parts v in
      process_once_ready parts tick v closed scores (record {
        next = next;
        good = good;
        taken = IsOpenTo-IsTaken parts0 tick closed (parts.cursor.current_epoch w.chain).0 opened;
      })
