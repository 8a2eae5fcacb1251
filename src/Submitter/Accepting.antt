-- ===== src/Submitter/Accepting.antt =====
-- When a submission of the real submitter ends well.
use gm_validator.Prelude.{
  ℕ, ◌==◌, Bool, true, false, some, List, length, ◌≡◌, ◌↔◌, refl, ap, ◌∙◌, arith,
}
use gm_validator.Errors.{Result, ok}
use gm_validator.Submitter.{Sdk, RealSubmitter, maybe_reconnect, after_set_weights, submit}
use gm_validator.Submitter.Calls.{submit-Accepted, send_weights_open}

module _ {W C : Type 0} (sdk : Sdk W C) where
  -- The subnet is the submitter's, the lists are of one length, and the chain accepts the vector over
  -- the connection that is held after the check for a reconnection.
  pub record Accepts (netuid : ℕ) (uids weights : List ℕ) (s : RealSubmitter W C) : Type 0 where
    pub same_subnet : netuid ≡ s.netuid
    pub aligned : length uids ≡ length weights
    pub connection : C
    pub held : (maybe_reconnect sdk s).subtensor ≡ some connection
    pub accepted :
        (sdk.set_weights connection netuid uids weights ((maybe_reconnect sdk s).world)).1 ≡ ok true

  after_set_weights-accepted :
      (s : RealSubmitter W C) (r : W × Result Bool)
      → r.1 ≡ ok true
      → (after_set_weights s r).1 ≡ ok tt
  after_set_weights-accepted s (w, r) h = rw h refl

  pub submit_accepted :
      (netuid : ℕ) (uids weights : List ℕ) (epoch_id : ℕ) (s : RealSubmitter W C)
      → (length uids == 0) ≡ false
      → Accepts netuid uids weights s
      → (submit sdk netuid uids weights epoch_id s).1 ≡ ok tt
  unfolding submit
  submit_accepted netuid uids weights epoch_id s n a =
      let same : (netuid == s.netuid) ≡ true = ground (arith, a.same_subnet) in
      let even : (length uids == length weights) ≡ true = ground (arith, a.aligned) in
      let s' = maybe_reconnect sdk s in
      rw (same, even, n)
        (ap (λ r. r.1) (send_weights_open sdk netuid uids weights s' (a.connection) (a.held))
          ∙ after_set_weights-accepted s' _ (a.accepted))

  -- `submit` of a vector with a uid ends without an exception exactly when the subnet is the
  -- submitter's, the lists are of one length, and the chain accepts the vector over the connection
  -- that is held after the check for a reconnection.
  pub submit_iff_Accepts :
      (netuid : ℕ) (uids weights : List ℕ) (epoch_id : ℕ) (s : RealSubmitter W C)
      → (length uids == 0) ≡ false
      → ((submit sdk netuid uids weights epoch_id s).1 ≡ ok tt) ↔ Accepts netuid uids weights s
  submit_iff_Accepts netuid uids weights epoch_id s n = (
    λ h.
        let a = submit-Accepted sdk netuid uids weights epoch_id s n h in
        record {
          same_subnet = a.same_subnet;
          aligned = a.aligned;
          connection = a.connection;
          held = a.held;
          accepted = a.accepted;
        },
    λ a. submit_accepted netuid uids weights epoch_id s n a,
  )
