-- ===== src/Submitter/Calls.antt =====
-- What the calls of the real submitter come to.
use gm_validator.Prelude.{
  ℕ, ◌==◌, Bool, true, false, none, some, List, length, ◌≡◌, refl, sym, ap, ◌∙◌, inl, inr, arith,
  Bool-cases, Option-cases,
}
use gm_validator.Errors.{Result, ok, raised, weight_submission}
use gm_validator.Connect.{run_with_timeout}
use gm_validator.Submitter.{
  Sdk, RealSubmitter, maybe_reconnect, after_head, read_head, head_block, after_set_weights,
  send_weights, submit,
}

-- The one exception that a call may end with.
abbrev pub IsKnown {ℓ} : {A : Type ℓ} → Result A → Type 0
IsKnown (raised e) = e ≡ weight_submission
IsKnown (ok a) = Unit

module _ {W C : Type 0} (sdk : Sdk W C) where
  after_head-IsKnown : (s : RealSubmitter W C) (r : W × Result ℕ) → IsKnown ((after_head s r).1)
  after_head-IsKnown s (w, raised e) = refl
  after_head-IsKnown s (w, ok block) = tt

  read_head_closed :
      (s : RealSubmitter W C) → s.subtensor ≡ none → read_head sdk s ≡ (s, raised weight_submission)
  unfolding read_head
  read_head_closed s e = simp (read_head, e)

  pub read_head_open :
      (s : RealSubmitter W C) (c : C)
      → s.subtensor ≡ some c
      → read_head sdk s
        ≡ (let (w, r) = sdk.get_current_block c s.world in after_head s (w, run_with_timeout r))
  unfolding read_head
  read_head_open s c e = simp (read_head, e)

  -- `head_block` raises WeightSubmissionError and nothing else, so that the handler of
  -- `current_epoch` misses no exception.
  pub head_block-IsKnown : (s : RealSubmitter W C) → IsKnown ((head_block sdk s).1)
  unfolding head_block
  head_block-IsKnown s =
      let s' = maybe_reconnect sdk s in
      elim (Option-cases s'.subtensor) [
        | inl e ↦ rw (read_head_closed s' e) refl
        | inr (c, e) ↦ rw (read_head_open s' c e) (after_head-IsKnown s' _)
      ]

  send_weights_closed :
      (netuid : ℕ) (uids weights : List ℕ) (s : RealSubmitter W C)
      → s.subtensor ≡ none
      → send_weights sdk netuid uids weights s ≡ (s, raised weight_submission)
  unfolding send_weights
  send_weights_closed netuid uids weights s e = simp (send_weights, e)

  pub send_weights_open :
      (netuid : ℕ) (uids weights : List ℕ) (s : RealSubmitter W C) (c : C)
      → s.subtensor ≡ some c
      → send_weights sdk netuid uids weights s
        ≡ after_set_weights s (sdk.set_weights c netuid uids weights s.world)
  unfolding send_weights
  send_weights_open netuid uids weights s c e = simp (send_weights, e)

  after_set_weights-ok :
      (s : RealSubmitter W C) (r : W × Result Bool)
      → (after_set_weights s r).1 ≡ ok tt
      → (r.1 ≡ ok true) × ((after_set_weights s r).0.consecutive_failures ≡ 0)
  after_set_weights-ok s (w, raised e) h = cc
  after_set_weights-ok s (w, ok false) h = cc
  after_set_weights-ok s (w, ok true) h = (refl, refl)

  submit_checked :
      (netuid : ℕ) (uids weights : List ℕ) (epoch_id : ℕ) (s : RealSubmitter W C)
      → (length uids == 0) ≡ false
      → (submit sdk netuid uids weights epoch_id s).1 ≡ ok tt
      → (netuid ≡ s.netuid)
        × (length uids ≡ length weights)
        × (submit sdk netuid uids weights epoch_id s
            ≡ send_weights sdk netuid uids weights (maybe_reconnect sdk s))
  unfolding submit
  submit_checked netuid uids weights epoch_id s n h = elim (Bool-cases (netuid == s.netuid)) [
    | inr other ↦ cc (rw other at h)
    | inl same ↦ elim (Bool-cases (length uids == length weights)) [
      | inr uneven ↦ cc (rw (same, uneven) at h)
      | inl even ↦ (ground arith, ground arith, rw (same, even, n) refl)
    ]
  ]

  -- The connection that a submission goes over.
  pub record Accepted (netuid : ℕ) (uids weights : List ℕ) (s out : RealSubmitter W C)
      : Type 0 where
    pub same_subnet : netuid ≡ s.netuid
    pub aligned : length uids ≡ length weights
    pub connection : C
    pub held : (maybe_reconnect sdk s).subtensor ≡ some connection
    pub accepted :
        (sdk.set_weights connection netuid uids weights ((maybe_reconnect sdk s).world)).1 ≡ ok true
    pub healthy : out.consecutive_failures ≡ 0

  -- If `submit` of a vector with a uid ends without an exception, the subnet is the configured one, the
  -- lists are of one length, the chain accepted the vector over the connection that the submitter
  -- holds after the check for a reconnection, and the count of failures is 0.
  pub submit-Accepted :
      (netuid : ℕ) (uids weights : List ℕ) (epoch_id : ℕ) (s : RealSubmitter W C)
      → (length uids == 0) ≡ false
      → (submit sdk netuid uids weights epoch_id s).1 ≡ ok tt
      → Accepted netuid uids weights s (submit sdk netuid uids weights epoch_id s).0
  submit-Accepted netuid uids weights epoch_id s n h =
      let (same, even, sent) = submit_checked netuid uids weights epoch_id s n h in
      let s' = maybe_reconnect sdk s in
      let h' = ap (λ r. r.1) (sym sent) ∙ h in
      elim (Option-cases s'.subtensor) [
        | inl e ↦ cc (send_weights_closed netuid uids weights s' e)
        | inr (c, e) ↦
            let step = send_weights_open netuid uids weights s' c e in
            let (answer, zero_count) =
              after_set_weights-ok s' (sdk.set_weights c netuid uids weights s'.world)
                (ap (λ r. r.1) (sym step) ∙ h') in
            record {
              same_subnet = same;
              aligned = even;
              connection = c;
              held = e;
              accepted = answer;
              healthy = ap (λ r. r.0.consecutive_failures) (sent ∙ step) ∙ zero_count;
            }
      ]
