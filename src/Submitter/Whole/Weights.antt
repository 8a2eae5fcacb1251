-- ===== src/Submitter/Whole/Weights.antt =====
-- The calls of a submitter about its weights: what `IsWhole` says outlasts them.
use gm_validator.Prelude.{
  ℕ, ◌==◌, Bool, true, false, Option, none, some, List, length, inl, inr, Bool-cases,
}
use gm_validator.Errors.{Result, ok, raised, Result-cases}
use gm_validator.Connect.{run_with_timeout}
use gm_validator.Submitter.{
  Sdk, RealSubmitter, maybe_reconnect, after_set_weights, send_weights, submit, read_last_update,
  read_status, weight_status,
}
use gm_validator.Submitter.Calls.{send_weights_open}
use gm_validator.Submitter.Whole.{Preserves, IsWhole, in_world, counted, maybe_reconnect-IsWhole}

module _ {W C : Type 0} (sdk : Sdk W C) (Q : W → Type 0) (Fit : ℕ → List ℕ → List ℕ → Type 0)
    (keeps : Preserves sdk Q Fit) {netuid : ℕ} where
  read_last_update-IsWhole :
      (c : C) (head : ℕ) (s : RealSubmitter W C) (uid : Option ℕ)
      → IsWhole sdk Q Fit netuid s
      → IsWhole sdk Q Fit netuid (read_last_update sdk c head s uid).0
  unfolding read_last_update
  read_last_update-IsWhole c head s none h = h
  read_last_update-IsWhole c head s (some uid) h =
      let (w, r) = sdk.last_update c s.netuid uid s.world in
      let h' =
        in_world sdk Q Fit keeps s w h (keeps.on_last_update c s.netuid uid s.world (h.fine)) in
      elim (Result-cases (run_with_timeout r)) [
        | inl (e, failed) ↦ rw (read_last_update, failed) h'
        | inr (last, fine) ↦ rw (read_last_update, fine) h'
      ]

  read_status-IsWhole :
      (c : C) (s : RealSubmitter W C)
      → IsWhole sdk Q Fit netuid s
      → IsWhole sdk Q Fit netuid (read_status sdk c s).0
  unfolding read_status
  read_status-IsWhole c s h =
      let (w, r) = sdk.get_uid c s.hotkey s.netuid s.world in
      let q = keeps.on_uid c s.hotkey s.netuid s.world (h.fine) in
      let (w', r') = sdk.get_current_block c w in
      let h' = in_world sdk Q Fit keeps s w' h (keeps.on_block c w q) in
      elim (Result-cases (run_with_timeout r)) [
        | inl (e, failed) ↦ rw (read_status, failed) (in_world sdk Q Fit keeps s w h q)
        | inr (uid, fine) ↦ elim (Result-cases (run_with_timeout r')) [
          | inl (e, failed) ↦ rw (read_status, fine, failed) h'
          | inr (head, fine') ↦
              rw (read_status, fine, fine')
                (read_last_update-IsWhole c head (record s { world = w' }) uid h')
        ]
      ]

  pub weight_status-IsWhole :
      (s : RealSubmitter W C)
      → IsWhole sdk Q Fit netuid s
      → IsWhole sdk Q Fit netuid (weight_status sdk s).0
  unfolding weight_status
  weight_status-IsWhole s h =
      let s' = maybe_reconnect sdk s in
      let h' = maybe_reconnect-IsWhole sdk Q Fit keeps s h in
      rw (weight_status, h'.held) (read_status-IsWhole (h'.connection) s' h')

  after_set_weights-IsWhole :
      (s : RealSubmitter W C) (r : W × Result Bool)
      → IsWhole sdk Q Fit netuid s
      → Q r.0
      → IsWhole sdk Q Fit netuid (after_set_weights s r).0
  after_set_weights-IsWhole s (w, raised e) h q =
      counted sdk Q Fit keeps (record s { world = w }) _ (in_world sdk Q Fit keeps s w h q)
  after_set_weights-IsWhole s (w, ok false) h q = in_world sdk Q Fit keeps s w h q
  after_set_weights-IsWhole s (w, ok true) h q =
      counted sdk Q Fit keeps (record s { world = w }) _ (in_world sdk Q Fit keeps s w h q)

  send_weights-IsWhole :
      (n : ℕ) (uids weights : List ℕ) (s : RealSubmitter W C)
      → Fit n uids weights
      → IsWhole sdk Q Fit netuid s
      → IsWhole sdk Q Fit netuid (send_weights sdk n uids weights s).0
  send_weights-IsWhole n uids weights s fit h =
      let c = h.connection in
      rw (send_weights_open sdk n uids weights s c (h.held)) (
        after_set_weights-IsWhole s (sdk.set_weights c n uids weights s.world) h
          (keeps.on_weights c n uids weights s.world fit (h.fine)))

  pub submit-IsWhole :
      (n : ℕ) (uids weights : List ℕ) (epoch_id : ℕ) (s : RealSubmitter W C)
      → Fit n uids weights
      → IsWhole sdk Q Fit netuid s
      → IsWhole sdk Q Fit netuid (submit sdk n uids weights epoch_id s).0
  unfolding submit
  submit-IsWhole n uids weights epoch_id s fit h = elim (Bool-cases (n == s.netuid)) [
    | inr other ↦ rw other h
    | inl same ↦ elim (Bool-cases (length uids == length weights)) [
      | inr uneven ↦ rw (same, uneven) h
      | inl even ↦ elim (Bool-cases (length uids == 0)) [
        | inl empty ↦ rw (same, even, empty) h
        | inr full ↦
            rw (same, even, full)
              (send_weights-IsWhole n uids weights (maybe_reconnect sdk s) fit
                (maybe_reconnect-IsWhole sdk Q Fit keeps s h))
      ]
    ]
  ]
