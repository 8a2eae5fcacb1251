-- ===== src/Submitter/Whole.antt =====
-- What a submitter keeps through its calls: its subnet, an open connection, and whatever of the world
-- its calls of the SDK leave alone.
pub mod Weights
use Prim.Native.String.{String}
use gm_validator.Prelude.{
  ℕ, zero, suc, ◌==◌, Bool, true, false, Option, none, some, List, length, ltb, ◌≡◌, refl, inl, inr,
  Bool-cases,
}
use gm_validator.Errors.{Result, ok, raised, Result-cases}
use gm_validator.Connect.{
  retries, initial_backoff, run_with_timeout, next_backoff, dial, connect_from, connect_subtensor,
}
use gm_validator.Submitter.{
  Sdk, RealSubmitter, reconnect_after_failures, close_subtensor, adopt, maybe_reconnect, after_head,
  head_block, after_metagraph, read_metagraph, metagraph_hotkeys, after_set_weights, send_weights,
  submit, read_last_update, read_status, weight_status, epoch_of, current_epoch,
}
use gm_validator.Submitter.Calls.{read_head_open, send_weights_open}

module _ {W C : Type 0} (sdk : Sdk W C) (Q : W → Type 0) (Fit : ℕ → List ℕ → List ℕ → Type 0) where
  -- The SDK keeps a property of the world through every call, if the weights that it is to set fit.
  pub record Preserves : Type 0 where
    pub on_factory : (w : W) → Q w → Q (sdk.dialer.factory w).0
    pub on_sleep : (seconds : ℕ) (w : W) → Q w → Q (sdk.dialer.sleep seconds w)
    pub on_close : (c : C) (w : W) → Q w → Q (sdk.close c w)
    pub on_block : (c : C) (w : W) → Q w → Q (sdk.get_current_block c w).0
    pub on_metagraph : (c : C) (netuid : ℕ) (w : W) → Q w → Q (sdk.metagraph c netuid w).0
    pub on_uid :
        (c : C) (hotkey : String) (netuid : ℕ) (w : W) → Q w → Q (sdk.get_uid c hotkey netuid w).0
    pub on_last_update :
        (c : C) (netuid uid : ℕ) (w : W) → Q w → Q (sdk.last_update c netuid uid w).0
    pub on_limit : (c : C) (netuid : ℕ) (w : W) → Q w → Q (sdk.weights_rate_limit c netuid w).0
    pub on_weights :
        (c : C) (netuid : ℕ) (uids weights : List ℕ) (w : W)
        → Fit netuid uids weights
        → Q w
        → Q (sdk.set_weights c netuid uids weights w).0

  -- A submitter for a subnet with a connection, in a world with the property.
  pub record IsWhole (netuid : ℕ) (s : RealSubmitter W C) : Type 0 where
    pub subnet : s.netuid ≡ netuid
    pub connection : C
    pub held : s.subtensor ≡ some connection
    pub fine : Q s.world

  module _ (keeps : Preserves) where
    connect_from-keeps :
        (left backoff : ℕ) (w : W) → Q w → Q (connect_from sdk.dialer left backoff w).0
    unfolding connect_from dial
    connect_from-keeps zero backoff w q = keeps.on_factory w q
    connect_from-keeps (suc left) backoff w q =
        let (w', r) = sdk.dialer.factory w in
        elim (Result-cases (run_with_timeout r)) [
          | inl (e, h) ↦
              rw (connect_from, dial, h)
                (connect_from-keeps left (next_backoff backoff) (sdk.dialer.sleep backoff w')
                  (keeps.on_sleep backoff w' (keeps.on_factory w q)))
          | inr (c, h) ↦ rw (connect_from, dial, h) (keeps.on_factory w q)
        ]

    pub connect_subtensor-keeps : (w : W) → Q w → Q (connect_subtensor sdk.dialer w).0
    unfolding connect_subtensor
    connect_subtensor-keeps w q = connect_from-keeps retries initial_backoff w q

    close-keeps : (c : Option C) (w : W) → Q w → Q (close_subtensor sdk c w)
    close-keeps none w q = q
    close-keeps (some c) w q = keeps.on_close c w q

    module _ {netuid : ℕ} where
      pub in_world :
          (s : RealSubmitter W C) (w : W)
          → IsWhole netuid s
          → Q w
          → IsWhole netuid (record s { world = w })
      in_world s w h q = record {
        subnet = h.subnet;
        connection = h.connection;
        held = h.held;
        fine = q;
      }

      pub counted :
          (s : RealSubmitter W C) (n : ℕ)
          → IsWhole netuid s
          → IsWhole netuid (record s { consecutive_failures = n })
      counted s n h = record {
        subnet = h.subnet;
        connection = h.connection;
        held = h.held;
        fine = h.fine;
      }

      adopt-IsWhole :
          (s : RealSubmitter W C) (r : W × Result C)
          → IsWhole netuid s
          → Q r.0
          → IsWhole netuid (adopt sdk s r)
      adopt-IsWhole s (w, raised e) h q = in_world s w h q
      adopt-IsWhole s (w, ok fresh) h q = record {
        subnet = h.subnet;
        connection = fresh;
        held = refl;
        fine = close-keeps s.subtensor w q;
      }

      pub maybe_reconnect-IsWhole :
          (s : RealSubmitter W C) → IsWhole netuid s → IsWhole netuid (maybe_reconnect sdk s)
      unfolding maybe_reconnect
      maybe_reconnect-IsWhole s h =
          elim (Bool-cases (ltb s.consecutive_failures reconnect_after_failures)) [
            | inl few ↦ rw few h
            | inr many ↦ rw many (
                adopt-IsWhole s (connect_subtensor sdk.dialer s.world) h
                  (connect_subtensor-keeps s.world (h.fine)))
          ]

      after_head-IsWhole :
          (s : RealSubmitter W C) (r : W × Result ℕ)
          → IsWhole netuid s
          → Q r.0
          → IsWhole netuid (after_head s r).0
      after_head-IsWhole s (w, raised e) h q = counted (record s { world = w }) _ (in_world s w h q)
      after_head-IsWhole s (w, ok block) h q = in_world s w h q

      pub head_block-IsWhole :
          (s : RealSubmitter W C) → IsWhole netuid s → IsWhole netuid (head_block sdk s).0
      unfolding head_block
      head_block-IsWhole s h =
          let s' = maybe_reconnect sdk s in
          let h' = maybe_reconnect-IsWhole s h in
          let c = h'.connection in
          rw (read_head_open sdk s' c (h'.held))
            (after_head-IsWhole s' _ h' (keeps.on_block c s'.world (h'.fine)))

      after_metagraph-IsWhole :
          (s : RealSubmitter W C) (r : W × Result (List String))
          → IsWhole netuid s
          → Q r.0
          → IsWhole netuid (after_metagraph s r).0
      after_metagraph-IsWhole s (w, raised e) h q = in_world s w h q
      after_metagraph-IsWhole s (w, ok hotkeys) h q = in_world s w h q

      read_metagraph-IsWhole :
          (n : ℕ) (s : RealSubmitter W C)
          → IsWhole netuid s
          → IsWhole netuid (read_metagraph sdk n s).0
      unfolding read_metagraph
      read_metagraph-IsWhole n s h =
          let c = h.connection in
          let (w, r) = sdk.metagraph c n s.world in
          rw (read_metagraph, h.held)
            (after_metagraph-IsWhole s (w, run_with_timeout r) h
              (keeps.on_metagraph c n s.world (h.fine)))

      pub metagraph_hotkeys-IsWhole :
          (n : ℕ) (s : RealSubmitter W C)
          → IsWhole netuid s
          → IsWhole netuid (metagraph_hotkeys sdk n s).0
      unfolding metagraph_hotkeys
      metagraph_hotkeys-IsWhole n s h =
          read_metagraph-IsWhole n (maybe_reconnect sdk s) (maybe_reconnect-IsWhole s h)

      epoch_of-IsWhole :
          (blocks : ℕ) (r : RealSubmitter W C × Result ℕ)
          → IsWhole netuid r.0
          → IsWhole netuid (epoch_of blocks r).0
      epoch_of-IsWhole blocks (s, raised e) h = h
      epoch_of-IsWhole blocks (s, ok block) h = h

      pub current_epoch-IsWhole :
          (blocks : ℕ) (s : RealSubmitter W C)
          → IsWhole netuid s
          → IsWhole netuid (current_epoch sdk blocks s).0
      unfolding current_epoch
      current_epoch-IsWhole blocks s h =
          epoch_of-IsWhole blocks (head_block sdk s) (head_block-IsWhole s h)
