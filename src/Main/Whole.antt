-- ===== src/Main/Whole.antt =====
-- A process from its start to its end, in a world with a property that the SDK preserves.
use gm_validator.Prelude.{
  ℕ, Bool, true, false, List, ◌≡◌, refl, sum, length, All, ◌≤◌, inl, inr, Bool-cases,
  some_injective,
}
use mathlib.Core.Path.{subst}
use gm_validator.Prelude.Int.{pos, pos_part, ltb_ℤ}
use gm_validator.Prelude.Dict.{Dict}
use gm_validator.Errors.{Result, ok, raised}
use gm_validator.Config.{ValidatorConfig}
use gm_validator.Connect.{connect_subtensor}
use gm_validator.Mirror.{Disk}
use gm_validator.Adapter.{MetagraphSource}
use gm_validator.Economics.Normalize.{max_weight}
use gm_validator.Submitter.{
  RealSubmitter, head_cursor, real_submitter, real_cursor, real_metagraph_source, metagraph_hotkeys,
}
use gm_validator.Submitter.Hotkey.{use_mock_submitter}
use gm_validator.Submitter.Start.{
  read_weights_rate_limit, after_connect, after_keypair, new_real_submitter,
}
use gm_validator.Submitter.Whole.{
  Preserves, IsWhole, connect_subtensor-keeps, metagraph_hotkeys-IsWhole, current_epoch-IsWhole,
}
use gm_validator.Submitter.Whole.Weights.{weight_status-IsWhole, submit-IsWhole}
use gm_validator.Validator.State.{Tick}
use gm_validator.Prelude.Dict.{OneToOne}
use gm_validator.Prelude.{sym}
use gm_validator.Scoring.Weights.Distinct.{NoRepeat}
use gm_validator.Submitter.Uids.{metagraph_hotkeys-OneToOne}
use gm_validator.Validator.Submission.{AllSent, Keeps}
use gm_validator.Validator.Submission.Runs.{run_loop-Sent}
use gm_validator.Validator.Loop.{run_loop}
use gm_validator.Main.Client.{build_s3_client}
use gm_validator.Main.{
  Kind, mocked, signing, ChainOf, Platform, Service, as_signing, submitter_for, build_submitter,
  build_cursor, build_miner_uid_lookup, build_metagraph_source, world_of, service_parts,
  with_lookup, with_cursor, with_submitter, with_client, turns, pause, Ending, build_service,
  run_service, after_build, run,
}

-- Weights that may be set: on the subnet of the settings, as many as there are uids, no uid twice,
-- each of 1 unit at least, and 65535 in all.
pub record IsValid (c : ValidatorConfig ℕ) (netuid : ℕ) (uids weights : List ℕ) : Type 0 where
  pub subnet : netuid ≡ c.bittensor_netuid
  pub whole : sum weights ≡ max_weight
  pub paid : All (λ w. 1 ≤ w) weights
  pub aligned : length uids ≡ length weights
  pub distinct : NoRepeat uids

module _ {W C K : Type 0} (p : Platform W C K) (c : ValidatorConfig ℕ) (Q : W → Type 0)
    (safe : Preserves p.sdk Q (IsValid c)) where
  -- What the chain objects keep.
  abbrev pub Held : (k : Kind) → ChainOf W C k → Type 0
  Held mocked m = Unit
  Held signing s = IsWhole p.sdk Q (IsValid c) c.bittensor_netuid s

  abbrev Started : W × Result ((k : Kind) × ChainOf W C k) → Type 0
  Started (w, raised e) = Q w
  Started (w, ok (k, s)) = Q w × Held k s

  -- A service that the loop may run.
  pub record IsReady (service : Service W C) : Type 0 where
    pub keeps : Keeps (Held service.kind) OneToOne service.parts
    pub start : Held service.kind service.validator.chain
    pub apart : OneToOne service.validator.miner_uid_lookup

  abbrev Built : W × Result (Service W C) → Type 0
  Built (w, raised e) = Q w
  Built (w, ok service) = Q w × IsReady service

  after_connect-Started :
      (hotkey : _) (r : W × Result C)
      → Q r.0
      → Started (as_signing p (after_connect p.sdk c.bittensor_netuid hotkey r))
  unfolding read_weights_rate_limit
  after_connect-Started hotkey (w, raised e) q = q
  after_connect-Started hotkey (w, ok con) q =
      let q' = safe.on_limit con c.bittensor_netuid w q in
      (q', record { subnet = refl; connection = con; held = refl; fine = q' })

  after_keypair-Started :
      (w : W) (r : Result K)
      → Q w
      → Started (as_signing p (after_keypair p.sdk p.keys c.bittensor_netuid w r))
  after_keypair-Started w (raised e) q = q
  after_keypair-Started w (ok key) q =
      after_connect-Started (p.keys.ss58_address key) (connect_subtensor p.sdk.dialer w)
        (connect_subtensor-keeps p.sdk Q (IsValid c) safe w q)

  submitter_for-Started : (w : W) (mock : Result Bool) → Q w → Started (submitter_for p c w mock)
  unfolding new_real_submitter
  submitter_for-Started w (raised e) q = q
  submitter_for-Started w (ok true) q = (q, tt)
  submitter_for-Started w (ok false) q = after_keypair-Started w _ q

  service_parts-Keeps :
      (blocks : ℕ)
      → Keeps (Held signing) OneToOne (service_parts p c signing (head_cursor p.sdk blocks))
  unfolding real_submitter build_metagraph_source real_metagraph_source
  service_parts-Keeps blocks = record {
    on_submit = λ uids v epoch s known good apart h.
        submit-IsWhole p.sdk Q (IsValid c) safe c.bittensor_netuid v.uids v.weights epoch s
          (record {
            subnet = refl;
            whole = good.whole;
            paid = good.paid;
            aligned = good.aligned;
            distinct = apart known;
          })
          h;
    on_status = weight_status-IsWhole p.sdk Q (IsValid c) safe;
    on_cursor = current_epoch-IsWhole p.sdk Q (IsValid c) safe blocks;
    on_hotkeys = λ source s made h.
        subst (λ (source : MetagraphSource (RealSubmitter W C)). Held signing (source.hotkeys s).0)
          (some_injective made)
          (metagraph_hotkeys-IsWhole p.sdk Q (IsValid c) safe c.bittensor_netuid s h);
    on_lookup = λ source s uids made h found.
        metagraph_hotkeys-OneToOne p.sdk c.bittensor_netuid s uids (
          subst (λ (source : MetagraphSource (RealSubmitter W C)). (source.hotkeys s).1 ≡ ok uids)
            (sym (some_injective made)) found);
  }

  with_lookup-Built :
      (disk : Disk) (w : W) (blocks : ℕ) (r : RealSubmitter W C × Result (Dict ℕ))
      → Held signing r.0
      → ((uids : Dict ℕ) → r.1 ≡ ok uids → OneToOne uids)
      → Built (with_lookup p c disk w signing (head_cursor p.sdk blocks) r)
  with_lookup-Built disk w blocks (s, raised e) h apart = h.fine
  with_lookup-Built disk w blocks (s, ok uids) h apart =
      (h.fine, record { keeps = service_parts-Keeps blocks; start = h; apart = apart uids refl })

  with_cursor-Built :
      (disk : Disk) (w : W) (s : RealSubmitter W C)
      → Q w
      → Held signing s
      → Built (with_cursor p c disk w signing s (build_cursor p c signing))
  unfolding build_cursor real_cursor build_miner_uid_lookup
  with_cursor-Built disk w s q h = elim (Bool-cases (ltb_ℤ (pos 0) c.blocks_per_epoch)) [
    | inl on ↦ rw on (
        with_lookup-Built disk w (pos_part c.blocks_per_epoch)
          (metagraph_hotkeys p.sdk c.bittensor_netuid s)
          (metagraph_hotkeys-IsWhole p.sdk Q (IsValid c) safe c.bittensor_netuid s h)
          (λ uids found. metagraph_hotkeys-OneToOne p.sdk c.bittensor_netuid s uids found))
    | inr off ↦ rw off q
  ]

  with_submitter-Built :
      (disk : Disk) (r : W × Result ((k : Kind) × ChainOf W C k))
      → Started r
      → Built (with_submitter p c disk r)
  unfolding build_cursor build_miner_uid_lookup build_metagraph_source
  with_submitter-Built disk (w, raised e) q = q
  with_submitter-Built disk (w, ok (mocked, m)) (q, h) = (
    q,
    record {
      keeps = record {
        on_submit = λ uids v epoch s known good apart h. tt;
        on_status = λ s h. tt;
        on_cursor = λ s h. tt;
        on_hotkeys = λ source s made h. tt;
        on_lookup = λ source s uids made h found. cc;
      };
      start = tt;
      apart = λ key other n e f. cc;
    },
  )
  with_submitter-Built disk (w, ok (signing, s)) (q, h) = with_cursor-Built disk w s q h

  with_client-Built :
      (disk : Disk) (w : W) (client : Result (Unit {0}))
      → Q w
      → Built (with_client p c disk w client)
  unfolding build_submitter
  with_client-Built disk w (raised e) q = q
  with_client-Built disk w (ok tt) q =
      with_submitter-Built disk (build_submitter p c w)
        (submitter_for-Started w (use_mock_submitter c) q)

  -- What the end of a process tells.
  abbrev pub Ended : W × Result (Ending W C) → Type 0
  Ended (w, raised e) = Q w
  Ended (w, ok (service, outcomes, end)) =
      Q w × Held service.kind service.validator.chain × AllSent outcomes

  Held-fine : (k : Kind) (w : W) (s : ChainOf W C k) → Q w → Held k s → Q (world_of p k w s)
  Held-fine mocked w m q h = q
  Held-fine signing w s q h = h.fine

  after_build-Ended :
      (ticks : List Tick) (r : W × Result (Service W C)) → Built r → Ended (after_build p ticks r)
  unfolding run_service
  after_build-Ended ticks (w, raised e) q = q
  after_build-Ended ticks (w, ok service) (q, ready) =
      let done = turns (pause service.parts.config.poll_interval_secs) ticks in
      let ((held, apart), sent) =
        run_loop-Sent (Held service.kind) OneToOne service.parts done service.validator
          (ready.keeps) (ready.start, ready.apart) in
      (
        Held-fine service.kind w (run_loop service.parts done service.validator).0.chain q held,
        held,
        sent,
      )

  -- Whatever holds of the world at first, and is left alone by every call of the SDK but `set_weights`
  -- and by a `set_weights` of valid weights, holds at the end of a process, at whatever point it ends:
  -- from its first connection on it sets valid weights only, with no uid twice, on the subnet of its
  -- settings. Where it got to its loop, however that ends, every outcome tells of a submission, and a
  -- submitter that signs holds a connection and is for that subnet.
  pub run-Ended : (disk : Disk) (ticks : List Tick) (w : W) → Q w → Ended (run p c disk ticks w)
  unfolding run build_service
  run-Ended disk ticks w q =
      after_build-Ended ticks (build_service p c disk w)
        (with_client-Built disk w (p.s3_client (build_s3_client c)) q)
