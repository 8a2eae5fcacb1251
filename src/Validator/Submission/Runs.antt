-- ===== src/Validator/Submission/Runs.antt =====
-- What the validator sends to the chain over a turn of the loop and over a run.
use gm_validator.Prelude.{
  ℕ, Option, none, some, List, [], ◌∷◌, ◌++◌, ◌≡◌, refl, sym, Option-cases, inl, inr,
}
use mathlib.Core.Path.{subst}
use gm_validator.Prelude.Dict.{Dict}
use gm_validator.Errors.{Result, ok, raised}
use gm_validator.Adapter.{MetagraphSource}
use gm_validator.Validator.State.{static, EpochOutcome, Validator, Parts, Tick}
use gm_validator.Validator.Target.{
  keep_lookup, refresh_miner_uid_lookup, observe_weight_status, select_target_epoch,
}
use gm_validator.Validator.Loop.{finish_tick, begin_tick, process_once, after_tick, run_loop}
use gm_validator.Validator.Submission.{AllSent, Keeps, Holds, act_on-Sent}

AllSent-append : (xs ys : List EpochOutcome) → AllSent xs → AllSent ys → AllSent (xs ++ ys)
AllSent-append [] ys hx hy = hy
AllSent-append (x ∷ xs) ys (h, hx) hy = (h, AllSent-append xs ys hx hy)

module _ {S : Type 0} (parts : Parts S) (v : Validator S) where
  refresh_none : parts.metagraph_source ≡ none → refresh_miner_uid_lookup parts v ≡ (v, static)
  unfolding refresh_miner_uid_lookup
  refresh_none e = rw (refresh_miner_uid_lookup, e)

  refresh_some :
      (source : MetagraphSource S)
      → parts.metagraph_source ≡ some source
      → refresh_miner_uid_lookup parts v ≡ keep_lookup v (source.hotkeys v.chain)
  unfolding refresh_miner_uid_lookup
  refresh_some source e = rw (refresh_miner_uid_lookup, e)

module _ {S : Type 0} (P : S → Type 0) (K : Dict ℕ → Type 0) where
  module _ (parts : Parts S) (keeps : Keeps P K parts) (tick : Tick) where
    finish_tick-Sent :
        (status : _) (v : Validator S) (r : Result (Option (ℕ × ℕ)))
        → Holds P K v
        → let (v', outcomes) = after_tick (finish_tick parts tick status v r) in
          Holds P K v' × AllSent outcomes
    unfolding finish_tick
    finish_tick-Sent status v (raised e) p = (p, tt)
    finish_tick-Sent status v (ok selection) p =
        act_on-Sent P K parts keeps tick status v selection p

    keep_lookup-Holds :
        (v : Validator S) (r : S × Result (Dict ℕ))
        → P r.0
        → ((uids : Dict ℕ) → r.1 ≡ ok uids → K uids)
        → K v.miner_uid_lookup
        → Holds P K (keep_lookup v r).0
    keep_lookup-Holds v (chain, raised e) p found k = (p, k)
    keep_lookup-Holds v (chain, ok uids) p found k = (p, found uids refl)

    refresh-Holds : (v : Validator S) → Holds P K v → Holds P K (refresh_miner_uid_lookup parts v).0
    refresh-Holds v (p, k) = elim (Option-cases parts.metagraph_source) [
      | inl e ↦ subst (λ r. Holds P K r.0) (sym (refresh_none parts v e)) (p, k)
      | inr (source, e) ↦
          subst (λ r. Holds P K r.0) (sym (refresh_some parts v source e))
            (keep_lookup-Holds v (source.hotkeys v.chain) (keeps.on_hotkeys source v.chain e p)
              (λ uids h. keeps.on_lookup source v.chain uids e p h) k)
    ]

    begin_tick-Holds : (v : Validator S) → Holds P K v → Holds P K (begin_tick parts v).0
    unfolding begin_tick observe_weight_status
    begin_tick-Holds v p = let (q, k) = refresh-Holds v p in (keeps.on_status _ q, k)

    process_once-Sent :
        (v : Validator S)
        → Holds P K v
        → let (v', outcomes) = after_tick (process_once parts tick v) in
          Holds P K v' × AllSent outcomes
    unfolding process_once select_target_epoch
    process_once-Sent v p =
        let (w, status) = begin_tick parts v in
        let (q, k) = begin_tick-Holds v p in
        finish_tick-Sent status _ _ (keeps.on_cursor w.chain q, k)

  -- Whatever the chain objects keep under valid submissions holds after any run of the loop, since no
  -- other submission is made, and so does what holds of each lookup that they give; and every outcome
  -- of the run says that its weights were submitted.
  pub run_loop-Sent :
      (parts : Parts S) (ticks : List Tick) (v : Validator S)
      → Keeps P K parts
      → Holds P K v
      → let (v', outcomes) = run_loop parts ticks v in Holds P K v' × AllSent outcomes
  unfolding run_loop
  run_loop-Sent parts [] v keeps p = (p, tt)
  run_loop-Sent parts (tick ∷ ticks) v keeps p =
      let (v', outcomes) = after_tick (process_once parts tick v) in
      let (q, sent) = process_once-Sent parts keeps tick v p in
      let (last, rest) = run_loop-Sent parts ticks v' keeps q in
      (last, AllSent-append outcomes (run_loop parts ticks v').1 sent rest)
