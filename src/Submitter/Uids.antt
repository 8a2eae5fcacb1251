-- ===== src/Submitter/Uids.antt =====
-- The hotkeys of the metagraph and their uids.
use Prim.Native.String.{String}
use gm_validator.Prelude.{ℕ, suc, List, [], ◌∷◌, ◌≡◌}
use gm_validator.Prelude.Dict.{Dict, insert, OneToOne, Below, insert-Below, insert-OneToOne}
use gm_validator.Errors.{ok, raised, ok_injective}
use gm_validator.Prelude.{inl, inr, Option-cases}
use mathlib.Core.Path.{subst}
use gm_validator.Connect.{run_with_timeout}
use gm_validator.Submitter.{
  Sdk, RealSubmitter, enumerate_from, maybe_reconnect, after_metagraph, read_metagraph,
  metagraph_hotkeys,
}

enumerate_from-OneToOne :
    (uid : ℕ) (hotkeys : List String) (d : Dict ℕ)
    → Below uid d
    → OneToOne d
    → OneToOne (enumerate_from uid hotkeys d)
enumerate_from-OneToOne uid [] d b o = o
enumerate_from-OneToOne uid (hotkey ∷ hotkeys) d b o =
    enumerate_from-OneToOne (suc uid) hotkeys (insert hotkey uid d) (insert-Below hotkey uid d b)
      (insert-OneToOne hotkey uid d b o)

module _ {W C : Type 0} (sdk : Sdk W C) where
  after_metagraph-OneToOne :
      (s : RealSubmitter W C) (r : _) (uids : Dict ℕ)
      → (after_metagraph s r).1 ≡ ok uids
      → OneToOne uids
  after_metagraph-OneToOne s (w, raised e) uids h = cc
  after_metagraph-OneToOne s (w, ok hotkeys) uids h =
      subst (λ d. OneToOne d) (ok_injective h)
        (enumerate_from-OneToOne 0 hotkeys [] (λ key n e. cc) (λ key other n e f. cc))

  read_metagraph-OneToOne :
      (netuid : ℕ) (s : RealSubmitter W C) (uids : Dict ℕ)
      → (read_metagraph sdk netuid s).1 ≡ ok uids
      → OneToOne uids
  unfolding read_metagraph
  read_metagraph-OneToOne netuid s uids h = elim (Option-cases s.subtensor) [
    | inl e ↦ cc (rw (read_metagraph, e) at h)
    | inr (c, e) ↦
        let (w, r) = sdk.metagraph c netuid s.world in
        after_metagraph-OneToOne s (w, run_with_timeout r) uids (rw (read_metagraph, e) at h)
  ]

  -- If `metagraph_hotkeys` returns, no two hotkeys of the lookup have one uid.
  pub metagraph_hotkeys-OneToOne :
      (netuid : ℕ) (s : RealSubmitter W C) (uids : Dict ℕ)
      → (metagraph_hotkeys sdk netuid s).1 ≡ ok uids
      → OneToOne uids
  unfolding metagraph_hotkeys
  metagraph_hotkeys-OneToOne netuid s uids h =
      read_metagraph-OneToOne netuid (maybe_reconnect sdk s) uids h
