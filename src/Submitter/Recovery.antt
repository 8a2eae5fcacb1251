-- ===== src/Submitter/Recovery.antt =====
-- When the connection of a submitter is replaced.
use gm_validator.Prelude.{
  ℕ, zero, suc, ◌+◌, ◌≤◌, ◌<◌, ◌⊎◌, inl, inr, Bool-cases, ltb→lt, ltb→le, true, some, ltb, ◌≡◌,
  refl, sym, ap, ◌∙◌, arith,
}
use mathlib.Core.Path.{subst}
use gm_validator.Errors.{Result, ok, raised}
use gm_validator.Connect.{connect_subtensor}
use gm_validator.Submitter.{
  Sdk, RealSubmitter, adopt, maybe_reconnect, after_head, read_head, head_block,
}
use gm_validator.Submitter.Calls.{read_head_open}

abbrev pub HasRaised {ℓ} : {A : Type ℓ} → Result A → Type 0
HasRaised (raised e) = Unit
HasRaised (ok a) = ⊥

module _ {W C : Type 0} (sdk : Sdk W C) where
  -- A number of head reads, one after the other, and that all of them raise.
  abbrev pub reads : ℕ → RealSubmitter W C → RealSubmitter W C
  reads zero s = s
  reads (suc n) s = reads n (head_block sdk s).0

  abbrev pub AllRaised : ℕ → RealSubmitter W C → Type 0
  AllRaised zero s = Unit
  AllRaised (suc n) s = HasRaised (head_block sdk s).1 × AllRaised n (head_block sdk s).0

  -- So many failures are counted, over one connection.
  record IsFailing (n : ℕ) (c : C) (s : RealSubmitter W C) : Type 0 where
    count : s.consecutive_failures ≡ n
    held : s.subtensor ≡ some c

  maybe_reconnect_few :
      (s : RealSubmitter W C) → suc s.consecutive_failures ≤ 3 → maybe_reconnect sdk s ≡ s
  unfolding maybe_reconnect
  maybe_reconnect_few s h =
      let few : ltb s.consecutive_failures 3 ≡ true = ground arith in rw few refl

  after_head-IsFailing :
      (n : ℕ) (c : C) (s : RealSubmitter W C) (r : W × Result ℕ)
      → IsFailing n c s
      → HasRaised (after_head s r).1
      → IsFailing (suc n) c (after_head s r).0
  after_head-IsFailing n c s (w, raised e) f h = record { count = ap suc f.count; held = f.held }
  after_head-IsFailing n c s (w, ok block) f h = absurd h

  head_block-IsFailing :
      (n : ℕ) (c : C) (s : RealSubmitter W C)
      → suc n ≤ 3
      → IsFailing n c s
      → HasRaised (head_block sdk s).1
      → IsFailing (suc n) c (head_block sdk s).0
  unfolding head_block
  head_block-IsFailing n c s l f h =
      let kept = maybe_reconnect_few s (omega (arith, f.count, l)) in
      let step = ap (read_head sdk) kept ∙ read_head_open sdk s c (f.held) in
      subst (λ r. IsFailing (suc n) c r.0) (sym step)
        (after_head-IsFailing n c s _ f (subst (λ r. HasRaised r.1) step h))

  reads-IsFailing :
      (n k : ℕ) (c : C) (s : RealSubmitter W C)
      → n + k ≤ 3
      → IsFailing k c s
      → AllRaised n s
      → IsFailing (n + k) c (reads n s)
  reads-IsFailing zero k c s l f h = record { count = omega (arith, f.count); held = f.held }
  reads-IsFailing (suc n) k c s l f (h, hs) =
      subst (λ m. IsFailing m c (reads n (head_block sdk s).0)) (omega arith)
        (reads-IsFailing n (suc k) c (head_block sdk s).0 (omega (arith, l))
          (head_block-IsFailing k c s (omega (arith, l)) f h) hs)

  -- What becomes of a submitter over a dead connection when it dials: with no answer the connection
  -- and the count stay as they are, and with a fresh connection that one is held, nothing is on the
  -- count, and the dead one is closed.
  abbrev pub IsRedialed : C → RealSubmitter W C → RealSubmitter W C → W × Result C → Type 0
  IsRedialed dead s s' (w, raised e) =
      (s'.subtensor ≡ some dead)
      × (s'.consecutive_failures ≡ s.consecutive_failures)
      × (s'.world ≡ w)
  IsRedialed dead s s' (w, ok fresh) =
      (s'.subtensor ≡ some fresh) × (s'.consecutive_failures ≡ 0) × (s'.world ≡ sdk.close dead w)

  adopt-IsRedialed :
      (c : C) (s : RealSubmitter W C) (r : W × Result C)
      → s.subtensor ≡ some c
      → IsRedialed c s (adopt sdk s r) r
  adopt-IsRedialed c s (w, raised e) held = (held, refl, refl)
  adopt-IsRedialed c s (w, ok fresh) held = (refl, refl, rw held refl)

  -- A submitter with a connection and no failure on its count: while one head read after the other
  -- raises, the next check leaves it alone before the third failure. After the third it dials: where
  -- the dialing fails, the dead connection and the count of three stay; where it gives a fresh
  -- connection, that one is held, the count is 0 again, and the dead connection is closed.
  pub maybe_reconnect-reads :
      (n : ℕ) (c : C) (s : RealSubmitter W C)
      → n ≤ 3
      → s.consecutive_failures ≡ 0
      → s.subtensor ≡ some c
      → AllRaised n s
      → ((reads n s).subtensor ≡ some c)
        × ((reads n s).consecutive_failures ≡ n)
        × (((n < 3) × (maybe_reconnect sdk (reads n s) ≡ reads n s))
            ⊎ ((n ≡ 3)
                × IsRedialed c
                    (reads n s)
                    (maybe_reconnect sdk (reads n s))
                    (connect_subtensor sdk.dialer (reads n s).world)))
  unfolding maybe_reconnect
  maybe_reconnect-reads n c s l e held h =
      let f = reads-IsFailing n 0 c s (omega (arith, l)) (record { count = e; held = held }) h in
      let count : (reads n s).consecutive_failures ≡ n = omega (arith, f.count) in
      (
        f.held,
        count,
        elim (Bool-cases (ltb n 3)) [
          | inl few ↦ inl (ltb→lt n 3 few, rw (count, few) refl)
          | inr many ↦ inr (
            omega (arith, ltb→le n 3 many, l),
            rw (count, many)
                (adopt-IsRedialed c (reads n s) (connect_subtensor sdk.dialer (reads n s).world)
                  f.held),
          )
        ],
      )
