-- ===== src/Connect/Attempts.antt =====
-- How often `connect_subtensor` dials, and what it comes to.
use gm_validator.Prelude.{ℕ, zero, suc, ◌+◌, ◌≤◌, ◌<◌, ◌≡◌, ◌⊎◌, refl, ◌∙◌, inl, inr, arith}
use gm_validator.Errors.{Result, ok, raised, Result-cases}
use gm_validator.Connect.{Dialer, next_backoff, dial, connect_from, connect_subtensor}

module _ {W C : Type 0} (d : Dialer W C) (dials : W → ℕ)
    (count : (w : W) → dials (dial d w).0 ≡ suc (dials w))
    (still : (s : ℕ) (w : W) → dials (d.sleep s w) ≡ dials w) where
  connect_from_raised :
      (left backoff : ℕ) (w : W) (e : _)
      → (dial d w).1 ≡ raised e
      → connect_from d (suc left) backoff w
        ≡ connect_from d left (next_backoff backoff) (d.sleep backoff (dial d w).0)
  unfolding connect_from
  connect_from_raised left backoff w e h = rw (connect_from, h) refl

  connect_from_ok :
      (left backoff : ℕ) (w : W) (c : C)
      → (dial d w).1 ≡ ok c
      → connect_from d (suc left) backoff w ≡ ((dial d w).0, ok c)
  unfolding connect_from
  connect_from_ok left backoff w c h = rw (connect_from, h) refl

  -- From one attempt with so many left: the dials made, on either end.
  Dials : ℕ → W → W × Result C → Type 0
  Dials left w (w', ok c) = (dials w < dials w') × (dials w' ≤ dials w + suc left)
  Dials left w (w', raised e) = dials w' ≡ dials w + suc left

  dial-Dials : (w : W) (r : Result C) → Dials 0 w ((dial d w).0, r)
  unfolding Dials
  dial-Dials w (ok c) = (omega (arith, count w), omega (arith, count w))
  dial-Dials w (raised e) = omega (arith, count w)

  one_more :
      (left : ℕ) (w v : W) (r : W × Result C)
      → dials v ≡ suc (dials w)
      → Dials left v r
      → Dials (suc left) w r
  unfolding Dials
  one_more left w v (w', ok c) e (some_dial, few) =
      (omega (arith, e, some_dial), omega (arith, e, few))
  one_more left w v (w', raised x) e all = omega (arith, e, all)

  first_try : (left : ℕ) (w : W) (c : C) → Dials (suc left) w ((dial d w).0, ok c)
  unfolding Dials
  first_try left w c = (omega (arith, count w), omega (arith, count w))

  connect_from-Dials : (left backoff : ℕ) (w : W) → Dials left w (connect_from d left backoff w)
  unfolding connect_from
  connect_from-Dials zero backoff w = dial-Dials w (dial d w).1
  connect_from-Dials (suc left) backoff w = elim (Result-cases ((dial d w).1)) [
    | inl (e, failed) ↦
        let v = d.sleep backoff (dial d w).0 in
        rw (connect_from_raised left backoff w e failed) (
          one_more left w v (connect_from d left (next_backoff backoff) v)
            (still backoff (dial d w).0 ∙ count w)
            (connect_from-Dials left (next_backoff backoff) v))
    | inr (c, fine) ↦ rw (connect_from_ok left backoff w c fine) (first_try left w c)
  ]

  from_Dials :
      (w : W) (r : W × Result C)
      → Dials 7 w r
      → (dials w < dials r.0)
        × (dials r.0 ≤ dials w + 8)
        × (((c : C) × (r.1 ≡ ok c)) ⊎ (dials r.0 ≡ dials w + 8))
  unfolding Dials
  from_Dials w (w', ok c) (some_dial, few) = (some_dial, few, inl (c, refl))
  from_Dials w (w', raised x) all = (omega (arith, all), omega (arith, all), inr all)

  -- When each call of the factory counts as one dial and a sleep as none, `connect_subtensor` dials at
  -- least once and at most 8 times, and it returns a connection or has dialled exactly 8 times.
  pub connect_subtensor-dials :
      (w : W)
      → let (w', r) = connect_subtensor d w in
        (dials w < dials w')
        × (dials w' ≤ dials w + 8)
        × (((c : C) × (r ≡ ok c)) ⊎ (dials w' ≡ dials w + 8))
  unfolding connect_subtensor Dials
  connect_subtensor-dials w = from_Dials w (connect_subtensor d w) (connect_from-Dials 7 1 w)
