-- ===== src/Connect/Pauses.antt =====
-- The pauses of `connect_subtensor` between its attempts.
use mathlib.Core.List.{append_assoc, append-nil}
use gm_validator.Prelude.{
  ℕ, zero, suc, ◌+◌, ◌≤◌, ◌≡◌, ◌⊎◌, ◌∙◌, refl, sym, ap, List, [], ◌∷◌, ◌++◌, take, inl, inr, arith,
}
use gm_validator.Errors.{Result, ok, Result-cases}
use gm_validator.Connect.{
  Dialer, initial_backoff, retries, next_backoff, dial, connect_from, connect_subtensor,
}

-- The first so many pauses, from one on.
abbrev backoffs : ℕ → ℕ → List ℕ
backoffs zero backoff = []
backoffs (suc n) backoff = backoff ∷ backoffs n (next_backoff backoff)

take-backoffs : (n m backoff : ℕ) → n ≤ m → take n (backoffs m backoff) ≡ backoffs n backoff
take-backoffs zero m backoff h = refl
take-backoffs (suc n) zero backoff h = absurd (omega arith)
take-backoffs (suc n) (suc m) backoff h =
    ap (λ bs. backoff ∷ bs) (take-backoffs n m (next_backoff backoff) (omega arith))

-- The seven pauses between eight attempts.
abbrev pub pauses : List ℕ
pauses = 1 ∷ 2 ∷ 4 ∷ 8 ∷ 16 ∷ 32 ∷ 60 ∷ []

backoffs-pauses : backoffs retries initial_backoff ≡ pauses
unfolding next_backoff
backoffs-pauses = refl

-- A world that counts the dials and keeps the pauses.
pub record Keeps {W C : Type 0} (d : Dialer W C) (dials : W → ℕ) (waits : W → List ℕ) : Type 0 where
  pub on_dial : (w : W) → dials (dial d w).0 ≡ suc (dials w)
  pub on_dial_waits : (w : W) → waits (dial d w).0 ≡ waits w
  pub on_sleep : (s : ℕ) (w : W) → dials (d.sleep s w) ≡ dials w
  pub on_sleep_waits : (s : ℕ) (w : W) → waits (d.sleep s w) ≡ waits w ++ (s ∷ [])

module _ {W C : Type 0} (d : Dialer W C) (dials : W → ℕ) (waits : W → List ℕ)
    (keeps : Keeps d dials waits) where
  -- From one attempt with so many left: so many pauses were made, and one dial more.
  abbrev Paused : (left backoff : ℕ) → W → W × Result C → Type 0
  Paused left backoff w r =
      (n : ℕ) × (n ≤ left)
      × (waits r.0 ≡ waits w ++ backoffs n backoff)
      × (dials r.0 ≡ dials w + suc n)
      × (((c : C) × (r.1 ≡ ok c)) ⊎ (n ≡ left))

  first_try :
      (left backoff : ℕ) (w : W) (r : Result C)
      → ((c : C) × (r ≡ ok c)) ⊎ (0 ≡ left)
      → Paused left backoff w ((dial d w).0, r)
  first_try left backoff w r e = (
    0,
    omega arith,
    keeps.on_dial_waits w ∙ sym (append-nil (waits w)),
    omega (arith, keeps.on_dial w),
    e,
  )

  one_more :
      (left backoff : ℕ) (w : W) (r : W × Result C)
      → Paused left (next_backoff backoff) (d.sleep backoff (dial d w).0) r
      → Paused (suc left) backoff w r
  one_more left backoff w r (n, few, made, dialled, e) =
      let v = (dial d w).0 in
      (
        suc n,
        omega arith,
        made
            ∙ ap (λ ws. ws ++ backoffs n (next_backoff backoff))
                (keeps.on_sleep_waits backoff v
                  ∙ ap (λ ws. ws ++ (backoff ∷ [])) (keeps.on_dial_waits w))
            ∙ append_assoc (waits w) (backoff ∷ []) (backoffs n (next_backoff backoff)),
        omega (arith, dialled, keeps.on_sleep backoff v, keeps.on_dial w),
        elim e [ inl fine ↦ inl fine | inr all ↦ inr (ap suc all) ],
      )

  connect_from-Paused :
      (left backoff : ℕ) (w : W) → Paused left backoff w (connect_from d left backoff w)
  unfolding connect_from
  connect_from-Paused zero backoff w = first_try zero backoff w (dial d w).1 (inr refl)
  connect_from-Paused (suc left) backoff w = elim (Result-cases ((dial d w).1)) [
    | inl (e, failed) ↦
        rw (connect_from, failed)
          (one_more left backoff w _
            (connect_from-Paused left (next_backoff backoff) (d.sleep backoff (dial d w).0)))
    | inr (c, fine) ↦
        rw (connect_from, fine) (first_try (suc left) backoff w (ok c) (inl (c, refl)))
  ]

  -- In a world that counts the dials and keeps the pauses, `connect_subtensor` dials once more than it
  -- pauses, its pauses are the first of 1, 2, 4, 8, 16, 32 and 60 seconds, and it returns a connection
  -- or has made all seven.
  pub connect_subtensor-pauses :
      (w : W)
      → let (w', r) = connect_subtensor d w in
        (n : ℕ) × (n ≤ 7)
        × (waits w' ≡ waits w ++ take n pauses)
        × (dials w' ≡ dials w + suc n)
        × (((c : C) × (r ≡ ok c)) ⊎ (n ≡ 7))
  unfolding connect_subtensor
  connect_subtensor-pauses w =
      let (n, few, made, dialled, e) = connect_from-Paused retries initial_backoff w in
      (
        n,
        few,
        made
            ∙ ap (λ bs. waits w ++ bs)
                (sym (take-backoffs n retries initial_backoff few) ∙ ap (take n) backoffs-pauses),
        dialled,
        e,
      )
