-- ===== src/Connect/Tests.antt =====
-- An endpoint that refuses every dial, and one that answers the third.
use gm_validator.Prelude.{ℕ, suc, ◌+◌, ◌≤◌, none, some, ◌≡◌, ◌⊎◌, refl, ltb, if◌then◌else◌}
use gm_validator.Errors.{ok, raised, timeout}
use gm_validator.Connect.{Dialer, dial, run_with_timeout, next_backoff, connect_subtensor}
use gm_validator.Connect.Pauses.{pauses, Keeps, connect_subtensor-pauses}
use gm_validator.Prelude.{List, [], ◌∷◌, ◌++◌, take}

-- The world is the number of dials and the seconds slept.
abbrev dead : Dialer (ℕ × ℕ) ℕ
dead = record {
  factory = λ (w : ℕ × ℕ). ((suc w.0, w.1), none);
  sleep = λ (s : ℕ) (w : ℕ × ℕ). (w.0, w.1 + s);
}

abbrev slow : Dialer (ℕ × ℕ) ℕ
slow = record {
  factory = λ (w : ℕ × ℕ). ((suc w.0, w.1), if ltb w.0 2 then none else some (ok 5));
  sleep = λ (s : ℕ) (w : ℕ × ℕ). (w.0, w.1 + s);
}

gives_up : connect_subtensor dead (0, 0) ≡ ((8, 123), raised timeout)
unfolding connect_subtensor dial run_with_timeout next_backoff
gives_up = refl

third_time : connect_subtensor slow (0, 0) ≡ ((3, 3), ok 5)
unfolding connect_subtensor dial run_with_timeout next_backoff
third_time = refl

-- A world that keeps each pause.
abbrev kept : Dialer (ℕ × List ℕ) ℕ
kept = record {
  factory = λ (w : ℕ × List ℕ). ((suc w.0, w.1), if ltb w.0 2 then none else some (ok 5));
  sleep = λ (s : ℕ) (w : ℕ × List ℕ). (w.0, w.1 ++ (s ∷ []));
}

kept-Keeps : Keeps kept (λ (w : ℕ × List ℕ). w.0) (λ (w : ℕ × List ℕ). w.1)
unfolding dial
kept-Keeps = record {
  on_dial = λ w. refl;
  on_dial_waits = λ w. refl;
  on_sleep = λ s w. refl;
  on_sleep_waits = λ s w. refl;
}

connect_subtensor-pauses_example :
    let (w', r) = connect_subtensor kept (0, []) in
    (n : ℕ) × (n ≤ 7)
    × (w'.1 ≡ take n pauses)
    × (w'.0 ≡ 0 + suc n)
    × (((c : ℕ) × (r ≡ ok c)) ⊎ (n ≡ 7))
connect_subtensor-pauses_example =
    connect_subtensor-pauses kept (λ (w : ℕ × List ℕ). w.0) (λ (w : ℕ × List ℕ). w.1) kept-Keeps
      (0, [])
