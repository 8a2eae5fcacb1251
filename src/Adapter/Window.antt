-- ===== src/Adapter/Window.antt =====
-- The rate-limit window, on block numbers.
use gm_validator.Prelude.{
  ℕ, ◌+◌, ◌≤◌, ◌<◌, true, some, ◌≡◌, ◌↔◌, ltb, ltb→lt, ltb→le, refl, sym, ◌∙◌, inl, inr, arith,
  Bool-cases, Option-cases, some_injective,
}
use gm_validator.Prelude.Int.{pos, pos_part, neg_part, sub_ℕ, ltb_ℤ}
use gm_validator.Adapter.{
  ValidatorWeightStatus, blocks_since_last_update, within_rate_limit_window, is_within,
}

sub_ℕ_parts : (a b : ℕ) → pos_part (sub_ℕ a b) + b ≡ a + neg_part (sub_ℕ a b)
sub_ℕ_parts a b = ground arith

is_within_iff :
    (limit current last : ℕ)
    → (is_within limit (some (sub_ℕ current last)) ≡ true)
      ↔ ((0 < limit) × (current ≤ last + limit))
is_within_iff limit current last =
    let b = sub_ℕ current last in
    let parts = sub_ℕ_parts current last in
    elim (Bool-cases (ltb 0 limit)) [
      | inl some_limit ↦ elim (Bool-cases (ltb_ℤ (pos limit) b)) [
        | inl past ↦ (
          λ h. cc (rw past at h),
          λ (l, near).
              absurd
                (omega (arith, parts, near, ltb→lt (limit + neg_part b) (pos_part b + 0) past)),
        )
        | inr near ↦ (
          λ h. (
            ltb→lt 0 limit some_limit,
            omega (arith, parts, ltb→le (limit + neg_part b) (pos_part b + 0) near),
          ),
          λ r. rw (some_limit, near) refl,
        )
      ]
      | inr no_limit ↦ (
        λ h. cc (rw no_limit at h),
        λ (l, near). absurd (omega (arith, l, ltb→le 0 limit no_limit)),
      )
    ]

-- A status is within the window exactly when the last update is known, there is a limit, and the
-- current block is at most that many blocks past the last update; a head behind the last update is
-- within.
pub within_rate_limit_window_iff :
    (s : ValidatorWeightStatus)
    → (within_rate_limit_window s ≡ true) ↔ (
        (last : ℕ) × (s.last_update_block ≡ some last)
        × (0 < s.weights_rate_limit)
        × (s.current_block ≤ last + s.weights_rate_limit))
unfolding within_rate_limit_window blocks_since_last_update
within_rate_limit_window_iff s = elim (Option-cases s.last_update_block) [
  | inl e ↦ (λ h. cc (rw e at h), λ (last, known, l, near). cc (sym e ∙ known))
  | inr (last, e) ↦ (
    λ h.
        let (l, near) = (is_within_iff s.weights_rate_limit s.current_block last).0 (rw e at h) in
        (last, e, l, near),
    λ (other, known, l, near). rw e (
        (is_within_iff s.weights_rate_limit s.current_block last).1
          (l, rw (some_injective (sym known ∙ e)) at near)),
  )
]
