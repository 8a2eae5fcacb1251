-- ===== src/Validator/Selection.antt =====
-- What `_select_target_epoch` selects.
use gm_validator.Prelude.{
  ℕ, suc, ◌+◌, ◌-◌, Bool, true, false, Option, none, some, ◌≡◌, ◌↔◌, refl, sym, ap, ◌∙◌,
  some_injective, Bool-cases, inl, inr, arith, ◌&&◌, if◌then◌else◌,
}
use gm_validator.Errors.{ok, ◌>>=◌, unbind, ok_injective}
use gm_validator.Mirror.{
  Bucket, HeadReply, found, refused, broken, is_not_found, is_forbidden, marker_exists, probe_back,
  latest_finalized_epoch,
}
use gm_validator.Validator.State.{Validator, Parts, Tick}
use gm_validator.Validator.Target.{select_finalized, select_at, is_done}

-- Only a marker that is there counts as one.
marker_exists-found :
    (anonymous : Bool) (reply : HeadReply) → marker_exists anonymous reply ≡ ok true → reply ≡ found
unfolding marker_exists
marker_exists-found anonymous found h = refl
marker_exists-found anonymous (refused code) h = elim (Bool-cases (is_not_found code)) [
  | inl e ↦ cc (rw e at h)
  | inr e ↦ elim (Bool-cases (anonymous && is_forbidden code)) [
    | inl f ↦ cc (rw (e, f) at h)
    | inr f ↦ cc (rw (e, f) at h)
  ]
]
marker_exists-found anonymous broken h = cc

-- Without lookback there is one probe.
latest_finalized_epoch_here :
    (anonymous : Bool) (bucket : Bucket) (target : ℕ)
    → latest_finalized_epoch anonymous bucket target 0 ≡ (
        marker_exists anonymous (bucket.head_marker target) >>= λ here.
        if here then ok (some target) else ok none)
unfolding latest_finalized_epoch
latest_finalized_epoch_here anonymous bucket target =
    let once : target - (target - 0) + 1 ≡ 1 = omega arith in rw (once, probe_back) refl

marker_exists_here :
    (anonymous : Bool) (reply : HeadReply) → reply ≡ found → marker_exists anonymous reply ≡ ok true
unfolding marker_exists
marker_exists_here anonymous reply h = rw h refl

-- The one probe finds the target, or nothing.
latest_finalized_epoch-found :
    (anonymous : Bool) (bucket : Bucket) (target : ℕ) (r : Option ℕ) (e : ℕ)
    → latest_finalized_epoch anonymous bucket target 0 ≡ ok r
    → r ≡ some e
    → (e ≡ target) × (bucket.head_marker target ≡ found)
latest_finalized_epoch-found anonymous bucket target r e h is_some =
    let (here, reply, rest) =
      unbind (marker_exists anonymous (bucket.head_marker target))
        (λ here. if here then ok (some target) else ok none)
        (rw (latest_finalized_epoch_here anonymous bucket target) at h) in
    elim (Bool-cases here) [
      | inl is_here ↦ (
        sym (some_injective (ok_injective (rw is_here at rest) ∙ is_some)),
        marker_exists-found anonymous _ (reply ∙ ap ok is_here),
      )
      | inr gone ↦ cc (ok_injective (rw gone at rest))
    ]

module _ {S : Type 0} where
  -- What it takes for the newest closed epoch to be selected.
  pub record IsDue (tick : Tick) (v : Validator S) (closed : ℕ) : Type 0 where
    pub marked : tick.bucket.head_marker closed ≡ found
    pub tick_is_open : is_done (suc closed) v.last_submitted_open_epoch ≡ false
    pub epoch_is_open : is_done closed v.last_submitted_epoch ≡ false

  select_finalized-inv :
      (v : Validator S) (open_epoch : ℕ) (r : Option ℕ) (selected : ℕ × ℕ)
      → select_finalized v open_epoch r ≡ some selected
      → (r ≡ some selected.1)
        × (selected.0 ≡ open_epoch)
        × (is_done selected.1 v.last_submitted_epoch ≡ false)
  select_finalized-inv v open_epoch none selected h = cc
  select_finalized-inv v open_epoch (some target) selected h =
      elim (Bool-cases (is_done target v.last_submitted_epoch)) [
        | inl e ↦ cc (rw e at h)
        | inr e ↦
            let same = some_injective (rw e at h) in
            (ap (λ p. some p.1) same, sym (ap (λ p. p.0) same), rw (← ap (λ p. p.1) same) e)
      ]

  pub select_at-IsDue :
      (parts : Parts S) (tick : Tick) (v : Validator S) (closed : ℕ) (selected : ℕ × ℕ)
      → select_at parts tick v (some (suc closed)) ≡ ok (some selected)
      → (selected ≡ (suc closed, closed)) × IsDue tick v closed
  unfolding select_at
  select_at-IsDue parts tick v closed selected h =
      elim (Bool-cases (is_done (suc closed) v.last_submitted_open_epoch)) [
        | inl e ↦ cc (rw e at h)
        | inr e ↦
            let (r, probed, picked) =
              unbind (latest_finalized_epoch parts.config.s3_anonymous tick.bucket closed 0)
                (λ target. ok (select_finalized v (suc closed) target)) (rw e at h) in
            let (target, opened, fresh) =
              select_finalized-inv v (suc closed) r selected (ok_injective picked) in
            let (here, marker) =
              latest_finalized_epoch-found parts.config.s3_anonymous tick.bucket closed r selected.1
                probed target in
            (
              rw (← opened, ← here) refl,
              record { marked = marker; tick_is_open = e; epoch_is_open = rw (← here) fresh },
            )
      ]

  -- And that is enough.
  pub select_at_due :
      (parts : Parts S) (tick : Tick) (v : Validator S) (closed : ℕ)
      → IsDue tick v closed
      → select_at parts tick v (some (suc closed)) ≡ ok (some (suc closed, closed))
  unfolding select_at
  select_at_due parts tick v closed d =
      rw
        (
          d.tick_is_open,
          latest_finalized_epoch_here parts.config.s3_anonymous tick.bucket closed,
          marker_exists_here parts.config.s3_anonymous _ (d.marked),
          d.epoch_is_open,
        )
        refl

  -- At an open epoch above 0, the pair that is selected is the open epoch and the one before it; it
  -- is selected exactly when that one's marker is in the bucket, the open epoch is above the one at
  -- the last submission, and the closed one is above the last submitted.
  pub select_at_iff_IsDue :
      (parts : Parts S) (tick : Tick) (v : Validator S) (closed : ℕ) (selected : ℕ × ℕ)
      → (select_at parts tick v (some (suc closed)) ≡ ok (some selected))
        ↔ ((selected ≡ (suc closed, closed)) × IsDue tick v closed)
  select_at_iff_IsDue parts tick v closed selected = (
    λ h. select_at-IsDue parts tick v closed selected h,
    λ (e, d). rw e (select_at_due parts tick v closed d),
  )
