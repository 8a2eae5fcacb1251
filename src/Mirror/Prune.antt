-- ===== src/Mirror/Prune.antt =====
-- `prune`, by the ranks of the epochs, and the directories over all the operations.
use gm_validator.Prelude.{
  ℕ, zero, suc, ◌+◌, ◌≤◌, ◌<◌, true, false, List, [], ◌∷◌, ◌≡◌, refl, ap, ◌∙◌, ltb, leb,
  if◌then◌else◌, drop, All, length, Bool-cases, inl, inr, arith,
}
use gm_validator.Prelude.Int.{pos, ltb_ℤ}
use gm_validator.Mirror.{
  EpochDir, Disk, insert_descending, sort_descending, epochs_of, contains, remove_dirs, prune,
}
use gm_validator.Mirror.Ranks.{
  above, Distinct, IsFalling, above-sort_descending, contains-sort_descending, contains-drop,
  IsFalling-sort_descending,
}

-- The directories with fewer than so many epochs of a list above theirs.
abbrev pub highest : ℕ → List ℕ → Disk → Disk
highest r es [] = []
highest r es (d ∷ ds) =
    let rest = highest r es ds in if ltb (above d.epoch es) r then d ∷ rest else rest

-- All the epochs of some directories are in a list.
abbrev AllIn : List ℕ → Disk → Type 0
AllIn es = All λ (d : EpochDir). contains d.epoch es ≡ true

AllIn-cons : (e : ℕ) (es : List ℕ) (ds : Disk) → AllIn es ds → AllIn (e ∷ es) ds
AllIn-cons e es [] h = tt
AllIn-cons e es (d ∷ ds) (h, hs) = (ground arith, AllIn-cons e es ds hs)

AllIn-epochs_of : (ds : Disk) → AllIn (epochs_of ds) ds
AllIn-epochs_of [] = tt
AllIn-epochs_of (d ∷ ds) = (ground arith, AllIn-cons d.epoch (epochs_of ds) ds (AllIn-epochs_of ds))

removed :
    (r e : ℕ) (es : List ℕ)
    → Distinct es
    → contains e es ≡ true
    → contains e (drop r (sort_descending es)) ≡ leb r (above e es)
removed r e es d h =
    contains-drop e r (sort_descending es) (IsFalling-sort_descending es d)
      (contains-sort_descending e es ∙ h)
    ∙ ap (leb r) (above-sort_descending e es)

remove_dirs-highest :
    (r : ℕ) (es : List ℕ) (ds : Disk)
    → Distinct es
    → AllIn es ds
    → remove_dirs (drop r (sort_descending es)) ds ≡ highest r es ds
remove_dirs-highest r es [] d a = refl
remove_dirs-highest r es (x ∷ ds) d (h, a) = elim (Bool-cases (ltb (above x.epoch es) r)) [
  | inl low ↦
      let kept : contains x.epoch (drop r (sort_descending es)) ≡ false =
        removed r x.epoch es d h ∙ ground arith in
      rw (kept, low) (ap (λ t. x ∷ t) (remove_dirs-highest r es ds d a))
  | inr high ↦
      let gone : contains x.epoch (drop r (sort_descending es)) ≡ true =
        removed r x.epoch es d h ∙ ground arith in
      rw (gone, high) (remove_dirs-highest r es ds d a)
]

-- With a retention of 1 or more, and no epoch with two directories, `prune` keeps the directories of
-- exactly those epochs with fewer than so many epochs above them on the disk, in their order.
pub prune-highest :
    (r : ℕ) (disk : Disk)
    → 1 ≤ r
    → Distinct (epochs_of disk)
    → prune (pos r) disk ≡ highest r (epochs_of disk) disk
unfolding prune
prune-highest r disk h d =
    let on : ltb_ℤ (pos 0) (pos r) ≡ true = ground arith in
    rw on (remove_dirs-highest r (epochs_of disk) disk d (AllIn-epochs_of disk))

-- How many of some epochs have fewer than r of a list above them.
abbrev kept : ℕ → List ℕ → List ℕ → ℕ
kept r es [] = 0
kept r es (y ∷ ys) = (if ltb (above y es) r then 1 else 0) + kept r es ys

kept_zero : (es ys : List ℕ) → kept 0 es ys ≡ 0
kept_zero es [] = refl
kept_zero es (y ∷ ys) = ground (arith, kept_zero es ys)

kept_shift :
    (r x : ℕ) (xs ys : List ℕ) → All (λ y. y < x) ys → kept (suc r) (x ∷ xs) ys ≡ kept r xs ys
kept_shift r x xs [] a = refl
kept_shift r x xs (y ∷ ys) (l, a) = ground (arith, kept_shift r x xs ys a)

kept_falling : (r : ℕ) (xs : List ℕ) → IsFalling xs → kept r xs xs ≤ r
kept_falling zero xs f = omega (arith, kept_zero xs xs)
kept_falling (suc r) [] f = omega arith
kept_falling (suc r) (x ∷ xs) (a, f) = ground (arith, kept_shift r x xs xs a, kept_falling r xs f)

kept-insert_descending :
    (r x : ℕ) (es ys : List ℕ) → kept r es (insert_descending x ys) ≡ kept r es (x ∷ ys)
kept-insert_descending r x es [] = refl
kept-insert_descending r x es (y ∷ ys) = elim (Bool-cases (ltb x y)) [
  | inl h ↦ rw h (omega (arith, kept-insert_descending r x es ys))
  | inr h ↦ rw h refl
]

kept-sort_descending : (r : ℕ) (es ys : List ℕ) → kept r es (sort_descending ys) ≡ kept r es ys
kept-sort_descending r es [] = refl
kept-sort_descending r es (y ∷ ys) =
    omega (arith, kept-insert_descending r y es (sort_descending ys), kept-sort_descending r es ys)

kept_sorted : (r : ℕ) (es ys : List ℕ) → kept r (sort_descending es) ys ≡ kept r es ys
kept_sorted r es [] = refl
kept_sorted r es (y ∷ ys) = rw (above-sort_descending y es) (omega (arith, kept_sorted r es ys))

length-highest :
    (r : ℕ) (es : List ℕ) (ds : Disk) → length (highest r es ds) ≡ kept r es (epochs_of ds)
length-highest r es [] = refl
length-highest r es (d ∷ ds) = ground (arith, length-highest r es ds)

-- Then at most so many directories are left.
pub length-prune :
    (r : ℕ) (disk : Disk) → 1 ≤ r → Distinct (epochs_of disk) → length (prune (pos r) disk) ≤ r
length-prune r disk h d =
    let es = epochs_of disk in
    rw (prune-highest r disk h d) (
      omega (
        arith,
        length-highest r es disk,
        kept_falling r (sort_descending es) (IsFalling-sort_descending es d),
        kept-sort_descending r (sort_descending es) es,
        kept_sorted r es es,
      ))
