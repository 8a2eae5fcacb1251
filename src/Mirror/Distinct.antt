-- ===== src/Mirror/Distinct.antt =====
-- The directories over all the operations: no epoch gets a second one.
use gm_validator.Prelude.{
  ℕ, false, List, [], ◌∷◌, ◌≡◌, refl, ap, ◌∙◌, ◌==◌, drop, Bool-cases, Option-cases, inl, inr,
  arith,
}
use gm_validator.Prelude.Int.{ℤ, pos, pos_part, ltb_ℤ}
use gm_validator.Errors.{Result-cases}
use gm_validator.Mirror.{
  Artifact, artifacts, File, Bucket, Disk, sort_descending, epochs_of, contains, remove_dirs, prune,
  make_dir, update_dir, read_file, download, download_all, mirror_epoch, invalidate_artifact,
  without,
}
use gm_validator.Mirror.Ranks.{Distinct}
use gm_validator.Mirror.Fetch.{
  download_cached, download_fresh, download_failed, download_all_raised, download_all_next,
  download_all_done,
}

not_contains-make_dir :
    (x e : ℕ) (ds : Disk)
    → (x == e) ≡ false
    → contains x (epochs_of ds) ≡ false
    → contains x (epochs_of (make_dir e ds)) ≡ false
unfolding make_dir
not_contains-make_dir x e [] n h = ground arith
not_contains-make_dir x e (d ∷ ds) n h = elim (Bool-cases (d.epoch == e)) [
  | inl s ↦ rw s h
  | inr s ↦
      let rest = not_contains-make_dir x e ds n (ground arith) in
      let first : (d.epoch == x) ≡ false = ground arith in rw (s, first) rest
]

make_dir-Distinct :
    (e : ℕ) (ds : Disk) → Distinct (epochs_of ds) → Distinct (epochs_of (make_dir e ds))
unfolding make_dir
make_dir-Distinct e [] h = (refl, tt)
make_dir-Distinct e (d ∷ ds) (n, h) = elim (Bool-cases (d.epoch == e)) [
  | inl s ↦ rw s (n, h)
  | inr s ↦ rw s (not_contains-make_dir d.epoch e ds s n, make_dir-Distinct e ds h)
]

epochs_of-update_dir :
    (e : ℕ) (f : List (Artifact × File) → List (Artifact × File)) (ds : Disk)
    → epochs_of (update_dir e f ds) ≡ epochs_of ds
epochs_of-update_dir e f [] = refl
epochs_of-update_dir e f (d ∷ ds) = elim (Bool-cases (d.epoch == e)) [
  | inl s ↦ rw s refl
  | inr s ↦ rw s (ap (λ es. d.epoch ∷ es) (epochs_of-update_dir e f ds))
]

epochs_of-download :
    (bucket : Bucket) (e : ℕ) (a : Artifact) (disk : Disk)
    → epochs_of (download bucket e a disk).0 ≡ epochs_of disk
epochs_of-download bucket e a disk = elim (Option-cases (read_file e a disk)) [
  | inr (f, here) ↦ rw (download_cached bucket e a disk f here) refl
  | inl gone ↦ elim (Result-cases (bucket.download e a)) [
    | inl (x, failed) ↦ rw (download_failed bucket e a disk x gone failed) refl
    | inr (f, came) ↦
        rw (download_fresh bucket e a disk f gone came)
          (epochs_of-update_dir e (λ fs. (a, f) ∷ fs) disk)
  ]
]

epochs_of-download_all :
    (bucket : Bucket) (e : ℕ) (as' : List Artifact) (disk : Disk)
    → epochs_of (download_all bucket e as' disk).0 ≡ epochs_of disk
epochs_of-download_all bucket e [] disk = rw (download_all_done bucket e disk) refl
epochs_of-download_all bucket e (a ∷ as') disk =
    let first = epochs_of-download bucket e a disk in
    elim (Result-cases ((download bucket e a disk).1)) [
      | inl (x, failed) ↦ rw (download_all_raised bucket e a as' disk x failed) first
      | inr (tt, fine) ↦
          rw (download_all_next bucket e a as' disk fine)
            (epochs_of-download_all bucket e as' (download bucket e a disk).0 ∙ first)
    ]

-- `mirror_epoch` gives no epoch a second directory, however it ends.
pub mirror_epoch-Distinct :
    (bucket : Bucket) (e : ℕ) (disk : Disk)
    → Distinct (epochs_of disk)
    → Distinct (epochs_of (mirror_epoch bucket e disk).0)
unfolding mirror_epoch
mirror_epoch-Distinct bucket e disk h =
    rw (epochs_of-download_all bucket e artifacts (make_dir e disk)) (make_dir-Distinct e disk h)

pub invalidate_artifact-Distinct :
    (e : ℕ) (a : Artifact) (disk : Disk)
    → Distinct (epochs_of disk)
    → Distinct (epochs_of (invalidate_artifact e a disk))
unfolding invalidate_artifact
invalidate_artifact-Distinct e a disk h = rw (epochs_of-update_dir e (without a) disk) h

not_contains-remove_dirs :
    (x : ℕ) (es : List ℕ) (ds : Disk)
    → contains x (epochs_of ds) ≡ false
    → contains x (epochs_of (remove_dirs es ds)) ≡ false
not_contains-remove_dirs x es [] h = refl
not_contains-remove_dirs x es (d ∷ ds) h =
    let rest = not_contains-remove_dirs x es ds (ground arith) in
    let first : (d.epoch == x) ≡ false = ground arith in
    elim (Bool-cases (contains d.epoch es)) [
      | inl gone ↦ rw gone rest
      | inr stays ↦ rw (stays, first) rest
    ]

remove_dirs-Distinct :
    (es : List ℕ) (ds : Disk) → Distinct (epochs_of ds) → Distinct (epochs_of (remove_dirs es ds))
remove_dirs-Distinct es [] h = tt
remove_dirs-Distinct es (d ∷ ds) (n, h) = elim (Bool-cases (contains d.epoch es)) [
  | inl gone ↦ rw gone (remove_dirs-Distinct es ds h)
  | inr stays ↦ rw stays (not_contains-remove_dirs d.epoch es ds n, remove_dirs-Distinct es ds h)
]

pub prune-Distinct :
    (retention : ℤ) (disk : Disk)
    → Distinct (epochs_of disk)
    → Distinct (epochs_of (prune retention disk))
unfolding prune
prune-Distinct retention disk h = elim (Bool-cases (ltb_ℤ (pos 0) retention)) [
  | inl on ↦
      rw on
        (remove_dirs-Distinct (drop (pos_part retention) (sort_descending (epochs_of disk))) disk h)
  | inr off ↦ rw off h
]
