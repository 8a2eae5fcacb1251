-- ===== src/Mirror/Absent.antt =====
-- The files of the mirror before and after directories are removed.
use mathlib.Core.Path.{subst}
use gm_validator.Prelude.{
  ℕ, true, false, none, List, [], ◌∷◌, ◌≡◌, ◌⊎◌, refl, ap, ◌∙◌, ◌==◌, inl, inr, arith, Bool-cases,
  drop,
}
use gm_validator.Prelude.Int.{ℤ, pos, pos_part, ltb_ℤ}
use gm_validator.Mirror.{
  Artifact, Disk, file_of, dir_files, read_file, contains, epochs_of, sort_descending, remove_dirs,
  prune,
}

dir_files-remove_dirs_in :
    (e : ℕ) (es : List ℕ) (disk : Disk)
    → contains e es ≡ true
    → dir_files e (remove_dirs es disk) ≡ []
dir_files-remove_dirs_in e es [] h = refl
dir_files-remove_dirs_in e es (d ∷ ds) h = elim (Bool-cases (contains d.epoch es)) [
  | inl gone ↦ rw gone (dir_files-remove_dirs_in e es ds h)
  | inr kept ↦ elim (Bool-cases (d.epoch == e)) [
    | inl s ↦
        let same : d.epoch ≡ e = ground arith in
        absurd (cc (subst (λ x. contains x es ≡ false) same kept, h))
    | inr s ↦ rw (kept, s) (dir_files-remove_dirs_in e es ds h)
  ]
]

dir_files-remove_dirs_out :
    (e : ℕ) (es : List ℕ) (disk : Disk)
    → contains e es ≡ false
    → dir_files e (remove_dirs es disk) ≡ dir_files e disk
dir_files-remove_dirs_out e es [] h = refl
dir_files-remove_dirs_out e es (d ∷ ds) h = elim (Bool-cases (d.epoch == e)) [
  | inl s ↦
      let same : e ≡ d.epoch = ground arith in
      rw (subst (λ x. contains x es ≡ false) same h, s) refl
  | inr s ↦ elim (Bool-cases (contains d.epoch es)) [
    | inl gone ↦ rw (gone, s) (dir_files-remove_dirs_out e es ds h)
    | inr kept ↦ rw (kept, s) (dir_files-remove_dirs_out e es ds h)
  ]
]

read_file-remove_dirs :
    (e : ℕ) (a : Artifact) (es : List ℕ) (disk : Disk)
    → (read_file e a (remove_dirs es disk) ≡ none)
      ⊎ (read_file e a (remove_dirs es disk) ≡ read_file e a disk)
unfolding read_file
read_file-remove_dirs e a es disk = elim (Bool-cases (contains e es)) [
  | inl h ↦ inl (ap (file_of a) (dir_files-remove_dirs_in e es disk h))
  | inr h ↦ inr (ap (file_of a) (dir_files-remove_dirs_out e es disk h))
]

-- `prune` removes a file or leaves it as it was.
pub read_file-prune :
    (retention : ℤ) (e : ℕ) (a : Artifact) (disk : Disk)
    → (read_file e a (prune retention disk) ≡ none)
      ⊎ (read_file e a (prune retention disk) ≡ read_file e a disk)
unfolding prune
read_file-prune retention e a disk = elim (Bool-cases (ltb_ℤ (pos 0) retention)) [
  | inl on ↦ rw on (
      read_file-remove_dirs e a (drop (pos_part retention) (sort_descending (epochs_of disk))) disk)
  | inr off ↦ rw off (inr refl)
]

pub prune_absent :
    (retention : ℤ) (e : ℕ) (a : Artifact) (disk : Disk)
    → read_file e a disk ≡ none
    → read_file e a (prune retention disk) ≡ none
prune_absent retention e a disk h = elim (read_file-prune retention e a disk) [
  | inl gone ↦ gone
  | inr kept ↦ kept ∙ h
]
