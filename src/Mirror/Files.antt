-- ===== src/Mirror/Files.antt =====
-- The directories of the mirror and the files in them.
use gm_validator.Prelude.{
  ℕ, ◌==◌, true, false, none, List, [], ◌∷◌, ◌≡◌, ◌≢◌, ◌⊎◌, refl, sym, inl, inr, arith, Bool-cases,
}
use mathlib.Core.Path.{subst}
use gm_validator.Mirror.{
  Artifact, aggregated, epoch_summary, finalized, same_artifact, File, Disk, file_of, dir_files,
  make_dir, update_dir, without,
}

-- There is a directory for the epoch.
abbrev pub HasDir : ℕ → Disk → Type 0
HasDir e [] = ⊥
HasDir e (d ∷ ds) = (d.epoch ≡ e) ⊎ HasDir e ds

pub make_dir-HasDir : (e : ℕ) (disk : Disk) → HasDir e (make_dir e disk)
unfolding make_dir
make_dir-HasDir e [] = inl refl
make_dir-HasDir e (d ∷ ds) = elim (Bool-cases (d.epoch == e)) [
  | inl h ↦ rw h (inl (ground arith))
  | inr h ↦ rw h (inr (make_dir-HasDir e ds))
]

pub dir_files-make_dir : (e : ℕ) (disk : Disk) → dir_files e (make_dir e disk) ≡ dir_files e disk
unfolding make_dir
dir_files-make_dir e [] = ground arith
dir_files-make_dir e (d ∷ ds) = elim (Bool-cases (d.epoch == e)) [
  | inl h ↦ rw (h, h) refl
  | inr h ↦ rw (h, h) (dir_files-make_dir e ds)
]

pub update_dir-HasDir :
    (e : ℕ) (f : List (Artifact × File) → List (Artifact × File)) (disk : Disk)
    → HasDir e disk
    → HasDir e (update_dir e f disk)
update_dir-HasDir e f [] h = h
update_dir-HasDir e f (d ∷ ds) h = elim (Bool-cases (d.epoch == e)) [
  | inl s ↦ rw s (inl (ground arith))
  | inr s ↦ elim h [
    | inl same ↦ ground arith
    | inr rest ↦ rw s (inr (update_dir-HasDir e f ds rest))
  ]
]

pub dir_files-update_dir :
    (e : ℕ) (f : List (Artifact × File) → List (Artifact × File)) (disk : Disk)
    → HasDir e disk
    → dir_files e (update_dir e f disk) ≡ f (dir_files e disk)
dir_files-update_dir e f [] h = absurd h
dir_files-update_dir e f (d ∷ ds) h = elim (Bool-cases (d.epoch == e)) [
  | inl s ↦ rw (s, s) refl
  | inr s ↦ elim h [
    | inl same ↦ ground arith
    | inr rest ↦ rw (s, s) (dir_files-update_dir e f ds rest)
  ]
]

pub dir_files-update_dir_ne :
    (e e' : ℕ) (f : List (Artifact × File) → List (Artifact × File)) (disk : Disk)
    → (e ≢ e')
    → dir_files e' (update_dir e f disk) ≡ dir_files e' disk
dir_files-update_dir_ne e e' f [] n = refl
dir_files-update_dir_ne e e' f (d ∷ ds) n = elim (Bool-cases (d.epoch == e)) [
  | inl s ↦ let other : (d.epoch == e') ≡ false = ground arith in rw (s, other) refl
  | inr s ↦ elim (Bool-cases (d.epoch == e')) [
    | inl t ↦ rw (s, t) refl
    | inr t ↦ rw (s, t) (dir_files-update_dir_ne e e' f ds n)
  ]
]

pub same_artifact-eq : (a b : Artifact) → same_artifact a b ≡ true → a ≡ b
same_artifact-eq aggregated aggregated h = refl
same_artifact-eq epoch_summary epoch_summary h = refl
same_artifact-eq finalized finalized h = refl
same_artifact-eq aggregated epoch_summary h = cc
same_artifact-eq aggregated finalized h = cc
same_artifact-eq epoch_summary aggregated h = cc
same_artifact-eq epoch_summary finalized h = cc
same_artifact-eq finalized aggregated h = cc
same_artifact-eq finalized epoch_summary h = cc

pub same_self : (a : Artifact) → same_artifact a a ≡ true
same_self aggregated = refl
same_self epoch_summary = refl
same_self finalized = refl

pub file_of-without_self :
    (a : Artifact) (files : List (Artifact × File)) → file_of a (without a files) ≡ none
file_of-without_self a [] = refl
file_of-without_self a ((c, f) ∷ files) = elim (Bool-cases (same_artifact c a)) [
  | inl s ↦ rw s (file_of-without_self a files)
  | inr s ↦ rw (s, s) (file_of-without_self a files)
]

pub file_of-without_ne :
    (a b : Artifact) (files : List (Artifact × File))
    → same_artifact a b ≡ false
    → file_of b (without a files) ≡ file_of b files
file_of-without_ne a b [] n = refl
file_of-without_ne a b ((c, f) ∷ files) n = elim (Bool-cases (same_artifact c a)) [
  | inl s ↦
      let other = subst (λ x. same_artifact x b ≡ false) (sym (same_artifact-eq c a s)) n in
      rw (s, other) (file_of-without_ne a b files n)
  | inr s ↦ elim (Bool-cases (same_artifact c b)) [
    | inl t ↦ rw (s, t) refl
    | inr t ↦ rw (s, t) (file_of-without_ne a b files n)
  ]
]
