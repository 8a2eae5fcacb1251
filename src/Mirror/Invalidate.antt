-- ===== src/Mirror/Invalidate.antt =====
-- What is on the disk after `invalidate_artifact`, and after the `mirror_epoch` that follows.
use gm_validator.Prelude.{
  ℕ, ◌==◌, false, none, some, List, [], ◌∷◌, ◌≡◌, ◌≢◌, ◌⊎◌, refl, ap, ◌∙◌, inl, inr, arith,
  Bool-cases,
}
use gm_validator.Errors.{ok}
use gm_validator.Mirror.{
  Artifact, same_artifact, File, Bucket, Disk, file_of, dir_files, read_file, update_dir, without,
  mirror_epoch, invalidate_artifact,
}
use gm_validator.Mirror.Files.{
  HasDir, dir_files-update_dir, dir_files-update_dir_ne, same_artifact-eq, file_of-without_self,
  file_of-without_ne,
}
use gm_validator.Mirror.Fetch.{mirror_epoch-IsMirrored}

update_dir_absent :
    (e : ℕ) (f : List (Artifact × File) → List (Artifact × File)) (disk : Disk)
    → ((HasDir e disk) ⊎ (dir_files e (update_dir e f disk) ≡ []))
update_dir_absent e f [] = inr refl
update_dir_absent e f (d ∷ ds) = elim (Bool-cases (d.epoch == e)) [
  | inl s ↦ inl (inl (ground arith))
  | inr s ↦ elim (update_dir_absent e f ds) [ inl h ↦ inl (inr h) | inr h ↦ inr (rw (s, s) h) ]
]

pub invalidated :
    (e : ℕ) (a : Artifact) (disk : Disk) → read_file e a (invalidate_artifact e a disk) ≡ none
unfolding read_file invalidate_artifact
invalidated e a disk = elim (update_dir_absent e (without a) disk) [
  | inl dir ↦
      ap (file_of a) (dir_files-update_dir e (without a) disk dir)
      ∙ file_of-without_self a (dir_files e disk)
  | inr gone ↦ ap (file_of a) gone
]

-- A refused artifact does not stick: after `invalidate_artifact` the next `mirror_epoch` of the epoch
-- that ends without an exception has it as the bucket has it then.
pub mirror_epoch-invalidate_artifact :
    (bucket : Bucket) (e : ℕ) (a : Artifact) (disk : Disk)
    → (mirror_epoch bucket e (invalidate_artifact e a disk)).1 ≡ ok tt
    → (f : File) × (bucket.download e a ≡ ok f)
      × (read_file e a (mirror_epoch bucket e (invalidate_artifact e a disk)).0 ≡ some f)
mirror_epoch-invalidate_artifact bucket e a disk h =
    let m = mirror_epoch-IsMirrored bucket e (invalidate_artifact e a disk) h a in
    elim (m.origin) [
      | inl cached ↦ cc (invalidated e a disk)
      | inr (gone, came) ↦ (m.file, came, m.there)
    ]

differ : (a b : Artifact) → a ≢ b → same_artifact a b ≡ false
differ a b n = elim (Bool-cases (same_artifact a b)) [
  | inl s ↦ absurd (n (same_artifact-eq a b s))
  | inr s ↦ s
]

without_elsewhere :
    (e e' : ℕ) (a b : Artifact) (disk : Disk)
    → same_artifact a b ≡ false
    → file_of b (dir_files e' (update_dir e (without a) disk)) ≡ file_of b (dir_files e' disk)
without_elsewhere e e' a b [] n = refl
without_elsewhere e e' a b (d ∷ ds) n = elim (Bool-cases (d.epoch == e)) [
  | inl s ↦ elim (Bool-cases (d.epoch == e')) [
    | inl t ↦ rw (s, t) (file_of-without_ne a b d.files n)
    | inr t ↦ rw (s, t) refl
  ]
  | inr s ↦ elim (Bool-cases (d.epoch == e')) [
    | inl t ↦ rw (s, t) refl
    | inr t ↦ rw (s, t) (without_elsewhere e e' a b ds n)
  ]
]

-- The other files keep: those of the epoch's other artifacts, and those of the other epochs.
pub read_file-invalidate_artifact_ne :
    (e e' : ℕ) (a b : Artifact) (disk : Disk)
    → (e ≢ e') ⊎ (a ≢ b)
    → read_file e' b (invalidate_artifact e a disk) ≡ read_file e' b disk
unfolding read_file invalidate_artifact
read_file-invalidate_artifact_ne e e' a b disk (inl n) =
    ap (file_of b) (dir_files-update_dir_ne e e' (without a) disk n)
read_file-invalidate_artifact_ne e e' a b disk (inr n) =
    without_elsewhere e e' a b disk (differ a b n)
