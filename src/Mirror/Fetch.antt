-- ===== src/Mirror/Fetch.antt =====
-- What is on the disk after `mirror_epoch`.
use gm_validator.Prelude.{
  ℕ, false, none, some, List, [], ◌∷◌, ◌≡◌, ◌⊎◌, refl, sym, ap, ◌∙◌, inl, inr, Option-cases,
}
use mathlib.Core.Path.{subst}
use gm_validator.Errors.{Error, ok, raised, Result-cases}
use gm_validator.Mirror.{
  Artifact, aggregated, epoch_summary, finalized, same_artifact, artifacts, File, Bucket, Disk,
  file_of, read_file, make_dir, update_dir, download, download_all, mirror_epoch,
}
use gm_validator.Mirror.Files.{
  HasDir, make_dir-HasDir, dir_files-make_dir, update_dir-HasDir, dir_files-update_dir, same_self,
}

-- What a download that ends well leaves: the artifact, cached or from the bucket; the directory; and
-- the other artifacts as they were.
pub record Fetched (bucket : Bucket) (e : ℕ) (a : Artifact) (disk disk' : Disk) : Type 0 where
  file : File
  there : read_file e a disk' ≡ some file
  origin :
      (read_file e a disk ≡ some file)
      ⊎ ((read_file e a disk ≡ none) × (bucket.download e a ≡ ok file))
  pub dir : HasDir e disk'
  pub others : (b : Artifact) → same_artifact a b ≡ false → read_file e b disk' ≡ read_file e b disk

pub download_cached :
    (bucket : Bucket) (e : ℕ) (a : Artifact) (disk : Disk) (f : File)
    → read_file e a disk ≡ some f
    → download bucket e a disk ≡ (disk, ok tt)
unfolding download
download_cached bucket e a disk f h = simp (download, h)

pub download_fresh :
    (bucket : Bucket) (e : ℕ) (a : Artifact) (disk : Disk) (f : File)
    → read_file e a disk ≡ none
    → bucket.download e a ≡ ok f
    → download bucket e a disk ≡ (update_dir e (λ fs. (a, f) ∷ fs) disk, ok tt)
unfolding download
download_fresh bucket e a disk f h d = simp (download, h, d)

pub download_failed :
    (bucket : Bucket) (e : ℕ) (a : Artifact) (disk : Disk) (x : Error)
    → read_file e a disk ≡ none
    → bucket.download e a ≡ raised x
    → download bucket e a disk ≡ (disk, raised x)
unfolding download
download_failed bucket e a disk x h d = simp (download, h, d)

pub download-Fetched :
    (bucket : Bucket) (e : ℕ) (a : Artifact) (disk : Disk)
    → HasDir e disk
    → (download bucket e a disk).1 ≡ ok tt
    → Fetched bucket e a disk (download bucket e a disk).0
unfolding read_file
download-Fetched bucket e a disk dir h = elim (Option-cases (read_file e a disk)) [
  | inr (f, here) ↦
      rw (download_cached bucket e a disk f here)
        (record { file = f; there = here; origin = inl here; dir = dir; others = λ b n. refl })
  | inl gone ↦ elim (Result-cases (bucket.download e a)) [
    | inl (x, failed) ↦ cc (download_failed bucket e a disk x gone failed)
    | inr (f, came) ↦ rw (download_fresh bucket e a disk f gone came) (record {
      file = f;
      there = rw (dir_files-update_dir e (λ fs. (a, f) ∷ fs) disk dir, same_self a) refl;
      origin = inr (gone, came);
      dir = update_dir-HasDir e (λ fs. (a, f) ∷ fs) disk dir;
      others = λ b n. rw (dir_files-update_dir e (λ fs. (a, f) ∷ fs) disk dir, n) refl;
    })
  ]
]

-- What is true of an artifact after the whole epoch is mirrored.
pub record IsMirrored (bucket : Bucket) (e : ℕ) (a : Artifact) (disk disk' : Disk) : Type 0 where
  pub file : File
  pub there : read_file e a disk' ≡ some file
  pub origin :
      (read_file e a disk ≡ some file)
      ⊎ ((read_file e a disk ≡ none) × (bucket.download e a ≡ ok file))

pub download_all_raised :
    (bucket : Bucket) (e : ℕ) (a : Artifact) (rest : List Artifact) (disk : Disk) (x : Error)
    → (download bucket e a disk).1 ≡ raised x
    → download_all bucket e (a ∷ rest) disk ≡ ((download bucket e a disk).0, raised x)
unfolding download_all
download_all_raised bucket e a rest disk x h = rw (download_all, h) refl

pub download_all_next :
    (bucket : Bucket) (e : ℕ) (a : Artifact) (rest : List Artifact) (disk : Disk)
    → (download bucket e a disk).1 ≡ ok tt
    → download_all bucket e (a ∷ rest) disk
      ≡ download_all bucket e rest (download bucket e a disk).0
unfolding download_all
download_all_next bucket e a rest disk h = rw (download_all, h) refl

download_all_step :
    (bucket : Bucket) (e : ℕ) (a : Artifact) (rest : List Artifact) (disk : Disk)
    → (download_all bucket e (a ∷ rest) disk).1 ≡ ok tt
    → ((download bucket e a disk).1 ≡ ok tt)
      × (download_all bucket e (a ∷ rest) disk
          ≡ download_all bucket e rest (download bucket e a disk).0)
download_all_step bucket e a rest disk h = elim (Result-cases ((download bucket e a disk).1)) [
  | inl (x, failed) ↦ cc (download_all_raised bucket e a rest disk x failed)
  | inr (tt, fine) ↦ (fine, download_all_next bucket e a rest disk fine)
]

pub read_file-make_dir :
    (e : ℕ) (a : Artifact) (disk : Disk) → read_file e a (make_dir e disk) ≡ read_file e a disk
unfolding read_file
read_file-make_dir e a disk = ap (file_of a) (dir_files-make_dir e disk)

pub download_all_done :
    (bucket : Bucket) (e : ℕ) (disk : Disk) → download_all bucket e [] disk ≡ (disk, ok tt)
unfolding download_all
download_all_done bucket e disk = refl

module _ (bucket : Bucket) (e : ℕ) where
  -- A download between two disks that agree on its artifact.
  carry :
      (a : Artifact) (disk0 disk1 disk2 disk3 : Disk)
      → read_file e a disk1 ≡ read_file e a disk0
      → read_file e a disk3 ≡ read_file e a disk2
      → Fetched bucket e a disk1 disk2
      → IsMirrored bucket e a disk0 disk3
  carry a disk0 disk1 disk2 disk3 before after f = record {
    file = f.file;
    there = after ∙ f.there;
    origin = elim (f.origin) [
      | inl cached ↦ inl (sym before ∙ cached)
      | inr (gone, came) ↦ inr (sym before ∙ gone, came)
    ];
  }

  collect :
      (disk0 disk1 disk2 disk3 : Disk)
      → Fetched bucket e aggregated disk0 disk1
      → Fetched bucket e epoch_summary disk1 disk2
      → Fetched bucket e finalized disk2 disk3
      → (a : Artifact) → IsMirrored bucket e a disk0 disk3
  collect disk0 disk1 disk2 disk3 f1 f2 f3 aggregated =
      carry aggregated disk0 disk0 disk1 disk3 refl
        (f3.others aggregated refl ∙ f2.others aggregated refl) f1
  collect disk0 disk1 disk2 disk3 f1 f2 f3 epoch_summary =
      carry epoch_summary disk0 disk1 disk2 disk3 (f1.others epoch_summary refl)
        (f3.others epoch_summary refl) f2
  collect disk0 disk1 disk2 disk3 f1 f2 f3 finalized =
      carry finalized disk0 disk2 disk3 disk3 (f2.others finalized refl ∙ f1.others finalized refl)
        refl f3

-- The three downloads, one after the other.
fetch_all :
    (bucket : Bucket) (e : ℕ) (disk : Disk)
    → HasDir e disk
    → (download_all bucket e artifacts disk).1 ≡ ok tt
    → (a : Artifact) → IsMirrored bucket e a disk (download_all bucket e artifacts disk).0
fetch_all bucket e disk dir h a =
    let (ok1, step1) =
      download_all_step bucket e aggregated (epoch_summary ∷ finalized ∷ []) disk h in
    let f1 = download-Fetched bucket e aggregated disk dir ok1 in
    let disk1 = (download bucket e aggregated disk).0 in
    let (ok2, step2) =
      download_all_step bucket e epoch_summary (finalized ∷ []) disk1
        (ap (λ r. r.1) (sym step1) ∙ h) in
    let f2 = download-Fetched bucket e epoch_summary disk1 (f1.dir) ok2 in
    let disk2 = (download bucket e epoch_summary disk1).0 in
    let (ok3, step3) =
      download_all_step bucket e finalized [] disk2 (ap (λ r. r.1) (sym (step1 ∙ step2)) ∙ h) in
    let f3 = download-Fetched bucket e finalized disk2 (f2.dir) ok3 in
    let end =
      step1 ∙ step2 ∙ step3 ∙ download_all_done bucket e (download bucket e finalized disk2).0 in
    subst (λ d. IsMirrored bucket e a disk d) (ap (λ r. r.0) (sym end))
      (collect bucket e disk disk1 disk2 (download bucket e finalized disk2).0 f1 f2 f3 a)

-- When `mirror_epoch` ends without an exception each of the three artifacts is on the disk: as it was
-- if it was there before, else as the bucket has it.
pub mirror_epoch-IsMirrored :
    (bucket : Bucket) (e : ℕ) (disk : Disk)
    → (mirror_epoch bucket e disk).1 ≡ ok tt
    → (a : Artifact) → IsMirrored bucket e a disk (mirror_epoch bucket e disk).0
unfolding mirror_epoch
mirror_epoch-IsMirrored bucket e disk h a =
    let m = fetch_all bucket e (make_dir e disk) (make_dir-HasDir e disk) h a in
    let same = read_file-make_dir e a disk in
    record {
      file = m.file;
      there = m.there;
      origin = elim (m.origin) [
        | inl cached ↦ inl (sym same ∙ cached)
        | inr (gone, came) ↦ inr (sym same ∙ gone, came)
      ];
    }
