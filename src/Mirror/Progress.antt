-- ===== src/Mirror/Progress.antt =====
-- When `mirror_epoch` gets to its end.
use gm_validator.Prelude.{
  ℕ, none, some, [], ◌∷◌, ◌≡◌, ◌↔◌, refl, sym, ap, ◌∙◌, inl, inr, Option-cases, false,
}
use gm_validator.Errors.{Result, ok, ok_injective}
use gm_validator.Mirror.{
  Artifact, aggregated, epoch_summary, finalized, same_artifact, artifacts, File, Bucket, Disk,
  read_file, make_dir, download, download_all, mirror_epoch,
}
use gm_validator.Mirror.Files.{HasDir, make_dir-HasDir}
use gm_validator.Mirror.Fetch.{
  IsMirrored, download_cached, download_fresh, download-Fetched, download_all_next,
  download_all_done, read_file-make_dir, mirror_epoch-IsMirrored,
}

-- The artifact as a reader wants it: the file on the disk, else what the bucket has.
abbrev pub served : Bucket → ℕ → Disk → Artifact → Result File
served bucket e disk a = elim (read_file e a disk) [ some f ↦ ok f | none ↦ bucket.download e a ]

pub served_cached :
    (bucket : Bucket) (e : ℕ) (disk : Disk) (a : Artifact) (f : File)
    → read_file e a disk ≡ some f
    → served bucket e disk a ≡ ok f
served_cached bucket e disk a f h = rw (served, h) refl

pub served_fresh :
    (bucket : Bucket) (e : ℕ) (disk : Disk) (a : Artifact)
    → read_file e a disk ≡ none
    → served bucket e disk a ≡ bucket.download e a
served_fresh bucket e disk a h = rw (served, h) refl

served_same :
    (bucket : Bucket) (e : ℕ) (disk disk' : Disk) (a : Artifact)
    → read_file e a disk' ≡ read_file e a disk
    → served bucket e disk' a ≡ served bucket e disk a
served_same bucket e disk disk' a h =
    ap (λ r. elim r [ some f ↦ Result.ok f | none ↦ bucket.download e a ]) h

-- A download of what is served ends well.
download-served :
    (bucket : Bucket) (e : ℕ) (disk : Disk) (a : Artifact) (f : File)
    → served bucket e disk a ≡ ok f
    → (download bucket e a disk).1 ≡ ok tt
download-served bucket e disk a f h = elim (Option-cases (read_file e a disk)) [
  | inr (g, here) ↦ ap (λ r. r.1) (download_cached bucket e a disk g here)
  | inl gone ↦
      ap (λ r. r.1)
        (download_fresh bucket e a disk f gone (sym (served_fresh bucket e disk a gone) ∙ h))
]

-- And leaves the other artifacts served as they were.
served_other :
    (bucket : Bucket) (e : ℕ) (disk : Disk) (a b : Artifact)
    → HasDir e disk
    → (download bucket e a disk).1 ≡ ok tt
    → same_artifact a b ≡ false
    → served bucket e (download bucket e a disk).0 b ≡ served bucket e disk b
served_other bucket e disk a b dir fine other =
    served_same bucket e disk (download bucket e a disk).0 b
      ((download-Fetched bucket e a disk dir fine).others b other)

download_all-served :
    (bucket : Bucket) (e : ℕ) (disk : Disk) (files : Artifact → File)
    → HasDir e disk
    → ((a : Artifact) → served bucket e disk a ≡ ok (files a))
    → (download_all bucket e artifacts disk).1 ≡ ok tt
download_all-served bucket e disk files dir h =
    let ok1 = download-served bucket e disk aggregated _ (h aggregated) in
    let disk1 = (download bucket e aggregated disk).0 in
    let dir1 = (download-Fetched bucket e aggregated disk dir ok1).dir in
    let kept1 = λ (b : Artifact). served_other bucket e disk aggregated b dir ok1 in
    let ok2 =
      download-served bucket e disk1 epoch_summary _ (kept1 epoch_summary refl ∙ h epoch_summary) in
    let disk2 = (download bucket e epoch_summary disk1).0 in
    let ok3 = download-served bucket e disk2 finalized _ (
      served_other bucket e disk1 epoch_summary finalized dir1 ok2 refl
      ∙ kept1 finalized refl
      ∙ h finalized) in
    let end =
      download_all_next bucket e aggregated (epoch_summary ∷ finalized ∷ []) disk ok1
      ∙ download_all_next bucket e epoch_summary (finalized ∷ []) disk1 ok2
      ∙ download_all_next bucket e finalized [] disk2 ok3
      ∙ download_all_done bucket e (download bucket e finalized disk2).0 in
    ap (λ r. r.1) end

pub mirror_epoch_ends :
    (bucket : Bucket) (e : ℕ) (disk : Disk) (files : Artifact → File)
    → ((a : Artifact) → served bucket e disk a ≡ ok (files a))
    → (mirror_epoch bucket e disk).1 ≡ ok tt
unfolding mirror_epoch
mirror_epoch_ends bucket e disk files h =
    download_all-served bucket e (make_dir e disk) files (make_dir-HasDir e disk)
      λ a. served_same bucket e disk (make_dir e disk) a (read_file-make_dir e a disk) ∙ h a

IsMirrored-served :
    (bucket : Bucket) (e : ℕ) (a : Artifact) (disk disk' : Disk)
    → (m : IsMirrored bucket e a disk disk') → served bucket e disk a ≡ ok (m.file)
IsMirrored-served bucket e a disk disk' m = elim (m.origin) [
  | inl cached ↦ served_cached bucket e disk a (m.file) cached
  | inr (gone, came) ↦ served_fresh bucket e disk a gone ∙ came
]

-- The mirror is a cache that is read through: `mirror_epoch` ends without an exception exactly when
-- each of the three artifacts is on the disk or can be downloaded.
pub mirror_epoch_iff :
    (bucket : Bucket) (e : ℕ) (disk : Disk)
    → ((mirror_epoch bucket e disk).1 ≡ ok tt)
      ↔ ((a : Artifact) → (f : File) × (served bucket e disk a ≡ ok f))
mirror_epoch_iff bucket e disk = (
  λ h a.
      let m = mirror_epoch-IsMirrored bucket e disk h a in
      (m.file, IsMirrored-served bucket e a disk _ m),
  λ h. mirror_epoch_ends bucket e disk (λ a. (h a).0) (λ a. (h a).1),
)

-- And each artifact is then on the disk as it was served.
pub read_file-mirror_epoch :
    (bucket : Bucket) (e : ℕ) (disk : Disk) (files : Artifact → File)
    → ((a : Artifact) → served bucket e disk a ≡ ok (files a))
    → (a : Artifact) → read_file e a (mirror_epoch bucket e disk).0 ≡ some (files a)
read_file-mirror_epoch bucket e disk files h a =
    let m = mirror_epoch-IsMirrored bucket e disk (mirror_epoch_ends bucket e disk files h) a in
    m.there ∙ ap some (ok_injective (sym (IsMirrored-served bucket e a disk _ m) ∙ h a))
