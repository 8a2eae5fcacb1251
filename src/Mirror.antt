-- ===== src/Mirror.antt =====
-- validator/src/gm_validator/s3_mirror.py: discovery of finalized epochs and the local mirror. The
-- disk is the list of the epoch directories under the local root, each with its files as lists of
-- lines. Left out: entries of the root that the mirror does not make, the `.part` file of a download
-- that failed, and errors of the file system.
pub mod Names
pub mod Keys
pub mod Ranks
pub mod Prune
pub mod Distinct
pub mod Files
pub mod Fetch
pub mod Invalidate
pub mod Progress
pub mod Absent
mod Tests
use Prim.Native.String.{String}
use text.Mathlib.Text.{◌==◌ as str_eq}
use gm_validator.Prelude.{
  ℕ, zero, suc, ◌+◌, ◌-◌, Bool, true, false, Option, none, some, List, [], ◌∷◌, map, ltb, ◌==◌,
  ◌&&◌, ◌||◌, not, if◌then◌else◌, drop,
}
use gm_validator.Prelude.Int.{ℤ, pos, pos_part, ltb_ℤ}
use gm_validator.Errors.{Result, ok, raised, client_error, foreign, ◌>>=◌}

-- `_ARTIFACTS`
pub data Artifact : Type 0 where
  aggregated epoch_summary finalized : Artifact

abbrev pub same_artifact : Artifact → Artifact → Bool
same_artifact aggregated aggregated = true
same_artifact epoch_summary epoch_summary = true
same_artifact finalized finalized = true
same_artifact _ _ = false

abbrev pub artifacts : List Artifact
artifacts = aggregated ∷ epoch_summary ∷ finalized ∷ []

abbrev pub File : Type 0
File = List String

-- What a HEAD request on a marker comes back with.
pub data HeadReply : Type 0 where
  found : HeadReply
  refused : String → HeadReply
  broken : HeadReply

-- The bucket, as the S3 client shows it while a tick runs.
pub record Bucket : Type 0 where
  pub head_marker : ℕ → HeadReply
  pub download : ℕ → Artifact → Result File

abbrev pub is_not_found : String → Bool
is_not_found code = str_eq code "404" || str_eq code "NoSuchKey" || str_eq code "NotFound"

abbrev pub is_forbidden : String → Bool
is_forbidden code = str_eq code "403" || str_eq code "AccessDenied" || str_eq code "Forbidden"

-- `_marker_exists`, on the reply
unfoldable pub marker_exists : Bool → HeadReply → Result Bool
marker_exists anonymous found = ok true
marker_exists anonymous (refused code) =
    if is_not_found code
    then ok false
    else if anonymous && is_forbidden code
    then ok false
    else raised client_error
marker_exists anonymous broken = raised foreign

-- The probes of `latest_finalized_epoch`, with so many left.
unfoldable pub probe_back : Bool → Bucket → ℕ → ℕ → Result (Option ℕ)
unfolding marker_exists
probe_back anonymous bucket zero epoch_id = ok none
probe_back anonymous bucket (suc left) epoch_id =
    let rest = probe_back anonymous bucket left (epoch_id - 1) in
    marker_exists anonymous (bucket.head_marker epoch_id) >>= λ here.
    if here then ok (some epoch_id) else rest

-- `range(target, max(target - lookback, 0) - 1, -1)` has one round more than the way down is long.
unfoldable pub latest_finalized_epoch : Bool → Bucket → ℕ → ℕ → Result (Option ℕ)
unfolding probe_back
latest_finalized_epoch anonymous bucket target lookback =
    probe_back anonymous bucket (target - (target - lookback) + 1) target

pub record EpochDir : Type 0 where
  pub epoch : ℕ
  pub files : List (Artifact × File)

abbrev pub Disk : Type 0
Disk = List EpochDir

abbrev pub file_of : Artifact → List (Artifact × File) → Option File
file_of a [] = none
file_of a ((b, f) ∷ rest) = if same_artifact b a then some f else file_of a rest

-- The files of an epoch's directory; none where there is no directory.
abbrev pub dir_files : ℕ → Disk → List (Artifact × File)
dir_files e [] = []
dir_files e (d ∷ ds) = if d.epoch == e then d.files else dir_files e ds

unfoldable pub read_file : ℕ → Artifact → Disk → Option File
read_file e a disk = file_of a (dir_files e disk)

-- `os.makedirs(local_dir, exist_ok=True)`
unfoldable pub make_dir : ℕ → Disk → Disk
make_dir e [] = record { epoch = e; files = [] } ∷ []
make_dir e (d ∷ ds) = if d.epoch == e then d ∷ ds else d ∷ make_dir e ds

-- Another list of files for an epoch's directory.
abbrev pub update_dir : ℕ → (List (Artifact × File) → List (Artifact × File)) → Disk → Disk
update_dir e f [] = []
update_dir e f (d ∷ ds) =
    if d.epoch == e then (record d { files = f d.files }) ∷ ds else d ∷ update_dir e f ds

abbrev pub without : Artifact → List (Artifact × File) → List (Artifact × File)
without a [] = []
without a ((b, f) ∷ rest) = if same_artifact b a then without a rest else (b, f) ∷ without a rest

-- `_download`: nothing where the file exists
unfoldable pub download : Bucket → ℕ → Artifact → Disk → Disk × Result (Unit {0})
unfolding read_file
download bucket e a disk = elim (read_file e a disk) [
  | some f ↦ (disk, ok tt)
  | none ↦ elim (bucket.download e a) [
    | raised x ↦ (disk, raised x)
    | ok f ↦ (update_dir e (λ fs. (a, f) ∷ fs) disk, ok tt)
  ]
]

-- The loop of `mirror_epoch`: the first failure ends it, and what was written stays.
unfoldable pub download_all : Bucket → ℕ → List Artifact → Disk → Disk × Result (Unit {0})
unfolding download
download_all bucket e [] disk = (disk, ok tt)
download_all bucket e (a ∷ as') disk =
    let (disk', r) = download bucket e a disk in
    let rest = download_all bucket e as' disk' in
    elim r [ raised x ↦ (disk', raised x) | ok _ ↦ rest ]

unfoldable pub mirror_epoch : Bucket → ℕ → Disk → Disk × Result (Unit {0})
unfolding make_dir download_all
mirror_epoch bucket e disk = download_all bucket e artifacts (make_dir e disk)

-- `invalidate_artifact`: a file that is not there is no error
unfoldable pub invalidate_artifact : ℕ → Artifact → Disk → Disk
invalidate_artifact e a disk = update_dir e (without a) disk

abbrev pub insert_descending : ℕ → List ℕ → List ℕ
insert_descending e [] = e ∷ []
insert_descending e (x ∷ xs) = if ltb e x then x ∷ insert_descending e xs else e ∷ x ∷ xs

-- `epoch_dirs.sort(reverse=True)`
abbrev pub sort_descending : List ℕ → List ℕ
sort_descending [] = []
sort_descending (e ∷ es) = insert_descending e (sort_descending es)

abbrev pub epochs_of : Disk → List ℕ
epochs_of = map λ (d : EpochDir). d.epoch

abbrev pub contains : ℕ → List ℕ → Bool
contains e [] = false
contains e (x ∷ xs) = x == e || contains e xs

-- The removal of the directories of some epochs.
abbrev pub remove_dirs : List ℕ → Disk → Disk
remove_dirs es [] = []
remove_dirs es (d ∷ ds) = if contains d.epoch es then remove_dirs es ds else d ∷ remove_dirs es ds

unfoldable pub prune : ℤ → Disk → Disk
prune retention disk =
    if ltb_ℤ (pos 0) retention
    then remove_dirs (drop (pos_part retention) (sort_descending (epochs_of disk))) disk
    else disk
