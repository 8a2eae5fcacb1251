-- ===== src/Mirror/Tests.antt =====
-- One epoch, mirrored, invalidated and mirrored again.
use gm_validator.Prelude.{ℕ, some, [], ◌∷◌, ◌≡◌, refl}
use gm_validator.Prelude.Int.{pos}
use gm_validator.Errors.{ok}
use gm_validator.Mirror.{
  Artifact, aggregated, epoch_summary, File, Bucket, found, Disk, read_file, mirror_epoch,
  invalidate_artifact, prune, epochs_of, finalized,
}
use gm_validator.Prelude.{arith, none}
use gm_validator.Prelude.Text.{codes}
use gm_validator.Mirror.Prune.{highest, prune-highest}
use gm_validator.Mirror.Names.{epoch_dir, epoch_of_entry, object_key}
use gm_validator.Mirror.Progress.{served, mirror_epoch_iff}
use gm_validator.Mirror.Keys.{path_join, local_path, aggregated_path, object_key_injective}
use gm_validator.Prelude.{◌↔◌}
use gm_validator.Mirror.Fetch.{IsMirrored, mirror_epoch-IsMirrored}
use gm_validator.Mirror.Invalidate.{mirror_epoch-invalidate_artifact}

abbrev bucket : Bucket
bucket = record {
  head_marker = λ (e : ℕ). found;
  download = λ (e : ℕ) (a : Artifact). ok ("new" ∷ []);
}

-- Epoch 41 has an old summary, and epoch 40 its rows.
abbrev disk : Disk
disk =
    record { epoch = 40; files = (aggregated, "rows" ∷ []) ∷ [] }
    ∷ record { epoch = 41; files = (epoch_summary, "old" ∷ []) ∷ [] }
    ∷ []

cached_stays : read_file 41 epoch_summary (mirror_epoch bucket 41 disk).0 ≡ some ("old" ∷ [])
unfolding mirror_epoch read_file
cached_stays = refl

newest_two : epochs_of (prune (pos 2) (record { epoch = 42; files = [] } ∷ disk)) ≡ 42 ∷ 41 ∷ []
unfolding prune
newest_two = refl

mirror_epoch-IsMirrored_example :
    IsMirrored bucket 41 aggregated disk (mirror_epoch bucket 41 disk).0
unfolding mirror_epoch
mirror_epoch-IsMirrored_example = mirror_epoch-IsMirrored bucket 41 disk refl aggregated

mirror_epoch-invalidate_artifact_example :
    (f : File) × (ok ("new" ∷ []) ≡ ok f)
    × (read_file 41 epoch_summary
          (mirror_epoch bucket 41 (invalidate_artifact 41 epoch_summary disk)).0
        ≡ some f)
unfolding mirror_epoch invalidate_artifact
mirror_epoch-invalidate_artifact_example =
    mirror_epoch-invalidate_artifact bucket 41 epoch_summary disk refl

abbrev three : Disk
three = record { epoch = 42; files = [] } ∷ disk

prune-highest_example : prune (pos 2) three ≡ highest 2 (42 ∷ 40 ∷ 41 ∷ []) three
prune-highest_example = prune-highest 2 three (omega arith) (refl, (refl, (refl, tt)))

not_an_epoch : epoch_of_entry (codes "epochs") ≡ none
unfolding epoch_of_entry
not_an_epoch = refl

marker_key : object_key (codes "v1") 120 finalized ≡ codes "v1/finalized/epoch=120/_FINALIZED"
unfolding object_key
marker_key = refl

-- The path of a root that ends in a slash, and of one that does not.
summary_path :
    local_path (codes "data/") 41 epoch_summary ≡ codes "data/epoch=41/epoch_summary.json"
unfolding local_path path_join epoch_dir
summary_path = refl

rows_path : aggregated_path (codes "data/epoch=41") ≡ codes "data/epoch=41/aggregated.jsonl"
unfolding aggregated_path path_join
rows_path = refl

object_key_injective_example : (◌≡◌ {A = ℕ} 41 41) × (aggregated ≡ aggregated)
object_key_injective_example = object_key_injective (codes "v1") 41 41 aggregated aggregated refl

mirror_epoch_iff_example :
    ((mirror_epoch bucket 41 disk).1 ≡ ok tt)
    ↔ ((a : Artifact) → (f : File) × (served bucket 41 disk a ≡ ok f))
mirror_epoch_iff_example = mirror_epoch_iff bucket 41 disk
