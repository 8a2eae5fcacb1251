-- ===== src/Mirror/Names.antt =====
-- The names that the mirror gives: the directory of an epoch, which `prune` reads back, and the keys
-- in the bucket.
use gm_validator.Prelude.{
  ℕ, Option, none, some, List, [], ◌∷◌, ◌++◌, ◌≡◌, ap, sym, ◌∙◌, ◌==◌, if◌then◌else◌,
  some_injective,
}
use gm_validator.Prelude.Int.{ℤ, pos, pos_part}
use gm_validator.Prelude.Text.{codes, int_of}
use gm_validator.Prelude.Print.{print_nat, int_of-print_nat}
use gm_validator.Mirror.{Artifact, aggregated, epoch_summary, finalized}

-- What follows a prefix: `text.startswith(prefix)` and `text.removeprefix(prefix)`.
abbrev pub after_prefix : List ℕ → List ℕ → Option (List ℕ)
after_prefix [] text = some text
after_prefix (p ∷ prefix) [] = none
after_prefix (p ∷ prefix) (c ∷ text) =
    let rest = after_prefix prefix text in if p == c then rest else none

-- The last part of `_epoch_dir`.
unfoldable pub epoch_dir : ℕ → List ℕ
unfolding print_nat
epoch_dir e = codes "epoch=" ++ print_nat e

-- The epoch of an entry of the local root, in `prune`; `none` where the entry is passed over.
unfoldable pub epoch_of_entry : List ℕ → Option ℤ
unfolding int_of
epoch_of_entry entry = elim (after_prefix (codes "epoch=") entry) [
  | none ↦ none
  | some number ↦ int_of number
]

-- The file's name, in `_ARTIFACTS`.
abbrev pub file_name : Artifact → List ℕ
file_name aggregated = codes "aggregated.jsonl"
file_name epoch_summary = codes "epoch_summary.json"
file_name finalized = codes "_FINALIZED"

-- The key that `_download` asks for, and, for the marker, `_marker_exists`.
unfoldable pub object_key : List ℕ → ℕ → Artifact → List ℕ
unfolding print_nat
object_key prefix e a =
    prefix ++ (codes "/finalized/epoch=" ++ (print_nat e ++ (codes "/" ++ file_name a)))

-- `prune` reads from the name of an epoch's directory the epoch that `mirror_epoch` made it for.
pub epoch_of_entry-epoch_dir : (e : ℕ) → epoch_of_entry (epoch_dir e) ≡ some (pos e)
unfolding epoch_of_entry epoch_dir
epoch_of_entry-epoch_dir e = int_of-print_nat e

-- Different epochs have different directories.
pub epoch_dir_injective : (e e' : ℕ) → epoch_dir e ≡ epoch_dir e' → e ≡ e'
epoch_dir_injective e e' h = ap pos_part (
    some_injective
      (sym (epoch_of_entry-epoch_dir e) ∙ ap epoch_of_entry h ∙ epoch_of_entry-epoch_dir e'))
