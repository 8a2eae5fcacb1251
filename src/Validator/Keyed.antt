-- ===== src/Validator/Keyed.antt =====
-- The scores that are read from the mirror.
use gm_validator.Prelude.{ℕ, ◌≡◌, ap, ◌∙◌}
use gm_validator.Prelude.Dict.{IsKeyed}
use gm_validator.Errors.{ok, unbind, ok_injective}
use gm_validator.Mirror.{Disk, aggregated, read_file}
use gm_validator.Summary.{EpochSummary}
use gm_validator.Scoring.Rows.{Scores, load_aggregated}
use gm_validator.Scoring.Rows.Keys.{score-IsKeyed}
use gm_validator.Validator.State.{Parts}
use gm_validator.Validator.Process.{open_file, load_scores, load_epoch_summary, load_inputs}

module _ {S : Type 0} (parts : Parts S) where
  load_scores-IsKeyed :
      (epoch : ℕ) (disk : Disk) (scores : Scores)
      → load_scores parts epoch disk ≡ ok scores
      → IsKeyed scores
  unfolding load_scores
  load_scores-IsKeyed epoch disk scores h =
      let (file, _, h1) = unbind (open_file (read_file epoch aggregated disk)) _ h in
      let (rows, _, h2) = unbind (load_aggregated parts.loads file) _ h1 in
      score-IsKeyed rows scores h2

  -- The inputs that are read have one score for each hotkey.
  pub load_inputs-IsKeyed :
      (epoch : ℕ) (disk : Disk) (scores : Scores) (summary : EpochSummary)
      → load_inputs parts epoch disk ≡ ok (scores, summary)
      → IsKeyed scores
  unfolding load_inputs
  load_inputs-IsKeyed epoch disk scores summary h =
      let (found, read, h1) = unbind (load_scores parts epoch disk) _ h in
      let (_, _, h2) = unbind (load_epoch_summary parts epoch disk) _ h1 in
      let same = ap (λ (p : Scores × EpochSummary). p.0) (ok_injective h2) in
      load_scores-IsKeyed epoch disk scores (read ∙ ap ok same)
