-- ===== src/Scoring/Rows/Keys.antt =====
-- The keys of the scores.
use gm_validator.Prelude.{List, [], ◌∷◌, ◌≡◌, refl, sym}
use mathlib.Core.Path.{subst}
use gm_validator.Prelude.Dict.{IsKeyed, insert-IsKeyed}
use gm_validator.Errors.{ok, unbind, unbind_then, ok_injective}
use gm_validator.Scoring.Json.{Json, object, Fields, get}
use gm_validator.Scoring.Rows.{
  Scores, assert_zero_earning_no_miner_row, MinerId, unplaced, corrupt, hotkey, miner_id_of,
  score_row, score_from, score,
}
use gm_validator.Scoring.Rows.Money.{score_hotkey-Writes}
use gm_validator.Scoring.Rows.Credits.{
  score_row_unplaced, score_row_corrupt, score_row_hotkey, not_a_dict,
}

placed-IsKeyed :
    (row : Fields) (scores out : Scores) (m : MinerId)
    → miner_id_of (get "miner_id" row) ≡ m
    → score_row (object row) scores ≡ ok out
    → IsKeyed scores
    → IsKeyed out
placed-IsKeyed row scores out unplaced e h k =
    let (zero, same) =
      unbind_then (assert_zero_earning_no_miner_row row) (ok scores)
        (rw (score_row_unplaced row scores e) at h) in
    subst (λ d. IsKeyed d) (ok_injective same) k
placed-IsKeyed row scores out corrupt e h k = cc (score_row_corrupt row scores e)
placed-IsKeyed row scores out (hotkey id) e h k =
    let (s, written, _) =
      score_hotkey-Writes id row scores out (rw (score_row_hotkey row scores id e) at h) in
    subst (λ d. IsKeyed d) (sym written) (insert-IsKeyed id s scores k)

score_row-IsKeyed :
    (row : Json) (scores out : Scores)
    → score_row row scores ≡ ok out
    → IsKeyed scores
    → IsKeyed out
score_row-IsKeyed row scores out h =
    let (f, e) = not_a_dict row scores out h in
    placed-IsKeyed f scores out (miner_id_of (get "miner_id" f)) refl
      (subst (λ r. score_row r scores ≡ ok out) e h)

score_from-IsKeyed :
    (rows : List Json) (scores out : Scores)
    → score_from rows scores ≡ ok out
    → IsKeyed scores
    → IsKeyed out
unfolding score_from
score_from-IsKeyed [] scores out h k = subst (λ d. IsKeyed d) (ok_injective h) k
score_from-IsKeyed (row ∷ rows) scores out h k =
    let (next, step, rest) = unbind (score_row row scores) (score_from rows) h in
    score_from-IsKeyed rows next out rest (score_row-IsKeyed row scores next step k)

-- If `score` returns, no hotkey has two scores.
pub score-IsKeyed : (rows : List Json) (scores : Scores) → score rows ≡ ok scores → IsKeyed scores
unfolding score
score-IsKeyed rows scores h = score_from-IsKeyed rows [] scores h tt
