-- ===== src/Scoring/Rows/Readable/Amounts.antt =====
-- The readers of `score` for amounts and counts, against the values of the fields.
use Prim.Native.String.{String}
use gm_validator.Prelude.{
  zero, suc, if◌then◌else◌, none, some, ◌≡◌, ◌↔◌, refl, sym, ap, ◌∙◌, inl, inr, arith, ◌==◌,
  Option-cases,
}
use gm_validator.Prelude.Int.{ℤ, pos, negsuc, abs}
use gm_validator.Prelude.Text.{parse_int}
use gm_validator.Errors.{Result, raised, ok, malformed_artifact, ◌>>=◌, ◌>>◌, unbind, unbind_then}
use gm_validator.Scoring.Json.{Json, null, boolean, int, float, str, array, object, Fields, get}
use gm_validator.Scoring.Rows.{
  coerce_int, require_int, optional_int, assert_zero, assert_zero_earning_no_miner_row,
}
use gm_validator.Scoring.Rows.Readable.{IsIntegral, HasAmount, MayHaveAmount, IsFree, IsMoneyless}

coerce_int_refused :
    (s : String) → parse_int s ≡ none → coerce_int (str s) ≡ raised malformed_artifact
unfolding coerce_int
coerce_int_refused s e = rw (coerce_int, e)

coerce_int_parsed : (s : String) (n : ℤ) → parse_int s ≡ some n → coerce_int (str s) ≡ ok n
unfolding coerce_int
coerce_int_parsed s n e = rw (coerce_int, e)

coerce_int_iff : (v : Json) (n : ℤ) → (coerce_int v ≡ ok n) ↔ IsIntegral v n
unfolding coerce_int
coerce_int_iff (int m) n = (λ h. cc, λ h. cc)
coerce_int_iff (str s) n = elim (Option-cases (parse_int s)) [
  | inl e ↦ let refused = coerce_int_refused s e in (λ h. cc, λ h. cc)
  | inr (m, e) ↦ let parsed = coerce_int_parsed s m e in (λ h. cc, λ h. coerce_int_parsed s n h)
]
coerce_int_iff null n = (λ h. cc, λ h. absurd h)
coerce_int_iff (boolean _) n = (λ h. cc, λ h. absurd h)
coerce_int_iff (float _) n = (λ h. cc, λ h. absurd h)
coerce_int_iff (array _) n = (λ h. cc, λ h. absurd h)
coerce_int_iff (object _) n = (λ h. cc, λ h. absurd h)

require_int_missing :
    (row : Fields) (key : String)
    → get key row ≡ none
    → require_int row key ≡ raised malformed_artifact
unfolding require_int
require_int_missing row key e = rw (require_int, e)

require_int_there :
    (row : Fields) (key : String) (v : Json)
    → get key row ≡ some v
    → require_int row key ≡ coerce_int v
unfolding require_int
require_int_there row key v e = rw (require_int, e)

optional_int_missing :
    (row : Fields) (key : String) → get key row ≡ none → optional_int row key ≡ ok (pos 0)
unfolding optional_int
optional_int_missing row key e = rw (optional_int, e)

optional_int_there :
    (row : Fields) (key : String) (v : Json)
    → get key row ≡ some v
    → optional_int row key ≡ coerce_int v
unfolding optional_int
optional_int_there row key v e = rw (optional_int, e)

assert_zero_missing :
    (row : Fields) (key : String) → get key row ≡ none → assert_zero row key ≡ ok tt
unfolding assert_zero
assert_zero_missing row key e = rw (assert_zero, e)

check_zero : ℤ → Result (Unit {0})
check_zero n = if abs n == 0 then ok tt else raised malformed_artifact

assert_zero_there :
    (row : Fields) (key : String) (v : Json)
    → get key row ≡ some v
    → assert_zero row key ≡ (coerce_int v >>= check_zero)
unfolding assert_zero check_zero
assert_zero_there row key v e = rw (assert_zero, e)

check_zero_iff : (n : ℤ) → (check_zero n ≡ ok tt) ↔ (n ≡ pos 0)
unfolding check_zero
check_zero_iff (pos zero) = (λ h. refl, λ h. refl)
check_zero_iff (pos (suc n)) = (λ h. ground arith, λ h. ground arith)
check_zero_iff (negsuc n) = (λ h. ground arith, λ h. cc)

pub require_int_iff :
    (row : Fields) (key : String) → ((n : ℤ) × (require_int row key ≡ ok n)) ↔ HasAmount row key
require_int_iff row key = elim (Option-cases (get key row)) [
  | inl e ↦ let missing = require_int_missing row key e in (λ (n, h). cc, λ (v, there, _). cc)
  | inr (v, e) ↦ (
    λ (n, h). (v, e, (n, (coerce_int_iff v n).0 (sym (require_int_there row key v e) ∙ h))),
    λ (u, there, (n, i)). (n, require_int_there row key u there ∙ (coerce_int_iff u n).1 i),
  )
]

pub optional_int_iff :
    (row : Fields) (key : String)
    → ((n : ℤ) × (optional_int row key ≡ ok n)) ↔ MayHaveAmount row key
optional_int_iff row key = elim (Option-cases (get key row)) [
  | inl e ↦ (λ (n, h). inl e, λ h. (pos 0, optional_int_missing row key e))
  | inr (v, e) ↦ (
    λ (n, h). inr (v, e, (n, (coerce_int_iff v n).0 (sym (optional_int_there row key v e) ∙ h))),
    λ h. elim h [
      | inl missing ↦ cc
      | inr (u, there, (n, i)) ↦ (n, optional_int_there row key u there ∙ (coerce_int_iff u n).1 i)
    ],
  )
]

assert_zero_iff : (row : Fields) (key : String) → (assert_zero row key ≡ ok tt) ↔ IsFree row key
assert_zero_iff row key = elim (Option-cases (get key row)) [
  | inl e ↦ (λ h. inl e, λ h. assert_zero_missing row key e)
  | inr (v, e) ↦ (
    λ h.
        let (n, read, passed) =
          unbind (coerce_int v) check_zero (sym (assert_zero_there row key v e) ∙ h) in
        inr (v, e, (coerce_int_iff v (pos 0)).0 (read ∙ ap ok ((check_zero_iff n).0 passed))),
    λ h. elim h [
      | inl missing ↦ cc
      | inr (u, there, i) ↦
          assert_zero_there row key u there
          ∙ ap (λ r. r >>= check_zero) ((coerce_int_iff u (pos 0)).1 i)
          ∙ (check_zero_iff (pos 0)).1 refl
    ],
  )
]

pub assert_zero_earning_no_miner_row_iff :
    (row : Fields) → (assert_zero_earning_no_miner_row row ≡ ok tt) ↔ IsMoneyless row
unfolding assert_zero_earning_no_miner_row
assert_zero_earning_no_miner_row_iff row = (
  λ h.
      let (first, second) =
        unbind_then (assert_zero row "earnings_ndollars") (assert_zero row "surcharge_ndollars")
          h in
      ((assert_zero_iff row _).0 first, (assert_zero_iff row _).0 second),
  λ (first, second).
      ap (λ r. r >> assert_zero row "surcharge_ndollars") ((assert_zero_iff row _).1 first)
      ∙ (assert_zero_iff row _).1 second,
)
