-- ===== src/Scoring/Rows/Readable.antt =====
-- Rows that `score` can credit or pass over, told by their values alone.
pub mod Amounts
pub mod Products
use Prim.Native.String.{String}
use text.Mathlib.Text.{◌==◌ as str_eq}
use text.Mathlib.TextEquality.{eq_iff}
use mathlib.Core.Option
use gm_validator.Prelude.{
  ℕ, zero, suc, if◌then◌else◌, Bool, true, false, Option, none, some, ◌≡◌, ◌≢◌, ◌↔◌, ◌⊎◌, refl, sym,
  ap, ◌∙◌, inl, inr, arith, ◌==◌, Bool-cases, Option-cases, ◌&&◌,
}
use gm_validator.Prelude.Int.{ℤ, pos, negsuc, abs}
use gm_validator.Prelude.Text.{parse_int}
use gm_validator.Errors.{
  Result, raised, ok, malformed_artifact, type_error, ◌>>=◌, ◌>>◌, ok_injective, unbind,
  unbind_then,
}
use gm_validator.Scoring.Json.{
  Json, null, boolean, int, float, str, array, object, Fields, end, field, get, is_hashable,
  is_truthy,
}
use gm_validator.Scoring.Rows.{
  ProductKey, coerce_int, require_int, optional_int, assert_zero, assert_zero_earning_no_miner_row,
  product_of, product_key,
}

-- A JSON integer, or a text of one; a bool, a float or any other value is none.
abbrev pub IsIntegral : Json → ℤ → Type 0
IsIntegral (int n) m = n ≡ m
IsIntegral (str s) m = parse_int s ≡ some m
IsIntegral _ m = ⊥

-- A field that is there, with an integer.
abbrev pub HasAmount : Fields → String → Type 0
HasAmount row key = (v : Json) × (get key row ≡ some v) × ((n : ℤ) × IsIntegral v n)

abbrev pub MayHaveAmount : Fields → String → Type 0
MayHaveAmount row key = (get key row ≡ none) ⊎ HasAmount row key

-- A field that is missing or 0.
abbrev pub IsFree : Fields → String → Type 0
IsFree row key = (get key row ≡ none) ⊎ ((v : Json) × (get key row ≡ some v) × IsIntegral v (pos 0))

-- A value that is missing or can be part of a dict's key: no array and no dict.
abbrev pub IsPlain : Option Json → Type 0
IsPlain (some (array _)) = ⊥
IsPlain (some (object _)) = ⊥
IsPlain _ = Unit

-- A product that is missing, or counts as false, or is a dict with a plain provider and model.
abbrev pub HasProduct : Fields → Type 0
HasProduct row =
    (get "product" row ≡ none)
    ⊎ ((v : Json) × (get "product" row ≡ some v) × (is_truthy v ≡ false))
    ⊎ ((fields : Fields) × (get "product" row ≡ some (object fields))
        × IsPlain (get "provider" fields)
        × IsPlain (get "model" fields))

-- A row for no miner: without money.
abbrev pub IsMoneyless : Fields → Type 0
IsMoneyless row = IsFree row "earnings_ndollars" × IsFree row "surcharge_ndollars"

-- A row for a miner: with both amounts, counts that are integers where they are there, and a product
-- that can be a key.
abbrev pub IsCreditable : Fields → Type 0
IsCreditable row =
    HasAmount row "earnings_ndollars"
    × HasAmount row "surcharge_ndollars"
    × MayHaveAmount row "successful_requests"
    × MayHaveAmount row "failed_requests"
    × HasProduct row

-- By the value of `miner_id`.
abbrev pub IsReadableFor : Fields → Option Json → Type 0
IsReadableFor row none = IsMoneyless row
IsReadableFor row (some null) = IsMoneyless row
IsReadableFor row (some (str s)) = ((s ≡ "") × IsMoneyless row) ⊎ ((s ≢ "") × IsCreditable row)
IsReadableFor row (some _) = ⊥

abbrev pub IsReadable : Json → Type 0
IsReadable (object row) = IsReadableFor row (get "miner_id" row)
IsReadable _ = ⊥
