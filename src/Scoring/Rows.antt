-- ===== src/Scoring/Rows.antt =====
-- `load_aggregated` and `score`: per-miner sums from the rows of `aggregated.jsonl`.
pub mod Money
pub mod Credits
pub mod Keys
pub mod Tally
pub mod Readable
pub mod Order
mod Tests
use Prim.Native.String.{String}
use text.Mathlib.Text.{◌==◌ as str_eq}
use mathlib.Core.Option
use gm_validator.Prelude.{
  Bool, true, false, Option, none, some, List, [], ◌∷◌, ◌&&◌, ◌==◌, if◌then◌else◌,
}
use gm_validator.Prelude.Int.{ℤ, pos, abs, ◌+ℤ◌}
use gm_validator.Prelude.Dict.{Dict, lookup, insert}
use gm_validator.Prelude.Text.{parse_int, codes, is_blank}
use gm_validator.Errors.{
  Result, ok, raised, malformed_artifact, attribute_error, type_error, ◌>>=◌, ◌>>◌,
}
use gm_validator.Scoring.Json.{
  Json, null, boolean, int, float, str, array, object, Fields, end, get, key_eq, is_hashable,
  is_truthy,
}

-- The key `(provider, model)`.
abbrev pub ProductKey : Type 0
ProductKey = Json × Json

pub record MinerScore : Type 0 where
  pub miner_id : String
  pub earnings_ndollars : ℤ
  pub surcharge_ndollars : ℤ
  pub successful_requests : ℤ
  pub failed_requests : ℤ
  pub per_product : List (ProductKey × ℤ)

abbrev pub empty_score : String → MinerScore
empty_score id = record {
  miner_id = id;
  earnings_ndollars = pos 0;
  surcharge_ndollars = pos 0;
  successful_requests = pos 0;
  failed_requests = pos 0;
  per_product = [];
}

abbrev pub Scores : Type 0
Scores = Dict MinerScore

-- `load_aggregated` on the file's lines: blank ones are skipped, and the first that the JSON decoder
-- refuses ends the read. The decoder is an argument.
unfoldable pub load_aggregated : (String → Result Json) → List String → Result (List Json)
load_aggregated loads [] = ok []
load_aggregated loads (line ∷ lines) =
    let rest = load_aggregated loads lines in
    if is_blank (codes line) then rest else (do row ← loads line; rows ← rest; ok (row ∷ rows))

-- A bool is refused; so is a text that `int(text, 10)` refuses.
unfoldable pub coerce_int : Json → Result ℤ
unfolding parse_int
coerce_int (int n) = ok n
coerce_int (str s) = elim (parse_int s) [ none ↦ raised malformed_artifact | some n ↦ ok n ]
coerce_int _ = raised malformed_artifact

unfoldable pub require_int : Fields → String → Result ℤ
require_int row key = elim (get key row) [
  | none ↦ raised malformed_artifact
  | some value ↦ coerce_int value
]

unfoldable pub optional_int : Fields → String → Result ℤ
optional_int row key = elim (get key row) [ none ↦ ok (pos 0) | some value ↦ coerce_int value ]

-- One key of the loop of `_assert_zero_earning_no_miner_row`.
unfoldable pub assert_zero : Fields → String → Result (Unit {0})
assert_zero row key = elim (get key row) [
  | none ↦ ok tt
  | some value ↦ coerce_int value >>= λ n. if abs n == 0 then ok tt else raised malformed_artifact
]

unfoldable pub assert_zero_earning_no_miner_row : Fields → Result (Unit {0})
unfolding assert_zero
assert_zero_earning_no_miner_row row =
    assert_zero row "earnings_ndollars" >> assert_zero row "surcharge_ndollars"

-- What `row.get("miner_id")` says: no miner, a hotkey, or a value that is no string.
pub data MinerId : Type 0 where
  unplaced corrupt : MinerId
  hotkey : String → MinerId

unfoldable pub miner_id_of : Option Json → MinerId
miner_id_of none = unplaced
miner_id_of (some null) = unplaced
miner_id_of (some (str s)) = if str_eq s "" then unplaced else hotkey s
miner_id_of (some _) = corrupt

-- `row.get("product") or {}`
unfoldable pub product_of : Option Json → Result Fields
product_of none = ok end
product_of (some (object fields)) = ok fields
product_of (some value) = if is_truthy value then raised attribute_error else ok end

unfoldable pub product_key : Fields → Result ProductKey
unfolding product_of
product_key row = do
  product ← product_of (get "product" row)
  let provider = Option.get_or (get "provider" product) (str "")
  let model = Option.get_or (get "model" product) (str "")
  if is_hashable provider && is_hashable model then ok (provider, model) else raised type_error

-- `per_product[key] = per_product.get(key, 0) + amount`
unfoldable pub add_product : ProductKey → ℤ → List (ProductKey × ℤ) → List (ProductKey × ℤ)
add_product key amount [] = (key, amount) ∷ []
add_product key amount ((k, n) ∷ rest) =
    if key_eq k.0 key.0 && key_eq k.1 key.1
    then (k, n +ℤ amount) ∷ rest
    else (k, n) ∷ add_product key amount rest

-- `scores.setdefault(miner_id, MinerScore(miner_id=miner_id))`
unfoldable pub bucket : String → Scores → MinerScore
bucket id scores = elim (lookup id scores) [ none ↦ empty_score id | some s ↦ s ]

unfoldable pub add_row : (earn surch successful failed : ℤ) → ProductKey → MinerScore → MinerScore
unfolding add_product
add_row earn surch successful failed key s = record s {
  earnings_ndollars = s.earnings_ndollars +ℤ earn;
  surcharge_ndollars = s.surcharge_ndollars +ℤ surch;
  successful_requests = s.successful_requests +ℤ successful;
  failed_requests = s.failed_requests +ℤ failed;
  per_product = add_product key (earn +ℤ surch) s.per_product;
}

unfoldable pub score_hotkey : String → Fields → Scores → Result Scores
score_hotkey id row scores = do
  earn ← require_int row "earnings_ndollars"
  surch ← require_int row "surcharge_ndollars"
  successful ← optional_int row "successful_requests"
  failed ← optional_int row "failed_requests"
  key ← product_key row
  ok (insert id (add_row earn surch successful failed key (bucket id scores)) scores)

-- The body of the loop of `score`. A row that is no dict has no `get`.
unfoldable pub score_row : Json → Scores → Result Scores
score_row (object row) scores = elim (miner_id_of (get "miner_id" row)) [
  | unplaced ↦ assert_zero_earning_no_miner_row row >> ok scores
  | corrupt ↦ raised malformed_artifact
  | hotkey id ↦ score_hotkey id row scores
]
score_row _ scores = raised attribute_error

unfoldable pub score_from : List Json → Scores → Result Scores
score_from [] scores = ok scores
score_from (row ∷ rows) scores = score_row row scores >>= score_from rows

unfoldable pub score : List Json → Result Scores
unfolding score_from
score rows = score_from rows []
