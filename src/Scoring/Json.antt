-- ===== src/Scoring/Json.antt =====
-- The values that `json.loads` returns, as far as the code tells them apart. A float is a finite
-- decimal (NaN and the infinities are left out); an array's items are not looked at, only whether
-- there are any.
use Prim.Native.String.{String}
use text.Mathlib.Text.{◌==◌ as str_eq}
use gm_validator.Prelude.{Bool, true, false, not, Option, none, some, ◌==◌, if◌then◌else◌}
use gm_validator.Prelude.Int.{ℤ, abs}
use gm_validator.Decimal
use gm_validator.Decimal.{Decimal, of_int, nought, one}

mutual
  pub data Json : Type 0 where
    null : Json
    boolean : Bool → Json
    int : ℤ → Json
    float : Decimal → Json
    str : String → Json
    array : Bool → Json
    object : Fields → Json

  -- The items of a dict, in order; `json.loads` keeps one entry for each key.
  pub data Fields : Type 0 where
    end : Fields
    field : String → Json → Fields → Fields

-- `d.get(key)` on the fields of a dict
unfoldable pub get : String → Fields → Option Json
get key end = none
get key (field k v rest) = if str_eq k key then some v else get key rest

-- The number that a value compares as: a bool is an int in Python.
abbrev pub number_of : Json → Option Decimal
number_of (boolean b) = some (if b then one else nought)
number_of (int n) = some (of_int n)
number_of (float d) = some d
number_of _ = none

abbrev number_eq : Option Decimal → Option Decimal → Bool
number_eq (some a) (some b) = Decimal.eq a b
number_eq _ _ = false

-- `a == b` between values that can be dict keys
unfoldable pub key_eq : Json → Json → Bool
key_eq null null = true
key_eq (str s) (str t) = str_eq s t
key_eq a b = number_eq (number_of a) (number_of b)

-- Arrays and dicts are not hashable.
abbrev pub is_hashable : Json → Bool
is_hashable (array _) = false
is_hashable (object _) = false
is_hashable _ = true

-- The value's truth as a condition.
abbrev pub is_truthy : Json → Bool
is_truthy null = false
is_truthy (boolean b) = b
is_truthy (int n) = not (abs n == 0)
is_truthy (float d) = not (abs d.coef == 0)
is_truthy (str s) = not (str_eq s "")
is_truthy (array nonempty) = nonempty
is_truthy (object end) = false
is_truthy (object (field _ _ _)) = true
