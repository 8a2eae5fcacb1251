-- ===== src/Config/Parsers.antt =====
-- The readers of single variables. `Decimal(text)` is read without the texts of infinities and NaN.
use Prim.Native.String.{String}
use gm_validator.Prelude.{
  ℕ, ◌+◌, ◌-◌, ◌*◌, Bool, true, false, Option, none, some, List, [], ◌∷◌, ◌++◌, ◌||◌, ◌&&◌, leb,
  ◌==◌, if◌then◌else◌, length,
}
use mathlib.Core.List.{reverse, foldl}
use gm_validator.Prelude.Int.{ℤ, pos, signed, ◌-ℤ◌}
use gm_validator.Prelude.Dict.{Dict, lookup}
use gm_validator.Prelude.Text.{codes, strip, is_blank, is_digit, int_of}
use gm_validator.Decimal.{Decimal}
use gm_validator.Errors.{Result, ok, raised, value_error, invalid_operation}

-- A text as its code points.
abbrev pub Text : Type 0
Text = List ℕ

abbrev pub Environ : Type 0
Environ = Dict Text

-- `os.environ.get(name)`
abbrev pub get_env : Environ → String → Option Text
get_env env name = lookup name env

abbrev pub same_text : Text → Text → Bool
same_text [] [] = true
same_text (a ∷ as') (b ∷ bs) = a == b && same_text as' bs
same_text _ _ = false

abbrev pub non_empty : Text → Option Text
non_empty [] = none
non_empty (c ∷ cs) = some (c ∷ cs)

-- `_require_env`: an empty value counts as none.
unfoldable pub require_env : Environ → String → Result Text
require_env env name = elim (get_env env name) [
  | none ↦ raised value_error
  | some value ↦ elim (non_empty value) [ none ↦ raised value_error | some v ↦ ok v ]
]

-- `_opt_env`
unfoldable pub opt_env : Environ → String → Option Text
opt_env env name = elim (get_env env name) [ none ↦ none | some value ↦ non_empty (strip value) ]

-- `int(value)`
unfoldable pub int_value : Text → Result ℤ
unfolding int_of
int_value value = elim (int_of value) [ none ↦ raised value_error | some n ↦ ok n ]

-- `_int_env`
unfoldable pub int_env : Environ → String → ℤ → Result ℤ
unfolding int_value
int_env env name default = elim (get_env env name) [ none ↦ ok default | some v ↦ int_value v ]

abbrev span_digits : Text → Text × Text
span_digits [] = ([], [])
span_digits (c ∷ cs) =
    let (front, rest) = span_digits cs in if is_digit c then (c ∷ front, rest) else ([], c ∷ cs)

abbrev without_underscores : Text → Text
without_underscores [] = []
without_underscores (c ∷ cs) =
    let rest = without_underscores cs in if c == b'_' then rest else c ∷ rest

abbrev digits_value : Text → ℕ
digits_value = foldl (λ (n c : ℕ). n * 10 + (c - b'0')) 0

-- A sign, and what follows it.
abbrev take_sign : Text → Bool × Text
take_sign [] = (false, [])
take_sign (c ∷ cs) =
    if c == b'-' then (true, cs) else if c == b'+' then (false, cs) else (false, c ∷ cs)

-- The part behind the point, if there is one.
abbrev take_fraction : Text → Text × Text
take_fraction [] = ([], [])
take_fraction (c ∷ cs) = if c == b'.' then span_digits cs else ([], c ∷ cs)

-- The digits that end a text, with their sign in front.
abbrev signed_digits : Bool → Text × Text → Option ℤ
signed_digits negative ([], rest) = none
signed_digits negative (d ∷ ds, []) = some (signed negative (digits_value (d ∷ ds)))
signed_digits negative (d ∷ ds, c ∷ rest) = none

abbrev exponent_digits : Bool × Text → Option ℤ
exponent_digits (negative, cs) = signed_digits negative (span_digits cs)

-- The exponent, where the text goes on.
abbrev take_exponent : Text → Option ℤ
take_exponent [] = some (pos 0)
take_exponent (c ∷ cs) = if c == b'e' || c == b'E' then exponent_digits (take_sign cs) else none

abbrev decimal_of : Bool → Text → Text → Option ℤ → Option Decimal
decimal_of negative whole fraction none = none
decimal_of negative whole fraction (some e) = elim (whole ++ fraction) [
  | [] ↦ none
  | d ∷ ds ↦ some (record {
    coef = signed negative (digits_value (whole ++ fraction));
    exp = e -ℤ pos (length fraction);
  })
]

-- `Decimal(text)`; `none` is an InvalidOperation.
unfoldable pub parse_decimal : Text → Option Decimal
unfolding ◌-ℤ◌
parse_decimal text =
    let (negative, body) = take_sign (without_underscores (strip text)) in
    let (whole, rest) = span_digits body in
    let (fraction, tail) = take_fraction rest in
    decimal_of negative whole fraction (take_exponent tail)

unfoldable pub decimal_value : Text → Result Decimal
unfolding parse_decimal
decimal_value text = elim (parse_decimal text) [ none ↦ raised invalid_operation | some d ↦ ok d ]

-- `_decimal_env`
unfoldable pub decimal_env : Environ → String → Text → Result Decimal
unfolding decimal_value
decimal_env env name default = elim (get_env env name) [
  | none ↦ decimal_value default
  | some value ↦ decimal_value (if is_blank value then default else value)
]

-- The text up to the first of a character, and what follows it.
abbrev pub split_at : ℕ → Text → Option (Text × Text)
split_at c [] = none
split_at c (x ∷ xs) =
    let rest = split_at c xs in
    if x == c
    then some ([], xs)
    else elim rest [ none ↦ none | some (front, back) ↦ some (x ∷ front, back) ]

-- The parts of a reversed text, turned round.
abbrev pub turned : Option (Text × Text) → Option (Text × Text)
turned none = none
turned (some (back, front)) = some (reverse front, reverse back)

-- `value.rpartition(c)`; `none` where the separator is not there.
abbrev pub rpartition : ℕ → Text → Option (Text × Text)
rpartition c value = turned (split_at c (reverse value))

abbrev pub any_host : Text
any_host = codes "0.0.0.0"

-- The host and the text of the port.
abbrev pub host_port : Text → Option (Text × Text) → Text × Text
host_port value none = (any_host, value)
host_port value (some ([], port)) = (any_host, port)
host_port value (some (c ∷ host, port)) = (c ∷ host, port)

-- `1 <= port_num <= 65535`
abbrev pub check_port : Text → Option ℤ → Result (Option (Text × ℕ))
check_port host none = raised value_error
check_port host (some (ℤ.negsuc n)) = raised value_error
check_port host (some (pos n)) =
    if leb 1 n && leb n 65535 then ok (some (host, n)) else raised value_error

unfoldable pub bind_of : Text → Result (Option (Text × ℕ))
unfolding int_of
bind_of value =
    let (host, port) = host_port value (rpartition b':' value) in check_port host (int_of port)

-- `_metrics_bind_env`
unfoldable pub metrics_bind_env : Environ → String → Result (Option (Text × ℕ))
unfolding bind_of
metrics_bind_env env name = elim (get_env env name) [
  | none ↦ ok none
  | some value ↦ if is_blank value then ok none else bind_of (strip value)
]
