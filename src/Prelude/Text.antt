-- ===== src/Prelude/Text.antt =====
-- `str.strip` and `int(text, 10)`. Python also reads the digits of other scripts, and refuses texts of
-- more than 4300 digits; neither is modelled.
use Prim.Native.Char.{code}
use Prim.Native.String.{String}
use Prim.Native.Nat.{ℕ, ◌+◌, ◌-◌, ◌*◌}
use mathlib.Core.Bool.{Bool, true, false, ◌&&◌, ◌||◌}
use mathlib.Core.Option.{Option, none, some}
use mathlib.Core.List.{List, [], ◌∷◌, foldl, reverse}
use gm_validator.Prelude.Tests.{leb, ◌==◌, if◌then◌else◌}
use gm_validator.Prelude.Int.{ℤ, pos, sub_ℕ}

-- The code points of a text.
abbrev pub codes : String → List ℕ
codes String.[] = []
codes (String.◌∷◌ c s) = code c ∷ codes s

-- The white space of `str.strip`: space, \t \n \v \f \r, the separators 0x1c to 0x1f, and that of
-- Unicode beyond ASCII.
abbrev pub is_space : ℕ → Bool
is_space c =
    c == 0x20
    || (leb 0x09 c && leb c 0x0d)
    || (leb 0x1c c && leb c 0x1f)
    || c == 0x85
    || c == 0xa0
    || c == 0x1680
    || (leb 0x2000 c && leb c 0x200a)
    || (leb 0x2028 c && leb c 0x2029)
    || c == 0x202f
    || c == 0x205f
    || c == 0x3000

-- `text.lstrip(chars)` and `text.strip(chars)`, by a test of the characters.
abbrev pub lstrip_by : (ℕ → Bool) → List ℕ → List ℕ
lstrip_by p [] = []
lstrip_by p (c ∷ cs) = if p c then lstrip_by p cs else c ∷ cs

abbrev pub strip_by : (ℕ → Bool) → List ℕ → List ℕ
strip_by p cs = reverse (lstrip_by p (reverse (lstrip_by p cs)))

-- `text.lstrip()` and `text.strip()`
abbrev pub lstrip : List ℕ → List ℕ
lstrip = lstrip_by is_space

abbrev pub strip : List ℕ → List ℕ
strip = strip_by is_space

abbrev pub is_blank : List ℕ → Bool
is_blank cs = elim (lstrip cs) [ [] ↦ true | c ∷ rest ↦ false ]

abbrev pub is_digit : ℕ → Bool
is_digit c = leb b'0' c && leb c b'9'

-- The number read so far, and whether its last character is a digit: an underscore stands between
-- two digits.
abbrev pub Reading : Type 0
Reading = Option (ℕ × Bool)

abbrev pub read_digit : Reading → ℕ → Reading
read_digit none c = none
read_digit (some (n, after_digit)) c =
    if is_digit c
    then some (n * 10 + (c - b'0'), true)
    else if c == b'_' && after_digit
    then some (n, false)
    else none

abbrev pub finished : Reading → Option ℕ
finished none = none
finished (some (n, after_digit)) = if after_digit then some n else none

abbrev pub parse_nat : List ℕ → Option ℕ
parse_nat cs = finished (foldl read_digit (some (0, false)) cs)

abbrev pub parse_signed : List ℕ → Option ℤ
parse_signed [] = none
parse_signed (c ∷ cs) =
    if c == b'-'
    then elim (parse_nat cs) [ none ↦ none | some n ↦ some (sub_ℕ 0 n) ]
    else elim (if c == b'+' then parse_nat cs else parse_nat (c ∷ cs)) [
      | none ↦ none
      | some n ↦ some (pos n)
    ]

-- `int(text, 10)`; `none` is a ValueError.
unfoldable pub int_of : List ℕ → Option ℤ
int_of cs = parse_signed (strip cs)

unfoldable pub parse_int : String → Option ℤ
unfolding int_of
parse_int text = int_of (codes text)
