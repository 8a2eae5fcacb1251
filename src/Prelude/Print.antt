-- ===== src/Prelude/Print.antt =====
-- `str(n)` on naturals, and `int` reading it back.
use Prim.Native.Nat.{ℕ, zero, suc, ◌+◌, ◌*◌, ◌/◌, ◌%◌, ◌<◌}
use mathlib.Core.Path.{◌≡◌, refl, ap, ◌∙◌}
use mathlib.Core.Logic.{inl, inr}
use mathlib.Core.Bool.{Bool, true, false}
use mathlib.Core.Option.{some}
use mathlib.Core.List.{
  List, [], ◌∷◌, ◌++◌, foldl, reverse_aux, reverse, reverse-reverse, reverse-append,
}
use native.Mathlib.Omega.{arith}
use gm_validator.Prelude.Tests.{ltb, ◌==◌, ltb→lt, ltb→le, Bool-cases}
use gm_validator.Prelude.Int.{pos}
use gm_validator.Prelude.Text.{
  lstrip, is_space, strip, is_digit, read_digit, finished, parse_nat, parse_signed, int_of,
}

abbrev pub digit : ℕ → ℕ
digit n = b'0' + n % 10

-- The digits of n in front of a text. Each round divides by ten, so the fuel n + 1 is enough.
unfoldable pub print_from : ℕ → ℕ → List ℕ → List ℕ
print_from zero n out = out
print_from (suc fuel) n out = elim (ltb n 10) [
  | true ↦ digit n ∷ out
  | false ↦ print_from fuel (n / 10) (digit n ∷ out)
]

unfoldable pub print_nat : ℕ → List ℕ
unfolding print_from
print_nat n = print_from (suc n) n []

print_from_last :
    (fuel n : ℕ) (out : List ℕ) → ltb n 10 ≡ true → print_from (suc fuel) n out ≡ digit n ∷ out
unfolding print_from
print_from_last fuel n out h = rw (print_from, h) refl

print_from_more :
    (fuel n : ℕ) (out : List ℕ)
    → ltb n 10 ≡ false
    → print_from (suc fuel) n out ≡ print_from fuel (n / 10) (digit n ∷ out)
unfolding print_from
print_from_more fuel n out h = rw (print_from, h) refl

-- The first character printed is a digit.
abbrev pub StartsWithDigit : List ℕ → Type 0
StartsWithDigit [] = ⊥
StartsWithDigit (c ∷ cs) = is_digit c ≡ true

is_digit-digit : (n : ℕ) → is_digit (digit n) ≡ true
is_digit-digit n = ground arith

read_digit-digit :
    (m n : ℕ) (b : Bool) → read_digit (some (m, b)) (digit n) ≡ some (m * 10 + n % 10, true)
read_digit-digit m n b = ground arith

print_from-StartsWithDigit :
    (fuel n : ℕ) (out : List ℕ) → n < fuel → StartsWithDigit (print_from fuel n out)
print_from-StartsWithDigit zero n out h = absurd (omega arith)
print_from-StartsWithDigit (suc fuel) n out h = elim (Bool-cases (ltb n 10)) [
  | inl e ↦ rw (print_from_last fuel n out e) (is_digit-digit n)
  | inr e ↦
      let big = ltb→le n 10 e in
      rw (print_from_more fuel n out e)
        (print_from-StartsWithDigit fuel (n / 10) (digit n ∷ out) (omega (arith, big)))
]

-- Reading what is printed leaves the number at hand.
read-print_from :
    (fuel n : ℕ) (b : Bool) (out : List ℕ)
    → n < fuel
    → foldl read_digit (some (0, b)) (print_from fuel n out) ≡ foldl read_digit (some (n, true)) out
read-print_from zero n b out h = absurd (omega arith)
read-print_from (suc fuel) n b out h = elim (Bool-cases (ltb n 10)) [
  | inl e ↦
      let small : 0 * 10 + n % 10 ≡ n = omega (arith, ltb→lt n 10 e) in
      rw (print_from_last fuel n out e)
        (ap (λ r. foldl read_digit r out) (read_digit-digit 0 n b ∙ ap (λ m. some (m, true)) small))
  | inr e ↦
      let big = ltb→le n 10 e in
      let whole : n / 10 * 10 + n % 10 ≡ n = omega arith in
      rw (print_from_more fuel n out e) (
        read-print_from fuel (n / 10) b (digit n ∷ out) (omega (arith, big))
        ∙ ap (λ r. foldl read_digit r out)
            (read_digit-digit (n / 10) n true ∙ ap (λ m. some (m, true)) whole))
]

pub parse_nat-print_nat : (n : ℕ) → parse_nat (print_nat n) ≡ some n
unfolding print_nat
parse_nat-print_nat n = ap finished (read-print_from (suc n) n false [] (omega arith))

abbrev pub AllDigits : List ℕ → Type 0
AllDigits [] = Unit
AllDigits (c ∷ cs) = (is_digit c ≡ true) × AllDigits cs

AllDigits-print_from :
    (fuel n : ℕ) (out : List ℕ) → AllDigits out → AllDigits (print_from fuel n out)
unfolding print_from
AllDigits-print_from zero n out h = h
AllDigits-print_from (suc fuel) n out h = elim (Bool-cases (ltb n 10)) [
  | inl e ↦ rw (print_from_last fuel n out e) (is_digit-digit n, h)
  | inr e ↦
      rw (print_from_more fuel n out e)
        (AllDigits-print_from fuel (n / 10) (digit n ∷ out) (is_digit-digit n, h))
]

AllDigits-reverse_aux :
    (xs ys : List ℕ) → AllDigits xs → AllDigits ys → AllDigits (reverse_aux xs ys)
AllDigits-reverse_aux [] ys hx hy = hy
AllDigits-reverse_aux (x ∷ xs) ys (d, hx) hy = AllDigits-reverse_aux xs (x ∷ ys) hx (d, hy)

reverse_aux_starts :
    (xs ys : List ℕ) → AllDigits xs → StartsWithDigit ys → StartsWithDigit (reverse_aux xs ys)
reverse_aux_starts [] ys hx hy = hy
reverse_aux_starts (x ∷ xs) ys (d, hx) hy = reverse_aux_starts xs (x ∷ ys) hx d

pub AllDigits-reverse : (cs : List ℕ) → AllDigits cs → AllDigits (reverse cs)
AllDigits-reverse cs h = AllDigits-reverse_aux cs [] h tt

reverse_starts : (cs : List ℕ) → AllDigits cs → StartsWithDigit cs → StartsWithDigit (reverse cs)
reverse_starts [] all first = absurd first
reverse_starts (c ∷ cs) (d, all) first = reverse_aux_starts cs (c ∷ []) all d

-- The text does not start with a white space.
abbrev pub IsTight : List ℕ → Type 0
IsTight [] = Unit
IsTight (c ∷ cs) = is_space c ≡ false

pub lstrip-IsTight : (cs : List ℕ) → IsTight cs → lstrip cs ≡ cs
lstrip-IsTight [] h = refl
lstrip-IsTight (c ∷ cs) h = rw h refl

pub strip-IsTight : (cs : List ℕ) → IsTight cs → IsTight (reverse cs) → strip cs ≡ cs
strip-IsTight cs h k =
    ap (λ t. reverse (lstrip (reverse t))) (lstrip-IsTight cs h)
    ∙ ap (λ t. reverse t) (lstrip-IsTight (reverse cs) k)
    ∙ reverse-reverse cs

digit_not_space : (c : ℕ) → is_digit c ≡ true → is_space c ≡ false
digit_not_space c h = ground arith

pub AllDigits-IsTight : (cs : List ℕ) → AllDigits cs → IsTight cs
AllDigits-IsTight [] h = tt
AllDigits-IsTight (c ∷ cs) (d, h) = digit_not_space c d

IsTight-append : (xs ys : List ℕ) → StartsWithDigit xs → IsTight (xs ++ ys)
IsTight-append [] ys h = absurd h
IsTight-append (x ∷ xs) ys h = digit_not_space x h

pub print_nat-AllDigits : (n : ℕ) → AllDigits (print_nat n)
unfolding print_nat
print_nat-AllDigits n = AllDigits-print_from (suc n) n [] tt

pub print_nat-StartsWithDigit : (n : ℕ) → StartsWithDigit (print_nat n)
unfolding print_nat
print_nat-StartsWithDigit n = print_from-StartsWithDigit (suc n) n [] (omega arith)

-- A text that ends in the digits of a number loses nothing at its end.
pub strip-append-print_nat :
    (xs : List ℕ) (n : ℕ)
    → IsTight (xs ++ print_nat n)
    → strip (xs ++ print_nat n) ≡ xs ++ print_nat n
strip-append-print_nat xs n h = strip-IsTight (xs ++ print_nat n) h (
    rw (reverse-append xs (print_nat n)) (
      IsTight-append (reverse (print_nat n)) (reverse xs)
        (reverse_starts (print_nat n) (print_nat-AllDigits n) (print_nat-StartsWithDigit n))))

parse_signed-digits :
    (cs : List ℕ) (n : ℕ)
    → StartsWithDigit cs
    → parse_nat cs ≡ some n
    → parse_signed cs ≡ some (pos n)
parse_signed-digits [] n d h = absurd d
parse_signed-digits (c ∷ cs) n d h =
    let minus : (c == b'-') ≡ false = ground arith in
    let plus : (c == b'+') ≡ false = ground arith in rw (minus, plus, h) refl

-- `int(str(n))` is n.
pub int_of-print_nat : (n : ℕ) → int_of (print_nat n) ≡ some (pos n)
unfolding int_of
int_of-print_nat n =
    ap parse_signed
      (strip-append-print_nat [] n (AllDigits-IsTight (print_nat n) (print_nat-AllDigits n)))
    ∙ parse_signed-digits (print_nat n) n (print_nat-StartsWithDigit n) (parse_nat-print_nat n)
