-- ===== src/Mirror/Keys.antt =====
-- The keys in the bucket and the paths on the disk, as texts.
use mathlib.Core.List.{append_assoc}
use gm_validator.Prelude.{
  ℕ, Bool, true, false, Bool-cases, inl, inr, List, [], ◌∷◌, ◌++◌, ◌≡◌, refl, sym, ap, ◌∙◌, ◌==◌,
  arith, if◌then◌else◌, some_injective,
}
use gm_validator.Prelude.Text.{codes, strip_by, parse_nat}
use gm_validator.Prelude.Print.{
  print_nat, AllDigits, print_nat-AllDigits, StartsWithDigit, print_nat-StartsWithDigit,
  parse_nat-print_nat,
}
use gm_validator.Mirror.{Artifact, aggregated, epoch_summary, finalized}
use gm_validator.Mirror.Names.{epoch_dir, file_name, object_key}

-- `prefix.strip("/")`, of the constructor
unfoldable pub mirror_prefix : List ℕ → List ℕ
mirror_prefix = strip_by λ c. c == b'/'

-- `os.path.join(dir, name)` for a name that is no absolute path
abbrev pub ends_in_slash : List ℕ → Bool
ends_in_slash [] = true
ends_in_slash (c ∷ []) = c == b'/'
ends_in_slash (c ∷ d ∷ cs) = ends_in_slash (d ∷ cs)

unfoldable pub path_join : List ℕ → List ℕ → List ℕ
path_join dir name = dir ++ (if ends_in_slash dir then name else b'/' ∷ name)

-- Where `_download` puts an artifact.
unfoldable pub local_path : List ℕ → ℕ → Artifact → List ℕ
unfolding path_join epoch_dir
local_path root e a = path_join (path_join root (epoch_dir e)) (file_name a)

-- `aggregated_path` and `epoch_summary_path`
unfoldable pub aggregated_path : List ℕ → List ℕ
unfolding path_join
aggregated_path mirror_dir = path_join mirror_dir (codes "aggregated.jsonl")

unfoldable pub epoch_summary_path : List ℕ → List ℕ
unfolding path_join
epoch_summary_path mirror_dir = path_join mirror_dir (codes "epoch_summary.json")

append_cancel : (xs ys zs : List ℕ) → xs ++ ys ≡ xs ++ zs → ys ≡ zs
append_cancel [] ys zs h = h
append_cancel (x ∷ xs) ys zs h = append_cancel xs ys zs (cc)

-- Digits end at the first slash.
digits_end :
    (xs ys s t : List ℕ)
    → AllDigits xs
    → AllDigits ys
    → xs ++ (b'/' ∷ s) ≡ ys ++ (b'/' ∷ t)
    → (xs ≡ ys) × (s ≡ t)
digits_end [] [] s t dx dy h = (refl, cc)
digits_end [] (y ∷ ys) s t dx (d, dy) h = let e : b'/' ≡ y = cc in absurd (ground arith)
digits_end (x ∷ xs) [] s t (d, dx) dy h = let e : x ≡ b'/' = cc in absurd (ground arith)
digits_end (x ∷ xs) (y ∷ ys) s t (d, dx) (f, dy) h =
    let e : x ≡ y = cc in let (same, rest) = digits_end xs ys s t dx dy (cc) in (cc, rest)

print_nat_injective : (m n : ℕ) → print_nat m ≡ print_nat n → m ≡ n
print_nat_injective m n h =
    some_injective (sym (parse_nat-print_nat m) ∙ ap parse_nat h ∙ parse_nat-print_nat n)

abbrev first : List ℕ → ℕ
first [] = 0
first (c ∷ cs) = c

file_name_injective : (a b : Artifact) → file_name a ≡ file_name b → a ≡ b
file_name_injective aggregated aggregated h = refl
file_name_injective epoch_summary epoch_summary h = refl
file_name_injective finalized finalized h = refl
file_name_injective aggregated epoch_summary h = absurd (omega (arith, ap first h))
file_name_injective aggregated finalized h = absurd (omega (arith, ap first h))
file_name_injective epoch_summary aggregated h = absurd (omega (arith, ap first h))
file_name_injective epoch_summary finalized h = absurd (omega (arith, ap first h))
file_name_injective finalized aggregated h = absurd (omega (arith, ap first h))
file_name_injective finalized epoch_summary h = absurd (omega (arith, ap first h))

numbered_injective :
    (e e' : ℕ) (a a' : Artifact)
    → print_nat e ++ (b'/' ∷ file_name a) ≡ print_nat e' ++ (b'/' ∷ file_name a')
    → (e ≡ e') × (a ≡ a')
numbered_injective e e' a a' h =
    let (number, name) =
      digits_end (print_nat e) (print_nat e') (file_name a) (file_name a') (print_nat-AllDigits e)
        (print_nat-AllDigits e') h in
    (print_nat_injective e e' number, file_name_injective a a' name)

-- Under one prefix no two artifacts have one key, within an epoch or across epochs.
pub object_key_injective :
    (prefix : List ℕ) (e e' : ℕ) (a a' : Artifact)
    → object_key prefix e a ≡ object_key prefix e' a'
    → (e ≡ e') × (a ≡ a')
unfolding object_key
object_key_injective prefix e e' a a' h =
    numbered_injective e e' a a'
      (append_cancel (codes "/finalized/epoch=") _ _ (append_cancel prefix _ _ h))

ends_in_slash-append :
    (xs : List ℕ) (y : ℕ) (ys : List ℕ) → ends_in_slash (xs ++ (y ∷ ys)) ≡ ends_in_slash (y ∷ ys)
ends_in_slash-append [] y ys = refl
ends_in_slash-append (x ∷ []) y ys = refl
ends_in_slash-append (x ∷ z ∷ xs) y ys = ends_in_slash-append (z ∷ xs) y ys

digits_no_slash : (c : ℕ) (cs : List ℕ) → AllDigits (c ∷ cs) → ends_in_slash (c ∷ cs) ≡ false
digits_no_slash c [] (d, h) = ground arith
digits_no_slash c (x ∷ cs) (d, h) = digits_no_slash x cs h

ends_in_digits :
    (xs cs : List ℕ) → StartsWithDigit cs → AllDigits cs → ends_in_slash (xs ++ cs) ≡ false
ends_in_digits xs [] s h = absurd s
ends_in_digits xs (c ∷ cs) s h = ends_in_slash-append xs c cs ∙ digits_no_slash c cs h

-- A directory that ends in an epoch's number, below any root.
below_root :
    (dir prefix : List ℕ) (e : ℕ) (name : List ℕ)
    → path_join (dir ++ (prefix ++ print_nat e)) name
      ≡ dir ++ (prefix ++ (print_nat e ++ (b'/' ∷ name)))
unfolding path_join
below_root dir prefix e name =
    let no_slash : ends_in_slash (dir ++ (prefix ++ print_nat e)) ≡ false =
      ap ends_in_slash (sym (append_assoc dir prefix (print_nat e)))
      ∙ ends_in_digits (dir ++ prefix) (print_nat e) (print_nat-StartsWithDigit e)
          (print_nat-AllDigits e) in
    rw no_slash (
      append_assoc dir (prefix ++ print_nat e) (b'/' ∷ name)
      ∙ ap (λ t. dir ++ t) (append_assoc prefix (print_nat e) (b'/' ∷ name)))

-- Under one root no two artifacts have one path.
pub local_path_injective :
    (root : List ℕ) (e e' : ℕ) (a a' : Artifact)
    → local_path root e a ≡ local_path root e' a'
    → (e ≡ e') × (a ≡ a')
unfolding local_path path_join epoch_dir
local_path_injective root e e' a a' h = elim (Bool-cases (ends_in_slash root)) [
  | inl s ↦
      let step = λ (n : ℕ) (b : Artifact). below_root root (codes "epoch=") n (file_name b) in
      let k = sym (step e a) ∙ rw s at h ∙ step e' a' in
      numbered_injective e e' a a' (append_cancel (codes "epoch=") _ _ (append_cancel root _ _ k))
  | inr s ↦
      let step = λ (n : ℕ) (b : Artifact). below_root root (codes "/epoch=") n (file_name b) in
      let k = sym (step e a) ∙ rw s at h ∙ step e' a' in
      numbered_injective e e' a a' (append_cancel (codes "/epoch=") _ _ (append_cancel root _ _ k))
]
