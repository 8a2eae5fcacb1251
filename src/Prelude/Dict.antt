-- ===== src/Prelude/Dict.antt =====
-- Python dicts as association lists in insertion order, with string keys.
use Prim.Native.String.{String}
use Prim.Native.Nat.{ℕ, suc, ◌<◌}
use mathlib.Core.Path.{◌≡◌, refl, sym, ap, ◌∙◌}
use mathlib.Core.Logic.{◌≢◌, inl, inr}
use mathlib.Core.Bool.{true, false}
use mathlib.Core.Option.{Option, none, some}
use mathlib.Core.List.{List, [], ◌∷◌}
use text.Mathlib.Text.{◌==◌ as str_eq}
use text.Mathlib.TextEquality.{eq_iff}
use native.Mathlib.Omega.{arith}
use gm_validator.Prelude.Tests.{if◌then◌else◌, Bool-cases, some_injective}

abbrev pub Dict {ℓ} : Type ℓ → Type ℓ
Dict V = List (String × V)

str_eq_sym : (a b : String) → str_eq a b ≡ false → str_eq b a ≡ false
str_eq_sym a b h = ground (arith, eq_iff a b, eq_iff b a)

module _ {ℓ} {V : Type ℓ} where
  -- `d.get(key)`
  abbrev pub lookup : String → Dict V → Option V
  lookup key [] = none
  lookup key ((k, v) ∷ d) = if str_eq k key then some v else lookup key d

  -- `d[key] = value`
  abbrev pub insert : String → V → Dict V → Dict V
  insert key v [] = (key, v) ∷ []
  insert key v ((k, w) ∷ d) = if str_eq k key then (k, v) ∷ d else (k, w) ∷ insert key v d

  pub lookup-insert :
      (key other : String) (v : V) (d : Dict V)
      → lookup other (insert key v d) ≡ (if str_eq key other then some v else lookup other d)
  lookup-insert key other v [] = refl
  lookup-insert key other v ((k, w) ∷ d) =
      ground (arith, eq_iff key other, eq_iff k key, eq_iff k other, lookup-insert key other v d)

  -- Every key stands once.
  abbrev pub IsKeyed : Dict V → Type ℓ
  IsKeyed [] = Unit
  IsKeyed ((k, v) ∷ d) = (lookup k d ≡ none) × IsKeyed d

  lookup-insert_eq :
      (key other : String) (v : V) (d : Dict V)
      → str_eq key other ≡ true
      → lookup other (insert key v d) ≡ some v
  lookup-insert_eq key other v d h = lookup-insert key other v d ∙ rw h refl

  lookup-insert_ne :
      (key other : String) (v : V) (d : Dict V)
      → str_eq key other ≡ false
      → lookup other (insert key v d) ≡ lookup other d
  lookup-insert_ne key other v d h = lookup-insert key other v d ∙ rw h refl

  -- A key that is missing from a dict is not its first one either.
  pub missing_key :
      (key k : String) (v : V) (d : Dict V)
      → lookup key ((k, v) ∷ d) ≡ none
      → (k ≢ key) × (lookup key d ≡ none)
  missing_key key k v d h = elim (Bool-cases (str_eq k key)) [
    | inl same ↦ cc (rw same at h)
    | inr other ↦ (λ e. cc ((eq_iff k key).1 e), rw other at h)
  ]

  pub insert-IsKeyed : (key : String) (v : V) (d : Dict V) → IsKeyed d → IsKeyed (insert key v d)
  insert-IsKeyed key v [] h = (refl, tt)
  insert-IsKeyed key v ((k, w) ∷ d) (h, hs) = elim (Bool-cases (str_eq k key)) [
    | inl same ↦ rw same (h, hs)
    | inr other ↦
        rw other
          (lookup-insert_ne key k v d (str_eq_sym k key other) ∙ h, insert-IsKeyed key v d hs)
  ]

-- No two keys have one value.
abbrev pub OneToOne : Dict ℕ → Type 0
OneToOne d =
    (key other : String) (n : ℕ) → lookup key d ≡ some n → lookup other d ≡ some n → key ≡ other

abbrev pub Below : ℕ → Dict ℕ → Type 0
Below bound d = (key : String) (n : ℕ) → lookup key d ≡ some n → n < bound

-- A value above all others keeps the keys apart.
pub insert-Below : (key : String) (n : ℕ) (d : Dict ℕ) → Below n d → Below (suc n) (insert key n d)
insert-Below key n d b other m h = elim (Bool-cases (str_eq key other)) [
  | inl same ↦
      let e = some_injective (sym (lookup-insert_eq key other n d same) ∙ h) in omega (arith, e)
  | inr different ↦
      let l = b other m (sym (lookup-insert_ne key other n d different) ∙ h) in omega (arith, l)
]

-- The key of the new value is the new key.
key_of_new :
    (key : String) (n : ℕ) (d : Dict ℕ) (other : String)
    → Below n d
    → lookup other (insert key n d) ≡ some n
    → key ≡ other
key_of_new key n d other b h = elim (Bool-cases (str_eq key other)) [
  | inl same ↦ (eq_iff key other).0 same
  | inr different ↦
      let l = b other n (sym (lookup-insert_ne key other n d different) ∙ h) in
      absurd (omega (arith, l))
]

pub insert-OneToOne :
    (key : String) (n : ℕ) (d : Dict ℕ) → Below n d → OneToOne d → OneToOne (insert key n d)
insert-OneToOne key n d b o k j m h i = elim (Bool-cases (str_eq key k)) [
  | inl same ↦
      let e = some_injective (sym (lookup-insert_eq key k n d same) ∙ h) in
      sym ((eq_iff key k).0 same) ∙ key_of_new key n d j b (i ∙ ap some (sym e))
  | inr different ↦ elim (Bool-cases (str_eq key j)) [
    | inl same ↦
        let e = some_injective (sym (lookup-insert_eq key j n d same) ∙ i) in
        sym (key_of_new key n d k b (h ∙ ap some (sym e))) ∙ (eq_iff key j).0 same
    | inr distinct ↦
        o k j m (sym (lookup-insert_ne key k n d different) ∙ h)
          (sym (lookup-insert_ne key j n d distinct) ∙ i)
  ]
]
