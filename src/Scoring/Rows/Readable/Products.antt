-- ===== src/Scoring/Rows/Readable/Products.antt =====
-- The key `(provider, model)` of a row, against its product.
use mathlib.Core.Option
use gm_validator.Prelude.{
  if◌then◌else◌, true, false, Option, none, some, ◌≡◌, ◌↔◌, ◌⊎◌, refl, sym, ap, ◌∙◌, inl, inr,
  Bool-cases, Option-cases, ◌&&◌,
}
use gm_validator.Errors.{Result, raised, ok, type_error, ◌>>=◌, ok_injective, unbind}
use gm_validator.Scoring.Json.{
  Json, null, boolean, int, float, str, array, object, Fields, end, field, get, is_hashable,
  is_truthy,
}
use gm_validator.Scoring.Rows.{ProductKey, product_of, product_key}
use gm_validator.Scoring.Rows.Readable.{IsPlain, HasProduct}

product_of_falsy : (v : Json) → is_truthy v ≡ false → product_of (some v) ≡ ok end
unfolding product_of
product_of_falsy null e = refl
product_of_falsy (boolean true) e = cc
product_of_falsy (boolean false) e = refl
product_of_falsy (int n) e = rw e refl
product_of_falsy (float d) e = rw e refl
product_of_falsy (str s) e = rw e refl
product_of_falsy (array true) e = cc
product_of_falsy (array false) e = refl
product_of_falsy (object end) e = refl
product_of_falsy (object (field _ _ _)) e = cc

-- What is no dict stands for the empty product, or is refused.
product_of-end :
    (v : Json) (fields : Fields)
    → product_of (some v) ≡ ok fields
    → (v ≡ object fields) ⊎ (is_truthy v ≡ false)
unfolding product_of
product_of-end (object f) fields h = inl (ap object (ok_injective h))
product_of-end null fields h = inr refl
product_of-end (boolean true) fields h = cc
product_of-end (boolean false) fields h = inr refl
product_of-end (int n) fields h = elim (Bool-cases (is_truthy (int n))) [
  | inl e ↦ cc (rw e at h)
  | inr e ↦ inr e
]
product_of-end (float d) fields h = elim (Bool-cases (is_truthy (float d))) [
  | inl e ↦ cc (rw e at h)
  | inr e ↦ inr e
]
product_of-end (str s) fields h = elim (Bool-cases (is_truthy (str s))) [
  | inl e ↦ cc (rw e at h)
  | inr e ↦ inr e
]
product_of-end (array true) fields h = cc
product_of-end (array false) fields h = inr refl

-- The end of `product_key`, on the fields of the product.
key_of : Fields → Result ProductKey
key_of product =
    let provider = Option.get_or (get "provider" product) (str "") in
    let model = Option.get_or (get "model" product) (str "") in
    if is_hashable provider && is_hashable model then ok (provider, model) else raised type_error

product_key_steps : (row : Fields) → product_key row ≡ (product_of (get "product" row) >>= key_of)
unfolding product_key key_of
product_key_steps row = refl

hashable-IsPlain : (o : Option Json) → (is_hashable (Option.get_or o (str "")) ≡ true) ↔ IsPlain o
hashable-IsPlain none = (λ h. tt, λ h. refl)
hashable-IsPlain (some null) = (λ h. tt, λ h. refl)
hashable-IsPlain (some (boolean _)) = (λ h. tt, λ h. refl)
hashable-IsPlain (some (int _)) = (λ h. tt, λ h. refl)
hashable-IsPlain (some (float _)) = (λ h. tt, λ h. refl)
hashable-IsPlain (some (str _)) = (λ h. tt, λ h. refl)
hashable-IsPlain (some (array _)) = (λ h. cc, λ h. absurd h)
hashable-IsPlain (some (object _)) = (λ h. cc, λ h. absurd h)

key_of_iff :
    (fields : Fields)
    → ((key : ProductKey) × (key_of fields ≡ ok key))
      ↔ (IsPlain (get "provider" fields) × IsPlain (get "model" fields))
unfolding key_of
key_of_iff fields =
    let provider = Option.get_or (get "provider" fields) (str "") in
    let model = Option.get_or (get "model" fields) (str "") in
    let plain = hashable-IsPlain (get "provider" fields) in
    let plain' = hashable-IsPlain (get "model" fields) in
    (
      λ (key, h). elim (Bool-cases (is_hashable provider)) [
        | inr e ↦ cc (rw e at h)
        | inl e ↦ elim (Bool-cases (is_hashable model)) [
          | inr g ↦ cc (rw (e, g) at h)
          | inl g ↦ (plain.0 e, plain'.0 g)
        ]
      ],
      λ (a, b). ((provider, model), rw (plain.1 a, plain'.1 b) refl),
    )

key_of-end : (key : ProductKey) × (key_of end ≡ ok key)
unfolding get
key_of-end = (key_of_iff end).1 (tt, tt)

product_key_read :
    (row : Fields) (fields : Fields)
    → product_of (get "product" row) ≡ ok fields
    → ((key : ProductKey) × (key_of fields ≡ ok key))
    → (key : ProductKey) × (product_key row ≡ ok key)
product_key_read row fields e (key, h) = (key, product_key_steps row ∙ ap (λ r. r >>= key_of) e ∙ h)

pub product_key_iff :
    (row : Fields) → ((key : ProductKey) × (product_key row ≡ ok key)) ↔ HasProduct row
unfolding product_of
product_key_iff row = (
  λ (key, h).
      let (fields, e, read) =
        unbind (product_of (get "product" row)) key_of (sym (product_key_steps row) ∙ h) in
      elim (Option-cases (get "product" row)) [
        | inl missing ↦ inl missing
        | inr (v, there) ↦ elim (product_of-end v fields (sym (ap product_of there) ∙ e)) [
          | inl dict ↦ inr (
              inr (
                fields,
                there ∙ ap some dict,
                ((key_of_iff fields).0 (key, read)).0,
                ((key_of_iff fields).0 (key, read)).1,
              ))
          | inr falsy ↦ inr (inl (v, there, falsy))
        ]
      ],
  λ h. elim h [
    | inl missing ↦ product_key_read row end (ap product_of missing) key_of-end
    | inr (inl (v, there, falsy)) ↦
        product_key_read row end (ap product_of there ∙ product_of_falsy v falsy) key_of-end
    | inr (inr (fields, there, provider, model)) ↦
        product_key_read row fields (ap product_of there) ((key_of_iff fields).1 (provider, model))
  ],
)
