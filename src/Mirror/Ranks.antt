-- ===== src/Mirror/Ranks.antt =====
-- What `prune` keeps: the ranks of the epochs on the disk.
use gm_validator.Prelude.{
  ℕ, zero, suc, ◌+◌, ◌≤◌, ◌<◌, true, false, List, [], ◌∷◌, ◌≡◌, refl, ap, ◌∙◌, ltb, leb, ltb→lt,
  ◌==◌, ◌||◌, if◌then◌else◌, drop, All, Bool-cases, inl, inr, arith,
}
use mathlib.Core.Path.{subst}
use gm_validator.Mirror.{insert_descending, sort_descending, contains}

-- The number of epochs above one.
abbrev pub above : ℕ → List ℕ → ℕ
above e [] = 0
above e (x ∷ xs) = (if ltb e x then 1 else 0) + above e xs

-- No epoch twice.
abbrev pub Distinct : List ℕ → Type 0
Distinct [] = Unit
Distinct (e ∷ es) = (contains e es ≡ false) × Distinct es

abbrev pub IsFalling : List ℕ → Type 0
IsFalling [] = Unit
IsFalling (x ∷ xs) = All (λ y. y < x) xs × IsFalling xs

pub above-insert_descending :
    (e x : ℕ) (xs : List ℕ) → above e (insert_descending x xs) ≡ above e (x ∷ xs)
above-insert_descending e x [] = refl
above-insert_descending e x (y ∷ ys) = elim (Bool-cases (ltb x y)) [
  | inl h ↦ rw h (omega (arith, above-insert_descending e x ys))
  | inr h ↦ rw h refl
]

pub above-sort_descending : (e : ℕ) (xs : List ℕ) → above e (sort_descending xs) ≡ above e xs
above-sort_descending e [] = refl
above-sort_descending e (x ∷ xs) =
    omega (arith, above-insert_descending e x (sort_descending xs), above-sort_descending e xs)

contains-insert_descending :
    (e x : ℕ) (xs : List ℕ) → contains e (insert_descending x xs) ≡ contains e (x ∷ xs)
contains-insert_descending e x [] = refl
contains-insert_descending e x (y ∷ ys) = elim (Bool-cases (ltb x y)) [
  | inl h ↦ rw h (ground (arith, contains-insert_descending e x ys))
  | inr h ↦ rw h refl
]

pub contains-sort_descending :
    (e : ℕ) (xs : List ℕ) → contains e (sort_descending xs) ≡ contains e xs
contains-sort_descending e [] = refl
contains-sort_descending e (x ∷ xs) =
    contains-insert_descending e x (sort_descending xs)
    ∙ ap (λ b. x == e || b) (contains-sort_descending e xs)

All-insert_descending :
    (P : ℕ → Type 0) (x : ℕ) (xs : List ℕ) → P x → All P xs → All P (insert_descending x xs)
All-insert_descending P x [] p ps = (p, tt)
All-insert_descending P x (y ∷ ys) p (q, ps) = elim (Bool-cases (ltb x y)) [
  | inl h ↦ rw h (q, All-insert_descending P x ys p ps)
  | inr h ↦ rw h (p, (q, ps))
]

All-lt_trans : (x y : ℕ) (xs : List ℕ) → x ≤ y → All (λ z. z < x) xs → All (λ z. z < y) xs
All-lt_trans x y [] h a = tt
All-lt_trans x y (z ∷ zs) h (l, a) = (omega (arith, l), All-lt_trans x y zs h a)

IsFalling-insert_descending :
    (x : ℕ) (xs : List ℕ)
    → contains x xs ≡ false
    → IsFalling xs
    → IsFalling (insert_descending x xs)
IsFalling-insert_descending x [] n f = (tt, tt)
IsFalling-insert_descending x (y ∷ ys) n (a, f) = elim (Bool-cases (ltb x y)) [
  | inl h ↦ rw h (
    All-insert_descending (λ z. z < y) x ys (ltb→lt x y h) a,
    IsFalling-insert_descending x ys (ground arith) f,
  )
  | inr h ↦
      let lower : y < x = ground arith in
      rw h ((lower, All-lt_trans y x ys (omega (arith, lower)) a), (a, f))
]

pub IsFalling-sort_descending : (xs : List ℕ) → Distinct xs → IsFalling (sort_descending xs)
IsFalling-sort_descending [] d = tt
IsFalling-sort_descending (x ∷ xs) (n, d) =
    IsFalling-insert_descending x (sort_descending xs) (contains-sort_descending x xs ∙ n)
      (IsFalling-sort_descending xs d)

-- Nothing that is above all of a list stands in it, or in an end of it.
not_contained : (e : ℕ) (xs : List ℕ) (r : ℕ) → All (λ y. y < e) xs → contains e (drop r xs) ≡ false
not_contained e [] zero a = refl
not_contained e [] (suc r) a = refl
not_contained e (x ∷ xs) zero (l, a) =
    let other : (x == e) ≡ false = ground arith in rw other (not_contained e xs 0 a)
not_contained e (x ∷ xs) (suc r) (l, a) = not_contained e xs r a

pub none_above : (e : ℕ) (xs : List ℕ) → All (λ y. y < e) xs → above e xs ≡ 0
none_above e [] a = refl
none_above e (x ∷ xs) (l, a) =
    let low : ltb e x ≡ false = ground arith in rw low (omega (arith, none_above e xs a))

lt_of_contains : (e x : ℕ) (xs : List ℕ) → All (λ y. y < x) xs → contains e xs ≡ true → e < x
lt_of_contains e x [] a h = cc
lt_of_contains e x (y ∷ ys) (l, a) h = elim (Bool-cases (y == e)) [
  | inl same ↦ ground arith
  | inr other ↦ lt_of_contains e x ys a (rw other at h)
]

-- Behind the first r of a falling list stand those with r or more above them.
pub contains-drop :
    (e r : ℕ) (xs : List ℕ)
    → IsFalling xs
    → contains e xs ≡ true
    → contains e (drop r xs) ≡ leb r (above e xs)
contains-drop e r [] f h = cc
contains-drop e zero (x ∷ xs) f h = h ∙ ground arith
contains-drop e (suc r) (x ∷ xs) (a, f) h = elim (Bool-cases (x == e)) [
  | inl same ↦
      let e_eq : x ≡ e = ground arith in
      let below = subst (λ z. All (λ y. y < z) xs) e_eq a in
      not_contained e xs r below ∙ ground (arith, none_above e xs below)
  | inr other ↦
      let inside : contains e xs ≡ true = rw other at h in
      let higher = lt_of_contains e x xs a inside in contains-drop e r xs f inside ∙ ground arith
]
