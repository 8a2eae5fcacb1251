-- ===== src/Economics/Water/Order.antt =====
-- The order that `_reclaim_overflow` visits: each index once, the weights descending along it.
use gm_validator.Prelude.{
  ℕ, zero, suc, ◌+◌, ◌≤◌, ◌<◌, ◌≡◌, ◌≢◌, refl, sym, Bool, true, false, List, [], ◌∷◌, map, length,
  All, range_from, sum, ◌∙◌, arith, Bool-cases, inl, inr,
}
use gm_validator.Decimal.{Decimal}
use gm_validator.Economics.Water.{
  Entry, total, weight_at, key_gt, insert_index, sort_indices, descending_order,
}
use gm_validator.Economics.Water.Level.{IsDescending}

abbrev pub IsNodup : List ℕ → Type 0
IsNodup [] = Unit
IsNodup (x ∷ xs) = All (λ y. x ≢ y) xs × IsNodup xs

insert_index-All :
    (P : ℕ → Type 0) (gt : ℕ → ℕ → Bool) (i : ℕ) (js : List ℕ)
    → P i
    → All P js
    → All P (insert_index gt i js)
unfolding insert_index
insert_index-All P gt i [] p ps = (p, tt)
insert_index-All P gt i (j ∷ js) p (q, qs) = elim (Bool-cases (gt j i)) [
  | inl e ↦ rw e (q, insert_index-All P gt i js p qs)
  | inr e ↦ rw e (p, (q, qs))
]

sort_indices-All :
    (P : ℕ → Type 0) (gt : ℕ → ℕ → Bool) (is : List ℕ) → All P is → All P (sort_indices gt is)
unfolding sort_indices
sort_indices-All P gt [] h = tt
sort_indices-All P gt (i ∷ is) (h, hs) = insert_index-All P gt i _ h (sort_indices-All P gt is hs)

insert_index-IsNodup :
    (gt : ℕ → ℕ → Bool) (i : ℕ) (js : List ℕ)
    → All (λ y. i ≢ y) js
    → IsNodup js
    → IsNodup (insert_index gt i js)
unfolding insert_index
insert_index-IsNodup gt i [] h n = (tt, tt)
insert_index-IsNodup gt i (j ∷ js) (h, hs) (n, ns) = elim (Bool-cases (gt j i)) [
  | inl e ↦
      rw e (
        insert_index-All (λ y. j ≢ y) gt i js (λ q. h (sym q)) n,
        insert_index-IsNodup gt i js hs ns,
      )
  | inr e ↦ rw e ((h, hs), (n, ns))
]

sort_indices-IsNodup : (gt : ℕ → ℕ → Bool) (is : List ℕ) → IsNodup is → IsNodup (sort_indices gt is)
unfolding sort_indices
sort_indices-IsNodup gt [] n = tt
sort_indices-IsNodup gt (i ∷ is) (n, ns) =
    insert_index-IsNodup gt i _ (sort_indices-All (λ y. i ≢ y) gt is n)
      (sort_indices-IsNodup gt is ns)

length-insert_index :
    (gt : ℕ → ℕ → Bool) (i : ℕ) (js : List ℕ) → length (insert_index gt i js) ≡ suc (length js)
unfolding insert_index
length-insert_index gt i [] = refl
length-insert_index gt i (j ∷ js) = ground (arith, length-insert_index gt i js)

length-sort_indices : (gt : ℕ → ℕ → Bool) (is : List ℕ) → length (sort_indices gt is) ≡ length is
unfolding sort_indices
length-sort_indices gt [] = refl
length-sort_indices gt (i ∷ is) =
    omega (arith, length-insert_index gt i (sort_indices gt is), length-sort_indices gt is)

map-All : (f : ℕ → ℕ) (b : ℕ) (is : List ℕ) → All (λ k. f k ≤ b) is → All (λ y. y ≤ b) (map f is)
map-All f b [] h = tt
map-All f b (i ∷ is) (h, hs) = (h, map-All f b is hs)

All-map : (f : ℕ → ℕ) (b : ℕ) (is : List ℕ) → All (λ y. y ≤ b) (map f is) → All (λ k. f k ≤ b) is
All-map f b [] h = tt
All-map f b (i ∷ is) (h, hs) = (h, All-map f b is hs)

All-le_weaken :
    (f : ℕ → ℕ) (a b : ℕ) (is : List ℕ) → a ≤ b → All (λ k. f k ≤ a) is → All (λ k. f k ≤ b) is
All-le_weaken f a b [] h k = tt
All-le_weaken f a b (i ∷ is) h (k, ks) = (omega arith, All-le_weaken f a b is h ks)

-- A sort key that agrees with the weights puts them in descending order.
module _ (f : ℕ → ℕ) (gt : ℕ → ℕ → Bool) (above : (i j : ℕ) → gt i j ≡ true → f j ≤ f i)
    (below : (i j : ℕ) → gt i j ≡ false → f i ≤ f j) where
  insert_index-IsDescending :
      (i : ℕ) (js : List ℕ) → IsDescending (map f js) → IsDescending (map f (insert_index gt i js))
  unfolding insert_index
  insert_index-IsDescending i [] d = (tt, tt)
  insert_index-IsDescending i (j ∷ js) (d, ds) = elim (Bool-cases (gt j i)) [
    | inl e ↦ rw e (
      map-All f (f j) (insert_index gt i js)
          (insert_index-All (λ k. f k ≤ f j) gt i js (above j i e) (All-map f (f j) js d)),
      insert_index-IsDescending i js ds,
    )
    | inr e ↦ rw e (
      (
        below j i e,
        map-All f (f i) js (All-le_weaken f (f j) (f i) js (below j i e) (All-map f (f j) js d)),
      ),
      (d, ds),
    )
  ]

  sort_indices-IsDescending : (is : List ℕ) → IsDescending (map f (sort_indices gt is))
  unfolding sort_indices
  sort_indices-IsDescending [] = tt
  sort_indices-IsDescending (i ∷ is) =
      insert_index-IsDescending i (sort_indices gt is) (sort_indices-IsDescending is)

range_from-All : (i n a b : ℕ) → a ≤ i → i + n ≤ b → All (λ k. (a ≤ k) × (k < b)) (range_from i n)
range_from-All i zero a b h k = tt
range_from-All i (suc n) a b h k =
    ((h, omega arith), range_from-All (suc i) n a b (omega arith) (omega arith))

module _ {P Q : ℕ → Type 0} (f : (k : ℕ) → P k → Q k) where
  All-imp : (is : List ℕ) → All P is → All Q is
  All-imp [] h = tt
  All-imp (i ∷ is) (h, hs) = (f i h, All-imp is hs)

range_from-IsNodup : (i n : ℕ) → IsNodup (range_from i n)
range_from-IsNodup i zero = tt
range_from-IsNodup i (suc n) = (
  All-imp {Q = λ k. i ≢ k} (λ k (h : (suc i ≤ k) × (k < suc i + n)) e. omega arith)
      (range_from (suc i) n)
      (range_from-All (suc i) n (suc i) (suc i + n) (omega arith) (omega arith)),
  range_from-IsNodup (suc i) n,
)

length-range_from : (i n : ℕ) → length (range_from i n) ≡ n
length-range_from i zero = refl
length-range_from i (suc n) = omega (arith, length-range_from (suc i) n)

sum-insert_index :
    (f : ℕ → ℕ) (gt : ℕ → ℕ → Bool) (i : ℕ) (js : List ℕ)
    → sum (map f (insert_index gt i js)) ≡ f i + sum (map f js)
unfolding insert_index
sum-insert_index f gt i [] = refl
sum-insert_index f gt i (j ∷ js) = ground (arith, sum-insert_index f gt i js)

sum-sort_indices :
    (f : ℕ → ℕ) (gt : ℕ → ℕ → Bool) (is : List ℕ)
    → sum (map f (sort_indices gt is)) ≡ sum (map f is)
unfolding sort_indices
sum-sort_indices f gt [] = refl
sum-sort_indices f gt (i ∷ is) =
    omega (arith, sum-insert_index f gt i (sort_indices gt is), sum-sort_indices f gt is)

sum-range_shift :
    (f : ℕ → ℕ) (i n : ℕ)
    → sum (map f (range_from (suc i) n)) ≡ sum (map (λ k. f (suc k)) (range_from i n))
sum-range_shift f i zero = refl
sum-range_shift f i (suc n) = omega (arith, sum-range_shift f (suc i) n)

sum-range :
    (result : List Entry)
    → sum (map (weight_at result) (range_from 0 (length result))) ≡ total result
sum-range [] = refl
sum-range (e ∷ es) = omega (arith, sum-range_shift (weight_at (e ∷ es)) 0 (length es), sum-range es)

-- What the order of a vector satisfies.
pub record IsOrder (result : List Entry) (order : List ℕ) : Type 0 where
  pub in_range : All (λ i. i < length result) order
  pub nodup : IsNodup order
  pub descending : IsDescending (map (weight_at result) order)
  pub complete : length order ≡ length result
  pub same_total : sum (map (weight_at result) order) ≡ total result

key_above :
    (result : List Entry) (shares : List Decimal) (i j : ℕ)
    → key_gt result shares i j ≡ true
    → weight_at result j ≤ weight_at result i
key_above result shares i j h = ground arith

key_below :
    (result : List Entry) (shares : List Decimal) (i j : ℕ)
    → key_gt result shares i j ≡ false
    → weight_at result i ≤ weight_at result j
key_below result shares i j h = ground arith

pub descending_order-IsOrder :
    (result : List Entry) (shares : List Decimal) → IsOrder result (descending_order result shares)
unfolding descending_order
descending_order-IsOrder result shares =
    let n = length result in
    record {
      in_range =
          sort_indices-All (λ i. i < n) (key_gt result shares) (range_from 0 n)
            (All-imp (λ k (h : (0 ≤ k) × (k < n)). h.1) (range_from 0 n)
              (range_from-All 0 n 0 n (omega arith) (omega arith)));
      nodup = sort_indices-IsNodup (key_gt result shares) (range_from 0 n) (range_from-IsNodup 0 n);
      descending =
          sort_indices-IsDescending (weight_at result) (key_gt result shares)
            (key_above result shares) (key_below result shares) (range_from 0 n);
      complete = omega (
        arith,
        length-sort_indices (key_gt result shares) (range_from 0 n),
        length-range_from 0 n,
      );
      same_total =
          sum-sort_indices (weight_at result) (key_gt result shares) (range_from 0 n)
          ∙ sum-range result;
    }
