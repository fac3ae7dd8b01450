-- ===== src/Base/Rows.antt =====
-- Laws of tables: what selection, update and deletion keep of a predicate and of a key.
use mathlib.Core.Path.{◌≡◌, refl, ap}
use mathlib.Core.Bool.{Bool, true, false, ◌&&◌}
use mathlib.Core.Option.{Option, none, some}
use mathlib.Core.List.{List, [], ◌∷◌, map}
use mathlib.Core.Logic.{◌≢◌, inl, inr}
use Prim.Native.Nat.{ℕ, ◌≤◌, zero, suc}
use native.Mathlib.Omega.{arith}
use taskturbine.Base.Tests.{◌==◌, if◌then◌else◌, ==_iff, Bool-cases}
use taskturbine.Base.Lists.{
  All, any, take, length, rows_where, find_first, update_where, delete_where, insert_by, sort_by,
}

module _ {ℓ κ} {A : Type ℓ} (P : A → Type κ) where
  pub All-update_where :
      (p : A → Bool) (f : A → A) (xs : List A)
      → ((x : A) → p x ≡ true → P x → P (f x))
      → All P xs
      → All P (update_where p f xs)
  All-update_where p f [] k h = tt
  All-update_where p f (x ∷ xs) k h = (ground (arith, k x), All-update_where p f xs k h.1)

  pub All-delete_where : (p : A → Bool) (xs : List A) → All P xs → All P (delete_where p xs)
  All-delete_where p [] h = tt
  All-delete_where p (x ∷ xs) h = let rest = All-delete_where p xs h.1 in ground arith

  pub All-find_first :
      (p : A → Bool) (xs : List A) {x : A} → All P xs → find_first p xs ≡ some x → P x
  All-find_first p [] h e = cc
  All-find_first p (y ∷ xs) {x} h e = ground (arith, All-find_first p xs {x = x} h.1)

module _ {ℓ} {A : Type ℓ} (key : A → ℕ) where
  -- No two rows have the same key.
  abbrev pub Distinct : List A → Type 0
  Distinct [] = Unit
  Distinct (x ∷ xs) = (any (λ y. key y == key x) xs ≡ false) × Distinct xs

  pub any-update_where :
      (p : A → Bool) (f : A → A) (k : ℕ) (xs : List A)
      → ((x : A) → key (f x) ≡ key x)
      → any (λ y. key y == k) (update_where p f xs) ≡ any (λ y. key y == k) xs
  any-update_where p f k [] h = refl
  any-update_where p f k (x ∷ xs) h = ground (arith, h x, any-update_where p f k xs h)

  pub Distinct-update_where :
      (p : A → Bool) (f : A → A) (xs : List A)
      → ((x : A) → key (f x) ≡ key x)
      → Distinct xs
      → Distinct (update_where p f xs)
  Distinct-update_where p f [] h d = tt
  Distinct-update_where p f (x ∷ xs) h d =
      (ground (arith, h x, any-update_where p f (key x) xs h), Distinct-update_where p f xs h d.1)

  any-delete_where :
      (p : A → Bool) (k : ℕ) (xs : List A)
      → any (λ y. key y == k) xs ≡ false
      → any (λ y. key y == k) (delete_where p xs) ≡ false
  any-delete_where p k [] h = refl
  any-delete_where p k (x ∷ xs) h = ground (arith, any-delete_where p k xs)

  pub Distinct-delete_where :
      (p : A → Bool) (xs : List A) → Distinct xs → Distinct (delete_where p xs)
  Distinct-delete_where p [] d = tt
  Distinct-delete_where p (x ∷ xs) d =
      let rest = Distinct-delete_where p xs d.1 in ground (arith, any-delete_where p (key x) xs)

  -- An update by key, read back at that key and at others.
  pub find_first-update_self :
      (f : A → A) (k : ℕ) (xs : List A) {x : A}
      → ((y : A) → key (f y) ≡ key y)
      → find_first (λ y. key y == k) xs ≡ some x
      → find_first (λ y. key y == k) (update_where (λ y. key y == k) f xs) ≡ some (f x)
  find_first-update_self f k [] h e = cc
  find_first-update_self f k (y ∷ xs) {x} h e =
      ground (arith, h y, find_first-update_self f k xs {x = x} h)

  pub find_first-update_ne :
      (f : A → A) (j k : ℕ) (xs : List A)
      → ((y : A) → key (f y) ≡ key y)
      → j ≢ k
      → find_first (λ y. key y == j) (update_where (λ y. key y == k) f xs)
        ≡ find_first (λ y. key y == j) xs
  find_first-update_ne f j k [] h e = refl
  find_first-update_ne f j k (y ∷ xs) h e = ground (arith, h y, find_first-update_ne f j k xs h e)

module _ {ℓ} {A : Type ℓ} where
  pub map-update_where : (f : A → A) (xs : List A) → map f xs ≡ update_where (λ _. true) f xs
  map-update_where f [] = refl
  map-update_where f (x ∷ xs) = ap (◌∷◌ (f x)) (map-update_where f xs)

  pub take_nil : (n : ℕ) → take {A = A} n [] ≡ []
  take_nil zero = refl
  take_nil (suc n) = refl

  pub take_all : (n : ℕ) (xs : List A) → length xs ≤ n → take n xs ≡ xs
  take_all n [] h = take_nil n
  take_all zero (x ∷ xs) h = absurd (omega arith)
  take_all (suc n) (x ∷ xs) h = ap (◌∷◌ x) (take_all n xs (omega arith))

  pub length-take_le : (n : ℕ) (xs : List A) → length (take n xs) ≤ n
  length-take_le zero xs = omega arith
  length-take_le (suc n) [] = omega arith
  length-take_le (suc n) (x ∷ xs) = omega (arith, length-take_le n xs)

module _ {ℓ} {A : Type ℓ} (key : A → ℕ) where
  -- An update by any test, read back by key.
  pub find_first-update_where :
      (p : A → Bool) (f : A → A) (k : ℕ) (xs : List A) {x : A}
      → ((y : A) → key (f y) ≡ key y)
      → find_first (λ y. key y == k) xs ≡ some x
      → find_first (λ y. key y == k) (update_where p f xs) ≡ some (if p x then f x else x)
  find_first-update_where p f k [] h e = cc
  find_first-update_where p f k (y ∷ xs) {x} h e =
      ground (arith, h y, find_first-update_where p f k xs {x = x} h)

  pub find_first-map :
      (f : A → A) (k : ℕ) (xs : List A) {x : A}
      → ((y : A) → key (f y) ≡ key y)
      → find_first (λ y. key y == k) xs ≡ some x
      → find_first (λ y. key y == k) (map f xs) ≡ some (f x)
  find_first-map f k [] h e = cc
  find_first-map f k (y ∷ xs) {x} h e = ground (arith, h y, find_first-map f k xs {x = x} h)

module _ {ℓ κ} {A : Type ℓ} (P : A → Type κ) where
  pub All-take : (n : ℕ) (xs : List A) → All P xs → All P (take n xs)
  All-take zero xs h = tt
  All-take (suc n) [] h = tt
  All-take (suc n) (x ∷ xs) h = (h.0, All-take n xs h.1)

  pub All-rows_where :
      (p : A → Bool) (xs : List A) → ((x : A) → p x ≡ true → P x) → All P (rows_where p xs)
  All-rows_where p [] k = tt
  All-rows_where p (x ∷ xs) k = let rest = All-rows_where p xs k in ground (arith, k x)

module _ {ℓ} {A : Type ℓ} (le : A → A → Bool) where
  any-insert_by : (p : A → Bool) (x : A) (xs : List A) → any p (insert_by le x xs) ≡ any p (x ∷ xs)
  any-insert_by p x [] = refl
  any-insert_by p x (y ∷ ys) = ground (arith, any-insert_by p x ys)

  pub any-sort_by : (p : A → Bool) (xs : List A) → any p (sort_by le xs) ≡ any p xs
  any-sort_by p [] = refl
  any-sort_by p (x ∷ xs) = ground (arith, any-insert_by p x (sort_by le xs), any-sort_by p xs)

  module _ {κ} (P : A → Type κ) where
    All-insert_by : (x : A) (xs : List A) → P x → All P xs → All P (insert_by le x xs)
    All-insert_by x [] k h = (k, h)
    All-insert_by x (y ∷ ys) k h = let rest = All-insert_by x ys k h.1 in ground arith

    pub All-sort_by : (xs : List A) → All P xs → All P (sort_by le xs)
    All-sort_by [] h = tt
    All-sort_by (x ∷ xs) h = All-insert_by x (sort_by le xs) h.0 (All-sort_by xs h.1)

module _ {ℓ} {A : Type ℓ} (key : A → ℕ) where
  any-rows_where :
      (p : A → Bool) (k : ℕ) (xs : List A)
      → any (λ y. key y == k) xs ≡ false
      → any (λ y. key y == k) (rows_where p xs) ≡ false
  any-rows_where p k [] h = refl
  any-rows_where p k (x ∷ xs) h = ground (arith, any-rows_where p k xs)

  pub any-take :
      (n k : ℕ) (xs : List A)
      → any (λ y. key y == k) xs ≡ false
      → any (λ y. key y == k) (take n xs) ≡ false
  any-take zero k xs h = refl
  any-take (suc n) k [] h = refl
  any-take (suc n) k (x ∷ xs) h = ground (arith, any-take n k xs)

  -- The row of a key that is not selected: no row of the key is.
  pub any-unselected :
      (p : A → Bool) (k : ℕ) (xs : List A) {x : A}
      → Distinct key xs
      → find_first (λ y. key y == k) xs ≡ some x
      → p x ≡ false
      → any (λ y. key y == k) (rows_where p xs) ≡ false
  any-unselected p k [] d f h = cc
  any-unselected p k (y ∷ ys) {x} d f h = elim (Bool-cases (key y == k)) [
    | inl here ↦ ground (arith, any-rows_where p k ys, (==_iff (key y) k).0 here)
    | inr other ↦ ground (arith, any-unselected p k ys {x = x} d.1)
  ]

  pub Distinct-rows_where :
      (p : A → Bool) (xs : List A) → Distinct key xs → Distinct key (rows_where p xs)
  Distinct-rows_where p [] d = tt
  Distinct-rows_where p (x ∷ xs) d =
      let rest = Distinct-rows_where p xs d.1 in ground (arith, any-rows_where p (key x) xs)

  pub Distinct-take : (n : ℕ) (xs : List A) → Distinct key xs → Distinct key (take n xs)
  Distinct-take zero xs d = tt
  Distinct-take (suc n) [] d = tt
  Distinct-take (suc n) (x ∷ xs) d = (any-take n (key x) xs d.0, Distinct-take n xs d.1)

  pub find_first-none :
      (p : A → Bool) (k : ℕ) (xs : List A)
      → any (λ y. key y == k) xs ≡ false
      → find_first (λ y. key y == k) (delete_where p xs) ≡ none
  find_first-none p k [] h = refl
  find_first-none p k (x ∷ xs) h = ground (arith, find_first-none p k xs)

  -- A deletion, read back by key.
  pub find_first-delete_where :
      (p : A → Bool) (k : ℕ) (xs : List A) {x : A}
      → Distinct key xs
      → find_first (λ y. key y == k) xs ≡ some x
      → find_first (λ y. key y == k) (delete_where p xs) ≡ (if p x then none else some x)
  find_first-delete_where p k [] d f = cc
  find_first-delete_where p k (y ∷ ys) {x} d f = elim (Bool-cases (key y == k)) [
    | inl here ↦ ground (arith, find_first-none p k ys, (==_iff (key y) k).0 here)
    | inr other ↦ ground (arith, find_first-delete_where p k ys {x = x} d.1)
  ]

  pub find_first-key :
      (k : ℕ) (xs : List A) {x : A} → find_first (λ y. key y == k) xs ≡ some x → key x ≡ k
  find_first-key k [] f = cc
  find_first-key k (y ∷ ys) {x} f = elim (Bool-cases (key y == k)) [
    | inl here ↦ ground (arith, (==_iff (key y) k).0 here)
    | inr other ↦ ground (arith, find_first-key k ys {x = x})
  ]

-- What an UPDATE makes of a row that was looked up before it.
abbrev pub changed {ℓ} : {A : Type ℓ} → (A → Bool) → (A → A) → Option A → Option A
changed p f none = none
changed p f (some x) = some (if p x then f x else x)

module _ {ℓ} {A : Type ℓ} (key : A → ℕ) where
  -- The row of a key after an UPDATE is the changed row of before.
  pub find_first-changed :
      (p : A → Bool) (f : A → A) (k : ℕ) (xs : List A)
      → ((y : A) → key (f y) ≡ key y)
      → find_first (λ y. key y == k) (update_where p f xs)
        ≡ changed p f (find_first (λ y. key y == k) xs)
  find_first-changed p f k [] h = refl
  find_first-changed p f k (y ∷ ys) h = ground (arith, h y, find_first-changed p f k ys h)

  -- Where keys are unique, a row found by its key and a test is the row of the key.
  pub find_first-and :
      (q : A → Bool) (k : ℕ) (xs : List A) {x : A}
      → Distinct key xs
      → find_first (λ y. key y == k && q y) xs ≡ some x
      → find_first (λ y. key y == k) xs ≡ some x
  find_first-and q k [] d f = cc
  find_first-and q k (y ∷ ys) {x} d f = elim (Bool-cases (key y == k)) [
    | inl here ↦ ground (arith, missing q k ys, (==_iff (key y) k).0 here)
    | inr other ↦ ground (arith, find_first-and q k ys {x = x} d.1)
  ]
    where
      missing :
          (q : A → Bool) (k : ℕ) (zs : List A)
          → any (λ z. key z == k) zs ≡ false
          → find_first (λ z. key z == k && q z) zs ≡ none
      missing q k [] h = refl
      missing q k (z ∷ zs) h = ground (arith, missing q k zs)

module _ {ℓ} {A : Type ℓ} where
  pub any-rows_where_and :
      (p q : A → Bool) (xs : List A) → any p (rows_where q xs) ≡ any (λ x. q x && p x) xs
  any-rows_where_and p q [] = refl
  any-rows_where_and p q (x ∷ xs) = ground (arith, any-rows_where_and p q xs)

module _ {ℓ} {A : Type ℓ} (key : A → ℕ) where
  -- A row that is found is one of the rows.
  pub any_of_found :
      (p : A → Bool) (k : ℕ) (xs : List A) {x : A}
      → find_first (λ y. key y == k) xs ≡ some x
      → p x ≡ true
      → any p xs ≡ true
  any_of_found p k [] f h = cc
  any_of_found p k (y ∷ ys) {x} f h = ground (arith, any_of_found p k ys {x = x})
