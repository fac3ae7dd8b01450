-- ===== src/Base/Sorting.antt =====
-- Lists in order, and that an insertion sort puts them so.
use mathlib.Core.Path.{◌≡◌}
use mathlib.Core.Bool.{Bool, true, false}
use mathlib.Core.List.{List, [], ◌∷◌}
use mathlib.Core.Logic.{inl, inr}
use Prim.Native.Nat.{ℕ, zero, suc}
use taskturbine.Base.Tests.{Bool-cases}
use taskturbine.Base.Lists.{All, take, insert_by, sort_by}
use taskturbine.Base.Rows.{All-take}

-- Each element is before all that follow it.
abbrev pub IsOrdered {ℓ} : {A : Type ℓ} → (A → A → Bool) → List A → Type 0
IsOrdered le [] = Unit
IsOrdered le (v ∷ vs) = All (λ w. le v w ≡ true) vs × IsOrdered le vs

pub take-IsOrdered {ℓ} :
    {A : Type ℓ} (le : A → A → Bool) (n : ℕ) (vs : List A)
    → IsOrdered le vs
    → IsOrdered le (take n vs)
take-IsOrdered le zero vs o = tt
take-IsOrdered le (suc n) [] o = tt
take-IsOrdered le (suc n) (v ∷ vs) o = (All-take _ n vs o.0, take-IsOrdered le n vs o.1)

-- An order that is total and transitive.
pub record IsOrder {ℓ} {A : Type ℓ} (le : A → A → Bool) : Type ℓ where
  pub total : (a b : A) → le a b ≡ false → le b a ≡ true
  pub trans : (a b c : A) → le a b ≡ true → le b c ≡ true → le a c ≡ true

module _ {ℓ} {A : Type ℓ} (le : A → A → Bool) (laws : IsOrder le) where
  All-le :
      (a b : A) (vs : List A)
      → le a b ≡ true
      → All (λ w. le b w ≡ true) vs
      → All (λ w. le a w ≡ true) vs
  All-le a b [] h k = tt
  All-le a b (v ∷ vs) h k = (laws.trans a b v h k.0, All-le a b vs h k.1)

  All-insert :
      (a v : A) (vs : List A)
      → le a v ≡ true
      → All (λ w. le a w ≡ true) vs
      → All (λ w. le a w ≡ true) (insert_by le v vs)
  All-insert a v [] h k = (h, tt)
  All-insert a v (w ∷ ws) h k = elim (Bool-cases (le v w)) [
    | inl before ↦ rw before (h, k)
    | inr after ↦ rw after (k.0, All-insert a v ws h k.1)
  ]

  insert-IsOrdered : (v : A) (vs : List A) → IsOrdered le vs → IsOrdered le (insert_by le v vs)
  insert-IsOrdered v [] o = (tt, tt)
  insert-IsOrdered v (w ∷ ws) o = elim (Bool-cases (le v w)) [
    | inl before ↦ rw before ((before, All-le v w ws before o.0), o)
    | inr after ↦ rw after (All-insert w v ws (laws.total v w after) o.0, insert-IsOrdered v ws o.1)
  ]

  pub sort-IsOrdered : (vs : List A) → IsOrdered le (sort_by le vs)
  sort-IsOrdered [] = tt
  sort-IsOrdered (v ∷ vs) = insert-IsOrdered v (sort_by le vs) (sort-IsOrdered vs)
