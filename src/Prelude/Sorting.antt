-- ===== src/Prelude/Sorting.antt =====
-- `Array.prototype.sort`: a stable sort by a comparator. `le a b` says that the comparator does not
-- put `a` behind `b`; every stable sort returns the list that this insertion sort returns.
use Prim.Native.Nat.{ℕ, suc, ◌+◌}
use mathlib.Core.Path.{◌≡◌, refl}
use mathlib.Core.Bool.{Bool, true, false}
use mathlib.Core.List.{List, [], ◌∷◌, map}
use native.Mathlib.Omega.{arith}
use rayi.Prelude.Tests.{if◌then◌else◌, Bool-cases}
use rayi.Prelude.Lists.{length, All, sum}
use rayi.Prelude.Int.{ℤ, ◌+ℤ◌, sum_ℤ, int_laws}
use mathlib.Core.Logic.{inl, inr}

module _ {ℓ} {A : Type ℓ} (le : A → A → Bool) where
  unfoldable pub insert : A → List A → List A
  insert x [] = x ∷ []
  insert x (y ∷ ys) = if le x y then x ∷ y ∷ ys else y ∷ insert x ys

  unfoldable pub sort : List A → List A
  unfolding insert
  sort [] = []
  sort (x ∷ xs) = insert x (sort xs)

  pub length-insert : (x : A) (xs : List A) → length (insert x xs) ≡ suc (length xs)
  unfolding insert
  length-insert x [] = refl
  length-insert x (y ∷ ys) = ground (arith, length-insert x ys)

  pub length-sort : (xs : List A) → length (sort xs) ≡ length xs
  unfolding sort
  length-sort [] = refl
  length-sort (x ∷ xs) = omega (arith, length-insert x (sort xs), length-sort xs)

  All-insert {κ} : (P : A → Type κ) (x : A) (xs : List A) → P x → All P xs → All P (insert x xs)
  unfolding insert
  All-insert P x [] p h = (p, tt)
  All-insert P x (y ∷ ys) p h = ground (arith, All-insert P x ys p h.1)

  pub All-sort {κ} : (P : A → Type κ) (xs : List A) → All P xs → All P (sort xs)
  unfolding sort
  All-sort P [] h = tt
  All-sort P (x ∷ xs) h = All-insert P x (sort xs) h.0 (All-sort P xs h.1)

  insert-All {κ} : (P : A → Type κ) (x : A) (xs : List A) → All P (insert x xs) → P x × All P xs
  unfolding insert
  insert-All P x [] h = h
  insert-All P x (y ∷ ys) h = elim (Bool-cases (le x y)) [
    | inl first ↦ rw first at h
    | inr later ↦
        let t : P y × All P (insert x ys) = rw later at h in
        let (px, pys) = insert-All P x ys t.1 in (px, (t.0, pys))
  ]

  pub sort-All {κ} : (P : A → Type κ) (xs : List A) → All P (sort xs) → All P xs
  unfolding sort
  sort-All P [] h = tt
  sort-All P (x ∷ xs) h = let (px, rest) = insert-All P x (sort xs) h in (px, sort-All P xs rest)

  sum-insert : (f : A → ℕ) (x : A) (xs : List A) → sum (map f (insert x xs)) ≡ f x + sum (map f xs)
  unfolding insert
  sum-insert f x [] = refl
  sum-insert f x (y ∷ ys) = ground (arith, sum-insert f x ys)

  -- A sum over the members does not depend on their order.
  pub sum-sort : (f : A → ℕ) (xs : List A) → sum (map f (sort xs)) ≡ sum (map f xs)
  unfolding sort
  sum-sort f [] = refl
  sum-sort f (x ∷ xs) = omega (arith, sum-insert f x (sort xs), sum-sort f xs)

  sum_ℤ-insert :
      (f : A → ℤ) (x : A) (xs : List A) → sum_ℤ (map f (insert x xs)) ≡ f x +ℤ sum_ℤ (map f xs)
  unfolding insert
  sum_ℤ-insert f x [] = refl
  sum_ℤ-insert f x (y ∷ ys) = elim (Bool-cases (le x y)) [
    | inl first ↦ rw first
    | inr later ↦ rw (later, sum_ℤ-insert f x ys) (omega int_laws)
  ]

  -- So too for a sum of integers.
  pub sum_ℤ-sort : (f : A → ℤ) (xs : List A) → sum_ℤ (map f (sort xs)) ≡ sum_ℤ (map f xs)
  unfolding sort
  sum_ℤ-sort f [] = refl
  sum_ℤ-sort f (x ∷ xs) = rw (sum_ℤ-insert f x (sort xs), sum_ℤ-sort f xs)

  -- In a sorted list the comparator puts no member behind a later one.
  abbrev pub IsSorted : List A → Type 0
  IsSorted [] = Unit
  IsSorted (x ∷ xs) = All (λ y. le x y ≡ true) xs × IsSorted xs

  module _ (total : (x y : A) → le x y ≡ false → le y x ≡ true)
      (le_trans : (x y z : A) → le x y ≡ true → le y z ≡ true → le x z ≡ true) where
    below-All :
        (x y : A) (ys : List A)
        → le x y ≡ true
        → All (λ z. le y z ≡ true) ys
        → All (λ z. le x z ≡ true) ys
    below-All x y [] p h = tt
    below-All x y (z ∷ zs) p h = (le_trans x y z p h.0, below-All x y zs p h.1)

    insert-IsSorted : (x : A) (xs : List A) → IsSorted xs → IsSorted (insert x xs)
    unfolding insert
    insert-IsSorted x [] h = (tt, tt)
    insert-IsSorted x (y ∷ ys) h = ground (
      arith,
      below-All x y ys,
      total x y,
      All-insert (λ z. le y z ≡ true) x ys,
      insert-IsSorted x ys h.1,
    )

    pub sort-IsSorted : (xs : List A) → IsSorted (sort xs)
    unfolding sort
    sort-IsSorted [] = tt
    sort-IsSorted (x ∷ xs) = insert-IsSorted x (sort xs) (sort-IsSorted xs)
