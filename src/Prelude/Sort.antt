-- ===== src/Prelude/Sort.antt =====
-- `sort_by_key`: a stable sort, by a test that says that a key is not greater than another.
use mathlib.Core.Path.{◌≡◌, refl}
use mathlib.Core.Bool.{Bool, true, false}
use mathlib.Core.List.{List, [], ◌∷◌}
use native.Mathlib.Omega.{arith}
use mathlib.Core.Logic.{inl, inr}
use borsa.Prelude.Tests.{if◌then◌else◌, Bool-cases}
use borsa.Prelude.Lists.{All, keep_if, length}

module _ {ℓ} {A : Type ℓ} (le : A → A → Bool) where
  unfoldable pub sorted_insert : A → List A → List A
  sorted_insert x [] = x ∷ []
  sorted_insert x (y ∷ ys) = if le x y then x ∷ y ∷ ys else y ∷ sorted_insert x ys

  unfoldable pub sort_by : List A → List A
  unfolding sorted_insert
  sort_by [] = []
  sort_by (x ∷ xs) = sorted_insert x (sort_by xs)

  -- Each element is not greater than any that follows it.
  abbrev pub IsSortedBy : List A → Type ℓ
  IsSortedBy [] = Unit
  IsSortedBy (x ∷ xs) = All (λ y. le x y ≡ true) xs × IsSortedBy xs

module _ {ℓ} {A : Type ℓ} (le : A → A → Bool) where
  All-sorted_insert {κ} :
      (P : A → Type κ) (x : A) (ys : List A) → P x → All P ys → All P (sorted_insert le x ys)
  unfolding sorted_insert
  All-sorted_insert P x [] p a = (p, tt)
  All-sorted_insert P x (y ∷ ys) p (q, a) = elim (Bool-cases (le x y)) [
    | inl before ↦ rw before (p, (q, a))
    | inr after ↦ rw after (q, All-sorted_insert P x ys p a)
  ]

  pub All-sort_by {κ} : (P : A → Type κ) (xs : List A) → All P xs → All P (sort_by le xs)
  unfolding sort_by
  All-sort_by P [] a = tt
  All-sort_by P (x ∷ xs) (p, a) = All-sorted_insert P x (sort_by le xs) p (All-sort_by P xs a)

  length-keep_if-sorted_insert :
      (p : A → Bool) (x : A) (ys : List A)
      → length (keep_if p (sorted_insert le x ys)) ≡ length (keep_if p (x ∷ ys))
  unfolding sorted_insert
  length-keep_if-sorted_insert p x [] = refl
  length-keep_if-sorted_insert p x (y ∷ ys) = ground (arith, length-keep_if-sorted_insert p x ys)

  -- Sorting keeps every element as often as it was there.
  pub length-keep_if-sort_by :
      (p : A → Bool) (xs : List A) → length (keep_if p (sort_by le xs)) ≡ length (keep_if p xs)
  unfolding sort_by
  length-keep_if-sort_by p [] = refl
  length-keep_if-sort_by p (x ∷ xs) =
      ground (arith, length-keep_if-sorted_insert p x (sort_by le xs), length-keep_if-sort_by p xs)

  -- An element stays before those of the list that it is not greater than.
  keep_if-sorted_insert :
      (p : A → Bool) (x : A) (ys : List A)
      → ((y : A) → p x ≡ true → p y ≡ true → le x y ≡ true)
      → keep_if p (sorted_insert le x ys) ≡ keep_if p (x ∷ ys)
  unfolding sorted_insert
  keep_if-sorted_insert p x [] h = refl
  keep_if-sorted_insert p x (y ∷ ys) h = ground (arith, h y, keep_if-sorted_insert p x ys h)

  -- The sort is stable: elements none of which is greater than another keep their order, and none
  -- is lost or added.
  pub keep_if-sort_by :
      (p : A → Bool) (xs : List A)
      → ((x y : A) → p x ≡ true → p y ≡ true → le x y ≡ true)
      → keep_if p (sort_by le xs) ≡ keep_if p xs
  unfolding sort_by
  keep_if-sort_by p [] h = refl
  keep_if-sort_by p (x ∷ xs) h =
      ground (arith, keep_if-sorted_insert p x (sort_by le xs) (h x), keep_if-sort_by p xs h)

  module _ (total : (x y : A) → le x y ≡ false → le y x ≡ true)
      (trans : (x y z : A) → le x y ≡ true → le y z ≡ true → le x z ≡ true) where
    All-trans :
        (x y : A) (ys : List A)
        → le x y ≡ true
        → All (λ z. le y z ≡ true) ys
        → All (λ z. le x z ≡ true) ys
    All-trans x y [] h a = tt
    All-trans x y (z ∷ ys) h (k, a) = (trans x y z h k, All-trans x y ys h a)

    sorted_insert-IsSortedBy :
        (x : A) (ys : List A) → IsSortedBy le ys → IsSortedBy le (sorted_insert le x ys)
    unfolding sorted_insert
    sorted_insert-IsSortedBy x [] s = (tt, tt)
    sorted_insert-IsSortedBy x (y ∷ ys) (a, s) = elim (Bool-cases (le x y)) [
      | inl before ↦ rw before ((before, All-trans x y ys before a), (a, s))
      | inr after ↦ rw after (
        All-sorted_insert (λ z. le y z ≡ true) x ys (total x y after) a,
        sorted_insert-IsSortedBy x ys s,
      )
    ]

    pub sort_by-IsSortedBy : (xs : List A) → IsSortedBy le (sort_by le xs)
    unfolding sort_by
    sort_by-IsSortedBy [] = tt
    sort_by-IsSortedBy (x ∷ xs) = sorted_insert-IsSortedBy x (sort_by le xs) (sort_by-IsSortedBy xs)
