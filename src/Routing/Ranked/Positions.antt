-- ===== src/Routing/Ranked/Positions.antt =====
-- The rank of a value is its position, and the values are those of the list, each once.
use borsa.Prelude.{
  ℕ, suc, ◌≡◌, refl, inl, inr, true, false, Option, none, some, List, [], ◌∷◌, arith, if◌then◌else◌,
  Bool-cases, Eq, eq,
}
use borsa.Prelude.Maps.{get, insert, get-insert}
use borsa.Routing.Ranked.{contains, first_occurrences, insert_ranks, new}

abbrev or_else : Option ℕ → Option ℕ → Option ℕ
or_else none b = b
or_else (some a) b = some a

module _ {ℓ} {A : Type ℓ} ⦃e : Eq A⦄ where
  -- The position of the first occurrence of a value, counted from `i`.
  abbrev pub position : ℕ → List A → A → Option ℕ
  position i [] a = none
  position i (x ∷ xs) a = if eq x a then some i else position (suc i) xs a

  -- No value of the list equals another one or one of `seen`.
  abbrev pub Distinct : List A → List A → Type 0
  Distinct seen [] = Unit
  Distinct seen (x ∷ xs) = (contains seen x ≡ false) × Distinct (x ∷ seen) xs

  first_occurrences-Distinct : (seen list : List A) → Distinct seen (first_occurrences seen list)
  unfolding first_occurrences
  first_occurrences-Distinct seen [] = tt
  first_occurrences-Distinct seen (v ∷ rest) = elim (Bool-cases (contains seen v)) [
    | inl old ↦ rw old (first_occurrences-Distinct seen rest)
    | inr fresh ↦ rw fresh (fresh, first_occurrences-Distinct (v ∷ seen) rest)
  ]

  -- A value that has been seen has no position among distinct later ones.
  seen_position :
      (i : ℕ) (seen xs : List A) (a : A)
      → Distinct seen xs
      → contains seen a ≡ true
      → position i xs a ≡ none
  seen_position i seen [] a d h = refl
  seen_position i seen (x ∷ xs) a d h =
      ground (arith, e.beq_iff x a, seen_position (suc i) (x ∷ seen) xs a d.1)

  insert_ranks-get :
      (i : ℕ) (seen xs : List A) (m : List (A × ℕ)) (a : A)
      → Distinct seen xs
      → get (insert_ranks i xs m) a ≡ or_else (position i xs a) (get m a)
  unfolding insert_ranks
  insert_ranks-get i seen [] m a d = refl
  insert_ranks-get i seen (x ∷ xs) m a d = ground (
    arith,
    insert_ranks-get (suc i) (x ∷ seen) xs (insert x i m) a d.1,
    get-insert x i m a,
    e.beq_iff x a,
    seen_position (suc i) (x ∷ seen) xs a d.1,
  )

  -- The cached rank of a value is its position in the ranked values, and a value that is not there
  -- has no rank.
  pub get-ranks : (list : List A) (a : A) → get (new list).ranks a ≡ position 0 (new list).values a
  unfolding new get
  get-ranks list a =
      let d = first_occurrences-Distinct [] list in
      ground (arith, insert_ranks-get 0 [] (first_occurrences [] list) [] a d)
