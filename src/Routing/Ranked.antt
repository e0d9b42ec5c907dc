-- ===== src/Routing/Ranked.antt =====
-- Ranked lists: values without repetition, and the rank of each. The set of values seen by the
-- constructor's loop is a list.
pub mod Positions
use borsa.Prelude.{ℕ, suc, Bool, List, [], ◌∷◌, if◌then◌else◌, Eq, eq, any}
use borsa.Prelude.Maps.{get, insert}

pub record RankedList {ℓ} (A : Type ℓ) : Type ℓ where
  pub values : List A
  pub ranks : List (A × ℕ)

module _ {ℓ} {A : Type ℓ} ⦃e : Eq A⦄ where
  abbrev pub contains : List A → A → Bool
  contains xs a = any (λ x. eq x a) xs

  unfoldable pub first_occurrences : List A → List A → List A
  first_occurrences seen [] = []
  first_occurrences seen (v ∷ rest) =
      let skip = first_occurrences seen rest in
      let keep = v ∷ first_occurrences (v ∷ seen) rest in if contains seen v then skip else keep

  -- The loop over the enumerated values.
  unfoldable pub insert_ranks : ℕ → List A → List (A × ℕ) → List (A × ℕ)
  insert_ranks idx [] m = m
  insert_ranks idx (v ∷ rest) m = insert_ranks (suc idx) rest (insert v idx m)

  unfoldable pub new : List A → RankedList A
  unfolding first_occurrences insert_ranks
  new list = record {
    values = first_occurrences [] list;
    ranks = insert_ranks 0 (first_occurrences [] list) [];
  }
