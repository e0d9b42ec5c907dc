-- ===== src/Series/Sorted.antt =====
-- The map of candles is in the strict order of its instants, and an insertion keeps what is there.
use borsa.Prelude.{
  ℕ, suc, ◌≤◌, ◌<◌, ◌≡◌, refl, Option, none, some, List, [], ◌∷◌, ◌++◌, arith, ◌==◌, if◌then◌else◌,
}
use borsa.Series.{Candle, or_insert}

module _ {Price : Type 0} where
  -- The candles are in strict order, and none is earlier than the bound.
  abbrev pub Above : ℕ → List (Candle Price) → Type 0
  Above b [] = Unit
  Above b (c ∷ m) = (b ≤ c.ts) × Above (suc c.ts) m

  -- The first candle of an instant.
  abbrev pub find_at : ℕ → List (Candle Price) → Option (Candle Price)
  find_at t [] = none
  find_at t (c ∷ m) = if c.ts == t then some c else find_at t m

  abbrev pub or_else : Option (Candle Price) → Option (Candle Price) → Option (Candle Price)
  or_else none b = b
  or_else (some a) b = some a

  pub or_insert-Above :
      (b : ℕ) (c : Candle Price) (m : List (Candle Price))
      → b ≤ c.ts
      → Above b m
      → Above b (or_insert c m)
  unfolding or_insert
  or_insert-Above b c [] h a = (h, tt)
  or_insert-Above b c (d ∷ m) h (k, a) =
      ground (arith, λ (l : d.ts < c.ts). or_insert-Above (suc d.ts) c m l a)

  find_below : (b t : ℕ) (m : List (Candle Price)) → Above b m → t < b → find_at t m ≡ none
  find_below b t [] a h = refl
  find_below b t (d ∷ m) (k, a) h = ground (arith, find_below (suc d.ts) t m a)

  pub find_at-or_insert :
      (b t : ℕ) (c : Candle Price) (m : List (Candle Price))
      → Above b m
      → find_at t (or_insert c m) ≡ or_else (find_at t m) (if c.ts == t then some c else none)
  unfolding or_insert
  find_at-or_insert b t c [] a = ground arith
  find_at-or_insert b t c (d ∷ m) (k, a) =
      ground (arith, find_at-or_insert (suc d.ts) t c m a, find_below (suc d.ts) t m a)

  pub or_else_assoc :
      (a b c : Option (Candle Price)) → or_else (or_else a b) c ≡ or_else a (or_else b c)
  or_else_assoc none b c = refl
  or_else_assoc (some a) b c = refl

  pub find_at-append :
      (t : ℕ) (xs ys : List (Candle Price))
      → find_at t (xs ++ ys) ≡ or_else (find_at t xs) (find_at t ys)
  find_at-append t [] ys = refl
  find_at-append t (x ∷ xs) ys = ground (arith, find_at-append t xs ys)
