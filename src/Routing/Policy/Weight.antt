-- ===== src/Routing/Policy/Weight.antt =====
-- The order of selectors as an order of numbers.
use borsa.Prelude.{
  ℕ, ◌+◌, ◌*◌, ◌≤◌, ◌<◌, ◌≡◌, ◌≢◌, ◌⊎◌, inl, inr, Bool, true, false, some, arith, ltb, leb, ◌==◌,
  is_some,
}
use borsa.Routing.Policy.{
  Selector, ProviderRule, SpecBits, BestState, spec_gt, spec_eq, spec_of, better, bit,
}

-- The tuple of a selector as one number: more constraints first; of as many, one on the symbol
-- before one on the kind before one on the exchange.
abbrev pub weight : SpecBits → ℕ
weight a = 8 * a.count + 4 * a.sb + 2 * a.kb + a.eb

abbrev pub precedence :
    {Symbol AssetKind Exchange : Type 0} → Selector Symbol AssetKind Exchange → ℕ
precedence s = weight (spec_of s)

abbrev pub Bits : SpecBits → Type 0
Bits a = (a.sb ≤ 1) × (a.kb ≤ 1) × (a.eb ≤ 1)

bit_bound : (b : Bool) → bit b ≤ 1
bit_bound true = omega arith
bit_bound false = omega arith

pub spec_gt-weight : (a b : SpecBits) → Bits a → Bits b → spec_gt a b ≡ ltb (weight b) (weight a)
unfolding spec_gt
spec_gt-weight a b (h1, h2, h3) (k1, k2, k3) = ground arith

spec_eq-weight : (a b : SpecBits) → Bits a → Bits b → spec_eq a b ≡ (weight b == weight a)
unfolding spec_eq
spec_eq-weight a b (h1, h2, h3) (k1, k2, k3) = ground arith

pub better-weight :
    (c b : BestState)
    → Bits c.spec
    → Bits b.spec
    → b.idx < c.idx
    → better c (some b) ≡ leb (weight b.spec) (weight c.spec)
unfolding better
better-weight c b h k l =
    ground (arith, spec_gt-weight c.spec b.spec h k, spec_eq-weight c.spec b.spec h k)

pub true_not_false : true ≢ false
true_not_false e = cc e

pub leb_le : (a b : ℕ) → leb a b ≡ true → a ≤ b
leb_le a b h = ground arith

pub not_leb_lt : (a b : ℕ) → leb a b ≡ false → b < a
not_leb_lt a b h = ground arith

pub later_or_lighter : (a b j i : ℕ) → a ≤ b → j < i → (a < b) ⊎ ((a ≡ b) × (j ≤ i))
later_or_lighter a b j i h k = ground arith

pub le_of_Yields : (a b j i w : ℕ) → (a < b) ⊎ ((a ≡ b) × (j ≤ i)) → b ≤ w → a ≤ w
le_of_Yields a b j i w (inl h) k = omega arith
le_of_Yields a b j i w (inr (h, _)) k = omega arith

module _ {Symbol AssetKind Exchange : Type 0} where
  pub spec_of-Bits : (s : Selector Symbol AssetKind Exchange) → Bits (spec_of s)
  spec_of-Bits s =
      (bit_bound (is_some s.symbol), bit_bound (is_some s.kind), bit_bound (is_some s.exchange))

  -- The rule `s` at `j` gives way to the rule `r` at `i`.
  abbrev pub Yields :
      ℕ
      → ProviderRule Symbol AssetKind Exchange
      → ℕ
      → ProviderRule Symbol AssetKind Exchange
      → Type 0
  Yields j s i r =
      (precedence s.selector < precedence r.selector)
      ⊎ ((precedence s.selector ≡ precedence r.selector) × (j ≤ i))
