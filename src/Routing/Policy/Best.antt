-- ===== src/Routing/Policy/Best.antt =====
-- The rule that wins for a context: the most specific one that matches, and of those the last.
use borsa.Routing.Policy.Weight.{
  Yields, true_not_false, precedence, later_or_lighter, better-weight, le_of_Yields, spec_of-Bits,
  leb_le, Bits, not_leb_lt, weight,
}
use borsa.Prelude.{
  ℕ, suc, ◌≤◌, ◌<◌, ◌≡◌, refl, sym, ap, ap₂, ◌∙◌, subst, inl, inr, true, false, ◌||◌, Option, none,
  some, List, [], ◌∷◌, ◌++◌, arith, leb, if◌then◌else◌, Bool-cases, is_some, Eq, length, get_elem?,
  length-append, any, in_range, get_elem?_snoc, get_elem?_snoc_old, get_elem?_snoc_last,
}
use mathlib.Core.List.{append_assoc, append-nil}
use borsa.Routing.Policy.{
  ProviderRule, ProviderPolicy, RoutingContext, BestState, better, candidate, consider, best_from,
  best_rule, chosen, matches,
}

module _ {Symbol AssetKind Exchange : Type 0} ⦃es : Eq Symbol⦄ ⦃ek : Eq AssetKind⦄
    ⦃ex : Eq Exchange⦄ where
  -- The state of the loop after the rules `pre`.
  abbrev Found :
      RoutingContext Symbol AssetKind Exchange
      → List (ProviderRule Symbol AssetKind Exchange)
      → Option BestState
      → Type 0
  Found ctx pre none =
      (j : ℕ) (s : ProviderRule Symbol AssetKind Exchange)
      → get_elem? pre j ≡ some s
      → matches s.selector ctx ≡ false
  Found ctx pre (some b) =
      (r : ProviderRule Symbol AssetKind Exchange) × (get_elem? pre b.idx ≡ some r)
      × (b ≡ candidate b.idx r)
      × (matches r.selector ctx ≡ true)
      × ((j : ℕ) (s : ProviderRule Symbol AssetKind Exchange)
          → get_elem? pre j ≡ some s
          → matches s.selector ctx ≡ true
          → Yields j s b.idx r)

  skip-Found :
      (ctx : RoutingContext Symbol AssetKind Exchange)
      (pre : List (ProviderRule Symbol AssetKind Exchange))
      (r : ProviderRule Symbol AssetKind Exchange) (best : Option BestState)
      → Found ctx pre best
      → matches r.selector ctx ≡ false
      → Found ctx (pre ++ r ∷ []) best
  skip-Found ctx pre r none f h = λ j s e. elim (get_elem?_snoc pre r j s e) [
    | inl old ↦ f j s old
    | inr (_, same) ↦ ap (λ q. matches q.selector ctx) same ∙ h
  ]
  skip-Found ctx pre r (some b) (w, e, c, m, f) h = (
    w,
    get_elem?_snoc_old pre r b.idx w e,
    c,
    m,
    λ j s e m2. elim (get_elem?_snoc pre r j s e) [
      | inl old ↦ f j s old m2
      | inr (_, same) ↦ absurd (true_not_false (sym m2 ∙ ap (λ q. matches q.selector ctx) same ∙ h))
    ],
  )

  take-Found :
      (ctx : RoutingContext Symbol AssetKind Exchange)
      (pre : List (ProviderRule Symbol AssetKind Exchange))
      (r : ProviderRule Symbol AssetKind Exchange)
      → matches r.selector ctx ≡ true
      → ((j : ℕ) (s : ProviderRule Symbol AssetKind Exchange)
          → get_elem? pre j ≡ some s
          → matches s.selector ctx ≡ true
          → precedence s.selector ≤ precedence r.selector)
      → Found ctx (pre ++ r ∷ []) (some (candidate (length pre) r))
  take-Found ctx pre r m f = (
    r,
    get_elem?_snoc_last pre r,
    refl,
    m,
    λ j s e m2. elim (get_elem?_snoc pre r j s e) [
      | inl old ↦ later_or_lighter _ _ j (length pre) (f j s old m2) (in_range pre j s old)
      | inr (last, same) ↦ inr (ap (λ q. precedence q.selector) same, omega (arith, last))
    ],
  )

  keep-Found :
      (ctx : RoutingContext Symbol AssetKind Exchange)
      (pre : List (ProviderRule Symbol AssetKind Exchange))
      (r : ProviderRule Symbol AssetKind Exchange) (b : BestState)
      (w : ProviderRule Symbol AssetKind Exchange)
      → get_elem? pre b.idx ≡ some w
      → b ≡ candidate b.idx w
      → matches w.selector ctx ≡ true
      → ((j : ℕ) (s : ProviderRule Symbol AssetKind Exchange)
          → get_elem? pre j ≡ some s
          → matches s.selector ctx ≡ true
          → Yields j s b.idx w)
      → precedence r.selector < precedence w.selector
      → Found ctx (pre ++ r ∷ []) (some b)
  keep-Found ctx pre r b w e c m f h = (
    w,
    get_elem?_snoc_old pre r b.idx w e,
    c,
    m,
    λ j s e2 m2. elim (get_elem?_snoc pre r j s e2) [
      | inl old ↦ f j s old m2
      | inr (_, same) ↦
          inl (subst (λ q. precedence q.selector < precedence w.selector) (sym same) h)
    ],
  )

  better-candidate :
      (idx : ℕ) (r : ProviderRule Symbol AssetKind Exchange) (b : BestState)
      (w : ProviderRule Symbol AssetKind Exchange)
      → b ≡ candidate b.idx w
      → b.idx < idx
      → better (candidate idx r) (some b) ≡ leb (precedence w.selector) (precedence r.selector)
  better-candidate idx r b w c h =
      better-weight (candidate idx r) b (spec_of-Bits r.selector)
        (subst (λ (q : BestState). Bits q.spec) (sym c) (spec_of-Bits w.selector)) h
      ∙ ap (λ (q : BestState). leb (weight q.spec) (precedence r.selector)) c

  -- The comparison the loop makes for a rule that matches.
  consider_matching :
      (ctx : RoutingContext Symbol AssetKind Exchange)
      (pre : List (ProviderRule Symbol AssetKind Exchange))
      (r : ProviderRule Symbol AssetKind Exchange) (best : Option BestState)
      → Found ctx pre best
      → matches r.selector ctx ≡ true
      → Found ctx
          (pre ++ r ∷ [])
          (if better (candidate (length pre) r) best then some (candidate (length pre) r) else best)
  unfolding better
  consider_matching ctx pre r none f m =
      take-Found ctx pre r m (λ j s e m2. absurd (true_not_false (sym m2 ∙ f j s e)))
  consider_matching ctx pre r (some b) (w, e, c, m, f) h =
      rw (better-candidate (length pre) r b w c (in_range pre b.idx w e))
        (elim (Bool-cases (leb (precedence w.selector) (precedence r.selector))) [
          | inl heavier ↦ rw heavier (
              take-Found ctx pre r h
                (λ j s e2 m2. le_of_Yields _ _ j b.idx _ (f j s e2 m2) (leb_le _ _ heavier)))
          | inr lighter ↦ rw lighter (keep-Found ctx pre r b w e c m f (not_leb_lt _ _ lighter))
        ])

  consider-Found :
      (ctx : RoutingContext Symbol AssetKind Exchange)
      (pre : List (ProviderRule Symbol AssetKind Exchange))
      (r : ProviderRule Symbol AssetKind Exchange) (best : Option BestState)
      → Found ctx pre best
      → Found ctx (pre ++ r ∷ []) (consider ctx (length pre) r best)
  unfolding consider
  consider-Found ctx pre r best f = elim (Bool-cases (matches r.selector ctx)) [
    | inl m ↦ rw m (consider_matching ctx pre r best f m)
    | inr m ↦ rw m (skip-Found ctx pre r best f m)
  ]

  best_from-Found :
      (ctx : RoutingContext Symbol AssetKind Exchange)
      (pre rules : List (ProviderRule Symbol AssetKind Exchange)) (best : Option BestState)
      → Found ctx pre best
      → Found ctx (pre ++ rules) (best_from ctx (length pre) rules best)
  unfolding best_from
  best_from-Found ctx pre [] best f = rw (append-nil pre) f
  best_from-Found ctx pre (r ∷ rules) best f =
      subst
        (λ (q : List (ProviderRule Symbol AssetKind Exchange) × ℕ).
          Found ctx q.0 (best_from ctx q.1 rules (consider ctx (length pre) r best)))
        (ap₂ (λ a b. (a, b)) (append_assoc pre (r ∷ []) rules)
          (length-append pre (r ∷ []) ∙ omega arith))
        (best_from-Found ctx (pre ++ r ∷ []) rules (consider ctx (length pre) r best)
          (consider-Found ctx pre r best f))

  Found-winner :
      (ctx : RoutingContext Symbol AssetKind Exchange)
      (rules : List (ProviderRule Symbol AssetKind Exchange)) (best : Option BestState)
      → Found ctx rules best
      → (j : ℕ) (s : ProviderRule Symbol AssetKind Exchange) → get_elem? rules j ≡ some s
      → matches s.selector ctx ≡ true
      → (i : ℕ) × (r : ProviderRule Symbol AssetKind Exchange) × (chosen best
          ≡ some (r.list, r.strict))
        × (get_elem? rules i ≡ some r)
        × (matches r.selector ctx ≡ true)
        × Yields j s i r
  Found-winner ctx rules none f j s e m = absurd (true_not_false (sym m ∙ f j s e))
  Found-winner ctx rules (some b) (r, e0, c, m0, f) j s e m =
      (b.idx, r, ap (λ q. chosen (some q)) c, e0, m0, f j s e m)

  best_from-some :
      (ctx : RoutingContext Symbol AssetKind Exchange) (idx : ℕ)
      (rules : List (ProviderRule Symbol AssetKind Exchange)) (best : Option BestState)
      → is_some (chosen (best_from ctx idx rules best))
        ≡ (is_some best || any (λ r. matches r.selector ctx) rules)
  unfolding best_from consider better
  best_from-some ctx idx [] none = refl
  best_from-some ctx idx [] (some b) = refl
  best_from-some ctx idx (r ∷ rules) none = ground (
    arith,
    best_from-some ctx (suc idx) rules none,
    best_from-some ctx (suc idx) rules (some (candidate idx r)),
  )
  best_from-some ctx idx (r ∷ rules) (some b) = ground (
    arith,
    best_from-some ctx (suc idx) rules (some b),
    best_from-some ctx (suc idx) rules (some (candidate idx r)),
  )

  -- When a rule `s` at position `j` matches the context, the policy's best rule exists, is one of
  -- the rules and matches; and it has more precedence than `s`, or the same and does not stand
  -- before it. Precedence counts the constraints first, then prefers the symbol to the asset kind
  -- to the exchange.
  pub best_rule-most_specific :
      (p : ProviderPolicy Symbol AssetKind Exchange)
      (ctx : RoutingContext Symbol AssetKind Exchange) (j : ℕ)
      (s : ProviderRule Symbol AssetKind Exchange)
      → get_elem? p.rules j ≡ some s
      → matches s.selector ctx ≡ true
      → (i : ℕ) × (r : ProviderRule Symbol AssetKind Exchange) × (best_rule p ctx
          ≡ some (r.list, r.strict))
        × (get_elem? p.rules i ≡ some r)
        × (matches r.selector ctx ≡ true)
        × Yields j s i r
  unfolding best_rule
  best_rule-most_specific p ctx j s e m =
      Found-winner ctx p.rules (best_from ctx 0 p.rules none)
        (best_from-Found ctx [] p.rules none (λ k r h. cc h)) j s e m

  -- The policy has no best rule for a context exactly when none of its rules matches it.
  pub best_rule-some :
      (p : ProviderPolicy Symbol AssetKind Exchange)
      (ctx : RoutingContext Symbol AssetKind Exchange)
      → is_some (best_rule p ctx) ≡ any (λ r. matches r.selector ctx) p.rules
  unfolding best_rule
  best_rule-some p ctx = best_from-some ctx 0 p.rules none
