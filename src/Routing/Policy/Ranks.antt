-- ===== src/Routing/Policy/Ranks.antt =====
-- The rank of a provider is its position in the list that governs the context.
use borsa.Prelude.Maps.{get}
use borsa.Prelude.{
  string_eq, ℕ, ◌≡◌, refl, inl, inr, Bool, false, Option, none, some, List, [], ◌∷◌, arith,
  if◌then◌else◌, Bool-cases, Eq, All, All-append, suc,
}
use borsa.Routing.Ranked.{RankedList}
use borsa.Routing.Ranked.Positions.{position, get-ranks}
use borsa.Routing.Policy.{
  ConnectorKey, Selector, ProviderRule, ProviderPolicy, RoutingContext, BestState, candidate,
  consider, best_from, best_rule, chosen, better, matches, provider_rank, rank_under, rank_in,
  add_rule, set_global, usize_max,
}

-- The cached ranks are the positions of the values.
abbrev pub PositionRanks : RankedList ConnectorKey → Type 0
PositionRanks list = (key : ConnectorKey) → get list.ranks key ≡ position 0 list.values key

abbrev pub PositionRanksIfSet : Option (RankedList ConnectorKey × Bool) → Type 0
PositionRanksIfSet none = Unit
PositionRanksIfSet (some (list, strict)) = PositionRanks list

-- The list that governs: the best rule's, else the global one.
abbrev pub governing :
    Option (RankedList ConnectorKey × Bool)
    → Option (RankedList ConnectorKey × Bool)
    → Option (RankedList ConnectorKey × Bool)
governing none global_rule = global_rule
governing (some rule) global_rule = some rule

-- A listed key has its position and the list's strictness; any other is last under a list that is
-- not strict or without a list, and has no rank under a strict one.
abbrev pub place : ConnectorKey → Option (RankedList ConnectorKey × Bool) → Option (ℕ × Bool)
place key none = some (usize_max, false)
place key (some (list, strict)) = elim (position 0 list.values key) [
  | some i ↦ some (i, strict)
  | none ↦ if strict then none else some (usize_max, false)
]

rank_under-place :
    (key : ConnectorKey) (rule global_rule : Option (RankedList ConnectorKey × Bool))
    → PositionRanksIfSet rule
    → PositionRanksIfSet global_rule
    → rank_under key rule global_rule ≡ place key (governing rule global_rule)
unfolding rank_under rank_in
rank_under-place key (some (list, strict)) global_rule h k = ground (arith, h key)
rank_under-place key none (some (list, strict)) h k = ground (arith, k key)
rank_under-place key none none h k = refl

module _ {Symbol AssetKind Exchange : Type 0} where
  -- Every list of the policy caches its ranks rightly.
  abbrev pub Coherent : ProviderPolicy Symbol AssetKind Exchange → Type 0
  Coherent p = All (λ r. PositionRanks r.list) p.rules × PositionRanksIfSet p.global_rule

  -- Setting the global list and appending a rule keep every cached rank equal to the position.
  pub updates-Coherent :
      (p : ProviderPolicy Symbol AssetKind Exchange) (selector : Selector Symbol AssetKind Exchange)
      (list : List ConnectorKey) (strict : Bool)
      → Coherent p
      → Coherent (set_global list strict p) × Coherent (add_rule selector list strict p)
  unfolding set_global add_rule
  updates-Coherent p selector list strict (h, k) = (
    (h, λ key. get-ranks list key),
    (All-append (λ r. PositionRanks r.list) p.rules _ h ((λ key. get-ranks list key), tt), k),
  )

module _ {Symbol AssetKind Exchange : Type 0} ⦃es : Eq Symbol⦄ ⦃ek : Eq AssetKind⦄
    ⦃ex : Eq Exchange⦄ where
  best_from-PositionRanksIfSet :
      (ctx : RoutingContext Symbol AssetKind Exchange) (idx : ℕ)
      (rules : List (ProviderRule Symbol AssetKind Exchange)) (best : Option BestState)
      → All (λ r. PositionRanks r.list) rules
      → PositionRanksIfSet (chosen best)
      → PositionRanksIfSet (chosen (best_from ctx idx rules best))
  unfolding best_from consider better
  best_from-PositionRanksIfSet ctx idx [] best h k = k
  best_from-PositionRanksIfSet ctx idx (r ∷ rules) best h k =
      elim (Bool-cases (matches r.selector ctx)) [
        | inl m ↦ rw m (elim (Bool-cases (better (candidate idx r) best)) [
          | inl first ↦
              rw first
                (best_from-PositionRanksIfSet ctx (suc idx) rules (some (candidate idx r)) h.1 h.0)
          | inr second ↦ rw second (best_from-PositionRanksIfSet ctx (suc idx) rules best h.1 k)
        ])
        | inr m ↦ rw m (best_from-PositionRanksIfSet ctx (suc idx) rules best h.1 k)
      ]

  -- When the cached ranks are the positions, a provider's rank in a context is its position in the
  -- best rule's list, or in the global list when no rule matches, with the list's strictness; a
  -- provider that the list does not hold has no rank if the list is strict, and is otherwise
  -- eligible after all others.
  pub provider_rank-place :
      (p : ProviderPolicy Symbol AssetKind Exchange)
      (ctx : RoutingContext Symbol AssetKind Exchange) (key : ConnectorKey)
      → Coherent p
      → provider_rank p ctx key ≡ place key (governing (best_rule p ctx) p.global_rule)
  unfolding provider_rank best_rule
  provider_rank-place p ctx key (h, k) =
      rank_under-place key (best_rule p ctx) p.global_rule
        (best_from-PositionRanksIfSet ctx 0 p.rules none h tt) k
