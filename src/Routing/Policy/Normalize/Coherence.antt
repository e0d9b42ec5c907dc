-- ===== src/Routing/Policy/Normalize/Coherence.antt =====
-- The cached ranks after the check of a policy: whatever they were, they are the positions.
use borsa.Routing.Ranked.Positions.{get-ranks}
use borsa.Routing.Policy.Ranks.{PositionRanksIfSet, Coherent, PositionRanks}
use borsa.Routing.Ranked.{RankedList}
use borsa.Routing.Policy.{ConnectorKey, ProviderPolicy, ProviderRule}
use borsa.Prelude.{string_eq, Bool, Option, none, some, List, [], ◌∷◌, All}
use borsa.Routing.Policy.Normalize.{
  normalize_and_collect_unknown, normalize_global, screen, normalize_rules, normalize_rule,
}

normalize_global-PositionRanks :
    (S K X : Type 0) (known : List ConnectorKey) (rule : Option (RankedList ConnectorKey × Bool))
    → PositionRanksIfSet (normalize_global {Symbol = S} {AssetKind = K} {Exchange = X} known rule).0
unfolding normalize_global
normalize_global-PositionRanks S K X known none = tt
normalize_global-PositionRanks S K X known (some (list, strict)) =
    λ key. get-ranks (screen known [] list.values).0 key

module _ {Symbol AssetKind Exchange : Type 0} where
  normalize_rules-PositionRanks :
      (known : List ConnectorKey) (rules : List (ProviderRule Symbol AssetKind Exchange))
      → All (λ r. PositionRanks r.list) (normalize_rules known rules).0
  unfolding normalize_rules normalize_rule
  normalize_rules-PositionRanks known [] = tt
  normalize_rules-PositionRanks known (rule ∷ rules) = (
    λ key. get-ranks (screen known [] rule.list.values).0 key,
    normalize_rules-PositionRanks known rules,
  )

  pub normalize-Coherent :
      (known : List ConnectorKey) (p : ProviderPolicy Symbol AssetKind Exchange)
      → Coherent (normalize_and_collect_unknown known p).0
  unfolding normalize_and_collect_unknown
  normalize-Coherent known p = (
    normalize_rules-PositionRanks known p.rules,
    normalize_global-PositionRanks Symbol AssetKind Exchange known p.global_rule,
  )
