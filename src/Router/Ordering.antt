-- ===== src/Router/Ordering.antt =====
-- `ordered`: the connectors that a request goes to, in the order of their ranks.
use borsa.Prelude.{
  ltb, leb, ℕ, suc, Bool, ◌&&◌, ◌||◌, Option, none, some, List, [], ◌∷◌, map, ◌==◌, is_some, Eq,
  keep_if, sort_by,
}
use borsa.Router.{Connector, Borsa}
use borsa.Routing.Policy.{RoutingContext, provider_rank, provider_sort_key}

-- What the router reads of an instrument's identifier.
pub data IdentifierScheme (Symbol Exchange : Type 0) : Type 0 where
  security : Symbol → Option Exchange → IdentifierScheme Symbol Exchange
  prediction : IdentifierScheme Symbol Exchange

pub record Instrument (Symbol AssetKind Exchange : Type 0) : Type 0 where
  pub id : IdentifierScheme Symbol Exchange
  pub kind : AssetKind

-- The order of pairs.
unfoldable pub key_le : ℕ × ℕ → ℕ × ℕ → Bool
key_le (a, i) (b, j) = ltb a b || (a == b && leb i j)

abbrev pub enumerate_from {ℓ} : {A : Type ℓ} → ℕ → List A → List (ℕ × A)
enumerate_from i [] = []
enumerate_from i (x ∷ xs) = (i, x) ∷ enumerate_from (suc i) xs

abbrev pub symbol_opt :
    {Symbol Exchange : Type 0} → IdentifierScheme Symbol Exchange → Option Symbol
symbol_opt (security s x) = some s
symbol_opt prediction = none

abbrev pub exch_opt :
    {Symbol Exchange : Type 0} → IdentifierScheme Symbol Exchange → Option Exchange
exch_opt (security s x) = x
exch_opt prediction = none

module _ {Symbol AssetKind Exchange : Type 0} ⦃es : Eq Symbol⦄ ⦃ek : Eq AssetKind⦄
    ⦃ex : Eq Exchange⦄ (b : Borsa Symbol AssetKind Exchange)
    (ctx : RoutingContext Symbol AssetKind Exchange) where
  abbrev pub is_eligible : ℕ × Connector → Bool
  unfolding provider_rank
  is_eligible (i, c) = is_some (provider_rank b.cfg.routing_policy.providers ctx c.name)

  abbrev pub sort_key : ℕ × Connector → ℕ × ℕ
  sort_key (i, c) = provider_sort_key b.cfg.routing_policy ctx c.name i

  abbrev pub before_or_same : ℕ × Connector → ℕ × Connector → Bool
  before_or_same x y = key_le (sort_key x) (sort_key y)

  abbrev pub eligible : List (ℕ × Connector)
  eligible = keep_if is_eligible (enumerate_from 0 b.connectors)

  unfoldable pub by_rank : List (ℕ × Connector)
  unfolding sort_by
  by_rank = sort_by before_or_same eligible

  unfoldable pub ordered_for_context : List Connector
  unfolding by_rank
  ordered_for_context = map (λ x. x.1) by_rank

module _ {Symbol AssetKind Exchange : Type 0} ⦃es : Eq Symbol⦄ ⦃ek : Eq AssetKind⦄
    ⦃ex : Eq Exchange⦄ where
  unfoldable pub ordered_for_kind :
      Borsa Symbol AssetKind Exchange → Option AssetKind → List Connector
  unfolding ordered_for_context
  ordered_for_kind o kind =
      ordered_for_context o (record { symbol = none; kind = kind; exchange = none })

  unfoldable pub ordered :
      Borsa Symbol AssetKind Exchange → Instrument Symbol AssetKind Exchange → List Connector
  unfolding ordered_for_context
  ordered o inst =
      ordered_for_context o
        (record { symbol = symbol_opt inst.id; kind = some inst.kind; exchange = exch_opt inst.id })
