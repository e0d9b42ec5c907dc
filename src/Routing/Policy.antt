-- ===== src/Routing/Policy.antt =====
-- Provider rules, the best rule for a context, the rank of a provider, and the check of the policy
-- against the connectors that are known.
pub mod Best
pub mod Weight
pub mod Ranks
pub mod Normalize
use borsa.Prelude.{
  String, string_eq, ℕ, suc, ◌+◌, ◌-◌, ◌^◌, Bool, true, false, ◌&&◌, ◌||◌, Option, none, some, List,
  [], ◌∷◌, ◌++◌, ltb, ◌==◌, if◌then◌else◌, is_some, Eq, eq,
}
use borsa.Prelude.Maps.{get}
use borsa.Quota.{u64_max}
use borsa.Routing.Ranked
use borsa.Routing.Ranked.{RankedList}
use borsa.Routing.Preference.{Preference, default_preference, resolve_rank_map}

-- `ConnectorKey` holds the connector's name.
abbrev pub ConnectorKey : Type 0
ConnectorKey = String

-- `usize::MAX` on a 64-bit machine.
abbrev pub usize_max : ℕ
usize_max = 2 ^ 64 - 1

pub record Selector (Symbol AssetKind Exchange : Type 0) : Type 0 where
  pub symbol : Option Symbol
  pub kind : Option AssetKind
  pub exchange : Option Exchange

pub record ProviderRule (Symbol AssetKind Exchange : Type 0) : Type 0 where
  pub selector : Selector Symbol AssetKind Exchange
  pub list : RankedList ConnectorKey
  pub strict : Bool

pub record ProviderPolicy (Symbol AssetKind Exchange : Type 0) : Type 0 where
  pub rules : List (ProviderRule Symbol AssetKind Exchange)
  pub global_rule : Option (RankedList ConnectorKey × Bool)

pub record RoutingPolicy (Symbol AssetKind Exchange : Type 0) : Type 0 where
  pub providers : ProviderPolicy Symbol AssetKind Exchange
  pub exchanges : Preference Symbol AssetKind Exchange

pub record RoutingContext (Symbol AssetKind Exchange : Type 0) : Type 0 where
  pub symbol : Option Symbol
  pub kind : Option AssetKind
  pub exchange : Option Exchange

abbrev pub bit : Bool → ℕ
bit true = 1
bit false = 0

-- The tuple (count, symbol bit, kind bit, exchange bit).
pub record SpecBits : Type 0 where
  pub count : ℕ
  pub sb : ℕ
  pub kb : ℕ
  pub eb : ℕ

-- The order of tuples.
pub spec_gt : SpecBits → SpecBits → Bool
spec_gt a b =
    ltb b.count a.count
    || (b.count == a.count
        && (ltb b.sb a.sb || (b.sb == a.sb && (ltb b.kb a.kb || (b.kb == a.kb && ltb b.eb a.eb)))))

pub spec_eq : SpecBits → SpecBits → Bool
spec_eq a b = a.count == b.count && (a.sb == b.sb && (a.kb == b.kb && a.eb == b.eb))

pub record BestState : Type 0 where
  pub list : RankedList ConnectorKey
  pub strict : Bool
  pub spec : SpecBits
  pub idx : ℕ

-- A selector's field admits the context's: it is not set, or the same.
abbrev pub admits : {A : Type 0} ⦃e : Eq A⦄ → Option A → Option A → Bool
admits none c = true
admits (some a) none = false
admits (some a) (some c) = eq a c

pub better : BestState → Option BestState → Bool
unfolding spec_gt spec_eq
better c none = true
better c (some b) = spec_gt c.spec b.spec || (spec_eq c.spec b.spec && ltb b.idx c.idx)

abbrev pub chosen : Option BestState → Option (RankedList ConnectorKey × Bool)
chosen none = none
chosen (some b) = some (b.list, b.strict)

-- The rank under one list, or the fallback of a list that is not strict.
rank_in : ConnectorKey → RankedList ConnectorKey × Bool → Option (ℕ × Bool)
rank_in key (list, strict) = elim (get list.ranks key) [
  | some rank ↦ some (rank, strict)
  | none ↦ if strict then none else some (usize_max, false)
]

rank_under :
    ConnectorKey
    → Option (RankedList ConnectorKey × Bool)
    → Option (RankedList ConnectorKey × Bool)
    → Option (ℕ × Bool)
unfolding rank_in
rank_under key (some rule) global_rule = rank_in key rule
rank_under key none (some global_rule) = rank_in key global_rule
rank_under key none none = some (usize_max, false)

abbrev pub rank_or_last : Option (ℕ × Bool) → ℕ
rank_or_last none = usize_max
rank_or_last (some (rank, strict)) = rank

abbrev exchange_rank :
    {Exchange : Type 0} ⦃ex : Eq Exchange⦄ → Option Exchange → Option (List (Exchange × ℕ)) → ℕ
exchange_rank none m = usize_max
exchange_rank (some x) none = usize_max
exchange_rank (some x) (some m) = elim (get m x) [ none ↦ usize_max | some rank ↦ rank ]

module _ {Symbol AssetKind Exchange : Type 0} where
  abbrev pub spec_of : Selector Symbol AssetKind Exchange → SpecBits
  spec_of s =
      let sb = bit (is_some s.symbol) in
      let kb = bit (is_some s.kind) in
      let eb = bit (is_some s.exchange) in
      record { count = sb + kb + eb; sb = sb; kb = kb; eb = eb }

  unfoldable pub set_global :
      List ConnectorKey
      → Bool
      → ProviderPolicy Symbol AssetKind Exchange
      → ProviderPolicy Symbol AssetKind Exchange
  set_global list strict p = record p { global_rule = some (Ranked.new list, strict) }

  unfoldable pub add_rule :
      Selector Symbol AssetKind Exchange
      → List ConnectorKey
      → Bool
      → ProviderPolicy Symbol AssetKind Exchange
      → ProviderPolicy Symbol AssetKind Exchange
  add_rule selector list strict p = record p {
    rules = p.rules ++ record { selector = selector; list = Ranked.new list; strict = strict } ∷ [];
  }

module _ {Symbol AssetKind Exchange : Type 0} ⦃es : Eq Symbol⦄ ⦃ek : Eq AssetKind⦄
    ⦃ex : Eq Exchange⦄ where
  abbrev pub matches :
      Selector Symbol AssetKind Exchange → RoutingContext Symbol AssetKind Exchange → Bool
  matches s ctx =
      admits s.symbol ctx.symbol && (admits s.kind ctx.kind && admits s.exchange ctx.exchange)

  abbrev pub candidate : ℕ → ProviderRule Symbol AssetKind Exchange → BestState
  candidate idx r = record {
    list = r.list;
    strict = r.strict;
    spec = spec_of r.selector;
    idx = idx;
  }

  pub consider :
      RoutingContext Symbol AssetKind Exchange
      → ℕ
      → ProviderRule Symbol AssetKind Exchange
      → Option BestState
      → Option BestState
  unfolding better
  consider ctx idx r best =
      if matches r.selector ctx && better (candidate idx r) best
      then some (candidate idx r)
      else best

  pub best_from :
      RoutingContext Symbol AssetKind Exchange
      → ℕ
      → List (ProviderRule Symbol AssetKind Exchange)
      → Option BestState
      → Option BestState
  unfolding consider
  best_from ctx idx [] best = best
  best_from ctx idx (r ∷ rules) best = best_from ctx (suc idx) rules (consider ctx idx r best)

  unfoldable pub best_rule :
      ProviderPolicy Symbol AssetKind Exchange
      → RoutingContext Symbol AssetKind Exchange
      → Option (RankedList ConnectorKey × Bool)
  unfolding best_from
  best_rule p ctx = chosen (best_from ctx 0 p.rules none)

  unfoldable pub provider_rank :
      ProviderPolicy Symbol AssetKind Exchange
      → RoutingContext Symbol AssetKind Exchange
      → ConnectorKey
      → Option (ℕ × Bool)
  unfolding rank_under best_rule
  provider_rank p ctx key = rank_under key (best_rule p ctx) p.global_rule

  unfoldable pub provider_sort_key :
      RoutingPolicy Symbol AssetKind Exchange
      → RoutingContext Symbol AssetKind Exchange
      → ConnectorKey
      → ℕ
      → ℕ × ℕ
  unfolding provider_rank
  provider_sort_key p ctx key orig_idx =
      (rank_or_last (provider_rank p.providers ctx key), orig_idx)

  unfoldable pub exchange_sort_key :
      RoutingPolicy Symbol AssetKind Exchange
      → RoutingContext Symbol AssetKind Exchange
      → Option Exchange
      → ℕ
      → ℕ × ℕ × ℕ × ℕ
  exchange_sort_key p ctx x orig_idx = (
    exchange_rank x (resolve_rank_map p.exchanges ctx.symbol ctx.kind),
    if is_some x then 0 else usize_max,
    usize_max,
    orig_idx,
  )
