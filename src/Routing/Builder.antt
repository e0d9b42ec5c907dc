-- ===== src/Routing/Builder.antt =====
-- The builder of a routing policy: each call changes the policy that is built.
use borsa.Prelude.{string_eq, ◌≡◌, Bool, true, false, none, some, List, [], ◌∷◌, Eq}
use borsa.Routing.Preference
use borsa.Routing.Preference.{ScopeKey, Preference, default_preference}
use borsa.Routing.Policy.{
  ConnectorKey, Selector, ProviderPolicy, RoutingPolicy, RoutingContext, set_global, add_rule,
  provider_rank, best_rule,
}
use borsa.Routing.Policy.Ranks.{Coherent, updates-Coherent, provider_rank-place, place, governing}

module _ {Symbol AssetKind Exchange : Type 0} where
  abbrev pub default_policy : RoutingPolicy Symbol AssetKind Exchange
  default_policy = record {
    providers = record { rules = []; global_rule = none };
    exchanges = default_preference;
  }

  abbrev with_providers :
      RoutingPolicy Symbol AssetKind Exchange
      → ProviderPolicy Symbol AssetKind Exchange
      → RoutingPolicy Symbol AssetKind Exchange
  with_providers p providers = record p { providers = providers }

  unfoldable pub providers_global :
      List ConnectorKey
      → RoutingPolicy Symbol AssetKind Exchange
      → RoutingPolicy Symbol AssetKind Exchange
  unfolding set_global
  providers_global list p = with_providers p (set_global list false p.providers)

  unfoldable pub providers_global_strict :
      List ConnectorKey
      → RoutingPolicy Symbol AssetKind Exchange
      → RoutingPolicy Symbol AssetKind Exchange
  unfolding set_global
  providers_global_strict list p = with_providers p (set_global list true p.providers)

  unfoldable pub providers_rule :
      Selector Symbol AssetKind Exchange
      → List ConnectorKey
      → Bool
      → RoutingPolicy Symbol AssetKind Exchange
      → RoutingPolicy Symbol AssetKind Exchange
  unfolding add_rule
  providers_rule selector list strict p =
      with_providers p (add_rule selector list strict p.providers)

  unfoldable pub providers_for_kind :
      AssetKind
      → List ConnectorKey
      → RoutingPolicy Symbol AssetKind Exchange
      → RoutingPolicy Symbol AssetKind Exchange
  unfolding add_rule
  providers_for_kind k list p =
      with_providers p
        (add_rule (record { symbol = none; kind = some k; exchange = none }) list false p.providers)

  unfoldable pub providers_for_symbol :
      Symbol
      → List ConnectorKey
      → RoutingPolicy Symbol AssetKind Exchange
      → RoutingPolicy Symbol AssetKind Exchange
  unfolding add_rule
  providers_for_symbol s list p =
      with_providers p
        (add_rule (record { symbol = some s; kind = none; exchange = none }) list false p.providers)

  unfoldable pub providers_for_exchange :
      Exchange
      → List ConnectorKey
      → RoutingPolicy Symbol AssetKind Exchange
      → RoutingPolicy Symbol AssetKind Exchange
  unfolding add_rule
  providers_for_exchange x list p =
      with_providers p
        (add_rule (record { symbol = none; kind = none; exchange = some x }) list false p.providers)

module _ {Symbol AssetKind Exchange : Type 0} ⦃es : Eq Symbol⦄ ⦃ek : Eq AssetKind⦄
    ⦃ex : Eq Exchange⦄ where
  -- `exchanges_global`, `exchanges_for_kind` and `exchanges_for_symbol`, by the scope that each sets.
  unfoldable pub exchanges_for :
      ScopeKey Symbol AssetKind
      → List Exchange
      → RoutingPolicy Symbol AssetKind Exchange
      → RoutingPolicy Symbol AssetKind Exchange
  unfolding Preference.set
  exchanges_for scope list p = record p { exchanges = Preference.set scope list p.exchanges }

pub data BuilderCall (Symbol AssetKind Exchange : Type 0) : Type 0 where
  call_global : List ConnectorKey → BuilderCall Symbol AssetKind Exchange
  call_global_strict : List ConnectorKey → BuilderCall Symbol AssetKind Exchange
  call_for_kind : AssetKind → List ConnectorKey → BuilderCall Symbol AssetKind Exchange
  call_for_symbol : Symbol → List ConnectorKey → BuilderCall Symbol AssetKind Exchange
  call_for_exchange : Exchange → List ConnectorKey → BuilderCall Symbol AssetKind Exchange
  call_rule :
      Selector Symbol AssetKind Exchange
      → List ConnectorKey
      → Bool
      → BuilderCall Symbol AssetKind Exchange
  call_exchanges : ScopeKey Symbol AssetKind → List Exchange → BuilderCall Symbol AssetKind Exchange

module _ {Symbol AssetKind Exchange : Type 0} ⦃es : Eq Symbol⦄ ⦃ek : Eq AssetKind⦄
    ⦃ex : Eq Exchange⦄ where
  unfoldable pub perform :
      BuilderCall Symbol AssetKind Exchange
      → RoutingPolicy Symbol AssetKind Exchange
      → RoutingPolicy Symbol AssetKind Exchange
  unfolding providers_global providers_global_strict providers_for_kind providers_for_symbol
      providers_for_exchange providers_rule exchanges_for
  perform (call_global list) p = providers_global list p
  perform (call_global_strict list) p = providers_global_strict list p
  perform (call_for_kind k list) p = providers_for_kind k list p
  perform (call_for_symbol s list) p = providers_for_symbol s list p
  perform (call_for_exchange x list) p = providers_for_exchange x list p
  perform (call_rule selector list strict) p = providers_rule selector list strict p
  perform (call_exchanges scope list) p = exchanges_for scope list p

  unfoldable pub build :
      List (BuilderCall Symbol AssetKind Exchange)
      → RoutingPolicy Symbol AssetKind Exchange
      → RoutingPolicy Symbol AssetKind Exchange
  unfolding perform
  build [] p = p
  build (call ∷ calls) p = build calls (perform call p)

  perform-Coherent :
      (call : BuilderCall Symbol AssetKind Exchange) (p : RoutingPolicy Symbol AssetKind Exchange)
      → Coherent p.providers
      → Coherent (perform call p).providers
  unfolding perform
  perform-Coherent (call_global list) p h =
      (updates-Coherent p.providers (record { symbol = none; kind = none; exchange = none }) list
        false h).0
  perform-Coherent (call_global_strict list) p h =
      (updates-Coherent p.providers (record { symbol = none; kind = none; exchange = none }) list
        true h).0
  perform-Coherent (call_for_kind k list) p h =
      (updates-Coherent p.providers (record { symbol = none; kind = some k; exchange = none }) list
        false h).1
  perform-Coherent (call_for_symbol s list) p h =
      (updates-Coherent p.providers (record { symbol = some s; kind = none; exchange = none }) list
        false h).1
  perform-Coherent (call_for_exchange x list) p h =
      (updates-Coherent p.providers (record { symbol = none; kind = none; exchange = some x }) list
        false h).1
  perform-Coherent (call_rule selector list strict) p h =
      (updates-Coherent p.providers selector list strict h).1
  perform-Coherent (call_exchanges scope list) p h = h

  build-Coherent :
      (calls : List (BuilderCall Symbol AssetKind Exchange))
      (p : RoutingPolicy Symbol AssetKind Exchange)
      → Coherent p.providers
      → Coherent (build calls p).providers
  unfolding build
  build-Coherent [] p h = h
  build-Coherent (call ∷ calls) p h =
      build-Coherent calls (perform call p) (perform-Coherent call p h)

  -- Under a policy built by any sequence of the builder's calls, a provider's rank in a context is
  -- its position in the best rule's list, or in the global list when no rule matches, with the
  -- list's strictness; a provider that the list does not hold has no rank if the list is strict,
  -- and is otherwise eligible after all others.
  pub built_rank-place :
      (calls : List (BuilderCall Symbol AssetKind Exchange))
      (ctx : RoutingContext Symbol AssetKind Exchange) (key : ConnectorKey)
      → provider_rank (build calls default_policy).providers ctx key
        ≡ place key (
            governing
              (best_rule (build calls default_policy).providers ctx)
              (build calls default_policy).providers.global_rule)
  built_rank-place calls ctx key =
      provider_rank-place (build calls default_policy).providers ctx key
        (build-Coherent calls default_policy (tt, tt))
