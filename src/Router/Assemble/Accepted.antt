-- ===== src/Router/Assemble/Accepted.antt =====
-- Which sequences of the builder's calls end in an orchestrator, and what its policy is.
use borsa.Routing.Builder.{default_policy}
use borsa.Routing.Policy.Normalize.{knows_global, knows_all, normalize-reports_unknown}
use borsa.Router.{Connector, Borsa}
use borsa.Routing.Policy.{ProviderPolicy, Selector, RoutingPolicy}
use borsa.Router.Assemble.{apply_setting, Setting, build, BorsaBuilder, new_builder, names}
use borsa.Prelude.{
  String, ◌≡◌, refl, sym, ◌∙◌, inr, Bool, ◌&&◌, not, List, [], ◌∷◌, ◌++◌, arith, all, is_empty, ap₂,
  ◌⊎◌, inl, Option, none, some, if◌then◌else◌,
}
use mathlib.Core.List.{append_assoc, append-nil}
use borsa.Router.Assemble.{
  with_connector, routing_policy, prefer_adjusted_history, resampling,
  auto_resample_subdaily_to_daily, fetch_strategy, merge_history_strategy, provider_timeout,
  request_timeout, backoff, stream_enforce_monotonic_timestamps, build,
}

module _ {Symbol AssetKind Exchange : Type 0} where
  unfoldable pub configure :
      List (Setting Symbol AssetKind Exchange)
      → BorsaBuilder Symbol AssetKind Exchange
      → BorsaBuilder Symbol AssetKind Exchange
  unfolding apply_setting
  configure [] b = b
  configure (s ∷ settings) b = configure settings (apply_setting s b)

  -- The connectors of the calls, in order.
  unfoldable pub registered : List (Setting Symbol AssetKind Exchange) → List Connector
  registered [] = []
  registered (with_connector c ∷ settings) = c ∷ registered settings
  registered (routing_policy p ∷ settings) = registered settings
  registered (prefer_adjusted_history on ∷ settings) = registered settings
  registered (resampling mode ∷ settings) = registered settings
  registered (auto_resample_subdaily_to_daily on ∷ settings) = registered settings
  registered (fetch_strategy strategy ∷ settings) = registered settings
  registered (merge_history_strategy strategy ∷ settings) = registered settings
  registered (provider_timeout timeout ∷ settings) = registered settings
  registered (request_timeout timeout ∷ settings) = registered settings
  registered (backoff c ∷ settings) = registered settings
  registered (stream_enforce_monotonic_timestamps on ∷ settings) = registered settings

  -- The policy that was set last, else the given one.
  unfoldable pub last_policy :
      List (Setting Symbol AssetKind Exchange)
      → RoutingPolicy Symbol AssetKind Exchange
      → RoutingPolicy Symbol AssetKind Exchange
  last_policy [] p = p
  last_policy (routing_policy q ∷ settings) p = last_policy settings q
  last_policy (with_connector c ∷ settings) p = last_policy settings p
  last_policy (prefer_adjusted_history on ∷ settings) p = last_policy settings p
  last_policy (resampling mode ∷ settings) p = last_policy settings p
  last_policy (auto_resample_subdaily_to_daily on ∷ settings) p = last_policy settings p
  last_policy (fetch_strategy strategy ∷ settings) p = last_policy settings p
  last_policy (merge_history_strategy strategy ∷ settings) p = last_policy settings p
  last_policy (provider_timeout timeout ∷ settings) p = last_policy settings p
  last_policy (request_timeout timeout ∷ settings) p = last_policy settings p
  last_policy (backoff c ∷ settings) p = last_policy settings p
  last_policy (stream_enforce_monotonic_timestamps on ∷ settings) p = last_policy settings p

  configure-fields :
      (settings : List (Setting Symbol AssetKind Exchange))
      (b : BorsaBuilder Symbol AssetKind Exchange)
      → ((configure settings b).connectors ≡ b.connectors ++ registered settings)
        × ((configure settings b).cfg.routing_policy ≡ last_policy settings b.cfg.routing_policy)
  unfolding configure apply_setting registered last_policy
  configure-fields [] b = (sym (append-nil b.connectors), refl)
  configure-fields (with_connector c ∷ settings) b =
      let ih = configure-fields settings (record b { connectors = b.connectors ++ c ∷ [] }) in
      (ih.0 ∙ append_assoc b.connectors (c ∷ []) (registered settings), ih.1)
  configure-fields (routing_policy p ∷ settings) b = configure-fields settings _
  configure-fields (prefer_adjusted_history on ∷ settings) b = configure-fields settings _
  configure-fields (resampling mode ∷ settings) b = configure-fields settings _
  configure-fields (auto_resample_subdaily_to_daily on ∷ settings) b = configure-fields settings _
  configure-fields (fetch_strategy strategy ∷ settings) b = configure-fields settings _
  configure-fields (merge_history_strategy strategy ∷ settings) b = configure-fields settings _
  configure-fields (provider_timeout timeout ∷ settings) b = configure-fields settings _
  configure-fields (request_timeout timeout ∷ settings) b = configure-fields settings _
  configure-fields (backoff c ∷ settings) b = configure-fields settings _
  configure-fields (stream_enforce_monotonic_timestamps on ∷ settings) b =
      configure-fields settings _

  -- Every connector that the policy names is known.
  abbrev pub knows_policy : List String → ProviderPolicy Symbol AssetKind Exchange → Bool
  knows_policy known p =
      knows_global known p.global_rule && all (λ r. knows_all known r.list.values) p.rules

  abbrev pub connectors_of :
      {E : Type 0} → E ⊎ Borsa Symbol AssetKind Exchange → Option (List Connector)
  connectors_of (inl error) = none
  connectors_of (inr o) = some o.connectors

  connectors_of-build :
      (details : List (Selector Symbol AssetKind Exchange × List String) → String)
      (b : BorsaBuilder Symbol AssetKind Exchange)
      → connectors_of (build details b) ≡ (
          if not (is_empty b.connectors)
            && knows_policy (names b.connectors) b.cfg.routing_policy.providers
          then some b.connectors
          else none)
  unfolding build
  connectors_of-build details b =
      ground (arith, normalize-reports_unknown (names b.connectors) b.cfg.routing_policy.providers)

  -- A sequence of the builder's calls, from a new builder, ends in an orchestrator exactly when it
  -- registers a connector and the policy that it sets last names no connector that it does not
  -- register. The orchestrator's connectors are then those that were registered, in order.
  pub build-accepts :
      (details : List (Selector Symbol AssetKind Exchange × List String) → String)
      (settings : List (Setting Symbol AssetKind Exchange))
      → connectors_of (build details (configure settings new_builder)) ≡ (
          if not (is_empty (registered settings))
            && knows_policy
                (names (registered settings))
                (last_policy settings default_policy).providers
          then some (registered settings)
          else none)
  build-accepts details settings =
      let fields = configure-fields settings new_builder in
      connectors_of-build details (configure settings new_builder)
      ∙ ap₂
          (λ cs p.
            if not (is_empty cs) && knows_policy (names cs) p.providers then some cs else none)
          fields.0 fields.1
