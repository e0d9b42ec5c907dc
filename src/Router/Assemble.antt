-- ===== src/Router/Assemble.antt =====
-- `BorsaBuilder`: the settings, and the check of the policy against the connectors that are
-- registered. How the unknown connectors are written into the message is the argument `details`.
pub mod Accepted
pub mod Ordered
use borsa.Prelude.{
  ℕ, String, ◌⊎◌, inl, inr, Bool, not, some, List, [], ◌∷◌, ◌++◌, if◌then◌else◌, is_empty,
}
use borsa.Errors.{BorsaError, invalid_arg}
use borsa.Router.{Connector, Borsa}
use borsa.Router.Config.{
  BorsaConfig, FetchStrategy, MergeStrategy, Resampling, BackoffConfig, default_config,
}
use borsa.Routing.Policy.{RoutingPolicy, Selector, ProviderPolicy}
use borsa.Routing.Policy.Normalize.{normalize_and_collect_unknown}

pub record BorsaBuilder (Symbol AssetKind Exchange : Type 0) : Type 0 where
  pub connectors : List Connector
  pub cfg : BorsaConfig Symbol AssetKind Exchange

-- The calls of the builder that set a field.
pub data Setting (Symbol AssetKind Exchange : Type 0) : Type 0 where
  with_connector : Connector → Setting Symbol AssetKind Exchange
  routing_policy : RoutingPolicy Symbol AssetKind Exchange → Setting Symbol AssetKind Exchange
  prefer_adjusted_history : Bool → Setting Symbol AssetKind Exchange
  resampling : Resampling → Setting Symbol AssetKind Exchange
  auto_resample_subdaily_to_daily : Bool → Setting Symbol AssetKind Exchange
  fetch_strategy : FetchStrategy → Setting Symbol AssetKind Exchange
  merge_history_strategy : MergeStrategy → Setting Symbol AssetKind Exchange
  provider_timeout : ℕ → Setting Symbol AssetKind Exchange
  request_timeout : ℕ → Setting Symbol AssetKind Exchange
  backoff : BackoffConfig → Setting Symbol AssetKind Exchange
  stream_enforce_monotonic_timestamps : Bool → Setting Symbol AssetKind Exchange

abbrev pub names : List Connector → List String
names [] = []
names (c ∷ cs) = c.name ∷ names cs

module _ {Symbol AssetKind Exchange : Type 0} where
  abbrev pub new_builder : BorsaBuilder Symbol AssetKind Exchange
  new_builder = record { connectors = []; cfg = default_config }

  unfoldable pub apply_setting :
      Setting Symbol AssetKind Exchange
      → BorsaBuilder Symbol AssetKind Exchange
      → BorsaBuilder Symbol AssetKind Exchange
  apply_setting (with_connector c) b = record b { connectors = b.connectors ++ c ∷ [] }
  apply_setting (routing_policy p) b = record b { cfg = record b.cfg { routing_policy = p } }
  apply_setting (prefer_adjusted_history on) b = record b {
    cfg = record b.cfg { prefer_adjusted_history = on };
  }
  apply_setting (resampling mode) b = record b { cfg = record b.cfg { resampling = mode } }
  apply_setting (auto_resample_subdaily_to_daily on) b = record b {
    cfg = record b.cfg { auto_resample_subdaily_to_daily = on };
  }
  apply_setting (fetch_strategy strategy) b = record b {
    cfg = record b.cfg { fetch_strategy = strategy };
  }
  apply_setting (merge_history_strategy strategy) b = record b {
    cfg = record b.cfg { merge_history_strategy = strategy };
  }
  apply_setting (provider_timeout timeout) b = record b {
    cfg = record b.cfg { provider_timeout = timeout };
  }
  apply_setting (request_timeout timeout) b = record b {
    cfg = record b.cfg { request_timeout = some timeout };
  }
  apply_setting (backoff c) b = record b { cfg = record b.cfg { backoff = some c } }
  apply_setting (stream_enforce_monotonic_timestamps on) b = record b {
    cfg = record b.cfg { stream_enforce_monotonic_timestamps = on };
  }

  abbrev with_normalized :
      BorsaConfig Symbol AssetKind Exchange
      → ProviderPolicy Symbol AssetKind Exchange
      → BorsaConfig Symbol AssetKind Exchange
  with_normalized cfg providers = record cfg {
    routing_policy = record cfg.routing_policy { providers = providers };
  }

  unfoldable pub build :
      (details : List (Selector Symbol AssetKind Exchange × List String) → String)
      → BorsaBuilder Symbol AssetKind Exchange
      → BorsaError Symbol ⊎ Borsa Symbol AssetKind Exchange
  unfolding normalize_and_collect_unknown
  build details b =
      let checked =
        normalize_and_collect_unknown (names b.connectors) b.cfg.routing_policy.providers in
      if not (is_empty checked.1)
      then inl (invalid_arg (details checked.1))
      else if is_empty b.connectors
      then inl (invalid_arg "no connectors registered; add at least one via with_connector(...)")
      else inr (record { connectors = b.connectors; cfg = with_normalized b.cfg checked.0 })
