-- ===== src/Router/Config.antt =====
-- borsa-types/src/config.rs: the configuration of the orchestrator. Durations are in milliseconds.
use borsa.Prelude.{ℕ, Bool, true, false, Option, none}
use borsa.Routing.Policy.{RoutingPolicy}
use borsa.Routing.Builder.{default_policy}

pub data FetchStrategy : Type 0 where
  priority_with_fallback : FetchStrategy
  latency : FetchStrategy

pub data MergeStrategy : Type 0 where
  deep : MergeStrategy
  fallback : MergeStrategy

-- `Resampling::None` is `keep`.
pub data Resampling : Type 0 where
  keep : Resampling
  daily : Resampling
  weekly : Resampling

pub record BackoffConfig : Type 0 where
  pub min_backoff_ms : ℕ
  pub max_backoff_ms : ℕ
  pub factor : ℕ
  pub jitter_percent : ℕ

pub record BorsaConfig (Symbol AssetKind Exchange : Type 0) : Type 0 where
  pub routing_policy : RoutingPolicy Symbol AssetKind Exchange
  pub prefer_adjusted_history : Bool
  pub resampling : Resampling
  pub auto_resample_subdaily_to_daily : Bool
  pub fetch_strategy : FetchStrategy
  pub merge_history_strategy : MergeStrategy
  pub provider_timeout : ℕ
  pub request_timeout : Option ℕ
  pub backoff : Option BackoffConfig
  pub stream_enforce_monotonic_timestamps : Bool

module _ {Symbol AssetKind Exchange : Type 0} where
  abbrev pub default_config : BorsaConfig Symbol AssetKind Exchange
  default_config = record {
    routing_policy = default_policy;
    prefer_adjusted_history = false;
    resampling = keep;
    auto_resample_subdaily_to_daily = false;
    fetch_strategy = priority_with_fallback;
    merge_history_strategy = deep;
    provider_timeout = 5000;
    request_timeout = none;
    backoff = none;
    stream_enforce_monotonic_timestamps = true;
  }
