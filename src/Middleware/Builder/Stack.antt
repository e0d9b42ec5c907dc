-- ===== src/Middleware/Builder/Stack.antt =====
-- `to_stack` and `from_stack`: the configurations of the layers as JSON, and back. The entries of a
-- hash map are written as an object and read from it in any order.
pub mod Reads
use borsa.Prelude.{
  string_eq, ℕ, ◌*◌, ◌/◌, String, Option, none, some, List, [], ◌∷◌, ◌++◌, if◌then◌else◌, ◌>>=◌, eq,
}
use borsa.Middleware.Json.{Json, member}
use borsa.Middleware.Builder.{
  Descriptor, ConnectorBuilder, caching, blacklisting, quota_aware, custom, with_quota,
  enforce_ordering, unwrap_or, CacheConfig, name, MiddlewareLayer, strategy_name, strategy_or,
  default_quota,
}
use borsa.Quota.{QuotaConfig, QuotaConsumptionStrategy, unit, ns_per_ms}

module _ {Value : Type 0} (json : Json Value) where
  abbrev pub numbers : List (String × ℕ) → List (String × Value)
  numbers [] = []
  numbers ((k, n) ∷ entries) = (k, json.number n) ∷ numbers entries

  abbrev pub with_entry : String → Option ℕ → List (String × ℕ) → List (String × ℕ)
  with_entry k none rest = rest
  with_entry k (some n) rest = (k, n) ∷ rest

  -- `filter_map` by `as_u64`.
  abbrev pub entries_of : List (String × Value) → List (String × ℕ)
  entries_of [] = []
  entries_of ((k, v) ∷ entries) = with_entry k (json.as_u64 v) (entries_of entries)

  abbrev pub cache_entries : CacheConfig → List (String × Value)
  cache_entries cfg =
      ("default_ttl_ms", json.number cfg.default_ttl_ms)
      ∷ ("default_max_entries", json.number cfg.default_max_entries)
      ∷ ("per_capability_ttl_ms", json.object (numbers cfg.per_capability_ttl_ms))
      ∷ ("per_capability_max_entries", json.object (numbers cfg.per_capability_max_entries))
      ∷ ("default_negative_ttl_ms", json.number cfg.default_negative_ttl_ms)
      ∷ ("per_capability_negative_ttl_ms", json.object (numbers cfg.per_capability_negative_ttl_ms))
      ∷ []

  abbrev pub blacklist_entries : ℕ → List (String × Value)
  blacklist_entries duration = ("default_duration_ms", json.number (duration / ns_per_ms)) ∷ []

  abbrev pub quota_entries : QuotaConfig → List (String × Value)
  quota_entries cfg =
      ("limit", json.number cfg.limit)
      ∷ ("window_ms", json.number (cfg.window / ns_per_ms))
      ∷ ("strategy", json.text (strategy_name cfg.strategy))
      ∷ []

  unfoldable pub config_json : Descriptor Value → Value
  config_json (caching cfg) = json.object (cache_entries cfg)
  config_json (blacklisting duration) = json.object (blacklist_entries duration)
  config_json (quota_aware cfg) = json.object (quota_entries cfg)
  config_json (custom n config) = config

  abbrev pub number_or : ℕ → Value → String → ℕ
  number_or other config key = unwrap_or other (member json config key >>= json.as_u64)

  abbrev pub numbers_at : Value → String → List (String × ℕ)
  numbers_at config key = entries_of (unwrap_or [] (member json config key >>= json.as_object))

  unfoldable pub parse_cache_config_from : Value → CacheConfig
  parse_cache_config_from config = record {
    default_ttl_ms = number_or 300_000 config "default_ttl_ms";
    per_capability_ttl_ms = numbers_at config "per_capability_ttl_ms";
    default_max_entries = number_or 2000 config "default_max_entries";
    per_capability_max_entries = numbers_at config "per_capability_max_entries";
    default_negative_ttl_ms = number_or 60_000 config "default_negative_ttl_ms";
    per_capability_negative_ttl_ms = numbers_at config "per_capability_negative_ttl_ms";
  }

  unfoldable pub parse_quota_config_from : Value → QuotaConfig
  parse_quota_config_from config = record {
    limit = number_or 1 config "limit";
    window = number_or 60_000 config "window_ms" * ns_per_ms;
    strategy = strategy_or unit (member json config "strategy" >>= json.as_str);
  }

  unfoldable pub parse_blacklist_duration_from : Value → ℕ
  parse_blacklist_duration_from config = number_or 300_000 config "default_duration_ms" * ns_per_ms

  -- The configuration of a layer by the name of the quota, with the defaults of `QuotaConfig`.
  unfoldable pub existing_quota_config : List (Descriptor Value) → Option QuotaConfig
  unfolding name config_json
  existing_quota_config [] = none
  existing_quota_config (d ∷ layers) =
      if eq (name d) "QuotaAwareConnector"
      then some (record {
        limit = number_or default_quota.limit (config_json d) "limit";
        window = number_or 60_000 (config_json d) "window_ms" * ns_per_ms;
        strategy =
            strategy_or default_quota.strategy
              (member json (config_json d) "strategy" >>= json.as_str);
      })
      else existing_quota_config layers

  unfoldable pub quota_or_default : ConnectorBuilder Value → QuotaConfig
  unfolding existing_quota_config
  quota_or_default b = unwrap_or default_quota (existing_quota_config b.layers)

  unfoldable pub quota_limit : ℕ → ConnectorBuilder Value → ConnectorBuilder Value
  unfolding with_quota quota_or_default
  quota_limit limit b = with_quota (record (quota_or_default b) { limit = limit }) b

  unfoldable pub quota_window : ℕ → ConnectorBuilder Value → ConnectorBuilder Value
  unfolding with_quota quota_or_default
  quota_window window b = with_quota (record (quota_or_default b) { window = window }) b

  unfoldable pub quota_strategy :
      QuotaConsumptionStrategy → ConnectorBuilder Value → ConnectorBuilder Value
  unfolding with_quota quota_or_default
  quota_strategy strategy b = with_quota (record (quota_or_default b) { strategy = strategy }) b

  unfoldable pub described : List (Descriptor Value) → List (MiddlewareLayer Value)
  unfolding name config_json
  described [] = []
  described (d ∷ layers) = record { name = name d; config = config_json d } ∷ described layers

  unfoldable pub to_stack : ConnectorBuilder Value → List (MiddlewareLayer Value)
  unfolding described
  to_stack b =
      described b.layers
      ++ record { name = "RawConnector"; config = json.object (("name", json.text b.raw) ∷ []) }
        ∷ []

  unfoldable pub descriptor_from_layer : MiddlewareLayer Value → Option (Descriptor Value)
  unfolding parse_cache_config_from parse_quota_config_from parse_blacklist_duration_from
  descriptor_from_layer l =
      if eq l.name "CachingMiddleware"
      then some (caching (parse_cache_config_from l.config))
      else if eq l.name "QuotaAwareConnector"
      then some (quota_aware (parse_quota_config_from l.config))
      else if eq l.name "BlacklistConnector"
      then some (blacklisting (parse_blacklist_duration_from l.config))
      else none

  abbrev pub with_known :
      Option (Descriptor Value) → List (Descriptor Value) → List (Descriptor Value)
  with_known none rest = rest
  with_known (some d) rest = d ∷ rest

  unfoldable pub known_layers : List (MiddlewareLayer Value) → List (Descriptor Value)
  unfolding descriptor_from_layer
  known_layers [] = []
  known_layers (l ∷ stack) = with_known (descriptor_from_layer l) (known_layers stack)

  unfoldable pub from_stack : String → List (MiddlewareLayer Value) → ConnectorBuilder Value
  unfolding enforce_ordering known_layers
  from_stack raw stack = record { raw = raw; layers = enforce_ordering (known_layers stack) }
