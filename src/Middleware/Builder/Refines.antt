-- ===== src/Middleware/Builder/Refines.antt =====
-- What the builder keeps, seen from outside: for each of its three layers whether it is there, and with
-- what configuration.
pub mod RoundTrip
pub mod Custom
use borsa.Prelude.{
  ℕ, ◌*◌, ◌/◌, ◌≤◌, String, ◌≡◌, refl, Option, none, some, List, [], ◌∷◌, ◌++◌, All, sorted_insert,
  sort_by, arith,
}
use borsa.Middleware.Json.{Json, InKeyOrder}
use borsa.Middleware.Builder.{
  Descriptor, ConnectorBuilder, caching, blacklisting, quota_aware, custom, new, with_cache,
  without_cache, with_quota, without_quota, with_blacklist, without_blacklist, layer, default_quota,
  CacheConfig, unwrap_or, without, enforce_ordering, order_key, name,
}
use borsa.Middleware.Builder.Stack.{quota_limit, quota_window, quota_strategy}
use borsa.Quota.{
  QuotaConfig, QuotaConsumptionStrategy, unit, weighted, even_spread_hourly, ns_per_ms, u64_max,
}

pub record Layers : Type 0 where
  pub cache : Option CacheConfig
  pub blacklist : Option ℕ
  pub quota : Option QuotaConfig

abbrev pub no_layers : Layers
no_layers = record { cache = none; blacklist = none; quota = none }

-- The calls of the builder but for `layer`.
pub data Call : Type 0 where
  add_cache : CacheConfig → Call
  drop_cache : Call
  add_blacklist : ℕ → Call
  drop_blacklist : Call
  add_quota : QuotaConfig → Call
  drop_quota : Call
  set_limit : ℕ → Call
  set_window : ℕ → Call
  set_strategy : QuotaConsumptionStrategy → Call

abbrev pub optional {ℓ κ} : {A : Type ℓ} {B : Type κ} → (A → B) → Option A → List B
optional f none = []
optional f (some a) = f a ∷ []

-- A duration that its number of milliseconds gives back.
abbrev pub InMillis : ℕ → Type 0
InMillis d = ((d / ns_per_ms) * ns_per_ms ≡ d) × (d / ns_per_ms ≤ u64_max)

abbrev pub FitsQuota : QuotaConfig → Type 0
FitsQuota cfg = (cfg.limit ≤ u64_max) × InMillis cfg.window

abbrev pub FitsEntries : List (String × ℕ) → Type 0
FitsEntries entries = All (λ e. e.1 ≤ u64_max) entries

abbrev pub FitsCache : CacheConfig → Type 0
FitsCache cfg =
    (cfg.default_ttl_ms ≤ u64_max)
    × (cfg.default_max_entries ≤ u64_max)
    × (cfg.default_negative_ttl_ms ≤ u64_max)
    × FitsEntries cfg.per_capability_ttl_ms
    × FitsEntries cfg.per_capability_max_entries
    × FitsEntries cfg.per_capability_negative_ttl_ms

-- The cache's maps, which are hash maps, stand for themselves as their entries in the order of the
-- keys.
pub record HasOrderedMaps (cfg : CacheConfig) : Type 0 where
  pub ttl : InKeyOrder cfg.per_capability_ttl_ms
  pub max_entries : InKeyOrder cfg.per_capability_max_entries
  pub negative_ttl : InKeyOrder cfg.per_capability_negative_ttl_ms

abbrev pub CallHasOrderedMaps : Call → Type 0
CallHasOrderedMaps (add_cache cfg) = HasOrderedMaps cfg
CallHasOrderedMaps _ = Unit

-- The numbers of a call fit 64 bits and its durations are whole milliseconds.
abbrev pub FitsCall : Call → Type 0
FitsCall (add_cache cfg) = FitsCache cfg
FitsCall drop_cache = Unit
FitsCall (add_blacklist duration) = InMillis duration
FitsCall drop_blacklist = Unit
FitsCall (add_quota cfg) = FitsQuota cfg
FitsCall drop_quota = Unit
FitsCall (set_limit limit) = limit ≤ u64_max
FitsCall (set_window window) = InMillis window
FitsCall (set_strategy strategy) = Unit

abbrev pub FitsIfSet {ℓ} : {A : Type ℓ} → (A → Type 0) → Option A → Type 0
FitsIfSet P none = Unit
FitsIfSet P (some a) = P a

abbrev pub FitsLayers : Layers → Type 0
FitsLayers l =
    FitsIfSet FitsCache l.cache × FitsIfSet InMillis l.blacklist × FitsIfSet FitsQuota l.quota

abbrev pub quota_of : Layers → QuotaConfig
quota_of l = unwrap_or default_quota l.quota

-- What a call does to the layers.
unfoldable pub on_layers : Call → Layers → Layers
on_layers (add_cache cfg) l = record l { cache = some cfg }
on_layers drop_cache l = record l { cache = none }
on_layers (add_blacklist duration) l = record l { blacklist = some duration }
on_layers drop_blacklist l = record l { blacklist = none }
on_layers (add_quota cfg) l = record l { quota = some cfg }
on_layers drop_quota l = record l { quota = none }
on_layers (set_limit limit) l = record l { quota = some (record (quota_of l) { limit = limit }) }
on_layers (set_window window) l = record l {
  quota = some (record (quota_of l) { window = window });
}
on_layers (set_strategy strategy) l = record l {
  quota = some (record (quota_of l) { strategy = strategy });
}

module _ {Value : Type 0} where
  -- The cache outermost, then the blacklist, then the quota.
  abbrev pub stacked : Layers → List (Descriptor Value)
  stacked l =
      optional caching l.cache
      ++ (optional blacklisting l.blacklist ++ optional quota_aware l.quota)

  pub with_cache-stacked :
      (c : Option CacheConfig) (d : Option ℕ) (q : Option QuotaConfig) (raw : String)
      (cfg : CacheConfig)
      → with_cache cfg
          (record { raw = raw; layers = stacked (record { cache = c; blacklist = d; quota = q }) })
        ≡ record {
          raw = raw;
          layers = stacked (record { cache = some cfg; blacklist = d; quota = q });
        }
  unfolding with_cache without enforce_ordering order_key name sort_by sorted_insert
  with_cache-stacked c d q raw cfg = ground arith

  pub with_quota-stacked :
      (c : Option CacheConfig) (d : Option ℕ) (q : Option QuotaConfig) (raw : String)
      (cfg : QuotaConfig)
      → with_quota cfg
          (record { raw = raw; layers = stacked (record { cache = c; blacklist = d; quota = q }) })
        ≡ record {
          raw = raw;
          layers = stacked (record { cache = c; blacklist = d; quota = some cfg });
        }
  unfolding with_quota without enforce_ordering order_key name sort_by sorted_insert
  with_quota-stacked c d q raw cfg = ground arith

  pub with_blacklist-stacked :
      (c : Option CacheConfig) (d : Option ℕ) (q : Option QuotaConfig) (raw : String) (duration : ℕ)
      → with_blacklist duration
          (record { raw = raw; layers = stacked (record { cache = c; blacklist = d; quota = q }) })
        ≡ record {
          raw = raw;
          layers = stacked (record { cache = c; blacklist = some duration; quota = q });
        }
  unfolding with_blacklist without enforce_ordering order_key name sort_by sorted_insert
  with_blacklist-stacked c d q raw duration = ground arith

  pub without-stacked :
      (c : Option CacheConfig) (d : Option ℕ) (q : Option QuotaConfig)
      → (without "CachingMiddleware" (stacked (record { cache = c; blacklist = d; quota = q }))
          ≡ stacked (record { cache = none; blacklist = d; quota = q }))
        × (without "BlacklistConnector" (stacked (record { cache = c; blacklist = d; quota = q }))
            ≡ stacked (record { cache = c; blacklist = none; quota = q }))
        × (without "QuotaAwareConnector" (stacked (record { cache = c; blacklist = d; quota = q }))
            ≡ stacked (record { cache = c; blacklist = d; quota = none }))
  unfolding without name
  without-stacked c d q = (ground arith, ground arith, ground arith)

  -- The builder of some layers.
  abbrev pub built : String → Layers → ConnectorBuilder Value
  built raw l = record { raw = raw; layers = stacked l }

  unfoldable pub perform : Json Value → Call → ConnectorBuilder Value → ConnectorBuilder Value
  unfolding with_cache without_cache with_blacklist without_blacklist with_quota without_quota
      quota_limit quota_window quota_strategy
  perform json (add_cache cfg) b = with_cache cfg b
  perform json drop_cache b = without_cache b
  perform json (add_blacklist duration) b = with_blacklist duration b
  perform json drop_blacklist b = without_blacklist b
  perform json (add_quota cfg) b = with_quota cfg b
  perform json drop_quota b = without_quota b
  perform json (set_limit limit) b = quota_limit json limit b
  perform json (set_window window) b = quota_window json window b
  perform json (set_strategy strategy) b = quota_strategy json strategy b

  unfoldable pub perform_all :
      Json Value → List Call → ConnectorBuilder Value → ConnectorBuilder Value
  unfolding perform
  perform_all json [] b = b
  perform_all json (call ∷ calls) b = perform_all json calls (perform json call b)

unfoldable pub on_layers_all : List Call → Layers → Layers
unfolding on_layers
on_layers_all [] l = l
on_layers_all (call ∷ calls) l = on_layers_all calls (on_layers call l)
