-- ===== src/Middleware/Builder/Stack/Reads.antt =====
-- What is read from the configuration that a layer writes.
use borsa.Middleware.Builder.Refines.{FitsEntries, FitsQuota, InMillis, FitsCache, HasOrderedMaps}
use borsa.Prelude.{
  string_eq, ℕ, ◌*◌, ◌/◌, ◌≤◌, String, ◌≡◌, refl, ap, ◌∙◌, some, List, [], ◌∷◌, ◌>>=◌, true,
}
use borsa.Prelude.Maps.{get}
use borsa.Middleware.Json.{Json, member, keys_differ, InKeyOrder}
use borsa.Middleware.Builder.{
  caching, blacklisting, quota_aware, strategy_or, strategy_name, CacheConfig, unwrap_or,
}
use borsa.Middleware.Builder.Stack.{
  config_json, number_or, numbers, numbers_at, entries_of, parse_cache_config_from, quota_entries,
  blacklist_entries, cache_entries,
}
use borsa.Quota.{
  QuotaConfig, QuotaConsumptionStrategy, unit, weighted, even_spread_hourly, u64_max, ns_per_ms,
}

strategy_or-name :
    (other s : QuotaConsumptionStrategy) → strategy_or other (some (strategy_name s)) ≡ s
strategy_or-name other unit = refl
strategy_or-name other weighted = refl
strategy_or-name other even_spread_hourly = refl

module _ {Value : Type 0} (json : Json Value) where
  member-object :
      (entries : List (String × Value)) (key : String) (v : Value)
      → keys_differ entries ≡ true
      → get entries key ≡ some v
      → member json (json.object entries) key ≡ some v
  member-object entries key v u h = json.get-object entries key u ∙ h

  number_or-object :
      (other n : ℕ) (entries : List (String × Value)) (key : String)
      → keys_differ entries ≡ true
      → get entries key ≡ some (json.number n)
      → n ≤ u64_max
      → number_or json other (json.object entries) key ≡ n
  number_or-object other n entries key u h b =
      ap (λ o. unwrap_or other (o >>= json.as_u64)) (member-object entries key (json.number n) u h)
      ∙ ap (unwrap_or other) (json.as_u64-number n b)

  numbers-InKeyOrder :
      (entries : List (String × ℕ)) → InKeyOrder entries → InKeyOrder (numbers json entries)
  numbers-InKeyOrder [] h = tt
  numbers-InKeyOrder (x ∷ []) h = tt
  numbers-InKeyOrder (x ∷ y ∷ rest) h = (h.0, numbers-InKeyOrder (y ∷ rest) h.1)

  entries_of-numbers :
      (entries : List (String × ℕ))
      → FitsEntries entries
      → entries_of json (numbers json entries) ≡ entries
  entries_of-numbers [] h = refl
  entries_of-numbers ((k, n) ∷ entries) (b, h) =
      rw (json.as_u64-number n b) (ap (λ r. (k, n) ∷ r) (entries_of-numbers entries h))

  numbers_at-object :
      (ns : List (String × ℕ)) (entries : List (String × Value)) (key : String)
      → keys_differ entries ≡ true
      → get entries key ≡ some (json.object (numbers json ns))
      → FitsEntries ns
      → InKeyOrder ns
      → numbers_at json (json.object entries) key ≡ ns
  numbers_at-object ns entries key u h b o =
      ap (λ v. entries_of json (unwrap_or [] (v >>= json.as_object)))
        (member-object entries key (json.object (numbers json ns)) u h)
      ∙ ap (λ v. entries_of json (unwrap_or [] v))
          (json.as_object-object (numbers json ns) (numbers-InKeyOrder ns o))
      ∙ entries_of-numbers ns b

  strategy_read :
      (other : QuotaConsumptionStrategy) (cfg : QuotaConfig)
      → strategy_or other
          (member json (config_json json (quota_aware cfg)) "strategy" >>= json.as_str)
        ≡ cfg.strategy
  unfolding config_json get
  strategy_read other cfg =
      ap (λ o. strategy_or other (o >>= json.as_str))
        (member-object (quota_entries json cfg) "strategy" (json.text (strategy_name cfg.strategy))
          refl refl)
      ∙ ap (strategy_or other) (json.as_str-text (strategy_name cfg.strategy))
      ∙ strategy_or-name other cfg.strategy

  -- The numbers and the strategy of the quota, whatever the defaults of the reader.
  pub quota_read :
      (cfg : QuotaConfig) (limit window_ms : ℕ) (strategy : QuotaConsumptionStrategy)
      → FitsQuota cfg
      → record {
        limit = number_or json limit (config_json json (quota_aware cfg)) "limit";
        window =
            number_or json window_ms (config_json json (quota_aware cfg)) "window_ms" * ns_per_ms;
        strategy =
            strategy_or strategy
              (member json (config_json json (quota_aware cfg)) "strategy" >>= json.as_str);
      }
        ≡ cfg
  unfolding config_json get
  quota_read cfg limit window_ms strategy (b, (e, w)) = λ i. record {
    limit = number_or-object limit cfg.limit (quota_entries json cfg) "limit" refl refl b i;
    window =
        (ap (λ n. n * ns_per_ms)
              (number_or-object window_ms (cfg.window / ns_per_ms) (quota_entries json cfg)
                "window_ms" refl refl w)
            ∙ e)
          i;
    strategy = strategy_read strategy cfg i;
  }

  pub blacklist_read :
      (duration other : ℕ)
      → InMillis duration
      → number_or json other (config_json json (blacklisting duration)) "default_duration_ms"
          * ns_per_ms
        ≡ duration
  unfolding config_json get
  blacklist_read duration other (e, b) =
      ap (λ n. n * ns_per_ms)
        (number_or-object other (duration / ns_per_ms) (blacklist_entries json duration)
          "default_duration_ms" refl refl b)
      ∙ e

  pub cache_read :
      (cfg : CacheConfig)
      → FitsCache cfg
      → HasOrderedMaps cfg
      → parse_cache_config_from json (config_json json (caching cfg)) ≡ cfg
  unfolding parse_cache_config_from config_json get
  cache_read cfg (a, b, c, d, e, f) o = λ i. record {
    default_ttl_ms =
        number_or-object 300_000 cfg.default_ttl_ms (cache_entries json cfg) "default_ttl_ms" refl
          refl a i;
    per_capability_ttl_ms =
        numbers_at-object cfg.per_capability_ttl_ms (cache_entries json cfg) "per_capability_ttl_ms"
          refl refl d o.ttl i;
    default_max_entries =
        number_or-object 2000 cfg.default_max_entries (cache_entries json cfg) "default_max_entries"
          refl refl b i;
    per_capability_max_entries =
        numbers_at-object cfg.per_capability_max_entries (cache_entries json cfg)
          "per_capability_max_entries" refl refl e o.max_entries i;
    default_negative_ttl_ms =
        number_or-object 60_000 cfg.default_negative_ttl_ms (cache_entries json cfg)
          "default_negative_ttl_ms" refl refl c i;
    per_capability_negative_ttl_ms =
        numbers_at-object cfg.per_capability_negative_ttl_ms (cache_entries json cfg)
          "per_capability_negative_ttl_ms" refl refl f o.negative_ttl i;
  }
