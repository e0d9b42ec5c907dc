-- ===== src/Middleware/Builder/Refines/Custom.antt =====
-- What becomes of a layer that the caller brings.
use borsa.Middleware.Builder.Refines.RoundTrip.{perform_all-refines}
use borsa.Quota.{QuotaConfig}
use borsa.Prelude.{
  string_eq, ℕ, String, ◌≡◌, false, Option, some, List, [], ◌∷◌, ◌++◌, arith, eq, All,
  sorted_insert, sort_by,
}
use borsa.Middleware.Json.{Json}
use borsa.Middleware.Builder.{
  custom, layer, with_quota, new, without, enforce_ordering, order_key, name, CacheConfig,
}
use borsa.Middleware.Builder.Refines.{
  Call, add_quota, perform_all, on_layers, on_layers_all, built, FitsCall, stacked, no_layers,
}

-- The name is none of the three that the builder knows.
abbrev pub IsOwnName : String → Type 0
IsOwnName n =
    (eq n "CachingMiddleware" ≡ false)
    × (eq n "BlacklistConnector" ≡ false)
    × (eq n "QuotaAwareConnector" ≡ false)

module _ {Value : Type 0} where
  custom-stacked :
      (c : Option CacheConfig) (d : Option ℕ) (q : Option QuotaConfig) (raw n : String)
      (config : Value) (cfg : QuotaConfig)
      → IsOwnName n
      → (with_quota cfg
          (layer n config (built raw (record { cache = c; blacklist = d; quota = q })))).layers
        ≡ stacked (record { cache = c; blacklist = d; quota = some cfg }) ++ custom n config ∷ []
  unfolding with_quota layer without enforce_ordering order_key name sort_by sorted_insert
  custom-stacked c d q raw n config cfg (e, f, g) = ground arith

  -- A layer of another name that the caller puts outermost is innermost after the next call of
  -- `with_quota`, whatever calls of the helpers came before. The numbers of those calls fit 64
  -- bits and their durations are whole milliseconds.
  pub layer-moved_innermost :
      (json : Json Value) (calls : List Call) (raw n : String) (config : Value) (cfg : QuotaConfig)
      → All FitsCall calls
      → IsOwnName n
      → (with_quota cfg (layer n config (perform_all json calls (new raw)))).layers
        ≡ stacked (on_layers (add_quota cfg) (on_layers_all calls no_layers))
          ++ custom n config ∷ []
  unfolding on_layers
  layer-moved_innermost json calls raw n config cfg f h =
      let l = on_layers_all calls no_layers in
      rw (perform_all-refines json calls raw f)
        (custom-stacked l.cache l.blacklist l.quota raw n config cfg h)
