-- ===== src/Middleware/Builder/Refines/RoundTrip.antt =====
-- The builder's calls and its description as a stack, against the layers seen from outside.
use borsa.Quota.{QuotaConfig}
use borsa.Prelude.{
  ℕ, String, ◌≡◌, refl, ap, ◌∙◌, Option, none, some, arith, List, [], ◌∷◌, All, sorted_insert,
  sort_by, ap₂, ◌++◌, All-append,
}
use borsa.Middleware.Json.{Json}
use borsa.Middleware.Builder.{
  custom, Descriptor, new, default_quota, name, without_cache, CacheConfig, without_blacklist,
  without_quota, unwrap_or, with_quota, enforce_ordering, order_key, MiddlewareLayer, caching,
  blacklisting, quota_aware, unit,
}
use borsa.Middleware.Builder.Stack.{
  existing_quota_config, quota_limit, quota_window, quota_strategy, from_stack, to_stack,
  descriptor_from_layer, parse_quota_config_from, parse_blacklist_duration_from, config_json,
  known_layers, described, with_known, quota_or_default,
}
use borsa.Middleware.Builder.Stack.Reads.{quota_read, cache_read, blacklist_read}
use borsa.Middleware.Builder.Refines.{
  add_cache, drop_cache, add_blacklist, drop_blacklist, add_quota, drop_quota, set_limit,
  set_window, set_strategy, Layers, Call, built, perform, on_layers, FitsQuota, FitsLayers,
  FitsCall, FitsIfSet, stacked, with_cache-stacked, perform_all, without-stacked, on_layers_all,
  with_blacklist-stacked, no_layers, with_quota-stacked, optional, FitsCache, InMillis,
  CallHasOrderedMaps, HasOrderedMaps,
}

default-FitsQuota : FitsQuota default_quota
default-FitsQuota = omega arith

unwrap_or-FitsQuota :
    (q : Option QuotaConfig) → FitsIfSet FitsQuota q → FitsQuota (unwrap_or default_quota q)
unwrap_or-FitsQuota none h = default-FitsQuota
unwrap_or-FitsQuota (some q) h = h

on_layers-FitsLayers :
    (call : Call) (l : Layers) → FitsCall call → FitsLayers l → FitsLayers (on_layers call l)
unfolding on_layers
on_layers-FitsLayers (add_cache cfg) l f (c, b, q) = (f, b, q)
on_layers-FitsLayers drop_cache l f (c, b, q) = (tt, b, q)
on_layers-FitsLayers (add_blacklist duration) l f (c, b, q) = (c, f, q)
on_layers-FitsLayers drop_blacklist l f (c, b, q) = (c, tt, q)
on_layers-FitsLayers (add_quota cfg) l f (c, b, q) = (c, b, f)
on_layers-FitsLayers drop_quota l f (c, b, q) = (c, b, tt)
on_layers-FitsLayers (set_limit limit) l f (c, b, q) =
    (c, b, (f, (unwrap_or-FitsQuota l.quota q).1))
on_layers-FitsLayers (set_window window) l f (c, b, q) =
    (c, b, ((unwrap_or-FitsQuota l.quota q).0, f))
on_layers-FitsLayers (set_strategy strategy) l f (c, b, q) = (c, b, unwrap_or-FitsQuota l.quota q)

on_layers-HasOrderedMaps :
    (call : Call) (l : Layers)
    → CallHasOrderedMaps call
    → FitsIfSet HasOrderedMaps l.cache
    → FitsIfSet HasOrderedMaps (on_layers call l).cache
unfolding on_layers
on_layers-HasOrderedMaps (add_cache cfg) l o h = o
on_layers-HasOrderedMaps drop_cache l o h = tt
on_layers-HasOrderedMaps (add_blacklist duration) l o h = h
on_layers-HasOrderedMaps drop_blacklist l o h = h
on_layers-HasOrderedMaps (add_quota cfg) l o h = h
on_layers-HasOrderedMaps drop_quota l o h = h
on_layers-HasOrderedMaps (set_limit limit) l o h = h
on_layers-HasOrderedMaps (set_window window) l o h = h
on_layers-HasOrderedMaps (set_strategy strategy) l o h = h

on_layers_all-HasOrderedMaps :
    (calls : List Call) (l : Layers)
    → All CallHasOrderedMaps calls
    → FitsIfSet HasOrderedMaps l.cache
    → FitsIfSet HasOrderedMaps (on_layers_all calls l).cache
unfolding on_layers_all
on_layers_all-HasOrderedMaps [] l o h = h
on_layers_all-HasOrderedMaps (call ∷ calls) l o h =
    on_layers_all-HasOrderedMaps calls (on_layers call l) o.1
      (on_layers-HasOrderedMaps call l o.0 h)

optional-All :
    {A B : Type 0} (f : A → B) (P : A → Type 0) (Q : B → Type 0) (o : Option A)
    → ((a : A) → P a → Q (f a))
    → FitsIfSet P o
    → All Q (optional f o)
optional-All f P Q none h k = tt
optional-All f P Q (some a) h k = (h a k, tt)

module _ {Value : Type 0} (json : Json Value) where
  existing-stacked :
      (c : Option CacheConfig) (d : Option ℕ) (q : Option QuotaConfig)
      → FitsIfSet FitsQuota q
      → existing_quota_config json (stacked (record { cache = c; blacklist = d; quota = q })) ≡ q
  unfolding existing_quota_config name
  existing-stacked none none none h = refl
  existing-stacked none (some d) none h = refl
  existing-stacked (some c) none none h = refl
  existing-stacked (some c) (some d) none h = refl
  existing-stacked none none (some q) h = ap some (quota_read json q _ _ _ h)
  existing-stacked none (some d) (some q) h = ap some (quota_read json q _ _ _ h)
  existing-stacked (some c) none (some q) h = ap some (quota_read json q _ _ _ h)
  existing-stacked (some c) (some d) (some q) h = ap some (quota_read json q _ _ _ h)

  perform-built :
      (call : Call) (raw : String) (l : Layers)
      → FitsLayers l
      → perform json call (built raw l) ≡ built raw (on_layers call l)
  unfolding perform on_layers without_cache without_blacklist without_quota quota_limit quota_window
      quota_strategy quota_or_default existing_quota_config
  perform-built (add_cache cfg) raw l h = with_cache-stacked l.cache l.blacklist l.quota raw cfg
  perform-built drop_cache raw l h =
      ap (λ ls. record { raw = raw; layers = ls }) (without-stacked l.cache l.blacklist l.quota).0
  perform-built (add_blacklist duration) raw l h =
      with_blacklist-stacked l.cache l.blacklist l.quota raw duration
  perform-built drop_blacklist raw l h =
      ap (λ ls. record { raw = raw; layers = ls }) (without-stacked l.cache l.blacklist l.quota).1
  perform-built (add_quota cfg) raw l h = with_quota-stacked l.cache l.blacklist l.quota raw cfg
  perform-built drop_quota raw l h =
      ap (λ ls. record { raw = raw; layers = ls }) (without-stacked l.cache l.blacklist l.quota).2
  perform-built (set_limit limit) raw l h =
      ap (λ q. with_quota (record (unwrap_or default_quota q) { limit = limit }) (built raw l))
        (existing-stacked l.cache l.blacklist l.quota h.2)
      ∙ with_quota-stacked l.cache l.blacklist l.quota raw _
  perform-built (set_window window) raw l h =
      ap (λ q. with_quota (record (unwrap_or default_quota q) { window = window }) (built raw l))
        (existing-stacked l.cache l.blacklist l.quota h.2)
      ∙ with_quota-stacked l.cache l.blacklist l.quota raw _
  perform-built (set_strategy strategy) raw l h =
      ap
        (λ q. with_quota (record (unwrap_or default_quota q) { strategy = strategy }) (built raw l))
        (existing-stacked l.cache l.blacklist l.quota h.2)
      ∙ with_quota-stacked l.cache l.blacklist l.quota raw _

  pub perform_all-built :
      (calls : List Call) (raw : String) (l : Layers)
      → All FitsCall calls
      → FitsLayers l
      → (perform_all json calls (built raw l) ≡ built raw (on_layers_all calls l))
        × FitsLayers (on_layers_all calls l)
  unfolding perform_all on_layers_all
  perform_all-built [] raw l f h = (refl, h)
  perform_all-built (call ∷ calls) raw l (f, fs) h =
      let ih =
        perform_all-built calls raw (on_layers call l) fs (on_layers-FitsLayers call l f h) in
      (ap (perform_all json calls) (perform-built call raw l h) ∙ ih.0, ih.1)

  -- The builder, whatever its calls of the helpers, holds at most one cache, one blacklist and one
  -- quota, in this order from the outermost (the texts of `with_quota` and `with_blacklist` promise
  -- the outermost place for those), each with the configuration that the calls set last: the
  -- setters of the quota change one field of the quota that is there, or of the default one. The
  -- numbers of the calls fit 64 bits and their durations are whole milliseconds.
  pub perform_all-refines :
      (calls : List Call) (raw : String)
      → All FitsCall calls
      → perform_all json calls (new raw) ≡ built raw (on_layers_all calls no_layers)
  unfolding new
  perform_all-refines calls raw f = (perform_all-built calls raw no_layers f (tt, tt, tt)).0

  -- The layer is one of the three, with numbers that fit.
  abbrev FitsDescriptor : Descriptor Value → Type 0
  FitsDescriptor (caching cfg) = FitsCache cfg × HasOrderedMaps cfg
  FitsDescriptor (blacklisting duration) = InMillis duration
  FitsDescriptor (quota_aware cfg) = FitsQuota cfg
  FitsDescriptor (custom n config) = ⊥

  both-FitsIfSet :
      (o : Option CacheConfig)
      → FitsIfSet FitsCache o
      → FitsIfSet HasOrderedMaps o
      → FitsIfSet (λ cfg. FitsCache cfg × HasOrderedMaps cfg) o
  both-FitsIfSet none h k = tt
  both-FitsIfSet (some cfg) h k = (h, k)

  stacked-FitsDescriptor :
      (l : Layers)
      → FitsLayers l
      → FitsIfSet HasOrderedMaps l.cache
      → All FitsDescriptor (stacked l)
  stacked-FitsDescriptor l (c, b, q) o =
      All-append FitsDescriptor (optional caching l.cache) _
        (optional-All caching (λ cfg. FitsCache cfg × HasOrderedMaps cfg) FitsDescriptor l.cache
          (λ a h. h) (both-FitsIfSet l.cache c o))
        (All-append FitsDescriptor (optional blacklisting l.blacklist) _
          (optional-All blacklisting InMillis FitsDescriptor l.blacklist (λ a h. h) b)
          (optional-All quota_aware FitsQuota FitsDescriptor l.quota (λ a h. h) q))

  descriptor_from_layer-described :
      (d : Descriptor Value)
      → FitsDescriptor d
      → descriptor_from_layer json (record { name = name d; config = config_json json d }) ≡ some d
  unfolding descriptor_from_layer name parse_quota_config_from parse_blacklist_duration_from
  descriptor_from_layer-described (caching cfg) f =
      ap (λ c. some (caching c)) (cache_read json cfg f.0 f.1)
  descriptor_from_layer-described (blacklisting duration) f =
      ap (λ d. some (blacklisting d)) (blacklist_read json duration 300_000 f)
  descriptor_from_layer-described (quota_aware cfg) f =
      ap (λ c. some (quota_aware c)) (quota_read json cfg 1 60_000 unit f)
  descriptor_from_layer-described (custom n config) f = absurd f

  known_layers-described :
      (ds : List (Descriptor Value)) (rest : List (MiddlewareLayer Value))
      → All FitsDescriptor ds
      → known_layers json (described json ds ++ rest) ≡ ds ++ known_layers json rest
  unfolding known_layers described
  known_layers-described [] rest f = refl
  known_layers-described (d ∷ ds) rest (f, fs) =
      ap₂ (with_known json) (descriptor_from_layer-described d f)
        (known_layers-described ds rest fs)

  enforce_ordering-stacked :
      (c : Option CacheConfig) (d : Option ℕ) (q : Option QuotaConfig)
      → enforce_ordering {Value = Value}
          (stacked (record { cache = c; blacklist = d; quota = q }) ++ [])
        ≡ stacked (record { cache = c; blacklist = d; quota = q })
  unfolding enforce_ordering order_key name sort_by sorted_insert
  enforce_ordering-stacked c d q = ground arith

  from_stack-built :
      (raw : String) (l : Layers)
      → FitsLayers l
      → FitsIfSet HasOrderedMaps l.cache
      → from_stack json raw (to_stack json (built raw l)) ≡ built raw l
  unfolding from_stack to_stack known_layers descriptor_from_layer
  from_stack-built raw l f o =
      ap (λ ds. record { raw = raw; layers = ds })
        (ap enforce_ordering (known_layers-described (stacked l) _ (stacked-FitsDescriptor l f o))
          ∙ enforce_ordering-stacked l.cache l.blacklist l.quota)

  -- A builder that the helpers' calls made is what `from_stack` makes of its stack. The numbers of
  -- the calls fit 64 bits, their durations are whole milliseconds, and the hash maps of their caches
  -- are given by their entries in the order of the keys.
  pub from_stack-to_stack :
      (calls : List Call) (raw : String)
      → All FitsCall calls
      → All CallHasOrderedMaps calls
      → from_stack json raw (to_stack json (perform_all json calls (new raw)))
        ≡ perform_all json calls (new raw)
  unfolding new
  from_stack-to_stack calls raw f o =
      let h = perform_all-built calls raw no_layers f (tt, tt, tt) in
      rw h.0 (
        from_stack-built raw (on_layers_all calls no_layers) h.1
          (on_layers_all-HasOrderedMaps calls no_layers o tt))
