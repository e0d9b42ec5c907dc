-- ===== src/Examples/Layers.antt =====
-- The connector builder over a small type of JSON values, whose objects are in the order of their keys.
use borsa.Middleware.Builder.Onion.{connector_of, all_accept, nested, build-nested}
use borsa.Middleware.Builder.Refines.Custom.{IsOwnName, layer-moved_innermost}
use borsa.Middleware.Builder.Refines.RoundTrip.{from_stack-to_stack, perform_all-refines}
use borsa.Quota.{QuotaConfig, even_spread_hourly}
use borsa.Prelude.Maps.{get}
use borsa.Prelude.{
  string_eq, ℕ, String, ◌≡◌, refl, ap, Option, none, some, List, [], ◌∷◌, ◌++◌, arith, ◌==◌,
  if◌then◌else◌, All, sorted_insert, sort_by, ◌∙◌, Bool, ◌||◌, eq, eq_iff_path,
}
use borsa.Middleware.Json.{Json, key_before, InKeyOrder}
use borsa.Middleware.Builder.{
  blacklisting, with_quota, layer, new, CacheConfig, name, Descriptor, with_cache, build,
  with_blacklist, custom, without_blacklist, caching, without, enforce_ordering, order_key,
  quota_aware,
}
use borsa.Middleware.Builder.Stack.{
  to_stack, from_stack, quota_limit, quota_or_default, existing_quota_config, config_json,
}
use borsa.Middleware.Builder.Refines.{
  Call, add_cache, add_blacklist, add_quota, set_limit, drop_blacklist, perform_all, on_layers,
  on_layers_all, FitsCall, perform, built, stacked, no_layers, HasOrderedMaps,
}

mutual
  data Value : Type 0 where
    number : ℕ → Value
    text : String → Value
    object : Entries → Value

  data Entries : Type 0 where
    nil : Entries
    cons : String → Value → Entries → Entries

abbrev entries : List (String × Value) → Entries
entries [] = nil
entries ((k, v) ∷ rest) = cons k v (entries rest)

abbrev listed : Entries → List (String × Value)
listed nil = []
listed (cons k v rest) = (k, v) ∷ listed rest

abbrev read_number : Value → Option ℕ
read_number (number n) = some n
read_number (text s) = none
read_number (object es) = none

abbrev read_text : Value → Option String
read_text (number n) = none
read_text (text s) = some s
read_text (object es) = none

abbrev read_object : Value → Option (List (String × Value))
read_object (number n) = none
read_object (text s) = none
read_object (object es) = some (listed es)

listed-entries : (es : List (String × Value)) → listed (entries es) ≡ es
listed-entries [] = refl
listed-entries ((k, v) ∷ rest) = ap (λ r. (k, v) ∷ r) (listed-entries rest)

-- A key before another, or the same one.
abbrev by_key : String × Value → String × Value → Bool
by_key x y = eq x.0 y.0 || key_before x.0 y.0

get-sorted_insert :
    (x : String × Value) (ys : List (String × Value)) (key : String)
    → get (sorted_insert by_key x ys) key ≡ (if eq x.0 key then some x.1 else get ys key)
unfolding get sorted_insert
get-sorted_insert x [] key = refl
get-sorted_insert x (y ∷ ys) key = ground (
  arith,
  eq_iff_path x.0 y.0,
  eq_iff_path x.0 key,
  eq_iff_path y.0 key,
  get-sorted_insert x ys key,
)

get-sort_by : (es : List (String × Value)) (key : String) → get (sort_by by_key es) key ≡ get es key
unfolding get sort_by
get-sort_by [] key = refl
get-sort_by (x ∷ es) key =
    ground (arith, get-sorted_insert x (sort_by by_key es) key, get-sort_by es key)

sort_by-ordered : (es : List (String × Value)) → InKeyOrder es → sort_by by_key es ≡ es
unfolding sort_by sorted_insert
sort_by-ordered [] h = refl
sort_by-ordered (x ∷ []) h = refl
sort_by-ordered (x ∷ y ∷ rest) h = rw (sort_by-ordered (y ∷ rest) h.1) (ground (arith, h.0))

abbrev values : Json Value
unfolding sort_by
values = record {
  number = number;
  text = text;
  object = λ es. object (entries (sort_by by_key es));
  as_u64 = read_number;
  as_str = read_text;
  as_object = read_object;
  as_u64-number = λ n h. refl;
  as_str-text = λ s. refl;
  get-object =
      λ es key h. ap (λ l. get l key) (listed-entries (sort_by by_key es)) ∙ get-sort_by es key;
  as_object-object = λ es h. ap some (listed-entries (sort_by by_key es) ∙ sort_by-ordered es h);
}

abbrev hourly : QuotaConfig
hourly = record { limit = 240; window = 86_400_000_000_000; strategy = even_spread_hourly }

abbrev cached : CacheConfig
cached = record {
  default_ttl_ms = 1000;
  per_capability_ttl_ms = ("history", 700) ∷ ("quote", 500) ∷ [];
  default_max_entries = 10;
  per_capability_max_entries = [];
  default_negative_ttl_ms = 0;
  per_capability_negative_ttl_ms = [];
}

abbrev setup : List Call
setup =
    add_quota hourly
    ∷ add_blacklist 5_000_000
    ∷ add_cache cached
    ∷ set_limit 100
    ∷ drop_blacklist
    ∷ []

setup-FitsCall : All FitsCall setup
setup-FitsCall = omega arith

cached-HasOrderedMaps : HasOrderedMaps cached
cached-HasOrderedMaps = record { ttl = (refl, tt); max_entries = tt; negative_ttl = tt }

setup_layers :
    (perform_all values setup (new "raw")).layers
    ≡ caching cached ∷ quota_aware (record hourly { limit = 100 }) ∷ []
unfolding perform_all perform with_cache with_quota with_blacklist without_blacklist without
    enforce_ordering sort_by sorted_insert order_key name quota_limit quota_or_default
    existing_quota_config config_json get new
setup_layers = refl

perform_all-refines_example :
    perform_all values setup (new "raw") ≡ built "raw" (on_layers_all setup no_layers)
perform_all-refines_example = perform_all-refines values setup "raw" setup-FitsCall

from_stack-to_stack_example :
    from_stack values "raw" (to_stack values (perform_all values setup (new "raw")))
    ≡ perform_all values setup (new "raw")
from_stack-to_stack_example =
    from_stack-to_stack values setup "raw" setup-FitsCall
      (tt, (tt, (cached-HasOrderedMaps, (tt, (tt, tt)))))

own-IsOwnName : IsOwnName "Metrics"
own-IsOwnName = (refl, refl, refl)

layer-moved_innermost_example :
    (with_quota hourly (layer "Metrics" (number 1) (perform_all values setup (new "raw")))).layers
    ≡ stacked (on_layers (add_quota hourly) (on_layers_all setup no_layers))
      ++ custom "Metrics" (number 1) ∷ []
layer-moved_innermost_example =
    layer-moved_innermost values setup "raw" "Metrics" (number 1) hourly setup-FitsCall
      own-IsOwnName

-- Each layer adds its name in front, and one that another precedes under its name is refused.
abbrev add_name : Descriptor Value → List String → List String
unfolding name
add_name d acc = name d ∷ acc

abbrev not_last : List (Descriptor Value) → ℕ → Descriptor Value → Option String
not_last stack idx (caching cfg) = none
not_last stack idx (blacklisting duration) = none
not_last stack idx (quota_aware cfg) = none
not_last stack idx (custom n config) = if idx == 0 then none else some n

build-nested_example :
    connector_of add_name not_last
      (build add_name not_last ("raw" ∷ []) (custom "Metrics" (number 1) ∷ caching cached ∷ []))
    ≡ (if all_accept add_name not_last
          (custom "Metrics" (number 1) ∷ caching cached ∷ [])
          0
          (custom "Metrics" (number 1) ∷ caching cached ∷ [])
        then some (
            nested add_name not_last
              ("raw" ∷ [])
              (custom "Metrics" (number 1) ∷ caching cached ∷ []))
        else none)
build-nested_example =
    build-nested add_name not_last ("raw" ∷ []) (custom "Metrics" (number 1) ∷ caching cached ∷ [])
