-- ===== src/Middleware/Builder.antt =====
-- borsa-middleware/src/builder.rs, with borsa-types/src/middleware.rs: the builder that stacks the
-- middleware layers round a connector, and its description as a stack. A layer that the caller
-- brings has a name and a configuration of its own. `usize` is 64 bits wide; a number of
-- milliseconds beyond 64 bits has no JSON form and is out of the model.
use borsa.Prelude.{
  string_eq, ℕ, suc, ◌*◌, String, ◌⊎◌, inl, inr, not, Option, none, some, List, [], ◌∷◌, ◌++◌, leb,
  if◌then◌else◌, eq, keep_if, sort_by,
}
pub mod Stack
pub mod Refines
pub mod Onion
use mathlib.Core.List.{reverse}
use borsa.Middleware.Json.{Json, member}
use borsa.Quota.{
  QuotaConfig, QuotaConsumptionStrategy, unit, weighted, even_spread_hourly, ns_per_ms,
}

-- borsa-types/src/config.rs
pub record CacheConfig : Type 0 where
  pub default_ttl_ms : ℕ
  pub per_capability_ttl_ms : List (String × ℕ)
  pub default_max_entries : ℕ
  pub per_capability_max_entries : List (String × ℕ)
  pub default_negative_ttl_ms : ℕ
  pub per_capability_negative_ttl_ms : List (String × ℕ)

-- `MiddlewareDescriptor`, by the middleware that it holds.
pub data Descriptor (Value : Type 0) : Type 0 where
  caching : CacheConfig → Descriptor Value
  blacklisting : ℕ → Descriptor Value
  quota_aware : QuotaConfig → Descriptor Value
  custom : String → Value → Descriptor Value

pub record MiddlewareLayer (Value : Type 0) : Type 0 where
  pub name : String
  pub config : Value

-- `raw` is the name of the raw connector.
pub record ConnectorBuilder (Value : Type 0) : Type 0 where
  pub raw : String
  pub layers : List (Descriptor Value)

abbrev pub default_quota : QuotaConfig
default_quota = record { limit = 1000; window = 60_000 * ns_per_ms; strategy = unit }

abbrev pub strategy_name : QuotaConsumptionStrategy → String
strategy_name even_spread_hourly = "EvenSpreadHourly"
strategy_name weighted = "Weighted"
strategy_name unit = "Unit"

abbrev pub strategy_or : QuotaConsumptionStrategy → Option String → QuotaConsumptionStrategy
strategy_or other none = other
strategy_or other (some s) =
    if eq s "EvenSpreadHourly"
    then even_spread_hourly
    else if eq s "Weighted"
    then weighted
    else if eq s "Unit"
    then unit
    else other

abbrev pub unwrap_or {ℓ} : {A : Type ℓ} → A → Option A → A
unwrap_or a none = a
unwrap_or a (some b) = b

module _ {Value : Type 0} where
  unfoldable pub name : Descriptor Value → String
  name (caching cfg) = "CachingMiddleware"
  name (blacklisting duration) = "BlacklistConnector"
  name (quota_aware cfg) = "QuotaAwareConnector"
  name (custom n config) = n

  unfoldable pub order_key : Descriptor Value → ℕ
  unfolding name
  order_key d =
      if eq (name d) "CachingMiddleware"
      then 0
      else if eq (name d) "BlacklistConnector"
      then 1
      else if eq (name d) "QuotaAwareConnector"
      then 2
      else 3

  unfoldable pub enforce_ordering : List (Descriptor Value) → List (Descriptor Value)
  unfolding sort_by order_key
  enforce_ordering layers = sort_by (λ d e. leb (order_key d) (order_key e)) layers

  unfoldable pub without : String → List (Descriptor Value) → List (Descriptor Value)
  unfolding name
  without n layers = keep_if (λ d. not (eq (name d) n)) layers

  unfoldable pub new : String → ConnectorBuilder Value
  new raw = record { raw = raw; layers = [] }

  unfoldable pub with_cache : CacheConfig → ConnectorBuilder Value → ConnectorBuilder Value
  unfolding without enforce_ordering
  with_cache cfg b = record b {
    layers = enforce_ordering (caching cfg ∷ without "CachingMiddleware" b.layers);
  }

  unfoldable pub without_cache : ConnectorBuilder Value → ConnectorBuilder Value
  unfolding without
  without_cache b = record b { layers = without "CachingMiddleware" b.layers }

  unfoldable pub with_quota : QuotaConfig → ConnectorBuilder Value → ConnectorBuilder Value
  unfolding without enforce_ordering
  with_quota cfg b = record b {
    layers = enforce_ordering (without "QuotaAwareConnector" b.layers ++ quota_aware cfg ∷ []);
  }

  unfoldable pub without_quota : ConnectorBuilder Value → ConnectorBuilder Value
  unfolding without
  without_quota b = record b { layers = without "QuotaAwareConnector" b.layers }

  unfoldable pub with_blacklist : ℕ → ConnectorBuilder Value → ConnectorBuilder Value
  unfolding without enforce_ordering
  with_blacklist duration b = record b {
    layers = enforce_ordering (without "BlacklistConnector" b.layers ++ blacklisting duration ∷ []);
  }

  unfoldable pub without_blacklist : ConnectorBuilder Value → ConnectorBuilder Value
  unfolding without
  without_blacklist b = record b { layers = without "BlacklistConnector" b.layers }

  unfoldable pub layer : String → Value → ConnectorBuilder Value → ConnectorBuilder Value
  layer n config b = record b { layers = custom n config ∷ b.layers }

  module _ {C : Type 0} (apply : Descriptor Value → C → C)
      (check : List (Descriptor Value) → ℕ → Descriptor Value → Option String) where
    -- `validate`: the layers from the innermost to the outermost, each with its index and the stack.
    abbrev pub first_refusal : List (Descriptor Value) → ℕ → List (Descriptor Value) → Option String
    first_refusal stack idx [] = none
    first_refusal stack idx (d ∷ inner) = elim (first_refusal stack (suc idx) inner) [
      | some message ↦ some message
      | none ↦ check stack idx d
    ]

    unfoldable pub validate : List (Descriptor Value) → Option String
    validate layers = first_refusal layers 0 layers

    -- The loop over the layers in reverse.
    abbrev pub wrap : C → List (Descriptor Value) → C
    wrap acc [] = acc
    wrap acc (d ∷ reversed) = wrap (apply d acc) reversed

    unfoldable pub build : C → List (Descriptor Value) → String ⊎ C
    unfolding validate
    build raw layers = elim (validate layers) [
      | some message ↦ inl message
      | none ↦ inr (wrap raw (reverse layers))
    ]
