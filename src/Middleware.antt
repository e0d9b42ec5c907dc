-- ===== src/Middleware.antt =====
-- borsa-core/src/middleware.rs: who made a call, the hooks of a middleware layer, and how the
-- delegating methods of borsa-core/src/connector.rs run them round the inner provider. A layer's
-- shared state (its mutex) is a state that the hooks return; each hook gets the time of its call.
pub mod Json
pub mod Builder
use borsa.Prelude.{ℕ, String, Option}
use borsa.Capability.{Capability}

pub data CallOrigin : Type 0 where
  external : CallOrigin
  internal : Option Capability → String → CallOrigin

pub record CallContext : Type 0 where
  pub capability : Capability
  pub origin : CallOrigin

-- `Result<A, E>`, or a panic of the code that computes it.
pub data Outcome {ℓ κ} (E : Type ℓ) (A : Type κ) : Type (ℓ ⊔ κ) where
  ok : A → Outcome E A
  err : E → Outcome E A
  panicked : Outcome E A

-- The two hooks of the trait `Middleware`, over a layer's state `S`.
pub record Layer (S E : Type 0) : Type 0 where
  pub pre_call : CallContext → ℕ → S → Outcome E (Unit {0}) × S
  pub map_error : CallContext → ℕ → E → S → E × S

-- The trait's default hooks.
abbrev pub default_layer : {S E : Type 0} → Layer S E
default_layer = record { pre_call = λ ctx now s. (ok tt, s); map_error = λ ctx now e s. (e, s) }

-- A connector as a caller sees it: a state `T` and a call that takes the context, the time of
-- the call and the time of its return.
abbrev pub Provider : (T E A : Type 0) → Type 0
Provider T E A = CallContext → ℕ → ℕ → T → Outcome E A × T

module _ {S T E A : Type 0} (layer : Layer S E) (inner : Provider T E A) where
  abbrev map_result : CallContext → ℕ → S → Outcome E A × T → Outcome E A × (S × T)
  map_result ctx later s (ok a, t) = (ok a, (s, t))
  map_result ctx later s (err e, t) =
      (err (layer.map_error ctx later e s).0, ((layer.map_error ctx later e s).1, t))
  map_result ctx later s (panicked, t) = (panicked, (s, t))

  abbrev after_pre_call : CallContext → ℕ → ℕ → T → Outcome E (Unit {0}) × S → Outcome E A × (S × T)
  after_pre_call ctx now later t (ok u, s) = map_result ctx later s (inner ctx now later t)
  after_pre_call ctx now later t (err e, s) = (err e, (s, t))
  after_pre_call ctx now later t (panicked, s) = (panicked, (s, t))

  -- A delegating method: `pre_call`, the inner call, and `map_error` on its error.
  unfoldable pub delegate : Provider (S × T) E A
  delegate ctx now later st = after_pre_call ctx now later st.1 (layer.pre_call ctx now st.0)
