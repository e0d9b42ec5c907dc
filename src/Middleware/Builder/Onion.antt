-- ===== src/Middleware/Builder/Onion.antt =====
-- `validate` and `build` of the connector builder.
use borsa.Prelude.{
  ℕ, suc, String, ◌≡◌, refl, ◌⊎◌, inl, inr, Bool, true, ◌&&◌, not, Option, none, some, List, [],
  ◌∷◌, arith, if◌then◌else◌, is_some,
}
use mathlib.Core.List.{reverse_aux}
use borsa.Middleware.Builder.{Descriptor, build, validate, wrap, first_refusal}

module _ {Value C : Type 0} (apply : Descriptor Value → C → C)
    (check : List (Descriptor Value) → ℕ → Descriptor Value → Option String) where
  -- `layers[0](layers[1](...(raw)))`
  abbrev pub nested : C → List (Descriptor Value) → C
  nested raw [] = raw
  nested raw (d ∷ inner) = apply d (nested raw inner)

  -- Whether each layer of a stack, from an index on, accepts its place.
  abbrev pub all_accept : List (Descriptor Value) → ℕ → List (Descriptor Value) → Bool
  all_accept stack idx [] = true
  all_accept stack idx (d ∷ inner) =
      not (is_some (check stack idx d)) && all_accept stack (suc idx) inner

  wrap-reverse :
      (raw : C) (layers outer : List (Descriptor Value))
      → wrap apply check raw (reverse_aux layers outer) ≡ wrap apply check (nested raw layers) outer
  wrap-reverse raw [] outer = refl
  wrap-reverse raw (d ∷ inner) outer = wrap-reverse raw inner (d ∷ outer)

  first_refusal-all_accept :
      (stack : List (Descriptor Value)) (idx : ℕ) (layers : List (Descriptor Value))
      → is_some (first_refusal apply check stack idx layers) ≡ not (all_accept stack idx layers)
  first_refusal-all_accept stack idx [] = refl
  first_refusal-all_accept stack idx (d ∷ inner) =
      ground (arith, first_refusal-all_accept stack (suc idx) inner)

  abbrev pub connector_of : String ⊎ C → Option C
  connector_of (inl message) = none
  connector_of (inr c) = some c

  -- A builder makes a connector exactly when every layer accepts its place in the stack, and the
  -- connector is the raw one with the last layer round it, and each earlier layer round that.
  pub build-nested :
      (raw : C) (layers : List (Descriptor Value))
      → connector_of (build apply check raw layers)
        ≡ (if all_accept layers 0 layers then some (nested raw layers) else none)
  unfolding build validate
  build-nested raw layers =
      ground (arith, first_refusal-all_accept layers 0 layers, wrap-reverse raw layers [])
