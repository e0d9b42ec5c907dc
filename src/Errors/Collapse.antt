-- ===== src/Errors/Collapse.antt =====
-- borsa/src/router/util.rs: `collapse_errors`, the error of a request that no provider has answered.
use borsa.Prelude.{
  String, ◌≡◌, Bool, true, false, ◌&&◌, not, Option, none, some, List, if◌then◌else◌, all, is_empty,
  refl, [], ◌∷◌, arith, sym, ap, ap₂,
}
use borsa.Errors.{
  BorsaError, unsupported, not_found, provider_timeout, all_providers_timed_out,
  all_providers_failed, RetryClass, from_list, retry_class, any_permanent, all_transient,
  is_actionable, any_actionable, transient, permanent, unknown,
}

-- The class of an aggregate, from what it holds.
abbrev pub class_from : Bool → Bool → RetryClass
class_from holds_permanent only_transient =
    if holds_permanent then permanent else if only_transient then transient else unknown

module _ {Symbol : Type 0} where
  abbrev pub is_timeout : BorsaError Symbol → Bool
  is_timeout (provider_timeout name capability) = true
  is_timeout _ = false

  abbrev pub is_not_found : BorsaError Symbol → Bool
  is_not_found (not_found what) = true
  is_not_found _ = false

  pub not_found_or_failed : List (BorsaError Symbol) → Option String → BorsaError Symbol
  not_found_or_failed errors none = all_providers_failed (from_list errors)
  not_found_or_failed errors (some what) =
      if not (is_empty errors) && all is_not_found errors
      then not_found what
      else all_providers_failed (from_list errors)

  -- `capability` is the text of the capability, as `to_string` gives it.
  unfoldable pub collapse_errors :
      String → Bool → List (BorsaError Symbol) → Option String → BorsaError Symbol
  unfolding not_found_or_failed
  collapse_errors capability attempted_any errors not_found_what =
      if not attempted_any
      then unsupported capability
      else if not (is_empty errors) && all is_timeout errors
      then all_providers_timed_out capability
      else not_found_or_failed errors not_found_what

  timeout_class :
      (e : BorsaError Symbol)
      → is_timeout e ≡ true
      → (retry_class e ≡ transient) × (is_actionable e ≡ true)
  unfolding retry_class is_actionable
  timeout_class e h = ground arith

  not_found_class :
      (e : BorsaError Symbol)
      → is_not_found e ≡ true
      → (retry_class e ≡ permanent) × (is_actionable e ≡ false)
  unfolding retry_class is_actionable
  not_found_class e h = ground arith

  timeouts_class :
      (errors : List (BorsaError Symbol))
      → all is_timeout errors ≡ true
      → (any_permanent (from_list errors) ≡ false)
        × (all_transient (from_list errors) ≡ true)
        × (any_actionable (from_list errors) ≡ not (is_empty errors))
  unfolding any_permanent any_actionable
  timeouts_class [] h = (refl, refl, refl)
  timeouts_class (e ∷ errors) h = ground (arith, timeout_class e, timeouts_class errors)

  not_founds_class :
      (errors : List (BorsaError Symbol))
      → all is_not_found errors ≡ true
      → (any_permanent (from_list errors) ≡ not (is_empty errors))
        × (any_actionable (from_list errors) ≡ false)
  unfolding any_permanent any_actionable
  not_founds_class [] h = (refl, refl)
  not_founds_class (e ∷ errors) h = ground (arith, not_found_class e, not_founds_class errors)

  -- An error of the class and the actionability of the aggregate.
  abbrev LikeAggregate : List (BorsaError Symbol) → BorsaError Symbol → Type 0
  LikeAggregate errors x =
      (retry_class x ≡ retry_class (all_providers_failed (from_list errors)))
      × (is_actionable x ≡ any_actionable (from_list errors))

  pick-LikeAggregate :
      (errors : List (BorsaError Symbol)) (b : Bool) (x y : BorsaError Symbol)
      → (b ≡ true → LikeAggregate errors x)
      → LikeAggregate errors y
      → LikeAggregate errors (if b then x else y)
  pick-LikeAggregate errors true x y f g = f refl
  pick-LikeAggregate errors false x y f g = g

  timeouts-LikeAggregate :
      (capability : String) (errors : List (BorsaError Symbol))
      → (not (is_empty errors) && all is_timeout errors) ≡ true
      → LikeAggregate errors (all_providers_timed_out capability)
  unfolding retry_class is_actionable
  timeouts-LikeAggregate capability [] h = cc h
  timeouts-LikeAggregate capability (e ∷ errors) h =
      let (p, t, a) = timeouts_class (e ∷ errors) h in (sym (ap₂ (class_from) p t), sym a)

  not_founds-LikeAggregate :
      (what : String) (errors : List (BorsaError Symbol))
      → (not (is_empty errors) && all is_not_found errors) ≡ true
      → LikeAggregate errors (not_found what)
  unfolding retry_class is_actionable
  not_founds-LikeAggregate what [] h = cc h
  not_founds-LikeAggregate what (e ∷ errors) h =
      let (p, a) = not_founds_class (e ∷ errors) h in
      (sym (ap (λ b. class_from b (all_transient (from_list (e ∷ errors)))) p), sym a)

  not_found_or_failed-LikeAggregate :
      (errors : List (BorsaError Symbol)) (not_found_what : Option String)
      → LikeAggregate errors (not_found_or_failed errors not_found_what)
  unfolding not_found_or_failed is_actionable
  not_found_or_failed-LikeAggregate errors none = (refl, refl)
  not_found_or_failed-LikeAggregate errors (some what) =
      pick-LikeAggregate errors (not (is_empty errors) && all is_not_found errors) _ _
        (not_founds-LikeAggregate what errors) (refl, refl)

  -- Collapsing the errors of providers that were tried keeps the retry class and the actionability
  -- of their aggregate, whichever uniform error stands for them.
  pub collapse_errors-aggregate :
      (capability : String) (errors : List (BorsaError Symbol)) (not_found_what : Option String)
      → (retry_class (collapse_errors capability true errors not_found_what)
          ≡ retry_class (all_providers_failed (from_list errors)))
        × (is_actionable (collapse_errors capability true errors not_found_what)
            ≡ any_actionable (from_list errors))
  unfolding collapse_errors
  collapse_errors-aggregate capability errors not_found_what =
      pick-LikeAggregate errors (not (is_empty errors) && all is_timeout errors) _ _
        (timeouts-LikeAggregate capability errors)
        (not_found_or_failed-LikeAggregate errors not_found_what)
