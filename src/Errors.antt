-- ===== src/Errors.antt =====
-- borsa-types/src/error.rs: the workspace's error type and its classification, and
-- borsa/src/router/streaming/error.rs, which collapses the errors of several providers.
-- `Symbol` is a type of another crate, so it is a parameter; `Vec<BorsaError>` inside the type is
-- the list `Errors` of the mutual block.
pub mod Flatten
pub mod Retry
pub mod Collapse
use borsa.Prelude.{
  ℕ, String, Bool, true, false, ◌||◌, ◌&&◌, List, [], ◌∷◌, ◌++◌, if◌then◌else◌, keep_if, flat_map,
}

mutual
  pub data BorsaError (Symbol : Type 0) : Type 0 where
    unsupported : String → BorsaError Symbol
    data_issue : String → BorsaError Symbol
    invalid_arg : String → BorsaError Symbol
    connector : String → BorsaError Symbol → BorsaError Symbol
    inconsistent_currency_data : BorsaError Symbol
    other : String → BorsaError Symbol
    not_found : String → BorsaError Symbol
    all_providers_failed : Errors Symbol → BorsaError Symbol
    provider_timeout : String → String → BorsaError Symbol
    request_timeout : String → BorsaError Symbol
    all_providers_timed_out : String → BorsaError Symbol
    strict_symbols_rejected : List Symbol → BorsaError Symbol
    quota_exceeded : (remaining reset_in_ms : ℕ) → BorsaError Symbol
    rate_limit_exceeded : (limit window_ms : ℕ) → BorsaError Symbol
    temporarily_blacklisted : (reset_in_ms : ℕ) → BorsaError Symbol
    invalid_middleware_stack : String → BorsaError Symbol

  pub data Errors (Symbol : Type 0) : Type 0 where
    nil : Errors Symbol
    cons : BorsaError Symbol → Errors Symbol → Errors Symbol

pub data RetryClass : Type 0 where
  permanent transient unknown : RetryClass

-- `matches!(c, RetryClass::Permanent)` and its like.
abbrev pub is_permanent_class : RetryClass → Bool
is_permanent_class permanent = true
is_permanent_class transient = false
is_permanent_class unknown = false

abbrev pub is_transient_class : RetryClass → Bool
is_transient_class permanent = false
is_transient_class transient = true
is_transient_class unknown = false

unfoldable mutual
  pub is_actionable : {Symbol : Type 0} → BorsaError Symbol → Bool
  is_actionable (unsupported c) = false
  is_actionable (not_found w) = false
  is_actionable (all_providers_failed inner) = any_actionable inner
  is_actionable _ = true

  pub any_actionable : {Symbol : Type 0} → Errors Symbol → Bool
  any_actionable nil = false
  any_actionable (cons e es) = is_actionable e || any_actionable es

unfoldable mutual
  pub flatten : {Symbol : Type 0} → BorsaError Symbol → List (BorsaError Symbol)
  flatten (all_providers_failed list) = flatten_all list
  flatten e = e ∷ []

  pub flatten_all : {Symbol : Type 0} → Errors Symbol → List (BorsaError Symbol)
  flatten_all nil = []
  flatten_all (cons e es) = flatten e ++ flatten_all es

unfoldable mutual
  pub retry_class : {Symbol : Type 0} → BorsaError Symbol → RetryClass
  retry_class (unsupported c) = permanent
  retry_class (not_found w) = permanent
  retry_class (strict_symbols_rejected r) = permanent
  retry_class (invalid_arg m) = permanent
  retry_class (invalid_middleware_stack m) = permanent
  retry_class inconsistent_currency_data = permanent
  retry_class (provider_timeout n c) = transient
  retry_class (request_timeout c) = transient
  retry_class (all_providers_timed_out c) = transient
  retry_class (quota_exceeded r t) = transient
  retry_class (rate_limit_exceeded l w) = transient
  retry_class (temporarily_blacklisted t) = transient
  retry_class (all_providers_failed inner) =
      if any_permanent inner then permanent else if all_transient inner then transient else unknown
  retry_class (connector n e) = retry_class e
  retry_class (data_issue m) = unknown
  retry_class (other m) = unknown

  pub any_permanent : {Symbol : Type 0} → Errors Symbol → Bool
  any_permanent nil = false
  any_permanent (cons e es) = is_permanent_class (retry_class e) || any_permanent es

  pub all_transient : {Symbol : Type 0} → Errors Symbol → Bool
  all_transient nil = true
  all_transient (cons e es) = is_transient_class (retry_class e) && all_transient es

module _ {Symbol : Type 0} where
  unfoldable pub is_permanent : BorsaError Symbol → Bool
  is_permanent e = is_permanent_class (retry_class e)

  unfoldable pub is_transient : BorsaError Symbol → Bool
  is_transient e = is_transient_class (retry_class e)

  -- A vector of errors, as the field of `all_providers_failed`.
  abbrev pub from_list : List (BorsaError Symbol) → Errors Symbol
  from_list [] = nil
  from_list (e ∷ es) = cons e (from_list es)

  -- The leaves of all the errors that should be surfaced, in order.
  unfoldable pub actionable_leaves : List (BorsaError Symbol) → List (BorsaError Symbol)
  actionable_leaves errors = keep_if is_actionable (flat_map flatten errors)

  collapse : String → List (BorsaError Symbol) → BorsaError Symbol
  collapse capability [] = unsupported capability
  collapse capability (e ∷ []) = e
  collapse capability (e ∷ f ∷ rest) = all_providers_failed (from_list (e ∷ f ∷ rest))

  -- `capability` is the text of the capability, as `to_string` gives it.
  unfoldable pub collapse_stream_errors : String → List (BorsaError Symbol) → BorsaError Symbol
  unfolding collapse actionable_leaves
  collapse_stream_errors capability errors = collapse capability (actionable_leaves errors)
