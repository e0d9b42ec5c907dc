-- ===== src/Router/Fetch.antt =====
-- `fetch_single`: the two strategies of a request that one answer settles. `call` says for each
-- connector whether it takes the request and what comes of it within the provider's time. The last arm of
-- `fetch_single`, for strategies that the enum does not have, is left out.
pub mod Priority
pub mod Tasks
pub mod Strategies
use borsa.Prelude.{
  String, ◌⊎◌, inl, inr, Bool, true, false, not, Option, none, some, List, [], ◌∷◌, ◌++◌,
  if◌then◌else◌, is_empty,
}
use borsa.Errors.{
  BorsaError, unsupported, invalid_arg, not_found, provider_timeout, rate_limit_exceeded,
  quota_exceeded, temporarily_blacklisted,
}
use borsa.Errors.Collapse.{collapse_errors}
use borsa.Router.{Connector, tag_err}
use borsa.Router.Config.{FetchStrategy, priority_with_fallback, latency}

-- What a provider's future comes to under its timeout.
pub data Reply (Symbol T : Type 0) : Type 0 where
  finished : BorsaError Symbol ⊎ T → Reply Symbol T
  late : Reply Symbol T

-- The error that the loop over the ordered connectors keeps of a provider.
unfoldable pub kept_error : {Symbol : Type 0} → String → BorsaError Symbol → BorsaError Symbol
unfolding tag_err
kept_error name (not_found what) = not_found what
kept_error name e = tag_err name e

-- The error that the race keeps.
unfoldable pub raced_error : {Symbol : Type 0} → String → BorsaError Symbol → BorsaError Symbol
unfolding tag_err
raced_error name (not_found what) = not_found what
raced_error name (provider_timeout n c) = provider_timeout n c
raced_error name e = tag_err name e

module _ {Symbol T : Type 0} where
  unfoldable pub provider_call_with_timeout :
      String → String → Reply Symbol T → BorsaError Symbol ⊎ T
  provider_call_with_timeout name capability (finished r) = r
  provider_call_with_timeout name capability late = inl (provider_timeout name capability)

  -- The result of a connector: none if it does not take the request.
  abbrev pub outcome_of : String → String → Option (Reply Symbol T) → Option (BorsaError Symbol ⊎ T)
  outcome_of name capability none = none
  outcome_of name capability (some reply) = some (provider_call_with_timeout name capability reply)

  abbrev pub on_outcome :
      {R : Type 0}
      → Option (BorsaError Symbol ⊎ T)
      → (Unit {0} → R)
      → (T → R)
      → (BorsaError Symbol → R)
      → R
  on_outcome none skipped answered failed = skipped tt
  on_outcome (some (inr v)) skipped answered failed = answered v
  on_outcome (some (inl e)) skipped answered failed = failed e

  abbrev pub after_calling :
      Connector
      → (BorsaError Symbol ⊎ T) × List Connector
      → (BorsaError Symbol ⊎ T) × List Connector
  after_calling c (result, called) = (result, c ∷ called)

  -- The loop over the ordered connectors: `attempted_any` and `errors` are its variables. Beside the
  -- result are the connectors that were called, in order.
  unfoldable pub priority_loop :
      String
      → String
      → (Connector → Option (Reply Symbol T))
      → List Connector
      → Bool
      → List (BorsaError Symbol)
      → (BorsaError Symbol ⊎ T) × List Connector
  unfolding provider_call_with_timeout kept_error
  priority_loop capability what call [] attempted_any errors =
      (inl (collapse_errors capability attempted_any errors (some what)), [])
  priority_loop capability what call (c ∷ cs) attempted_any errors =
      on_outcome (outcome_of c.name capability (call c))
        (λ u. priority_loop capability what call cs attempted_any errors) (λ v. (inr v, c ∷ []))
        (λ e.
          after_calling c
            (priority_loop capability what call cs true (errors ++ kept_error c.name e ∷ [])))

  unfoldable pub fetch_single_priority_with_fallback :
      String
      → String
      → (Connector → Option (Reply Symbol T))
      → List Connector
      → (BorsaError Symbol ⊎ T) × List Connector
  unfolding priority_loop
  fetch_single_priority_with_fallback capability what call ordered =
      priority_loop capability what call ordered false []

  abbrev pub started_with :
      String
      → Option (Reply Symbol T)
      → List (String × Reply Symbol T)
      → List (String × Reply Symbol T)
  started_with name none rest = rest
  started_with name (some reply) rest = (name, reply) ∷ rest

  -- The futures that are started, each with its connector's name.
  abbrev pub started :
      (Connector → Option (Reply Symbol T)) → List Connector → List (String × Reply Symbol T)
  started call [] = []
  started call (c ∷ cs) = started_with c.name (call c) (started call cs)

  abbrev pub on_result :
      {R : Type 0} → BorsaError Symbol ⊎ T → (T → R) → (BorsaError Symbol → R) → R
  on_result (inr v) answered failed = answered v
  on_result (inl e) answered failed = failed e

  -- The loop over the futures as they complete.
  unfoldable pub race_loop :
      String
      → List (String × Reply Symbol T)
      → List (BorsaError Symbol)
      → List (BorsaError Symbol) ⊎ T
  unfolding provider_call_with_timeout raced_error
  race_loop capability [] errors = inl errors
  race_loop capability ((name, reply) ∷ rest) errors =
      on_result (provider_call_with_timeout name capability reply) (λ v. inr v)
        (λ e. race_loop capability rest (errors ++ raced_error name e ∷ []))

  abbrev pub after_race :
      String
      → String
      → (attempted_any : Bool) → List (BorsaError Symbol) ⊎ T
      → BorsaError Symbol ⊎ T
  after_race capability what attempted_any (inr v) = inr v
  after_race capability what attempted_any (inl errors) =
      if attempted_any
      then inl (collapse_errors capability attempted_any errors (some what))
      else inl (unsupported capability)

  -- `completed` lists the started futures in the order in which they complete.
  unfoldable pub fetch_single_latency :
      String
      → String
      → (Connector → Option (Reply Symbol T))
      → List Connector
      → (completed : List (String × Reply Symbol T)) → BorsaError Symbol ⊎ T
  unfolding race_loop
  fetch_single_latency capability what call ordered completed =
      after_race capability what (not (is_empty (started call ordered)))
        (race_loop capability completed [])

  unfoldable pub fetch_single :
      FetchStrategy
      → String
      → String
      → (Connector → Option (Reply Symbol T))
      → List Connector
      → List (String × Reply Symbol T)
      → BorsaError Symbol ⊎ T
  unfolding fetch_single_priority_with_fallback fetch_single_latency
  fetch_single priority_with_fallback capability what call ordered completed =
      (fetch_single_priority_with_fallback capability what call ordered).0
  fetch_single latency capability what call ordered completed =
      fetch_single_latency capability what call ordered completed
