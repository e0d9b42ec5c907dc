-- ===== src/Router/Fetch/Priority.antt =====
-- What the priority strategy returns and which providers it calls.
use mathlib.Core.List.{append_assoc, append-nil}
use borsa.Prelude.{
  String, ◌≡◌, ◌⊎◌, inl, inr, Bool, ◌||◌, Option, none, some, List, [], ◌∷◌, ◌++◌, is_some, any,
  refl, or_false, true, arith, sym, ap, ap₂, ◌∙◌, false, or_true,
}
use borsa.Errors.{BorsaError}
use borsa.Errors.Collapse.{collapse_errors}
use borsa.Router.{Connector, tag_err}
use borsa.Router.Fetch.{
  Reply, kept_error, priority_loop, fetch_single_priority_with_fallback, outcome_of, on_outcome,
  after_calling,
}

module _ {Symbol T : Type 0} where
  abbrev pub answer_of : Option (BorsaError Symbol ⊎ T) → Option T → Option T
  answer_of (some (inr v)) rest = some v
  answer_of (some (inl e)) rest = rest
  answer_of none rest = rest

  abbrev pub called_of :
      Connector → Option (BorsaError Symbol ⊎ T) → List Connector → List Connector
  called_of c (some (inr v)) rest = c ∷ []
  called_of c (some (inl e)) rest = c ∷ rest
  called_of c none rest = rest

  abbrev pub failure_of :
      String → Option (BorsaError Symbol ⊎ T) → List (BorsaError Symbol) → List (BorsaError Symbol)
  failure_of name (some (inl e)) rest = tag_err name e ∷ rest
  failure_of name (some (inr v)) rest = rest
  failure_of name none rest = rest

  abbrev pub answer_or : BorsaError Symbol → Option T → BorsaError Symbol ⊎ T
  answer_or e none = inl e
  answer_or e (some v) = inr v

kept_error_lem :
    {Symbol : Type 0} (name : String) (e : BorsaError Symbol) → kept_error name e ≡ tag_err name e
unfolding kept_error tag_err
kept_error_lem name e = ground arith

module _ {Symbol T : Type 0} (capability : String)
    (call : Connector → Option (Reply Symbol T)) where
  abbrev pub outcome : Connector → Option (BorsaError Symbol ⊎ T)
  outcome c = outcome_of c.name capability (call c)

  abbrev pub takes_request : Connector → Bool
  takes_request c = is_some (outcome c)

  -- The first answer, in the order of the connectors.
  abbrev pub first_answer : List Connector → Option T
  first_answer [] = none
  first_answer (c ∷ cs) = answer_of (outcome c) (first_answer cs)

  -- The connectors that take the request, up to the first that answers.
  abbrev pub called_until_answer : List Connector → List Connector
  called_until_answer [] = []
  called_until_answer (c ∷ cs) = called_of c (outcome c) (called_until_answer cs)

  -- The errors of the connectors that take the request, tagged.
  abbrev pub tagged_failures : List Connector → List (BorsaError Symbol)
  tagged_failures [] = []
  tagged_failures (c ∷ cs) = failure_of c.name (outcome c) (tagged_failures cs)

  abbrev expected :
      String
      → Bool
      → List (BorsaError Symbol)
      → Option T
      → List Connector
      → (BorsaError Symbol ⊎ T) × List Connector
  expected what attempted errors answer called =
      (answer_or (collapse_errors capability attempted errors (some what)) answer, called)

  -- One round, from the rounds that follow it.
  round_lem :
      (what : String) (c : Connector) (cs : List Connector) (attempted : Bool)
      (errors : List (BorsaError Symbol)) (o : Option (BorsaError Symbol ⊎ T))
      (rest : Bool → List (BorsaError Symbol) → (BorsaError Symbol ⊎ T) × List Connector)
      → ((b : Bool) (es : List (BorsaError Symbol))
          → rest b es
            ≡ expected what
                (b || any takes_request cs)
                (es ++ tagged_failures cs)
                (first_answer cs)
                (called_until_answer cs))
      → on_outcome o
          (λ u. rest attempted errors)
          (λ v. (inr v, c ∷ []))
          (λ e. after_calling c (rest true (errors ++ kept_error c.name e ∷ [])))
        ≡ expected what
            (attempted || (is_some o || any takes_request cs))
            (errors ++ failure_of c.name o (tagged_failures cs))
            (answer_of o (first_answer cs))
            (called_of c o (called_until_answer cs))
  round_lem what c cs attempted errors none rest h = h attempted errors
  round_lem what c cs attempted errors (some (inr v)) rest h = refl
  round_lem what c cs attempted errors (some (inl e)) rest h =
      ap (after_calling c) (h true (errors ++ kept_error c.name e ∷ []))
      ∙ ap₂ (λ b es. expected what b es (first_answer cs) (c ∷ called_until_answer cs))
          (sym (or_true attempted))
          (append_assoc errors (kept_error c.name e ∷ []) (tagged_failures cs)
            ∙ ap (λ k. errors ++ k ∷ tagged_failures cs) (kept_error_lem c.name e))

  priority_loop_lem :
      (what : String) (cs : List Connector) (attempted : Bool) (errors : List (BorsaError Symbol))
      → priority_loop capability what call cs attempted errors
        ≡ expected what
            (attempted || any takes_request cs)
            (errors ++ tagged_failures cs)
            (first_answer cs)
            (called_until_answer cs)
  unfolding priority_loop
  priority_loop_lem what [] attempted errors = rw (or_false, append-nil) refl
  priority_loop_lem what (c ∷ cs) attempted errors =
      round_lem what c cs attempted errors (outcome c) (priority_loop capability what call cs)
        (λ b es. priority_loop_lem what cs b es)

  -- The priority strategy returns the first answer in the order of the connectors, and calls the
  -- connectors that take the request up to that one and none after it. Without an answer it returns
  -- the collapse of the tagged errors of all that took the request, in order.
  pub fetch-first_answer :
      (what : String) (ordered : List Connector)
      → fetch_single_priority_with_fallback capability what call ordered ≡ (
        answer_or
            (collapse_errors capability
              (any takes_request ordered)
              (tagged_failures ordered)
              (some what))
            (first_answer ordered),
        called_until_answer ordered,
      )
  unfolding fetch_single_priority_with_fallback
  fetch-first_answer what ordered = priority_loop_lem what ordered false []
