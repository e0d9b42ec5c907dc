-- ===== src/Router/Fetch/Tasks.antt =====
-- The tasks that the strategies wait for, and what a race over them comes to.
use borsa.Errors.Collapse.{collapse_errors}
use borsa.Router.{Connector, tag_err}
use borsa.Router.Fetch.Priority.{
  answer_of, failure_of, answer_or, first_answer, tagged_failures, takes_request,
}
use borsa.Errors.{BorsaError}
use borsa.Prelude.{
  String, ◌≡◌, refl, ap, ◌∙◌, ◌⊎◌, inl, inr, ◌||◌, not, Option, none, some, List, [], ◌∷◌, ◌++◌,
  arith, is_some, any, is_empty,
}
use mathlib.Core.List.{append_assoc, append-nil}
use borsa.Router.Fetch.{
  Reply, raced_error, race_loop, provider_call_with_timeout, on_result, started, outcome_of,
  started_with,
}

raced_error_lem :
    {Symbol : Type 0} (name : String) (e : BorsaError Symbol) → raced_error name e ≡ tag_err name e
unfolding raced_error tag_err
raced_error_lem name e = ground arith

module _ {Symbol T : Type 0} (capability : String) where
  abbrev pub result_of : String × Reply Symbol T → BorsaError Symbol ⊎ T
  result_of (name, reply) = provider_call_with_timeout name capability reply

  abbrev pub first_ok : List (String × Reply Symbol T) → Option T
  first_ok [] = none
  first_ok (x ∷ l) = answer_of (some (result_of x)) (first_ok l)

  abbrev pub failures : List (String × Reply Symbol T) → List (BorsaError Symbol)
  failures [] = []
  failures (x ∷ l) = failure_of x.0 (some (result_of x)) (failures l)

  -- The result of a race or a round over the tasks `l`.
  abbrev pub settled : String → List (String × Reply Symbol T) → BorsaError Symbol ⊎ T
  settled what l =
      answer_or (collapse_errors capability (not (is_empty l)) (failures l) (some what))
        (first_ok l)

  pub started-round :
      (call : Connector → Option (Reply Symbol T)) (cs : List Connector)
      → (first_answer capability call cs ≡ first_ok (started call cs))
        × (tagged_failures capability call cs ≡ failures (started call cs))
        × (any (takes_request capability call) cs ≡ not (is_empty (started call cs)))
  started-round call [] = (refl, refl, refl)
  started-round call (c ∷ cs) = go (call c) (started-round call cs)
    where
      go :
          (r : Option (Reply Symbol T))
          → (first_answer capability call cs ≡ first_ok (started call cs))
            × (tagged_failures capability call cs ≡ failures (started call cs))
            × (any (takes_request capability call) cs ≡ not (is_empty (started call cs)))
          → (answer_of (outcome_of c.name capability r) (first_answer capability call cs)
              ≡ first_ok (started_with c.name r (started call cs)))
            × (failure_of c.name
                  (outcome_of c.name capability r)
                  (tagged_failures capability call cs)
                ≡ failures (started_with c.name r (started call cs)))
            × ((is_some (outcome_of c.name capability r) || any (takes_request capability call) cs)
                ≡ not (is_empty (started_with c.name r (started call cs))))
      go none ih = ih
      go (some reply) (f, g, h) = (
        ap (answer_of (some (provider_call_with_timeout c.name capability reply))) f,
        ap (failure_of c.name (some (provider_call_with_timeout c.name capability reply))) g,
        refl,
      )

  abbrev pub first_or : Option T → List (BorsaError Symbol) → List (BorsaError Symbol) ⊎ T
  first_or (some v) errors = inr v
  first_or none errors = inl errors

  race_round :
      (r : BorsaError Symbol ⊎ T) (name : String) (l : List (String × Reply Symbol T))
      (errors : List (BorsaError Symbol))
      (loop : List (BorsaError Symbol) → List (BorsaError Symbol) ⊎ T)
      → ((es : List (BorsaError Symbol)) → loop es ≡ first_or (first_ok l) (es ++ failures l))
      → on_result r (λ v. inr v) (λ e. loop (errors ++ raced_error name e ∷ []))
        ≡ first_or
            (answer_of (some r) (first_ok l))
            (errors ++ failure_of name (some r) (failures l))
  race_round (inr v) name l errors loop h = refl
  race_round (inl e) name l errors loop h =
      h (errors ++ raced_error name e ∷ [])
      ∙ ap (first_or (first_ok l)) (
          append_assoc errors (raced_error name e ∷ []) (failures l)
          ∙ ap (λ k. errors ++ k ∷ failures l) (raced_error_lem name e))

  pub race_loop_lem :
      (l : List (String × Reply Symbol T)) (errors : List (BorsaError Symbol))
      → race_loop capability l errors ≡ first_or (first_ok l) (errors ++ failures l)
  unfolding race_loop
  race_loop_lem [] errors = rw append-nil refl
  race_loop_lem ((name, reply) ∷ l) errors =
      race_round (provider_call_with_timeout name capability reply) name l errors
        (race_loop capability l) (race_loop_lem l)
