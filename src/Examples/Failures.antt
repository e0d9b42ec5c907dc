-- ===== src/Examples/Failures.antt =====
-- Errors of several providers, nested.
use borsa.Errors.Collapse.{collapse_errors, collapse_errors-aggregate}
use borsa.Prelude.{
  string_eq, String, ◌≡◌, refl, [], ◌∷◌, if◌then◌else◌, is_empty, true, none, some, List, flat_map,
  any,
}
use borsa.Errors.{
  BorsaError, flatten, is_actionable, collapse_stream_errors, retry_class, all_providers_failed,
  cons, nil, not_found, data_issue, rate_limit_exceeded, unsupported, from_list, provider_timeout,
  all_providers_timed_out, any_actionable,
}
use borsa.Errors.Flatten.{
  flatten-collapse_stream_errors, surfaced, actionable-collapse_stream_errors,
}
use borsa.Errors.Retry.{class_of, retry_class-flatten}

abbrev nested : BorsaError String
nested =
    all_providers_failed
      (cons (not_found "quote") (cons (all_providers_failed (cons (data_issue "bad") nil)) nil))

collapsed :
    collapse_stream_errors "quote" (nested ∷ rate_limit_exceeded 1 2 ∷ [])
    ≡ all_providers_failed (from_list (data_issue "bad" ∷ rate_limit_exceeded 1 2 ∷ []))
unfolding collapse_stream_errors flatten is_actionable
collapsed = refl

flatten-collapse_stream_errors_example : flatten (collapse_stream_errors "quote" (nested ∷ [])) ≡ (
    if is_empty (flat_map surfaced (nested ∷ []))
    then unsupported "quote" ∷ []
    else flat_map surfaced (nested ∷ []))
flatten-collapse_stream_errors_example = flatten-collapse_stream_errors "quote" (nested ∷ [])

retry_class-flatten_example : retry_class nested ≡ class_of (flatten nested)
retry_class-flatten_example = retry_class-flatten nested

abbrev no_answer : List (BorsaError String)
no_answer = provider_timeout "a" "quote" ∷ provider_timeout "b" "quote" ∷ []

all_timed_out : collapse_errors "quote" true no_answer none ≡ all_providers_timed_out "quote"
unfolding collapse_errors
all_timed_out = refl

collapse_errors-aggregate_example :
    (retry_class (collapse_errors "quote" true no_answer (some "quote"))
      ≡ retry_class (all_providers_failed (from_list no_answer)))
    × (is_actionable (collapse_errors "quote" true no_answer (some "quote"))
        ≡ any_actionable (from_list no_answer))
collapse_errors-aggregate_example = collapse_errors-aggregate "quote" no_answer (some "quote")

actionable-collapse_stream_errors_example :
    is_actionable (collapse_stream_errors "quote" (nested ∷ not_found "quote" ∷ []))
    ≡ any is_actionable (nested ∷ not_found "quote" ∷ [])
actionable-collapse_stream_errors_example =
    actionable-collapse_stream_errors "quote" (nested ∷ not_found "quote" ∷ [])
