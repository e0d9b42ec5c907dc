-- ===== src/Examples/Requests.antt =====
-- Requests that an orchestrator with three connectors puts to its providers.
use borsa.Router.Assemble.Ordered.{place_of, ordered_lem}
use borsa.Routing.Policy.Normalize.{
  normalize_and_collect_unknown, normalize_global, normalize_rules, screen,
}
use borsa.Router.Config.{default_config}
use borsa.Prelude.Maps.{insert}
use borsa.Routing.Builder.{call_global, default_policy}
use borsa.Errors.Collapse.{collapse_errors}
use borsa.Routing.Policy.{RoutingPolicy, Selector, RoutingContext, rank_or_last, set_global}
use borsa.Prelude.{
  string_eq, ℕ, String, ◌≡◌, refl, inl, inr, ◌&&◌, not, Option, none, some, List, [], ◌∷◌,
  if◌then◌else◌, eq, any, is_empty, Bool, is_some, IsSortedBy, length, keep_if,
}
use borsa.Prelude.Interleaving.{Completes, idle, completes}
use borsa.Errors.{rate_limit_exceeded}
use borsa.Router.{Connector, Borsa}
use borsa.Router.Fetch.{
  Reply, finished, fetch_single_latency, fetch_single_priority_with_fallback, priority_loop,
  provider_call_with_timeout,
}
use borsa.Router.Fetch.Priority.{
  fetch-first_answer, answer_or, takes_request, tagged_failures, first_answer, called_until_answer,
}
use borsa.Router.Fetch.Strategies.{strategies_agree, failure_kind}
use borsa.Router.Assemble.{
  Setting, with_connector, routing_policy, request_timeout, new_builder, names, BorsaBuilder,
}
use borsa.Router.Assemble
use borsa.Router.Assemble.Accepted.{
  configure, registered, last_policy, build-accepts, connectors_of, knows_policy,
}
use borsa.Router.Ordering.{key_le, enumerate_from, by_rank}
use borsa.Routing.Builder
use borsa.Routing.Ranked

abbrev alpha : Connector
alpha = record { name = "alpha" }

abbrev beta : Connector
beta = record { name = "beta" }

abbrev gamma : Connector
gamma = record { name = "gamma" }

-- The first is out of its limit, the second does not take requests, and the third answers.
abbrev reply_of : String → Option (Reply String ℕ)
reply_of n =
    if eq n "alpha"
    then some (finished (inl (rate_limit_exceeded 10 1000)))
    else if eq n "beta"
    then none
    else some (finished (inr 7))

abbrev call : Connector → Option (Reply String ℕ)
call c = reply_of c.name

fetch_calls :
    fetch_single_priority_with_fallback "quote" "BTC" call (alpha ∷ beta ∷ gamma ∷ [])
    ≡ (inr 7, alpha ∷ gamma ∷ [])
unfolding fetch_single_priority_with_fallback priority_loop provider_call_with_timeout
fetch_calls = refl

fetch-first_answer_example :
    fetch_single_priority_with_fallback "quote" "BTC" call (alpha ∷ beta ∷ gamma ∷ []) ≡ (
      answer_or
          (collapse_errors "quote"
            (any (takes_request "quote" call) (alpha ∷ beta ∷ gamma ∷ []))
            (tagged_failures "quote" call (alpha ∷ beta ∷ gamma ∷ []))
            (some "BTC"))
          (first_answer "quote" call (alpha ∷ beta ∷ gamma ∷ [])),
      called_until_answer "quote" call (alpha ∷ beta ∷ gamma ∷ []),
    )
fetch-first_answer_example = fetch-first_answer "quote" call "BTC" (alpha ∷ beta ∷ gamma ∷ [])

abbrev refused : String × Reply String ℕ
refused = ("alpha", finished (inl (rate_limit_exceeded 10 1000)))

abbrev answer : String × Reply String ℕ
answer = ("gamma", finished (inr 7))

gamma_first : Completes (refused ∷ answer ∷ []) (answer ∷ refused ∷ [])
gamma_first = completes (refused ∷ []) answer [] refl (completes [] refused [] refl idle)

strategies_agree_example :
    failure_kind
      (fetch_single_latency "quote" "BTC" call (alpha ∷ beta ∷ gamma ∷ []) (answer ∷ refused ∷ []))
    ≡ failure_kind
        (fetch_single_priority_with_fallback "quote" "BTC" call (alpha ∷ beta ∷ gamma ∷ [])).0
strategies_agree_example =
    strategies_agree "quote" "BTC" call (alpha ∷ beta ∷ gamma ∷ []) (answer ∷ refused ∷ [])
      gamma_first

abbrev gamma_first_policy : RoutingPolicy String String String
gamma_first_policy = Builder.build (call_global ("gamma" ∷ "alpha" ∷ []) ∷ []) default_policy

abbrev settings : List (Setting String String String)
settings =
    with_connector alpha
    ∷ with_connector beta
    ∷ routing_policy gamma_first_policy
    ∷ request_timeout 2000
    ∷ with_connector gamma
    ∷ []

abbrev details : List (Selector String String String × List String) → String
details unknown = "unknown"

build-accepts_example : connectors_of (Assemble.build details (configure settings new_builder)) ≡ (
    if not (is_empty (registered settings))
      && knows_policy (names (registered settings)) (last_policy settings default_policy).providers
    then some (registered settings)
    else none)
build-accepts_example = build-accepts details settings

abbrev builder : BorsaBuilder String String String
builder = record {
  connectors = registered settings;
  cfg = record default_config { routing_policy = gamma_first_policy };
}

abbrev orchestrator : Borsa String String String
orchestrator = record {
  connectors = registered settings;
  cfg = record default_config { routing_policy = gamma_first_policy };
}

built_orchestrator : Assemble.build details builder ≡ inr orchestrator
unfolding Assemble.build normalize_and_collect_unknown normalize_global normalize_rules screen
    Builder.build Builder.perform Builder.providers_global set_global Ranked.new
    Ranked.first_occurrences Ranked.insert_ranks insert registered
built_orchestrator = refl

abbrev context : RoutingContext String String String
context = record { symbol = some "BTC"; kind = none; exchange = none }

abbrev is_beta : ℕ × Connector → Bool
is_beta (i, c) = eq c.name "beta"

ordered_lem_example :
    IsSortedBy
      (λ x y.
        key_le
          (rank_or_last (place_of orchestrator context x.1), x.0)
          (rank_or_last (place_of orchestrator context y.1), y.0))
      (by_rank orchestrator context)
    × (length (keep_if is_beta (by_rank orchestrator context))
        ≡ length (
            keep_if
              (λ x. is_some (place_of orchestrator context x.1) && is_beta x)
              (enumerate_from 0 builder.connectors)))
ordered_lem_example = ordered_lem details builder orchestrator context is_beta built_orchestrator
