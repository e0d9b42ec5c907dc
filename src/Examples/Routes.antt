-- ===== src/Examples/Routes.antt =====
-- A policy over symbols, kinds and exchanges named by strings.
use borsa.Prelude.Maps.{get, insert}
use borsa.Prelude.{
  string_eq, ℕ, String, ◌≡◌, refl, true, false, ◌&&◌, not, none, some, List, [], ◌∷◌, if◌then◌else◌,
  get_elem?,
}
use borsa.Routing.Builder.{
  BuilderCall, call_global, call_for_kind, call_rule, call_exchanges, build, default_policy,
  built_rank-place,
}
use borsa.Routing.Ranked
use borsa.Routing.Ranked.Positions.{get-ranks}
use borsa.Routing.Preference.{
  ScopeKey, Preference, default_preference, resolve, resolve_rank_map, global, kind, symbol,
}
use borsa.Routing.Preference
use borsa.Routing.Preference.Precedence.{resolve-set, scope_hit, outranked}
use borsa.Routing.Policy.{
  ProviderRule, ProviderPolicy, RoutingContext, best_rule, provider_rank, matches,
}
use borsa.Routing.Policy.Best.{best_rule-most_specific}
use borsa.Routing.Policy.Weight.{Yields}
use borsa.Routing.Ranked.{contains}
use borsa.Routing.Policy.Ranks.{Coherent, place, governing}

abbrev keys : List String
keys = "b" ∷ "a" ∷ "b" ∷ "c" ∷ []

second_rank : get (Ranked.new keys).ranks "a" ≡ some 1
unfolding Ranked.new Ranked.first_occurrences Ranked.insert_ranks get insert
second_rank = refl

abbrev exchanges : Preference String String String
exchanges = Preference.set (kind "crypto") ("binance" ∷ []) default_preference

resolve-set_example :
    resolve (Preference.set (symbol "BTC") keys exchanges) (some "BTC") (some "crypto") ≡ (
      if scope_hit {Symbol = String} {AssetKind = String}
          (symbol "BTC")
          (some "BTC")
          (some "crypto")
        && not (outranked (symbol "BTC") exchanges (some "BTC") (some "crypto"))
      then some (Ranked.new keys).values
      else resolve exchanges (some "BTC") (some "crypto"))
resolve-set_example = resolve-set (symbol "BTC") keys exchanges (some "BTC") (some "crypto")

abbrev for_kind : ProviderRule String String String
for_kind = record {
  selector = record { symbol = none; kind = some "crypto"; exchange = none };
  list = Ranked.new ("a" ∷ "b" ∷ []);
  strict = false;
}

abbrev for_symbol : ProviderRule String String String
for_symbol = record {
  selector = record { symbol = some "BTC"; kind = none; exchange = none };
  list = Ranked.new ("b" ∷ []);
  strict = true;
}

abbrev policy : ProviderPolicy String String String
policy = record {
  rules = for_symbol ∷ for_kind ∷ [];
  global_rule = some (Ranked.new ("a" ∷ []), false);
}

abbrev btc : RoutingContext String String String
btc = record { symbol = some "BTC"; kind = some "crypto"; exchange = none }

strict_symbol_rule : provider_rank policy btc "a" ≡ none
unfolding provider_rank best_rule Ranked.new Ranked.first_occurrences Ranked.insert_ranks get insert
strict_symbol_rule = refl

best_rule-most_specific_example :
    (i : ℕ) × (r : ProviderRule String String String) × (best_rule policy btc
      ≡ some (r.list, r.strict))
    × (get_elem? policy.rules i ≡ some r)
    × (matches r.selector btc ≡ true)
    × Yields 1 for_kind i r
best_rule-most_specific_example = best_rule-most_specific policy btc 1 for_kind refl refl

policy-Coherent : Coherent policy
policy-Coherent = (
  (λ key. get-ranks ("b" ∷ []) key, (λ key. get-ranks ("a" ∷ "b" ∷ []) key, tt)),
  λ key. get-ranks ("a" ∷ []) key,
)

abbrev calls_of_builder : List (BuilderCall String String String)
calls_of_builder =
    call_global ("a" ∷ "b" ∷ [])
    ∷ call_for_kind "crypto" ("b" ∷ [])
    ∷ call_rule for_symbol.selector ("c" ∷ []) true
    ∷ call_exchanges (kind "crypto") ("binance" ∷ [])
    ∷ []

built_rank-place_example :
    provider_rank (build calls_of_builder default_policy).providers btc "b"
    ≡ place "b" (
        governing
          (best_rule (build calls_of_builder default_policy).providers btc)
          (build calls_of_builder default_policy).providers.global_rule)
built_rank-place_example = built_rank-place calls_of_builder btc "b"
