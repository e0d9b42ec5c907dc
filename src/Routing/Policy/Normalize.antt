-- ===== src/Routing/Policy/Normalize.antt =====
-- `normalize_and_collect_unknown`: the lists of a policy without the connectors that nobody knows.
pub mod Coherence
use borsa.Prelude.{
  string_eq, String, ◌≡◌, refl, ap, ap₂, ◌∙◌, Bool, true, ◌&&◌, not, Option, none, some, List, [],
  ◌∷◌, ◌++◌, arith, if◌then◌else◌, and_true, all, is_empty, eq, eq_iff_path,
}
use borsa.Routing.Ranked
use borsa.Routing.Ranked.{RankedList, contains, first_occurrences}
use borsa.Routing.Policy.{ConnectorKey, Selector, ProviderRule, ProviderPolicy}

-- The loop over the values: those that are known, each once, and the missing ones.
unfoldable pub screen : (known seen values : List ConnectorKey) → List ConnectorKey × List String
screen known seen [] = ([], [])
screen known seen (key ∷ values) =
    let rest = screen known seen values in
    let fresh = screen known (key ∷ seen) values in
    if contains known key
    then if contains seen key then rest else (key ∷ fresh.0, fresh.1)
    else (rest.0, key ∷ rest.1)

module _ {Symbol AssetKind Exchange : Type 0} where
  abbrev pub reported :
      Selector Symbol AssetKind Exchange
      → List String
      → List (Selector Symbol AssetKind Exchange × List String)
  reported selector [] = []
  reported selector (key ∷ missing) = (selector, key ∷ missing) ∷ []

  unfoldable pub normalize_global :
      List ConnectorKey
      → Option (RankedList ConnectorKey × Bool)
      → Option (RankedList ConnectorKey × Bool)
        × List (Selector Symbol AssetKind Exchange × List String)
  unfolding screen
  normalize_global known none = (none, [])
  normalize_global known (some (list, strict)) = (
    some (Ranked.new (screen known [] list.values).0, strict),
    reported (record { symbol = none; kind = none; exchange = none })
        (screen known [] list.values).1,
  )

  unfoldable pub normalize_rule :
      List ConnectorKey
      → ProviderRule Symbol AssetKind Exchange
      → ProviderRule Symbol AssetKind Exchange × List String
  unfolding screen
  normalize_rule known rule = (
    record rule { list = Ranked.new (screen known [] rule.list.values).0 },
    (screen known [] rule.list.values).1,
  )

  unfoldable pub normalize_rules :
      List ConnectorKey
      → List (ProviderRule Symbol AssetKind Exchange)
      → List (ProviderRule Symbol AssetKind Exchange)
        × List (Selector Symbol AssetKind Exchange × List String)
  unfolding normalize_rule
  normalize_rules known [] = ([], [])
  normalize_rules known (rule ∷ rules) =
      let rest = normalize_rules known rules in
      (
        (normalize_rule known rule).0 ∷ rest.0,
        reported rule.selector (normalize_rule known rule).1 ++ rest.1,
      )

  unfoldable pub normalize_and_collect_unknown :
      List ConnectorKey
      → ProviderPolicy Symbol AssetKind Exchange
      → ProviderPolicy Symbol AssetKind Exchange
        × List (Selector Symbol AssetKind Exchange × List String)
  unfolding normalize_global normalize_rules
  normalize_and_collect_unknown known p = (
    record {
      rules = (normalize_rules known p.rules).0;
      global_rule = (normalize_global known p.global_rule).0;
    },
    (normalize_global known p.global_rule).1 ++ (normalize_rules known p.rules).1,
  )

abbrev pub knows_all : List ConnectorKey → List ConnectorKey → Bool
knows_all known values = all (contains known) values

abbrev pub knows_global : List ConnectorKey → Option (RankedList ConnectorKey × Bool) → Bool
knows_global known none = true
knows_global known (some (list, strict)) = knows_all known list.values

screen-missing :
    (known seen values : List ConnectorKey)
    → is_empty (screen known seen values).1 ≡ knows_all known values
unfolding screen
screen-missing known seen [] = refl
screen-missing known seen (key ∷ values) =
    ground (arith, screen-missing known seen values, screen-missing known (key ∷ seen) values)

same_key :
    (keys : List ConnectorKey) (key a : ConnectorKey)
    → eq key a ≡ true
    → contains keys key ≡ contains keys a
same_key keys key a h = ap (contains keys) ((eq_iff_path key a).0 h)

append-is_empty : {A : Type 0} (xs ys : List A) → is_empty (xs ++ ys) ≡ (is_empty xs && is_empty ys)
append-is_empty [] ys = refl
append-is_empty (x ∷ xs) ys = refl

screen-contains :
    (known seen values : List ConnectorKey) (a : ConnectorKey)
    → (contains (screen known seen values).0 a
        ≡ (contains values a && (contains known a && not (contains seen a))))
      × (contains (screen known seen values).1 a ≡ (contains values a && not (contains known a)))
unfolding screen
screen-contains known seen [] a = (refl, refl)
screen-contains known seen (key ∷ values) a = ground (
  arith,
  screen-contains known seen values a,
  screen-contains known (key ∷ seen) values a,
  same_key known key a,
  same_key seen key a,
)

first_occurrences-contains :
    (seen values : List ConnectorKey) (a : ConnectorKey)
    → contains (first_occurrences seen values) a ≡ (contains values a && not (contains seen a))
unfolding first_occurrences
first_occurrences-contains seen [] a = refl
first_occurrences-contains seen (key ∷ values) a = ground (
  arith,
  first_occurrences-contains seen values a,
  first_occurrences-contains (key ∷ seen) values a,
  same_key seen key a,
)

reported-is_empty :
    {Symbol AssetKind Exchange : Type 0} (selector : Selector Symbol AssetKind Exchange)
    (missing : List String)
    → is_empty (reported selector missing) ≡ is_empty missing
reported-is_empty selector [] = refl
reported-is_empty selector (key ∷ missing) = refl

global-is_empty :
    (Symbol AssetKind Exchange : Type 0) (known : List ConnectorKey)
    (rule : Option (RankedList ConnectorKey × Bool))
    → is_empty
        (normalize_global {Symbol = Symbol} {AssetKind = AssetKind} {Exchange = Exchange} known
          rule).1
      ≡ knows_global known rule
unfolding normalize_global
global-is_empty Symbol AssetKind Exchange known none = refl
global-is_empty Symbol AssetKind Exchange known (some (list, strict)) =
    reported-is_empty _ (screen known [] list.values).1 ∙ screen-missing known [] list.values

module _ {Symbol AssetKind Exchange : Type 0} where
  -- Checking a rule against the known connectors keeps in its list exactly the connectors that are
  -- known and names as missing exactly those that are not; the selector and the strictness stay.
  pub normalize_rule-contains :
      (known : List ConnectorKey) (rule : ProviderRule Symbol AssetKind Exchange) (a : ConnectorKey)
      → (contains (normalize_rule known rule).0.list.values a
          ≡ (contains rule.list.values a && contains known a))
        × (contains (normalize_rule known rule).1 a
            ≡ (contains rule.list.values a && not (contains known a)))
        × ((normalize_rule known rule).0.selector ≡ rule.selector)
        × ((normalize_rule known rule).0.strict ≡ rule.strict)
  unfolding normalize_rule Ranked.new
  normalize_rule-contains known rule a = (
    first_occurrences-contains [] (screen known [] rule.list.values).0 a
        ∙ and_true _
        ∙ (screen-contains known [] rule.list.values a).0
        ∙ ap (λ b. contains rule.list.values a && b) (and_true (contains known a)),
    (screen-contains known [] rule.list.values a).1,
    refl,
    refl,
  )

  rules-is_empty :
      (known : List ConnectorKey) (rules : List (ProviderRule Symbol AssetKind Exchange))
      → is_empty (normalize_rules known rules).1 ≡ all (λ r. knows_all known r.list.values) rules
  unfolding normalize_rules normalize_rule
  rules-is_empty known [] = refl
  rules-is_empty known (rule ∷ rules) =
      append-is_empty (reported rule.selector (screen known [] rule.list.values).1)
        (normalize_rules known rules).1
      ∙ ap₂ (λ a b. a && b)
          (reported-is_empty rule.selector (screen known [] rule.list.values).1
            ∙ screen-missing known [] rule.list.values)
          (rules-is_empty known rules)

  -- The check of a policy reports nothing exactly when every connector of the global list and of
  -- the rules' lists is known.
  pub normalize-reports_unknown :
      (known : List ConnectorKey) (p : ProviderPolicy Symbol AssetKind Exchange)
      → is_empty (normalize_and_collect_unknown known p).1
        ≡ (knows_global known p.global_rule && all (λ r. knows_all known r.list.values) p.rules)
  unfolding normalize_and_collect_unknown
  normalize-reports_unknown known p =
      append-is_empty
        (normalize_global {Symbol = Symbol} {AssetKind = AssetKind} {Exchange = Exchange} known
          p.global_rule).1
        (normalize_rules known p.rules).1
      ∙ ap₂ (λ a b. a && b) (global-is_empty Symbol AssetKind Exchange known p.global_rule)
          (rules-is_empty known p.rules)
