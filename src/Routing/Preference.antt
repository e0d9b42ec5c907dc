-- ===== src/Routing/Preference.antt =====
-- Preferences by scope, used for the order of exchanges.
pub mod Precedence
use borsa.Prelude.{ℕ, Option, none, some, List, [], map, Eq}
use mathlib.Core.Option
use borsa.Prelude.Maps.{get, insert}
use borsa.Routing.Ranked
use borsa.Routing.Ranked.{RankedList}

pub data ScopeKey (Symbol AssetKind : Type 0) : Type 0 where
  global : ScopeKey Symbol AssetKind
  kind : AssetKind → ScopeKey Symbol AssetKind
  symbol : Symbol → ScopeKey Symbol AssetKind

pub record Preference (Symbol AssetKind A : Type 0) : Type 0 where
  pub global_list : Option (RankedList A)
  pub by_kind : List (AssetKind × RankedList A)
  pub by_symbol : List (Symbol × RankedList A)

abbrev pub default_preference : {Symbol AssetKind A : Type 0} → Preference Symbol AssetKind A
default_preference = record { global_list = none; by_kind = []; by_symbol = [] }

-- `if let Some(key) = key && let Some(list) = map.get(key)`
abbrev pub scoped :
    {K A : Type 0} ⦃e : Eq K⦄ → Option K → List (K × RankedList A) → Option (RankedList A)
scoped none m = none
scoped (some k) m = get m k

abbrev pub first_found : {B : Type 0} → Option B → Option B → Option B
first_found none b = b
first_found (some a) b = some a

module _ {Symbol AssetKind A : Type 0} ⦃es : Eq Symbol⦄ ⦃ek : Eq AssetKind⦄ ⦃ea : Eq A⦄ where
  unfoldable pub set :
      ScopeKey Symbol AssetKind
      → List A
      → Preference Symbol AssetKind A
      → Preference Symbol AssetKind A
  set global list p = record p { global_list = some (Ranked.new list) }
  set (kind k) list p = record p { by_kind = insert k (Ranked.new list) p.by_kind }
  set (symbol s) list p = record p { by_symbol = insert s (Ranked.new list) p.by_symbol }

  abbrev pub clear : Preference Symbol AssetKind A → Preference Symbol AssetKind A
  clear p = default_preference

  unfoldable pub resolve :
      Preference Symbol AssetKind A → Option Symbol → Option AssetKind → Option (List A)
  resolve p s k = first_found (Option.map (λ l. l.values) (scoped s p.by_symbol)) (
      first_found (Option.map (λ l. l.values) (scoped k p.by_kind))
        (Option.map (λ l. l.values) p.global_list))

  unfoldable pub resolve_rank_map :
      Preference Symbol AssetKind A → Option Symbol → Option AssetKind → Option (List (A × ℕ))
  resolve_rank_map p s k = first_found (Option.map (λ l. l.ranks) (scoped s p.by_symbol)) (
      first_found (Option.map (λ l. l.ranks) (scoped k p.by_kind))
        (Option.map (λ l. l.ranks) p.global_list))
