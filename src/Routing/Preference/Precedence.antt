-- ===== src/Routing/Preference/Precedence.antt =====
-- Which list a preference resolves to.
use borsa.Prelude.{
  ◌≡◌, Bool, true, false, ◌&&◌, ◌||◌, not, Option, none, some, List, arith, if◌then◌else◌, is_some,
  Eq, eq,
}
use mathlib.Core.Option
use borsa.Prelude.Maps.{get-insert}
use borsa.Routing.Ranked
use borsa.Routing.Ranked.{RankedList}
use borsa.Routing.Preference.{
  ScopeKey, global, kind, symbol, Preference, set, resolve, resolve_rank_map, scoped, first_found,
}

-- What a list set at a scope answers: `scope_hit` says that the scope is that of the question.
abbrev pub scope_hit :
    {Symbol AssetKind : Type 0} ⦃es : Eq Symbol⦄ ⦃ek : Eq AssetKind⦄
    → ScopeKey Symbol AssetKind
    → Option Symbol
    → Option AssetKind
    → Bool
scope_hit global s k = true
scope_hit (kind j) s none = false
scope_hit (kind j) s (some k) = eq j k
scope_hit (symbol r) none k = false
scope_hit (symbol r) (some s) k = eq r s

module _ {Symbol AssetKind A : Type 0} ⦃es : Eq Symbol⦄ ⦃ek : Eq AssetKind⦄ ⦃ea : Eq A⦄ where
  -- The one list that both resolutions read.
  abbrev pub winner :
      Preference Symbol AssetKind A → Option Symbol → Option AssetKind → Option (RankedList A)
  winner p s k = first_found (scoped s p.by_symbol) (first_found (scoped k p.by_kind) p.global_list)

  -- The values and the ranks that a preference resolves to come from one and the same list: that of
  -- the symbol, or else that of the kind, or else the global one.
  pub resolve-winner :
      (p : Preference Symbol AssetKind A) (s : Option Symbol) (k : Option AssetKind)
      → (resolve p s k ≡ Option.map (λ l. l.values) (winner p s k))
        × (resolve_rank_map p s k ≡ Option.map (λ l. l.ranks) (winner p s k))
  unfolding resolve resolve_rank_map
  resolve-winner p s k = (ground arith, ground arith)

  -- A list of a scope with a higher precedence is there.
  abbrev pub outranked :
      ScopeKey Symbol AssetKind
      → Preference Symbol AssetKind A
      → Option Symbol
      → Option AssetKind
      → Bool
  outranked global p s k = is_some (scoped s p.by_symbol) || is_some (scoped k p.by_kind)
  outranked (kind j) p s k = is_some (scoped s p.by_symbol)
  outranked (symbol r) p s k = false

  -- After a list is set for a scope, a question that the scope fits gets that list, its first
  -- occurrences in order, unless a scope of higher precedence has one (symbol before kind before
  -- global); every other question gets the answer that it got before.
  pub resolve-set :
      (scope : ScopeKey Symbol AssetKind) (list : List A) (p : Preference Symbol AssetKind A)
      (s : Option Symbol) (k : Option AssetKind)
      → resolve (set scope list p) s k ≡ (
          if scope_hit scope s k && not (outranked scope p s k)
          then some (Ranked.new list).values
          else resolve p s k)
  unfolding resolve set
  resolve-set global list p s k = ground arith
  resolve-set (kind j) list p s none = ground arith
  resolve-set (kind j) list p s (some k) =
      ground (arith, get-insert j (Ranked.new list) p.by_kind k)
  resolve-set (symbol r) list p none k = ground arith
  resolve-set (symbol r) list p (some s) k =
      ground (arith, get-insert r (Ranked.new list) p.by_symbol s)
