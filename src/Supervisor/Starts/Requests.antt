-- ===== src/Supervisor/Starts/Requests.antt =====
-- What the scan requests: idle providers that can stream, each with the instruments that it may
-- serve, and it leaves them connecting.
use borsa.Prelude.{
  ℕ, ◌+◌, ◌≡◌, refl, sym, Bool, false, ◌&&◌, not, Option, none, some, List, [], ◌∷◌, arith, Eq,
  zero, suc, ◌≤◌, ap, ◌||◌,
}
use borsa.Supervisor.State.{Supervisor, ProviderState, held_symbols}
use borsa.Supervisor.Starts.{
  contains, include_symbol, should_include_instrument, compute_coverage_count,
  provider_has_symbol_before, count_holding, holds_before,
}

module _ {Symbol : Type 0} ⦃e : Eq Symbol⦄ where
  -- Whether one of the first `k` providers holds the symbol: the ones of a higher priority than the
  -- provider at index `k`.
  abbrev pub held_by_first : ℕ → List (ProviderState Symbol) → Symbol → Bool
  held_by_first k [] sym = false
  held_by_first zero (p ∷ ps) sym = false
  held_by_first (suc k) (p ∷ ps) sym = contains (held_symbols p) sym || held_by_first k ps sym

  -- From the provider at index `k` on, none is before it.
  none_before :
      (j k : ℕ) (ps : List (ProviderState Symbol)) (sym : Symbol)
      → k ≤ j
      → holds_before j k ps sym ≡ false
  unfolding holds_before
  none_before j k [] sym h = refl
  none_before j k (p ∷ ps) sym h = ground (arith, none_before (j + 1) k ps sym (omega arith))

  holds_before-held_by_first :
      (j k : ℕ) (ps : List (ProviderState Symbol)) (sym : Symbol)
      → holds_before j (j + k) ps sym ≡ held_by_first k ps sym
  unfolding holds_before
  holds_before-held_by_first j k [] sym = refl
  holds_before-held_by_first j zero (p ∷ ps) sym = none_before j (j + 0) (p ∷ ps) sym (omega arith)
  holds_before-held_by_first j (suc k) (p ∷ ps) sym =
      let e : j + suc k ≡ (j + 1) + k = omega arith in
      ground (
        arith,
        ap (λ n. holds_before (j + 1) n ps sym) e,
        holds_before-held_by_first (j + 1) k ps sym,
      )

  -- A symbol that nobody holds is held by none of the first.
  uncovered_first :
      (k : ℕ) (ps : List (ProviderState Symbol)) (sym : Symbol)
      → count_holding ps sym ≡ 0
      → held_by_first k ps sym ≡ false
  unfolding count_holding
  uncovered_first k [] sym h = refl
  uncovered_first zero (p ∷ ps) sym h = refl
  uncovered_first (suc k) (p ∷ ps) sym h = ground (arith, uncovered_first k ps sym)

module _ {Symbol Instrument : Type 0} ⦃e : Eq Symbol⦄ (symbol_of : Instrument → Option Symbol) where
  -- What it is for an instrument to be needed: its symbol is allowed, required, and held by none of
  -- the providers that come first.
  abbrev pub is_needed : Supervisor Symbol Instrument → ℕ → List Symbol → Option Symbol → Bool
  is_needed s id allow_set none = false
  is_needed s id allow_set (some sym) =
      contains allow_set sym
      && contains s.required_symbols sym
      && not (held_by_first id s.providers sym)

  include-needed :
      (s : Supervisor Symbol Instrument) (id : ℕ) (allow_set : List Symbol) (o : Option Symbol)
      → include_symbol symbol_of s id allow_set o ≡ is_needed s id allow_set o
  unfolding include_symbol compute_coverage_count provider_has_symbol_before
  include-needed s id allow_set none = refl
  include-needed s id allow_set (some sym) =
      ground
        (arith, uncovered_first id s.providers sym, holds_before-held_by_first 0 id s.providers sym)

  -- An instrument is included for the provider at an index exactly if it has a symbol, the symbol is
  -- allowed for the provider and required, and none of the providers before that index, as many of
  -- the list as the index says, holds the symbol, connecting with it or active on it: the count of
  -- coverage that the code takes first decides nothing more.
  pub should_include_instrument-needed :
      (s : Supervisor Symbol Instrument) (id : ℕ) (inst : Instrument) (allow_set : List Symbol)
      → should_include_instrument symbol_of s id inst allow_set
        ≡ is_needed s id allow_set (symbol_of inst)
  unfolding should_include_instrument
  should_include_instrument-needed s id inst allow_set =
      include-needed s id allow_set (symbol_of inst)
