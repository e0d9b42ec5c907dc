-- ===== src/Supervisor/Starts.antt =====
-- Which providers to start: coverage, the instruments that a provider still has to serve, and the
-- round-robin scan.
pub mod Scan
pub mod Requests
pub mod Requested
pub mod Round
use borsa.Prelude.{
  ℕ, zero, suc, ◌+◌, ◌%◌, sym, Bool, true, false, ◌&&◌, ◌||◌, not, Option, none, some, List, [],
  ◌∷◌, ◌++◌, ltb, ◌==◌, if◌then◌else◌, Eq, eq, length, get_elem?, set, any, keep_if, is_empty,
}
use borsa.Supervisor.State.{
  Supervisor, ProviderState, Action, connecting, request_start, is_provider_idle, held_symbols,
  active_symbols,
}

module _ {Symbol : Type 0} ⦃e : Eq Symbol⦄ where
  -- `symbols.iter().any(|s| s == sym)`, and the `contains` of a set.
  abbrev pub contains : List Symbol → Symbol → Bool
  contains symbols sym = any (λ s. eq s sym) symbols

  pub count_holding : List (ProviderState Symbol) → Symbol → ℕ
  count_holding [] sym = 0
  count_holding (p ∷ ps) sym =
      (if contains (held_symbols p) sym then 1 else 0) + count_holding ps sym

  -- The providers from index `j` on, asked only while their index is below `provider_index`.
  pub holds_before : (j provider_index : ℕ) → List (ProviderState Symbol) → Symbol → Bool
  holds_before j provider_index [] sym = false
  holds_before j provider_index (p ∷ ps) sym =
      (ltb j provider_index && contains (held_symbols p) sym)
      || holds_before (j + 1) provider_index ps sym

  -- The active providers above `higher_id` that share a symbol with `symbols`; `j` is the index of
  -- the first provider of the list.
  pub overlaps_above : (j higher_id : ℕ) → List (ProviderState Symbol) → List Symbol → List ℕ
  overlaps_above j higher_id [] symbols = []
  overlaps_above j higher_id (p ∷ ps) symbols =
      let rest = overlaps_above (j + 1) higher_id ps symbols in
      if ltb higher_id j && any (λ s. contains symbols s) (active_symbols p) then j ∷ rest else rest

-- `get(i).copied().unwrap_or(false)`
abbrev pub flag_at : List Bool → ℕ → Bool
flag_at [] i = false
flag_at (b ∷ bs) zero = b
flag_at (b ∷ bs) (suc i) = flag_at bs i

module _ {Symbol Instrument : Type 0} ⦃e : Eq Symbol⦄ where
  unfoldable pub compute_coverage_count : Supervisor Symbol Instrument → Symbol → ℕ
  unfolding count_holding
  compute_coverage_count s sym = count_holding s.providers sym

  unfoldable pub provider_has_symbol_before : Supervisor Symbol Instrument → ℕ → Symbol → Bool
  unfolding holds_before
  provider_has_symbol_before s provider_index sym = holds_before 0 provider_index s.providers sym

  unfoldable pub compute_lower_priority_overlaps :
      Supervisor Symbol Instrument → ℕ → List Symbol → List ℕ
  unfolding overlaps_above
  compute_lower_priority_overlaps s higher_id symbols =
      overlaps_above 0 higher_id s.providers symbols

  abbrev pub can_provider_stream : Supervisor Symbol Instrument → ℕ → Bool
  can_provider_stream s id = flag_at s.providers_can_stream id

module _ {Symbol Instrument : Type 0} ⦃e : Eq Symbol⦄ (symbol_of : Instrument → Option Symbol) where
  pub include_symbol : Supervisor Symbol Instrument → ℕ → List Symbol → Option Symbol → Bool
  include_symbol s provider_id allow_set none = false
  include_symbol s provider_id allow_set (some sym) =
      if not (contains allow_set sym) || not (contains s.required_symbols sym)
      then false
      else if not (ltb 0 (compute_coverage_count s sym))
      then true
      else not (provider_has_symbol_before s provider_id sym)

  unfoldable pub should_include_instrument :
      Supervisor Symbol Instrument → ℕ → Instrument → List Symbol → Bool
  unfolding include_symbol
  should_include_instrument s provider_id inst allow_set =
      include_symbol s provider_id allow_set (symbol_of inst)

  pub needed_of :
      Supervisor Symbol Instrument
      → ℕ
      → Option (List Symbol)
      → Option (List Instrument)
      → List Instrument
  needed_of s id (some allow_set) (some insts) =
      keep_if (λ inst. should_include_instrument s id inst allow_set) insts
  needed_of s id none insts = []
  needed_of s id (some allow_set) none = []

  unfoldable pub compute_needed_instruments_for : Supervisor Symbol Instrument → ℕ → List Instrument
  unfolding needed_of
  compute_needed_instruments_for s id =
      needed_of s id (get_elem? s.provider_allow id) (get_elem? s.provider_instruments id)

  -- `filter_map` of the symbols.
  abbrev pub symbols_of : List Instrument → List Symbol
  symbols_of [] = []
  symbols_of (inst ∷ insts) = elim (symbol_of inst) [
    | none ↦ symbols_of insts
    | some sym ↦ sym ∷ symbols_of insts
  ]

  -- The body of the scan's loop at provider `i`: its start, if one is needed.
  pub start_with :
      Supervisor Symbol Instrument
      → ℕ
      → List Instrument
      → Supervisor Symbol Instrument × List (Action Symbol Instrument)
  start_with s i [] = (s, [])
  start_with s i (inst ∷ insts) = (
    record s { providers = set s.providers i (connecting (symbols_of (inst ∷ insts))) },
    request_start i (inst ∷ insts) ∷ [],
  )

  pub visit_state :
      Supervisor Symbol Instrument
      → ℕ
      → Option (ProviderState Symbol)
      → Supervisor Symbol Instrument × List (Action Symbol Instrument)
  unfolding start_with
  visit_state s i none = (s, [])
  visit_state s i (some state) =
      if is_provider_idle state && can_provider_stream s i
      then start_with s i (compute_needed_instruments_for s i)
      else (s, [])

  pub visit :
      Supervisor Symbol Instrument
      → ℕ
      → Supervisor Symbol Instrument × List (Action Symbol Instrument)
  unfolding visit_state
  visit s i = visit_state s i (get_elem? s.providers i)

  abbrev pub prepend :
      List (Action Symbol Instrument)
      → Option (Supervisor Symbol Instrument × List (Action Symbol Instrument))
      → Option (Supervisor Symbol Instrument × List (Action Symbol Instrument))
  prepend actions none = none
  prepend actions (some (s, more)) = some (s, actions ++ more)

  -- The loop, on fuel: `none` when the fuel runs out before the loop's `break`.
  pub scan :
      ℕ
      → Supervisor Symbol Instrument
      → (len start i : ℕ) → (first : Bool)
      → Option (Supervisor Symbol Instrument × List (Action Symbol Instrument))
  scan zero s len start i first = none
  scan (suc fuel) s len start i first =
      let rest = prepend (visit s i).1 (scan fuel (visit s i).0 len start ((i + 1) % len) false) in
      if not first && i == start then some (visit s i) else rest

  unfoldable pub compute_needed_starts :
      Supervisor Symbol Instrument
      → Option (Supervisor Symbol Instrument × List (Action Symbol Instrument))
  unfolding scan visit
  compute_needed_starts s =
      let len = length s.providers in
      if len == 0 || s.round_exhausted
      then some (s, [])
      else scan (suc len) s len (s.start_index % len) (s.scan_cursor % len) true

  -- An idle provider, from index `j` on, that can stream and has work.
  pub idle_with_work : Supervisor Symbol Instrument → ℕ → List (ProviderState Symbol) → Bool
  idle_with_work s j [] = false
  idle_with_work s j (p ∷ ps) =
      (is_provider_idle p
        && can_provider_stream s j
        && not (is_empty (compute_needed_instruments_for s j)))
      || idle_with_work s (j + 1) ps

  unfoldable pub should_attempt_starts : Supervisor Symbol Instrument → Bool
  unfolding idle_with_work
  should_attempt_starts s = not s.round_exhausted && idle_with_work s 0 s.providers
