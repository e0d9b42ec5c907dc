-- ===== src/Supervisor/Starts/Requested.antt =====
-- Every request of a round is for an idle provider that can stream, for some work of its own, and
-- leaves the provider connecting with the symbols of that work.
use borsa.Prelude.{
  ℕ, ◌≡◌, refl, sym, ◌∙◌, subst, ◌⊎◌, inl, inr, true, false, Option, none, some, List, arith,
  ℕ_discrete, Eq, get_elem?, set, get_elem?-set_self, get_elem?-set_ne, is_empty, All, in_range,
}
use borsa.Supervisor.State.{
  Supervisor, Action, ProviderState, connecting, request_start, is_provider_idle,
}
use borsa.Supervisor.Starts.{symbols_of, flag_at, should_include_instrument, contains}
use borsa.Supervisor.Starts.Requests.{is_needed, should_include_instrument-needed}

module _ {Symbol : Type 0} where
  abbrev pub IdleAt : List (ProviderState Symbol) → ℕ → Type 0
  IdleAt ps j = (p : ProviderState Symbol) × (get_elem? ps j ≡ some p) × (is_provider_idle p ≡ true)

  abbrev pub ConnectingAt : List (ProviderState Symbol) → ℕ → List Symbol → Type 0
  ConnectingAt ps j symbols = get_elem? ps j ≡ some (connecting symbols)

  -- From `ps` to `qs` each provider stays as it is, or goes from idle to connecting.
  pub record Progress (ps qs : List (ProviderState Symbol)) : Type 0 where
    pub at :
        (j : ℕ)
        → (get_elem? qs j ≡ get_elem? ps j)
          ⊎ (IdleAt ps j × ((symbols : List Symbol) × ConnectingAt qs j symbols))

  pub Progress-refl : (ps : List (ProviderState Symbol)) → Progress ps ps
  Progress-refl ps = record { at = λ j. inl refl }

  connecting_busy :
      (ps : List (ProviderState Symbol)) (j : ℕ) (symbols : List Symbol)
      → ConnectingAt ps j symbols
      → IdleAt ps j
      → ⊥
  connecting_busy ps j symbols c (p, e, i) = ground arith

  pub Progress-trans :
      (ps qs rs : List (ProviderState Symbol)) → Progress ps qs → Progress qs rs → Progress ps rs
  Progress-trans ps qs rs f g = record { at = λ j. join j (f.at j) (g.at j) }
    where
      join :
          (j : ℕ)
          → (get_elem? qs j ≡ get_elem? ps j)
            ⊎ (IdleAt ps j × ((symbols : List Symbol) × ConnectingAt qs j symbols))
          → (get_elem? rs j ≡ get_elem? qs j)
            ⊎ (IdleAt qs j × ((symbols : List Symbol) × ConnectingAt rs j symbols))
          → (get_elem? rs j ≡ get_elem? ps j)
            ⊎ (IdleAt ps j × ((symbols : List Symbol) × ConnectingAt rs j symbols))
      join j (inl a) (inl b) = inl (b ∙ a)
      join j (inl a) (inr ((p, e, i), c)) = inr ((p, sym a ∙ e, i), c)
      join j (inr (i, (ss, c))) (inl b) = inr (i, (ss, b ∙ c))
      join j (inr (i, (ss, c))) (inr (k, d)) = absurd (connecting_busy qs j ss c k)

  -- A provider that connects goes on connecting.
  pub Progress-connecting :
      (ps qs : List (ProviderState Symbol)) (j : ℕ) (symbols : List Symbol)
      → Progress ps qs
      → ConnectingAt ps j symbols
      → ConnectingAt qs j symbols
  Progress-connecting ps qs j symbols f c = go (f.at j)
    where
      go :
          (get_elem? qs j ≡ get_elem? ps j)
            ⊎ (IdleAt ps j × ((ss : List Symbol) × ConnectingAt qs j ss))
          → ConnectingAt qs j symbols
      go (inl a) = a ∙ c
      go (inr (i, d)) = absurd (connecting_busy ps j symbols c i)

  -- A provider that is idle was idle.
  pub Progress-idle :
      (ps qs : List (ProviderState Symbol)) (j : ℕ) → Progress ps qs → IdleAt qs j → IdleAt ps j
  Progress-idle ps qs j f (p, e, i) = go (f.at j)
    where
      go :
          (get_elem? qs j ≡ get_elem? ps j)
            ⊎ (IdleAt ps j × ((ss : List Symbol) × ConnectingAt qs j ss))
          → IdleAt ps j
      go (inl a) = (p, sym a ∙ e, i)
      go (inr (k, d)) = k

  pub Progress-set :
      (ps : List (ProviderState Symbol)) (i : ℕ) (symbols : List Symbol)
      → IdleAt ps i
      → Progress ps (set ps i (connecting symbols))
  Progress-set ps i symbols (p, e, idle_before) = record {
    at = λ j. elim (ℕ_discrete i j) [
      | yes same ↦ inr (
        subst (IdleAt ps) same (p, e, idle_before),
        (
          symbols,
          subst (λ k. ConnectingAt (set ps i (connecting symbols)) k symbols) same
              (get_elem?-set_self ps i (connecting symbols) (in_range ps i p e)),
        ),
      )
      | no other ↦ inl (get_elem?-set_ne ps i j (connecting symbols) other)
    ];
  }

module _ {Symbol Instrument : Type 0} ⦃e : Eq Symbol⦄ (symbol_of : Instrument → Option Symbol) where
  -- What is said of an instrument that provider `id` is asked to stream.
  pub record IsAssigned (s : Supervisor Symbol Instrument) (id : ℕ) (inst : Instrument)
      : Type 0 where
    pub symbol : Symbol
    pub has_symbol : symbol_of inst ≡ some symbol
    pub allow : List Symbol
    pub allow_of : get_elem? s.provider_allow id ≡ some allow
    pub allowed : contains allow symbol ≡ true
    pub required : contains s.required_symbols symbol ≡ true

  -- What is said of a request, from the machine before the round and the providers after it.
  pub record IsRequested (s : Supervisor Symbol Instrument) (after : List (ProviderState Symbol))
      (id : ℕ) (insts : List Instrument) : Type 0 where
    pub was_idle : IdleAt s.providers id
    pub streams : flag_at s.providers_can_stream id ≡ true
    pub has_work : is_empty insts ≡ false
    pub assigned : All (IsAssigned s id) insts
    pub connects : ConnectingAt after id (symbols_of symbol_of insts)

  abbrev pub IsRequest :
      (s : Supervisor Symbol Instrument) (after : List (ProviderState Symbol))
      → Action Symbol Instrument
      → Type 0
  IsRequest s after (request_start id insts) = IsRequested s after id insts
  IsRequest s after _ = ⊥

  pub needed-IsAssigned :
      (s : Supervisor Symbol Instrument) (id : ℕ) (allow_set : List Symbol)
      → get_elem? s.provider_allow id ≡ some allow_set
      → (inst : Instrument) → should_include_instrument symbol_of s id inst allow_set ≡ true
      → IsAssigned s id inst
  needed-IsAssigned s id allow_set a inst h =
      go (symbol_of inst) refl
        (sym (should_include_instrument-needed symbol_of s id inst allow_set) ∙ h)
    where
      go :
          (o : Option Symbol)
          → symbol_of inst ≡ o
          → is_needed symbol_of s id allow_set o ≡ true
          → IsAssigned s id inst
      go none p k = cc k
      go (some x) p k = record {
        symbol = x;
        has_symbol = p;
        allow = allow_set;
        allow_of = a;
        allowed = ground arith;
        required = ground arith;
      }
