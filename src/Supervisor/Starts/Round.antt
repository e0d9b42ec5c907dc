-- ===== src/Supervisor/Starts/Round.antt =====
-- A whole round of the scan, from its visits.
use borsa.Prelude.{
  ℕ, ◌≡◌, ap, subst, Bool, true, Option, some, List, [], ◌∷◌, ◌++◌, Eq, get_elem?, All, All-append,
  zero, suc, ◌+◌, ◌%◌, refl, inl, inr, false, ◌&&◌, ◌||◌, not, none, arith, ◌==◌, Bool-cases,
  length, length-set, get_elem?-set_self, All-keep_if, All-map, in_range,
}
use borsa.Supervisor.State.{Supervisor, Action, ProviderState, request_start, is_provider_idle}
use borsa.Supervisor.Starts.{
  visit, visit_state, start_with, scan, prepend, compute_needed_starts,
  compute_needed_instruments_for, needed_of, symbols_of, flag_at, should_include_instrument,
  can_provider_stream, contains,
}
use borsa.Supervisor.Starts.Scan.{SameBut, SameBut-refl, SameBut-trans}
use borsa.Supervisor.Starts.Requested.{
  IdleAt, Progress, Progress-refl, Progress-trans, Progress-idle, Progress-connecting, Progress-set,
  IsAssigned, IsRequest, needed-IsAssigned,
}

module _ {Symbol Instrument : Type 0} ⦃e : Eq Symbol⦄ (symbol_of : Instrument → Option Symbol) where
  -- What a part of a round does.
  pub record IsRound (s s' : Supervisor Symbol Instrument)
      (actions : List (Action Symbol Instrument)) : Type 0 where
    pub same : SameBut s s'
    pub progress : Progress s.providers s'.providers
    pub requests : All (IsRequest symbol_of s s'.providers) actions

  IsRound-nil : (s : Supervisor Symbol Instrument) → IsRound s s []
  IsRound-nil s = record {
    same = SameBut-refl s;
    progress = Progress-refl s.providers;
    requests = tt;
  }

  keep-IsAssigned :
      (s t : Supervisor Symbol Instrument) (id : ℕ) (insts : List Instrument)
      → SameBut s t
      → All (IsAssigned symbol_of t id) insts
      → All (IsAssigned symbol_of s id) insts
  keep-IsAssigned s t id [] b h = tt
  keep-IsAssigned s t id (inst ∷ insts) b h = (
    record {
      symbol = h.0.symbol;
      has_symbol = h.0.has_symbol;
      allow = h.0.allow;
      allow_of =
          subst (λ (l : List (List Symbol)). get_elem? l id ≡ some h.0.allow)
            (ap (λ (x : Supervisor Symbol Instrument). x.provider_allow) b.frame) h.0.allow_of;
      allowed = h.0.allowed;
      required =
          subst (λ (l : List Symbol). contains l h.0.symbol ≡ true)
            (ap (λ (x : Supervisor Symbol Instrument). x.required_symbols) b.frame) h.0.required;
    },
    keep-IsAssigned s t id insts b h.1,
  )

  -- Requests made later in the round, as seen from its start.
  later_requests :
      (s t u : Supervisor Symbol Instrument) (actions : List (Action Symbol Instrument))
      → SameBut s t
      → Progress s.providers t.providers
      → All (IsRequest symbol_of t u.providers) actions
      → All (IsRequest symbol_of s u.providers) actions
  later_requests s t u [] b p h = tt
  later_requests s t u (request_start id insts ∷ actions) b p h = (
    record {
      was_idle = Progress-idle s.providers t.providers id p h.0.was_idle;
      streams =
          subst (λ (l : List Bool). flag_at l id ≡ true)
            (ap (λ (x : Supervisor Symbol Instrument). x.providers_can_stream) b.frame) h.0.streams;
      has_work = h.0.has_work;
      assigned = keep-IsAssigned s t id insts b h.0.assigned;
      connects = h.0.connects;
    },
    later_requests s t u actions b p h.1,
  )
  later_requests s t u (_ ∷ actions) b p h = absurd h.0

  -- Requests made earlier in the round, as seen from its end.
  earlier_requests :
      (s t u : Supervisor Symbol Instrument) (actions : List (Action Symbol Instrument))
      → Progress t.providers u.providers
      → All (IsRequest symbol_of s t.providers) actions
      → All (IsRequest symbol_of s u.providers) actions
  earlier_requests s t u [] p h = tt
  earlier_requests s t u (request_start id insts ∷ actions) p h = (
    record {
      was_idle = h.0.was_idle;
      streams = h.0.streams;
      has_work = h.0.has_work;
      assigned = h.0.assigned;
      connects = Progress-connecting t.providers u.providers id _ p h.0.connects;
    },
    earlier_requests s t u actions p h.1,
  )
  earlier_requests s t u (_ ∷ actions) p h = absurd h.0

  IsRound-append :
      (s t u : Supervisor Symbol Instrument) (xs ys : List (Action Symbol Instrument))
      → IsRound s t xs
      → IsRound t u ys
      → IsRound s u (xs ++ ys)
  IsRound-append s t u xs ys f g = record {
    same = SameBut-trans s t u f.same g.same;
    progress = Progress-trans s.providers t.providers u.providers f.progress g.progress;
    requests =
        All-append (IsRequest symbol_of s u.providers) xs ys
          (earlier_requests s t u xs g.progress f.requests)
          (later_requests s t u ys f.same f.progress g.requests);
  }

  needed_of-IsAssigned :
      (s : Supervisor Symbol Instrument) (id : ℕ) (allow : Option (List Symbol))
      (insts : Option (List Instrument))
      → get_elem? s.provider_allow id ≡ allow
      → All (IsAssigned symbol_of s id) (needed_of symbol_of s id allow insts)
  unfolding needed_of
  needed_of-IsAssigned s id (some allow_set) (some insts) a =
      All-map (needed-IsAssigned symbol_of s id allow_set a) _
        (All-keep_if (λ inst. should_include_instrument symbol_of s id inst allow_set) insts)
  needed_of-IsAssigned s id none insts a = tt
  needed_of-IsAssigned s id (some allow_set) none a = tt

  start_with-IsRound :
      (s : Supervisor Symbol Instrument) (i : ℕ) (insts : List Instrument)
      → IdleAt s.providers i
      → can_provider_stream s i ≡ true
      → All (IsAssigned symbol_of s i) insts
      → IsRound s (start_with symbol_of s i insts).0 (start_with symbol_of s i insts).1
  unfolding start_with
  start_with-IsRound s i [] was streams h = IsRound-nil s
  start_with-IsRound s i (inst ∷ insts) was streams h = record {
    same = record { frame = refl; same_length = length-set s.providers i _ };
    progress = Progress-set s.providers i (symbols_of symbol_of (inst ∷ insts)) was;
    requests = (
      record {
        was_idle = was;
        streams = streams;
        has_work = refl;
        assigned = h;
        connects = get_elem?-set_self s.providers i _ (in_range s.providers i was.0 was.1);
      },
      tt,
    );
  }

  visit_state-IsRound :
      (s : Supervisor Symbol Instrument) (i : ℕ) (o : Option (ProviderState Symbol))
      → get_elem? s.providers i ≡ o
      → IsRound s (visit_state symbol_of s i o).0 (visit_state symbol_of s i o).1
  unfolding visit_state compute_needed_instruments_for
  visit_state-IsRound s i none q = IsRound-nil s
  visit_state-IsRound s i (some state) q =
      elim (Bool-cases (is_provider_idle state && can_provider_stream s i)) [
        | inl go ↦ rw go (
            start_with-IsRound s i _ (state, q, ground arith) (ground arith)
              (needed_of-IsAssigned s i (get_elem? s.provider_allow i)
                (get_elem? s.provider_instruments i) refl))
        | inr stop ↦ rw stop (IsRound-nil s)
      ]

  visit-IsRound :
      (s : Supervisor Symbol Instrument) (i : ℕ)
      → IsRound s (visit symbol_of s i).0 (visit symbol_of s i).1
  unfolding visit
  visit-IsRound s i = visit_state-IsRound s i (get_elem? s.providers i) refl

  -- A run of the scan that returns has done a round.
  abbrev Returned :
      Supervisor Symbol Instrument
      → Option (Supervisor Symbol Instrument × List (Action Symbol Instrument))
      → Type 0
  Returned s none = Unit
  Returned s (some (s', actions)) = IsRound s s' actions

  Returned-prepend :
      (s t : Supervisor Symbol Instrument) (actions : List (Action Symbol Instrument))
      (o : Option (Supervisor Symbol Instrument × List (Action Symbol Instrument)))
      → IsRound s t actions
      → Returned t o
      → Returned s (prepend symbol_of actions o)
  Returned-prepend s t actions none h k = tt
  Returned-prepend s t actions (some (u, more)) h k = IsRound-append s t u actions more h k

  scan-Returned :
      (f : ℕ) (s : Supervisor Symbol Instrument) (len start i : ℕ) (first : Bool)
      → Returned s (scan symbol_of f s len start i first)
  unfolding scan
  scan-Returned zero s len start i first = tt
  scan-Returned (suc f) s len start i first = elim (Bool-cases (not first && i == start)) [
    | inl stop ↦ rw stop (visit-IsRound s i)
    | inr go ↦ rw go (
        Returned-prepend s (visit symbol_of s i).0 (visit symbol_of s i).1 _ (visit-IsRound s i)
          (scan-Returned f (visit symbol_of s i).0 len start ((i + 1) % len) false))
  ]

  needed_starts-Returned :
      (s : Supervisor Symbol Instrument) → Returned s (compute_needed_starts symbol_of s)
  unfolding compute_needed_starts
  needed_starts-Returned s = elim (Bool-cases (length s.providers == 0 || s.round_exhausted)) [
    | inl stop ↦ rw stop (IsRound-nil s)
    | inr go ↦ rw go (scan-Returned (suc (length s.providers)) s (length s.providers) _ _ true)
  ]

  -- Every action of the scan is a start request for a provider that was idle and can stream, with at
  -- least one instrument, each of which has a symbol that is allowed for the provider and required;
  -- after the scan that provider connects with those symbols. Every provider stays as it was or goes
  -- from idle to connecting, and nothing but the providers' states changes.
  pub compute_needed_starts-IsRound :
      (s s' : Supervisor Symbol Instrument) (actions : List (Action Symbol Instrument))
      → compute_needed_starts symbol_of s ≡ some (s', actions)
      → IsRound s s' actions
  compute_needed_starts-IsRound s s' actions h = subst (Returned s) h (needed_starts-Returned s)
