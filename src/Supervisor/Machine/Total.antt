-- ===== src/Supervisor/Machine/Total.antt =====
-- No event panics whose provider is there, and every event keeps the machine well formed.
use borsa.Supervisor.Starts.{should_attempt_starts}
use borsa.Errors.{BorsaError}
use borsa.Prelude.{
  ℕ, ◌<◌, ◌≡◌, refl, sym, ◌∙◌, subst, inl, inr, Option, none, some, List, [], ◌∷◌, arith,
  Bool-cases, Eq, length, get_elem?-some,
}
use borsa.Supervisor.State.{
  Supervisor, Event, Phase, ProviderState, Action, startup, running, shutting_down, terminated,
  provider_start_succeeded, provider_start_failed, session_ended, backoff_tick, downstream_closed,
  shutdown,
}
use borsa.Supervisor.Machine.{
  Step, transition_for_event, on_success, on_failure, on_session_end, with_requests, attempt_starts,
  handle,
}
use borsa.Supervisor.Machine.Bounds.{IsWellFormed, Leaves, transition-IsWellFormed}
use borsa.Supervisor.Starts.Scan.{SameBut, compute_needed_starts_total}

-- A step that is there and leaves a machine with the property.
abbrev pub Reaches :
    {Symbol Instrument : Type 0} (P : Supervisor Symbol Instrument → Type 0)
    → Step Symbol Instrument
    → Type 0
Reaches P none = ⊥
Reaches P (some (s, actions)) = P s

-- The provider that the event names is one of `n`.
abbrev pub EventInRange : {Symbol : Type 0} → ℕ → Event Symbol → Type 0
EventInRange n (provider_start_succeeded id symbols) = id < n
EventInRange n (provider_start_failed id error) = id < n
EventInRange n (session_ended id symbols) = id < n
EventInRange n _ = Unit

module _ {Symbol Instrument : Type 0} ⦃e : Eq Symbol⦄ where
  success_some :
      (s : Supervisor Symbol Instrument) (phase : Phase Symbol) (id : ℕ) (symbols : List Symbol)
      (p : ProviderState Symbol)
      → (r : Supervisor Symbol Instrument × List (Action Symbol Instrument)) × (on_success s phase
            id symbols
            (some p)
          ≡ some r)
  unfolding on_success
  success_some s (startup tx errors) id symbols p = (_, refl)
  success_some s running id symbols p = (_, refl)
  success_some s shutting_down id symbols p = (_, refl)
  success_some s terminated id symbols p = (_, refl)

  failure_some :
      (s : Supervisor Symbol Instrument) (phase : Phase Symbol) (id now : ℕ)
      (error : BorsaError Symbol) (p : ProviderState Symbol)
      → (r : Supervisor Symbol Instrument × List (Action Symbol Instrument)) × (on_failure s phase
            id now error
            (some p)
          ≡ some r)
  unfolding on_failure
  failure_some s (startup tx errors) id now error p = (_, refl)
  failure_some s running id now error p = (_, refl)
  failure_some s shutting_down id now error p = (_, refl)
  failure_some s terminated id now error p = (_, refl)

module _ {Symbol Instrument : Type 0} ⦃e : Eq Symbol⦄ (symbol_of : Instrument → Option Symbol)
    {n : ℕ} where
  SameBut-IsWellFormed :
      (s s' : Supervisor Symbol Instrument) → SameBut s s' → IsWellFormed n s → IsWellFormed n s'
  SameBut-IsWellFormed s s' b v = subst (IsWellFormed n) (sym b.frame) (record {
    size = b.same_length ∙ v.size;
    start_in_range = v.start_in_range;
    cursor_in_range = v.cursor_in_range;
    bounds = v.bounds;
    max_fits = v.max_fits;
    grows = v.grows;
    backoff_above = v.backoff_above;
    backoff_below = v.backoff_below;
  })

  with_requests-Reaches :
      (actions reqs : List (Action Symbol Instrument)) (s : Supervisor Symbol Instrument)
      → IsWellFormed n s
      → Reaches (IsWellFormed n) (with_requests symbol_of actions (some (s, reqs)))
  unfolding with_requests
  with_requests-Reaches actions [] s v = v
  with_requests-Reaches actions (r ∷ reqs) s v = ground arith

  attempt_starts-Reaches :
      (next : Supervisor Symbol Instrument) (actions : List (Action Symbol Instrument))
      → IsWellFormed n next
      → Reaches (IsWellFormed n) (attempt_starts symbol_of (some (next, actions)))
  unfolding attempt_starts
  attempt_starts-Reaches next actions v =
      let (s', reqs, found, b) = compute_needed_starts_total symbol_of next in
      elim (Bool-cases (should_attempt_starts symbol_of next)) [
        | inl go ↦
            rw (go, found)
              (with_requests-Reaches actions reqs s' (SameBut-IsWellFormed next s' b v))
        | inr stay ↦ rw stay v
      ]

  transition-some :
      (now : ℕ) (s : Supervisor Symbol Instrument) (event : Event Symbol)
      → length s.providers ≡ n
      → EventInRange n event
      → (r : Supervisor Symbol Instrument × List (Action Symbol Instrument)) × (transition_for_event
            now s event
          ≡ some r)
  unfolding transition_for_event on_success on_failure on_session_end
  transition-some now s (provider_start_succeeded id symbols) l h =
      let (p, found) = get_elem?-some s.providers id (omega arith) in
      rw found (success_some s s.phase id symbols p)
  transition-some now s (provider_start_failed id error) l h =
      let (p, found) = get_elem?-some s.providers id (omega arith) in
      rw found (failure_some s s.phase id now error p)
  transition-some now s (session_ended id symbols) l h =
      let (p, found) = get_elem?-some s.providers id (omega arith) in rw found (_, refl)
  transition-some now s backoff_tick l h = (_, refl)
  transition-some now s shutdown l h = (_, refl)
  transition-some now s downstream_closed l h = (_, refl)

  -- From a well-formed machine every event, if the provider that it names is there, leads without a
  -- panic to a well-formed machine with as many providers: both cursors point at a provider and the
  -- backoff lies between its two bounds.
  pub handle-IsWellFormed :
      (now : ℕ) (s : Supervisor Symbol Instrument) (event : Event Symbol)
      → IsWellFormed n s
      → EventInRange n event
      → Reaches (IsWellFormed n) (handle symbol_of now s event)
  unfolding handle
  handle-IsWellFormed now s event v h =
      let (r, found) = transition-some now s event v.size h in
      rw found (
        attempt_starts-Reaches r.0 r.1
          (subst (Leaves (IsWellFormed n)) found (transition-IsWellFormed now s event v)))
