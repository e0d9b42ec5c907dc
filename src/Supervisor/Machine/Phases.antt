-- ===== src/Supervisor/Machine/Phases.antt =====
-- What events do to the phase of the machine and to its backoff.

use borsa.Supervisor.Starts.{should_attempt_starts}
use borsa.Prelude.{
  ◌≡◌, refl, sym, ap, inl, inr, Bool, true, Option, none, some, List, [], ◌∷◌, ◌++◌, Bool-cases, Eq,
  length, All, ℕ, ◌∙◌, subst, ◌⊎◌,
}
use mathlib.Core.List.{append-nil}
use borsa.Supervisor.State.{
  Supervisor, Event, ProviderState, Action, shutting_down, downstream_closed, shutdown, stop_all,
  await_all,
}
use borsa.Supervisor.Machine.{
  Step, transition_for_event, with_requests, attempt_starts, handle, shut_down,
}
use borsa.Supervisor.Machine.Total.{Reaches}
use borsa.Supervisor.Starts.Scan.{compute_needed_starts_total}
use borsa.Supervisor.Starts.Round.{IsRound, compute_needed_starts-IsRound}
use borsa.Supervisor.Starts.Requested.{IsRequest, Progress, Progress-refl}

module _ {Symbol Instrument : Type 0} ⦃e : Eq Symbol⦄ (symbol_of : Instrument → Option Symbol) where
  -- What the starts behind a transition leave: the machine but for providers and the flag of
  -- attempts, and requests behind the transition's actions.
  pub record Started (next s' : Supervisor Symbol Instrument)
      (actions all_actions : List (Action Symbol Instrument)) : Type 0 where
    pub requests : List (Action Symbol Instrument)
    pub appended : all_actions ≡ actions ++ requests
    pub are_requests : All (IsRequest symbol_of next s'.providers) requests
    pub progress : Progress next.providers s'.providers
    pub same_length : length s'.providers ≡ length next.providers
    pub attempted : Bool
    pub frame : s' ≡ record next { providers = s'.providers; attempted_since_last_tick = attempted }

  abbrev pub StartedFrom :
      Supervisor Symbol Instrument
      → List (Action Symbol Instrument)
      → Step Symbol Instrument
      → Type 0
  StartedFrom next actions none = ⊥
  StartedFrom next actions (some (s', all_actions)) = Started next s' actions all_actions

  with_requests-Started :
      (next s' : Supervisor Symbol Instrument) (actions reqs : List (Action Symbol Instrument))
      → IsRound symbol_of next s' reqs
      → StartedFrom next actions (with_requests symbol_of actions (some (s', reqs)))
  unfolding with_requests
  with_requests-Started next s' actions [] r = record {
    requests = [];
    appended = sym (append-nil actions);
    are_requests = tt;
    progress = r.progress;
    same_length = r.same.same_length;
    attempted = next.attempted_since_last_tick;
    frame = r.same.frame;
  }
  with_requests-Started next s' actions (req ∷ reqs) r = record {
    requests = req ∷ reqs;
    appended = refl;
    are_requests = r.requests;
    progress = r.progress;
    same_length = r.same.same_length;
    attempted = true;
    frame =
        ap (λ (x : Supervisor Symbol Instrument). record x { attempted_since_last_tick = true })
          r.same.frame;
  }

  pub attempt_starts-Started :
      (next : Supervisor Symbol Instrument) (actions : List (Action Symbol Instrument))
      → StartedFrom next actions (attempt_starts symbol_of (some (next, actions)))
  unfolding attempt_starts
  attempt_starts-Started next actions =
      let (s', reqs, found, b) = compute_needed_starts_total symbol_of next in
      elim (Bool-cases (should_attempt_starts symbol_of next)) [
        | inl go ↦
            rw (go, found)
              (with_requests-Started next s' actions reqs
                (compute_needed_starts-IsRound symbol_of next s' reqs found))
        | inr stay ↦ rw stay (record {
          requests = [];
          appended = sym (append-nil actions);
          are_requests = tt;
          progress = Progress-refl next.providers;
          same_length = refl;
          attempted = next.attempted_since_last_tick;
          frame = refl;
        })
      ]

  -- A fact about a machine that does not hang on its providers or on the flag of attempts.
  abbrev pub Indifferent : (Supervisor Symbol Instrument → Type 0) → Type 0
  Indifferent P =
      (s : Supervisor Symbol Instrument) (ps : List (ProviderState Symbol)) (b : Bool)
      → P s
      → P (record s { providers = ps; attempted_since_last_tick = b })

  attempt_starts-keeps :
      (P : Supervisor Symbol Instrument → Type 0)
      → Indifferent P
      → (next : Supervisor Symbol Instrument) (actions : List (Action Symbol Instrument)) → P next
      → Reaches P (attempt_starts symbol_of (some (next, actions)))
  attempt_starts-keeps P keep next actions h =
      go (attempt_starts symbol_of (some (next, actions))) (attempt_starts-Started next actions)
    where
      go : (o : Step Symbol Instrument) → StartedFrom next actions o → Reaches P o
      go none d = d
      go (some (s', all_actions)) d = subst P (sym d.frame) (keep next s'.providers d.attempted h)

  -- A shutdown, or the end of the downstream, in any phase puts the machine in the phase of shutting
  -- down, and its actions begin with the stop and the wait for all sessions; what follows them are
  -- start requests of the round.
  pub shutdown_stops :
      (now : ℕ) (s s' : Supervisor Symbol Instrument) (event : Event Symbol)
      (actions : List (Action Symbol Instrument))
      → (event ≡ shutdown) ⊎ (event ≡ downstream_closed)
      → handle symbol_of now s event ≡ some (s', actions)
      → (s'.phase ≡ shutting_down)
        × (requests : List (Action Symbol Instrument)) × (actions ≡ stop_all ∷ await_all ∷ requests)
        × All (IsRequest symbol_of (record s { phase = shutting_down }) s'.providers) requests
  unfolding handle transition_for_event
  shutdown_stops now s s' event actions w h = (
    ap (λ (x : Supervisor Symbol Instrument). x.phase) d.frame,
    d.requests,
    d.appended,
    d.are_requests,
  )
    where
      same : transition_for_event now s event ≡ shut_down s
      same = elim w [ inl q ↦ rw q refl | inr q ↦ rw q refl ]

      d : Started (record s { phase = shutting_down }) s' (stop_all ∷ await_all ∷ []) actions
      d =
          subst (StartedFrom (record s { phase = shutting_down }) (stop_all ∷ await_all ∷ []))
            (ap (attempt_starts symbol_of) (sym same) ∙ h) (attempt_starts-Started _ _)
