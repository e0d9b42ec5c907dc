-- ===== src/Supervisor/Machine/Notify.antt =====
-- The first caller is told of the outcome of the startup at most once.
use borsa.Errors.{BorsaError}
use borsa.Prelude.{
  ℕ, suc, ◌+◌, ◌≤◌, ◌≡◌, refl, ap, Bool, true, Option, none, some, List, [], ◌∷◌, ◌++◌, map, arith,
  Eq, All, subst, ◌>>=◌,
}
use borsa.Supervisor.State.{
  Supervisor, Event, Phase, ProviderState, Action, startup, running, shutting_down, terminated,
  provider_start_succeeded, provider_start_failed, session_ended, backoff_tick, downstream_closed,
  shutdown, request_start, notify_initial, schedule_backoff_tick, clear_cooldown,
}
use borsa.Supervisor.Machine.{
  Step, transition_for_event, on_success, on_failure, on_session_end, activated, preemptions,
  advance_scan_cursor_for_failure, handle_startup_failure, startup_failure_end, handle_backoff_tick,
  finish_tick, tick_without_active, attempt_starts, handle,
}
use borsa.Supervisor.Machine.Phases.{StartedFrom, attempt_starts-Started}
use borsa.Supervisor.Starts.Requested.{IsRequest}

module _ {Symbol Instrument : Type 0} where
  -- The reports to the first caller among some actions.
  abbrev pub reports : List (Action Symbol Instrument) → ℕ
  reports [] = 0
  reports (notify_initial tx result ∷ actions) = suc (reports actions)
  reports (_ ∷ actions) = reports actions

  reports-append :
      (xs ys : List (Action Symbol Instrument)) → reports (xs ++ ys) ≡ reports xs + reports ys
  reports-append [] ys = omega arith
  reports-append (notify_initial tx result ∷ xs) ys = omega (arith, reports-append xs ys)
  reports-append (request_start id insts ∷ xs) ys = reports-append xs ys
  reports-append (_ ∷ xs) ys = reports-append xs ys

-- One while the first caller still waits for a report, else none.
abbrev pub pending : {Symbol : Type 0} → Phase Symbol → ℕ
pending (startup (some tx) errors) = 1
pending (startup none errors) = 0
pending running = 0
pending shutting_down = 0
pending terminated = 0

pending_le : {Symbol : Type 0} (phase : Phase Symbol) → pending phase ≤ 1
pending_le (startup (some tx) errors) = omega arith
pending_le (startup none errors) = omega arith
pending_le running = omega arith
pending_le shutting_down = omega arith
pending_le terminated = omega arith

-- The reports of a step and the one that is still to come are no more than `k`.
abbrev Within : {Symbol Instrument : Type 0} → ℕ → Step Symbol Instrument → Type 0
Within k none = Unit
Within k (some (s, actions)) = reports actions + pending s.phase ≤ k

module _ {Symbol Instrument : Type 0} where
  failure_end-Within :
      (s : Supervisor Symbol Instrument) (tx : Option ℕ) (errors : List (BorsaError Symbol))
      → Within (pending (startup tx errors)) (some (startup_failure_end s tx errors))
  unfolding startup_failure_end
  failure_end-Within s none errors = omega arith
  failure_end-Within s (some tx) errors = ground arith

  failure-Within :
      (s : Supervisor Symbol Instrument) (phase : Phase Symbol) (id now : ℕ)
      (error : BorsaError Symbol) (o : Option (ProviderState Symbol))
      → Within (pending phase) (on_failure s phase id now error o)
  unfolding on_failure handle_startup_failure
  failure-Within s (startup none errors) id now error (some p) =
      failure_end-Within (advance_scan_cursor_for_failure s id now) none (errors ++ error ∷ [])
  failure-Within s (startup (some tx) errors) id now error (some p) =
      failure_end-Within (advance_scan_cursor_for_failure s id now) (some tx) (errors ++ error ∷ [])
  failure-Within s running id now error (some p) = omega arith
  failure-Within s (startup tx errors) id now error none = tt
  failure-Within s running id now error none = tt
  failure-Within s shutting_down id now error o = omega arith
  failure-Within s terminated id now error o = omega arith

  session_end-Within :
      (s : Supervisor Symbol Instrument) (id now : ℕ) (o : Option (ProviderState Symbol))
      → Within (pending s.phase) (on_session_end s id now o)
  unfolding on_session_end
  session_end-Within s id now none = tt
  session_end-Within s id now (some p) = omega arith

  without_active-Within :
      (s : Supervisor Symbol Instrument) (phase : Phase Symbol) (exhausted : Bool)
      → Within (pending phase) (some (tick_without_active s phase exhausted))
  unfolding tick_without_active finish_tick
  without_active-Within s (startup (some tx) errors) true = omega arith
  without_active-Within s _ exhausted = omega arith

  tick-Within :
      (s : Supervisor Symbol Instrument) (phase : Phase Symbol)
      → Within (pending phase) (some (handle_backoff_tick s phase))
  unfolding handle_backoff_tick finish_tick
  tick-Within s phase = ground (
    arith,
    without_active-Within (record s { providers = map clear_cooldown s.providers }) phase
        s.round_exhausted,
  )

preemptions-reports :
    (Symbol Instrument : Type 0) (ids : List ℕ) (delay_ms : ℕ)
    → reports {Symbol = Symbol} {Instrument = Instrument}
        (preemptions ids ++ schedule_backoff_tick delay_ms ∷ [])
      ≡ 0
preemptions-reports Symbol Instrument [] delay_ms = refl
preemptions-reports Symbol Instrument (id ∷ ids) delay_ms = refl

module _ {Symbol Instrument : Type 0} ⦃e : Eq Symbol⦄ where
  activated-reports :
      (s : Supervisor Symbol Instrument) (id : ℕ) (symbols : List Symbol) (p : ProviderState Symbol)
      → reports (activated s id symbols p).1 ≡ 0
  unfolding activated
  activated-reports s id symbols p = preemptions-reports Symbol Instrument _ _

  success-Within :
      (s : Supervisor Symbol Instrument) (phase : Phase Symbol) (id : ℕ) (symbols : List Symbol)
      (o : Option (ProviderState Symbol))
      → Within (pending phase) (on_success s phase id symbols o)
  unfolding on_success
  success-Within s (startup none errors) id symbols (some p) =
      omega (arith, activated-reports s id symbols p)
  success-Within s (startup (some tx) errors) id symbols (some p) =
      omega (arith, activated-reports s id symbols p)
  success-Within s running id symbols (some p) = omega (arith, activated-reports s id symbols p)
  success-Within s (startup tx errors) id symbols none = tt
  success-Within s running id symbols none = tt
  success-Within s shutting_down id symbols o = omega arith
  success-Within s terminated id symbols o = omega arith

  transition-Within :
      (now : ℕ) (s : Supervisor Symbol Instrument) (event : Event Symbol)
      → Within (pending s.phase) (transition_for_event now s event)
  unfolding transition_for_event
  transition-Within now s (provider_start_succeeded id symbols) =
      success-Within s s.phase id symbols _
  transition-Within now s (provider_start_failed id error) = failure-Within s s.phase id now error _
  transition-Within now s (session_ended id symbols) = session_end-Within s id now _
  transition-Within now s backoff_tick = tick-Within s s.phase
  transition-Within now s shutdown = omega arith
  transition-Within now s downstream_closed = omega arith

module _ {Symbol Instrument : Type 0} ⦃e : Eq Symbol⦄ (symbol_of : Instrument → Option Symbol) where
  requests-reports :
      (next : Supervisor Symbol Instrument) (ps : List (ProviderState Symbol))
      (xs : List (Action Symbol Instrument))
      → All (IsRequest symbol_of next ps) xs
      → reports xs ≡ 0
  requests-reports next ps [] h = refl
  requests-reports next ps (request_start id insts ∷ xs) h = requests-reports next ps xs h.1
  requests-reports next ps (_ ∷ xs) h = absurd h.0

  starts-Within :
      (k : ℕ) (o : Step Symbol Instrument) → Within k o → Within k (attempt_starts symbol_of o)
  unfolding attempt_starts
  starts-Within k none h = tt
  starts-Within k (some (next, actions)) h =
      go (attempt_starts symbol_of (some (next, actions)))
        (attempt_starts-Started symbol_of next actions)
    where
      go : (o : Step Symbol Instrument) → StartedFrom symbol_of next actions o → Within k o
      go none d = tt
      go (some (s', all_actions)) d =
          let phase_kept = ap (λ (x : Supervisor Symbol Instrument). pending x.phase) d.frame in
          omega (
            arith,
            phase_kept,
            ap reports d.appended,
            reports-append actions d.requests,
            requests-reports next s'.providers d.requests d.are_requests,
          )

  -- The driver's events, each with its time, one after the other.
  unfoldable pub run :
      Supervisor Symbol Instrument → List (ℕ × Event Symbol) → Step Symbol Instrument
  run s [] = some (s, [])
  run s ((now, event) ∷ rest) = do
    (s', actions) ← handle symbol_of now s event
    (s'', more) ← run s' rest
    some (s'', actions ++ more)

  handle-Within :
      (now : ℕ) (s : Supervisor Symbol Instrument) (event : Event Symbol)
      → Within (pending s.phase) (handle symbol_of now s event)
  unfolding handle
  handle-Within now s event = starts-Within (pending s.phase) _ (transition-Within now s event)

  >>=-Within :
      (k : ℕ) (m : Step Symbol Instrument)
      (f : Supervisor Symbol Instrument → Step Symbol Instrument)
      → Within k m
      → ((s : Supervisor Symbol Instrument) → Within (pending s.phase) (f s))
      → Within k (m >>= λ r. f r.0 >>= λ q. some (q.0, r.1 ++ q.1))
  >>=-Within k none f h g = tt
  >>=-Within k (some (s, actions)) f h g = go (f s) (g s)
    where
      go :
          (o : Step Symbol Instrument)
          → Within (pending s.phase) o
          → Within k (o >>= λ q. some (q.0, actions ++ q.1))
      go none d = tt
      go (some (s', more)) d = omega (arith, reports-append actions more)

  run-Within :
      (s : Supervisor Symbol Instrument) (events : List (ℕ × Event Symbol))
      → Within (pending s.phase) (run s events)
  unfolding run
  run-Within s [] = omega arith
  run-Within s ((now, event) ∷ rest) =
      >>=-Within (pending s.phase) (handle symbol_of now s event) (λ s'. run s' rest)
        (handle-Within now s event) (λ s'. run-Within s' rest)

  -- Whatever the machine and the events, a run that does not panic reports to the first caller at
  -- most once; not at all if the caller had its report before the run; and if the run has reported,
  -- the machine holds no sender to report by again.
  pub run-reports_once :
      (s s' : Supervisor Symbol Instrument) (events : List (ℕ × Event Symbol))
      (actions : List (Action Symbol Instrument))
      → run s events ≡ some (s', actions)
      → (reports actions ≤ 1) × (reports actions + pending s'.phase ≤ pending s.phase)
  run-reports_once s s' events actions h =
      let k = subst (Within (pending s.phase)) h (run-Within s events) in
      (omega (arith, k, pending_le s.phase), k)
