-- ===== src/Supervisor/Machine.antt =====
-- The transitions of the machine, and `handle`, which follows each with the starts that it makes
-- possible. `none` is a panic of an index that is out of range.
pub mod Bounds
pub mod Total
pub mod Phases
pub mod Notify
pub mod Startup
pub mod AllFail
use borsa.Prelude.{
  ℕ, ◌+◌, ◌*◌, ◌%◌, min, Bool, true, false, ◌&&◌, not, Option, none, some, List, [], ◌∷◌, ◌++◌, map,
  ◌==◌, if◌then◌else◌, Eq, length, set, any, get_elem?,
}
use borsa.Capability.{as_str}
use borsa.Errors.{BorsaError, collapse_stream_errors}
use borsa.Middleware.{ok, err}
use borsa.Quota.{u64_max}
use borsa.Supervisor.State.{
  Supervisor, ProviderState, Phase, Event, Action, active, in_cooldown, startup, running,
  shutting_down, terminated, provider_start_succeeded, provider_start_failed, session_ended,
  backoff_tick, downstream_closed, shutdown, stop_all, await_all, notify_initial,
  schedule_backoff_tick, preempt_sessions, is_active, is_provider_idle_from_cooldown,
  clear_cooldown,
}
use borsa.Supervisor.Starts.{
  compute_lower_priority_overlaps, compute_needed_starts, should_attempt_starts,
}

-- A new machine and its actions, or a panic.
abbrev pub Step : (Symbol Instrument : Type 0) → Type 0
Step Symbol Instrument = Option (Supervisor Symbol Instrument × List (Action Symbol Instrument))

module _ {Symbol Instrument : Type 0} where
  abbrev pub has_any_active : Supervisor Symbol Instrument → Bool
  has_any_active s = any is_active s.providers

  abbrev pub set_provider :
      Supervisor Symbol Instrument → ℕ → ProviderState Symbol → Supervisor Symbol Instrument
  set_provider s id p = record s { providers = set s.providers id p }

  -- `saturating_mul` in 64 bits.
  abbrev pub increase_backoff : Supervisor Symbol Instrument → Supervisor Symbol Instrument
  increase_backoff s = record s {
    backoff_ms = min (min (s.backoff_ms * s.factor) u64_max) s.max_backoff_ms;
  }

  pub advance_scan_cursor_for_failure :
      Supervisor Symbol Instrument → (id now : ℕ) → Supervisor Symbol Instrument
  advance_scan_cursor_for_failure s id now =
      let next_cursor = (id + 1) % length s.providers in
      record s {
        providers = set s.providers id (in_cooldown now);
        scan_cursor = next_cursor;
        round_exhausted = if next_cursor == s.start_index then true else s.round_exhausted;
      }

  abbrev pub should_terminate_startup : Supervisor Symbol Instrument → Bool
  should_terminate_startup s = not (has_any_active s) && s.round_exhausted

  -- The report to the first caller that no provider could be started.
  abbrev report_failure :
      Supervisor Symbol Instrument → ℕ → List (BorsaError Symbol) → Action Symbol Instrument
  report_failure s tx errors =
      notify_initial tx (err (collapse_stream_errors (as_str s.capability) errors))

  startup_failure_end :
      Supervisor Symbol Instrument
      → Option ℕ
      → List (BorsaError Symbol)
      → Supervisor Symbol Instrument × List (Action Symbol Instrument)
  startup_failure_end s none errors = (record s { phase = startup none errors }, [])
  startup_failure_end s (some tx) errors =
      if should_terminate_startup s
      then (record s { phase = terminated }, report_failure s tx errors ∷ [])
      else (record s { phase = startup (some tx) errors }, [])

  pub handle_startup_failure :
      Supervisor Symbol Instrument
      → (id now : ℕ) → BorsaError Symbol
      → Option ℕ
      → List (BorsaError Symbol)
      → Supervisor Symbol Instrument × List (Action Symbol Instrument)
  unfolding advance_scan_cursor_for_failure startup_failure_end
  handle_startup_failure s id now error initial_tx accumulated_errors =
      startup_failure_end (advance_scan_cursor_for_failure s id now) initial_tx
        (accumulated_errors ++ error ∷ [])

  -- The end of a tick: a new round, and the next tick.
  finish_tick :
      Supervisor Symbol Instrument
      → Phase Symbol
      → Supervisor Symbol Instrument × List (Action Symbol Instrument)
  finish_tick s phase = (
    record s {
      attempted_since_last_tick = false;
      scan_cursor = s.start_index;
      round_exhausted = false;
      phase = phase;
    },
    schedule_backoff_tick s.backoff_ms ∷ [],
  )

  -- The tick after attempts that have left no provider active.
  tick_without_active :
      Supervisor Symbol Instrument
      → Phase Symbol
      → Bool
      → Supervisor Symbol Instrument × List (Action Symbol Instrument)
  unfolding finish_tick
  tick_without_active s (startup (some tx) errors) true =
      (record s { phase = terminated }, report_failure s tx errors ∷ [])
  tick_without_active s phase exhausted =
      finish_tick (record (increase_backoff s) { start_index = 0 }) phase

  pub handle_backoff_tick :
      Supervisor Symbol Instrument
      → Phase Symbol
      → Supervisor Symbol Instrument × List (Action Symbol Instrument)
  unfolding finish_tick tick_without_active
  handle_backoff_tick s phase =
      let s' = record s { providers = map clear_cooldown s.providers } in
      if s.attempted_since_last_tick
      then if has_any_active s'
        then finish_tick (increase_backoff s') phase
        else tick_without_active s' phase s.round_exhausted
      else finish_tick s' phase

  pub on_failure :
      Supervisor Symbol Instrument
      → Phase Symbol
      → (id now : ℕ) → BorsaError Symbol
      → Option (ProviderState Symbol)
      → Step Symbol Instrument
  unfolding handle_startup_failure advance_scan_cursor_for_failure
  on_failure s (startup initial_tx errors) id now error (some previous) =
      some (handle_startup_failure s id now error initial_tx errors)
  on_failure s running id now error (some previous) =
      some (record (advance_scan_cursor_for_failure s id now) { phase = running }, [])
  on_failure s (startup initial_tx errors) id now error none = none
  on_failure s running id now error none = none
  on_failure s shutting_down id now error previous = some (record s { phase = running }, [])
  on_failure s terminated id now error previous = some (record s { phase = running }, [])

  pub on_session_end :
      Supervisor Symbol Instrument
      → (id now : ℕ) → Option (ProviderState Symbol)
      → Step Symbol Instrument
  on_session_end s id now none = none
  on_session_end s id now (some previous) =
      some (record s { providers = set s.providers id (in_cooldown now) }, [])

  abbrev pub shut_down : Supervisor Symbol Instrument → Step Symbol Instrument
  shut_down s = some (record s { phase = shutting_down }, stop_all ∷ await_all ∷ [])

  abbrev preemptions : List ℕ → List (Action Symbol Instrument)
  preemptions [] = []
  preemptions (id ∷ ids) = preempt_sessions (id ∷ ids) ∷ []

module _ {Symbol Instrument : Type 0} ⦃e : Eq Symbol⦄ where
  -- `previous` is the state of provider `id` before.
  activated :
      Supervisor Symbol Instrument
      → ℕ
      → List Symbol
      → ProviderState Symbol
      → Supervisor Symbol Instrument × List (Action Symbol Instrument)
  activated s id symbols previous =
      let s' = record s {
        providers = set s.providers id (active symbols);
        backoff_ms =
            if is_provider_idle_from_cooldown previous then s.min_backoff_ms else s.backoff_ms;
        start_index = (id + 1) % length s.providers;
        scan_cursor = (id + 1) % length s.providers;
        round_exhausted = false;
      } in
      (
        s',
        preemptions (compute_lower_priority_overlaps s' id symbols)
            ++ schedule_backoff_tick s'.backoff_ms ∷ [],
      )

  abbrev with_phase :
      Phase Symbol
      → Option ℕ
      → Supervisor Symbol Instrument × List (Action Symbol Instrument)
      → Supervisor Symbol Instrument × List (Action Symbol Instrument)
  with_phase phase none (s, actions) = (record s { phase = phase }, actions)
  with_phase phase (some tx) (s, actions) =
      (record s { phase = phase }, notify_initial tx (ok tt) ∷ actions)

  -- The arms of the match on the phase and the event; `previous` is `none` for an index out of range.
  pub on_success :
      Supervisor Symbol Instrument
      → Phase Symbol
      → ℕ
      → List Symbol
      → Option (ProviderState Symbol)
      → Step Symbol Instrument
  unfolding activated
  on_success s (startup initial_tx errors) id symbols (some previous) =
      some (with_phase running initial_tx (activated s id symbols previous))
  on_success s running id symbols (some previous) =
      some (with_phase running none (activated s id symbols previous))
  on_success s (startup initial_tx errors) id symbols none = none
  on_success s running id symbols none = none
  on_success s shutting_down id symbols previous = some (record s { phase = running }, [])
  on_success s terminated id symbols previous = some (record s { phase = running }, [])

  pub transition_for_event :
      ℕ → Supervisor Symbol Instrument → Event Symbol → Step Symbol Instrument
  unfolding on_success on_failure on_session_end handle_backoff_tick
  transition_for_event now s (provider_start_succeeded id symbols) =
      on_success s s.phase id symbols (get_elem? s.providers id)
  transition_for_event now s (provider_start_failed id error) =
      on_failure s s.phase id now error (get_elem? s.providers id)
  transition_for_event now s (session_ended id symbols) =
      on_session_end s id now (get_elem? s.providers id)
  transition_for_event now s backoff_tick = some (handle_backoff_tick s s.phase)
  transition_for_event now s shutdown = shut_down s
  transition_for_event now s downstream_closed = shut_down s

module _ {Symbol Instrument : Type 0} ⦃e : Eq Symbol⦄ (symbol_of : Instrument → Option Symbol) where
  -- The requests, if there are any, go behind the actions of the transition.
  pub with_requests :
      List (Action Symbol Instrument) → Step Symbol Instrument → Step Symbol Instrument
  with_requests actions none = none
  with_requests actions (some (s, [])) = some (s, actions)
  with_requests actions (some (s, req ∷ reqs)) =
      some (record s { attempted_since_last_tick = true }, actions ++ req ∷ reqs)

  pub attempt_starts : Step Symbol Instrument → Step Symbol Instrument
  unfolding with_requests
  attempt_starts none = none
  attempt_starts (some (next, actions)) =
      if should_attempt_starts symbol_of next
      then with_requests actions (compute_needed_starts symbol_of next)
      else some (next, actions)

  unfoldable pub handle : ℕ → Supervisor Symbol Instrument → Event Symbol → Step Symbol Instrument
  unfolding transition_for_event attempt_starts
  handle now s event = attempt_starts (transition_for_event now s event)
