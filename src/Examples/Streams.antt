-- ===== src/Examples/Streams.antt =====
-- Two providers that stream the symbols of two instruments, as the supervisor meets them.
use borsa.Prelude.{
  String, ◌≡◌, refl, true, false, Option, some, List, [], ◌∷◌, arith, ℕ, zero, suc, get_elem?, ◌+◌,
  ◌≤◌, inl, All,
}
use borsa.Prelude.{string_eq, String}
use borsa.Capability.{stream_quotes}
use borsa.Errors.{BorsaError, data_issue}
use borsa.Supervisor.State.{
  Supervisor, ProviderState, Action, startup, running, shutting_down, idle, connecting, active,
  request_start, provider_start_succeeded, shutdown, stop_all, await_all, schedule_backoff_tick,
  preempt_sessions, is_active,
}
use borsa.Supervisor.Starts.{
  compute_needed_instruments_for, compute_coverage_count, provider_has_symbol_before,
  compute_lower_priority_overlaps, compute_needed_starts, should_attempt_starts,
  should_include_instrument,
}
use borsa.Supervisor.Starts.Scan.{SameBut, compute_needed_starts_total}
use borsa.Supervisor.Starts.Requests.{is_needed, should_include_instrument-needed}
use borsa.Supervisor.Starts.Round.{IsRound, compute_needed_starts-IsRound}
use borsa.Supervisor.Starts.Requested.{IsRequest}
use borsa.Supervisor.Machine.{handle}
use borsa.Supervisor.Machine.Bounds.{IsWellFormed}
use borsa.Supervisor.Machine.Total.{Reaches, handle-IsWellFormed}
use borsa.Supervisor.Machine.Phases.{shutdown_stops}
use borsa.Supervisor.Machine.Notify.{run, reports, pending, run-reports_once}
use borsa.Supervisor.Machine.Startup.{IsStarting, report_of}
use borsa.Supervisor.Machine.AllFail.{EndsWith, failures, startup_fails}

-- An instrument is its symbol here.
abbrev symbol_of : String → Option String
symbol_of s = some s

abbrev both : List String
both = "AAPL" ∷ "MSFT" ∷ []

abbrev fresh : Supervisor String String
fresh = record {
  providers = idle ∷ idle ∷ [];
  provider_instruments = both ∷ both ∷ [];
  provider_allow = both ∷ ("MSFT" ∷ []) ∷ [];
  required_symbols = both;
  providers_can_stream = true ∷ true ∷ [];
  capability = stream_quotes;
  start_index = 0;
  scan_cursor = 0;
  round_exhausted = false;
  backoff_ms = 500;
  min_backoff_ms = 500;
  max_backoff_ms = 30_000;
  factor = 2;
  attempted_since_last_tick = false;
  phase = startup (some 7) [];
}

-- The first provider covers both symbols, so nothing is left for the second.
abbrev started : Supervisor String String
started = record fresh { providers = connecting both ∷ idle ∷ [] }

first_round : compute_needed_starts symbol_of fresh ≡ some (started, request_start 0 both ∷ [])
unfolding compute_needed_starts compute_needed_instruments_for should_include_instrument
    compute_coverage_count provider_has_symbol_before
first_round = refl

compute_needed_starts-IsRound_example : IsRound symbol_of fresh started (request_start 0 both ∷ [])
compute_needed_starts-IsRound_example =
    compute_needed_starts-IsRound symbol_of fresh started (request_start 0 both ∷ []) first_round

compute_needed_starts_total_example :
    (s' : Supervisor String String) × (actions : List (Action String String))
    × (compute_needed_starts symbol_of fresh ≡ some (s', actions))
    × SameBut fresh s'
compute_needed_starts_total_example = compute_needed_starts_total symbol_of fresh

should_include_instrument-needed_example :
    should_include_instrument symbol_of started 1 "MSFT" ("MSFT" ∷ [])
    ≡ is_needed symbol_of started 1 ("MSFT" ∷ []) (some "MSFT")
should_include_instrument-needed_example =
    should_include_instrument-needed symbol_of started 1 "MSFT" ("MSFT" ∷ [])

fresh-IsWellFormed : IsWellFormed 2 fresh
fresh-IsWellFormed = omega arith

handle-IsWellFormed_example :
    Reaches (IsWellFormed 2) (handle symbol_of 10 fresh (provider_start_succeeded 1 both))
handle-IsWellFormed_example =
    handle-IsWellFormed symbol_of 10 fresh (provider_start_succeeded 1 both) fresh-IsWellFormed
      (omega arith)

-- The second provider has taken both symbols; the first, of higher priority, preempts it.
abbrev second_active : Supervisor String String
second_active = record fresh { providers = connecting both ∷ active both ∷ []; phase = running }

preempts :
    handle symbol_of 10 second_active (provider_start_succeeded 0 both)
    ≡ some (
      record second_active {
        providers = active both ∷ active both ∷ [];
        start_index = 1;
        scan_cursor = 1;
      },
      preempt_sessions (1 ∷ []) ∷ schedule_backoff_tick 500 ∷ [],
    )
unfolding handle compute_needed_starts should_attempt_starts compute_lower_priority_overlaps
preempts = refl

starting : IsStarting 2 7 stream_quotes [] fresh
starting = record {
  in_startup = refl;
  none_active = idle_only;
  from_first = refl;
  in_round = refl;
  size = refl;
  asks = refl;
}
  where
    idle_only :
        (j : ℕ) (p : ProviderState String)
        → get_elem? fresh.providers j ≡ some p
        → is_active p ≡ false
    idle_only zero p h = ground arith
    idle_only (suc zero) p h = ground arith
    idle_only (suc (suc j)) p h = cc h

abbrev no_data : BorsaError String
no_data = data_issue "no data"

startup_fails_example :
    EndsWith
      (report_of 7 stream_quotes (no_data ∷ no_data ∷ []))
      (run symbol_of fresh (failures 0 ((3, no_data) ∷ (5, no_data) ∷ [])))
startup_fails_example =
    startup_fails symbol_of fresh [] 0 (3, no_data) ((5, no_data) ∷ []) starting (omega arith)

-- Both providers are active, so a shutdown requests nothing more.
abbrev closing : Supervisor String String
closing = record fresh { providers = active both ∷ active both ∷ [] }

abbrev closed : Supervisor String String
closed = record closing { phase = shutting_down }

closes_once : handle symbol_of 9 closing shutdown ≡ some (closed, stop_all ∷ await_all ∷ [])
unfolding handle should_attempt_starts
closes_once = refl

closes : run symbol_of closing ((9, shutdown) ∷ []) ≡ some (closed, stop_all ∷ await_all ∷ [])
unfolding run
closes = rw closes_once refl

run-reports_once_example :
    (reports {Symbol = String} {Instrument = String} (stop_all ∷ await_all ∷ []) ≤ 1)
    × (reports {Symbol = String} {Instrument = String} (stop_all ∷ await_all ∷ [])
          + pending {Symbol = String} shutting_down
        ≤ pending closing.phase)
run-reports_once_example =
    run-reports_once symbol_of closing (record closing { phase = shutting_down })
      ((9, shutdown) ∷ []) (stop_all ∷ await_all ∷ []) closes

shutdown_stops_example :
    (closed.phase ≡ shutting_down)
    × (requests : List (Action String String)) × (stop_all ∷ await_all ∷ []
        ≡ stop_all ∷ await_all ∷ requests)
    × All
        (IsRequest symbol_of (record closing { phase = shutting_down }) closing.providers)
        requests
shutdown_stops_example =
    shutdown_stops symbol_of 9 closing (record closing { phase = shutting_down }) shutdown
      (stop_all ∷ await_all ∷ []) (inl refl) closes_once
