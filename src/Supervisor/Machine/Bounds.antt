-- ===== src/Supervisor/Machine/Bounds.antt =====
-- What every event keeps: the cursors point at a provider, the backoff stays between its bounds,
-- and the providers keep their number; and that no event panics whose provider is there.

use borsa.Errors.{BorsaError}
use borsa.Prelude.{
  ℕ, suc, ◌+◌, ◌*◌, ◌≤◌, ◌<◌, ◌≡◌, refl, ap, Bool, true, Option, none, some, List, [], ◌∷◌, map,
  arith, Eq, length, length-set,
}
use borsa.Quota.{u64_max}
use native.Mathlib.Nat.{mod-lt}
use borsa.Supervisor.State.{
  Supervisor, Event, Phase, ProviderState, startup, running, shutting_down, terminated,
  provider_start_succeeded, provider_start_failed, session_ended, backoff_tick, downstream_closed,
  shutdown, clear_cooldown,
}
use borsa.Supervisor.Machine.{
  Step, transition_for_event, on_success, on_failure, on_session_end, handle_backoff_tick,
  handle_startup_failure, advance_scan_cursor_for_failure, activated, startup_failure_end,
  finish_tick, tick_without_active, in_cooldown, active,
}

-- `n` is the number of providers.
pub record IsWellFormed {Symbol Instrument : Type 0} (n : ℕ) (s : Supervisor Symbol Instrument)
    : Type 0 where
  pub size : length s.providers ≡ n
  pub start_in_range : s.start_index < n
  pub cursor_in_range : s.scan_cursor < n
  pub bounds : s.min_backoff_ms ≤ s.max_backoff_ms
  pub max_fits : s.max_backoff_ms ≤ u64_max
  pub grows : 0 < s.factor
  pub backoff_above : s.min_backoff_ms ≤ s.backoff_ms
  pub backoff_below : s.backoff_ms ≤ s.max_backoff_ms

-- A step that does not panic leaves a machine with the property.
abbrev pub Leaves :
    {Symbol Instrument : Type 0} (P : Supervisor Symbol Instrument → Type 0)
    → Step Symbol Instrument
    → Type 0
Leaves P none = Unit
Leaves P (some (s, actions)) = P s

length_clear :
    {Symbol : Type 0} (ps : List (ProviderState Symbol))
    → length (map clear_cooldown ps) ≡ length ps
length_clear [] = refl
length_clear (p ∷ ps) = ap suc (length_clear ps)

mul_ge : (b f : ℕ) → 0 < f → b ≤ b * f
mul_ge b f h = grind arith

module _ {Symbol Instrument : Type 0} {n : ℕ} where
  finish_tick-IsWellFormed :
      (s : Supervisor Symbol Instrument) (phase : Phase Symbol)
      → IsWellFormed n s
      → IsWellFormed n (finish_tick s phase).0
  unfolding finish_tick
  finish_tick-IsWellFormed s phase v = ground arith

  tick_without_active-IsWellFormed :
      (s : Supervisor Symbol Instrument) (phase : Phase Symbol) (exhausted : Bool)
      → IsWellFormed n s
      → IsWellFormed n (tick_without_active s phase exhausted).0
  unfolding tick_without_active finish_tick
  tick_without_active-IsWellFormed s (startup (some tx) errors) true v = ground arith
  tick_without_active-IsWellFormed s _ exhausted v = ground (arith, mul_ge s.backoff_ms s.factor)

  handle_backoff_tick-IsWellFormed :
      (s : Supervisor Symbol Instrument) (phase : Phase Symbol)
      → IsWellFormed n s
      → IsWellFormed n (handle_backoff_tick s phase).0
  unfolding handle_backoff_tick finish_tick
  handle_backoff_tick-IsWellFormed s phase v =
      let cleared = record s { providers = map clear_cooldown s.providers } in
      ground (
        arith,
        length_clear s.providers,
        mul_ge s.backoff_ms s.factor,
        tick_without_active-IsWellFormed cleared phase s.round_exhausted,
      )

  advance-IsWellFormed :
      (s : Supervisor Symbol Instrument) (id now : ℕ)
      → IsWellFormed n s
      → IsWellFormed n (advance_scan_cursor_for_failure s id now)
  unfolding advance_scan_cursor_for_failure
  advance-IsWellFormed s id now v =
      ground (
        arith,
        length-set s.providers id (in_cooldown now),
        mod-lt (id + 1) {m = length s.providers},
      )

  startup_failure_end-IsWellFormed :
      (s : Supervisor Symbol Instrument) (tx : Option ℕ) (errors : List (BorsaError Symbol))
      → IsWellFormed n s
      → IsWellFormed n (startup_failure_end s tx errors).0
  unfolding startup_failure_end
  startup_failure_end-IsWellFormed s none errors v = ground arith
  startup_failure_end-IsWellFormed s (some tx) errors v = ground arith

  on_failure-IsWellFormed :
      (s : Supervisor Symbol Instrument) (phase : Phase Symbol) (id now : ℕ)
      (error : BorsaError Symbol) (o : Option (ProviderState Symbol))
      → IsWellFormed n s
      → Leaves (IsWellFormed n) (on_failure s phase id now error o)
  unfolding on_failure handle_startup_failure
  on_failure-IsWellFormed s (startup tx errors) id now error (some p) v =
      startup_failure_end-IsWellFormed _ tx _ (advance-IsWellFormed s id now v)
  on_failure-IsWellFormed s running id now error (some p) v =
      ground (arith, advance-IsWellFormed s id now v)
  on_failure-IsWellFormed s (startup tx errors) id now error none v = tt
  on_failure-IsWellFormed s running id now error none v = tt
  on_failure-IsWellFormed s shutting_down id now error o v = ground arith
  on_failure-IsWellFormed s terminated id now error o v = ground arith

  on_session_end-IsWellFormed :
      (s : Supervisor Symbol Instrument) (id now : ℕ) (o : Option (ProviderState Symbol))
      → IsWellFormed n s
      → Leaves (IsWellFormed n) (on_session_end s id now o)
  unfolding on_session_end
  on_session_end-IsWellFormed s id now none v = tt
  on_session_end-IsWellFormed s id now (some p) v =
      ground (arith, length-set s.providers id (in_cooldown now))

module _ {Symbol Instrument : Type 0} ⦃e : Eq Symbol⦄ {n : ℕ} where
  activated-IsWellFormed :
      (s : Supervisor Symbol Instrument) (id : ℕ) (symbols : List Symbol) (p : ProviderState Symbol)
      → IsWellFormed n s
      → IsWellFormed n (activated s id symbols p).0
  unfolding activated
  activated-IsWellFormed s id symbols p v =
      ground (
        arith,
        length-set s.providers id (active symbols),
        mod-lt (id + 1) {m = length s.providers},
      )

  on_success-IsWellFormed :
      (s : Supervisor Symbol Instrument) (phase : Phase Symbol) (id : ℕ) (symbols : List Symbol)
      (o : Option (ProviderState Symbol))
      → IsWellFormed n s
      → Leaves (IsWellFormed n) (on_success s phase id symbols o)
  unfolding on_success
  on_success-IsWellFormed s (startup none errors) id symbols (some p) v =
      ground (arith, activated-IsWellFormed s id symbols p v)
  on_success-IsWellFormed s (startup (some tx) errors) id symbols (some p) v =
      ground (arith, activated-IsWellFormed s id symbols p v)
  on_success-IsWellFormed s running id symbols (some p) v =
      ground (arith, activated-IsWellFormed s id symbols p v)
  on_success-IsWellFormed s (startup tx errors) id symbols none v = tt
  on_success-IsWellFormed s running id symbols none v = tt
  on_success-IsWellFormed s shutting_down id symbols o v = ground arith
  on_success-IsWellFormed s terminated id symbols o v = ground arith

  pub transition-IsWellFormed :
      (now : ℕ) (s : Supervisor Symbol Instrument) (event : Event Symbol)
      → IsWellFormed n s
      → Leaves (IsWellFormed n) (transition_for_event now s event)
  unfolding transition_for_event
  transition-IsWellFormed now s (provider_start_succeeded id symbols) v =
      on_success-IsWellFormed s s.phase id symbols _ v
  transition-IsWellFormed now s (provider_start_failed id error) v =
      on_failure-IsWellFormed s s.phase id now error _ v
  transition-IsWellFormed now s (session_ended id symbols) v =
      on_session_end-IsWellFormed s id now _ v
  transition-IsWellFormed now s backoff_tick v = handle_backoff_tick-IsWellFormed s s.phase v
  transition-IsWellFormed now s shutdown v = ground arith
  transition-IsWellFormed now s downstream_closed v = ground arith
