-- ===== src/Supervisor/State.antt =====
-- The types of supervisor_sm.rs, and its tests on the states of the providers.
use borsa.Prelude.{ℕ, Bool, true, false, Option, List, []}
use borsa.Capability.{Capability}
use borsa.Errors.{BorsaError}
use borsa.Middleware.{Outcome}

-- The field `session_meta` of `Active` is a struct with no field.
pub data ProviderState (Symbol : Type 0) : Type 0 where
  idle idle_from_cooldown : ProviderState Symbol
  connecting : (symbols : List Symbol) → ProviderState Symbol
  active : (symbols : List Symbol) → ProviderState Symbol
  in_cooldown : (failed_at : ℕ) → ProviderState Symbol

pub data Phase (Symbol : Type 0) : Type 0 where
  startup : (initial_tx : Option ℕ) (accumulated_errors : List (BorsaError Symbol)) → Phase Symbol
  running shutting_down terminated : Phase Symbol

pub data Event (Symbol : Type 0) : Type 0 where
  provider_start_succeeded : (id : ℕ) (symbols : List Symbol) → Event Symbol
  provider_start_failed : (id : ℕ) (error : BorsaError Symbol) → Event Symbol
  session_ended : (id : ℕ) (symbols : List Symbol) → Event Symbol
  backoff_tick downstream_closed shutdown : Event Symbol

pub data Action (Symbol Instrument : Type 0) : Type 0 where
  request_start : (id : ℕ) (instruments : List Instrument) → Action Symbol Instrument
  stop_all await_all : Action Symbol Instrument
  notify_initial :
      (tx : ℕ) (result : Outcome (BorsaError Symbol) (Unit {0})) → Action Symbol Instrument
  schedule_backoff_tick : (delay_ms : ℕ) → Action Symbol Instrument
  preempt_sessions : (provider_ids : List ℕ) → Action Symbol Instrument

pub record Supervisor (Symbol Instrument : Type 0) : Type 0 where
  pub providers : List (ProviderState Symbol)
  pub provider_instruments : List (List Instrument)
  pub provider_allow : List (List Symbol)
  pub required_symbols : List Symbol
  pub providers_can_stream : List Bool
  pub capability : Capability
  pub start_index : ℕ
  pub scan_cursor : ℕ
  pub round_exhausted : Bool
  pub backoff_ms : ℕ
  pub min_backoff_ms : ℕ
  pub max_backoff_ms : ℕ
  pub factor : ℕ
  pub attempted_since_last_tick : Bool
  pub phase : Phase Symbol

module _ {Symbol : Type 0} where
  abbrev pub is_provider_idle : ProviderState Symbol → Bool
  is_provider_idle idle = true
  is_provider_idle idle_from_cooldown = true
  is_provider_idle (connecting ss) = false
  is_provider_idle (active ss) = false
  is_provider_idle (in_cooldown t) = false

  abbrev pub is_provider_idle_from_cooldown : ProviderState Symbol → Bool
  is_provider_idle_from_cooldown idle_from_cooldown = true
  is_provider_idle_from_cooldown idle = false
  is_provider_idle_from_cooldown (connecting ss) = false
  is_provider_idle_from_cooldown (active ss) = false
  is_provider_idle_from_cooldown (in_cooldown t) = false

  abbrev pub is_active : ProviderState Symbol → Bool
  is_active (active ss) = true
  is_active idle = false
  is_active idle_from_cooldown = false
  is_active (connecting ss) = false
  is_active (in_cooldown t) = false

  -- The symbols of a session that runs or is being started.
  abbrev pub held_symbols : ProviderState Symbol → List Symbol
  held_symbols (connecting ss) = ss
  held_symbols (active ss) = ss
  held_symbols idle = []
  held_symbols idle_from_cooldown = []
  held_symbols (in_cooldown t) = []

  abbrev pub active_symbols : ProviderState Symbol → List Symbol
  active_symbols (active ss) = ss
  active_symbols (connecting ss) = []
  active_symbols idle = []
  active_symbols idle_from_cooldown = []
  active_symbols (in_cooldown t) = []

  -- What a tick makes of a provider's state.
  abbrev pub clear_cooldown : ProviderState Symbol → ProviderState Symbol
  clear_cooldown (in_cooldown t) = idle_from_cooldown
  clear_cooldown idle = idle
  clear_cooldown idle_from_cooldown = idle_from_cooldown
  clear_cooldown (connecting ss) = connecting ss
  clear_cooldown (active ss) = active ss
