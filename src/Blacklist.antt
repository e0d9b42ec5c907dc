-- ===== src/Blacklist.antt =====
-- borsa-middleware/src/blacklist.rs: the middleware that gates a connector after a rate limit.
-- Instants and durations are nanoseconds; `Instant::now()` is an argument.
pub mod Gate
pub mod Runs
use borsa.Prelude.{none, some, Option, ℕ, if◌then◌else◌, ◌+◌, ltb, max, ◌*◌, ◌-◌, ◌/◌}
use borsa.Errors.{BorsaError, rate_limit_exceeded, temporarily_blacklisted}
use borsa.Middleware.{CallOrigin, external, internal, Layer, Outcome, ok, err}
use borsa.Quota.{ns_per_ms, to_u64}

pub record BlacklistConnector : Type 0 where
  pub state : Option ℕ
  pub default_duration : ℕ

unfoldable pub new : ℕ → BlacklistConnector
new default_duration = record { state = none; default_duration = default_duration }

remaining_of : Option ℕ → ℕ → BlacklistConnector → Option ℕ × BlacklistConnector
remaining_of none now b = (none, b)
remaining_of (some until) now b =
    if ltb now until
    then (some (max (to_u64 ((until - now) / ns_per_ms)) 1), b)
    else (none, record b { state = none })

unfoldable pub blacklist_remaining_ms : ℕ → BlacklistConnector → Option ℕ × BlacklistConnector
unfolding remaining_of
blacklist_remaining_ms now b = remaining_of b.state now b

abbrev pub blacklist_until : ℕ → BlacklistConnector → BlacklistConnector
blacklist_until until b = record b { state = some until }

-- The provider's window, or the default where it is zero.
abbrev pub penalty : ℕ → BlacklistConnector → ℕ
penalty window_ms b = if ltb 0 window_ms then window_ms * ns_per_ms else b.default_duration

module _ {Symbol : Type 0} where
  unfoldable pub handle_error :
      BorsaError Symbol → ℕ → BlacklistConnector → BorsaError Symbol × BlacklistConnector
  handle_error (rate_limit_exceeded limit window_ms) now b =
      (rate_limit_exceeded limit window_ms, blacklist_until (now + penalty window_ms b) b)
  handle_error e now b = (e, b)

  gate : Option ℕ × BlacklistConnector → Outcome (BorsaError Symbol) (Unit {0}) × BlacklistConnector
  gate (some ms, b) = (err (temporarily_blacklisted ms), b)
  gate (none, b) = (ok tt, b)

  pre_call_from :
      CallOrigin
      → ℕ
      → BlacklistConnector
      → Outcome (BorsaError Symbol) (Unit {0}) × BlacklistConnector
  unfolding gate blacklist_remaining_ms
  pre_call_from (internal p s) now b = (ok tt, b)
  pre_call_from external now b = gate (blacklist_remaining_ms now b)

  map_error_from :
      CallOrigin
      → BorsaError Symbol
      → ℕ
      → BlacklistConnector
      → BorsaError Symbol × BlacklistConnector
  unfolding handle_error
  map_error_from (internal p s) e now b = (e, b)
  map_error_from external e now b = handle_error e now b

  unfoldable pub blacklist_layer : Layer BlacklistConnector (BorsaError Symbol)
  unfolding pre_call_from map_error_from
  blacklist_layer = record {
    pre_call = λ ctx now b. pre_call_from ctx.origin now b;
    map_error = λ ctx now e b. map_error_from ctx.origin e now b;
  }
