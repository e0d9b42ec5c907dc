-- ===== src/Quota.antt =====
-- borsa-middleware/src/quota.rs: the quota-aware connector, its accounting windows and slices, and
-- the origin of a call (borsa-core/src/middleware.rs). Instants and durations are nanoseconds;
-- `Instant::now()` is an argument of each call, and `duration_since` stops at zero, as the standard
-- library's does. A division by a zero window is a panic, which is a result of the model.
pub mod Calls
pub mod Windows
pub mod Budget
use borsa.Prelude.{
  ℕ, ◌+◌, ◌-◌, ◌*◌, ◌/◌, ◌^◌, min, max, Bool, true, false, ◌&&◌, ◌||◌, String, Option, ltb, leb,
  ◌==◌, if◌then◌else◌,
}
use borsa.Errors.{BorsaError, connector, rate_limit_exceeded, quota_exceeded}
use borsa.Middleware.{CallOrigin, Outcome, Layer, external, internal, ok, err}

pub data QuotaConsumptionStrategy : Type 0 where
  unit weighted even_spread_hourly : QuotaConsumptionStrategy

pub record QuotaConfig : Type 0 where
  pub limit : ℕ
  pub window : ℕ
  pub strategy : QuotaConsumptionStrategy

pub record QuotaRuntime : Type 0 where
  pub limit : ℕ
  pub calls_made_in_window : ℕ
  pub last_reset : ℕ
  pub window : ℕ
  pub allowed_per_slice : ℕ
  pub slice_duration : ℕ
  pub calls_made_in_slice : ℕ
  pub slice_start : ℕ
  pub strategy : QuotaConsumptionStrategy

-- What a check of the quota comes to.
pub data Verdict : Type 0 where
  allowed : Verdict
  exceeded : (remaining reset_in_ms : ℕ) → Verdict
  panicked : Verdict

abbrev pub u64_max : ℕ
u64_max = 2 ^ 64 - 1

-- `try_into().unwrap_or(u64::MAX)` on a value that is not negative.
abbrev pub to_u64 : ℕ → ℕ
to_u64 n = min n u64_max

abbrev pub ns_per_ms : ℕ
ns_per_ms = 1_000_000

abbrev pub is_hourly : QuotaConsumptionStrategy → Bool
is_hourly even_spread_hourly = true
is_hourly unit = false
is_hourly weighted = false

-- The slice's allowance and its duration.
pub slice_parameters : QuotaConfig → ℕ × ℕ
slice_parameters c =
    if is_hourly c.strategy
    then (max 1 (c.limit / 24), to_u64 (max 1 (to_u64 (c.window / ns_per_ms) / 24)) * ns_per_ms)
    else (0, 0)

-- `QuotaAwareConnector::new` reads the clock twice.
unfoldable pub new : QuotaConfig → (now later : ℕ) → QuotaRuntime
unfolding slice_parameters
new c now later = record {
  limit = c.limit;
  calls_made_in_window = 0;
  last_reset = now;
  window = c.window;
  allowed_per_slice = (slice_parameters c).0;
  slice_duration = (slice_parameters c).1;
  calls_made_in_slice = 0;
  slice_start = later;
  strategy = c.strategy;
}

-- How far a boundary moves after `elapsed` in periods of `period`: whole periods only.
pub boundary_offset : (elapsed period : ℕ) → ℕ
boundary_offset elapsed period = to_u64 (elapsed / period * period)

pub reset_window : QuotaRuntime → ℕ → QuotaRuntime
unfolding boundary_offset
reset_window rt now =
    if leb rt.window (now - rt.last_reset)
    then record rt {
      calls_made_in_window = 0;
      last_reset = rt.last_reset + boundary_offset (now - rt.last_reset) rt.window;
    }
    else rt

pub reset_slice : QuotaRuntime → ℕ → QuotaRuntime
unfolding boundary_offset
reset_slice rt now =
    if leb rt.slice_duration (now - rt.slice_start)
    then record rt {
      calls_made_in_slice = 0;
      slice_start = rt.slice_start + boundary_offset (now - rt.slice_start) rt.slice_duration;
    }
    else rt

-- Milliseconds up to the end of a period that began at `start`.
pub reset_in : (period start now : ℕ) → ℕ
reset_in period start now = to_u64 ((period - (now - start)) / ns_per_ms)

-- The test against the overall window, last in the function.
pub take_from_window : QuotaRuntime → ℕ → Verdict × QuotaRuntime
unfolding reset_in
take_from_window rt now =
    if ltb rt.calls_made_in_window rt.limit
    then (
      allowed,
      record rt {
        calls_made_in_window = rt.calls_made_in_window + 1;
        calls_made_in_slice =
            if is_hourly rt.strategy then rt.calls_made_in_slice + 1 else rt.calls_made_in_slice;
      },
    )
    else (exceeded (rt.limit - rt.calls_made_in_window) (reset_in rt.window rt.last_reset now), rt)

-- The slice's test, before it.
pub take_from_slice : QuotaRuntime → ℕ → Verdict × QuotaRuntime
unfolding reset_in take_from_window
take_from_slice rt now =
    if leb rt.allowed_per_slice rt.calls_made_in_slice && ltb rt.calls_made_in_window rt.limit
    then (
      exceeded (rt.limit - rt.calls_made_in_window) (reset_in rt.slice_duration rt.slice_start now),
      rt,
    )
    else take_from_window rt now

pub check_slice : QuotaRuntime → ℕ → Verdict × QuotaRuntime
unfolding reset_slice take_from_slice
check_slice rt now =
    if is_hourly rt.strategy
    then if rt.slice_duration == 0
      then (panicked, record rt { calls_made_in_slice = 0 })
      else take_from_slice (reset_slice rt now) now
    else take_from_window rt now

-- A period of zero has always elapsed, and the count of periods passed then divides by it.
unfoldable pub should_allow_call : QuotaRuntime → ℕ → Verdict × QuotaRuntime
unfolding reset_window check_slice
should_allow_call rt now =
    if rt.window == 0
    then (panicked, record rt { calls_made_in_window = 0 })
    else check_slice (reset_window rt now) now

module _ {Symbol : Type 0} where
  abbrev verdict_result : Verdict → Outcome (BorsaError Symbol) (Unit {0})
  verdict_result allowed = ok tt
  verdict_result (exceeded remaining reset_in_ms) = err (quota_exceeded remaining reset_in_ms)
  verdict_result panicked = Outcome.panicked

  pre_call_from :
      CallOrigin → ℕ → QuotaRuntime → Outcome (BorsaError Symbol) (Unit {0}) × QuotaRuntime
  pre_call_from (internal p s) now rt = (ok tt, rt)
  pre_call_from external now rt =
      (verdict_result (should_allow_call rt now).0, (should_allow_call rt now).1)

  -- A rate limit that a connector's tag hides comes out of the tag.
  unfoldable pub translate_provider_error : BorsaError Symbol → BorsaError Symbol
  translate_provider_error (connector name (rate_limit_exceeded limit window_ms)) =
      rate_limit_exceeded limit window_ms
  translate_provider_error e = e

  map_error_from : CallOrigin → BorsaError Symbol → BorsaError Symbol
  unfolding translate_provider_error
  map_error_from (internal p s) e = e
  map_error_from external e = translate_provider_error e

  unfoldable pub quota_layer : Layer QuotaRuntime (BorsaError Symbol)
  unfolding pre_call_from map_error_from
  quota_layer = record {
    pre_call = λ ctx now rt. pre_call_from ctx.origin now rt;
    map_error = λ ctx now e rt. (map_error_from ctx.origin e, rt);
  }
