-- ===== src/Examples/Quotas.antt =====
-- A quota of two calls in a window of 24 seconds, with and without slices, and a gate.
use borsa.Blacklist.Runs.{TimedCall, run}
use borsa.Prelude.{
  string_eq, String, ℕ, ◌+◌, ◌-◌, ◌/◌, ◌≤◌, max, ◌≡◌, refl, none, List, [], ◌∷◌, arith,
}
use borsa.Capability.{quote}
use borsa.Errors.{BorsaError, connector, rate_limit_exceeded, temporarily_blacklisted}
use borsa.Middleware.{CallContext, external, Provider, err, delegate}
use borsa.Quota
use borsa.Quota.{
  QuotaRuntime, QuotaConfig, unit, even_spread_hourly, should_allow_call, ns_per_ms, to_u64,
  allowed,
}
use borsa.Quota.Budget.{granted, granted_within_limit, granted_exact, granted_within_slice}
use borsa.Quota.Calls.{stacked, rate_limit_cooldown}
use borsa.Blacklist.{BlacklistConnector, penalty, blacklist_layer}

abbrev plain : QuotaRuntime
plain = record {
  limit = 2;
  calls_made_in_window = 0;
  last_reset = 1000;
  window = 24_000_000_000;
  allowed_per_slice = 0;
  slice_duration = 0;
  calls_made_in_slice = 0;
  slice_start = 1000;
  strategy = unit;
}

abbrev hourly : QuotaRuntime
hourly = record plain {
  limit = 48;
  allowed_per_slice = 2;
  slice_duration = 1_000_000_000;
  strategy = even_spread_hourly;
}

built :
    Quota.new
      (record { limit = 48; window = 24_000_000_000; strategy = even_spread_hourly })
      1000
      1000
    ≡ hourly
unfolding Quota.new
built = refl

abbrev times : List ℕ
times = 1000 ∷ 2000 ∷ 3000 ∷ []

granted_within_limit_example : 0 + granted plain times ≤ 2
granted_within_limit_example = granted_within_limit plain times (omega arith) (omega arith)

granted_exact_example : granted plain times ≡ 2
granted_exact_example = granted_exact plain times refl (omega arith)

-- The window ends in the slice that is open.
abbrev straddling : QuotaRuntime
straddling = record hourly {
  calls_made_in_window = 5;
  calls_made_in_slice = 1;
  slice_start = 23_500_000_000;
}

abbrev around : List ℕ
around = 23_600_000_000 ∷ 24_000_001_000 ∷ 24_400_000_000 ∷ []

allowed_around : granted straddling around ≡ 1
unfolding granted should_allow_call
allowed_around = refl

granted_within_slice_example : 1 + granted straddling around ≤ 2
granted_within_slice_example =
    granted_within_slice straddling around (omega arith) refl (omega arith)

-- A provider that has reached its own limit.
abbrev limited : Provider (Unit {0}) (BorsaError String) ℕ
limited = λ ctx now later t. (err (connector "yf" (rate_limit_exceeded 10 60_000)), t)

abbrev gate : BlacklistConnector
gate = record { state = none; default_duration = 1000 }

abbrev asks : CallContext
asks = record { capability = quote; origin = external }

rate_limit_cooldown_example :
    let after = (stacked limited asks 1000 2000 (gate, (plain, tt))).1 in
    ((stacked limited asks 1000 2000 (gate, (plain, tt))).0 ≡ err (rate_limit_exceeded 10 60_000))
    × (stacked limited asks 5_000_000 5_000_000 after ≡ (
      err (
          temporarily_blacklisted
            (max (to_u64 ((2000 + penalty 60_000 gate - 5_000_000) / ns_per_ms)) 1)),
      after,
    ))
    × (after.1 ≡ ((should_allow_call plain 1000).1, tt))
unfolding should_allow_call
rate_limit_cooldown_example =
    rate_limit_cooldown limited asks asks 1000 2000 5_000_000 5_000_000 10 60_000 "yf" gate plain tt
      tt refl refl refl refl refl (omega arith)

-- A connector that answers every call with a rate limit, and calls of which the second comes too
-- early.
abbrev refusing : Provider ℕ (BorsaError String) ℕ
refusing = λ ctx now later count. (err (rate_limit_exceeded 10 5), count + 1)

abbrev calls : List TimedCall
calls =
    record { capability = quote; start = 1000; end = 2000 }
    ∷ record { capability = quote; start = 5_001_999; end = 5_003_000 }
    ∷ record { capability = quote; start = 5_002_000; end = 5_004_000 }
    ∷ []

two_reached : (run refusing calls (gate, ([], 0))).1.1 ≡ 2
unfolding run delegate blacklist_layer
two_reached = refl
