-- ===== src/Blacklist/Gate.antt =====
-- How long a rate limit shuts the gate, and what passes it.
use borsa.Capability.{Capability}
use borsa.Prelude.{some, ℕ, ◌≡◌, ◌<◌, max, ◌-◌, ◌/◌, arith, none, ◌+◌, Option, ◌≤◌, String}
use borsa.Errors.{BorsaError, rate_limit_exceeded, temporarily_blacklisted}
use borsa.Middleware.{CallContext, external, Provider, err, delegate}
use borsa.Quota.{ns_per_ms, to_u64}
use borsa.Blacklist.{BlacklistConnector, blacklist_layer, penalty, ok, internal}

-- A gate that is shut up to `until`.
abbrev pub IsShut : BlacklistConnector → ℕ → Type 0
IsShut b until = b.state ≡ some until

module _ {Symbol T A : Type 0} (inner : Provider T (BorsaError Symbol) A) where
  abbrev gated : Provider (BlacklistConnector × T) (BorsaError Symbol) A
  gated = delegate blacklist_layer inner

  -- While the gate is shut, an external call fails with the milliseconds that are left, one at
  -- least, and neither the inner connector nor the gate changes.
  pub shut_gate_blocks :
      (ctx : CallContext) (now later until : ℕ) (b : BlacklistConnector) (t : T)
      → ctx.origin ≡ external
      → IsShut b until
      → now < until
      → gated ctx now later (b, t)
        ≡ (err (temporarily_blacklisted (max (to_u64 ((until - now) / ns_per_ms)) 1)), (b, t))
  unfolding delegate blacklist_layer
  shut_gate_blocks ctx now later until b t o s h = ground arith

  -- An external call whose inner call ends in a rate limit passes that error on and shuts the gate
  -- from the time of the error for the provider's window, or for the default one if that is zero.
  pub rate_limit_shuts_gate :
      (ctx : CallContext) (now later limit window_ms : ℕ) (b : BlacklistConnector) (t t' : T)
      → ctx.origin ≡ external
      → b.state ≡ none
      → inner ctx now later t ≡ (err (rate_limit_exceeded limit window_ms), t')
      → gated ctx now later (b, t) ≡ (
        err (rate_limit_exceeded limit window_ms),
        (record b { state = some (later + penalty window_ms b) }, t'),
      )
  unfolding delegate blacklist_layer
  rate_limit_shuts_gate ctx now later limit window_ms b t t' o s e = ground arith

  -- An internal call passes both ways as if there were no gate, and leaves the gate alone.
  pub internal_calls_pass :
      (ctx : CallContext) (now later : ℕ) (b : BlacklistConnector) (t : T)
      → (p : Option Capability) (stage : String) → ctx.origin ≡ internal p stage
      → gated ctx now later (b, t) ≡ ((inner ctx now later t).0, (b, (inner ctx now later t).1))
  unfolding delegate blacklist_layer
  internal_calls_pass ctx now later b t p stage o = ground arith

module _ {Symbol : Type 0} where
  -- Once the time is up, the next external call is let through and clears the gate.
  pub expired_gate_opens :
      (ctx : CallContext) (now until : ℕ) (b : BlacklistConnector)
      → ctx.origin ≡ external
      → IsShut b until
      → until ≤ now
      → (blacklist_layer {Symbol = Symbol}).pre_call ctx now b ≡ (ok tt, record b { state = none })
  unfolding blacklist_layer
  expired_gate_opens ctx now until b o s h = ground arith
