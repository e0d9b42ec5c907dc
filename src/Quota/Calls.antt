-- ===== src/Quota/Calls.antt =====
-- A quota behind a blacklist, as the builder stacks them: what a provider's rate limit costs.
use borsa.Prelude.{refl, none, ℕ, String, ◌≡◌, arith, ◌<◌, ◌+◌, max, ◌-◌, ◌/◌}
use borsa.Errors.{BorsaError, connector, rate_limit_exceeded, temporarily_blacklisted}
use borsa.Middleware.{CallContext, Provider, external, err, delegate}
use borsa.Quota.{QuotaRuntime, quota_layer, allowed, should_allow_call, ns_per_ms, to_u64}
use borsa.Blacklist.{BlacklistConnector, blacklist_layer, penalty}
use borsa.Blacklist.Gate.{shut_gate_blocks, rate_limit_shuts_gate}

module _ {Symbol T A : Type 0} (provider : Provider T (BorsaError Symbol) A) where
  abbrev behind_quota : Provider (QuotaRuntime × T) (BorsaError Symbol) A
  behind_quota = delegate quota_layer provider

  abbrev pub stacked : Provider (BlacklistConnector × (QuotaRuntime × T)) (BorsaError Symbol) A
  stacked = delegate blacklist_layer behind_quota

  quota_unwraps :
      (ctx : CallContext) (now later limit window_ms : ℕ) (name : String) (rt : QuotaRuntime)
      → (t t' : T) → ctx.origin ≡ external
      → (should_allow_call rt now).0 ≡ allowed
      → provider ctx now later t ≡ (err (connector name (rate_limit_exceeded limit window_ms)), t')
      → behind_quota ctx now later (rt, t)
        ≡ (err (rate_limit_exceeded limit window_ms), ((should_allow_call rt now).1, t'))
  unfolding delegate quota_layer
  quota_unwraps ctx now later limit window_ms name rt t t' o a e = ground arith

  -- When the quota allows an external call and the provider answers with a rate limit under its
  -- tag, the caller gets the rate limit without the tag, and until the penalty is over every further
  -- external call fails as blacklisted and leaves the quota and the provider untouched.
  pub rate_limit_cooldown :
      (ctx next : CallContext) (now later then_now then_later limit window_ms : ℕ) (name : String)
      → (b : BlacklistConnector) (rt : QuotaRuntime) (t t' : T) → ctx.origin ≡ external
      → next.origin ≡ external
      → b.state ≡ none
      → (should_allow_call rt now).0 ≡ allowed
      → provider ctx now later t ≡ (err (connector name (rate_limit_exceeded limit window_ms)), t')
      → then_now < later + penalty window_ms b
      → let after = (stacked ctx now later (b, (rt, t))).1 in
        ((stacked ctx now later (b, (rt, t))).0 ≡ err (rate_limit_exceeded limit window_ms))
        × (stacked next then_now then_later after ≡ (
          err (
              temporarily_blacklisted
                (max (to_u64 ((later + penalty window_ms b - then_now) / ns_per_ms)) 1)),
          after,
        ))
        × (after.1 ≡ ((should_allow_call rt now).1, t'))
  rate_limit_cooldown ctx next now later then_now then_later limit window_ms name b rt t t' o o' s a
        e h =
      let q = quota_unwraps ctx now later limit window_ms name rt t t' o a e in
      let g = rate_limit_shuts_gate behind_quota ctx now later limit window_ms b (rt, t) _ o s q in
      rw g (
        refl,
        shut_gate_blocks behind_quota next then_now then_later (later + penalty window_ms b) _ _ o'
            refl h,
        refl,
      )
