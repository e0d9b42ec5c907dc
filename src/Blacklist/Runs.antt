-- ===== src/Blacklist/Runs.antt =====
-- Sequences of external calls through the gate, one after the other, and which of them reach the
-- inner connector.
use borsa.Capability.{Capability}
use borsa.Prelude.{
  ℕ, ◌+◌, ◌*◌, ◌≤◌, Option, none, some, List, [], ◌∷◌, ◌==◌, if◌then◌else◌, All, max,
}
use borsa.Errors.{BorsaError, rate_limit_exceeded}
use borsa.Middleware.{Outcome, Provider, external, ok, err, panicked, delegate}
use borsa.Quota.{ns_per_ms}
use borsa.Blacklist.{BlacklistConnector, blacklist_layer, penalty}

pub record TimedCall : Type 0 where
  pub capability : Capability
  pub start : ℕ
  pub end : ℕ

-- A call that has reached the inner connector, with its outcome.
pub record ReachedCall (Symbol A : Type 0) : Type 0 where
  pub start : ℕ
  pub end : ℕ
  pub outcome : Outcome (BorsaError Symbol) A

-- When the penalty of a call that ended so is over: the provider's window, or the default duration
-- where that is zero, counts from the end of the call.
abbrev pub penalty_after : {Symbol : Type 0} → (duration end : ℕ) → BorsaError Symbol → ℕ
penalty_after duration end (rate_limit_exceeded limit window_ms) =
    end + (if window_ms == 0 then duration else window_ms * ns_per_ms)
penalty_after duration end _ = 0

module _ {Symbol A : Type 0} where
  abbrev pub outcome_penalty : (duration end : ℕ) → Outcome (BorsaError Symbol) A → ℕ
  outcome_penalty duration end (ok a) = 0
  outcome_penalty duration end (err e) = penalty_after duration end e
  outcome_penalty duration end panicked = 0

  abbrev pub penalty_end : ℕ → ReachedCall Symbol A → ℕ
  penalty_end duration call = outcome_penalty duration call.end call.outcome

  -- Of calls, the newest first, none has started within the penalty of one before it.
  abbrev pub IsSpaced : ℕ → List (ReachedCall Symbol A) → Type 0
  IsSpaced duration [] = Unit
  IsSpaced duration (call ∷ older) =
      All (λ c. penalty_end duration c ≤ call.start) older × IsSpaced duration older

-- The calls start one after the other, the first not before `from`.
abbrev pub StartInOrder : ℕ → List TimedCall → Type 0
StartInOrder from [] = Unit
StartInOrder from (c ∷ calls) = (from ≤ c.start) × StartInOrder c.start calls

abbrev until_of : Option ℕ → ℕ
until_of none = 0
until_of (some until) = until

module _ {Symbol T A : Type 0} (inner : Provider T (BorsaError Symbol) A) where
  -- The inner connector, which keeps a list of the calls that reach it.
  abbrev pub observed : Provider (List (ReachedCall Symbol A) × T) (BorsaError Symbol) A
  observed ctx now later (log, t) =
      let r = inner ctx now later t in
      (r.0, (record { start = now; end = later; outcome = r.0 } ∷ log, r.1))

  abbrev State : Type 0
  State = BlacklistConnector × (List (ReachedCall Symbol A) × T)

  abbrev pub made : TimedCall → State → State
  unfolding delegate
  made c st =
      (delegate blacklist_layer observed (record { capability = c.capability; origin = external })
        c.start c.end st).1

  unfoldable pub run : List TimedCall → State → State
  run [] st = st
  run (c ∷ calls) st = run calls (made c st)

  -- The gate after a call that ended so.
  abbrev after_error : BlacklistConnector → (end : ℕ) → BorsaError Symbol → BlacklistConnector
  after_error b end (rate_limit_exceeded limit window_ms) = record b {
    state = some (end + penalty window_ms b);
  }
  after_error b end _ = record b { state = none }

  abbrev settled :
      BlacklistConnector → (end : ℕ) → Outcome (BorsaError Symbol) A → BlacklistConnector
  settled b end (ok a) = record b { state = none }
  settled b end (err e) = after_error b end e
  settled b end panicked = record b { state = none }

  -- The penalties of the calls so far are over by the start of the next one, or shut the gate.
  abbrev IsCovered : ℕ → ℕ → BlacklistConnector → List (ReachedCall Symbol A) → Type 0
  IsCovered duration from b log =
      All (λ x. penalty_end duration x ≤ max from (until_of b.state)) log
