-- ===== src/Supervisor/Machine/AllFail.antt =====
-- The run of a startup in which no provider can be started.
use borsa.Prelude.{
  ℕ, ◌+◌, ◌≡◌, refl, sym, ap, subst, Option, none, some, List, [], ◌∷◌, ◌++◌, arith, ◌>>=◌, Eq,
  length,
}
use mathlib.Core.List.{append_assoc}
use borsa.Capability.{Capability}
use borsa.Errors.{BorsaError}
use borsa.Supervisor.State.{Supervisor, Event, Action, terminated, provider_start_failed}
use borsa.Supervisor.Machine.{Step, handle}
use borsa.Supervisor.Machine.Notify.{run}
use borsa.Supervisor.Machine.Total.{Reaches}
use borsa.Supervisor.Machine.Startup.{IsStarting, report_of, early_failure, last_failure}

-- The failures of the providers from `i` on, in order, each with its time.
abbrev pub failures : {Symbol : Type 0} → ℕ → List (ℕ × BorsaError Symbol) → List (ℕ × Event Symbol)
failures i [] = []
failures i ((now, error) ∷ rest) = (now, provider_start_failed i error) ∷ failures (i + 1) rest

abbrev pub errors_of : {Symbol : Type 0} → List (ℕ × BorsaError Symbol) → List (BorsaError Symbol)
errors_of [] = []
errors_of ((now, error) ∷ rest) = error ∷ errors_of rest

-- A run that ends the machine, with a last action.
abbrev pub EndsWith :
    {Symbol Instrument : Type 0} → Action Symbol Instrument → Step Symbol Instrument → Type 0
EndsWith {Symbol} {Instrument} last o =
    (s' : Supervisor Symbol Instrument) × (before : List (Action Symbol Instrument)) × (o
      ≡ some (s', before ++ last ∷ []))
    × (s'.phase ≡ terminated)

module _ {Symbol Instrument : Type 0} where
  EndsWith-prepend :
      (last : Action Symbol Instrument) (actions : List (Action Symbol Instrument))
      (o : Step Symbol Instrument)
      → EndsWith last o
      → EndsWith last (o >>= λ q. some (q.0, actions ++ q.1))
  EndsWith-prepend last actions o (s', before, found, ended) = (
    s',
    actions ++ before,
    rw found (
        ap (λ (l : List (Action Symbol Instrument)). some (s', l))
          (sym (append_assoc actions before (last ∷ [])))),
    ended,
  )

  EndsWith-single :
      (last : Action Symbol Instrument) (o : Step Symbol Instrument)
      (s' : Supervisor Symbol Instrument)
      → o ≡ some (s', last ∷ [])
      → s'.phase ≡ terminated
      → EndsWith last (o >>= λ r. some (r.0, r.1 ++ []))
  EndsWith-single last o s' found ended = (s', [], rw found refl, ended)

  Reaches-some :
      (P : Supervisor Symbol Instrument → Type 0) (o : Step Symbol Instrument)
      → Reaches P o
      → (r : Supervisor Symbol Instrument × List (Action Symbol Instrument)) × (o ≡ some r) × P r.0
  Reaches-some P none h = absurd h
  Reaches-some P (some r) h = (r, refl, h)

module _ {Symbol Instrument : Type 0} ⦃e : Eq Symbol⦄ (symbol_of : Instrument → Option Symbol)
    {n tx : ℕ} {capability : Capability} where
  -- When a machine that is starting up, with no provider active, is told in order of the failure of
  -- every provider that is left in its first round, the run does not panic, the machine has
  -- terminated, and the last action reports to the first caller the collapse of all the errors, those
  -- from before first.
  pub startup_fails :
      (s : Supervisor Symbol Instrument) (errors : List (BorsaError Symbol)) (i : ℕ)
      (first : ℕ × BorsaError Symbol) (rest : List (ℕ × BorsaError Symbol))
      → IsStarting n tx capability errors s
      → i + length (first ∷ rest) ≡ n
      → EndsWith
          (report_of tx capability (errors ++ errors_of (first ∷ rest)))
          (run symbol_of s (failures i (first ∷ rest)))
  unfolding run
  startup_fails s errors i (now, error) [] v h =
      EndsWith-single _ (handle symbol_of now s (provider_start_failed i error)) _
        (last_failure symbol_of s errors i now error v (omega arith)) refl
  startup_fails s errors i (now, error) (second ∷ rest) v h =
      let (r, found, v') =
        Reaches-some (IsStarting n tx capability (errors ++ error ∷ []))
          (handle symbol_of now s (provider_start_failed i error))
          (early_failure symbol_of s errors i now error v (omega arith)) in
      let ih = startup_fails r.0 (errors ++ error ∷ []) (i + 1) second rest v' (omega arith) in
      rw found (
        EndsWith-prepend _ r.1 _ (
          subst
            (λ (l : List (BorsaError Symbol)).
              EndsWith (report_of tx capability l)
                (run symbol_of r.0 (failures (i + 1) (second ∷ rest))))
            (append_assoc errors (error ∷ []) (errors_of (second ∷ rest))) ih))
