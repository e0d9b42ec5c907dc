-- ===== src/Supervisor/Machine/Startup.antt =====
-- A startup in which every provider fails in its turn ends with one report of all their errors.
use borsa.Prelude.{
  ℕ, zero, suc, ◌+◌, ◌<◌, ◌≡◌, refl, sym, ◌∙◌, subst, ◌⊎◌, inl, inr, false, Option, some, List, [],
  ◌∷◌, ◌++◌, arith, Eq, length, get_elem?, set, any, get_elem?-some, ◌%◌, ap, true, none,
  length-set,
}
use native.Mathlib.Nat.{mod-eq_of_lt, mod_self}
use borsa.Capability.{Capability, as_str}
use borsa.Errors.{BorsaError, collapse_stream_errors}
use borsa.Middleware.{err}
use borsa.Supervisor.State.{
  Supervisor, ProviderState, Action, connecting, in_cooldown, startup, terminated,
  provider_start_failed, notify_initial, is_active,
}
use borsa.Supervisor.Machine.{
  Step, transition_for_event, on_failure, advance_scan_cursor_for_failure, handle_startup_failure,
  startup_failure_end, attempt_starts, handle,
}
use borsa.Supervisor.Machine.Phases.{StartedFrom, attempt_starts-Started}
use borsa.Supervisor.Machine.Total.{Reaches}
use borsa.Supervisor.Starts.{should_attempt_starts}
use borsa.Supervisor.Starts.Requested.{IdleAt, ConnectingAt, Progress}

module _ {Symbol : Type 0} where
  abbrev pub NoneActive : List (ProviderState Symbol) → Type 0
  NoneActive ps = (j : ℕ) (p : ProviderState Symbol) → get_elem? ps j ≡ some p → is_active p ≡ false

  NoneActive-any : (ps : List (ProviderState Symbol)) → NoneActive ps → any is_active ps ≡ false
  NoneActive-any [] h = refl
  NoneActive-any (p ∷ ps) h = rw (h 0 p refl) (NoneActive-any ps (λ j q k. h (suc j) q k))

  NoneActive-Progress :
      (ps qs : List (ProviderState Symbol)) → Progress ps qs → NoneActive ps → NoneActive qs
  NoneActive-Progress ps qs f h j q k = go (f.at j)
    where
      go :
          (get_elem? qs j ≡ get_elem? ps j)
            ⊎ (IdleAt ps j × ((symbols : List Symbol) × ConnectingAt qs j symbols))
          → is_active q ≡ false
      go (inl same) = h j q (sym same ∙ k)
      go (inr (was, (symbols, c))) =
          let same : connecting symbols ≡ q = cc (sym c ∙ k) in
          subst (λ (p : ProviderState Symbol). is_active p ≡ false) same refl

  NoneActive-set :
      (ps : List (ProviderState Symbol)) (i now : ℕ)
      → NoneActive ps
      → NoneActive (set ps i (in_cooldown now))
  NoneActive-set [] i now h j p k = cc k
  NoneActive-set (q ∷ ps) zero now h zero p k =
      let same : in_cooldown now ≡ p = cc k in
      subst (λ (x : ProviderState Symbol). is_active x ≡ false) same refl
  NoneActive-set (q ∷ ps) zero now h (suc j) p k = h (suc j) p k
  NoneActive-set (q ∷ ps) (suc i) now h zero p k = h zero p k
  NoneActive-set (q ∷ ps) (suc i) now h (suc j) p k =
      NoneActive-set ps i now (λ l r m. h (suc l) r m) j p k

abbrev pub report_of :
    {Symbol Instrument : Type 0}
    → ℕ
    → Capability
    → List (BorsaError Symbol)
    → Action Symbol Instrument
report_of tx capability errors =
    notify_initial tx (err (collapse_stream_errors (as_str capability) errors))

-- A machine of `n` providers that has not yet started any of them, with the errors so far.
pub record IsStarting {Symbol Instrument : Type 0} (n tx : ℕ) (capability : Capability)
    (errors : List (BorsaError Symbol)) (s : Supervisor Symbol Instrument) : Type 0 where
  pub in_startup : s.phase ≡ startup (some tx) errors
  pub none_active : NoneActive s.providers
  pub from_first : s.start_index ≡ 0
  pub in_round : s.round_exhausted ≡ false
  pub size : length s.providers ≡ n
  pub asks : s.capability ≡ capability

module _ {Symbol Instrument : Type 0} ⦃e : Eq Symbol⦄ (symbol_of : Instrument → Option Symbol)
    {n tx : ℕ} {capability : Capability} where
  failure_lem :
      (s : Supervisor Symbol Instrument) (errors : List (BorsaError Symbol)) (i now : ℕ)
      (error : BorsaError Symbol)
      → IsStarting n tx capability errors s
      → i < n
      → transition_for_event now s (provider_start_failed i error)
        ≡ some (
            startup_failure_end
              (advance_scan_cursor_for_failure s i now)
              (some tx)
              (errors ++ error ∷ []))
  unfolding transition_for_event on_failure handle_startup_failure
  failure_lem s errors i now error v h =
      let (p, found) = get_elem?-some s.providers i (omega (arith, v.size)) in
      rw (found, v.in_startup) refl

  advance_early :
      (s : Supervisor Symbol Instrument) (errors : List (BorsaError Symbol)) (i now : ℕ)
      → IsStarting n tx capability errors s
      → i + 1 < n
      → (advance_scan_cursor_for_failure s i now).round_exhausted ≡ false
  unfolding advance_scan_cursor_for_failure
  advance_early s errors i now v h =
      let next : (i + 1) % length s.providers ≡ i + 1 = rw v.size (mod-eq_of_lt h) in ground arith

  advance_last :
      (s : Supervisor Symbol Instrument) (errors : List (BorsaError Symbol)) (i now : ℕ)
      → IsStarting n tx capability errors s
      → i + 1 ≡ n
      → (advance_scan_cursor_for_failure s i now).round_exhausted ≡ true
  unfolding advance_scan_cursor_for_failure
  advance_last s errors i now v h =
      let last : (i + 1) % length s.providers ≡ 0 = rw (v.size, h) (mod_self n) in ground arith

  -- A failure before the last keeps the startup going and its error in the list.
  pub early_failure :
      (s : Supervisor Symbol Instrument) (errors : List (BorsaError Symbol)) (i now : ℕ)
      (error : BorsaError Symbol)
      → IsStarting n tx capability errors s
      → i + 1 < n
      → Reaches
          (IsStarting n tx capability (errors ++ error ∷ []))
          (handle symbol_of now s (provider_start_failed i error))
  unfolding handle startup_failure_end advance_scan_cursor_for_failure
  early_failure s errors i now error v h =
      subst (Reaches (IsStarting n tx capability all_errors))
        (sym (
          ap (attempt_starts symbol_of)
            (failure_lem s errors i now error v (omega arith) ∙ ap some waits)))
        (go (attempt_starts symbol_of (some (next, []))) (attempt_starts-Started symbol_of next []))
    where
      all_errors : List (BorsaError Symbol)
      all_errors = errors ++ error ∷ []

      next : Supervisor Symbol Instrument
      next = record (advance_scan_cursor_for_failure s i now) {
        phase = startup (some tx) all_errors;
      }

      waits :
          startup_failure_end (advance_scan_cursor_for_failure s i now) (some tx) all_errors
          ≡ (next, [])
      waits = ground (arith, advance_early s errors i now v h)

      go :
          (o : Step Symbol Instrument)
          → StartedFrom symbol_of next [] o
          → Reaches (IsStarting n tx capability all_errors) o
      go none d = d
      go (some (s', actions)) d = record {
        in_startup = ap (λ (x : Supervisor Symbol Instrument). x.phase) d.frame;
        none_active =
            NoneActive-Progress next.providers s'.providers d.progress
              (NoneActive-set s.providers i now v.none_active);
        from_first =
            ap (λ (x : Supervisor Symbol Instrument). x.start_index) d.frame ∙ v.from_first;
        in_round =
            ap (λ (x : Supervisor Symbol Instrument). x.round_exhausted) d.frame
            ∙ advance_early s errors i now v h;
        size = d.same_length ∙ length-set s.providers i (in_cooldown now) ∙ v.size;
        asks = ap (λ (x : Supervisor Symbol Instrument). x.capability) d.frame ∙ v.asks;
      }

  -- The last failure ends the startup with the report of all errors.
  pub last_failure :
      (s : Supervisor Symbol Instrument) (errors : List (BorsaError Symbol)) (i now : ℕ)
      (error : BorsaError Symbol)
      → IsStarting n tx capability errors s
      → i + 1 ≡ n
      → handle symbol_of now s (provider_start_failed i error)
        ≡ some (
          record (advance_scan_cursor_for_failure s i now) { phase = terminated },
          report_of tx capability (errors ++ error ∷ []) ∷ [],
        )
  unfolding handle startup_failure_end attempt_starts should_attempt_starts
  last_failure s errors i now error v h =
      ap (attempt_starts symbol_of)
        (failure_lem s errors i now error v (omega arith) ∙ ap some ends)
      ∙ rests
    where
      adv : Supervisor Symbol Instrument
      adv = advance_scan_cursor_for_failure s i now

      quiet : any is_active adv.providers ≡ false
      quiet =
          unfold advance_scan_cursor_for_failure in
          NoneActive-any _ (NoneActive-set s.providers i now v.none_active)

      asks : adv.capability ≡ capability
      asks = unfold advance_scan_cursor_for_failure in v.asks

      ends :
          startup_failure_end adv (some tx) (errors ++ error ∷ [])
          ≡ (record adv { phase = terminated }, report_of tx capability (errors ++ error ∷ []) ∷ [])
      ends = rw (quiet, advance_last s errors i now v h, asks) refl

      rests :
          attempt_starts symbol_of (
            some (
              record adv { phase = terminated },
              report_of tx capability (errors ++ error ∷ []) ∷ [],
            ))
          ≡ some (
            record adv { phase = terminated },
            report_of tx capability (errors ++ error ∷ []) ∷ [],
          )
      rests = rw (advance_last s errors i now v h) refl
