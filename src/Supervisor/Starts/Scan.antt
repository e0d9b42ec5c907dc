-- ===== src/Supervisor/Starts/Scan.antt =====
-- The scan ends within one round, and changes nothing but the states of providers.
use borsa.Prelude.{
  ℕ, zero, suc, ◌+◌, ◌-◌, ◌%◌, ◌<◌, ◌≡◌, refl, ap, ◌∙◌, inl, inr, false, Option, none, some, List,
  [], ◌∷◌, arith, leb, ◌==◌, if◌then◌else◌, Bool-cases, Eq, length, get_elem?, length-set, true,
  ◌||◌,
}
use native.Mathlib.Nat.{mod-lt}
use borsa.Supervisor.State.{Supervisor, Action, ProviderState}
use borsa.Supervisor.Starts.{
  visit, visit_state, start_with, scan, prepend, compute_needed_instruments_for,
  compute_needed_starts,
}

-- The second machine is the first with other states of as many providers.
pub record SameBut {Symbol Instrument : Type 0} (s s' : Supervisor Symbol Instrument) : Type 0 where
  pub frame : s' ≡ record s { providers = s'.providers }
  pub same_length : length s'.providers ≡ length s.providers

module _ {Symbol Instrument : Type 0} where
  pub SameBut-refl : (s : Supervisor Symbol Instrument) → SameBut s s
  SameBut-refl s = record { frame = refl; same_length = refl }

  pub SameBut-trans :
      (s t u : Supervisor Symbol Instrument) → SameBut s t → SameBut t u → SameBut s u
  SameBut-trans s t u h k = record {
    frame =
        k.frame
        ∙ ap (λ (x : Supervisor Symbol Instrument). record x { providers = u.providers }) h.frame;
    same_length = k.same_length ∙ h.same_length;
  }

module _ {Symbol Instrument : Type 0} ⦃e : Eq Symbol⦄ (symbol_of : Instrument → Option Symbol) where
  start_with-SameBut :
      (s : Supervisor Symbol Instrument) (i : ℕ) (insts : List Instrument)
      → SameBut s (start_with symbol_of s i insts).0
  unfolding start_with
  start_with-SameBut s i [] = SameBut-refl s
  start_with-SameBut s i (inst ∷ insts) = record {
    frame = refl;
    same_length = length-set s.providers i _;
  }

  visit_state-SameBut :
      (s : Supervisor Symbol Instrument) (i : ℕ) (o : Option (ProviderState Symbol))
      → SameBut s (visit_state symbol_of s i o).0
  unfolding visit_state
  visit_state-SameBut s i none = SameBut-refl s
  visit_state-SameBut s i (some state) =
      ground (
        arith,
        SameBut-refl s,
        start_with-SameBut s i (compute_needed_instruments_for symbol_of s i),
      )

  pub visit-SameBut : (s : Supervisor Symbol Instrument) (i : ℕ) → SameBut s (visit symbol_of s i).0
  unfolding visit
  visit-SameBut s i = visit_state-SameBut s i (get_elem? s.providers i)

  -- The steps from index `i` to `start`, round a ring of `len` providers.
  abbrev steps : (len start i : ℕ) → ℕ
  steps len start i = if leb i start then start - i else start + len - i

  steps_next :
      (len start i : ℕ)
      → start < len
      → i < len
      → (i == start) ≡ false
      → suc (steps len start ((i + 1) % len)) ≡ steps len start i
  steps_next len start i h k ne = grind arith

  steps_first : (len start : ℕ) → start < len → suc (steps len start ((start + 1) % len)) ≡ len
  steps_first len start h = grind arith

  -- What the scan returns when its fuel is enough.
  abbrev Scanned :
      Supervisor Symbol Instrument
      → Option (Supervisor Symbol Instrument × List (Action Symbol Instrument))
      → Type 0
  Scanned s none = ⊥
  Scanned s (some (s', actions)) = SameBut s s'

  Scanned-prepend :
      (s t : Supervisor Symbol Instrument) (actions : List (Action Symbol Instrument))
      → (o : Option (Supervisor Symbol Instrument × List (Action Symbol Instrument))) → SameBut s t
      → Scanned t o
      → Scanned s (prepend symbol_of actions o)
  Scanned-prepend s t actions none h k = k
  Scanned-prepend s t actions (some (u, more)) h k = SameBut-trans s t u h k

  scan-Scanned :
      (f : ℕ) (s : Supervisor Symbol Instrument) (len start i : ℕ)
      → start < len
      → i < len
      → steps len start i < f
      → Scanned s (scan symbol_of f s len start i false)
  unfolding scan
  scan-Scanned zero s len start i h k m = absurd (omega arith)
  scan-Scanned (suc f) s len start i h k m = elim (Bool-cases (i == start)) [
    | inl stop ↦ rw stop (visit-SameBut s i)
    | inr go ↦ rw go (
        Scanned-prepend s (visit symbol_of s i).0 _ _ (visit-SameBut s i) (
          scan-Scanned f (visit symbol_of s i).0 len start ((i + 1) % len) h (omega arith)
            (omega (arith, steps_next len start i h k go))))
  ]

  steps_lt : (len start i : ℕ) → start < len → i < len → steps len start i < len
  steps_lt len start i h k = ground arith

  -- A round from any cursor ends by the loop's test: one visit more than there are providers is
  -- fuel enough.
  round-Scanned :
      (s : Supervisor Symbol Instrument) (len start i : ℕ)
      → start < len
      → i < len
      → Scanned s (scan symbol_of (suc len) s len start i true)
  unfolding scan
  round-Scanned s len start i h k =
      Scanned-prepend s (visit symbol_of s i).0 _ _ (visit-SameBut s i) (
        scan-Scanned len (visit symbol_of s i).0 len start ((i + 1) % len) h (omega arith)
          (steps_lt len start ((i + 1) % len) h (omega arith)))

  needed_starts-Scanned :
      (s : Supervisor Symbol Instrument) → Scanned s (compute_needed_starts symbol_of s)
  unfolding compute_needed_starts
  needed_starts-Scanned s = elim (Bool-cases (length s.providers == 0 || s.round_exhausted)) [
    | inl stop ↦ rw stop (SameBut-refl s)
    | inr go ↦ rw go (
        round-Scanned s n (s.start_index % n) (s.scan_cursor % n) (mod-lt s.start_index (pos go))
          (mod-lt s.scan_cursor (pos go)))
  ]
    where
      n : ℕ
      n = length s.providers

      pos : (n == 0 || s.round_exhausted) ≡ false → 0 < n
      pos go = ground arith

  of_Scanned :
      (s : Supervisor Symbol Instrument)
      (o : Option (Supervisor Symbol Instrument × List (Action Symbol Instrument)))
      → Scanned s o
      → (s' : Supervisor Symbol Instrument) × (actions : List (Action Symbol Instrument)) × (o
          ≡ some (s', actions))
        × SameBut s s'
  of_Scanned s none h = absurd h
  of_Scanned s (some (s', actions)) h = (s', actions, refl, h)

  -- From any state the scan for needed starts ends, and the machine that it leaves differs from the
  -- one before in nothing but the states of its providers, of which there are as many.
  pub compute_needed_starts_total :
      (s : Supervisor Symbol Instrument)
      → (s' : Supervisor Symbol Instrument) × (actions : List (Action Symbol Instrument))
        × (compute_needed_starts symbol_of s ≡ some (s', actions))
        × SameBut s s'
  compute_needed_starts_total s = of_Scanned s _ (needed_starts-Scanned s)
