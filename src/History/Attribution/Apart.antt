-- ===== src/History/Attribution/Apart.antt =====
-- The spans among themselves.
use borsa.Prelude.{
  string_eq, ℕ, suc, ◌≤◌, String, ◌≡◌, refl, ◌∙◌, inl, inr, Bool, false, List, [], ◌∷◌, arith,
  Bool-cases, eq,
}
use borsa.History.Attribution.{Span, ts_to_provider, runs, runs_of, build_attribution}
use borsa.History.Attribution.Coverage.{AscendsFrom, ts_to_provider-first}

abbrev starts_with : String → List (String × Span) → Bool
starts_with name [] = false
starts_with name ((other, span) ∷ spans) = eq other name

-- No span starts before the bound or the end of the one before it, none ends before it starts, and no
-- two neighbours are of one provider.
abbrev pub AreApart : ℕ → List (String × Span) → Type 0
AreApart b [] = Unit
AreApart b ((name, span) ∷ spans) =
    (b ≤ span.start)
    × (span.start ≤ span.end)
    × (starts_with name spans ≡ false)
    × AreApart span.end spans

module _ (timestamp : ℕ → ℕ) (ordered : (t u : ℕ) → t ≤ u → timestamp t ≤ timestamp u) where
  runs-starts_with :
      (name current : String) (start last : ℕ) (m : List (ℕ × String))
      → starts_with name (runs timestamp current start last m) ≡ eq current name
  unfolding runs
  runs-starts_with name current start last [] = refl
  runs-starts_with name current start last ((t, provider) ∷ m) =
      ground (arith, runs-starts_with name current start (timestamp t) m)

  runs-AreApart :
      (current : String) (low start last : ℕ) (m : List (ℕ × String)) (b : ℕ)
      → AscendsFrom b m
      → low ≤ start
      → start ≤ last
      → last ≤ timestamp b
      → AreApart low (runs timestamp current start last m)
  unfolding runs
  runs-AreApart current low start last [] b a h k l = (h, k, refl, tt)
  runs-AreApart current low start last ((t, provider) ∷ m) b (c, a) h k l =
      let later = ordered b t c in
      let next = ordered t (suc t) (omega arith) in
      elim (Bool-cases (eq provider current)) [
        | inl same ↦ rw same (
            runs-AreApart current low start (timestamp t) m (suc t) a h (omega (arith, later)) next)
        | inr other ↦ rw other (
          h,
          k,
          runs-starts_with current provider (timestamp t) (timestamp t) m ∙ other,
          runs-AreApart provider last (timestamp t) (timestamp t) m (suc t) a (omega (arith, later))
              (omega arith) next,
        )
      ]

  runs_of-AreApart : (m : List (ℕ × String)) → AscendsFrom 0 m → AreApart 0 (runs_of timestamp m)
  unfolding runs_of
  runs_of-AreApart [] a = tt
  runs_of-AreApart ((t, provider) ∷ m) (c, a) =
      runs-AreApart provider 0 (timestamp t) (timestamp t) m (suc t) a (omega arith) (omega arith)
        (ordered t (suc t) (omega arith))

  -- The spans of an attribution follow one another without overlap but for a common second, each
  -- from its start to an end that is not earlier, and no two neighbours are of one provider. A
  -- later instant has no earlier second.
  pub build_attribution-AreApart :
      (results : List (String × List ℕ)) → AreApart 0 (build_attribution timestamp results)
  unfolding build_attribution runs_of
  build_attribution-AreApart results =
      runs_of-AreApart (ts_to_provider results []) (ts_to_provider-first 0 results [] tt).0
