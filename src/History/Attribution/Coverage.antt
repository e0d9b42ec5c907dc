-- ===== src/History/Attribution/Coverage.antt =====
-- The spans against the candles.
use borsa.Prelude.{
  string_eq, ℕ, suc, ◌≤◌, ◌<◌, String, ◌≡◌, refl, Bool, true, ◌&&◌, Option, none, some, List, [],
  ◌∷◌, arith, leb, ◌==◌, if◌then◌else◌, eq, any, sym, ◌∙◌, subst, inl, inr, Bool-cases, eq_iff_path,
  ==_iff,
}
use borsa.History.Attribution.{
  Span, or_insert_provider, add_instants, ts_to_provider, runs, runs_of, build_attribution,
}

abbrev pub holds : String → ℕ → String × Span → Bool
holds name second (other, span) = eq other name && (leb span.start second && leb second span.end)

-- The first provider with a candle at the instant.
abbrev pub first_provider : ℕ → List (String × List ℕ) → Option String
first_provider t [] = none
first_provider t ((name, ts) ∷ results) =
    if any (λ u. u == t) ts then some name else first_provider t results

abbrev provider_at : ℕ → List (ℕ × String) → Option String
provider_at t [] = none
provider_at t ((u, name) ∷ m) = if u == t then some name else provider_at t m

-- The entries are in strict order, and none is earlier than the bound.
abbrev pub AscendsFrom : ℕ → List (ℕ × String) → Type 0
AscendsFrom b [] = Unit
AscendsFrom b ((t, name) ∷ m) = (b ≤ t) × AscendsFrom (suc t) m

abbrev pub try_first : Option String → Option String → Option String
try_first none b = b
try_first (some a) b = some a

or_insert_provider-AscendsFrom :
    (b t : ℕ) (name : String) (m : List (ℕ × String))
    → b ≤ t
    → AscendsFrom b m
    → AscendsFrom b (or_insert_provider t name m)
unfolding or_insert_provider
or_insert_provider-AscendsFrom b t name [] h a = (h, tt)
or_insert_provider-AscendsFrom b t name ((u, other) ∷ m) h (k, a) =
    ground (arith, λ (l : u < t). or_insert_provider-AscendsFrom (suc u) t name m l a)

provider_below :
    (b t : ℕ) (m : List (ℕ × String)) → AscendsFrom b m → t < b → provider_at t m ≡ none
provider_below b t [] a h = refl
provider_below b t ((u, other) ∷ m) (k, a) h = ground (arith, provider_below (suc u) t m a)

provider_at-or_insert :
    (b t u : ℕ) (name : String) (m : List (ℕ × String))
    → AscendsFrom b m
    → provider_at t (or_insert_provider u name m)
      ≡ try_first (provider_at t m) (if u == t then some name else none)
unfolding or_insert_provider
provider_at-or_insert b t u name [] a = ground arith
provider_at-or_insert b t u name ((v, other) ∷ m) (k, a) =
    ground (arith, provider_at-or_insert (suc v) t u name m a, provider_below (suc v) t m a)

add_instants-first :
    (t : ℕ) (name : String) (ts : List ℕ) (m : List (ℕ × String))
    → AscendsFrom 0 m
    → AscendsFrom 0 (add_instants name ts m)
      × (provider_at t (add_instants name ts m)
          ≡ try_first (provider_at t m) (if any (λ u. u == t) ts then some name else none))
unfolding add_instants
add_instants-first t name [] m a = (a, ground arith)
add_instants-first t name (u ∷ ts) m a =
    let ih =
      add_instants-first t name ts (or_insert_provider u name m)
        (or_insert_provider-AscendsFrom 0 u name m (omega arith) a) in
    (ih.0, ground (arith, ih.1, provider_at-or_insert 0 t u name m a))

pub ts_to_provider-first :
    (t : ℕ) (results : List (String × List ℕ)) (m : List (ℕ × String))
    → AscendsFrom 0 m
    → AscendsFrom 0 (ts_to_provider results m)
      × (provider_at t (ts_to_provider results m)
          ≡ try_first (provider_at t m) (first_provider t results))
unfolding ts_to_provider
ts_to_provider-first t [] m a = (a, ground arith)
ts_to_provider-first t ((name, ts) ∷ results) m a =
    let step = add_instants-first t name ts m a in
    let ih = ts_to_provider-first t results (add_instants name ts m) step.0 in
    (ih.0, ground (arith, ih.1, step.1))

module _ (timestamp : ℕ → ℕ) (ordered : (t u : ℕ) → t ≤ u → timestamp t ≤ timestamp u) where
  -- A second of the run that is open is in a span of its provider.
  runs-open :
      (current : String) (start last second : ℕ) (m : List (ℕ × String)) (b : ℕ)
      → AscendsFrom b m
      → last ≤ timestamp b
      → start ≤ second
      → second ≤ last
      → any (holds current second) (runs timestamp current start last m) ≡ true
  unfolding runs
  runs-open current start last second [] b a h k l =
      ground (arith, (eq_iff_path current current).1 refl)
  runs-open current start last second ((t, provider) ∷ m) b (c, a) h k l =
      let later = ordered b t c in
      let next = ordered t (suc t) (omega arith) in
      let ih =
        runs-open current start (timestamp t) second m (suc t) a next k (omega (arith, later)) in
      ground (arith, (eq_iff_path current current).1 refl, ih)

  moved :
      (provider name : String) (u t : ℕ) (spans : List (String × Span))
      → provider ≡ name
      → u ≡ t
      → any (holds provider (timestamp u)) spans ≡ true
      → any (holds name (timestamp t)) spans ≡ true
  moved provider name u t spans p q h =
      subst (λ n. any (holds n (timestamp t)) spans ≡ true) p
        (subst (λ v. any (holds provider (timestamp v)) spans ≡ true) q h)

  runs-hold :
      (current : String) (start last : ℕ) (m : List (ℕ × String)) (b t : ℕ) (name : String)
      → AscendsFrom b m
      → start ≤ last
      → last ≤ timestamp b
      → provider_at t m ≡ some name
      → any (holds name (timestamp t)) (runs timestamp current start last m) ≡ true
  unfolding runs
  runs-hold current start last [] b t name a h k e = cc e
  runs-hold current start last ((u, provider) ∷ m) b t name (c, a) h k e =
      let later = ordered b u c in
      let next = ordered u (suc u) (omega arith) in
      elim (Bool-cases (eq provider current)) [
        | inl same ↦ rw same (elim (Bool-cases (u == t)) [
          | inl here ↦
              moved current name u t (runs timestamp current start (timestamp u) m)
                (sym ((eq_iff_path provider current).0 same) ∙ cc (e, here)) ((==_iff u t).0 here)
                (runs-open current start (timestamp u) (timestamp u) m (suc u) a next
                  (omega (arith, later)) (omega arith))
          | inr there ↦
              runs-hold current start (timestamp u) m (suc u) t name a (omega (arith, later)) next
                (cc (e, there))
        ])
        | inr other ↦ rw other (elim (Bool-cases (u == t)) [
          | inl here ↦ ground (
            arith,
            moved provider name u t (runs timestamp provider (timestamp u) (timestamp u) m)
                (cc (e, here)) ((==_iff u t).0 here)
                (runs-open provider (timestamp u) (timestamp u) (timestamp u) m (suc u) a next
                  (omega arith) (omega arith)),
          )
          | inr there ↦ ground (
            arith,
            runs-hold provider (timestamp u) (timestamp u) m (suc u) t name a (omega arith) next
                (cc (e, there)),
          )
        ])
      ]

  runs_of-hold :
      (m : List (ℕ × String)) (b t : ℕ) (name : String)
      → AscendsFrom b m
      → provider_at t m ≡ some name
      → any (holds name (timestamp t)) (runs_of timestamp m) ≡ true
  unfolding runs_of
  runs_of-hold [] b t name a e = cc e
  runs_of-hold ((u, provider) ∷ m) b t name (c, a) e =
      let next = ordered u (suc u) (omega arith) in
      elim (Bool-cases (u == t)) [
        | inl here ↦
            moved provider name u t (runs timestamp provider (timestamp u) (timestamp u) m)
              (cc (e, here)) ((==_iff u t).0 here)
              (runs-open provider (timestamp u) (timestamp u) (timestamp u) m (suc u) a next
                (omega arith) (omega arith))
        | inr there ↦
            runs-hold provider (timestamp u) (timestamp u) m (suc u) t name a (omega arith) next
              (cc (e, there))
      ]

  -- For each instant at which some result has a candle, the attribution has a span that holds the
  -- instant's second under the name of the first result with such a candle. A later instant has
  -- no earlier second.
  pub build_attribution-first_provider :
      (results : List (String × List ℕ)) (t : ℕ) (name : String)
      → first_provider t results ≡ some name
      → any (holds name (timestamp t)) (build_attribution timestamp results) ≡ true
  unfolding build_attribution
  build_attribution-first_provider results t name h =
      let entries = ts_to_provider-first t results [] tt in
      runs_of-hold (ts_to_provider results []) 0 t name entries.0 (entries.1 ∙ h)
