-- ===== src/History/Attribution.antt =====
-- `build_attribution`: which provider a merged history has its candles from. `timestamp` gives the
-- second of an instant.
pub mod Coverage
pub mod Apart
use borsa.Prelude.{string_eq, ℕ, String, List, [], ◌∷◌, ltb, ◌==◌, if◌then◌else◌, eq}

pub record Span : Type 0 where
  pub start : ℕ
  pub end : ℕ

-- `ts_to_provider.entry(ts).or_insert(name)`, on the entries in the order of their instants.
unfoldable pub or_insert_provider : ℕ → String → List (ℕ × String) → List (ℕ × String)
or_insert_provider t name [] = (t, name) ∷ []
or_insert_provider t name ((u, other) ∷ m) =
    if ltb t u
    then (t, name) ∷ (u, other) ∷ m
    else if t == u
    then (u, other) ∷ m
    else (u, other) ∷ or_insert_provider t name m

unfoldable pub add_instants : String → List ℕ → List (ℕ × String) → List (ℕ × String)
unfolding or_insert_provider
add_instants name [] m = m
add_instants name (t ∷ ts) m = add_instants name ts (or_insert_provider t name m)

-- Each result is a provider's name with the instants of its candles.
unfoldable pub ts_to_provider : List (String × List ℕ) → List (ℕ × String) → List (ℕ × String)
unfolding add_instants
ts_to_provider [] m = m
ts_to_provider ((name, ts) ∷ results) m = ts_to_provider results (add_instants name ts m)

-- The loop over the entries, with the run that is open.
unfoldable pub runs :
    (timestamp : ℕ → ℕ)
    → String
    → (run_start last_ts : ℕ) → List (ℕ × String)
    → List (String × Span)
runs timestamp current run_start last_ts [] =
    (current, record { start = run_start; end = last_ts }) ∷ []
runs timestamp current run_start last_ts ((t, provider) ∷ m) =
    let going_on = runs timestamp current run_start (timestamp t) m in
    let changed =
      (current, record { start = run_start; end = last_ts })
      ∷ runs timestamp provider (timestamp t) (timestamp t) m in
    if eq provider current then going_on else changed

unfoldable pub runs_of : (timestamp : ℕ → ℕ) → List (ℕ × String) → List (String × Span)
unfolding runs
runs_of timestamp [] = []
runs_of timestamp ((t, provider) ∷ m) = runs timestamp provider (timestamp t) (timestamp t) m

unfoldable pub build_attribution :
    (timestamp : ℕ → ℕ) → List (String × List ℕ) → List (String × Span)
unfolding ts_to_provider runs_of
build_attribution timestamp results = runs_of timestamp (ts_to_provider results [])
