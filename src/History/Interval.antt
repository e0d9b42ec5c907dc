-- ===== src/History/Interval.antt =====
-- `choose_effective_interval`: the interval to ask a provider for, and how its candles are to be
-- resampled. Intervals are another crate's: their minutes and seconds, and the two that the router
-- emulates, are parameters. All have a positive length.
pub mod Choice
pub mod Justified
use borsa.Prelude.{
  ℕ, ◌/◌, ◌%◌, String, ◌⊎◌, inl, inr, Bool, ◌&&◌, Option, none, some, List, [], ◌∷◌, ltb, leb, ◌==◌,
  if◌then◌else◌, ◌>>=◌, Eq, eq,
}
use borsa.Errors.{BorsaError, unsupported}
use borsa.Routing.Ranked.{contains}

pub data ResamplePlan : Type 0 where
  minutes : ℕ → ResamplePlan
  daily : ResamplePlan
  weekly : ResamplePlan

pub record Intervals (Interval : Type 0) : Type 0 where
  pub minutes_in : Interval → Option ℕ
  pub seconds_in : Interval → Option ℕ
  pub d1 : Interval
  pub w1 : Interval

abbrev pub first_some : Option ℕ → Option ℕ → Option ℕ
first_some none b = b
first_some (some a) b = some a

module _ {Interval : Type 0} where
  -- The length in minutes, from seconds where those are whole minutes.
  abbrev pub minutes_of : Intervals Interval → Interval → Option ℕ
  minutes_of iv i =
      first_some (iv.minutes_in i)
        (iv.seconds_in i >>= (λ s. if s % 60 == 0 then some (s / 60) else none))

  -- The length of an interval that divides the requested one.
  abbrev pub divisor : Intervals Interval → ℕ → Interval → Option ℕ
  divisor iv req_min i =
      minutes_of iv i >>= (λ m. if leb m req_min && (req_min % m == 0) then some m else none)

  -- One round of a search for the interval of the greatest value.
  abbrev pub pick_step :
      (ℕ → ℕ → Bool) → Interval → Option ℕ → Option (Interval × ℕ) → Option (Interval × ℕ)
  pick_step beats i none best = best
  pick_step beats i (some m) none = some (i, m)
  pick_step beats i (some m) (some (j, bm)) = if beats m bm then some (i, m) else some (j, bm)

  unfoldable pub pick :
      (ℕ → ℕ → Bool)
      → (Interval → Option ℕ)
      → List Interval
      → Option (Interval × ℕ)
      → Option (Interval × ℕ)
  pick beats value [] best = best
  pick beats value (i ∷ rest) best = pick beats value rest (pick_step beats i (value i) best)

  -- The first of the largest divisors.
  unfoldable pub best_divisor : Intervals Interval → ℕ → List Interval → Option (Interval × ℕ)
  unfolding pick
  best_divisor iv req_min supported = pick (λ m bm. ltb bm m) (divisor iv req_min) supported none

  -- `max_by_key`: the last of the largest.
  unfoldable pub coarsest_intraday : Intervals Interval → List Interval → Option (Interval × ℕ)
  unfolding pick
  coarsest_intraday iv supported = pick (λ m bm. leb bm m) iv.minutes_in supported none

  abbrev pub planned :
      {Symbol : Type 0}
      → String
      → ResamplePlan
      → Option (Interval × ℕ)
      → BorsaError Symbol ⊎ (Interval × Option ResamplePlan)
  planned what plan none = inl (unsupported what)
  planned what plan (some (eff, m)) = inr (eff, some plan)

module _ {Symbol Interval : Type 0} ⦃e : Eq Interval⦄ (iv : Intervals Interval) where
  unfoldable pub choose_calendar :
      List Interval → Interval → BorsaError Symbol ⊎ (Interval × Option ResamplePlan)
  unfolding coarsest_intraday
  choose_calendar supported requested =
      if eq requested iv.d1
      then if contains supported iv.d1
        then inr (iv.d1, none)
        else planned "history interval (daily requires daily or intraday)" daily
            (coarsest_intraday iv supported)
      else if eq requested iv.w1
      then if contains supported iv.w1
        then inr (iv.w1, none)
        else if contains supported iv.d1
        then inr (iv.d1, some weekly)
        else planned "history interval (weekly requires weekly/daily/intraday)" weekly
            (coarsest_intraday iv supported)
      else inr (requested, none)

  unfoldable pub choose_for :
      List Interval → Interval → Option ℕ → BorsaError Symbol ⊎ (Interval × Option ResamplePlan)
  unfolding best_divisor choose_calendar
  choose_for supported requested (some req_min) =
      planned "history interval (intraday too fine for provider)" (minutes req_min)
        (best_divisor iv req_min supported)
  choose_for supported requested none = choose_calendar supported requested

  unfoldable pub choose_effective_interval :
      List Interval → Interval → BorsaError Symbol ⊎ (Interval × Option ResamplePlan)
  unfolding choose_for
  choose_effective_interval supported requested =
      if contains supported requested
      then inr (requested, none)
      else choose_for supported requested (minutes_of iv requested)
