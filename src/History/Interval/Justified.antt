-- ===== src/History/Interval/Justified.antt =====
-- When a provider gets an interval to serve a request with, and which.
use borsa.History.Interval.Choice.{
  value_or_zero, Ordered, pick-member, best_value, pick-greatest, pick-is_some,
}
use borsa.Prelude.{
  ℕ, ◌≤◌, String, ◌≡◌, refl, subst, ◌⊎◌, inl, inr, Bool, true, false, ◌&&◌, ◌||◌, not, Option, none,
  some, List, arith, ltb, leb, is_some, Eq, eq, any, all, is_ok, sym, ap, [], ◌∷◌, if◌then◌else◌,
  Bool-cases, eq_iff_path, ◌%◌, ◌==◌, ◌>>=◌, ap₂,
}
use borsa.History.Interval.{
  Intervals, ResamplePlan, minutes, daily, weekly, divisor, minutes_of, choose_effective_interval,
  planned, choose_calendar, pick, choose_for, coarsest_intraday, best_divisor,
}
use borsa.Routing.Ranked.{contains}
use borsa.Errors.{BorsaError}

ltb-Ordered : (m n : ℕ) → (ltb n m ≡ true → n ≤ m) × (ltb n m ≡ false → m ≤ n)
ltb-Ordered m n = (ground arith, ground arith)

leb-Ordered : (m n : ℕ) → (leb n m ≡ true → n ≤ m) × (leb n m ≡ false → m ≤ n)
leb-Ordered m n = (ground arith, ground arith)

module _ {Interval : Type 0} ⦃e : Eq Interval⦄ (iv : Intervals Interval) where
  -- The router can make this interval's candles of others.
  abbrev pub emulated : Interval → Bool
  emulated requested =
      is_some (minutes_of iv requested) || (eq requested iv.d1 || eq requested iv.w1)

  -- The length divides the requested one.
  abbrev pub divides : ℕ → Option ℕ → Bool
  divides req_min none = false
  divides req_min (some m) = leb m req_min && (req_min % m == 0)

  -- What a request for it can be served with.
  abbrev pub usable_for : Option ℕ → Interval → Interval → Bool
  usable_for (some req_min) requested i = divides req_min (minutes_of iv i)
  usable_for none requested i =
      is_some (iv.minutes_in i) || (not (eq requested iv.d1) && eq i iv.d1)

  -- `value` is the greatest of the supported intervals'.
  abbrev pub IsGreatest : (Interval → Option ℕ) → List Interval → Interval → Type 0
  IsGreatest value supported eff =
      (contains supported eff ≡ true)
      × (m : ℕ) × (value eff ≡ some m)
      × (all (λ i. leb (value_or_zero (value i)) m) supported ≡ true)

  abbrev pub Justified : List Interval → Interval → Interval → Option ResamplePlan → Type 0
  Justified supported requested eff none = eff ≡ requested
  Justified supported requested eff (some (minutes m)) =
      (minutes_of iv requested ≡ some m)
      × ((n : ℕ) × (minutes_of iv eff ≡ some n) × (n ≤ m) × (m % n ≡ 0))
      × IsGreatest (divisor iv m) supported eff
  Justified supported requested eff (some daily) =
      (requested ≡ iv.d1) × IsGreatest iv.minutes_in supported eff
  Justified supported requested eff (some weekly) =
      (requested ≡ iv.w1)
      × (((eff ≡ iv.d1) × (contains supported iv.d1 ≡ true))
          ⊎ ((contains supported iv.d1 ≡ false) × IsGreatest iv.minutes_in supported eff))

  abbrev pub JustifiedIfOk :
      {Symbol : Type 0}
      → List Interval
      → Interval
      → BorsaError Symbol ⊎ (Interval × Option ResamplePlan)
      → Type 0
  JustifiedIfOk supported requested (inl error) = Unit
  JustifiedIfOk supported requested (inr (eff, plan)) = Justified supported requested eff plan

  divisor-divides :
      (req_min : ℕ) (i : Interval) (n : ℕ)
      → divisor iv req_min i ≡ some n
      → (minutes_of iv i ≡ some n) × (n ≤ req_min) × (req_min % n ≡ 0)
  divisor-divides req_min i n h = go (minutes_of iv i) refl h
    where
      go :
          (o : Option ℕ)
          → minutes_of iv i ≡ o
          → (o >>= (λ m. if leb m req_min && (req_min % m == 0) then some m else none)) ≡ some n
          → (minutes_of iv i ≡ some n) × (n ≤ req_min) × (req_min % n ≡ 0)
      go none e k = cc k
      go (some m) e k = ground (arith, e, k)

  greatest-divides :
      (req_min : ℕ) (supported : List Interval) (eff : Interval)
      → IsGreatest (divisor iv req_min) supported eff
      → (n : ℕ) × (minutes_of iv eff ≡ some n) × (n ≤ req_min) × (req_min % n ≡ 0)
  greatest-divides req_min supported eff (_, n, v, _) =
      let d = divisor-divides req_min eff n v in (n, d.0, d.1, d.2)

  pick-IsGreatest :
      (value : Interval → Option ℕ) (beats : ℕ → ℕ → Bool) (supported : List Interval)
      (eff : Interval) (m : ℕ)
      → Ordered value beats
      → pick beats value supported none ≡ some (eff, m)
      → IsGreatest value supported eff
  pick-IsGreatest value beats supported eff m o h =
      elim (pick-member value beats supported none eff m h) [
        | inl nothing ↦ cc nothing
        | inr (member, v) ↦ (
          member,
          m,
          v,
          subst
              (λ best. all (λ i. leb (value_or_zero (value i)) (best_value best)) supported ≡ true)
              h (pick-greatest value beats supported none o).1,
        )
      ]

  planned-JustifiedIfOk :
      (Symbol : Type 0) (supported : List Interval) (requested : Interval) (what : String)
      (plan : ResamplePlan) (picked : Option (Interval × ℕ))
      → ((eff : Interval) (m : ℕ)
          → picked ≡ some (eff, m)
          → Justified supported requested eff (some plan))
      → JustifiedIfOk {Symbol = Symbol} supported requested (planned what plan picked)
  planned-JustifiedIfOk Symbol supported requested what plan none f = tt
  planned-JustifiedIfOk Symbol supported requested what plan (some (eff, m)) f = f eff m refl

  weekly-JustifiedIfOk :
      (Symbol : Type 0) (supported : List Interval) (requested : Interval) (days : Bool)
      → contains supported iv.d1 ≡ days
      → requested ≡ iv.w1
      → JustifiedIfOk {Symbol = Symbol} supported requested (
          if days
          then inr (iv.d1, some weekly)
          else planned "history interval (weekly requires weekly/daily/intraday)" weekly
              (coarsest_intraday iv supported))
  unfolding coarsest_intraday
  weekly-JustifiedIfOk Symbol supported requested true h week = (week, inl (refl, h))
  weekly-JustifiedIfOk Symbol supported requested false h week =
      planned-JustifiedIfOk Symbol supported requested _ weekly _ (λ eff m k. (
        week,
        inr (h, pick-IsGreatest iv.minutes_in (λ a b. leb b a) supported eff m leb-Ordered k),
      ))

  calendar-JustifiedIfOk :
      (Symbol : Type 0) (supported : List Interval) (requested : Interval)
      → JustifiedIfOk {Symbol = Symbol} supported requested (choose_calendar iv supported requested)
  unfolding choose_calendar coarsest_intraday
  calendar-JustifiedIfOk Symbol supported requested = elim (Bool-cases (eq requested iv.d1)) [
    | inl day ↦ rw day (elim (Bool-cases (contains supported iv.d1)) [
      | inl h ↦ rw h (sym ((eq_iff_path requested iv.d1).0 day))
      | inr h ↦ rw h (
          planned-JustifiedIfOk Symbol supported requested _ daily _ (λ eff m k. (
            (eq_iff_path requested iv.d1).0 day,
            pick-IsGreatest iv.minutes_in (λ a b. leb b a) supported eff m leb-Ordered k,
          )))
    ])
    | inr other ↦ rw other (elim (Bool-cases (eq requested iv.w1)) [
      | inl week ↦ rw week (elim (Bool-cases (contains supported iv.w1)) [
        | inl h ↦ rw h (sym ((eq_iff_path requested iv.w1).0 week))
        | inr h ↦ rw h (
            weekly-JustifiedIfOk Symbol supported requested (contains supported iv.d1) refl
              ((eq_iff_path requested iv.w1).0 week))
      ])
      | inr calendar ↦ rw calendar refl
    ])
  ]

  choose_for-JustifiedIfOk :
      (Symbol : Type 0) (supported : List Interval) (requested : Interval) (length : Option ℕ)
      → minutes_of iv requested ≡ length
      → JustifiedIfOk {Symbol = Symbol} supported requested
          (choose_for iv supported requested length)
  unfolding choose_for best_divisor
  choose_for-JustifiedIfOk Symbol supported requested (some req_min) h =
      planned-JustifiedIfOk Symbol supported requested _ (minutes req_min) _ (λ eff m k.
        let g =
          pick-IsGreatest (divisor iv req_min) (λ a b. ltb b a) supported eff m ltb-Ordered k in
        (h, greatest-divides req_min supported eff g, g))
  choose_for-JustifiedIfOk Symbol supported requested none h =
      calendar-JustifiedIfOk Symbol supported requested

  -- An interval that is chosen without a plan is the one requested. With a plan for minutes it is a
  -- supported one of the most minutes among those that divide the requested minutes; with a plan
  -- for days or weeks, which were then requested, a supported one of the most minutes, but a day
  -- for weeks where that is supported.
  pub choose-JustifiedIfOk :
      (Symbol : Type 0) (supported : List Interval) (requested : Interval)
      → JustifiedIfOk {Symbol = Symbol} supported requested
          (choose_effective_interval iv supported requested)
  unfolding choose_effective_interval
  choose-JustifiedIfOk Symbol supported requested =
      elim (Bool-cases (contains supported requested)) [
        | inl h ↦ rw h refl
        | inr h ↦
            rw h
              (choose_for-JustifiedIfOk Symbol supported requested (minutes_of iv requested) refl)
      ]

  any-or :
      (b : Bool) (p q : Interval → Bool) (xs : List Interval)
      → any (λ i. p i || (b && q i)) xs ≡ (any p xs || (b && any q xs))
  any-or b p q [] = ground arith
  any-or b p q (x ∷ xs) = ground (arith, any-or b p q xs)

  planned-is_ok :
      (Symbol : Type 0) (what : String) (plan : ResamplePlan) (picked : Option (Interval × ℕ))
      → is_ok (planned {Symbol = Symbol} what plan picked) ≡ is_some picked
  planned-is_ok Symbol what plan none = refl
  planned-is_ok Symbol what plan (some (eff, m)) = refl

  same_day :
      (supported : List Interval) (requested : Interval)
      → eq requested iv.d1 ≡ true
      → contains supported iv.d1 ≡ contains supported requested
  same_day supported requested h = ap (contains supported) (sym ((eq_iff_path requested iv.d1).0 h))

  same_week :
      (supported : List Interval) (requested : Interval)
      → eq requested iv.w1 ≡ true
      → contains supported iv.w1 ≡ contains supported requested
  same_week supported requested h =
      ap (contains supported) (sym ((eq_iff_path requested iv.w1).0 h))

  is_some_divisor :
      (req_min : ℕ) (o : Option ℕ)
      → is_some (o >>= (λ m. if leb m req_min && (req_min % m == 0) then some m else none))
        ≡ divides req_min o
  is_some_divisor req_min none = refl
  is_some_divisor req_min (some m) = ground arith

  any-divides :
      (req_min : ℕ) (xs : List Interval)
      → any (λ i. is_some (divisor iv req_min i)) xs
        ≡ any (λ i. divides req_min (minutes_of iv i)) xs
  any-divides req_min [] = refl
  any-divides req_min (x ∷ xs) =
      ap₂ ◌||◌ (is_some_divisor req_min (minutes_of iv x)) (any-divides req_min xs)

  choose_for-is_ok :
      (Symbol : Type 0) (supported : List Interval) (requested : Interval) (length : Option ℕ)
      → is_ok (
          if contains supported requested
          then inr (requested, none)
          else choose_for {Symbol = Symbol} iv supported requested length)
        ≡ (contains supported requested
            || (not (is_some length || (eq requested iv.d1 || eq requested iv.w1))
                || any (usable_for length requested) supported))
  unfolding choose_for choose_calendar best_divisor coarsest_intraday
  choose_for-is_ok Symbol supported requested (some req_min) = ground (
    arith,
    planned-is_ok Symbol "history interval (intraday too fine for provider)" (minutes req_min)
        (pick (λ m bm. ltb bm m) (divisor iv req_min) supported none),
    pick-is_some (divisor iv req_min) (λ m bm. ltb bm m) supported none,
    any-divides req_min supported,
  )
  choose_for-is_ok Symbol supported requested none = ground (
    arith,
    planned-is_ok Symbol "history interval (daily requires daily or intraday)" daily
        (pick (λ m bm. leb bm m) iv.minutes_in supported none),
    planned-is_ok Symbol "history interval (weekly requires weekly/daily/intraday)" weekly
        (pick (λ m bm. leb bm m) iv.minutes_in supported none),
    pick-is_some iv.minutes_in (λ m bm. leb bm m) supported none,
    any-or (not (eq requested iv.d1)) (λ i. is_some (iv.minutes_in i)) (λ i. eq i iv.d1) supported,
    same_day supported requested,
    same_week supported requested,
  )

  -- A provider gets an interval for a request exactly when it supports the requested interval, the
  -- router cannot make that of others, or it supports one that the request can be served with.
  pub choose-is_ok :
      (Symbol : Type 0) (supported : List Interval) (requested : Interval)
      → is_ok (choose_effective_interval {Symbol = Symbol} iv supported requested) ≡ (
          contains supported requested
          || (not (emulated requested)
              || any (usable_for (minutes_of iv requested) requested) supported))
  unfolding choose_effective_interval
  choose-is_ok Symbol supported requested =
      choose_for-is_ok Symbol supported requested (minutes_of iv requested)
