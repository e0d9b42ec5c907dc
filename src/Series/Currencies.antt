-- ===== src/Series/Currencies.antt =====
-- The merge and the check of a whole series refuse the same candles.
use borsa.Series.Winners.{all_candles}
use borsa.Prelude.{
  ◌≡◌, refl, subst, ◌⊎◌, inl, inr, Bool, true, false, not, Option, List, [], ◌∷◌, arith, is_some,
  Eq, is_empty, none, some, if◌then◌else◌, eq, sym, ap, ◌&&◌, ◌++◌, all, ◌∙◌, and_then, map_error,
  ok_or, is_ok, and_then_cong, and_then-and_then,
}
use borsa.Series.{
  Candle, SeriesError, MergeState, with_candle, mixed_in_candle, ensure_candle_currency_uniform,
  series_currency_after, ensure_from, merged_currency, merge_candle, merge_one, or_insert,
  clear_close_unadj, merge_each, is_uniform, merge_candles_by_priority, empty_series,
  ensure_series_currency_uniform,
}

-- A currency is known as soon as there is a candle.
abbrev Steady : {Price Currency : Type 0} → MergeState Price Currency → Type 0
Steady st = is_empty st.candles ≡ not (is_some st.series_currency)

-- Both refuse, or both go on with the same currency.
abbrev Agree :
    {Price Currency : Type 0}
    → SeriesError Currency ⊎ MergeState Price Currency
    → SeriesError Currency ⊎ Option Currency
    → Type 0
Agree (inl error) q = is_ok q ≡ false
Agree (inr st) q = (q ≡ inr st.series_currency) × Steady st

pub or_insert_some :
    {Price : Type 0} (c : Candle Price) (m : List (Candle Price)) → is_empty (or_insert c m) ≡ false
unfolding or_insert
or_insert_some c [] = refl
or_insert_some c (d ∷ m) = ground arith

module _ {Price Currency : Type 0} where
  chain-Agree :
      (r : SeriesError Currency ⊎ MergeState Price Currency)
      (q : SeriesError Currency ⊎ Option Currency)
      (k : MergeState Price Currency → SeriesError Currency ⊎ MergeState Price Currency)
      (l : Option Currency → SeriesError Currency ⊎ Option Currency)
      → Agree r q
      → ((st : MergeState Price Currency) → Steady st → Agree (k st) (l st.series_currency))
      → Agree (and_then r k) (and_then q l)
  chain-Agree (inl error) (inl other) k l a f = refl
  chain-Agree (inl error) (inr cur) k l a f = cc a
  chain-Agree (inr st) q k l (same, steady) f = rw same (f st steady)

module _ {Price Currency : Type 0} ⦃e : Eq Currency⦄ (currency_of : Price → Currency) where
  -- The check of one candle, as the whole check makes it.
  abbrev check : Option Currency → Candle Price → SeriesError Currency ⊎ Option Currency
  check cur c =
      and_then (ensure_candle_currency_uniform currency_of c)
        (λ _. series_currency_after currency_of cur c)

  -- The test of the currencies, at its outcome.
  known_currency-Agree :
      (st : MergeState Price Currency) (c : Candle Price) (cur : Currency)
      (error other : SeriesError Currency) (same : Bool)
      → Agree
          (and_then (if same then inr (some cur) else inl error) (with_candle currency_of st c))
          (if same then inr (some cur) else inl other)
  unfolding with_candle
  known_currency-Agree st c cur error other true =
      (refl, or_insert_some (clear_close_unadj c) st.candles)
  known_currency-Agree st c cur error other false = refl

  currency-Agree :
      (m : List (Candle Price)) (cur : Option Currency) (c : Candle Price)
      → is_empty m ≡ not (is_some cur)
      → Agree
          (and_then
            (merged_currency currency_of (record { candles = m; series_currency = cur }) c)
            (with_candle currency_of (record { candles = m; series_currency = cur }) c))
          (series_currency_after currency_of cur c)
  unfolding merged_currency with_candle series_currency_after
  currency-Agree [] none c h = (refl, or_insert_some (clear_close_unadj c) [])
  currency-Agree (d ∷ m) none c h = cc h
  currency-Agree m (some cur) c h =
      known_currency-Agree (record { candles = m; series_currency = some cur }) c cur _ _
        (eq cur (currency_of c.open_price))

  checked-Agree :
      (checked : SeriesError Currency ⊎ Unit {0}) (st : MergeState Price Currency)
      (c : Candle Price)
      → Steady st
      → Agree
          (and_then
            (map_error (λ _. mixed_in_candle c.ts) checked)
            (λ _. and_then (merged_currency currency_of st c) (with_candle currency_of st c)))
          (and_then checked (λ _. series_currency_after currency_of st.series_currency c))
  checked-Agree (inl error) st c h = refl
  checked-Agree (inr ok) st c h = currency-Agree st.candles st.series_currency c h

  merge_candle-Agree :
      (st : MergeState Price Currency) (c : Candle Price)
      → Steady st
      → Agree (merge_candle currency_of st c) (check st.series_currency c)
  unfolding merge_candle
  merge_candle-Agree st c h = checked-Agree (ensure_candle_currency_uniform currency_of c) st c h

  and_then_assoc :
      (c : Candle Price) (cur : Option Currency)
      (l : Option Currency → SeriesError Currency ⊎ Option Currency)
      → and_then (check cur c) l
        ≡ and_then
            (ensure_candle_currency_uniform currency_of c)
            (λ _. and_then (series_currency_after currency_of cur c) l)
  and_then_assoc c cur l = ground arith

  merge_one-Agree :
      (st : MergeState Price Currency) (cs : List (Candle Price))
      → Steady st
      → Agree (merge_one currency_of st cs) (ensure_from currency_of st.series_currency cs)
  unfolding merge_one ensure_from
  merge_one-Agree st [] h = (refl, h)
  merge_one-Agree st (c ∷ cs) h =
      subst (Agree (merge_one currency_of st (c ∷ cs)))
        (and_then_assoc c st.series_currency (λ cur. ensure_from currency_of cur cs))
        (chain-Agree (merge_candle currency_of st c) (check st.series_currency c)
          (λ next. merge_one currency_of next cs) (λ cur. ensure_from currency_of cur cs)
          (merge_candle-Agree st c h) (λ next k. merge_one-Agree next cs k))

  Agree-is_ok :
      (r : SeriesError Currency ⊎ MergeState Price Currency)
      (q : SeriesError Currency ⊎ Option Currency)
      → Agree r q
      → is_ok (and_then {B = List (Candle Price)} r (λ st. inr st.candles)) ≡ is_ok q
  Agree-is_ok (inl error) q a = sym a
  Agree-is_ok (inr st) q (same, _) = ap is_ok (sym same)

  merge_one-append :
      (st : MergeState Price Currency) (xs ys : List (Candle Price))
      → merge_one currency_of st (xs ++ ys)
        ≡ and_then (merge_one currency_of st xs) (λ next. merge_one currency_of next ys)
  unfolding merge_one
  merge_one-append st [] ys = refl
  merge_one-append st (c ∷ xs) ys =
      and_then_cong (merge_candle currency_of st c) _ _ (λ next. merge_one-append next xs ys)
      ∙ sym (and_then-and_then (merge_candle currency_of st c) _ _)

  merge_each-all_candles :
      (st : MergeState Price Currency) (series : List (List (Candle Price)))
      → merge_each currency_of st series ≡ merge_one currency_of st (all_candles series)
  unfolding merge_each
  merge_each-all_candles st [] = refl
  merge_each-all_candles st (s ∷ series) =
      and_then_cong (merge_one currency_of st s) _ _ (λ next. merge_each-all_candles next series)
      ∙ sym (merge_one-append st s (all_candles series))

  -- Every candle is of one currency, and it is that of the first.
  abbrev pub one_currency : List (Candle Price) → Bool
  one_currency [] = true
  one_currency (c ∷ cs) =
      is_uniform currency_of c
      && all
          (λ d.
            is_uniform currency_of d && eq (currency_of c.open_price) (currency_of d.open_price))
          cs

  ensure_known :
      (cur : Currency) (cs : List (Candle Price))
      → (is_ok (ensure_from currency_of (some cur) cs)
          ≡ all (λ d. is_uniform currency_of d && eq cur (currency_of d.open_price)) cs)
        × (is_ok (and_then (ensure_from currency_of (some cur) cs) (ok_or empty_series))
            ≡ is_ok (ensure_from currency_of (some cur) cs))
  unfolding ensure_from ensure_candle_currency_uniform series_currency_after
  ensure_known cur [] = (refl, refl)
  ensure_known cur (c ∷ cs) = ground (arith, ensure_known cur cs)

  ensure_none :
      (cs : List (Candle Price))
      → (is_ok (ensure_from currency_of none cs) ≡ one_currency cs)
        × (is_ok (and_then (ensure_from currency_of none cs) (ok_or empty_series))
            ≡ (not (is_empty cs) && one_currency cs))
  unfolding ensure_from ensure_candle_currency_uniform series_currency_after
  ensure_none [] = (refl, refl)
  ensure_none (c ∷ cs) = ground (arith, ensure_known (currency_of c.open_price) cs)

  -- The merge succeeds exactly when all the candles together, superseded ones included, are of one
  -- currency; the check of the whole series does so exactly when they are and there is a candle.
  pub merge-one_currency :
      (series : List (List (Candle Price)))
      → (is_ok (merge_candles_by_priority currency_of series) ≡ one_currency (all_candles series))
        × (is_ok (ensure_series_currency_uniform currency_of (all_candles series))
            ≡ (not (is_empty (all_candles series)) && one_currency (all_candles series)))
  unfolding merge_candles_by_priority ensure_series_currency_uniform
  merge-one_currency series = (
    ap (λ r. is_ok (and_then r (λ st. inr st.candles))) (merge_each-all_candles _ series)
        ∙ Agree-is_ok _ _ (merge_one-Agree _ (all_candles series) refl)
        ∙ (ensure_none (all_candles series)).0,
    (ensure_none (all_candles series)).1,
  )
