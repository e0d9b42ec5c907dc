-- ===== src/Series.antt =====
-- borsa-core/src/timeseries/merge.rs and util.rs: candles, the checks of their currencies and the merge of
-- several series by priority. Instants are numbers counted from the earliest one; prices and
-- currencies are types of another crate, and `currency_of` is its `Money::currency`.
pub mod Sorted
pub mod Winners
pub mod Currencies
pub mod History
pub mod Resample
use borsa.Prelude.{
  ℕ, ◌⊎◌, inl, inr, Bool, ◌&&◌, Option, none, some, List, [], ◌∷◌, map, ltb, ◌==◌, if◌then◌else◌,
  Eq, eq, is_empty, and_then, map_error, ok_or,
}

pub record Candle (Price : Type 0) : Type 0 where
  pub ts : ℕ
  pub open_price : Price
  pub high : Price
  pub low : Price
  pub close : Price
  pub close_unadj : Option Price
  pub volume : Option ℕ

-- What the text of the code's `Data` error tells.
pub data SeriesError (Currency : Type 0) : Type 0 where
  mixed_in_candle : ℕ → SeriesError Currency
  mixed_in_series : ℕ → (expected got : Currency) → SeriesError Currency
  currency_mismatch_within_candle : SeriesError Currency
  currency_mismatch_across_series : SeriesError Currency
  empty_series : SeriesError Currency
  mixed_history : SeriesError Currency
  mixed_in_bucket : ℕ → SeriesError Currency
  mixed_across_buckets : ℕ → (expected got : Currency) → SeriesError Currency

pub record MergeState (Price Currency : Type 0) : Type 0 where
  pub candles : List (Candle Price)
  pub series_currency : Option Currency

module _ {Price : Type 0} where
  abbrev pub clear_close_unadj : Candle Price → Candle Price
  clear_close_unadj c = record c { close_unadj = none }

  unfoldable pub strip_unadjusted : List (Candle Price) → List (Candle Price)
  strip_unadjusted candles = map clear_close_unadj candles

  -- `entry(c.ts).or_insert(c)` on the map that keeps its candles in the order of their instants.
  unfoldable pub or_insert : Candle Price → List (Candle Price) → List (Candle Price)
  or_insert c [] = c ∷ []
  or_insert c (d ∷ m) =
      if ltb c.ts d.ts then c ∷ d ∷ m else if c.ts == d.ts then d ∷ m else d ∷ or_insert c m

module _ {Price Currency : Type 0} ⦃e : Eq Currency⦄ (currency_of : Price → Currency) where
  abbrev pub is_uniform : Candle Price → Bool
  is_uniform c =
      eq (currency_of c.open_price) (currency_of c.high)
      && (eq (currency_of c.open_price) (currency_of c.low)
          && eq (currency_of c.open_price) (currency_of c.close))

  pub ensure_candle_currency_uniform : Candle Price → SeriesError Currency ⊎ Unit {0}
  ensure_candle_currency_uniform c =
      if is_uniform c then inr tt else inl currency_mismatch_within_candle

  -- The test against the currency of the series so far, and that currency after it.
  pub series_currency_after :
      Option Currency → Candle Price → SeriesError Currency ⊎ Option Currency
  series_currency_after none c = inr (some (currency_of c.open_price))
  series_currency_after (some cur) c =
      if eq cur (currency_of c.open_price)
      then inr (some cur)
      else inl currency_mismatch_across_series

  pub ensure_from : Option Currency → List (Candle Price) → SeriesError Currency ⊎ Option Currency
  unfolding ensure_candle_currency_uniform series_currency_after
  ensure_from cur [] = inr cur
  ensure_from cur (c ∷ cs) =
      and_then (ensure_candle_currency_uniform c)
        (λ _. and_then (series_currency_after cur c) (λ after. ensure_from after cs))

  unfoldable pub ensure_series_currency_uniform :
      List (Candle Price) → SeriesError Currency ⊎ Currency
  unfolding ensure_from
  ensure_series_currency_uniform candles = and_then (ensure_from none candles) (ok_or empty_series)

  -- The check of the currency of a series: the candle's sets it while the map is empty.
  pub merged_currency :
      MergeState Price Currency → Candle Price → SeriesError Currency ⊎ Option Currency
  merged_currency st c = elim st.series_currency [
    | some cur ↦
        if eq cur (currency_of c.open_price)
        then inr (some cur)
        else inl (mixed_in_series c.ts cur (currency_of c.open_price))
    | none ↦ inr (if is_empty st.candles then some (currency_of c.open_price) else none)
  ]

  pub with_candle :
      MergeState Price Currency
      → Candle Price
      → Option Currency
      → SeriesError Currency ⊎ MergeState Price Currency
  unfolding or_insert
  with_candle st c cur =
      inr (record { candles = or_insert (clear_close_unadj c) st.candles; series_currency = cur })

  pub merge_candle :
      MergeState Price Currency → Candle Price → SeriesError Currency ⊎ MergeState Price Currency
  unfolding ensure_candle_currency_uniform merged_currency with_candle
  merge_candle st c =
      and_then (map_error (λ _. mixed_in_candle c.ts) (ensure_candle_currency_uniform c))
        (λ _. and_then (merged_currency st c) (with_candle st c))

  pub merge_one :
      MergeState Price Currency
      → List (Candle Price)
      → SeriesError Currency ⊎ MergeState Price Currency
  unfolding merge_candle
  merge_one st [] = inr st
  merge_one st (c ∷ cs) = and_then (merge_candle st c) (λ next. merge_one next cs)

  pub merge_each :
      MergeState Price Currency
      → List (List (Candle Price))
      → SeriesError Currency ⊎ MergeState Price Currency
  unfolding merge_one
  merge_each st [] = inr st
  merge_each st (s ∷ series) = and_then (merge_one st s) (λ next. merge_each next series)

  unfoldable pub merge_candles_by_priority :
      List (List (Candle Price)) → SeriesError Currency ⊎ List (Candle Price)
  unfolding merge_each
  merge_candles_by_priority series =
      and_then (merge_each (record { candles = []; series_currency = none }) series)
        (λ st. inr st.candles)
