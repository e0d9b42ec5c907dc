-- ===== src/Examples/Candles.antt =====
-- Two series in one currency, with prices that are pairs of an amount and a currency.
use borsa.Prelude.{
  string_eq, ℕ, String, ◌≡◌, refl, inr, false, ◌&&◌, not, none, some, List, [], ◌∷◌, map, is_empty,
  is_ok,
}
use borsa.Series.{
  Candle, merge_candles_by_priority, ensure_series_currency_uniform, clear_close_unadj,
}
use borsa.Series.Sorted.{Above, find_at}
use borsa.Series.Winners.{all_candles, merge_candles_by_priority-first_wins}
use borsa.Series.Currencies.{one_currency, merge-one_currency}

abbrev Price : Type 0
Price = ℕ × String

abbrev currency : Price → String
currency (amount, name) = name

abbrev candle : ℕ → ℕ → String → Candle Price
candle ts amount name = record {
  ts = ts;
  open_price = (amount, name);
  high = (amount, name);
  low = (amount, name);
  close = (amount, name);
  close_unadj = some (amount, name);
  volume = none;
}

abbrev first_series : List (Candle Price)
first_series = candle 30 1 "USD" ∷ candle 10 2 "USD" ∷ []

abbrev second_series : List (Candle Price)
second_series = candle 20 3 "USD" ∷ candle 10 4 "USD" ∷ []

abbrev merged : List (Candle Price)
merged = map clear_close_unadj (candle 10 2 "USD" ∷ candle 20 3 "USD" ∷ candle 30 1 "USD" ∷ [])

merge_of_two : merge_candles_by_priority currency (first_series ∷ second_series ∷ []) ≡ inr merged
unfolding merge_candles_by_priority
merge_of_two = refl

merge_of_mixed :
    is_ok (merge_candles_by_priority currency (first_series ∷ (candle 10 5 "EUR" ∷ []) ∷ []))
    ≡ false
unfolding merge_candles_by_priority
merge_of_mixed = refl

merge_candles_by_priority-first_wins_example :
    Above 0 merged
    × (find_at 10 merged
        ≡ find_at 10 (map clear_close_unadj (all_candles (first_series ∷ second_series ∷ []))))
merge_candles_by_priority-first_wins_example =
    merge_candles_by_priority-first_wins currency (first_series ∷ second_series ∷ []) merged 10
      merge_of_two

merge-one_currency_example :
    (is_ok (merge_candles_by_priority currency (first_series ∷ second_series ∷ []))
      ≡ one_currency currency (all_candles (first_series ∷ second_series ∷ [])))
    × (is_ok (
          ensure_series_currency_uniform currency (all_candles (first_series ∷ second_series ∷ [])))
        ≡ (not (is_empty (all_candles (first_series ∷ second_series ∷ [])))
            && one_currency currency (all_candles (first_series ∷ second_series ∷ []))))
merge-one_currency_example = merge-one_currency currency (first_series ∷ second_series ∷ [])
