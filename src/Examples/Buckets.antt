-- ===== src/Examples/Buckets.antt =====
-- Candles with volumes, gathered into buckets of ten.
use borsa.Prelude.{
  nat_eq, ℕ, ◌+◌, ◌-◌, ◌*◌, ◌/◌, ◌≤◌, ◌≡◌, refl, inr, Bool, Option, none, some, List, [], ◌∷◌,
  arith, ltb, keep_if, sorted_insert, sort_by,
}
use borsa.Series.{Candle}
use borsa.Series.Sorted.{Above}
use borsa.Series.Resample.{resample_by, gather_all, gather, finalize_bucket}
use borsa.Series.Resample.Volume.{total_volume, has_bucket, resample_by-volume}
use borsa.Series.Resample.Ascending.{resample_by-Above}

abbrev candle : ℕ → ℕ → Option ℕ → Candle ℕ
candle ts price volume = record {
  ts = ts;
  open_price = price;
  high = price + 1;
  low = price - 1;
  close = price;
  close_unadj = some price;
  volume = volume;
}

abbrev currency : ℕ → ℕ
currency price = 0

abbrev greater : ℕ → ℕ → Bool
greater a b = ltb b a

abbrev ten : ℕ → Option ℕ
ten t = some (t / 10 * 10)

abbrev candles : List (Candle ℕ)
candles = candle 12 5 (some 3) ∷ candle 1 7 none ∷ candle 17 9 (some 4) ∷ []

abbrev gathered : List (Candle ℕ)
gathered =
    record {
      ts = 0;
      open_price = 7;
      high = 8;
      low = 6;
      close = 7;
      close_unadj = none;
      volume = none;
    }
    ∷ record {
      ts = 10;
      open_price = 5;
      high = 10;
      low = 4;
      close = 9;
      close_unadj = none;
      volume = some 7;
    }
    ∷ []

gathered_candles : resample_by currency greater ten candles ≡ inr gathered
unfolding resample_by gather_all gather finalize_bucket sort_by sorted_insert
gathered_candles = refl

resample_by-volume_example : total_volume gathered ≡ total_volume (keep_if (has_bucket ten) candles)
resample_by-volume_example =
    resample_by-volume currency greater ten candles gathered (omega arith) gathered_candles

same_value : (a b : ℕ) → some a ≡ some b → a ≡ b
same_value a b e = cc e

forward : (t u a b : ℕ) → t ≤ u → ten t ≡ some a → ten u ≡ some b → a ≤ b
forward t u a b h e f = omega (arith, same_value (t / 10 * 10) a e, same_value (u / 10 * 10) b f)

resample_by-Above_example : Above 0 gathered
resample_by-Above_example =
    resample_by-Above currency greater ten forward candles gathered gathered_candles
