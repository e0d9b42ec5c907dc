-- ===== src/Series/Resample.antt =====
-- `resample_by` and `finalize_bucket` of borsa-core/src/timeseries/resample.rs: candles are gathered
-- into buckets. `bucket_of` gives the start of an instant's bucket, none where there is no such
-- instant; `greater` compares the amounts of two prices. The sum of volumes is not bounded.
pub mod Volume
pub mod Ascending
use borsa.Prelude.{
  ℕ, ◌+◌, min, ◌⊎◌, inl, inr, Bool, Option, none, some, List, [], ◌∷◌, ◌++◌, leb, ◌==◌,
  if◌then◌else◌, Eq, eq, is_empty, sort_by, and_then, ◌-◌, ◌*◌, ◌/◌, ◌%◌, ◌||◌,
}
use borsa.Quota.{u64_max}
use borsa.Series.{Candle, SeriesError, mixed_in_bucket, mixed_across_buckets, is_uniform}

pub record BucketAgg (Price : Type 0) : Type 0 where
  pub open_price : Price
  pub high : Price
  pub low : Price
  pub close : Price
  pub vol_sum : Option ℕ

pub record Resampled (Price Currency : Type 0) : Type 0 where
  pub out : List (Candle Price)
  pub series_currency : Option Currency

abbrev pub add_volume : Option ℕ → Option ℕ → Option ℕ
add_volume sum none = sum
add_volume none (some v) = some (0 + v)
add_volume (some sum) (some v) = some (sum + v)

abbrev pub clamped : Option ℕ → Option ℕ
clamped none = none
clamped (some v) = some (min v u64_max)

module _ {Price : Type 0} where
  -- The candles that have a bucket, each with it.
  abbrev pub with_bucket :
      Option ℕ → Candle Price → List (ℕ × Candle Price) → List (ℕ × Candle Price)
  with_bucket none c rest = rest
  with_bucket (some b) c rest = (b, c) ∷ rest

  abbrev pub bucketed : (ℕ → Option ℕ) → List (Candle Price) → List (ℕ × Candle Price)
  bucketed bucket_of [] = []
  bucketed bucket_of (c ∷ cs) = with_bucket (bucket_of c.ts) c (bucketed bucket_of cs)

  abbrev pub opened : Candle Price → BucketAgg Price
  opened c = record {
    open_price = c.open_price;
    high = c.high;
    low = c.low;
    close = c.close;
    vol_sum = c.volume;
  }

  abbrev pub absorbed : (Price → Price → Bool) → BucketAgg Price → Candle Price → BucketAgg Price
  absorbed greater agg c = record {
    open_price = agg.open_price;
    high = if greater c.high agg.high then c.high else agg.high;
    low = if greater agg.low c.low then c.low else agg.low;
    close = c.close;
    vol_sum = add_volume agg.vol_sum c.volume;
  }

  abbrev pub closed : ℕ → BucketAgg Price → Candle Price
  closed bucket agg = record {
    ts = bucket;
    open_price = agg.open_price;
    high = agg.high;
    low = agg.low;
    close = agg.close;
    close_unadj = none;
    volume = clamped agg.vol_sum;
  }

module _ {Price Currency : Type 0} ⦃e : Eq Currency⦄ (currency_of : Price → Currency)
    (greater : Price → Price → Bool) where
  abbrev pub bucket_currency :
      Resampled Price Currency → ℕ → BucketAgg Price → SeriesError Currency ⊎ Option Currency
  bucket_currency st bucket agg = elim st.series_currency [
    | some cur ↦
        if eq cur (currency_of agg.open_price)
        then inr (some cur)
        else inl (mixed_across_buckets bucket cur (currency_of agg.open_price))
    | none ↦ inr (if is_empty st.out then some (currency_of agg.open_price) else none)
  ]

  abbrev pub pushed :
      Resampled Price Currency → ℕ → BucketAgg Price → Option Currency → Resampled Price Currency
  pushed st bucket agg cur = record {
    out = st.out ++ closed bucket agg ∷ [];
    series_currency = cur;
  }

  unfoldable pub finalize_bucket :
      Resampled Price Currency
      → ℕ
      → BucketAgg Price
      → SeriesError Currency ⊎ Resampled Price Currency
  finalize_bucket st bucket agg =
      if is_uniform currency_of (closed bucket agg)
      then and_then (bucket_currency st bucket agg) (λ cur. inr (pushed st bucket agg cur))
      else inl (mixed_in_bucket bucket)

  -- The candle's open price with the bucket's other prices, as the loop checks them.
  abbrev pub fits_bucket : BucketAgg Price → Candle Price → Bool
  fits_bucket agg c = is_uniform currency_of (closed 0 (record agg { open_price = c.open_price }))

  unfoldable pub gather :
      Resampled Price Currency
      → ℕ
      → BucketAgg Price
      → List (ℕ × Candle Price)
      → SeriesError Currency ⊎ Resampled Price Currency
  unfolding finalize_bucket
  gather st cur_bucket agg [] = finalize_bucket st cur_bucket agg
  gather st cur_bucket agg ((bucket, c) ∷ rest) =
      let going_on = gather st cur_bucket (absorbed greater agg c) rest in
      let next =
        and_then (finalize_bucket st cur_bucket agg)
          (λ after. gather after bucket (opened c) rest) in
      if bucket == cur_bucket
      then if fits_bucket agg c then going_on else inl (mixed_in_bucket cur_bucket)
      else next

  unfoldable pub gather_all : List (ℕ × Candle Price) → SeriesError Currency ⊎ List (Candle Price)
  unfolding gather
  gather_all [] = inr []
  gather_all ((bucket, c) ∷ rest) =
      and_then (gather (record { out = []; series_currency = none }) bucket (opened c) rest)
        (λ st. inr st.out)

  unfoldable pub resample_by :
      (ℕ → Option ℕ) → List (Candle Price) → SeriesError Currency ⊎ List (Candle Price)
  unfolding sort_by gather_all
  resample_by bucket_of candles =
      gather_all (bucketed bucket_of (sort_by (λ c d. leb c.ts d.ts) candles))
