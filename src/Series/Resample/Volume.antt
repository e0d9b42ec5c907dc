-- ===== src/Series/Resample/Volume.antt =====
-- The volumes of resampled candles.
use borsa.Quota.{u64_max}
use borsa.Prelude.{
  ℕ, ◌+◌, ◌≤◌, ◌≡◌, ap, ◌∙◌, ◌⊎◌, inl, inr, Bool, Option, none, some, List, [], ◌∷◌, ◌++◌, arith,
  is_some, Eq, refl, leb, ◌==◌, Bool-cases, keep_if, sorted_insert, sort_by, and_then,
}
use borsa.Series.{Candle, SeriesError}
use borsa.Series.Resample.{
  BucketAgg, Resampled, gather, finalize_bucket, resample_by, gather_all, absorbed, closed,
  fits_bucket, bucketed, opened,
}

abbrev or_zero : Option ℕ → ℕ
or_zero none = 0
or_zero (some v) = v

pub and_then-inr :
    {E A B : Type 0} (r : E ⊎ A) (k : A → E ⊎ B) (b : B)
    → and_then r k ≡ inr b
    → (a : A) × (r ≡ inr a) × (k a ≡ inr b)
and_then-inr (inl error) k b h = cc h
and_then-inr (inr a) k b h = (a, refl, h)

module _ {Price : Type 0} where
  abbrev pub total_volume : List (Candle Price) → ℕ
  total_volume [] = 0
  total_volume (c ∷ cs) = or_zero c.volume + total_volume cs

  abbrev pub has_bucket : (ℕ → Option ℕ) → Candle Price → Bool
  has_bucket bucket_of c = is_some (bucket_of c.ts)

  abbrev bucketed_volume : List (ℕ × Candle Price) → ℕ
  bucketed_volume [] = 0
  bucketed_volume ((b, c) ∷ rest) = or_zero c.volume + bucketed_volume rest

  total_volume-append :
      (xs ys : List (Candle Price)) → total_volume (xs ++ ys) ≡ total_volume xs + total_volume ys
  total_volume-append [] ys = omega arith
  total_volume-append (x ∷ xs) ys = omega (arith, total_volume-append xs ys)

  closed-volume :
      (bucket : ℕ) (agg : BucketAgg Price)
      → or_zero agg.vol_sum ≤ u64_max
      → or_zero (closed bucket agg).volume ≡ or_zero agg.vol_sum
  closed-volume bucket agg h = ground arith

  absorbed-volume :
      (greater : Price → Price → Bool) (agg : BucketAgg Price) (c : Candle Price)
      → or_zero (absorbed greater agg c).vol_sum ≡ or_zero agg.vol_sum + or_zero c.volume
  absorbed-volume greater agg c = ground arith

module _ {Price Currency : Type 0} ⦃e : Eq Currency⦄ (currency_of : Price → Currency)
    (greater : Price → Price → Bool) where
  abbrev VolumeIs : ℕ → SeriesError Currency ⊎ Resampled Price Currency → Type 0
  VolumeIs v (inl error) = Unit
  VolumeIs v (inr st) = total_volume st.out ≡ v

  pub finalize_bucket-out :
      (st : Resampled Price Currency) (bucket : ℕ) (agg : BucketAgg Price)
      (after : Resampled Price Currency)
      → finalize_bucket currency_of greater st bucket agg ≡ inr after
      → after.out ≡ st.out ++ closed bucket agg ∷ []
  unfolding finalize_bucket
  finalize_bucket-out st bucket agg after h = ground arith

  gather-volume :
      (st : Resampled Price Currency) (cur_bucket : ℕ) (agg : BucketAgg Price)
      (rest : List (ℕ × Candle Price)) (after : Resampled Price Currency)
      → or_zero agg.vol_sum + bucketed_volume rest ≤ u64_max
      → gather currency_of greater st cur_bucket agg rest ≡ inr after
      → total_volume after.out ≡ total_volume st.out + (or_zero agg.vol_sum + bucketed_volume rest)
  unfolding gather
  gather-volume st cur_bucket agg [] after b h =
      ap total_volume (finalize_bucket-out st cur_bucket agg after h)
      ∙ total_volume-append st.out (closed cur_bucket agg ∷ [])
      ∙ omega (arith, closed-volume cur_bucket agg (omega (arith, b)))
  gather-volume st cur_bucket agg ((bucket, c) ∷ rest) after b h =
      elim (Bool-cases (bucket == cur_bucket)) [
        | inl same ↦ elim (Bool-cases (fits_bucket currency_of greater agg c)) [
          | inl fits ↦
              let ih =
                gather-volume st cur_bucket (absorbed greater agg c) rest after
                  (omega (arith, b, absorbed-volume greater agg c)) (cc (h, same, fits)) in
              omega (arith, ih, absorbed-volume greater agg c)
          | inr mixed ↦ cc (h, same, mixed)
        ]
        | inr other ↦
            let (next, f, k) =
              and_then-inr (finalize_bucket currency_of greater st cur_bucket agg)
                (λ next. gather currency_of greater next bucket (opened c) rest) after
                (cc (h, other)) in
            let ih = gather-volume next bucket (opened c) rest after (omega (arith, b)) k in
            ih
            ∙ omega (
              arith,
              ap total_volume (finalize_bucket-out st cur_bucket agg next f),
              total_volume-append st.out (closed cur_bucket agg ∷ []),
              closed-volume cur_bucket agg (omega (arith, b)),
            )
      ]

  bucketed-volume :
      (bucket_of : ℕ → Option ℕ) (cs : List (Candle Price))
      → bucketed_volume (bucketed bucket_of cs) ≡ total_volume (keep_if (has_bucket bucket_of) cs)
  bucketed-volume bucket_of [] = refl
  bucketed-volume bucket_of (c ∷ cs) = ground (arith, bucketed-volume bucket_of cs)

  sorted_insert-volume :
      (p : Candle Price → Bool) (c : Candle Price) (cs : List (Candle Price))
      → total_volume (keep_if p (sorted_insert (λ a b. leb a.ts b.ts) c cs))
        ≡ total_volume (keep_if p (c ∷ cs))
  unfolding sorted_insert
  sorted_insert-volume p c [] = refl
  sorted_insert-volume p c (d ∷ cs) = ground (arith, sorted_insert-volume p c cs)

  sort_by-volume :
      (p : Candle Price → Bool) (cs : List (Candle Price))
      → total_volume (keep_if p (sort_by (λ a b. leb a.ts b.ts) cs)) ≡ total_volume (keep_if p cs)
  unfolding sort_by
  sort_by-volume p [] = refl
  sort_by-volume p (c ∷ cs) =
      ground
        (arith, sorted_insert-volume p c (sort_by (λ a b. leb a.ts b.ts) cs), sort_by-volume p cs)

  pub out_of :
      (xs ys : List (Candle Price))
      → ◌≡◌ {A = SeriesError Currency ⊎ List (Candle Price)} (inr xs) (inr ys)
      → ys ≡ xs
  out_of xs ys h = cc h

  gather_all-volume :
      (items : List (ℕ × Candle Price)) (out : List (Candle Price))
      → bucketed_volume items ≤ u64_max
      → gather_all currency_of greater items ≡ inr out
      → total_volume out ≡ bucketed_volume items
  unfolding gather_all
  gather_all-volume [] out b h = ap total_volume (out_of [] out h)
  gather_all-volume ((bucket, c) ∷ rest) out b h =
      let (st, g, k) =
        and_then-inr
          (gather currency_of greater (record { out = []; series_currency = none }) bucket
            (opened c) rest)
          (λ st. inr st.out) out h in
      let gathered =
        gather-volume (record { out = []; series_currency = none }) bucket (opened c) rest st b g in
      ap total_volume (out_of st.out out k) ∙ omega (arith, gathered)

  -- Resampled candles have together the volume of those candles that have a bucket, as long as that
  -- is a number of 64 bits; a candle without a volume counts for nothing.
  pub resample_by-volume :
      (bucket_of : ℕ → Option ℕ) (candles out : List (Candle Price))
      → total_volume (keep_if (has_bucket bucket_of) candles) ≤ u64_max
      → resample_by currency_of greater bucket_of candles ≡ inr out
      → total_volume out ≡ total_volume (keep_if (has_bucket bucket_of) candles)
  unfolding resample_by
  resample_by-volume bucket_of candles out b h =
      let same =
        bucketed-volume bucket_of (sort_by (λ a b. leb a.ts b.ts) candles)
        ∙ sort_by-volume (has_bucket bucket_of) candles in
      gather_all-volume (bucketed bucket_of (sort_by (λ a b. leb a.ts b.ts) candles)) out
        (omega (arith, same, b)) h
      ∙ same
