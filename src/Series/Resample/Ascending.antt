-- ===== src/Series/Resample/Ascending.antt =====
-- The instants of resampled candles.
use borsa.Prelude.{
  ℕ, suc, ◌≤◌, ◌≡◌, sym, ap, ◌∙◌, subst, inl, inr, Bool, true, Option, none, some, List, [], ◌∷◌,
  ◌++◌, arith, leb, ◌==◌, ==_iff, Bool-cases, Option-cases, Eq, All, sort_by, IsSortedBy,
  sort_by-IsSortedBy,
}
use mathlib.Core.List.{append_assoc}
use borsa.Series.{Candle}
use borsa.Series.Sorted.{Above}
use borsa.Series.Resample.{
  BucketAgg, Resampled, gather, finalize_bucket, resample_by, gather_all, bucketed, closed, opened,
  fits_bucket, absorbed,
}
use borsa.Series.Resample.Volume.{and_then-inr, finalize_bucket-out, out_of}

module _ {Price : Type 0} where
  -- The buckets never go back.
  abbrev Advance : ℕ → List (ℕ × Candle Price) → Type 0
  Advance b [] = Unit
  Advance b ((bucket, c) ∷ rest) = (b ≤ bucket) × Advance bucket rest

  Above-weaken : (a b : ℕ) (cs : List (Candle Price)) → a ≤ b → Above b cs → Above a cs
  Above-weaken a b [] h k = tt
  Above-weaken a b (c ∷ cs) h (l, k) = (omega (arith, h, l), k)

  -- From the first bucket on.
  abbrev AdvanceFromFirst : List (ℕ × Candle Price) → Type 0
  AdvanceFromFirst [] = Unit
  AdvanceFromFirst ((bucket, c) ∷ rest) = Advance bucket rest

  module _ (bucket_of : ℕ → Option ℕ)
      (forward : (t u a b : ℕ) → t ≤ u → bucket_of t ≡ some a → bucket_of u ≡ some b → a ≤ b) where
    bucketed-Advance :
        (t b : ℕ) (cs : List (Candle Price))
        → bucket_of t ≡ some b
        → All (λ d. leb t d.ts ≡ true) cs
        → IsSortedBy (λ c d. leb c.ts d.ts) cs
        → Advance b (bucketed bucket_of cs)
    bucketed-Advance t b [] h a s = tt
    bucketed-Advance t b (c ∷ cs) h (l, a) (m, s) = elim (Option-cases (bucket_of c.ts)) [
      | inl nowhere ↦ rw nowhere (bucketed-Advance t b cs h a s)
      | inr (u, e) ↦
          rw e (forward t c.ts b u (ground (arith, l)) h e, bucketed-Advance c.ts u cs e m s)
    ]

    bucketed-AdvanceFromFirst :
        (cs : List (Candle Price))
        → IsSortedBy (λ c d. leb c.ts d.ts) cs
        → AdvanceFromFirst (bucketed bucket_of cs)
    bucketed-AdvanceFromFirst [] s = tt
    bucketed-AdvanceFromFirst (c ∷ cs) (m, s) = elim (Option-cases (bucket_of c.ts)) [
      | inl nowhere ↦ rw nowhere (bucketed-AdvanceFromFirst cs s)
      | inr (u, e) ↦ rw e (bucketed-Advance c.ts u cs e m s)
    ]

module _ {Price Currency : Type 0} ⦃e : Eq Currency⦄ (currency_of : Price → Currency)
    (greater : Price → Price → Bool) where
  gather-Above :
      (st : Resampled Price Currency) (cur_bucket : ℕ) (agg : BucketAgg Price)
      (rest : List (ℕ × Candle Price)) (after : Resampled Price Currency)
      → Advance cur_bucket rest
      → gather currency_of greater st cur_bucket agg rest ≡ inr after
      → (added : List (Candle Price)) × (after.out ≡ st.out ++ added) × Above cur_bucket added
  unfolding gather
  gather-Above st cur_bucket agg [] after v h = (
    closed cur_bucket agg ∷ [],
    finalize_bucket-out currency_of greater st cur_bucket agg after h,
    (omega arith, tt),
  )
  gather-Above st cur_bucket agg ((bucket, c) ∷ rest) after (l, v) h =
      elim (Bool-cases (bucket == cur_bucket)) [
        | inl same ↦ elim (Bool-cases (fits_bucket currency_of greater agg c)) [
          | inl fits ↦
              gather-Above st cur_bucket (absorbed greater agg c) rest after
                (subst (λ b. Advance b rest) ((==_iff bucket cur_bucket).0 same) v)
                (cc (h, same, fits))
          | inr mixed ↦ cc (h, same, mixed)
        ]
        | inr other ↦
            let (next, f, k) =
              and_then-inr (finalize_bucket currency_of greater st cur_bucket agg)
                (λ next. gather currency_of greater next bucket (opened c) rest) after
                (cc (h, other)) in
            let (added, same_out, above) = gather-Above next bucket (opened c) rest after v k in
            (
              closed cur_bucket agg ∷ added,
              same_out
                  ∙ ap (λ o. o ++ added)
                      (finalize_bucket-out currency_of greater st cur_bucket agg next f)
                  ∙ append_assoc st.out (closed cur_bucket agg ∷ []) added,
              (
                omega arith,
                Above-weaken (suc cur_bucket) bucket added (ground (arith, other, l)) above,
              ),
            )
      ]

  gather_all-Above :
      (items : List (ℕ × Candle Price)) (out : List (Candle Price))
      → AdvanceFromFirst items
      → gather_all currency_of greater items ≡ inr out
      → Above 0 out
  unfolding gather_all
  gather_all-Above [] out v h = subst (Above 0) (sym (out_of currency_of greater [] out h)) tt
  gather_all-Above ((bucket, c) ∷ rest) out v h =
      let (st, g, k) =
        and_then-inr
          (gather currency_of greater (record { out = []; series_currency = none }) bucket
            (opened c) rest)
          (λ st. inr st.out) out h in
      let (added, same_out, above) =
        gather-Above (record { out = []; series_currency = none }) bucket (opened c) rest st v g in
      subst (Above 0) (sym (out_of currency_of greater st.out out k ∙ same_out))
        (Above-weaken 0 bucket added (omega arith) above)

  -- Resampled candles are in the strict order of their instants, where the bucket of a later instant
  -- is not an earlier one.
  pub resample_by-Above :
      (bucket_of : ℕ → Option ℕ)
      (forward : (t u a b : ℕ) → t ≤ u → bucket_of t ≡ some a → bucket_of u ≡ some b → a ≤ b)
      (candles out : List (Candle Price))
      → resample_by currency_of greater bucket_of candles ≡ inr out
      → Above 0 out
  unfolding resample_by
  resample_by-Above bucket_of forward candles out h =
      gather_all-Above (bucketed bucket_of (sort_by (λ a b. leb a.ts b.ts) candles)) out
        (bucketed-AdvanceFromFirst bucket_of forward (sort_by (λ a b. leb a.ts b.ts) candles) (
          sort_by-IsSortedBy (λ a b. leb a.ts b.ts) (λ c d k. ground arith)
            (λ c d f k l. ground arith) candles))
        h
