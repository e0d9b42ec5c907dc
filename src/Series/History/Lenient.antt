-- ===== src/Series/History/Lenient.antt =====
-- The merge of responses against the merge of candles by priority.
use borsa.Series.Currencies.{or_insert_some}
use borsa.Prelude.{
  ◌≡◌, refl, ◌⊎◌, inl, inr, true, not, List, [], ◌∷◌, arith, is_some, Eq, is_empty, sym, ap, ◌∙◌,
  subst, Bool, Option, none, some, Bool-cases, eq, ℕ, and_then, false,
}
use borsa.Series.{
  Candle, SeriesError, MergeState, strip_unadjusted, or_insert, is_uniform, merge_candle, merge_one,
  merge_each, merge_candles_by_priority, clear_close_unadj, ensure_candle_currency_uniform,
  merged_currency, with_candle,
}
use borsa.Series.History.{
  Collected, HistoryMerge, HistoryResponse, occupied, collect_candle, collect_candles,
  merge_response, merge_responses, merge_history, response_of, entered, nothing_merged,
  after_response,
}

module _ {Price : Type 0} where
  or_insert-occupied :
      (c : Candle Price) (m : List (Candle Price))
      → occupied c.ts m ≡ true
      → or_insert (clear_close_unadj c) (strip_unadjusted m) ≡ strip_unadjusted m
  unfolding or_insert occupied strip_unadjusted
  or_insert-occupied c [] h = cc h
  or_insert-occupied c (d ∷ m) h = ground (arith, or_insert-occupied c m)

  strip-or_insert :
      (c : Candle Price) (m : List (Candle Price))
      → strip_unadjusted (or_insert c m) ≡ or_insert (clear_close_unadj c) (strip_unadjusted m)
  unfolding or_insert strip_unadjusted
  strip-or_insert c [] = refl
  strip-or_insert c (d ∷ m) = ground (arith, strip-or_insert c m)

  strip-is_empty : (m : List (Candle Price)) → is_empty (strip_unadjusted m) ≡ is_empty m
  unfolding strip_unadjusted
  strip-is_empty [] = refl
  strip-is_empty (d ∷ m) = refl

-- Where the second succeeds the first does, with a related result.
abbrev FollowsBy : {E A B : Type 0} → (A → B → Type 0) → E ⊎ A → E ⊎ B → Type 0
FollowsBy R r (inl error) = Unit
FollowsBy R (inl error) (inr b) = ⊥
FollowsBy R (inr a) (inr b) = R a b

chain-FollowsBy :
    {E A B C D : Type 0} (R : A → B → Type 0) (S : C → D → Type 0) (r : E ⊎ A) (q : E ⊎ B)
    (k : A → E ⊎ C) (l : B → E ⊎ D)
    → FollowsBy R r q
    → ((a : A) (b : B) → R a b → FollowsBy S (k a) (l b))
    → FollowsBy S (and_then r k) (and_then q l)
chain-FollowsBy R S r (inl error) k l f g = tt
chain-FollowsBy R S (inl error) (inr b) k l f g = absurd f
chain-FollowsBy R S (inr a) (inr b) k l f g = g a b f

module _ {Price Currency : Type 0} where
  -- The two loops have the same candles and the same currency.
  abbrev Same : Collected Price Currency → MergeState Price Currency → Type 0
  Same st ms =
      (strip_unadjusted st.candle_map ≡ ms.candles)
      × (st.series_currency ≡ ms.series_currency)
      × (is_empty ms.candles ≡ not (is_some ms.series_currency))

  abbrev Follows :
      SeriesError Currency ⊎ Collected Price Currency
      → SeriesError Currency ⊎ MergeState Price Currency
      → Type 0
  Follows = FollowsBy Same

module _ {Price Currency : Type 0} ⦃e : Eq Currency⦄ (currency_of : Price → Currency) where
  known-Follows :
      (m : List (Candle Price)) (k : Currency) (contributed : Bool) (c : Candle Price)
      → Follows
          (collect_candle currency_of
            (record { candle_map = m; series_currency = some k; contributed = contributed })
            c)
          (merge_candle currency_of
            (record { candles = strip_unadjusted m; series_currency = some k })
            c)
  unfolding collect_candle merge_candle ensure_candle_currency_uniform merged_currency with_candle
      entered
  known-Follows m k contributed c = elim (Bool-cases (is_uniform currency_of c)) [
    | inr mixed ↦ rw mixed tt
    | inl u ↦ rw u (elim (Bool-cases (eq k (currency_of c.open_price))) [
      | inr other ↦ rw other tt
      | inl same ↦ rw same (elim (Bool-cases (occupied c.ts m)) [
        | inl taken ↦ rw taken (
          sym (or_insert-occupied c m taken),
          refl,
          or_insert_some (clear_close_unadj c) (strip_unadjusted m),
        )
        | inr vacant ↦
            rw vacant
              (strip-or_insert c m, refl, or_insert_some (clear_close_unadj c) (strip_unadjusted m))
      ])
    ])
  ]

  candle-Follows :
      (m : List (Candle Price)) (cur : Option Currency) (contributed : Bool) (c : Candle Price)
      → is_empty (strip_unadjusted m) ≡ not (is_some cur)
      → Follows
          (collect_candle currency_of
            (record { candle_map = m; series_currency = cur; contributed = contributed })
            c)
          (merge_candle currency_of
            (record { candles = strip_unadjusted m; series_currency = cur })
            c)
  unfolding collect_candle merge_candle ensure_candle_currency_uniform merged_currency with_candle
      entered strip_unadjusted occupied or_insert
  candle-Follows m (some k) contributed c h = known-Follows m k contributed c
  candle-Follows (d ∷ m) none contributed c h = cc h
  candle-Follows [] none contributed c h = elim (Bool-cases (is_uniform currency_of c)) [
    | inr mixed ↦ rw mixed tt
    | inl u ↦ rw u (refl, refl, refl)
  ]

  collect_candle-Follows :
      (st : Collected Price Currency) (ms : MergeState Price Currency) (c : Candle Price)
      → Same st ms
      → Follows (collect_candle currency_of st c) (merge_candle currency_of ms c)
  collect_candle-Follows st ms c (same, cur, steady) =
      subst
        (λ (s : MergeState Price Currency).
          Follows (collect_candle currency_of st c) (merge_candle currency_of s c))
        (λ i. record { candles = same i; series_currency = cur i })
        (candle-Follows st.candle_map st.series_currency st.contributed c
          (ap is_empty same ∙ steady ∙ ap (λ o. not (is_some o)) (sym cur)))

  collect_candles-Follows :
      (st : Collected Price Currency) (ms : MergeState Price Currency) (cs : List (Candle Price))
      → Same st ms
      → Follows (collect_candles currency_of st cs) (merge_one currency_of ms cs)
  unfolding collect_candles merge_one
  collect_candles-Follows st ms [] h = h
  collect_candles-Follows st ms (c ∷ cs) h =
      chain-FollowsBy Same Same _ _ _ _ (collect_candle-Follows st ms c h)
        (λ next after same. collect_candles-Follows next after cs same)

  module _ {Action Meta : Type 0} (before : Action → Action → Bool) (hash : Action → ℕ) where
    abbrev SameMerge : HistoryMerge Price Currency Action Meta → MergeState Price Currency → Type 0
    SameMerge st ms =
        (strip_unadjusted st.candle_map ≡ ms.candles)
        × (st.series_currency ≡ ms.series_currency)
        × (is_empty ms.candles ≡ not (is_some ms.series_currency))

    after_response-FollowsBy :
        (st : HistoryMerge Price Currency Action Meta) (r : HistoryResponse Price Action Meta)
        (collected : SeriesError Currency ⊎ Collected Price Currency)
        (q : SeriesError Currency ⊎ MergeState Price Currency)
        → Follows collected q
        → FollowsBy SameMerge
            (and_then collected (λ c. inr (after_response currency_of before hash st r c)))
            q
    after_response-FollowsBy st r collected (inl error) f = tt
    after_response-FollowsBy st r (inl error) (inr ms) f = absurd f
    after_response-FollowsBy st r (inr c) (inr ms) f = f

    merge_response-FollowsBy :
        (st : HistoryMerge Price Currency Action Meta) (ms : MergeState Price Currency)
        (r : HistoryResponse Price Action Meta)
        → SameMerge st ms
        → FollowsBy SameMerge
            (merge_response currency_of before hash st r)
            (merge_one currency_of ms r.candles)
    unfolding merge_response
    merge_response-FollowsBy st ms r h = after_response-FollowsBy st r _ _ (
        collect_candles-Follows
          (record {
            candle_map = st.candle_map;
            series_currency = st.series_currency;
            contributed = false;
          })
          ms r.candles h)

    abbrev pub candles_of : List (HistoryResponse Price Action Meta) → List (List (Candle Price))
    candles_of [] = []
    candles_of (r ∷ rs) = r.candles ∷ candles_of rs

    merge_responses-FollowsBy :
        (st : HistoryMerge Price Currency Action Meta) (ms : MergeState Price Currency)
        (rs : List (HistoryResponse Price Action Meta))
        → SameMerge st ms
        → FollowsBy SameMerge
            (merge_responses currency_of before hash st rs)
            (merge_each currency_of ms (candles_of rs))
    unfolding merge_responses merge_each
    merge_responses-FollowsBy st ms [] h = h
    merge_responses-FollowsBy st ms (r ∷ rs) h =
        chain-FollowsBy SameMerge SameMerge _ _ _ _ (merge_response-FollowsBy st ms r h)
          (λ next after same. merge_responses-FollowsBy next after rs same)

    result_of-FollowsBy :
        (r : SeriesError Currency ⊎ HistoryMerge Price Currency Action Meta)
        (q : SeriesError Currency ⊎ MergeState Price Currency) (merged : List (Candle Price))
        → FollowsBy SameMerge r q
        → and_then q (λ st. inr st.candles) ≡ inr merged
        → and_then
            (and_then r (λ st. inr (response_of currency_of before hash st)))
            (λ h. inr h.candles)
          ≡ inr merged
    unfolding response_of
    result_of-FollowsBy r (inl error) merged f h = cc h
    result_of-FollowsBy (inl error) (inr ms) merged f h = absurd f
    result_of-FollowsBy (inr st) (inr ms) merged (same, cur, steady) h = ap inr same ∙ h

    -- Where the merge of the candles by priority succeeds, the merge of the responses does, with the
    -- same candles.
    pub merge_history-by_priority :
        (rs : List (HistoryResponse Price Action Meta)) (merged : List (Candle Price))
        → merge_candles_by_priority currency_of (candles_of rs) ≡ inr merged
        → and_then (merge_history currency_of before hash rs) (λ h. inr h.candles) ≡ inr merged
    unfolding merge_history merge_candles_by_priority strip_unadjusted
    merge_history-by_priority rs merged h =
        result_of-FollowsBy _ _ merged
          (merge_responses-FollowsBy (nothing_merged currency_of before hash)
            (record { candles = []; series_currency = none }) rs (refl, refl, refl))
          h
