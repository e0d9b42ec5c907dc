-- ===== src/Series/Winners.antt =====
-- The merge keeps, of each instant, the candle of the first series that has one.
use borsa.Prelude.{
  ℕ, ◌≡◌, refl, sym, ap, ◌∙◌, subst, ◌⊎◌, inl, inr, Option, none, some, List, [], ◌∷◌, ◌++◌, map,
  arith, Eq, and_then, map_error,
}
use borsa.Series.{
  Candle, SeriesError, MergeState, clear_close_unadj, with_candle, mixed_in_candle,
  ensure_candle_currency_uniform, merged_currency, merge_candle, merge_one, merge_each,
  merge_candles_by_priority,
}
use borsa.Series.Sorted.{
  Above, find_at, or_else, or_insert-Above, find_at-or_insert, or_else_assoc, find_at-append,
}

-- All the candles of several series, the first series first.
abbrev pub all_candles : {Price : Type 0} → List (List (Candle Price)) → List (Candle Price)
all_candles [] = []
all_candles (s ∷ series) = s ++ all_candles series

map-append : {A B : Type 0} (f : A → B) (xs ys : List A) → map f (xs ++ ys) ≡ map f xs ++ map f ys
map-append f [] ys = refl
map-append f (x ∷ xs) ys = ap (λ l. f x ∷ l) (map-append f xs ys)

or_else-none : {Price : Type 0} (o : Option (Candle Price)) → o ≡ or_else o none
or_else-none none = refl
or_else-none (some c) = refl

module _ {Price Currency : Type 0} where
  -- The candles of `st'` are in order, and at each instant there is that of `st`, or else the first
  -- of the list.
  abbrev Merged :
      MergeState Price Currency → List (Candle Price) → MergeState Price Currency → Type 0
  Merged st cs st' =
      Above 0 st'.candles
      × ((t : ℕ)
          → find_at t st'.candles
            ≡ or_else (find_at t st.candles) (find_at t (map clear_close_unadj cs)))

  abbrev MergedIfOk :
      MergeState Price Currency
      → List (Candle Price)
      → SeriesError Currency ⊎ MergeState Price Currency
      → Type 0
  MergedIfOk st cs (inl error) = Unit
  MergedIfOk st cs (inr st') = Merged st cs st'

  -- One list after another.
  Merged-trans :
      (st st1 st2 : MergeState Price Currency) (xs ys : List (Candle Price))
      → Merged st xs st1
      → Merged st1 ys st2
      → Merged st (xs ++ ys) st2
  Merged-trans st st1 st2 xs ys (a, f) (b, g) = (
    b,
    λ t.
        g t
        ∙ ap (λ o. or_else o (find_at t (map clear_close_unadj ys))) (f t)
        ∙ or_else_assoc (find_at t st.candles) (find_at t (map clear_close_unadj xs))
            (find_at t (map clear_close_unadj ys))
        ∙ ap (or_else (find_at t st.candles)) (
            sym (find_at-append t (map clear_close_unadj xs) (map clear_close_unadj ys))
            ∙ ap (find_at t) (sym (map-append clear_close_unadj xs ys))),
  )

  MergedIfOk-trans :
      (st st1 : MergeState Price Currency) (xs ys : List (Candle Price))
      (r : SeriesError Currency ⊎ MergeState Price Currency)
      → Merged st xs st1
      → MergedIfOk st1 ys r
      → MergedIfOk st (xs ++ ys) r
  MergedIfOk-trans st st1 xs ys (inl error) f g = tt
  MergedIfOk-trans st st1 xs ys (inr st2) f g = Merged-trans st st1 st2 xs ys f g

  -- A chain, when what follows is right after any first result.
  and_then-MergedIfOk :
      {A : Type 0} (st : MergeState Price Currency) (cs : List (Candle Price))
      (r : SeriesError Currency ⊎ A) (k : A → SeriesError Currency ⊎ MergeState Price Currency)
      → ((a : A) → MergedIfOk st cs (k a))
      → MergedIfOk st cs (and_then r k)
  and_then-MergedIfOk st cs (inl error) k f = tt
  and_then-MergedIfOk st cs (inr a) k f = f a

  chain-MergedIfOk :
      (st : MergeState Price Currency) (xs ys : List (Candle Price))
      (r : SeriesError Currency ⊎ MergeState Price Currency)
      (k : MergeState Price Currency → SeriesError Currency ⊎ MergeState Price Currency)
      → MergedIfOk st xs r
      → ((next : MergeState Price Currency) → Above 0 next.candles → MergedIfOk next ys (k next))
      → MergedIfOk st (xs ++ ys) (and_then r k)
  chain-MergedIfOk st xs ys (inl error) k f g = tt
  chain-MergedIfOk st xs ys (inr next) k f g =
      MergedIfOk-trans st next xs ys (k next) f (g next f.0)

  candles_of_result :
      (cs merged : List (Candle Price)) (t : ℕ)
      (r : SeriesError Currency ⊎ MergeState Price Currency)
      → MergedIfOk (record { candles = []; series_currency = none }) cs r
      → and_then r (λ st. inr st.candles) ≡ inr merged
      → Above 0 merged × (find_at t merged ≡ find_at t (map clear_close_unadj cs))
  candles_of_result cs merged t (inl error) f h = cc h
  candles_of_result cs merged t (inr st) (a, f) h =
      subst (λ m. Above 0 m × (find_at t m ≡ find_at t (map clear_close_unadj cs))) (cc h) (a, f t)

module _ {Price Currency : Type 0} ⦃e : Eq Currency⦄ (currency_of : Price → Currency) where
  merge_candle-MergedIfOk :
      (st : MergeState Price Currency) (c : Candle Price)
      → Above 0 st.candles
      → MergedIfOk st (c ∷ []) (merge_candle currency_of st c)
  unfolding merge_candle with_candle
  merge_candle-MergedIfOk st c a =
      and_then-MergedIfOk st (c ∷ [])
        (map_error (λ _. mixed_in_candle c.ts) (ensure_candle_currency_uniform currency_of c))
        (λ _. and_then (merged_currency currency_of st c) (with_candle currency_of st c))
        (λ _.
          and_then-MergedIfOk st (c ∷ []) (merged_currency currency_of st c)
            (with_candle currency_of st c)
            (λ cur. (
              or_insert-Above 0 (clear_close_unadj c) st.candles (omega arith) a,
              λ t. find_at-or_insert 0 t (clear_close_unadj c) st.candles a,
            )))

  merge_one-MergedIfOk :
      (st : MergeState Price Currency) (cs : List (Candle Price))
      → Above 0 st.candles
      → MergedIfOk st cs (merge_one currency_of st cs)
  unfolding merge_one
  merge_one-MergedIfOk st [] a = (a, λ t. or_else-none (find_at t st.candles))
  merge_one-MergedIfOk st (c ∷ cs) a =
      chain-MergedIfOk st (c ∷ []) cs _ _ (merge_candle-MergedIfOk st c a)
        (λ next b. merge_one-MergedIfOk next cs b)

  merge_each-MergedIfOk :
      (st : MergeState Price Currency) (series : List (List (Candle Price)))
      → Above 0 st.candles
      → MergedIfOk st (all_candles series) (merge_each currency_of st series)
  unfolding merge_each
  merge_each-MergedIfOk st [] a = (a, λ t. or_else-none (find_at t st.candles))
  merge_each-MergedIfOk st (s ∷ series) a =
      chain-MergedIfOk st s (all_candles series) _ _ (merge_one-MergedIfOk st s a)
        (λ next b. merge_each-MergedIfOk next series b)

  -- What a merge that succeeds returns is in the strict order of the instants, and its candle at an
  -- instant is the first one of that instant in the series, taken in the order of their priority,
  -- with the unadjusted close removed.
  pub merge_candles_by_priority-first_wins :
      (series : List (List (Candle Price))) (merged : List (Candle Price)) (t : ℕ)
      → merge_candles_by_priority currency_of series ≡ inr merged
      → Above 0 merged × (find_at t merged ≡ find_at t (map clear_close_unadj (all_candles series)))
  unfolding merge_candles_by_priority
  merge_candles_by_priority-first_wins series merged t h =
      candles_of_result (all_candles series) merged t _ (merge_each-MergedIfOk _ series tt) h
