-- ===== src/Series/History.antt =====
-- `merge_history` and `dedup_actions` of borsa-core/src/timeseries/merge.rs. Actions and the meta data of
-- a response are types of another crate; `before` is the order of actions and `hash` the hash of one.
pub mod Lenient
use borsa.Prelude.{
  ℕ, ◌⊎◌, inl, inr, Bool, true, false, ◌&&◌, Option, none, some, List, [], ◌∷◌, ◌++◌, ltb, ◌==◌,
  if◌then◌else◌, Eq, eq, any, is_empty, sort_by, and_then,
}
use borsa.Series.{Candle, SeriesError, mixed_history, strip_unadjusted, or_insert, is_uniform}

pub record HistoryResponse (Price Action Meta : Type 0) : Type 0 where
  pub candles : List (Candle Price)
  pub actions : List Action
  pub adjusted : Bool
  pub meta : Option Meta

-- The variables that the loop over a response's candles changes.
pub record Collected (Price Currency : Type 0) : Type 0 where
  pub candle_map : List (Candle Price)
  pub series_currency : Option Currency
  pub contributed : Bool

pub record HistoryMerge (Price Currency Action Meta : Type 0) : Type 0 where
  pub adjusted_all : Option Bool
  pub first_contrib_adjusted : Option Bool
  pub meta : Option Meta
  pub fallback_meta : Option Meta
  pub candle_map : List (Candle Price)
  pub actions : List Action
  pub series_currency : Option Currency

-- The map has an entry at the instant.
unfoldable pub occupied : {Price : Type 0} → ℕ → List (Candle Price) → Bool
occupied t [] = false
occupied t (d ∷ m) = if ltb t d.ts then false else if t == d.ts then true else occupied t m

abbrev pub first_of {ℓ} : {A : Type ℓ} → Option A → Option A → Option A
first_of none b = b
first_of (some a) b = some a

abbrev pub bool_or : Bool → Option Bool → Bool
bool_or other none = other
bool_or other (some b) = b

abbrev pub both : Option Bool → Option Bool → Bool
both (some first) (some all_of) = first && all_of
both none all_of = false
both (some first) none = false

module _ {Action : Type 0} (before : Action → Action → Bool) (hash : Action → ℕ) where
  -- The loop over the sorted actions with the hashes that it has seen.
  abbrev pub unseen : List ℕ → List Action → List Action
  unseen seen [] = []
  unseen seen (a ∷ actions) =
      let skip = unseen seen actions in
      let keep = a ∷ unseen (hash a ∷ seen) actions in
      if any (λ h. h == hash a) seen then skip else keep

  unfoldable pub dedup_actions : List Action → List Action
  unfolding sort_by
  dedup_actions actions = unseen [] (sort_by before actions)

module _ {Price Currency : Type 0} ⦃e : Eq Currency⦄ (currency_of : Price → Currency) where
  abbrev pub currency_with : Option Currency → Candle Price → SeriesError Currency ⊎ Option Currency
  currency_with none c = inr (some (currency_of c.open_price))
  currency_with (some cur) c =
      if eq cur (currency_of c.open_price) then inr (some cur) else inl mixed_history

  unfoldable pub entered :
      Collected Price Currency → Candle Price → Option Currency → Collected Price Currency
  unfolding or_insert
  entered st c cur = record {
    candle_map = or_insert c st.candle_map;
    series_currency = cur;
    contributed = true;
  }

  unfoldable pub collect_candle :
      Collected Price Currency → Candle Price → SeriesError Currency ⊎ Collected Price Currency
  unfolding occupied entered
  collect_candle st c =
      if occupied c.ts st.candle_map
      then inr st
      else if is_uniform currency_of c
      then and_then (currency_with st.series_currency c) (λ cur. inr (entered st c cur))
      else inl mixed_history

  unfoldable pub collect_candles :
      Collected Price Currency
      → List (Candle Price)
      → SeriesError Currency ⊎ Collected Price Currency
  unfolding collect_candle
  collect_candles st [] = inr st
  collect_candles st (c ∷ cs) = and_then (collect_candle st c) (λ next. collect_candles next cs)

  module _ {Action Meta : Type 0} (before : Action → Action → Bool) (hash : Action → ℕ) where
    abbrev pub after_response :
        HistoryMerge Price Currency Action Meta
        → HistoryResponse Price Action Meta
        → Collected Price Currency
        → HistoryMerge Price Currency Action Meta
    after_response st r collected = record {
      adjusted_all =
          if collected.contributed
          then some (bool_or true st.adjusted_all && r.adjusted)
          else st.adjusted_all;
      first_contrib_adjusted =
          if collected.contributed
          then first_of st.first_contrib_adjusted (some r.adjusted)
          else st.first_contrib_adjusted;
      meta = if collected.contributed then first_of st.meta r.meta else st.meta;
      fallback_meta = first_of st.fallback_meta r.meta;
      candle_map = collected.candle_map;
      actions = st.actions ++ r.actions;
      series_currency = collected.series_currency;
    }

    unfoldable pub merge_response :
        HistoryMerge Price Currency Action Meta
        → HistoryResponse Price Action Meta
        → SeriesError Currency ⊎ HistoryMerge Price Currency Action Meta
    unfolding collect_candles
    merge_response st r =
        and_then
          (collect_candles
            (record {
              candle_map = st.candle_map;
              series_currency = st.series_currency;
              contributed = false;
            })
            r.candles)
          (λ collected. inr (after_response st r collected))

    unfoldable pub merge_responses :
        HistoryMerge Price Currency Action Meta
        → List (HistoryResponse Price Action Meta)
        → SeriesError Currency ⊎ HistoryMerge Price Currency Action Meta
    unfolding merge_response
    merge_responses st [] = inr st
    merge_responses st (r ∷ rs) = and_then (merge_response st r) (λ next. merge_responses next rs)

    unfoldable pub response_of :
        HistoryMerge Price Currency Action Meta → HistoryResponse Price Action Meta
    unfolding strip_unadjusted dedup_actions
    response_of st = record {
      candles = strip_unadjusted st.candle_map;
      actions = dedup_actions before hash st.actions;
      adjusted = both st.first_contrib_adjusted st.adjusted_all;
      meta = if is_empty st.candle_map then first_of st.meta st.fallback_meta else st.meta;
    }

    abbrev pub nothing_merged : HistoryMerge Price Currency Action Meta
    nothing_merged = record {
      adjusted_all = none;
      first_contrib_adjusted = none;
      meta = none;
      fallback_meta = none;
      candle_map = [];
      actions = [];
      series_currency = none;
    }

    unfoldable pub merge_history :
        List (HistoryResponse Price Action Meta)
        → SeriesError Currency ⊎ HistoryResponse Price Action Meta
    unfolding merge_responses response_of
    merge_history rs = and_then (merge_responses nothing_merged rs) (λ st. inr (response_of st))
