-- ===== src/History/Final.antt =====
-- `merge_history_or_tag_connector_error`, `apply_final_resample` and `finalize_history_results`. The
-- resampling of candles, the test for candles within a day and the blame for mixed currencies, which
-- are other parts of the program, are arguments. `what` is the text "history for" the symbol.
use borsa.History.Attribution.{Span, build_attribution}
use borsa.Errors.Collapse.{is_timeout}
use borsa.Prelude.{
  string_eq, ℕ, String, ◌⊎◌, inl, inr, Bool, true, false, ◌&&◌, Option, none, some, List, [], ◌∷◌,
  ◌==◌, if◌then◌else◌, Eq, length, all, is_empty, and_then, map_error,
}
use borsa.Router.Config.{Resampling, keep, daily, weekly}
use borsa.Series.{Candle, SeriesError, mixed_history, strip_unadjusted}
use borsa.Series.History.{HistoryResponse, merge_history}
use borsa.History.Interval.{ResamplePlan}
use borsa.Errors.{BorsaError, not_found, all_providers_timed_out, all_providers_failed, from_list}
use borsa.History.Results.{
  HistoryOk, HistoryTask, collect_successes, filter_adjustedness, sources, order_results,
}

-- The settings that the results go by.
pub record HistorySettings : Type 0 where
  pub prefer_adjusted_history : Bool
  pub resampling : Resampling
  pub auto_resample_subdaily_to_daily : Bool

-- The parts of the program that the final step calls.
pub record SeriesCalls (Symbol Price Currency Action Meta : Type 0) : Type 0 where
  pub resample :
      ResamplePlan → Option Meta → List (Candle Price) → BorsaError Symbol ⊎ List (Candle Price)
  pub is_subdaily : List (Candle Price) → Bool
  pub currency_of : Price → Currency
  pub before : Action → Action → Bool
  pub hash : Action → ℕ
  pub identify_faulty_provider : List (HistoryOk Price Action Meta) → BorsaError Symbol
  pub data_error : SeriesError Currency → BorsaError Symbol
  pub timestamp : ℕ → ℕ

module _ {Symbol Price Currency Action Meta : Type 0} ⦃e : Eq Currency⦄
    (calls : SeriesCalls Symbol Price Currency Action Meta) where
  abbrev pub responses :
      List (HistoryOk Price Action Meta) → List (HistoryResponse Price Action Meta)
  responses [] = []
  responses (r ∷ results) = r.hr ∷ responses results

  abbrev pub merge_error :
      List (HistoryOk Price Action Meta) → SeriesError Currency → BorsaError Symbol
  merge_error results mixed_history = calls.identify_faulty_provider results
  merge_error results error = calls.data_error error

  abbrev pub stripped : HistoryResponse Price Action Meta → HistoryResponse Price Action Meta
  stripped m = record m { candles = strip_unadjusted m.candles }

  unfoldable pub merge_history_or_tag_connector_error :
      List (HistoryOk Price Action Meta) → BorsaError Symbol ⊎ HistoryResponse Price Action Meta
  unfolding merge_history
  merge_history_or_tag_connector_error (r ∷ []) = inr r.hr
  merge_history_or_tag_connector_error results = map_error (merge_error results) (
      and_then (merge_history calls.currency_of calls.before calls.hash (responses results))
        (λ m. inr (stripped m)))

  abbrev pub is_kept : Resampling → Bool
  is_kept keep = true
  is_kept daily = false
  is_kept weekly = false

  -- The plan of the final resampling, if there is one.
  abbrev pub final_plan : HistorySettings → List (Candle Price) → Resampling → Option ResamplePlan
  final_plan cfg candles weekly = some ResamplePlan.weekly
  final_plan cfg candles daily = some ResamplePlan.daily
  final_plan cfg candles keep =
      if cfg.auto_resample_subdaily_to_daily && calls.is_subdaily candles
      then some ResamplePlan.daily
      else none

  abbrev pub resampled :
      HistoryResponse Price Action Meta
      → Option ResamplePlan
      → BorsaError Symbol ⊎ HistoryResponse Price Action Meta
  resampled merged none = inr merged
  resampled merged (some plan) =
      and_then (calls.resample plan merged.meta merged.candles)
        (λ cs. inr (stripped (record merged { candles = cs })))

  unfoldable pub apply_final_resample :
      HistorySettings
      → HistoryResponse Price Action Meta
      → BorsaError Symbol ⊎ HistoryResponse Price Action Meta
  unfolding strip_unadjusted
  apply_final_resample cfg merged = resampled merged (final_plan cfg merged.candles cfg.resampling)

  abbrev pub failure : (what : String) (attempts : ℕ) → List (BorsaError Symbol) → BorsaError Symbol
  failure what attempts errors =
      if is_empty errors
      then not_found what
      else if (length errors == attempts) && all is_timeout errors
      then all_providers_timed_out "history"
      else all_providers_failed (from_list errors)

  abbrev pub merged_results :
      HistorySettings
      → List (HistoryOk Price Action Meta)
      → BorsaError Symbol ⊎ (HistoryResponse Price Action Meta × List (String × Span))
  merged_results cfg results = and_then (merge_history_or_tag_connector_error results) (λ merged.
      and_then (apply_final_resample cfg merged)
        (λ final. inr (final, build_attribution calls.timestamp (sources results))))

  abbrev pub finalized :
      HistorySettings
      → String
      → (attempts : ℕ) → List (HistoryOk Price Action Meta) × List (BorsaError Symbol)
      → BorsaError Symbol ⊎ (HistoryResponse Price Action Meta × List (String × Span))
  finalized cfg what attempts ([], errors) = inl (failure what attempts errors)
  finalized cfg what attempts (r ∷ results, errors) = merged_results cfg (
      filter_adjustedness cfg.prefer_adjusted_history
        (order_results cfg.prefer_adjusted_history (r ∷ results)))

  unfoldable pub finalize_history_results :
      HistorySettings
      → String
      → List (HistoryTask Symbol Price Action Meta)
      → BorsaError Symbol ⊎ (HistoryResponse Price Action Meta × List (String × Span))
  unfolding collect_successes
  finalize_history_results cfg what joined =
      finalized cfg what (length joined) (collect_successes calls.resample joined)
