-- ===== src/History/Results.antt =====
-- What becomes of the providers' answers: `collect_successes`, `order_results` and
-- `filter_adjustedness`. The resampling of candles is an argument.
pub mod Outcome
use borsa.Prelude.{
  string_eq, ℕ, String, ◌⊎◌, inl, inr, Bool, true, false, ◌&&◌, not, Option, none, some, List, [],
  ◌∷◌, leb, if◌then◌else◌, any, keep_if, is_empty, sort_by, ◌==◌, Eq, length, all, and_then,
  map_error,
}
use borsa.Errors.{BorsaError, not_found, all_providers_timed_out, all_providers_failed, from_list}
use borsa.Errors.Collapse.{is_timeout}
use borsa.Router.{tag_err}
use borsa.Router.Config.{Resampling, keep, daily, weekly}
use borsa.History.Attribution.{Span, build_attribution}
use borsa.History.Interval.{ResamplePlan}
use borsa.Series.{mixed_history, Candle, SeriesError, strip_unadjusted}
use borsa.Series.History.{HistoryResponse, merge_history}

-- A provider's index among the eligible ones, its name, its answer and how to resample it.
pub record HistoryTask (Symbol Price Action Meta : Type 0) : Type 0 where
  pub idx : ℕ
  pub name : String
  pub res : BorsaError Symbol ⊎ HistoryResponse Price Action Meta
  pub plan : Option ResamplePlan

pub record HistoryOk (Price Action Meta : Type 0) : Type 0 where
  pub idx : ℕ
  pub name : String
  pub hr : HistoryResponse Price Action Meta

-- What one answer comes to.
pub data Judged (Symbol Price Action Meta : Type 0) : Type 0 where
  skipped : Judged Symbol Price Action Meta
  failed : BorsaError Symbol → Judged Symbol Price Action Meta
  kept : HistoryOk Price Action Meta → Judged Symbol Price Action Meta

module _ {Symbol Price Action Meta : Type 0}
    (resample : ResamplePlan
      → Option Meta
      → List (Candle Price)
      → BorsaError Symbol ⊎ List (Candle Price)) where
  unfoldable pub with_candles :
      ℕ
      → String
      → HistoryResponse Price Action Meta
      → BorsaError Symbol ⊎ List (Candle Price)
      → Judged Symbol Price Action Meta
  unfolding tag_err
  with_candles idx name hr (inl e) = failed (tag_err name e)
  with_candles idx name hr (inr cs) =
      kept (record { idx = idx; name = name; hr = record hr { candles = cs } })

  unfoldable pub judge_response :
      ℕ
      → String
      → HistoryResponse Price Action Meta
      → Option ResamplePlan
      → Judged Symbol Price Action Meta
  unfolding with_candles
  judge_response idx name hr none = kept (record { idx = idx; name = name; hr = hr })
  judge_response idx name hr (some plan) =
      with_candles idx name hr (resample plan hr.meta hr.candles)

  unfoldable pub judge_error : String → BorsaError Symbol → Judged Symbol Price Action Meta
  unfolding tag_err
  judge_error name (not_found what) = skipped
  judge_error name e = failed (tag_err name e)

  unfoldable pub judge_result :
      ℕ
      → String
      → Option ResamplePlan
      → BorsaError Symbol ⊎ HistoryResponse Price Action Meta
      → Judged Symbol Price Action Meta
  unfolding judge_error judge_response
  judge_result idx name plan (inl e) = judge_error name e
  judge_result idx name plan (inr hr) =
      if is_empty hr.candles then skipped else judge_response idx name hr plan

  abbrev pub add_judged :
      Judged Symbol Price Action Meta
      → List (HistoryOk Price Action Meta) × List (BorsaError Symbol)
      → List (HistoryOk Price Action Meta) × List (BorsaError Symbol)
  add_judged skipped rest = rest
  add_judged (failed e) (results, errors) = (results, e ∷ errors)
  add_judged (kept r) (results, errors) = (r ∷ results, errors)

  unfoldable pub collect_successes :
      List (HistoryTask Symbol Price Action Meta)
      → List (HistoryOk Price Action Meta) × List (BorsaError Symbol)
  unfolding judge_result
  collect_successes [] = ([], [])
  collect_successes (t ∷ joined) =
      add_judged (judge_result t.idx t.name t.plan t.res) (collect_successes joined)

abbrev pub instants : {Price : Type 0} → List (Candle Price) → List ℕ
instants [] = []
instants (c ∷ cs) = c.ts ∷ instants cs

module _ {Price Action Meta : Type 0} where
  -- The sort key: adjusted results first where those are preferred, then the index.
  abbrev pub result_before :
      (prefer : Bool) → HistoryOk Price Action Meta → HistoryOk Price Action Meta → Bool
  result_before false a b = leb a.idx b.idx
  result_before true a b =
      if a.hr.adjusted
      then if b.hr.adjusted then leb a.idx b.idx else true
      else if b.hr.adjusted
      then false
      else leb a.idx b.idx

  unfoldable pub order_results :
      (prefer : Bool) → List (HistoryOk Price Action Meta) → List (HistoryOk Price Action Meta)
  unfolding sort_by
  order_results prefer results = sort_by (result_before prefer) results

  abbrev pub adjusted_as : Bool → HistoryOk Price Action Meta → Bool
  adjusted_as true r = r.hr.adjusted
  adjusted_as false r = not r.hr.adjusted

  unfoldable pub filter_adjustedness :
      (prefer : Bool) → List (HistoryOk Price Action Meta) → List (HistoryOk Price Action Meta)
  filter_adjustedness prefer [] = []
  filter_adjustedness prefer (r ∷ results) =
      if prefer && any (adjusted_as true) (r ∷ results)
      then keep_if (adjusted_as true) (r ∷ results)
      else keep_if (adjusted_as r.hr.adjusted) (r ∷ results)

  abbrev pub sources : List (HistoryOk Price Action Meta) → List (String × List ℕ)
  sources [] = []
  sources (r ∷ results) = (r.name, instants r.hr.candles) ∷ sources results
