-- ===== src/History/Requests.antt =====
-- The requests to the providers: `eligible_history_connectors`, `spawn_history_task`,
-- `parallel_history`, `sequential_history`, `fetch_joined_history` and
-- `history_with_attribution_effective`. Of a connector the router asks for the intervals that it
-- supports, and for its candles at one of them; the rest of the request stays as it is, and the
-- building of it, which is another crate's, does not fail. Providers that are asked at once are
-- listed in the order of the connectors.
pub mod Stops
use borsa.History.Attribution.{Span}
use borsa.Router.Ordering.{enumerate_from}
use borsa.Prelude.{
  ℕ, String, ◌⊎◌, inl, inr, Bool, false, not, Option, none, some, List, [], ◌∷◌, if◌then◌else◌,
  is_some, Eq, keep_if, is_empty, and_then,
}
use borsa.Errors.{BorsaError, unsupported, request_timeout}
use borsa.History.Interval.{Intervals, choose_effective_interval, ResamplePlan}
use borsa.History.Results.{HistoryTask}
use borsa.History.Final.{SeriesCalls, HistorySettings, finalize_history_results}
use borsa.Router.{Connector}
use borsa.Router.Config.{MergeStrategy, deep, fallback}
use borsa.Router.Fetch.{Reply, provider_call_with_timeout}
use borsa.Series.History.{HistoryResponse}

-- What a connector gives: none for its intervals if it has no history for the instrument.
pub record HistoryProviders (Symbol Interval Price Action Meta : Type 0) : Type 0 where
  pub supported_history_intervals : Connector → Option (List Interval)
  pub history : Connector → Interval → Reply Symbol (HistoryResponse Price Action Meta)

module _ {Symbol Interval Price Action Meta : Type 0} ⦃e : Eq Interval⦄ (iv : Intervals Interval)
    (providers : HistoryProviders Symbol Interval Price Action Meta) where
  abbrev pub serves : ℕ × Connector → Bool
  serves (idx, c) = is_some (providers.supported_history_intervals c)

  unfoldable pub eligible_history_connectors :
      List Connector → BorsaError Symbol ⊎ List (ℕ × Connector)
  eligible_history_connectors ordered =
      let eligible = keep_if serves (enumerate_from 0 ordered) in
      if is_empty eligible then inl (unsupported "history") else inr eligible

  abbrev pub intervals_of : Option (List Interval) → List Interval
  intervals_of none = []
  intervals_of (some supported) = supported

  unfoldable pub answered :
      ℕ
      → Connector
      → BorsaError Symbol ⊎ (Interval × Option ResamplePlan)
      → HistoryTask Symbol Price Action Meta
  unfolding provider_call_with_timeout
  answered idx c (inl error) = record { idx = idx; name = c.name; res = inl error; plan = none }
  answered idx c (inr (effective, plan)) = record {
    idx = idx;
    name = c.name;
    res = provider_call_with_timeout c.name "history" (providers.history c effective);
    plan = plan;
  }

  unfoldable pub history_task : Interval → ℕ × Connector → HistoryTask Symbol Price Action Meta
  unfolding answered choose_effective_interval
  history_task requested (idx, c) = answered idx c (
      choose_effective_interval iv (intervals_of (providers.supported_history_intervals c))
        requested)

  unfoldable pub parallel_history :
      Interval → List (ℕ × Connector) → List (HistoryTask Symbol Price Action Meta)
  unfolding history_task
  parallel_history requested [] = []
  parallel_history requested (c ∷ eligible) =
      history_task requested c ∷ parallel_history requested eligible

  abbrev pub non_empty : BorsaError Symbol ⊎ HistoryResponse Price Action Meta → Bool
  non_empty (inl error) = false
  non_empty (inr hr) = not (is_empty hr.candles)

  -- The loop stops after the first answer with candles.
  unfoldable pub sequential_history :
      Interval → List (ℕ × Connector) → List (HistoryTask Symbol Price Action Meta)
  unfolding history_task
  sequential_history requested [] = []
  sequential_history requested (c ∷ eligible) =
      let t = history_task requested c in
      let rest = sequential_history requested eligible in
      if non_empty t.res then t ∷ [] else t ∷ rest

  -- `in_time` says whether the requests complete before the deadline of the whole.
  unfoldable pub fetch_joined_history :
      MergeStrategy
      → (in_time : Bool) → Interval
      → List (ℕ × Connector)
      → BorsaError Symbol ⊎ List (HistoryTask Symbol Price Action Meta)
  unfolding parallel_history sequential_history
  fetch_joined_history deep in_time requested eligible =
      if in_time then inr (parallel_history requested eligible) else inl (request_timeout "history")
  fetch_joined_history fallback in_time requested eligible =
      if in_time
      then inr (sequential_history requested eligible)
      else inl (request_timeout "history")

  module _ {Currency : Type 0} ⦃ec : Eq Currency⦄
      (calls : SeriesCalls Symbol Price Currency Action Meta) where
    unfoldable pub history_with_attribution_effective :
        HistorySettings
        → MergeStrategy
        → String
        → (in_time : Bool) → Interval
        → List Connector
        → BorsaError Symbol ⊎ (HistoryResponse Price Action Meta × List (String × Span))
    unfolding eligible_history_connectors fetch_joined_history finalize_history_results
    history_with_attribution_effective cfg strategy what in_time requested ordered =
        and_then (eligible_history_connectors ordered) (λ eligible.
          and_then (fetch_joined_history strategy in_time requested eligible)
            (finalize_history_results calls cfg what))
