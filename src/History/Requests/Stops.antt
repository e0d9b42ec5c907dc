-- ===== src/History/Requests/Stops.antt =====
-- Asking one provider after the other against asking all at once.
use borsa.Router.Ordering.{enumerate_from}
use borsa.Series.History.{HistoryResponse}
use borsa.History.Results.{HistoryTask}
use borsa.History.Final.{SeriesCalls, HistorySettings}
use borsa.Router.{Connector}
use borsa.Errors.{BorsaError}
use borsa.History.Interval.{Intervals}
use borsa.Prelude.{
  ℕ, ◌≡◌, refl, ◌⊎◌, inl, inr, true, false, List, [], ◌∷◌, Eq, any, keep_if, String, ap, Bool,
  arith,
}
use borsa.History.Requests.{
  HistoryProviders, parallel_history, sequential_history, history_with_attribution_effective,
  history_task, non_empty, fetch_joined_history, eligible_history_connectors, serves,
}
use borsa.History.Results.Outcome.{has_candles}
use borsa.Router.Config.{deep, fallback}

module _ {Symbol Interval Price Action Meta : Type 0} ⦃e : Eq Interval⦄ (iv : Intervals Interval)
    (providers : HistoryProviders Symbol Interval Price Action Meta) where
  non_empty-has_candles :
      (res : BorsaError Symbol ⊎ HistoryResponse Price Action Meta)
      → non_empty iv providers res ≡ has_candles res
  non_empty-has_candles (inl error) = refl
  non_empty-has_candles (inr hr) = refl

  -- Where no provider has candles both strategies ask all of them.
  same_without_candles :
      (requested : Interval) (eligible : List (ℕ × Connector))
      → any (λ t. has_candles t.res) (parallel_history iv providers requested eligible) ≡ false
      → sequential_history iv providers requested eligible
        ≡ parallel_history iv providers requested eligible
  unfolding parallel_history sequential_history
  same_without_candles requested [] h = refl
  same_without_candles requested (c ∷ eligible) h = ground (
    arith,
    non_empty-has_candles (history_task iv providers requested c).res,
    same_without_candles requested eligible,
    h,
  )

  abbrev pub first_with_candles :
      List (HistoryTask Symbol Price Action Meta) → List (HistoryTask Symbol Price Action Meta)
  first_with_candles [] = []
  first_with_candles (t ∷ joined) = elim (has_candles t.res) [
    | true ↦ t ∷ []
    | false ↦ first_with_candles joined
  ]

  -- Of the answers with candles, asking the providers in turn gets the first of those that asking
  -- all at once gets, and no other.
  pub sequential-first_with_candles :
      (requested : Interval) (eligible : List (ℕ × Connector))
      → keep_if (λ t. has_candles t.res) (sequential_history iv providers requested eligible)
        ≡ first_with_candles (parallel_history iv providers requested eligible)
  unfolding parallel_history sequential_history
  sequential-first_with_candles requested [] = refl
  sequential-first_with_candles requested (c ∷ eligible) = ground (
    arith,
    non_empty-has_candles (history_task iv providers requested c).res,
    sequential-first_with_candles requested eligible,
  )

  fetch-alike :
      (in_time : Bool) (requested : Interval) (eligible : List (ℕ × Connector))
      → any (λ t. has_candles t.res) (parallel_history iv providers requested eligible) ≡ false
      → fetch_joined_history iv providers fallback in_time requested eligible
        ≡ fetch_joined_history iv providers deep in_time requested eligible
  unfolding fetch_joined_history
  fetch-alike false requested eligible h = refl
  fetch-alike true requested eligible h = ap inr (same_without_candles requested eligible h)

  -- Where no provider that is asked has candles, a request for history comes to the same under
  -- both strategies, as long as both are within the deadline of the whole, or neither is.
  pub history-fails_alike :
      {Currency : Type 0} ⦃ec : Eq Currency⦄ (calls : SeriesCalls Symbol Price Currency Action Meta)
      (cfg : HistorySettings) (what : String) (in_time : Bool) (requested : Interval)
      (ordered : List Connector)
      → any
          (λ t. has_candles t.res)
          (parallel_history iv providers requested
            (keep_if (serves iv providers) (enumerate_from 0 ordered)))
        ≡ false
      → history_with_attribution_effective iv providers calls cfg fallback what in_time requested
          ordered
        ≡ history_with_attribution_effective iv providers calls cfg deep what in_time requested
            ordered
  unfolding history_with_attribution_effective eligible_history_connectors
  history-fails_alike calls cfg what in_time requested ordered h = ground (
    arith,
    fetch-alike in_time requested (keep_if (serves iv providers) (enumerate_from 0 ordered)) h,
  )
