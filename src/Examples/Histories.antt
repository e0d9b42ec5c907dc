-- ===== src/Examples/Histories.antt =====
-- History from two providers, over intervals of minutes and days.
use borsa.Errors.{provider_timeout}
use borsa.Routing.Ranked.{contains}
use borsa.Router.Ordering.{enumerate_from}
use borsa.History.Requests.Stops.{history-fails_alike}
use borsa.Prelude.{
  string_eq, nat_eq, ℕ, String, ◌≡◌, refl, inl, inr, true, false, ◌||◌, not, Option, none, some,
  List, [], ◌∷◌, ltb, leb, if◌then◌else◌, any, keep_if, all, and_then, is_ok,
}
use borsa.Errors.{not_found, all_providers_timed_out, all_providers_failed, from_list}
use borsa.History.Interval.{
  Intervals, ResamplePlan, choose_effective_interval, choose_for, best_divisor, pick, minutes_of,
}
use borsa.History.Interval.Justified.{
  choose-is_ok, choose-JustifiedIfOk, JustifiedIfOk, emulated, usable_for,
}
use borsa.History.Attribution.{
  build_attribution, runs_of, runs, ts_to_provider, add_instants, or_insert_provider,
}
use borsa.History.Attribution.Coverage.{build_attribution-first_provider, holds}
use borsa.History.Attribution.Apart.{build_attribution-AreApart, AreApart}
use borsa.History.Results.{HistoryTask}
use borsa.History.Final.{HistorySettings, SeriesCalls, finalize_history_results}
use borsa.History.Results.Outcome.{
  finalize-no_candles, has_candles, is_silent, timed_out, tagged_errors,
}
use borsa.History.Requests.{
  HistoryProviders, history_with_attribution_effective, parallel_history, history_task, answered,
  serves,
}
use borsa.Router.Fetch.{late, provider_call_with_timeout}
use borsa.Router.Config.{keep, deep, fallback}
use borsa.Router.{Connector}
use borsa.Series.{Candle, merge_candles_by_priority}
use borsa.Series.History.{HistoryResponse, merge_history}
use borsa.Series.History.Lenient.{merge_history-by_priority}

-- An interval is a number of minutes, but 1440 is a day and 10080 a week.
abbrev minutes_in : ℕ → Option ℕ
minutes_in n = if ltb n 1440 then some n else none

abbrev intervals : Intervals ℕ
intervals = record { minutes_in = minutes_in; seconds_in = λ n. none; d1 = 1440; w1 = 10080 }

chosen_divisor :
    choose_effective_interval {Symbol = String} intervals (1 ∷ 2 ∷ 4 ∷ []) 6
    ≡ inr (2, some (ResamplePlan.minutes 6))
unfolding choose_effective_interval choose_for best_divisor pick
chosen_divisor = refl

choose-JustifiedIfOk_example :
    JustifiedIfOk intervals
      (1 ∷ 2 ∷ 4 ∷ [])
      6
      (choose_effective_interval {Symbol = String} intervals (1 ∷ 2 ∷ 4 ∷ []) 6)
choose-JustifiedIfOk_example = choose-JustifiedIfOk intervals String (1 ∷ 2 ∷ 4 ∷ []) 6

choose-is_ok_example :
    is_ok (choose_effective_interval {Symbol = String} intervals (2 ∷ 4 ∷ []) 5) ≡ (
      contains {A = ℕ} (2 ∷ 4 ∷ []) 5
      || (not (emulated intervals 5)
          || any (usable_for intervals (minutes_of intervals 5) 5) (2 ∷ 4 ∷ [])))
choose-is_ok_example = choose-is_ok intervals String (2 ∷ 4 ∷ []) 5

abbrev results : List (String × List ℕ)
results = ("alpha", 10 ∷ 20 ∷ []) ∷ ("beta", 20 ∷ 30 ∷ 40 ∷ []) ∷ []

attributed :
    build_attribution (λ t. t) results
    ≡ ("alpha", record { start = 10; end = 20 }) ∷ ("beta", record { start = 30; end = 40 }) ∷ []
unfolding build_attribution runs_of runs ts_to_provider add_instants or_insert_provider
attributed = refl

build_attribution-first_provider_example :
    any (holds "alpha" 20) (build_attribution (λ t. t) results) ≡ true
build_attribution-first_provider_example =
    build_attribution-first_provider (λ t. t) (λ t u h. h) results 20 "alpha" refl

build_attribution-AreApart_example : AreApart 0 (build_attribution (λ t. t) results)
build_attribution-AreApart_example = build_attribution-AreApart (λ t. t) (λ t u h. h) results

abbrev Price : Type 0
Price = ℕ × String

abbrev candle : ℕ → ℕ → Candle Price
candle ts amount = record {
  ts = ts;
  open_price = (amount, "USD");
  high = (amount, "USD");
  low = (amount, "USD");
  close = (amount, "USD");
  close_unadj = none;
  volume = none;
}

abbrev response : List (Candle Price) → HistoryResponse Price ℕ String
response cs = record { candles = cs; actions = []; adjusted = true; meta = none }

abbrev currency_name : Price → String
currency_name (amount, name) = name

abbrev both_responses : List (HistoryResponse Price ℕ String)
both_responses = response (candle 10 1 ∷ []) ∷ response (candle 10 2 ∷ candle 20 3 ∷ []) ∷ []

merged_by_priority :
    merge_candles_by_priority currency_name
      ((candle 10 1 ∷ []) ∷ (candle 10 2 ∷ candle 20 3 ∷ []) ∷ [])
    ≡ inr (candle 10 1 ∷ candle 20 3 ∷ [])
unfolding merge_candles_by_priority
merged_by_priority = refl

merge_history-by_priority_example :
    and_then (merge_history currency_name leb (λ a. a) both_responses) (λ h. inr h.candles)
    ≡ inr (candle 10 1 ∷ candle 20 3 ∷ [])
merge_history-by_priority_example =
    merge_history-by_priority currency_name leb (λ a. a) both_responses
      (candle 10 1 ∷ candle 20 3 ∷ []) merged_by_priority

abbrev calls : SeriesCalls String Price String ℕ String
calls = record {
  resample = λ plan meta cs. inr cs;
  is_subdaily = λ cs. false;
  currency_of = currency_name;
  before = leb;
  hash = λ a. a;
  identify_faulty_provider = λ rs. not_found "faulty";
  data_error = λ error. not_found "data";
  timestamp = λ t. t;
}

abbrev settings : HistorySettings
settings = record {
  prefer_adjusted_history = false;
  resampling = keep;
  auto_resample_subdaily_to_daily = false;
}

abbrev two_failures : List (HistoryTask String Price ℕ String)
two_failures =
    record { idx = 0; name = "alpha"; res = inl (provider_timeout "alpha" "history"); plan = none }
    ∷ record { idx = 1; name = "beta"; res = inl (not_found "BTC"); plan = none }
    ∷ []

finalize-no_candles_example :
    finalize_history_results calls settings "history for BTC" two_failures
    ≡ inl (
        if all (λ t. is_silent t.res) two_failures
        then not_found "history for BTC"
        else if all (λ t. timed_out t.res) two_failures
        then all_providers_timed_out "history"
        else all_providers_failed (from_list (tagged_errors two_failures)))
finalize-no_candles_example = finalize-no_candles calls settings "history for BTC" two_failures refl

abbrev providers : HistoryProviders String ℕ Price ℕ String
providers = record { supported_history_intervals = λ c. some (5 ∷ []); history = λ c i. late }

abbrev connectors : List Connector
connectors = record { name = "alpha" } ∷ record { name = "beta" } ∷ []

no_candles :
    any
      (λ t. has_candles t.res)
      (parallel_history intervals providers 5
        (keep_if (serves intervals providers) (enumerate_from 0 connectors)))
    ≡ false
unfolding parallel_history history_task answered provider_call_with_timeout
    choose_effective_interval
no_candles = refl

history-fails_alike_example :
    history_with_attribution_effective intervals providers calls settings fallback "BTC" true 5
      connectors
    ≡ history_with_attribution_effective intervals providers calls settings deep "BTC" true 5
        connectors
history-fails_alike_example =
    history-fails_alike intervals providers calls settings "BTC" true 5 connectors no_candles
