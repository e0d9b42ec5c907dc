-- ===== src/History/Results/Outcome.antt =====
-- What a request for history fails with.
use borsa.Series.{Candle}
use borsa.History.Interval.{ResamplePlan}
use borsa.Router.{tag_err}
use borsa.Prelude.{
  ◌≤◌, String, ◌≡◌, refl, ◌⊎◌, inl, inr, Bool, true, false, ◌&&◌, not, Option, List, [], ◌∷◌, ◌++◌,
  arith, ◌==◌, if◌then◌else◌, Eq, length, all, is_empty, ℕ, suc, Bool-cases,
}
use borsa.History.Results.{
  HistoryTask, HistoryOk, collect_successes, judge_result, judge_error, failed, skipped, add_judged,
}
use borsa.History.Final.{HistorySettings, SeriesCalls, finalize_history_results}
use borsa.Errors.{BorsaError, not_found, all_providers_timed_out, all_providers_failed, from_list}
use borsa.Errors.Collapse.{is_timeout, is_not_found}
use borsa.Series.History.{HistoryResponse}

module _ {Symbol Price Action Meta : Type 0} where
  -- The answer has candles.
  abbrev pub has_candles : BorsaError Symbol ⊎ HistoryResponse Price Action Meta → Bool
  has_candles (inl e) = false
  has_candles (inr hr) = not (is_empty hr.candles)

  -- The answer is no error, or that there is nothing.
  abbrev pub is_silent : BorsaError Symbol ⊎ HistoryResponse Price Action Meta → Bool
  is_silent (inl e) = is_not_found e
  is_silent (inr hr) = true

  abbrev pub timed_out : BorsaError Symbol ⊎ HistoryResponse Price Action Meta → Bool
  timed_out (inl e) = is_timeout e
  timed_out (inr hr) = false

  abbrev error_of :
      String → BorsaError Symbol ⊎ HistoryResponse Price Action Meta → List (BorsaError Symbol)
  error_of name (inr hr) = []
  error_of name (inl e) = if is_not_found e then [] else tag_err name e ∷ []

  -- The errors of the providers but those that found nothing, each under its provider's name.
  abbrev pub tagged_errors : List (HistoryTask Symbol Price Action Meta) → List (BorsaError Symbol)
  tagged_errors [] = []
  tagged_errors (t ∷ joined) = error_of t.name t.res ++ tagged_errors joined

without_candles :
    {Symbol Price Action Meta : Type 0} (t : HistoryTask Symbol Price Action Meta)
    (joined : List (HistoryTask Symbol Price Action Meta))
    → all (λ t. not (has_candles t.res)) (t ∷ joined) ≡ true
    → (has_candles t.res ≡ false) × (all (λ t. not (has_candles t.res)) joined ≡ true)
without_candles t joined h = (ground arith, ground arith)

is_timeout-tag_err :
    {Symbol : Type 0} (name : String) (e : BorsaError Symbol)
    → (is_timeout (tag_err name e) ≡ is_timeout e) × (is_timeout e ≡ true → is_not_found e ≡ false)
unfolding tag_err
is_timeout-tag_err name e = (ground arith, ground arith)

module _ {Symbol Price Action Meta : Type 0}
    (resample : ResamplePlan
      → Option Meta
      → List (Candle Price)
      → BorsaError Symbol ⊎ List (Candle Price)) where
  judge_error_lem :
      (name : String) (e : BorsaError Symbol)
      → judge_error {Price = Price} {Action = Action} {Meta = Meta} resample name e
        ≡ (if is_not_found e then skipped else failed (tag_err name e))
  unfolding judge_error
  judge_error_lem name e = ground arith

  add_judged-error_of :
      (idx : ℕ) (name : String) (plan : Option ResamplePlan)
      (res : BorsaError Symbol ⊎ HistoryResponse Price Action Meta)
      (results : List (HistoryOk Price Action Meta)) (errors : List (BorsaError Symbol))
      → has_candles res ≡ false
      → add_judged resample (judge_result resample idx name plan res) (results, errors)
        ≡ (results, error_of name res ++ errors)
  unfolding judge_result
  add_judged-error_of idx name plan (inl e) results errors h =
      ground (arith, judge_error_lem name e)
  add_judged-error_of idx name plan (inr hr) results errors h =
      elim (Bool-cases (is_empty hr.candles)) [
        | inl nothing ↦ rw nothing refl
        | inr something ↦ cc (h, something)
      ]

  no_candles-collect_successes :
      (joined : List (HistoryTask Symbol Price Action Meta))
      → all (λ t. not (has_candles t.res)) joined ≡ true
      → collect_successes resample joined ≡ ([], tagged_errors joined)
  unfolding collect_successes judge_result
  no_candles-collect_successes [] h = refl
  no_candles-collect_successes (t ∷ joined) h =
      let parts = without_candles t joined h in
      rw (no_candles-collect_successes joined parts.1)
        (add_judged-error_of t.idx t.name t.plan t.res [] (tagged_errors joined) parts.0)

added-all_timeout :
    {Symbol Price Action Meta : Type 0} (name : String)
    (res : BorsaError Symbol ⊎ HistoryResponse Price Action Meta)
    (joined : List (HistoryTask Symbol Price Action Meta))
    → (is_empty (tagged_errors joined) ≡ all (λ t. is_silent t.res) joined)
      × (length (tagged_errors joined) ≤ length joined)
      × (((length (tagged_errors joined) == length joined) && all is_timeout (tagged_errors joined))
          ≡ all (λ t. timed_out t.res) joined)
    → (is_empty (error_of name res ++ tagged_errors joined)
        ≡ (is_silent res && all (λ t. is_silent t.res) joined))
      × (length (error_of name res ++ tagged_errors joined) ≤ suc (length joined))
      × (((length (error_of name res ++ tagged_errors joined) == suc (length joined))
            && all is_timeout (error_of name res ++ tagged_errors joined))
          ≡ (timed_out res && all (λ t. timed_out t.res) joined))
added-all_timeout name (inr hr) joined (a, b, c) = (a, omega (arith, b), ground (arith, b))
added-all_timeout name (inl e) joined (a, b, c) = elim (Bool-cases (is_not_found e)) [
  | inl missing ↦
      rw missing (a, omega (arith, b), ground (arith, b, is_timeout-tag_err name e, missing))
  | inr other ↦ rw other (refl, omega (arith, b), ground (arith, c, is_timeout-tag_err name e))
]

tagged-all_timeout :
    {Symbol Price Action Meta : Type 0} (joined : List (HistoryTask Symbol Price Action Meta))
    → all (λ t. not (has_candles t.res)) joined ≡ true
    → (is_empty (tagged_errors joined) ≡ all (λ t. is_silent t.res) joined)
      × (length (tagged_errors joined) ≤ length joined)
      × (((length (tagged_errors joined) == length joined) && all is_timeout (tagged_errors joined))
          ≡ all (λ t. timed_out t.res) joined)
tagged-all_timeout [] h = (refl, omega arith, refl)
tagged-all_timeout (t ∷ joined) h =
    added-all_timeout t.name t.res joined (tagged-all_timeout joined (without_candles t joined h).1)

module _ {Symbol Price Currency Action Meta : Type 0} ⦃e : Eq Currency⦄
    (calls : SeriesCalls Symbol Price Currency Action Meta) where
  -- When no provider answered with candles the request fails: nothing was found where each provider
  -- answered without candles or found nothing; all have timed out where each timed out; else all
  -- have failed, with the errors of those that did more than find nothing, each under its
  -- provider's name.
  pub finalize-no_candles :
      (cfg : HistorySettings) (what : String) (joined : List (HistoryTask Symbol Price Action Meta))
      → all (λ t. not (has_candles t.res)) joined ≡ true
      → finalize_history_results calls cfg what joined
        ≡ inl (
            if all (λ t. is_silent t.res) joined
            then not_found what
            else if all (λ t. timed_out t.res) joined
            then all_providers_timed_out "history"
            else all_providers_failed (from_list (tagged_errors joined)))
  unfolding finalize_history_results
  finalize-no_candles cfg what joined h =
      let errors = tagged-all_timeout joined h in
      rw (no_candles-collect_successes calls.resample joined h) (ground (arith, errors.0, errors.2))
