-- ===== src/Router/Fetch/Strategies.antt =====
-- The two strategies succeed and fail in the same cases, whatever the order of completion.
use borsa.Router.Fetch.Tasks.{
  result_of, first_ok, settled, first_or, failures, started-round, race_loop_lem,
}
use borsa.Prelude.{
  String, ◌≡◌, refl, ap, ◌⊎◌, inl, inr, Bool, true, not, Option, none, some, List, [], ◌∷◌, arith,
  is_some, any, is_empty, ◌∙◌, false, all, is_ok, sym, ap₂,
}
use borsa.Prelude.Interleaving.{Completes, any-Completes, all-Completes}
use borsa.Errors.{
  BorsaError, RetryClass, permanent, retry_class, is_actionable, any_permanent, all_transient,
  any_actionable, from_list, is_permanent_class, is_transient_class,
}
use borsa.Errors.Collapse.{collapse_errors, class_from, collapse_errors-aggregate}
use borsa.Router.{Connector, tag_err}
use borsa.Router.Fetch.{
  Reply, started, after_race, fetch_single_latency, fetch_single_priority_with_fallback,
}
use borsa.Router.Fetch.Priority.{answer_or, fetch-first_answer}

-- What a caller can tell of a failure: whether to retry, and whether there is something to report.
abbrev pub failure_kind : {Symbol T : Type 0} → BorsaError Symbol ⊎ T → Option (RetryClass × Bool)
failure_kind (inr v) = none
failure_kind (inl e) = some (retry_class e, is_actionable e)

-- The kind of the failure, by what the tasks come to.
abbrev kind_of :
    (answered idle permanently transiently actionably : Bool) → Option (RetryClass × Bool)
kind_of true idle permanently transiently actionably = none
kind_of false true permanently transiently actionably = some (permanent, false)
kind_of false false permanently transiently actionably =
    some (class_from permanently transiently, actionably)

aggregate-kind :
    {Symbol : Type 0} (capability what : String) (errors : List (BorsaError Symbol))
    → ◌≡◌ {A = Option (RetryClass × Bool)}
        (some (
          retry_class (collapse_errors capability true errors (some what)),
          is_actionable (collapse_errors capability true errors (some what)),
        ))
        (some (
          class_from (any_permanent (from_list errors)) (all_transient (from_list errors)),
          any_actionable (from_list errors),
        ))
unfolding retry_class
aggregate-kind capability what errors =
    let (c, a) = collapse_errors-aggregate capability errors (some what) in
    ap₂ (λ c a. some (c, a)) c a

module _ {Symbol T : Type 0} (capability : String) where
  abbrev fails_with : (RetryClass → Bool → Bool) → Bool → String → BorsaError Symbol ⊎ T → Bool
  fails_with test otherwise name (inr v) = otherwise
  fails_with test otherwise name (inl e) =
      test (retry_class (tag_err name e)) (is_actionable (tag_err name e))

  abbrev fails_permanently : String × Reply Symbol T → Bool
  fails_permanently x = fails_with (λ c a. is_permanent_class c) false x.0 (result_of capability x)

  abbrev fails_transiently : String × Reply Symbol T → Bool
  fails_transiently x = fails_with (λ c a. is_transient_class c) true x.0 (result_of capability x)

  abbrev fails_actionably : String × Reply Symbol T → Bool
  fails_actionably x = fails_with (λ c a. a) false x.0 (result_of capability x)

  abbrev answers : String × Reply Symbol T → Bool
  answers x = is_ok (result_of capability x)

  first_ok-some :
      (l : List (String × Reply Symbol T)) → is_some (first_ok capability l) ≡ any answers l
  first_ok-some [] = refl
  first_ok-some ((name, reply) ∷ l) = ground (arith, first_ok-some l)

  failures-classes :
      (l : List (String × Reply Symbol T))
      → (any_permanent (from_list (failures capability l)) ≡ any fails_permanently l)
        × (all_transient (from_list (failures capability l)) ≡ all fails_transiently l)
        × (any_actionable (from_list (failures capability l)) ≡ any fails_actionably l)
  unfolding any_permanent any_actionable
  failures-classes [] = (refl, refl, refl)
  failures-classes ((name, reply) ∷ l) = ground (arith, failures-classes l)

  abbrev kind_of_tasks : List (String × Reply Symbol T) → Option (RetryClass × Bool)
  kind_of_tasks l =
      kind_of (any answers l) (not (any (λ x. true) l)) (any fails_permanently l)
        (all fails_transiently l) (any fails_actionably l)

  settled-kind :
      (what : String) (l : List (String × Reply Symbol T)) (found : Option T)
      → is_some found ≡ any answers l
      → failure_kind (
          answer_or
            (collapse_errors capability (not (is_empty l)) (failures capability l) (some what))
            found)
        ≡ kind_of_tasks l
  unfolding collapse_errors retry_class is_actionable
  settled-kind what l (some v) h = rw (← h) refl
  settled-kind what [] none h = refl
  settled-kind what (x ∷ l) none h =
      let (p, t, a) = failures-classes (x ∷ l) in
      aggregate-kind capability what (failures capability (x ∷ l))
      ∙ ap₂ (λ c a. some (c, a)) (ap₂ class_from p t) a
      ∙ ap
          (λ b.
            kind_of b false (any fails_permanently (x ∷ l)) (all fails_transiently (x ∷ l))
              (any fails_actionably (x ∷ l)))
          h

  kind_of_tasks-Completes :
      {pending order : List (String × Reply Symbol T)}
      → Completes pending order
      → kind_of_tasks pending ≡ kind_of_tasks order
  kind_of_tasks-Completes {pending} {order} c =
      rw
        (
          any-Completes answers c,
          any-Completes (λ x. true) c,
          any-Completes fails_permanently c,
          all-Completes fails_transiently c,
          any-Completes fails_actionably c,
        )
        refl

  is_empty-any : (l : List (String × Reply Symbol T)) → not (is_empty l) ≡ any (λ x. true) l
  is_empty-any [] = refl
  is_empty-any (x ∷ l) = refl

  priority-settled :
      (what : String) (call : Connector → Option (Reply Symbol T)) (ordered : List Connector)
      → (fetch_single_priority_with_fallback capability what call ordered).0
        ≡ settled capability what (started call ordered)
  priority-settled what call ordered =
      let (f, g, h) = started-round capability call ordered in
      ap (λ r. r.0) (fetch-first_answer capability call what ordered) ∙ rw (f, g, h) refl

  after_race_lem :
      (what : String) (attempted : Bool) (found : Option T) (errors : List (BorsaError Symbol))
      → after_race capability what attempted (first_or capability found errors)
        ≡ answer_or (collapse_errors capability attempted errors (some what)) found
  unfolding collapse_errors
  after_race_lem what attempted (some v) errors = refl
  after_race_lem what true none errors = refl
  after_race_lem what false none errors = refl

  latency-settled :
      (what : String) (call : Connector → Option (Reply Symbol T)) (ordered : List Connector)
      (completed : List (String × Reply Symbol T))
      → Completes (started call ordered) completed
      → fetch_single_latency capability what call ordered completed
        ≡ settled capability what completed
  unfolding fetch_single_latency
  latency-settled what call ordered completed c =
      ap (after_race capability what (not (is_empty (started call ordered))))
        (race_loop_lem capability completed [])
      ∙ after_race_lem what (not (is_empty (started call ordered))) (first_ok capability completed)
          (failures capability completed)
      ∙ ap
          (λ b.
            answer_or (collapse_errors capability b (failures capability completed) (some what))
              (first_ok capability completed))
          (is_empty-any (started call ordered)
            ∙ any-Completes (λ x. true) c
            ∙ sym (is_empty-any completed))

  -- Whatever the order in which the providers' calls complete, both strategies return an answer in
  -- the same cases; and when they fail, the errors have the same retry class and are both or neither
  -- actionable.
  pub strategies_agree :
      (what : String) (call : Connector → Option (Reply Symbol T)) (ordered : List Connector)
      (completed : List (String × Reply Symbol T))
      → Completes (started call ordered) completed
      → failure_kind (fetch_single_latency capability what call ordered completed)
        ≡ failure_kind (fetch_single_priority_with_fallback capability what call ordered).0
  strategies_agree what call ordered completed c =
      ap failure_kind (latency-settled what call ordered completed c)
      ∙ settled-kind what completed (first_ok capability completed) (first_ok-some completed)
      ∙ sym (kind_of_tasks-Completes c)
      ∙ sym (
          settled-kind what (started call ordered) (first_ok capability (started call ordered))
            (first_ok-some (started call ordered)))
      ∙ ap failure_kind (sym (priority-settled what call ordered))
