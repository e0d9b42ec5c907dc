-- ===== src/Errors/Retry.antt =====
-- The retry class of an aggregate is the class of its leaves taken together.
use borsa.Prelude.{
  ◌≡◌, refl, sym, ap₂, ◌∙◌, or_false, and_true, List, [], ◌∷◌, any, all, any-append, if◌then◌else◌,
  ◌||◌, Bool, false, true, ◌&&◌, all-append,
}
use borsa.Errors.{
  BorsaError, Errors, RetryClass, permanent, transient, unknown, nil, cons, flatten, flatten_all,
  retry_class, any_permanent, is_permanent, is_transient, is_permanent_class, is_transient_class,
  all_providers_failed, connector, all_transient,
}

-- A permanent member decides; else all must be transient.
abbrev pub class_of : {Symbol : Type 0} → List (BorsaError Symbol) → RetryClass
class_of leaves =
    if any is_permanent leaves
    then permanent
    else if all is_transient leaves
    then transient
    else unknown

class_of-single : {Symbol : Type 0} (e : BorsaError Symbol) → retry_class e ≡ class_of (e ∷ [])
unfolding is_permanent is_transient
class_of-single e = by_class (retry_class e)
  where
    by_class :
        (c : RetryClass)
        → c ≡ (
            if is_permanent_class c || false
            then permanent
            else if is_transient_class c && true
            then transient
            else unknown)
    by_class permanent = refl
    by_class transient = refl
    by_class unknown = refl

transient_head :
    (c : RetryClass) (t p : Bool)
    → (t ≡ true → p ≡ false)
    → (is_transient_class c && t) ≡ true
    → (is_permanent_class c || p) ≡ false
transient_head permanent t p h k = cc k
transient_head transient t p h k = h k
transient_head unknown t p h k = cc k

-- An aggregate that is transient as a whole has no permanent member.
transient_excludes :
    {Symbol : Type 0} (es : Errors Symbol) → all_transient es ≡ true → any_permanent es ≡ false
unfolding retry_class
transient_excludes nil h = refl
transient_excludes (cons e es) h =
    transient_head (retry_class e) (all_transient es) (any_permanent es) (transient_excludes es) h

aggregate_permanent :
    (p t : Bool)
    → is_permanent_class (if p then permanent else if t then transient else unknown) ≡ p
aggregate_permanent true t = refl
aggregate_permanent false true = refl
aggregate_permanent false false = refl

aggregate_transient :
    (p t : Bool)
    → (t ≡ true → p ≡ false)
    → is_transient_class (if p then permanent else if t then transient else unknown) ≡ t
aggregate_transient true true h = sym (h refl)
aggregate_transient true false h = refl
aggregate_transient false true h = refl
aggregate_transient false false h = refl

mutual
  unfolding flatten retry_class is_permanent

  permanent-any :
      {Symbol : Type 0} (e : BorsaError Symbol) → is_permanent e ≡ any is_permanent (flatten e)
  permanent-any (all_providers_failed es) =
      aggregate_permanent (any_permanent es) (all_transient es) ∙ any_permanent-any es
  permanent-any (connector n e) = sym (or_false (is_permanent_class (retry_class e)))
  permanent-any _ = refl

  any_permanent-any :
      {Symbol : Type 0} (es : Errors Symbol) → any_permanent es ≡ any is_permanent (flatten_all es)
  any_permanent-any nil = refl
  any_permanent-any (cons e es) =
      ap₂ ◌||◌ (permanent-any e) (any_permanent-any es)
      ∙ sym (any-append is_permanent (flatten e) (flatten_all es))

mutual
  unfolding flatten retry_class is_transient

  transient-all :
      {Symbol : Type 0} (e : BorsaError Symbol) → is_transient e ≡ all is_transient (flatten e)
  transient-all (all_providers_failed es) =
      aggregate_transient (any_permanent es) (all_transient es) (transient_excludes es)
      ∙ all_transient-all es
  transient-all (connector n e) = sym (and_true (is_transient_class (retry_class e)))
  transient-all _ = refl

  all_transient-all :
      {Symbol : Type 0} (es : Errors Symbol) → all_transient es ≡ all is_transient (flatten_all es)
  all_transient-all nil = refl
  all_transient-all (cons e es) =
      ap₂ ◌&&◌ (transient-all e) (all_transient-all es)
      ∙ sym (all-append is_transient (flatten e) (flatten_all es))

-- The retry class of an error is permanent if one of its flattened leaves is permanent; else
-- transient if all of them are transient; else unknown.
pub retry_class-flatten :
    {Symbol : Type 0} (e : BorsaError Symbol) → retry_class e ≡ class_of (flatten e)
unfolding retry_class
retry_class-flatten e =
    class_of-single e
    ∙ ap₂ (λ p t. if p then permanent else if t then transient else unknown)
        (or_false (is_permanent e) ∙ permanent-any e) (and_true (is_transient e) ∙ transient-all e)
