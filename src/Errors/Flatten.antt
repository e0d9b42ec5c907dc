-- ===== src/Errors/Flatten.antt =====
-- Flattening nested aggregates, and what collapsing the errors of several providers keeps of them.
use borsa.Prelude.{
  String, ◌≡◌, refl, ap, ◌∙◌, true, List, [], ◌∷◌, arith, any, All, All-append, any-append,
  All-keep_if, All-keep_if_of, any-keep_if, flat_map, is_empty, if◌then◌else◌, ap₂, Bool, ◌++◌,
  keep_if,
}
use borsa.Errors.{
  not_found, BorsaError, Errors, nil, cons, is_actionable, any_actionable, flatten, flatten_all,
  from_list, actionable_leaves, collapse, collapse_stream_errors, unsupported, all_providers_failed,
}

-- An error that is no aggregate.
abbrev pub IsLeaf : {Symbol : Type 0} → BorsaError Symbol → Type 0
IsLeaf (all_providers_failed es) = ⊥
IsLeaf _ = Unit

mutual
  unfolding flatten

  flatten-leaves : {Symbol : Type 0} (e : BorsaError Symbol) → All IsLeaf (flatten e)
  flatten-leaves (all_providers_failed es) = flatten_all-leaves es
  flatten-leaves _ = (tt, tt)

  flatten_all-leaves : {Symbol : Type 0} (es : Errors Symbol) → All IsLeaf (flatten_all es)
  flatten_all-leaves nil = tt
  flatten_all-leaves (cons e es) =
      All-append IsLeaf (flatten e) (flatten_all es) (flatten-leaves e) (flatten_all-leaves es)

mutual
  unfolding flatten is_actionable

  actionable-any :
      {Symbol : Type 0} (e : BorsaError Symbol) → is_actionable e ≡ any is_actionable (flatten e)
  actionable-any (all_providers_failed es) = any_actionable-any es
  actionable-any (unsupported c) = refl
  actionable-any _ = refl

  any_actionable-any :
      {Symbol : Type 0} (es : Errors Symbol)
      → any_actionable es ≡ any is_actionable (flatten_all es)
  any_actionable-any nil = refl
  any_actionable-any (cons e es) = ground (
    arith,
    actionable-any e,
    any_actionable-any es,
    any-append is_actionable (flatten e) (flatten_all es),
  )

flatten-leaf : {Symbol : Type 0} (e : BorsaError Symbol) → IsLeaf e → flatten e ≡ e ∷ []
unfolding flatten
flatten-leaf (all_providers_failed es) h = absurd h
flatten-leaf _ h = refl

flatten_all-from_list :
    {Symbol : Type 0} (es : List (BorsaError Symbol))
    → All IsLeaf es
    → flatten_all (from_list es) ≡ es
unfolding flatten
flatten_all-from_list [] h = refl
flatten_all-from_list (e ∷ es) h =
    rw (flatten-leaf e h.0) (ap (◌∷◌ e) (flatten_all-from_list es h.1))

flat_map-leaves :
    {Symbol : Type 0} (es : List (BorsaError Symbol)) → All IsLeaf (flat_map flatten es)
flat_map-leaves [] = tt
flat_map-leaves (e ∷ es) =
    All-append IsLeaf (flatten e) (flat_map flatten es) (flatten-leaves e) (flat_map-leaves es)

flat_map-any :
    {Symbol : Type 0} (es : List (BorsaError Symbol))
    → any is_actionable (flat_map flatten es) ≡ any is_actionable es
flat_map-any [] = refl
flat_map-any (e ∷ es) = ground (
  arith,
  actionable-any e,
  flat_map-any es,
  any-append is_actionable (flatten e) (flat_map flatten es),
)

-- What an error surfaces, in one pass over it.
unfoldable mutual
  pub surfaced : {Symbol : Type 0} → BorsaError Symbol → List (BorsaError Symbol)
  surfaced (unsupported c) = []
  surfaced (not_found w) = []
  surfaced (all_providers_failed es) = surfaced_all es
  surfaced e = e ∷ []

  pub surfaced_all : {Symbol : Type 0} → Errors Symbol → List (BorsaError Symbol)
  surfaced_all nil = []
  surfaced_all (cons e es) = surfaced e ++ surfaced_all es

keep_if-append :
    {A : Type 0} (p : A → Bool) (xs ys : List A)
    → keep_if p (xs ++ ys) ≡ keep_if p xs ++ keep_if p ys
keep_if-append p [] ys = refl
keep_if-append p (x ∷ xs) ys = ground (arith, keep_if-append p xs ys)

mutual
  unfolding flatten is_actionable surfaced

  actionable-surfaced :
      {Symbol : Type 0} (e : BorsaError Symbol) → keep_if is_actionable (flatten e) ≡ surfaced e
  actionable-surfaced (all_providers_failed es) = actionable_all-surfaced es
  actionable-surfaced (unsupported c) = refl
  actionable-surfaced (not_found w) = refl
  actionable-surfaced _ = refl

  actionable_all-surfaced :
      {Symbol : Type 0} (es : Errors Symbol)
      → keep_if is_actionable (flatten_all es) ≡ surfaced_all es
  actionable_all-surfaced nil = refl
  actionable_all-surfaced (cons e es) =
      keep_if-append is_actionable (flatten e) (flatten_all es)
      ∙ ap₂ ◌++◌ (actionable-surfaced e) (actionable_all-surfaced es)

actionable_leaves-surfaced :
    {Symbol : Type 0} (errors : List (BorsaError Symbol))
    → actionable_leaves errors ≡ flat_map surfaced errors
unfolding actionable_leaves
actionable_leaves-surfaced [] = refl
actionable_leaves-surfaced (e ∷ errors) =
    keep_if-append is_actionable (flatten e) (flat_map flatten errors)
    ∙ ap₂ ◌++◌ (actionable-surfaced e) (actionable_leaves-surfaced errors)

module _ {Symbol : Type 0} (capability : String) where
  flatten-collapse :
      (es : List (BorsaError Symbol))
      → All IsLeaf es
      → flatten (collapse capability es) ≡ (if is_empty es then unsupported capability ∷ [] else es)
  unfolding collapse flatten
  flatten-collapse [] h = refl
  flatten-collapse (e ∷ []) h = flatten-leaf e h.0
  flatten-collapse (e ∷ f ∷ rest) h = flatten_all-from_list (e ∷ f ∷ rest) h

  -- The flattened result of collapsing the errors of several providers is the list of what they
  -- surface, in order: every error that is not an aggregate, at whatever depth, but those that say
  -- that something is unsupported or was not found; or one `unsupported` of the capability if they
  -- surface nothing.
  pub flatten-collapse_stream_errors :
      (errors : List (BorsaError Symbol))
      → flatten (collapse_stream_errors capability errors) ≡ (
          if is_empty (flat_map surfaced errors)
          then unsupported capability ∷ []
          else flat_map surfaced errors)
  unfolding collapse_stream_errors
  flatten-collapse_stream_errors errors =
      flatten-collapse (actionable_leaves errors)
        (All-keep_if_of IsLeaf is_actionable (flat_map flatten errors) (flat_map-leaves errors))
      ∙ ap (λ es. if is_empty es then unsupported capability ∷ [] else es)
          (actionable_leaves-surfaced errors)

  collapse-any :
      (es : List (BorsaError Symbol))
      → All (λ e. is_actionable e ≡ true) es
      → is_actionable (collapse capability es) ≡ any is_actionable es
  unfolding collapse is_actionable
  collapse-any [] h = refl
  collapse-any (e ∷ []) h = ground (arith, h.0)
  collapse-any (e ∷ f ∷ rest) h = ground (arith, h.0)

  -- The collapsed error is actionable exactly if one of the errors that it collapses is.
  pub actionable-collapse_stream_errors :
      (errors : List (BorsaError Symbol))
      → is_actionable (collapse_stream_errors capability errors) ≡ any is_actionable errors
  unfolding collapse_stream_errors
  actionable-collapse_stream_errors errors =
      collapse-any (actionable_leaves errors) (All-keep_if is_actionable (flat_map flatten errors))
      ∙ any-keep_if is_actionable (flat_map flatten errors)
      ∙ flat_map-any errors
