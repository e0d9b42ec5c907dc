-- ===== src/Prelude/Interleaving.antt =====
-- The orders in which tasks that run together can complete.
use mathlib.Core.Path.{◌≡◌, refl, ap, ◌∙◌}
use mathlib.Core.Bool.{Bool, ◌||◌, ◌&&◌}
use mathlib.Core.List.{List, [], ◌∷◌, ◌++◌}
use native.Mathlib.Omega.{arith}
use borsa.Prelude.Lists.{any, all, any-append, all-append}

-- Any pending task may be the next.
pub data Completes {ℓ} {A : Type ℓ} : List A → List A → Type ℓ where
  idle : Completes [] []
  completes :
      {pending order : List A} (pre : List A) (x : A) (post : List A)
      → pending ≡ pre ++ x ∷ post
      → Completes (pre ++ post) order
      → Completes pending (x ∷ order)

module _ {ℓ} {A : Type ℓ} where
  any_middle :
      (p : A → Bool) (x : A) (pre post : List A)
      → any p (pre ++ x ∷ post) ≡ (p x || any p (pre ++ post))
  any_middle p x pre post = ground (arith, any-append p pre (x ∷ post), any-append p pre post)

  all_middle :
      (p : A → Bool) (x : A) (pre post : List A)
      → all p (pre ++ x ∷ post) ≡ (p x && all p (pre ++ post))
  all_middle p x pre post = ground (arith, all-append p pre (x ∷ post), all-append p pre post)

  pub any-Completes :
      (p : A → Bool) {pending order : List A}
      → Completes pending order
      → any p pending ≡ any p order
  any-Completes p idle = refl
  any-Completes p (completes pre x post e rest) =
      ap (any p) e ∙ any_middle p x pre post ∙ ap (λ b. p x || b) (any-Completes p rest)

  pub all-Completes :
      (p : A → Bool) {pending order : List A}
      → Completes pending order
      → all p pending ≡ all p order
  all-Completes p idle = refl
  all-Completes p (completes pre x post e rest) =
      ap (all p) e ∙ all_middle p x pre post ∙ ap (λ b. p x && b) (all-Completes p rest)
