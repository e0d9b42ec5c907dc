-- ===== src/Prelude/Results.antt =====
-- Results of fallible code: `inl` is `Err` and `inr` is `Ok`.
use mathlib.Core.Path.{◌≡◌, refl}
use mathlib.Core.Logic.{◌⊎◌, inl, inr}
use mathlib.Core.Bool.{Bool, true, false}
use mathlib.Core.Option.{Option, none, some}

-- `?` after a result, `map_err` and `ok_or_else`.
abbrev pub and_then : {E A B : Type 0} → E ⊎ A → (A → E ⊎ B) → E ⊎ B
and_then (inl error) f = inl error
and_then (inr a) f = f a

abbrev pub map_error : {E F A : Type 0} → (E → F) → E ⊎ A → F ⊎ A
map_error f (inl error) = inl (f error)
map_error f (inr a) = inr a

abbrev pub ok_or : {E A : Type 0} → E → Option A → E ⊎ A
ok_or error none = inl error
ok_or error (some a) = inr a

abbrev pub is_ok : {E A : Type 0} → E ⊎ A → Bool
is_ok (inl error) = false
is_ok (inr a) = true

pub and_then_cong :
    {E A B : Type 0} (r : E ⊎ A) (f g : A → E ⊎ B)
    → ((a : A) → f a ≡ g a)
    → and_then r f ≡ and_then r g
and_then_cong (inl error) f g h = refl
and_then_cong (inr a) f g h = h a

pub and_then-and_then :
    {E A B C : Type 0} (r : E ⊎ A) (f : A → E ⊎ B) (g : B → E ⊎ C)
    → and_then (and_then r f) g ≡ and_then r (λ a. and_then (f a) g)
and_then-and_then (inl error) f g = refl
and_then-and_then (inr a) f g = refl
