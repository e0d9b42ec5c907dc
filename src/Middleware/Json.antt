-- ===== src/Middleware/Json.antt =====
-- What the middleware's configuration uses of JSON values, which are another crate's: the values that
-- it writes, and how it reads them. The laws are what that crate documents of the two: an object is
-- a map in the order of its keys, and a key has the value that was given for it.
use Prim.Native.String.{compare}
use text.Mathlib.Text.{is_lt}
use borsa.Prelude.{
  string_eq, ℕ, String, Option, some, List, ◌≡◌, ◌≤◌, ◌>>=◌, Bool, true, ◌&&◌, not, [], ◌∷◌, eq,
  any,
}
use borsa.Prelude.Maps.{get}
use borsa.Quota.{u64_max}

-- The order of strings is that of their bytes.
abbrev pub key_before : String → String → Bool
key_before a b = is_lt (compare a b)

-- The entries in the order of their keys, each key once.
abbrev pub InKeyOrder : {A : Type 0} → List (String × A) → Type 0
InKeyOrder [] = Unit
InKeyOrder (x ∷ []) = Unit
InKeyOrder (x ∷ y ∷ rest) = (key_before x.0 y.0 ≡ true) × InKeyOrder (y ∷ rest)

-- Each key once, in any order.
abbrev pub keys_differ : {A : Type 0} → List (String × A) → Bool
keys_differ [] = true
keys_differ (x ∷ rest) = not (any (λ y. eq y.0 x.0) rest) && keys_differ rest

pub record Json (Value : Type 0) : Type 0 where
  pub number : ℕ → Value
  pub text : String → Value
  pub object : List (String × Value) → Value
  pub as_u64 : Value → Option ℕ
  pub as_str : Value → Option String
  pub as_object : Value → Option (List (String × Value))
  pub as_u64-number : (n : ℕ) → n ≤ u64_max → as_u64 (number n) ≡ some n
  pub as_str-text : (s : String) → as_str (text s) ≡ some s
  pub get-object :
      (entries : List (String × Value)) (key : String)
      → keys_differ entries ≡ true
      → (as_object (object entries) >>= (λ es. get es key)) ≡ get entries key
  pub as_object-object :
      (entries : List (String × Value))
      → InKeyOrder entries
      → as_object (object entries) ≡ some entries

-- `get` on a value: none if it is not an object.
abbrev pub member : {Value : Type 0} → Json Value → Value → String → Option Value
member json v key = json.as_object v >>= (λ entries. get entries key)
