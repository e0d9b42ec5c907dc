-- ===== src/History/Interval/Choice.antt =====
-- The choice of an interval: when there is one, and which it is.
use borsa.Prelude.{
  ℕ, ◌≤◌, ◌≡◌, refl, sym, ◌⊎◌, inl, Bool, true, false, ◌||◌, Option, none, some, List, [], ◌∷◌,
  arith, leb, is_some, or_false, Eq, any, all, subst, inr, Bool-cases, eq_iff_path,
}
use borsa.History.Interval.{pick, pick_step}
use borsa.Routing.Ranked.{contains}

abbrev pub value_or_zero : Option ℕ → ℕ
value_or_zero none = 0
value_or_zero (some m) = m

abbrev pub best_value {ℓ} : {I : Type ℓ} → Option (I × ℕ) → ℕ
best_value none = 0
best_value (some (i, m)) = m

module _ {Interval : Type 0} (value : Interval → Option ℕ) where
  -- Both searches keep a value that is not smaller.
  abbrev pub Ordered : (ℕ → ℕ → Bool) → Type 0
  Ordered beats = (m n : ℕ) → (beats m n ≡ true → n ≤ m) × (beats m n ≡ false → m ≤ n)

  pick_step-greatest :
      (beats : ℕ → ℕ → Bool) (i : Interval) (v : Option ℕ) (best : Option (Interval × ℕ))
      → Ordered beats
      → (best_value best ≤ best_value (pick_step beats i v best))
        × (value_or_zero v ≤ best_value (pick_step beats i v best))
  pick_step-greatest beats i none best o = (omega arith, omega arith)
  pick_step-greatest beats i (some m) none o = (omega arith, omega arith)
  pick_step-greatest beats i (some m) (some (j, bm)) o = ground (arith, o m bm)

  pick_step-member :
      (beats : ℕ → ℕ → Bool) (x i : Interval) (m : ℕ) (v : Option ℕ) (best : Option (Interval × ℕ))
      → pick_step beats x v best ≡ some (i, m)
      → (best ≡ some (i, m)) ⊎ ((x ≡ i) × (v ≡ some m))
  pick_step-member beats x i m none best h = inl h
  pick_step-member beats x i m (some n) none h = inr (cc h, cc h)
  pick_step-member beats x i m (some n) (some (j, bm)) h = elim (Bool-cases (beats n bm)) [
    | inl first ↦ inr (cc (h, first), cc (h, first))
    | inr second ↦ inl (cc (h, second))
  ]

  pub pick-is_some :
      (beats : ℕ → ℕ → Bool) (xs : List Interval) (best : Option (Interval × ℕ))
      → is_some (pick beats value xs best) ≡ (is_some best || any (λ i. is_some (value i)) xs)
  unfolding pick
  pick-is_some beats [] best = sym (or_false (is_some best))
  pick-is_some beats (i ∷ xs) best =
      ground (arith, pick-is_some beats xs (pick_step beats i (value i) best))

  pub pick-greatest :
      (beats : ℕ → ℕ → Bool) (xs : List Interval) (best : Option (Interval × ℕ))
      → Ordered beats
      → (best_value best ≤ best_value (pick beats value xs best))
        × (all (λ i. leb (value_or_zero (value i)) (best_value (pick beats value xs best))) xs
            ≡ true)
  unfolding pick
  pick-greatest beats [] best o = (omega arith, refl)
  pick-greatest beats (i ∷ xs) best o =
      let step = pick_step-greatest beats i (value i) best o in
      let ih = pick-greatest beats xs (pick_step beats i (value i) best) o in
      (omega (arith, step.0, ih.0), ground (arith, step.1, ih.0, ih.1))

  pub pick-member :
      ⦃e : Eq Interval⦄ (beats : ℕ → ℕ → Bool) (xs : List Interval) (best : Option (Interval × ℕ))
      (i : Interval) (m : ℕ)
      → pick beats value xs best ≡ some (i, m)
      → (best ≡ some (i, m)) ⊎ ((contains xs i ≡ true) × (value i ≡ some m))
  unfolding pick
  pick-member beats [] best i m h = inl h
  pick-member beats (x ∷ xs) best i m h =
      elim (pick-member beats xs (pick_step beats x (value x) best) i m h) [
        | inl stepped ↦ elim (pick_step-member beats x i m (value x) best stepped) [
          | inl old ↦ inl old
          | inr (same, v) ↦
              inr (ground (arith, (eq_iff_path x i).1 same), subst (λ y. value y ≡ some m) same v)
        ]
        | inr (later, v) ↦ inr (ground (arith, later), v)
      ]
