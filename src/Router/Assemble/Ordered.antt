-- ===== src/Router/Assemble/Ordered.antt =====
-- The connectors that a built orchestrator asks, and in what order.
use mathlib.Core.Path.{fun_ext}
use borsa.Routing.Policy.Normalize.Coherence.{normalize-Coherent}
use borsa.Routing.Policy.Normalize.{normalize_and_collect_unknown}
use borsa.Router.Assemble.{build, names, BorsaBuilder}
use borsa.Router.{Borsa, Connector}
use borsa.Prelude.{
  string_eq, ℕ, String, ◌≡◌, refl, inr, Bool, true, false, ◌&&◌, Option, List, [], ◌∷◌, arith, Eq,
  keep_if, sym, ◌∙◌, subst, is_some, IsSortedBy, sort_by-IsSortedBy, ap, length,
  length-keep_if-sort_by,
}
use borsa.Router.Ordering.{
  key_le, enumerate_from, by_rank, before_or_same, is_eligible, sort_key, eligible,
}
use borsa.Routing.Policy.{
  RoutingContext, best_rule, Selector, provider_rank, provider_sort_key, rank_or_last,
}
use borsa.Routing.Policy.Ranks.{Coherent, place, governing, provider_rank-place}

key_le_total : (a b : ℕ × ℕ) → key_le a b ≡ false → key_le b a ≡ true
unfolding key_le
key_le_total (a, i) (b, j) h = ground arith

key_le_trans : (a b c : ℕ × ℕ) → key_le a b ≡ true → key_le b c ≡ true → key_le a c ≡ true
unfolding key_le
key_le_trans (a, i) (b, j) (c, k) h l = ground arith

keep_if-keep_if :
    {A : Type 0} (p q : A → Bool) (xs : List A)
    → keep_if p (keep_if q xs) ≡ keep_if (λ x. q x && p x) xs
keep_if-keep_if p q [] = refl
keep_if-keep_if p q (x ∷ xs) = ground (arith, keep_if-keep_if p q xs)

module _ {Symbol AssetKind Exchange : Type 0} ⦃es : Eq Symbol⦄ ⦃ek : Eq AssetKind⦄
    ⦃ex : Eq Exchange⦄ where
  -- Where the list that governs the context has a connector.
  abbrev pub place_of :
      Borsa Symbol AssetKind Exchange
      → RoutingContext Symbol AssetKind Exchange
      → Connector
      → Option (ℕ × Bool)
  place_of o ctx c = place c.name (
      governing (best_rule o.cfg.routing_policy.providers ctx)
        o.cfg.routing_policy.providers.global_rule)

  build-providers :
      (details : List (Selector Symbol AssetKind Exchange × List String) → String)
      (b : BorsaBuilder Symbol AssetKind Exchange) (o : Borsa Symbol AssetKind Exchange)
      → build details b ≡ inr o
      → (o.connectors ≡ b.connectors)
        × (o.cfg.routing_policy.providers
            ≡ (normalize_and_collect_unknown (names b.connectors) b.cfg.routing_policy.providers).0)
  unfolding build
  build-providers details b o h = ground arith

  place_of-provider_rank :
      (details : List (Selector Symbol AssetKind Exchange × List String) → String)
      (b : BorsaBuilder Symbol AssetKind Exchange) (o : Borsa Symbol AssetKind Exchange)
      (ctx : RoutingContext Symbol AssetKind Exchange)
      → build details b ≡ inr o
      → (c : Connector) → provider_rank o.cfg.routing_policy.providers ctx c.name ≡ place_of o ctx c
  place_of-provider_rank details b o ctx h c =
      provider_rank-place o.cfg.routing_policy.providers ctx c.name (
        subst (λ p. Coherent p) (sym (build-providers details b o h).1)
          (normalize-Coherent (names b.connectors) b.cfg.routing_policy.providers))

  by_rank-eligible :
      (o : Borsa Symbol AssetKind Exchange) (ctx : RoutingContext Symbol AssetKind Exchange)
      → IsSortedBy (before_or_same o ctx) (by_rank o ctx)
        × ((p : ℕ × Connector → Bool)
            → length (keep_if p (by_rank o ctx))
              ≡ length (keep_if (λ x. is_eligible o ctx x && p x) (enumerate_from 0 o.connectors)))
  unfolding by_rank
  by_rank-eligible o ctx = (
    sort_by-IsSortedBy (before_or_same o ctx)
        (λ x y. key_le_total (sort_key o ctx x) (sort_key o ctx y))
        (λ x y z. key_le_trans (sort_key o ctx x) (sort_key o ctx y) (sort_key o ctx z))
        (eligible o ctx),
    λ p.
        length-keep_if-sort_by (before_or_same o ctx) p (eligible o ctx)
        ∙ ap length (keep_if-keep_if p (is_eligible o ctx) (enumerate_from 0 o.connectors)),
  )

  -- A built orchestrator asks for a context the registered connectors that the list governing the
  -- context admits, each registration once: of any property of a numbered connector as many asked
  -- have it as registered and admitted ones do. A strict list admits the connectors that it names,
  -- any other list, or none, admits all. Those with a lower rank, the position in the list, come
  -- first, then those that the list does not name, and those of one rank in the order of
  -- registration.
  pub ordered_lem :
      (details : List (Selector Symbol AssetKind Exchange × List String) → String)
      (b : BorsaBuilder Symbol AssetKind Exchange) (o : Borsa Symbol AssetKind Exchange)
      (ctx : RoutingContext Symbol AssetKind Exchange) (p : ℕ × Connector → Bool)
      → build details b ≡ inr o
      → IsSortedBy
          (λ x y.
            key_le
              (rank_or_last (place_of o ctx x.1), x.0)
              (rank_or_last (place_of o ctx y.1), y.0))
          (by_rank o ctx)
        × (length (keep_if p (by_rank o ctx))
            ≡ length (
                keep_if (λ x. is_some (place_of o ctx x.1) && p x) (enumerate_from 0 b.connectors)))
  unfolding provider_sort_key
  ordered_lem details b o ctx p h =
      let lem = by_rank-eligible o ctx in
      subst
        (λ (f : Connector → Option (ℕ × Bool)).
          IsSortedBy (λ x y. key_le (rank_or_last (f x.1), x.0) (rank_or_last (f y.1), y.0))
            (by_rank o ctx)
          × (length (keep_if p (by_rank o ctx))
              ≡ length (keep_if (λ x. is_some (f x.1) && p x) (enumerate_from 0 b.connectors))))
        (fun_ext (place_of-provider_rank details b o ctx h))
        (
          lem.0,
          lem.1 p
              ∙ ap (λ cs. length (keep_if (λ x. is_eligible o ctx x && p x) (enumerate_from 0 cs)))
                  (build-providers details b o h).0,
        )
