-- ===== src/LayoutEditor/Fresh.antt =====
-- The loops of app/layouts/page.tsx that look for an unused number.
use ev_factory_twin.Prelude.{
  ℕ, zero, suc, ◌+◌, ◌≤◌, ◌<◌, ◌≡◌, ◌≢◌, refl, ◌∙◌, arith, String, Bool, true, false, not, List, [],
  ◌∷◌, any, filter, length, length-filter-le, ◌==◌, eq_iff, Bool-cases, inl, inr,
}
use ev_factory_twin.Schema.Layout.{RouteKind, LayoutVersionContent, PolygonZone, LayoutRoute}
use ev_factory_twin.LayoutEditor.{ZoneKind, fresh_suffix, all_zones}
use ev_factory_twin.LayoutEditor.Routes.{numbered, id_prefix, has_route, new_route_id, of_kind}
use ev_factory_twin.LayoutEditor.Zones.{zone_prefix, has_zone, new_zone_id}
use text.Mathlib.TextLemmas.{append_cancel_left}

module _ {A : Type 0} (key : A → String) where
  abbrev has : List A → String → Bool
  has xs id = any (λ x. key x == id) xs

  has-without :
      (xs : List A) (id other : String)
      → id ≢ other
      → has (filter (λ x. not (key x == other)) xs) id ≡ has xs id
  has-without [] id other ne = refl
  has-without (x ∷ xs) id other ne =
      ground (arith, eq_iff (key x) id, eq_iff (key x) other, has-without xs id other ne)

  length-without :
      (xs : List A) (id : String)
      → has xs id ≡ true
      → length (filter (λ x. not (key x == id)) xs) < length xs
  length-without [] id h = cc
  length-without (x ∷ xs) id h =
      ground (arith, length-without xs id, length-filter-le (λ y. not (key y == id)) xs)

  module _ (label : ℕ → String) (distinct : (j k : ℕ) → label j ≡ label k → j ≡ k) where
    -- `us` holds the members that the loop can still meet.
    fresh_from :
        (xs : List A) (fuel k : ℕ) (us : List A)
        → ((j : ℕ) → k ≤ j → has us (label j) ≡ has xs (label j))
        → length us < fuel
        → has xs (label (fresh_suffix (has xs) label fuel k)) ≡ false
    unfolding fresh_suffix
    fresh_from xs zero k us same few = absurd (omega arith)
    fresh_from xs (suc fuel) k us same few = elim (Bool-cases (has xs (label k))) [
      | inl taken ↦ rw taken (
          fresh_from xs fuel (k + 1) (filter (λ x. not (key x == label k)) us)
            (λ j later.
              has-without us (label j) (label k) (λ e. omega (arith, distinct j k e))
              ∙ same j (omega arith))
            (omega (arith, length-without us (label k) (same k (omega arith) ∙ taken))))
      | inr free ↦ rw free free
    ]

module _ (number_text : ℕ → String)
    (distinct : (j k : ℕ) → number_text j ≡ number_text k → j ≡ k) where
  numbered_distinct :
      (prefix : String) (j k : ℕ)
      → numbered number_text prefix j ≡ numbered number_text prefix k
      → j ≡ k
  numbered_distinct prefix j k e =
      distinct j k (append_cancel_left "_" _ _ (append_cancel_left prefix _ _ e))

  -- The id that a new route gets is not that of a route of the layout: the loop ends by its test within
  -- one round more than there are routes, if different numbers are printed differently.
  pub new_route_id_unused :
      (kind : RouteKind) (c : LayoutVersionContent)
      → has_route c (new_route_id number_text kind c) ≡ false
  unfolding new_route_id
  new_route_id_unused kind c =
      fresh_from (λ (r : LayoutRoute). r.id) (numbered number_text (id_prefix kind))
        (numbered_distinct (id_prefix kind)) c.routes (length c.routes + 1)
        (length (of_kind kind c) + 1) c.routes (λ j h. refl) (omega arith)

  -- The same of a new zone, among the zones of both kinds.
  pub new_zone_id_unused :
      (kind : ZoneKind) (c : LayoutVersionContent)
      → has_zone c (new_zone_id number_text kind c) ≡ false
  unfolding new_zone_id
  new_zone_id_unused kind c =
      fresh_from (λ (z : PolygonZone). z.id) (numbered number_text (zone_prefix kind))
        (numbered_distinct (zone_prefix kind)) (all_zones c) (length (all_zones c) + 1) 1
        (all_zones c) (λ j h. refl) (omega arith)
