-- ===== src/LayoutEditor/Validation.antt =====
-- What the zone check of app/layouts/page.tsx finds.
use ev_factory_twin.Prelude.{
  ◌≡◌, ◌≢◌, ◌↔◌, refl, arith, String, false, none, List, [], ◌∷◌, any, All, ◌==◌, eq_iff,
}
use ev_factory_twin.Prelude.Int.{pos, ◌≤ℤ◌}
use ev_factory_twin.Schema.Layout.{WorldPoint, PolygonZone, LayoutVersionContent}
use ev_factory_twin.LayoutEditor.{
  zone_validation_error, zone_errors_from, all_zones, leaves_footprint,
}

abbrev pub IsWithin : LayoutVersionContent → WorldPoint → Type 0
IsWithin c p = (pos 0 ≤ℤ p.x) × (p.x ≤ℤ c.width) × (pos 0 ≤ℤ p.y) × (p.y ≤ℤ c.height)

-- No zone has the id of one in front of it.
abbrev pub HasNewIds : List String → List PolygonZone → Type 0
HasNewIds ids [] = Unit
HasNewIds ids (z ∷ zones) = All (λ id. id ≢ z.id) ids × HasNewIds (z.id ∷ ids) zones

abbrev pub HasCornersWithin : LayoutVersionContent → List PolygonZone → Type 0
HasCornersWithin c zones = All (λ (z : PolygonZone). All (IsWithin c) z.points) zones

any-seen :
    (ids : List String) (id : String) → (any (λ x. x == id) ids ≡ false) ↔ All (λ x. x ≢ id) ids
any-seen [] id = (λ h. tt, λ h. refl)
any-seen (x ∷ xs) id = ground (arith, eq_iff x id, any-seen xs id)

any-leaves :
    (c : LayoutVersionContent) (ps : List WorldPoint)
    → (any (leaves_footprint c) ps ≡ false) ↔ All (IsWithin c) ps
any-leaves c [] = (λ h. tt, λ h. refl)
any-leaves c (p ∷ ps) = ground (arith, any-leaves c ps)

zone_errors_iff :
    (c : LayoutVersionContent) (ids : List String) (zones : List PolygonZone)
    → (zone_errors_from c ids zones ≡ none) ↔ (HasNewIds ids zones × HasCornersWithin c zones)
unfolding zone_errors_from
zone_errors_iff c ids [] = (λ h. (tt, tt), λ h. refl)
zone_errors_iff c ids (z ∷ zones) =
    ground (arith, any-seen ids z.id, any-leaves c z.points, zone_errors_iff c (z.id ∷ ids) zones)

-- The check finds no fault exactly if no two zones, of either kind, have one id, and every corner lies in
-- the footprint.
pub zone_validation_error_iff :
    (c : LayoutVersionContent)
    → (zone_validation_error c ≡ none)
      ↔ (HasNewIds [] (all_zones c) × HasCornersWithin c (all_zones c))
unfolding zone_validation_error
zone_validation_error_iff c = zone_errors_iff c [] (all_zones c)
