-- ===== src/LayoutEditor/Sound.antt =====
-- What the layout editor of app/layouts/page.tsx keeps through everything that happens to it.
pub mod ZoneEdits
pub mod Paths
pub mod Steps
use ev_factory_twin.Prelude.{
  ℕ, ◌+◌, ◌≤◌, ◌≡◌, refl, sym, ap, subst, ◌∙◌, arith, String, Bool, true, false, not, ◌&&◌, ◌||◌,
  Option, none, some, List, [], ◌∷◌, ◌++◌, map, any, filter, length, length-append, beq, ◌==◌,
  eq_iff, Bool-cases, inl, inr, All, if◌then◌else◌,
}
use ev_factory_twin.Prelude.Index.{map_from, map_at, map-map_from, length-drop_last}
use ev_factory_twin.Schema.Layout.{
  WorldPoint, Station, LayoutRoute, RouteKind, LayoutVersionContent, LayoutVersion,
}
use ev_factory_twin.Schema.Content.{is_valid_content}
use ev_factory_twin.LayoutEditor.{LayoutWorkspace, ZoneDrawing, initial}
use ev_factory_twin.LayoutEditor.Routes.{
  same_kind, is_delivery, has_route, new_route, set_waypoints,
}
use mathlib.Core.List.{map-append}

-- No id stands twice in the list.
unfoldable pub are_distinct : List String → Bool
are_distinct [] = true
are_distinct (x ∷ xs) = not (any (λ y. y == x) xs) && are_distinct xs

abbrev pub route_ids : List LayoutRoute → List String
route_ids rs = map (λ (r : LayoutRoute). r.id) rs

-- The routes have different ids, and one of them is for deliveries.
pub record HasRoutes (c : LayoutVersionContent) : Type 0 where
  pub distinct : are_distinct (route_ids c.routes) ≡ true
  pub delivers : any is_delivery c.routes ≡ true

abbrev pub corner_count : Option ZoneDrawing → ℕ
corner_count none = 0
corner_count (some d) = length d.points

-- A route is drawn, or a zone, or neither: points are kept of what is drawn only, and of a zone no more
-- than the schema allows.
pub record IsTidy (s : LayoutWorkspace) : Type 0 where
  pub routes : HasRoutes s.draft
  pub undrawn : s.route_drawing ≡ false → s.route_draft ≡ []
  pub one_drawing : s.route_drawing ≡ true → s.zone_drawing ≡ none
  pub few_corners : corner_count s.zone_drawing ≤ 100

-- The function changes neither the id of a route nor whether it is for deliveries.
abbrev pub Keeps : (LayoutRoute → LayoutRoute) → Type 0
Keeps f = (r : LayoutRoute) → ((f r).id ≡ r.id) × (is_delivery (f r) ≡ is_delivery r)

abbrev pub SameRoutes : List LayoutRoute → List LayoutRoute → Type 0
SameRoutes rs qs = (route_ids qs ≡ route_ids rs) × (any is_delivery qs ≡ any is_delivery rs)

pub map-SameRoutes :
    (f : LayoutRoute → LayoutRoute) → Keeps f → (rs : List LayoutRoute) → SameRoutes rs (map f rs)
map-SameRoutes f keeps [] = (refl, refl)
map-SameRoutes f keeps (r ∷ rs) = ground (arith, keeps r, map-SameRoutes f keeps rs)

map_from-SameRoutes :
    (k : ℕ) (f : LayoutRoute → LayoutRoute)
    → Keeps f
    → (i : ℕ) (rs : List LayoutRoute)
    → SameRoutes rs (map_from i (λ j r. if beq j k then f r else r) rs)
map_from-SameRoutes k f keeps i [] = (refl, refl)
map_from-SameRoutes k f keeps i (r ∷ rs) =
    ground (arith, keeps r, map_from-SameRoutes k f keeps (i + 1) rs)

pub map_at-SameRoutes :
    (k : ℕ) (f : LayoutRoute → LayoutRoute)
    → Keeps f
    → (rs : List LayoutRoute) → SameRoutes rs (map_at k f rs)
map_at-SameRoutes k f keeps rs = map_from-SameRoutes k f keeps 0 rs

pub SameRoutes-HasRoutes :
    {c d : LayoutVersionContent} → SameRoutes c.routes d.routes → HasRoutes c → HasRoutes d
SameRoutes-HasRoutes {c} {d} (ids, deliveries) h = record {
  distinct = ap are_distinct ids ∙ h.distinct;
  delivers = deliveries ∙ h.delivers;
}

any-same-append :
    (ids : List String) (x id : String)
    → any (λ y. y == x) ids ≡ false
    → (x == id) ≡ false
    → any (λ y. y == x) (ids ++ id ∷ []) ≡ false
any-same-append [] x id h ne = ground (arith, eq_iff x id, eq_iff id x)
any-same-append (y ∷ ids) x id h ne = ground (arith, any-same-append ids x id)

are_distinct-append :
    (rs : List LayoutRoute) (r : LayoutRoute)
    → are_distinct (route_ids rs) ≡ true
    → any (λ (q : LayoutRoute). q.id == r.id) rs ≡ false
    → are_distinct (route_ids (rs ++ r ∷ [])) ≡ true
unfolding are_distinct
are_distinct-append [] r h new = refl
are_distinct-append (q ∷ rs) r h new = ground (
  arith,
  are_distinct-append rs r,
  any-same-append (route_ids rs) q.id r.id,
  map-append (λ (p : LayoutRoute). p.id) rs (r ∷ []),
)

any-delivery-append :
    (rs qs : List LayoutRoute) → any is_delivery rs ≡ true → any is_delivery (rs ++ qs) ≡ true
any-delivery-append [] qs h = cc
any-delivery-append (r ∷ rs) qs h = ground (arith, any-delivery-append rs qs)

pub insert-HasRoutes :
    (c : LayoutVersionContent) (r : LayoutRoute)
    → has_route c r.id ≡ false
    → HasRoutes c
    → HasRoutes (record c { routes = c.routes ++ r ∷ [] })
insert-HasRoutes c r new h = record {
  distinct = are_distinct-append c.routes r h.distinct new;
  delivers = any-delivery-append c.routes (r ∷ []) h.delivers;
}

any-filter-ids :
    (p : LayoutRoute → Bool) (id : String) (rs : List LayoutRoute)
    → any (λ y. y == id) (route_ids rs) ≡ false
    → any (λ y. y == id) (route_ids (filter p rs)) ≡ false
any-filter-ids p id [] h = refl
any-filter-ids p id (r ∷ rs) h = ground (arith, any-filter-ids p id rs)

pub filter-are_distinct :
    (p : LayoutRoute → Bool) (rs : List LayoutRoute)
    → are_distinct (route_ids rs) ≡ true
    → are_distinct (route_ids (filter p rs)) ≡ true
unfolding are_distinct
filter-are_distinct p [] h = refl
filter-are_distinct p (r ∷ rs) h =
    ground (arith, filter-are_distinct p rs, any-filter-ids p r.id rs)
