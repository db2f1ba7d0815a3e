-- ===== src/LayoutEditor/Switching.antt =====
-- Another route is selected while one is drawn, in app/layouts/page.tsx.
use ev_factory_twin.Prelude.{
  ◌≡◌, refl, ap, ◌∙◌, arith, String, some, List, [], ◌∷◌, ◌++◌, map, find, ◌==◌, eq_refl, if-false,
  not,
}
use ev_factory_twin.Schema.Layout.{WorldPoint, Station, LayoutRoute}
use ev_factory_twin.Layout.{place_of}
use ev_factory_twin.LayoutEditor.{LayoutWorkspace}
use ev_factory_twin.LayoutEditor.Routes.{
  set_waypoints, select_route, select_route_station, select_found, visit_station, station_of,
}
use mathlib.Core.Option

find-set_waypoints :
    (id : String) (ps : List WorldPoint) (rs : List LayoutRoute)
    → find (λ (r : LayoutRoute). r.id == id) (map (set_waypoints id ps) rs)
      ≡ Option.map
          (λ (r : LayoutRoute). record r { waypoints = ps })
          (find (λ (r : LayoutRoute). r.id == id) rs)
find-set_waypoints id ps [] = refl
find-set_waypoints id ps (r ∷ rs) = ground (arith, find-set_waypoints id ps rs)

-- A route that is selected while a drawing has at least one point gets the points of that drawing,
-- whichever route it was begun for, and the place of its own end station once that station is clicked.
pub switched_route_gets_drawing :
    (route : LayoutRoute) (t : Station) (p : WorldPoint) (ps : List WorldPoint)
    (s : LayoutWorkspace)
    → s.route_draft ≡ p ∷ ps
    → find (λ (r : LayoutRoute). r.id == route.id) s.draft.routes ≡ some route
    → station_of route.end_station_id s.draft ≡ some t
    → find
        (λ (r : LayoutRoute). r.id == route.id)
        (select_route_station route.end_station_id (select_route route.id s)).draft.routes
      ≡ some (record route { waypoints = p ∷ ps ++ place_of t ∷ [] })
unfolding select_route_station select_route
switched_route_gets_drawing route t p ps s drawn found stop =
    let id = route.end_station_id in
    let u : LayoutWorkspace = record s { selected_route_id = route.id } in
    let routes =
      λ (v : LayoutWorkspace). find (λ (r : LayoutRoute). r.id == route.id) v.draft.routes in
    ap (λ o. routes (select_found o (station_of id u.draft) id u)) found
    ∙ ap (λ o. routes (select_found (some route) o id u)) stop
    ∙ ap (λ ds. routes (visit_station ds route t id u)) drawn
    ∙ ap routes (if-false _ _ (ap not (eq_refl id)))
    ∙ find-set_waypoints route.id (p ∷ ps ++ place_of t ∷ []) s.draft.routes
    ∙ ap (Option.map _) found
