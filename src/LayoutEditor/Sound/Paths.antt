-- ===== src/LayoutEditor/Sound/Paths.antt =====
-- The edits of stations and routes in app/layouts/page.tsx, against the invariant.
use ev_factory_twin.Prelude.{
  ℕ, ◌≡◌, refl, arith, String, true, not, Option, none, some, List, [], ◌∷◌, ◌++◌, map,
  length-append, ◌==◌, Option-cases, inl, inr, if-elim,
}
use ev_factory_twin.Prelude.Index.{map_at}
use ev_factory_twin.Schema.Fleet.{Number}
use ev_factory_twin.Layout.{place_of}
use ev_factory_twin.Schema.Layout.{
  WorldPoint, Station, LayoutRoute, RouteKind, LayoutVersionContent,
}
use ev_factory_twin.LayoutEditor.{LayoutWorkspace, Axis, x_axis, y_axis, set_axis, on_draft}
use ev_factory_twin.LayoutEditor.Stations.{
  ConfigField, robot_count, demand_interval_seconds, robot_speed_mps, charger_count, drag_route,
  move_content, move_station, move_found, update_size, update_config,
}
use ev_factory_twin.LayoutEditor.Routes.{
  RouteEnd, start_end, finish_end, set_waypoints, redirect, new_route, new_route_id, add_between,
  remove_route, selected_route, start_route_drawing, cancel_route_drawing, add_route_point,
  select_found, select_route_station, redirect_found, update_waypoint, visit_station, append_point,
  station_of,
}
use ev_factory_twin.LayoutEditor.Zones.{add_zone_point}
use ev_factory_twin.LayoutEditor.Fresh.{new_route_id_unused}
use ev_factory_twin.LayoutEditor.Inputs.{press_map, press_station, is_drawing_zone}
use ev_factory_twin.LayoutEditor.Sound.{
  HasRoutes, IsTidy, Keeps, map-SameRoutes, map_at-SameRoutes, SameRoutes-HasRoutes,
  insert-HasRoutes, filter-are_distinct,
}

-- Another draft with its routes in order.
pub on_draft-IsTidy :
    (f : LayoutVersionContent → LayoutVersionContent) {s : LayoutWorkspace}
    → HasRoutes (f s.draft)
    → IsTidy s
    → IsTidy (on_draft f s)
on_draft-IsTidy f routes h = record {
  routes = routes;
  undrawn = h.undrawn;
  one_drawing = h.one_drawing;
  few_corners = h.few_corners;
}

pub drag_route-Keeps : (id : String) (p : WorldPoint) → Keeps (drag_route id p)
drag_route-Keeps id p r = (refl, refl)

pub set_waypoints-Keeps : (id : String) (ps : List WorldPoint) → Keeps (set_waypoints id ps)
set_waypoints-Keeps id ps r = ground arith

pub redirect-Keeps : (field : RouteEnd) (t : Station) (id : String) → Keeps (redirect field t id)
redirect-Keeps start_end t id r = (refl, refl)
redirect-Keeps finish_end t id r = (refl, refl)

pub move_station-IsTidy :
    (id : String) (p : WorldPoint) {s : LayoutWorkspace} → IsTidy s → IsTidy (move_station id p s)
unfolding move_station
move_station-IsTidy id p {s} h =
    on_draft-IsTidy (move_content id p)
      (SameRoutes-HasRoutes
        (map-SameRoutes (drag_route id p) (drag_route-Keeps id p) s.draft.routes) h.routes)
      h

pub move_found-IsTidy :
    (t : Option Station) (id : String) (axis : Axis) (value : Number) {s : LayoutWorkspace}
    → IsTidy s
    → IsTidy (move_found t id axis value s)
move_found-IsTidy none id axis value h = h
move_found-IsTidy (some t) id axis value h =
    move_station-IsTidy id (set_axis axis value (place_of t)) h

pub update_size-IsTidy :
    (axis : Axis) (value : Number) {s : LayoutWorkspace}
    → IsTidy s
    → IsTidy (update_size axis value s)
unfolding update_size
update_size-IsTidy x_axis value h = ground arith
update_size-IsTidy y_axis value h = ground arith

pub update_config-IsTidy :
    (field : ConfigField) (value : Number) {s : LayoutWorkspace}
    → IsTidy s
    → IsTidy (update_config field value s)
unfolding update_config
update_config-IsTidy robot_count value h = ground arith
update_config-IsTidy demand_interval_seconds value h = ground arith
update_config-IsTidy robot_speed_mps value h = ground arith
update_config-IsTidy charger_count value h = ground arith

pub start_route_drawing-IsTidy : {s : LayoutWorkspace} → IsTidy s → IsTidy (start_route_drawing s)
unfolding start_route_drawing
start_route_drawing-IsTidy h = ground arith

pub cancel_route_drawing-IsTidy : {s : LayoutWorkspace} → IsTidy s → IsTidy (cancel_route_drawing s)
unfolding cancel_route_drawing
cancel_route_drawing-IsTidy h = ground arith

pub append_point-IsTidy :
    (p : WorldPoint) (drawn : List WorldPoint) {s : LayoutWorkspace}
    → s.route_drawing ≡ true
    → IsTidy s
    → IsTidy (append_point p drawn s)
append_point-IsTidy p [] drawing h = ground arith
append_point-IsTidy p (q ∷ qs) drawing h = ground arith

pub add_zone_point-IsTidy :
    (p : WorldPoint) {s : LayoutWorkspace} → IsTidy s → IsTidy (add_zone_point p s)
unfolding add_zone_point
add_zone_point-IsTidy p {s} h = elim (Option-cases s.zone_drawing) [
  | inl undrawn ↦ ground arith
  | inr (d, drawn) ↦ ground (arith, length-append d.points (p ∷ []))
]

pub press_map-IsTidy : (p : WorldPoint) {s : LayoutWorkspace} → IsTidy s → IsTidy (press_map p s)
unfolding press_map add_route_point
press_map-IsTidy p {s} h =
    if-elim IsTidy s.route_drawing (λ drawing. append_point-IsTidy p s.route_draft drawing h)
      (λ _.
        if-elim IsTidy (is_drawing_zone s.zone_drawing) (λ _. add_zone_point-IsTidy p h) (λ _. h))

pub finish_route-HasRoutes :
    (id : String) (ps : List WorldPoint) (c : LayoutVersionContent)
    → HasRoutes c
    → HasRoutes (record c { routes = map (set_waypoints id ps) c.routes })
finish_route-HasRoutes id ps c h =
    SameRoutes-HasRoutes (map-SameRoutes (set_waypoints id ps) (set_waypoints-Keeps id ps) c.routes)
      h

pub visit_station-IsTidy :
    (drawn : List WorldPoint) (route : LayoutRoute) (t : Station) (id : String)
    {s : LayoutWorkspace}
    → s.route_drawing ≡ true
    → IsTidy s
    → IsTidy (visit_station drawn route t id s)
visit_station-IsTidy [] route t id drawing h = ground arith
visit_station-IsTidy (q ∷ qs) route t id {s} drawing h =
    ground (
      arith,
      finish_route-HasRoutes s.selected_route_id (q ∷ qs ++ place_of t ∷ []) s.draft h.routes,
    )

pub select_found-IsTidy :
    (route : Option LayoutRoute) (t : Option Station) (id : String) {s : LayoutWorkspace}
    → s.route_drawing ≡ true
    → IsTidy s
    → IsTidy (select_found route t id s)
select_found-IsTidy none t id drawing h = h
select_found-IsTidy (some route) none id drawing h = h
select_found-IsTidy (some route) (some t) id {s} drawing h =
    visit_station-IsTidy s.route_draft route t id drawing h

pub press_station-IsTidy :
    (id : String) {s : LayoutWorkspace} → IsTidy s → IsTidy (press_station id s)
unfolding press_station select_route_station
press_station-IsTidy id {s} h =
    if-elim IsTidy s.route_drawing
      (λ drawing. select_found-IsTidy (selected_route s) (station_of id s.draft) id drawing h)
      (λ _. h)

pub redirect_found-IsTidy :
    (t : Option Station) (index : ℕ) (field : RouteEnd) (id : String) {s : LayoutWorkspace}
    → IsTidy s
    → IsTidy (redirect_found t index field id s)
redirect_found-IsTidy none index field id h = h
redirect_found-IsTidy (some t) index field id {s} h =
    on_draft-IsTidy (λ c. record c { routes = map_at index (redirect field t id) c.routes })
      (SameRoutes-HasRoutes
        (map_at-SameRoutes index (redirect field t id) (redirect-Keeps field t id) s.draft.routes)
        h.routes)
      h

pub update_waypoint-IsTidy :
    (i j : ℕ) (axis : Axis) (value : Number) {s : LayoutWorkspace}
    → IsTidy s
    → IsTidy (update_waypoint i j axis value s)
unfolding update_waypoint
update_waypoint-IsTidy i j axis value {s} h =
    let set =
      λ (r : LayoutRoute). record r { waypoints = map_at j (set_axis axis value) r.waypoints } in
    on_draft-IsTidy (λ c. record c { routes = map_at i set c.routes })
      (SameRoutes-HasRoutes (map_at-SameRoutes i set (λ r. (refl, refl)) s.draft.routes) h.routes) h

pub remove_route-IsTidy :
    (route : Option LayoutRoute) {s : LayoutWorkspace} → IsTidy s → IsTidy (remove_route route s)
remove_route-IsTidy none h = h
remove_route-IsTidy (some route) {s} h =
    ground (arith, filter-are_distinct (λ r. not (r.id == route.id)) s.draft.routes)

pub add_between-IsTidy :
    (number_text : ℕ → String)
    → ((j k : ℕ) → number_text j ≡ number_text k → j ≡ k)
    → (kind : RouteKind) (start end : Option Station) {s : LayoutWorkspace} → IsTidy s
    → IsTidy (add_between number_text kind start end s)
add_between-IsTidy number_text distinct kind none end h = h
add_between-IsTidy number_text distinct kind (some start) none h = h
add_between-IsTidy number_text distinct kind (some start) (some end) {s} h =
    let id = new_route_id number_text kind s.draft in
    ground (
      arith,
      insert-HasRoutes s.draft (new_route id kind start end)
          (new_route_id_unused number_text distinct kind s.draft) h.routes,
    )
