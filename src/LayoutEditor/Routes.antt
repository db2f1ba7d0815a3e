-- ===== src/LayoutEditor/Routes.antt =====
-- The routes in app/layouts/page.tsx: drawing, adding and removing them, and the fields of their points.
-- `number_text` prints a number in a template.
use ev_factory_twin.Prelude.{
  ℕ, ◌+◌, ◌-◌, String, Bool, true, false, not, Option, none, some, List, [], ◌∷◌, ◌++◌, ◌==◌, map,
  find, filter, any, head?, if◌then◌else◌, length,
}
use ev_factory_twin.Prelude.Index.{map_at}
use ev_factory_twin.Schema.Fleet.{Number}
use ev_factory_twin.Schema.Layout.{
  WorldPoint, Station, StationType, battery_buffer, marriage_station, charging_station, RouteKind,
  delivery, support, LayoutRoute, LayoutVersionContent,
}
use ev_factory_twin.Layout.{place_of, same_type}
use ev_factory_twin.LayoutEditor.{LayoutWorkspace, Axis, on_draft, notify, fresh_suffix, set_axis}
use Prim.Native.String.{◌++◌ as ◌+++◌}

-- Which end of a route a field is about.
pub data RouteEnd : Type 0 where
  start_end finish_end : RouteEnd

abbrev pub selected_route : LayoutWorkspace → Option LayoutRoute
selected_route s = find (λ r. r.id == s.selected_route_id) s.draft.routes

abbrev pub station_of : String → LayoutVersionContent → Option Station
station_of id c = find (λ t. t.id == id) c.stations

abbrev pub stop_drawing : LayoutWorkspace → LayoutWorkspace
stop_drawing s = record s { route_drawing = false; route_draft = [] }

-- The button that stops the drawing.
unfoldable pub cancel_route_drawing : LayoutWorkspace → LayoutWorkspace
cancel_route_drawing s = record (stop_drawing s) { notice = none }

unfoldable pub start_route_drawing : LayoutWorkspace → LayoutWorkspace
start_route_drawing s = elim (selected_route s) [
  | none ↦ s
  | some _ ↦ record s { route_drawing = true; route_draft = []; zone_drawing = none; notice = none }
]

abbrev pub append_point : WorldPoint → List WorldPoint → LayoutWorkspace → LayoutWorkspace
append_point p [] s = notify "Select the configured start station before adding waypoints." s
append_point p (q ∷ qs) s = record s { route_draft = q ∷ qs ++ p ∷ [] }

unfoldable pub add_route_point : WorldPoint → LayoutWorkspace → LayoutWorkspace
add_route_point p s = append_point p s.route_draft s

abbrev pub set_waypoints : String → List WorldPoint → LayoutRoute → LayoutRoute
set_waypoints id waypoints r = if r.id == id then record r { waypoints = waypoints } else r

-- The drawing ends at a station: the selected route gets the points.
abbrev pub finish_route : LayoutRoute → List WorldPoint → LayoutWorkspace → LayoutWorkspace
finish_route route waypoints s =
    notify (route.id +++ " updated. Save it as an immutable version.") (
      stop_drawing (
        on_draft
          (λ c. record c { routes = map (set_waypoints s.selected_route_id waypoints) c.routes })
          s))

-- A click on a station, with the points drawn so far.
abbrev pub visit_station :
    List WorldPoint → LayoutRoute → Station → String → LayoutWorkspace → LayoutWorkspace
visit_station [] route t station_id s =
    if not (station_id == route.start_station_id)
    then notify ("Start at " +++ (route.start_station_id +++ ".")) s
    else record s { route_draft = place_of t ∷ []; notice = none }
visit_station (q ∷ qs) route t station_id s =
    if not (station_id == route.end_station_id)
    then notify ("Finish at " +++ (route.end_station_id +++ ".")) s
    else finish_route route (q ∷ qs ++ place_of t ∷ []) s

abbrev pub select_found :
    Option LayoutRoute → Option Station → String → LayoutWorkspace → LayoutWorkspace
select_found none t station_id s = s
select_found (some route) none station_id s = s
select_found (some route) (some t) station_id s = visit_station s.route_draft route t station_id s

unfoldable pub select_route_station : String → LayoutWorkspace → LayoutWorkspace
select_route_station station_id s =
    select_found (selected_route s) (station_of station_id s.draft) station_id s

abbrev pub same_kind : RouteKind → RouteKind → Bool
same_kind delivery delivery = true
same_kind support support = true
same_kind _ _ = false

abbrev pub start_type : RouteKind → StationType
start_type delivery = battery_buffer
start_type support = charging_station

abbrev pub end_type : RouteKind → StationType
end_type delivery = marriage_station
end_type support = battery_buffer

abbrev pub id_prefix : RouteKind → String
id_prefix delivery = "BATTERY_DELIVERY"
id_prefix support = "SUPPORT_ROUTE"

abbrev pub of_kind : RouteKind → LayoutVersionContent → List LayoutRoute
of_kind kind c = filter (λ r. same_kind r.kind kind) c.routes

abbrev pub end_used : RouteKind → LayoutVersionContent → Station → Bool
end_used kind c t = any (λ r. r.end_station_id == t.id) (of_kind kind c)

abbrev pub or_first : Option Station → List Station → Option Station
or_first none destinations = head? destinations
or_first (some t) destinations = some t

-- `destinations.find((station) => !usedDestinations.has(station.id)) ?? destinations[0]`
abbrev pub choose_end : RouteKind → LayoutVersionContent → List Station → Option Station
choose_end kind c destinations =
    or_first (find (λ t. not (end_used kind c t)) destinations) destinations

abbrev pub new_route : String → RouteKind → Station → Station → LayoutRoute
new_route id kind start end = record {
  id = id;
  kind = kind;
  start_station_id = start.id;
  end_station_id = end.id;
  waypoints = place_of start ∷ place_of end ∷ [];
}

abbrev pub has_route : LayoutVersionContent → String → Bool
has_route c id = any (λ r. r.id == id) c.routes

abbrev pub insert_route : LayoutRoute → LayoutWorkspace → LayoutWorkspace
insert_route r s =
    notify (r.id +++ " added. Draw its safe path on the map.")
      (record (stop_drawing (on_draft (λ c. record c { routes = c.routes ++ r ∷ [] }) s)) {
        selected_route_id = r.id;
      })

module _ (number_text : ℕ → String) where
  abbrev pub numbered : String → ℕ → String
  numbered prefix k = prefix +++ ("_" +++ number_text k)

  -- The loop asks for each number at most once more than there are routes.
  unfoldable pub new_route_id : RouteKind → LayoutVersionContent → String
  unfolding fresh_suffix
  new_route_id kind c =
      let first = length (of_kind kind c) + 1 in
      let label = numbered (id_prefix kind) in
      label (fresh_suffix (has_route c) label (length c.routes + 1) first)

  abbrev pub add_between :
      RouteKind → Option Station → Option Station → LayoutWorkspace → LayoutWorkspace
  add_between kind none end s = s
  add_between kind (some start) none s = s
  add_between kind (some start) (some end) s =
      insert_route (new_route (new_route_id kind s.draft) kind start end) s

  unfoldable pub add_route : RouteKind → LayoutWorkspace → LayoutWorkspace
  add_route kind s =
      let destinations = filter (λ t. same_type t.type (end_type kind)) s.draft.stations in
      add_between kind (find (λ t. same_type t.type (start_type kind)) s.draft.stations)
        (choose_end kind s.draft destinations) s

abbrev pub is_delivery : LayoutRoute → Bool
is_delivery r = same_kind r.kind delivery

abbrev pub remove_route : Option LayoutRoute → LayoutWorkspace → LayoutWorkspace
remove_route none s = s
remove_route (some route) s =
    let remaining = filter (λ r. not (r.id == route.id)) s.draft.routes in
    if not (any is_delivery remaining)
    then notify "A layout must keep at least one delivery route." s
    else notify (route.id +++ " removed from the draft.")
        (record (stop_drawing (on_draft (λ c. record c { routes = remaining }) s)) {
          selected_route_id = elim (head? remaining) [ none ↦ "" | some r ↦ r.id ];
        })

unfoldable pub remove_selected_route : LayoutWorkspace → LayoutWorkspace
remove_selected_route s = remove_route (selected_route s) s

-- `waypoints.map((point, index) => index === waypointIndex ? … : point)` at an end of the route; of no
-- points, none is the last.
abbrev pub place_end : RouteEnd → WorldPoint → List WorldPoint → List WorldPoint
place_end start_end p waypoints = map_at 0 (λ _. p) waypoints
place_end finish_end p waypoints = map_at (length waypoints - 1) (λ _. p) waypoints

abbrev pub set_end : RouteEnd → String → LayoutRoute → LayoutRoute
set_end start_end id r = record r { start_station_id = id }
set_end finish_end id r = record r { end_station_id = id }

abbrev pub redirect : RouteEnd → Station → String → LayoutRoute → LayoutRoute
redirect field t id r = record (set_end field id r) {
  waypoints = place_end field (place_of t) r.waypoints;
}

abbrev pub redirect_found :
    Option Station → ℕ → RouteEnd → String → LayoutWorkspace → LayoutWorkspace
redirect_found none index field id s = s
redirect_found (some t) index field id s =
    on_draft (λ c. record c { routes = map_at index (redirect field t id) c.routes }) s

unfoldable pub update_route_endpoint : ℕ → RouteEnd → String → LayoutWorkspace → LayoutWorkspace
update_route_endpoint index field station_id s =
    redirect_found (station_of station_id s.draft) index field station_id s

unfoldable pub update_waypoint : ℕ → ℕ → Axis → Number → LayoutWorkspace → LayoutWorkspace
update_waypoint route_index point_index axis value s =
    on_draft
      (λ c. record c {
        routes =
            map_at route_index
              (λ (r : LayoutRoute). record r {
                waypoints = map_at point_index (set_axis axis value) r.waypoints;
              })
              c.routes;
      })
      s

-- A click on a route's entry.
unfoldable pub select_route : String → LayoutWorkspace → LayoutWorkspace
select_route id s = record s { selected_route_id = id }
