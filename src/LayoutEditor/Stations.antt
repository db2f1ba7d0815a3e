-- ===== src/LayoutEditor/Stations.antt =====
-- The stations, the footprint and the runtime configuration in app/layouts/page.tsx.
use ev_factory_twin.Prelude.{
  ℕ, ◌+◌, String, Bool, ◌&&◌, Option, none, some, ◌==◌, map, find, beq, if◌then◌else◌, length,
}
use ev_factory_twin.Prelude.Index.{map_from}
use ev_factory_twin.Schema.Fleet.{Number}
use ev_factory_twin.Schema.Layout.{WorldPoint, Station, LayoutRoute, LayoutVersionContent}
use ev_factory_twin.Layout.{place_of}
use ev_factory_twin.LayoutEditor.{
  LayoutWorkspace, Axis, x_axis, y_axis, on_draft, number_value, set_axis,
}

abbrev pub place_station : String → WorldPoint → Station → Station
place_station id p s = if s.id == id then record s { x = p.x; y = p.y } else s

-- The waypoints of a route of `n` points, after a move of one or both of its stations.
abbrev pub move_end : Bool → Bool → ℕ → WorldPoint → ℕ → WorldPoint → WorldPoint
move_end starts ends n p i waypoint =
    if beq i 0 && starts then p else if beq (i + 1) n && ends then p else waypoint

abbrev pub drag_route : String → WorldPoint → LayoutRoute → LayoutRoute
drag_route id p r = record r {
  waypoints =
      map_from 0
        (move_end (r.start_station_id == id) (r.end_station_id == id) (length r.waypoints) p)
        r.waypoints;
}

abbrev pub move_content : String → WorldPoint → LayoutVersionContent → LayoutVersionContent
move_content id p c = record c {
  stations = map (place_station id p) c.stations;
  routes = map (drag_route id p) c.routes;
}

unfoldable pub move_station : String → WorldPoint → LayoutWorkspace → LayoutWorkspace
move_station id p s = on_draft (move_content id p) s

abbrev pub move_found : Option Station → String → Axis → Number → LayoutWorkspace → LayoutWorkspace
move_found none id axis value s = s
move_found (some t) id axis value s = move_station id (set_axis axis value (place_of t)) s

unfoldable pub update_station : String → Axis → Number → LayoutWorkspace → LayoutWorkspace
update_station id axis value s =
    move_found (find (λ t. t.id == id) s.draft.stations) id axis value s

-- The two fields of the footprint: width for x, height for y.
unfoldable pub update_size : Axis → Number → LayoutWorkspace → LayoutWorkspace
update_size x_axis value s = on_draft (λ c. record c { width = number_value value }) s
update_size y_axis value s = on_draft (λ c. record c { height = number_value value }) s

pub data ConfigField : Type 0 where
  robot_count demand_interval_seconds robot_speed_mps charger_count : ConfigField

abbrev pub set_config : ConfigField → Number → LayoutVersionContent → LayoutVersionContent
set_config robot_count value c = record c { config = record c.config { robot_count = value } }
set_config demand_interval_seconds value c = record c {
  config = record c.config { demand_interval_seconds = value };
}
set_config robot_speed_mps value c = record c {
  config = record c.config { robot_speed_mps = value };
}
set_config charger_count value c = record c { config = record c.config { charger_count = value } }

unfoldable pub update_config : ConfigField → Number → LayoutWorkspace → LayoutWorkspace
update_config field value s = on_draft (set_config field value) s
