-- ===== src/Layout.antt =====
-- apps/frontend/src/lib/factory-layout.ts, lib/layout-projection.ts, and the parsing of a
-- layout by schemas/factory.ts. Lengths are in thousandths of a metre, lengths in the
-- scene in halves of that.
pub mod Extent
pub mod Applied
pub mod Live
pub mod Tests
use ev_factory_twin.Prelude.{
  ℕ, ◌+◌, ◌*◌, String, Bool, true, false, not, ◌&&◌, ◌||◌, Option, none, some, List, [], ◌∷◌, ◌++◌,
  map, if◌then◌else◌, head?, filter, find,
}
use ev_factory_twin.Prelude.Int.{ℤ, pos, ltb_ℤ, leb_ℤ, min_ℤ, max_ℤ, ◌+ℤ◌, ◌-ℤ◌}
use ev_factory_twin.Prelude.Sort.{sort}
use ev_factory_twin.Prelude.Newest.{newer}
use ev_factory_twin.Schema.Fleet.{Number}
use ev_factory_twin.Schema.Layout.{
  WorldPoint, Station, StationType, battery_buffer, marriage_station, charging_station,
  FactoryRoute, RouteKind, delivery, support, PolygonZone, FactoryLayout, LayoutRoute,
  LayoutVersion,
}
use ev_factory_twin.Schema.Factory.{trim_layout, has_valid_fields}
use ev_factory_twin.Schema.Planning.{Scenario, applied}
use ev_factory_twin.Workflow.{is_applied}

pub record WorldRect : Type 0 where
  pub x0 : Number
  pub y0 : Number
  pub x1 : Number
  pub y1 : Number

pub record ScenePoint : Type 0 where
  pub x : Number
  pub y : Number
  pub z : Number

abbrev pub place_of : Station → WorldPoint
place_of s = record { x = s.x; y = s.y }

abbrev pub waypoints_of : List FactoryRoute → List WorldPoint
waypoints_of [] = []
waypoints_of (r ∷ rs) = r.waypoints ++ waypoints_of rs

abbrev pub corners_of : List PolygonZone → List WorldPoint
corners_of [] = []
corners_of (z ∷ zs) = z.points ++ corners_of zs

-- The points that `superRefine` looks at.
abbrev pub layout_points : FactoryLayout → List WorldPoint
layout_points layout =
    map place_of layout.stations ++ (waypoints_of layout.routes ++ corners_of layout.no_go_zones)

abbrev pub is_outside : FactoryLayout → WorldPoint → Bool
is_outside layout p =
    ltb_ℤ p.x (pos 0) || (ltb_ℤ layout.width p.x || (ltb_ℤ p.y (pos 0) || ltb_ℤ layout.height p.y))

-- One issue for each point outside the footprint; the layout is refused if there is any.
unfoldable pub layout_issues : FactoryLayout → List WorldPoint
layout_issues layout = filter (is_outside layout) (layout_points layout)

abbrev pub metres : ℕ → Number
metres n = pos (1000 * n)

abbrev pub point : ℕ → ℕ → WorldPoint
point x y = record { x = metres x; y = metres y }

abbrev pub station : String → StationType → ℕ → ℕ → Station
station id type x y = record { id = id; type = type; x = metres x; y = metres y }

abbrev pub default_factory_layout : FactoryLayout
default_factory_layout = record {
  id = "LAYOUT-DEFAULT";
  name = "EV battery intralogistics plant";
  version = 3;
  width = metres 120;
  height = metres 40;
  stations =
      station "BATTERY_BUFFER" battery_buffer 32 29
      ∷ station "MARRIAGE_STATION" marriage_station 52 6
      ∷ station "MARRIAGE_STATION_2" marriage_station 82 8
      ∷ station "CHARGING_STATION" charging_station 32 11
      ∷ [];
  routes =
      record {
        id = "BATTERY_DELIVERY";
        kind = delivery;
        start_station_id = some "BATTERY_BUFFER";
        end_station_id = some "MARRIAGE_STATION";
        waypoints = point 32 29 ∷ point 32 20 ∷ point 40 20 ∷ point 52 20 ∷ point 52 6 ∷ [];
      }
      ∷ record {
        id = "BATTERY_DELIVERY_LONG";
        kind = delivery;
        start_station_id = some "BATTERY_BUFFER";
        end_station_id = some "MARRIAGE_STATION_2";
        waypoints =
            point 32 29 ∷ point 32 20 ∷ point 40 20 ∷ point 60 20 ∷ point 82 20 ∷ point 82 8 ∷ [];
      }
      ∷ record {
        id = "CHARGER_LINK";
        kind = support;
        start_station_id = some "CHARGING_STATION";
        end_station_id = some "BATTERY_BUFFER";
        waypoints = point 32 11 ∷ point 32 20 ∷ point 32 29 ∷ [];
      }
      ∷ [];
  no_go_zones =
      record {
        id = "GIGA_PRESS_CLEARANCE";
        points = point 44 27 ∷ point 58 27 ∷ point 58 37 ∷ point 44 37 ∷ [];
      }
      ∷ [];
}

abbrev pub twice : Number → Number
twice n = n +ℤ n

-- Factory metres (y = north) to scene units (y = up, floor centred on the origin).
unfoldable pub to_scene : WorldPoint → FactoryLayout → Number → ScenePoint
to_scene p layout height = record {
  x = twice p.x -ℤ layout.width;
  y = twice height;
  z = layout.height -ℤ twice p.y;
}

abbrev pub same_type : StationType → StationType → Bool
same_type battery_buffer battery_buffer = true
same_type marriage_station marriage_station = true
same_type charging_station charging_station = true
same_type _ _ = false

-- `none` is the error that the layout lacks the type.
unfoldable pub station_by_type : FactoryLayout → StationType → Option Station
station_by_type layout type = find (λ s. same_type s.type type) layout.stations

-- `Math.min(...xs)` and `Math.max(...xs)` of a list that is not empty
abbrev pub least : Number → List Number → Number
least n [] = n
least n (m ∷ ms) = min_ℤ n (least m ms)

abbrev pub greatest : Number → List Number → Number
greatest n [] = n
greatest n (m ∷ ms) = max_ℤ n (greatest m ms)

-- The bounds of a first point and others; no caller has none.
unfoldable pub bounds_for_points : WorldPoint → List WorldPoint → WorldRect
bounds_for_points p ps = record {
  x0 = least p.x (map (λ (q : WorldPoint). q.x) ps);
  y0 = least p.y (map (λ (q : WorldPoint). q.y) ps);
  x1 = greatest p.x (map (λ (q : WorldPoint). q.x) ps);
  y1 = greatest p.y (map (λ (q : WorldPoint). q.y) ps);
}

-- In halves of a thousandth.
unfoldable pub rect_center : WorldRect → WorldPoint
rect_center r = record { x = r.x0 +ℤ r.x1; y = r.y0 +ℤ r.y1 }

pub record RectSize : Type 0 where
  pub width : Number
  pub depth : Number

unfoldable pub rect_size : WorldRect → RectSize
rect_size r = record { width = r.x1 -ℤ r.x0; depth = r.y1 -ℤ r.y0 }

-- `LANE_WIDTH`, `BUFFER_SLOT_COUNT` and `CHARGER_BAY_COUNT`
abbrev pub lane_width : Number
lane_width = pos 1800

abbrev pub buffer_slot_count : ℕ
buffer_slot_count = 6

abbrev pub charger_bay_count : ℕ
charger_bay_count = 3

unfoldable pub rect_contains : WorldRect → WorldPoint → Bool
rect_contains r p = leb_ℤ r.x0 p.x && (leb_ℤ p.x r.x1 && (leb_ℤ r.y0 p.y && leb_ℤ p.y r.y1))

abbrev pub project_route : LayoutRoute → FactoryRoute
project_route r = record {
  id = r.id;
  kind = r.kind;
  start_station_id = some r.start_station_id;
  end_station_id = some r.end_station_id;
  waypoints = r.waypoints;
}

-- The schema throws if there is an issue.
abbrev pub accept : List WorldPoint → FactoryLayout → Option FactoryLayout
accept [] layout = some layout
accept (_ ∷ _) layout = none

-- `factoryLayoutSchema.parse`: `none` is the error that it throws.
unfoldable pub parse_layout : FactoryLayout → Option FactoryLayout
unfolding layout_issues
parse_layout layout =
    let trimmed = trim_layout layout in
    if has_valid_fields trimmed then accept (layout_issues trimmed) trimmed else none

unfoldable pub project_layout_version : LayoutVersion → Option FactoryLayout
unfolding parse_layout
project_layout_version v = parse_layout (record {
  id = v.layout_id;
  name = v.name;
  version = v.version;
  width = v.content.width;
  height = v.content.height;
  stations = v.content.stations;
  routes = map project_route v.content.routes;
  no_go_zones = v.content.no_go_zones;
})

module _ (date_parse : String → Option ℕ) where
  -- `Date.parse(scenario.applied_at ?? scenario.created_at)`
  abbrev pub applied_date : Scenario → Option ℕ
  applied_date s = elim s.applied_at [ none ↦ date_parse s.created_at | some at ↦ date_parse at ]

  unfoldable pub latest_applied_scenario : List Scenario → Option Scenario
  latest_applied_scenario scenarios =
      head? (sort (newer applied_date) (filter (λ s. is_applied s.status) scenarios))
