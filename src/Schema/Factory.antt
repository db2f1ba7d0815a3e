-- ===== src/Schema/Factory.antt =====
-- What apps/frontend/src/schemas/factory.ts does with a layout's fields: `factoryLayoutSchema` without
-- its `superRefine`.
use Prim.Native.String.{String}
use ev_factory_twin.Prelude.{Bool, true, not, ◌&&◌, Option, none, some, map, every, leb, length}
use ev_factory_twin.Prelude.Text.{trim, is_empty}
use ev_factory_twin.Prelude.Int.{pos, ltb_ℤ}
use ev_factory_twin.Schema.Layout.{Station, FactoryRoute, PolygonZone, FactoryLayout}

abbrev pub trim_station : Station → Station
trim_station t = record t { id = trim t.id }

abbrev pub trim_reference : Option String → Option String
trim_reference none = none
trim_reference (some id) = some (trim id)

abbrev pub trim_route : FactoryRoute → FactoryRoute
trim_route r = record r {
  id = trim r.id;
  start_station_id = trim_reference r.start_station_id;
  end_station_id = trim_reference r.end_station_id;
}

abbrev pub trim_zone : PolygonZone → PolygonZone
trim_zone z = record z { id = trim z.id }

-- The schema's output.
abbrev pub trim_layout : FactoryLayout → FactoryLayout
trim_layout l = record l {
  id = trim l.id;
  name = trim l.name;
  stations = map trim_station l.stations;
  routes = map trim_route l.routes;
  no_go_zones = map trim_zone l.no_go_zones;
}

abbrev pub is_named : String → Bool
is_named s = not (is_empty s)

-- `.optional()`
abbrev pub is_named_if_any : Option String → Bool
is_named_if_any none = true
is_named_if_any (some id) = is_named id

abbrev pub is_factory_route : FactoryRoute → Bool
is_factory_route r =
    is_named r.id
    && (is_named_if_any r.start_station_id
        && (is_named_if_any r.end_station_id && leb 2 (length r.waypoints)))

-- The checks of the fields, on the trimmed texts.
unfoldable pub has_valid_fields : FactoryLayout → Bool
has_valid_fields l =
    is_named l.id
    && (is_named l.name
        && (leb 1 l.version
            && (ltb_ℤ (pos 0) l.width
                && (ltb_ℤ (pos 0) l.height
                    && (every (λ (t : Station). is_named t.id) l.stations
                        && (every is_factory_route l.routes
                            && every (λ (z : PolygonZone). is_named z.id && leb 3 (length z.points))
                                l.no_go_zones))))))
