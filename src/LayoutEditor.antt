-- ===== src/LayoutEditor.antt =====
-- apps/frontend/src/app/layouts/page.tsx: the layout editor, with the types of
-- components/layout/layout-zone-editor.tsx. `LayoutWorkspace` holds the component's state; what a handler
-- asks of the API and of the toasts is added to `effects`. A handler reads the state of the last
-- rendering, which is the state at the time of the event.
pub mod Stations
pub mod Routes
pub mod Zones
pub mod Saving
pub mod Inputs
pub mod Sound
pub mod Attached
pub mod Snapping
pub mod Loading
pub mod Crash
pub mod Sending
pub mod Switching
pub mod Tests
pub mod Fresh
pub mod Validation
use ev_factory_twin.Prelude.{
  ℕ, zero, suc, ◌+◌, ◌/◌, ◌*◌, String, Bool, true, false, ◌&&◌, ◌||◌, Option, none, some, List, [],
  ◌∷◌, ◌++◌, ◌==◌, map, any, if◌then◌else◌,
}
use ev_factory_twin.Prelude.Int.{ℤ, pos, negsuc, sub_ℕ, ltb_ℤ}
use ev_factory_twin.Schema.Fleet.{Number}
use ev_factory_twin.Schema.Layout.{
  WorldPoint, FactoryRoute, FactoryLayout, LayoutRoute, PolygonZone, CongestionZone,
  LayoutVersionContent, LayoutVersion, LayoutSummary,
}
use ev_factory_twin.Schema.Content.{is_valid_content}
use ev_factory_twin.Layout.{default_factory_layout, point, metres, project_layout_version}
use Prim.Native.String.{◌++◌ as ◌+++◌}

pub data ZoneKind : Type 0 where
  no_go_zones congestion_zones : ZoneKind

pub record ZoneSelection : Type 0 where
  pub kind : ZoneKind
  pub index : ℕ

pub record ZoneDrawing : Type 0 where
  pub kind : ZoneKind
  pub id : String
  pub points : List WorldPoint

-- The `"x" | "y"` of the coordinate fields.
pub data Axis : Type 0 where
  x_axis y_axis : Axis

-- What goes on when the list of layouts has come.
pub data Follow : Type 0 where
  after_mount : Follow
  after_save : String → Follow
  after_rename : Follow
  after_archive : Follow

pub data Effect : Type 0 where
  gets_layouts : Follow → Effect
  gets_layout : String → Effect
  creates_layout : String → LayoutVersionContent → Effect
  creates_version : String → LayoutVersionContent → Effect
  renames : String → String → Effect
  archives : String → Effect
  toasts_success : String → Effect
  toasts_error : String → Effect

pub record LayoutWorkspace : Type 0 where
  pub layouts : List LayoutSummary
  pub selected : Option LayoutVersion
  pub name : String
  pub draft : LayoutVersionContent
  pub busy : Bool
  pub notice : Option String
  pub selected_zone : Option ZoneSelection
  pub zone_drawing : Option ZoneDrawing
  pub route_drawing : Bool
  pub route_draft : List WorldPoint
  pub selected_route_id : String
  pub archive_confirmation_open : Bool
  pub effects : List Effect

abbrev pub perform : Effect → LayoutWorkspace → LayoutWorkspace
perform e s = record s { effects = s.effects ++ e ∷ [] }

abbrev pub notify : String → LayoutWorkspace → LayoutWorkspace
notify text s = record s { notice = some text }

abbrev pub on_draft :
    (LayoutVersionContent → LayoutVersionContent) → LayoutWorkspace → LayoutWorkspace
on_draft f s = record s { draft = f s.draft }

abbrev pub or_else : String → Option String → String
or_else fallback none = fallback
or_else fallback (some text) = text

abbrev pub initial_route : FactoryRoute → LayoutRoute
initial_route r = record {
  id = r.id;
  kind = r.kind;
  start_station_id = or_else "BATTERY_BUFFER" r.start_station_id;
  end_station_id = or_else "MARRIAGE_STATION" r.end_station_id;
  waypoints = r.waypoints;
}

abbrev pub halves : ℕ → Number
halves n = pos (500 * n)

abbrev pub door_corner : ℕ → ℕ → WorldPoint
door_corner x y = record { x = halves x; y = halves y }

abbrev pub initial_content : LayoutVersionContent
initial_content = record {
  width = default_factory_layout.width;
  height = default_factory_layout.height;
  stations = default_factory_layout.stations;
  routes = map initial_route default_factory_layout.routes;
  no_go_zones = default_factory_layout.no_go_zones;
  congestion_zones =
      record {
        id = "WAREHOUSE_PRODUCTION_DOOR";
        delay_multiplier = pos 1250;
        points = door_corner 76 35 ∷ door_corner 84 35 ∷ door_corner 84 45 ∷ door_corner 76 45 ∷ [];
      }
      ∷ [];
  config = record {
    robot_count = pos 5000;
    demand_interval_seconds = pos 8000;
    robot_speed_mps = pos 1200;
    charger_count = pos 2000;
  };
}

-- `numberValue`: the nearest multiple of half a metre, the greater one of two.
unfoldable pub number_value : Number → Number
number_value (pos n) = pos ((n + 250) / 500 * 500)
number_value (negsuc n) = sub_ℕ 0 ((n + 250) / 500 * 500)

abbrev pub set_axis : Axis → Number → WorldPoint → WorldPoint
set_axis x_axis value p = record p { x = value }
set_axis y_axis value p = record p { y = value }

-- `while (taken(label(suffix))) suffix += 1`, with fuel.
unfoldable pub fresh_suffix : (String → Bool) → (ℕ → String) → ℕ → ℕ → ℕ
fresh_suffix taken label zero k = k
fresh_suffix taken label (suc fuel) k =
    let rest = fresh_suffix taken label fuel (k + 1) in if taken (label k) then rest else k

-- One zone of either kind, as far as `zoneValidationError` looks.
abbrev pub polygon_of_congestion : CongestionZone → PolygonZone
polygon_of_congestion z = record { id = z.id; points = z.points }

abbrev pub all_zones : LayoutVersionContent → List PolygonZone
all_zones c = c.no_go_zones ++ map polygon_of_congestion c.congestion_zones

abbrev pub leaves_footprint : LayoutVersionContent → WorldPoint → Bool
leaves_footprint c p =
    ltb_ℤ p.x (pos 0) || (ltb_ℤ c.width p.x || (ltb_ℤ p.y (pos 0) || ltb_ℤ c.height p.y))

-- The loop over the zones; `ids` is the set of those seen.
unfoldable pub zone_errors_from :
    LayoutVersionContent → List String → List PolygonZone → Option String
zone_errors_from c ids [] = none
zone_errors_from c ids (z ∷ zones) =
    let rest = zone_errors_from c (z.id ∷ ids) zones in
    if any (λ id. id == z.id) ids
    then some ("Zone ID " +++ (z.id +++ " is duplicated."))
    else if any (leaves_footprint c) z.points
    then some (z.id +++ " has a point outside the factory footprint.")
    else rest

unfoldable pub zone_validation_error : LayoutVersionContent → Option String
unfolding zone_errors_from
zone_validation_error c = zone_errors_from c [] (all_zones c)

-- What the rendering makes of the draft: it throws if the projection does.
pub data Preview : Type 0 where
  no_preview : Preview
  shows : FactoryLayout → Preview
  throws : Preview

-- The projection of `contentToMap`, whose dates and author are fixed.
abbrev pub content_version : LayoutVersionContent → String → String → ℕ → LayoutVersion
content_version content id name version = record {
  content = content;
  layout_id = id;
  name = name;
  version = version;
  created_by = "00000000-0000-4000-8000-000000000000";
  created_at = "2026-01-01T00:00:00Z";
  archived_at = none;
}

abbrev pub shown : Option FactoryLayout → Preview
shown none = throws
shown (some layout) = shows layout

abbrev pub content_to_map : LayoutVersionContent → String → String → ℕ → Preview
content_to_map content id name version =
    shown (project_layout_version (content_version content id name version))

abbrev pub selected_id : Option LayoutVersion → String
selected_id none = "LAYOUT-DRAFT"
selected_id (some v) = v.layout_id

abbrev pub selected_version : Option LayoutVersion → ℕ
selected_version none = 1
selected_version (some v) = v.version

unfoldable pub preview : LayoutWorkspace → Preview
preview s =
    if is_valid_content s.draft
    then content_to_map s.draft (selected_id s.selected) s.name (selected_version s.selected)
    else no_preview

-- What the buttons wait for: the form can be saved.
unfoldable pub can_save : LayoutWorkspace → Bool
can_save s =
    is_valid_content s.draft
    && (elim (zone_validation_error s.draft) [ none ↦ true | some _ ↦ false ]
        && elim s.zone_drawing [ none ↦ true | some _ ↦ false ])

-- The state at the first rendering, and after `resetDraft`.
abbrev pub initial : LayoutWorkspace
initial = record {
  layouts = [];
  selected = none;
  name = "Battery logistics candidate";
  draft = initial_content;
  busy = false;
  notice = none;
  selected_zone = none;
  zone_drawing = none;
  route_drawing = false;
  route_draft = [];
  selected_route_id = "BATTERY_DELIVERY";
  archive_confirmation_open = false;
  effects = [];
}

unfoldable pub reset_draft : LayoutWorkspace → LayoutWorkspace
reset_draft s = record s {
  selected = none;
  name = "Battery logistics candidate";
  draft = initial_content;
  notice = none;
  selected_zone = none;
  zone_drawing = none;
  route_drawing = false;
  route_draft = [];
  selected_route_id = "BATTERY_DELIVERY";
}
