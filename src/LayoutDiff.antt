-- ===== src/LayoutDiff.antt =====
-- apps/frontend/src/lib/layout-diff.ts: what a layout revision changes. `hypot` is `Math.hypot`, in
-- thousandths of a metre, and `number_text` prints a number in a template.
pub mod Unchanged
pub mod Reported
pub mod Tests
use ev_factory_twin.Prelude.{
  ℕ, ◌+◌, ◌*◌, ◌/◌, String, Bool, true, false, not, ◌&&◌, ◌||◌, Option, none, some, List, [], ◌∷◌,
  map, ◌==◌, beq, ltb, if◌then◌else◌, length, any,
}
use ev_factory_twin.Prelude.Dict.{lookup, from_entries}
use ev_factory_twin.Prelude.Int.{ℤ, pos, beq_ℤ, ◌-ℤ◌}
use ev_factory_twin.Schema.Fleet.{Number}
use ev_factory_twin.Schema.Layout.{
  WorldPoint, Station, StationType, battery_buffer, marriage_station, charging_station, PolygonZone,
  LayoutRoute, CongestionZone, LayoutRuntimeConfig, LayoutVersionContent,
}
use mathlib.Core.List.{◌++◌ as ◌+++◌}
use Prim.Native.String.{◌++◌}

pub record LayoutChange : Type 0 where
  pub label : String
  pub detail : String

pub record Zone : Type 0 where
  pub id : String
  pub points : List WorldPoint
  pub delay_multiplier : Option Number

abbrev pub zone_of_polygon : PolygonZone → Zone
zone_of_polygon z = record { id = z.id; points = z.points; delay_multiplier = none }

abbrev pub zone_of_congestion : CongestionZone → Zone
zone_of_congestion z = record {
  id = z.id;
  points = z.points;
  delay_multiplier = some z.delay_multiplier;
}

abbrev pub change : String → String → LayoutChange
change label detail = record { label = label; detail = detail }

-- `Math.round(value * 100) / 100`
abbrev pub metres : ℕ → Number
metres value = pos ((value + 5) / 10 * 10)

unfoldable pub same_path : List WorldPoint → List WorldPoint → Bool
same_path [] [] = true
same_path (p ∷ ps) (q ∷ qs) = let rest = same_path ps qs in beq_ℤ p.x q.x && (beq_ℤ p.y q.y && rest)
same_path [] (q ∷ qs) = false
same_path (p ∷ ps) [] = false

abbrev pub type_text : StationType → String
type_text battery_buffer = "BATTERY_BUFFER"
type_text marriage_station = "MARRIAGE_STATION"
type_text charging_station = "CHARGING_STATION"

-- `left !== right` on delays of which each may be missing
abbrev pub same_delay : Option Number → Option Number → Bool
same_delay none none = true
same_delay (some a) (some b) = beq_ℤ a b
same_delay _ _ = false

module _ {A : Type 0} where
  -- `new Map(xs.map((x) => [x.id, x])).get(key)`
  abbrev pub get_by : (A → String) → List A → String → Option A
  get_by id xs key = lookup key (from_entries (map (λ x. (id x, x)) xs))

  -- A loop that pushes what each member gives.
  abbrev pub collect : (A → List LayoutChange) → List A → List LayoutChange
  collect f [] = []
  collect f (x ∷ xs) = f x +++ collect f xs

  -- The second loop: the members that the candidate has no longer.
  abbrev pub removed : String → (A → String) → List A → List A → List LayoutChange
  removed label id current candidate =
      collect (λ x. if any (λ y. id y == id x) candidate then [] else change label (id x) ∷ [])
        current

module _ (hypot : Number → Number → ℕ) (number_text : Number → String) where
  abbrev pub delay_text : Option Number → String
  delay_text none = "undefined"
  delay_text (some d) = number_text d

  abbrev pub zone_change : String → Option Zone → Zone → List LayoutChange
  zone_change kind none zone = change (kind ++ " added") zone.id ∷ []
  zone_change kind (some previous) zone =
      let delay =
        zone.id
        ++ (": ×"
            ++ (delay_text previous.delay_multiplier
                ++ (" → ×" ++ delay_text zone.delay_multiplier))) in
      (if same_path previous.points zone.points
        then []
        else change (kind ++ " reshaped") zone.id ∷ [])
      +++ (if same_delay previous.delay_multiplier zone.delay_multiplier
          then []
          else change (kind ++ " delay changed") delay ∷ [])

  unfoldable pub diff_zones : String → List Zone → List Zone → List LayoutChange
  diff_zones kind current candidate =
      collect (λ z. zone_change kind (get_by (λ (y : Zone). y.id) current z.id) z) candidate
      +++ removed (kind ++ " removed") (λ z. z.id) current candidate

  abbrev pub station_change : Option Station → Station → List LayoutChange
  station_change none station =
      change "Station added" (station.id ++ (" · " ++ type_text station.type)) ∷ []
  station_change (some previous) station =
      let distance = hypot (station.x -ℤ previous.x) (station.y -ℤ previous.y) in
      if ltb 0 distance
      then change "Station moved"
          (station.id ++ (" by " ++ (number_text (metres distance) ++ " m")))
        ∷ []
      else []

  unfoldable pub diff_stations : List Station → List Station → List LayoutChange
  diff_stations current candidate =
      collect (λ s. station_change (get_by (λ (t : Station). t.id) current s.id) s) candidate
      +++ removed "Station removed" (λ s. s.id) current candidate

  abbrev pub ends : LayoutRoute → String
  ends r = r.start_station_id ++ (" → " ++ r.end_station_id)

  abbrev pub count_text : List WorldPoint → String
  count_text ps = number_text (pos (1000 * length ps))

  abbrev pub route_change : Option LayoutRoute → LayoutRoute → List LayoutChange
  route_change none route = change "Route added" (route.id ++ (" · " ++ ends route)) ∷ []
  route_change (some previous) route =
      if not (previous.start_station_id == route.start_station_id)
        || not (previous.end_station_id == route.end_station_id)
      then change "Route endpoints changed"
          (route.id ++ (": " ++ (ends previous ++ (" becomes " ++ ends route))))
        ∷ []
      else if same_path previous.waypoints route.waypoints
      then []
      else change "Route rerouted" (
          route.id
          ++ (": "
              ++ (count_text previous.waypoints
                  ++ (" → " ++ (count_text route.waypoints ++ " waypoints")))))
        ∷ []

  unfoldable pub diff_routes : List LayoutRoute → List LayoutRoute → List LayoutChange
  diff_routes current candidate =
      collect (λ r. route_change (get_by (λ (q : LayoutRoute). q.id) current r.id) r) candidate
      +++ removed "Route removed" (λ r. r.id) current candidate

  abbrev pub config_change : String → Number → Number → List LayoutChange
  config_change label before after =
      if beq_ℤ before after
      then []
      else change label (number_text before ++ (" → " ++ number_text after)) ∷ []

  unfoldable pub diff_config : LayoutRuntimeConfig → LayoutRuntimeConfig → List LayoutChange
  diff_config a b =
      config_change "Robot count" a.robot_count b.robot_count
      +++ (config_change "Demand interval (s)" a.demand_interval_seconds b.demand_interval_seconds
          +++ (config_change "Robot speed (m/s)" a.robot_speed_mps b.robot_speed_mps
              +++ config_change "Charger count" a.charger_count b.charger_count))

  abbrev pub size_text : LayoutVersionContent → String
  size_text c = number_text c.width ++ ("×" ++ (number_text c.height ++ " m"))

  unfoldable pub diff_footprint : LayoutVersionContent → LayoutVersionContent → List LayoutChange
  diff_footprint current candidate =
      if not (beq_ℤ current.width candidate.width) || not (beq_ℤ current.height candidate.height)
      then change "Factory footprint" (size_text current ++ (" → " ++ size_text candidate)) ∷ []
      else []

  unfoldable pub diff_layout_content :
      LayoutVersionContent → LayoutVersionContent → List LayoutChange
  unfolding diff_footprint diff_stations diff_routes diff_zones diff_config
  diff_layout_content current candidate =
      diff_footprint current candidate
      +++ (diff_stations current.stations candidate.stations
          +++ (diff_routes current.routes candidate.routes
              +++ (diff_zones "No-go zone" (map zone_of_polygon current.no_go_zones)
                    (map zone_of_polygon candidate.no_go_zones)
                  +++ (diff_zones "Congestion zone"
                        (map zone_of_congestion current.congestion_zones)
                        (map zone_of_congestion candidate.congestion_zones)
                      +++ diff_config current.config candidate.config))))
