-- ===== src/ScenarioWorkspace/Form.antt =====
-- What apps/frontend/src/components/scenarios/scenario-run-form.tsx offers: `scenarioDefaults`.
use Prim.Native.Char.{code}
use Prim.Native.String.{String, ◌++◌ as ◌+++◌}
use ev_factory_twin.Prelude.{
  ℕ, ◌*◌, ◌-◌, Bool, true, false, Option, none, some, List, leb, ◌==◌, any, find, if◌then◌else◌,
}
use ev_factory_twin.Prelude.Int.{pos, min_ℤ, max_ℤ}
use ev_factory_twin.Schema.Fleet.{Number}
use ev_factory_twin.Schema.Layout.{RouteKind, delivery, support, LayoutRoute, LayoutVersion}
use ev_factory_twin.Schema.Planning.{Scenario}
use ev_factory_twin.Schema.Request.{ScenarioRunRequest}

abbrev pub is_delivery : RouteKind → Bool
is_delivery delivery = true
is_delivery support = false

abbrev pub id_or : String → Option LayoutRoute → String
id_or text none = text
id_or text (some r) = r.id

-- `routes.find((route) => route.kind === "DELIVERY")?.id ?? text`
abbrev pub first_delivery : String → List LayoutRoute → String
first_delivery text routes = id_or text (find (λ (r : LayoutRoute). is_delivery r.kind) routes)

-- `slice(0, units)` in UTF-16 units; half of a pair is left out.
unfoldable pub slice_to : ℕ → String → String
slice_to units String.[] = String.[]
slice_to units (String.◌∷◌ c s) =
    let size : ℕ = if leb 0x10000 (code c) then 2 else 1 in
    let rest = slice_to (units - size) s in if leb size units then String.◌∷◌ c rest else String.[]

-- A whole number in thousandths.
abbrev pub whole : ℕ → Number
whole n = pos (1000 * n)

abbrev pub revised_route : Scenario → Option LayoutVersion → String
revised_route source none = source.config.route_id
revised_route source (some v) =
    if any (λ (r : LayoutRoute). r.id == source.config.route_id) v.content.routes
    then source.config.route_id
    else first_delivery source.config.route_id v.content.routes

abbrev pub layout_id_or : String → Option LayoutVersion → String
layout_id_or text none = text
layout_id_or text (some v) = v.layout_id

abbrev pub version_or : ℕ → Option LayoutVersion → ℕ
version_or n none = n
version_or n (some v) = v.version

abbrev pub revision_defaults : Scenario → Option LayoutVersion → ScenarioRunRequest
unfolding slice_to
revision_defaults source layout = record {
  name = slice_to 80 (source.name +++ "-revision");
  layout_id = layout_id_or source.config.layout_id layout;
  layout_version = whole (version_or source.config.layout_version layout);
  route_id = revised_route source layout;
  num_robots = whole source.config.num_robots;
  num_tasks = whole source.config.num_tasks;
  task_arrival_interval = source.config.task_arrival_interval;
  travel_time = source.config.travel_time;
  loading_time = source.config.loading_time;
  simulation_time = source.config.simulation_time;
  robot_speed_mps = source.config.robot_speed_mps;
  charger_count = whole source.config.charger_count;
  revision_of = some source.id;
}

-- `Math.min(60, Math.max(1, seconds))`
abbrev pub clamped_interval : Number → Number
clamped_interval seconds = min_ℤ (pos 60000) (max_ℤ (pos 1000) seconds)

abbrev pub blank_defaults : ScenarioRunRequest
blank_defaults = record {
  name = "candidate-01";
  layout_id = "";
  layout_version = whole 1;
  route_id = "";
  num_robots = whole 2;
  num_tasks = whole 500;
  task_arrival_interval = clamped_interval (whole 5);
  travel_time = whole 30;
  loading_time = whole 10;
  simulation_time = whole 3600;
  robot_speed_mps = whole 1;
  charger_count = whole 1;
  revision_of = none;
}

abbrev pub layout_defaults : Option LayoutVersion → ScenarioRunRequest
layout_defaults none = blank_defaults
layout_defaults (some v) = record blank_defaults {
  layout_id = v.layout_id;
  layout_version = whole v.version;
  route_id = first_delivery "" v.content.routes;
  num_robots = v.content.config.robot_count;
  task_arrival_interval = clamped_interval v.content.config.demand_interval_seconds;
  robot_speed_mps = v.content.config.robot_speed_mps;
  charger_count = v.content.config.charger_count;
}

unfoldable pub scenario_defaults : Option LayoutVersion → Option Scenario → ScenarioRunRequest
unfolding slice_to
scenario_defaults layout (some source) = revision_defaults source layout
scenario_defaults layout none = layout_defaults layout
