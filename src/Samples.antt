-- ===== src/Samples.antt =====
-- Concrete values of the program's types, for the tests.
use ev_factory_twin.Prelude.{ℕ, String, true, Option, none, some, [], ◌∷◌}
use ev_factory_twin.Prelude.Int.{pos}
use ev_factory_twin.Schema.Fleet.{
  Pose, Velocity, Robot, RobotTelemetry, idle, delivering, FactoryMetrics, FactoryAlert, warning,
  low_battery, active, CurrentUser, designer,
}
use ev_factory_twin.Schema.Planning.{
  Scenario, ScenarioStatus, ScenarioConfig, ScenarioMetrics, Command, pending,
}
use ev_factory_twin.Schema.Event.{FactoryEvent, robot_telemetry, alert_created}
use ev_factory_twin.Snapshot.{FactorySnapshot}
use ev_factory_twin.Store.{FactoryStore, initial, live}
use Prim.Native.String.{len}

-- A reading of dates: the longer text is the later date.
abbrev pub date_of : String → Option ℕ
date_of text = some (len text)

abbrev pub place : ℕ → Pose
place n = record { x = pos n; y = pos 0; yaw = pos 0 }

abbrev pub still : Velocity
still = record { linear = pos 0; angular = pos 0 }

abbrev pub robot : Robot
robot = record {
  id = "AMR-1";
  name = "First";
  status = idle;
  battery = pos 90000;
  pose = place 0;
  velocity = still;
  task_id = none;
  payload_id = none;
  last_seen_at = "1";
}

abbrev pub telemetry : ℕ → RobotTelemetry
telemetry n = record {
  timestamp = "11";
  robot_id = "AMR-1";
  pose = place n;
  velocity = still;
  battery = pos 80000;
  status = delivering;
  task_id = none;
  payload_id = none;
}

abbrev pub metrics : FactoryMetrics
metrics = record {
  completed_tasks = pos 1000;
  throughput_per_hour = pos 2000;
  average_cycle_time_seconds = pos 3000;
  active_tasks = pos 0;
  queued_tasks = pos 0;
  starvation_events = pos 0;
  fleet_utilization_percent = pos 50000;
}

abbrev pub alert : String → FactoryAlert
alert key = record {
  id = "A-1";
  dedupe_key = key;
  severity = warning;
  code = low_battery;
  status = active;
  message = "Battery low";
  robot_id = some "AMR-1";
  task_id = none;
  operation_id = none;
  timestamp = "1";
  last_seen_at = "1";
  cleared_at = none;
}

abbrev pub config : ScenarioConfig
config = record {
  num_robots = 3;
  num_tasks = 10;
  task_arrival_interval = pos 1000;
  travel_time = pos 1000;
  loading_time = pos 1000;
  simulation_time = pos 60000;
  layout_id = "L-1";
  layout_version = 2;
  route_id = "R-1";
  robot_speed_mps = pos 1000;
  charger_count = 1;
  route_distance_m = pos 10000;
  congestion_multiplier = pos 1000;
}

abbrev pub command : String → Command
command updated = record {
  operation_id = "OP-1";
  scenario_id = "S-1";
  status = pending;
  payload = config;
  timeout_seconds = pos 30000;
  max_retries = 2;
  attempts = [];
  requested_by = "U-1";
  created_at = "1";
  updated_at = updated;
}

abbrev pub scenario_metrics : ScenarioMetrics
scenario_metrics = record {
  completed_tasks = 9;
  unfinished_tasks = 1;
  completion_rate = pos 900;
  throughput_per_hour = pos 1000;
  average_cycle_time = pos 1000;
  average_waiting_time = pos 1000;
  fleet_utilization_percent = pos 50000;
  starvation_events = 0;
  congestion_percent = pos 0;
  travel_distance = pos 1000;
  average_delivery_delay = pos 0;
}

abbrev pub scenario : String → ScenarioStatus → String → Scenario
scenario id status created = record {
  id = id;
  name = id;
  status = status;
  config = config;
  metrics = scenario_metrics;
  duration_ms = pos 1000;
  created_at = created;
  created_by = some "U-1";
  reviewed_at = none;
  reviewed_by = none;
  review_note = none;
  revision_of = none;
  applied_at = none;
  applied_by = none;
  version = 1;
}

abbrev pub snapshot : FactorySnapshot
snapshot = record { robots = robot ∷ []; tasks = []; metrics = metrics; alerts = [] }

abbrev pub first_event : FactoryEvent
first_event = robot_telemetry (telemetry 1)

abbrev pub second_event : FactoryEvent
second_event = robot_telemetry (telemetry 2)

abbrev pub other_event : FactoryEvent
other_event = alert_created (alert "K-1")

abbrev pub live_store : FactoryStore
live_store = record initial { connection_status = live }

abbrev pub user : String → CurrentUser
user id = record { id = id; email = "a@b.c"; display_name = "A"; role = designer; is_active = true }
