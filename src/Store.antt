-- ===== src/Store.antt =====
-- apps/frontend/src/stores/factory-store.ts: the client's picture of the factory. Each action of the
-- zustand store is a function from the old state to the new one; `Date.now()` is an argument.
pub mod Metrics
pub mod Alerts
pub mod Commands
pub mod Board
pub mod Fleet
pub mod Actions
pub mod Invariant
pub mod Tests
use ev_factory_twin.Prelude.{
  ℕ, ◌+◌, ◌-◌, ◌/◌, String, Bool, true, false, not, ◌&&◌, Option, none, some, List, [], ◌∷◌, ◌++◌,
  map, ◌==◌, ltb, leb, if◌then◌else◌, any, filter, take, last?, slice_last,
}
use ev_factory_twin.Prelude.Dict.{Dict, lookup, insert, merge, from_entries}
use ev_factory_twin.Prelude.Dates.{later}
use ev_factory_twin.Schema.Fleet.{
  Robot, RobotTelemetry, Task, FactoryMetrics, FactoryAlert, AlertStatus, active, cleared,
}
use ev_factory_twin.Schema.Planning.{Command, Scenario}

pub data ConnectionStatus : Type 0 where
  connecting live offline mock : ConnectionStatus

pub record MetricsSample : Type 0 where
  pub metrics : FactoryMetrics
  pub timestamp : ℕ

abbrev pub metrics_history_sample_interval_ms : ℕ
metrics_history_sample_interval_ms = 5000

abbrev pub metrics_history_window_ms : ℕ
metrics_history_window_ms = 300000

-- `Math.ceil(window / interval)`
abbrev pub metrics_history_limit : ℕ
metrics_history_limit =
    (metrics_history_window_ms + (metrics_history_sample_interval_ms - 1))
    / metrics_history_sample_interval_ms

pub record FactoryStore : Type 0 where
  pub robots : Dict Robot
  pub tasks : Dict Task
  pub metrics : Option FactoryMetrics
  pub metrics_history : List MetricsSample
  pub alerts : List FactoryAlert
  pub acknowledged_alert_ids : List String
  pub commands : Dict Command
  pub scenarios : List Scenario
  pub factory_revision : ℕ
  pub last_update_at : Option ℕ
  pub selected_robot_id : Option String
  pub connection_status : ConnectionStatus
  pub paused : Bool

abbrev pub initial : FactoryStore
initial = record {
  robots = [];
  tasks = [];
  metrics = none;
  metrics_history = [];
  alerts = [];
  acknowledged_alert_ids = [];
  commands = [];
  scenarios = [];
  factory_revision = 0;
  last_update_at = none;
  selected_robot_id = none;
  connection_status = connecting;
  paused = false;
}

unfoldable pub set_robots : List Robot → FactoryStore → FactoryStore
set_robots robots s = record s { robots = from_entries (map (λ r. (r.id, r)) robots) }

abbrev pub with_telemetry : Robot → RobotTelemetry → Robot
with_telemetry current t = record current {
  status = t.status;
  battery = t.battery;
  pose = t.pose;
  velocity = t.velocity;
  task_id = t.task_id;
  payload_id = t.payload_id;
  last_seen_at = t.timestamp;
}

-- Telemetry of a robot that is not known is ignored.
unfoldable pub update_robot_telemetry : RobotTelemetry → FactoryStore → FactoryStore
update_robot_telemetry t s = elim (lookup t.robot_id s.robots) [
  | none ↦ s
  | some current ↦ record s { robots = insert t.robot_id (with_telemetry current t) s.robots }
]

unfoldable pub set_tasks : List Task → FactoryStore → FactoryStore
set_tasks tasks s = record s { tasks = from_entries (map (λ t. (t.task_id, t)) tasks) }

unfoldable pub update_task : Task → FactoryStore → FactoryStore
update_task t s = record s { tasks = insert t.task_id t s.tasks }

-- `latestSample && timestamp - latestSample.timestamp < interval`: a clock that went back counts.
abbrev pub sampled_recently : ℕ → Option MetricsSample → Bool
sampled_recently now none = false
sampled_recently now (some latest) = ltb now (latest.timestamp + metrics_history_sample_interval_ms)

-- `sample.timestamp >= timestamp - window`
abbrev pub in_window : ℕ → MetricsSample → Bool
in_window now sample = leb now (sample.timestamp + metrics_history_window_ms)

unfoldable pub extend_history : ℕ → FactoryMetrics → List MetricsSample → List MetricsSample
extend_history now m history =
    slice_last metrics_history_limit
      (filter (in_window now) history ++ record { metrics = m; timestamp = now } ∷ [])

unfoldable pub set_metrics : ℕ → FactoryMetrics → FactoryStore → FactoryStore
set_metrics now m s =
    if sampled_recently now (last? s.metrics_history)
    then record s { metrics = some m }
    else record s { metrics = some m; metrics_history = extend_history now m s.metrics_history }

unfoldable pub clear_metrics_history : FactoryStore → FactoryStore
clear_metrics_history s = record s { metrics_history = [] }

abbrev pub is_active : AlertStatus → Bool
is_active active = true
is_active cleared = false

-- `alerts.some((alert) => alert.id === id && alert.status === "ACTIVE")`
abbrev pub still_active : List FactoryAlert → String → Bool
still_active alerts id = any (λ a. a.id == id && is_active a.status) alerts

unfoldable pub set_alerts : List FactoryAlert → FactoryStore → FactoryStore
set_alerts alerts s = record s {
  alerts = alerts;
  acknowledged_alert_ids = filter (still_active alerts) s.acknowledged_alert_ids;
}

abbrev pub alert_limit : ℕ
alert_limit = 50

unfoldable pub add_alert : FactoryAlert → FactoryStore → FactoryStore
add_alert a s = record s {
  alerts = take alert_limit (a ∷ filter (λ c. not (c.dedupe_key == a.dedupe_key)) s.alerts);
  acknowledged_alert_ids =
      if is_active a.status
      then s.acknowledged_alert_ids
      else filter (λ id. not (id == a.id)) s.acknowledged_alert_ids;
}

unfoldable pub acknowledge_alert : String → FactoryStore → FactoryStore
acknowledge_alert id s =
    if any (λ known. known == id) s.acknowledged_alert_ids
    then s
    else record s { acknowledged_alert_ids = s.acknowledged_alert_ids ++ id ∷ [] }

module _ (date_parse : String → Option ℕ) where
  -- The stored command stays only if it is newer than the incoming one.
  abbrev pub latest_command : Option Command → Command → Command
  latest_command none incoming = incoming
  latest_command (some current) incoming =
      if later (date_parse current.updated_at) (date_parse incoming.updated_at)
      then current
      else incoming

  -- Each incoming command is compared with the old state, not with the others of the list.
  abbrev pub command_entry : Dict Command → Command → String × Command
  command_entry old c = (c.operation_id, latest_command (lookup c.operation_id old) c)

  unfoldable pub set_commands : List Command → FactoryStore → FactoryStore
  set_commands commands s = record s {
    commands = merge s.commands (from_entries (map (command_entry s.commands) commands));
  }

  unfoldable pub update_command : Command → FactoryStore → FactoryStore
  update_command c s = record s {
    commands =
        insert c.operation_id (latest_command (lookup c.operation_id s.commands) c) s.commands;
  }

unfoldable pub set_scenarios : List Scenario → FactoryStore → FactoryStore
set_scenarios scenarios s = record s { scenarios = scenarios }

unfoldable pub update_scenario : Scenario → FactoryStore → FactoryStore
update_scenario scenario s = record s {
  scenarios =
      if any (λ c. c.id == scenario.id) s.scenarios
      then map (λ c. if c.id == scenario.id then scenario else c) s.scenarios
      else scenario ∷ s.scenarios;
}

unfoldable pub bump_factory_revision : FactoryStore → FactoryStore
bump_factory_revision s = record s { factory_revision = s.factory_revision + 1 }

unfoldable pub mark_data_updated : ℕ → FactoryStore → FactoryStore
mark_data_updated at s = record s { last_update_at = some at }

unfoldable pub select_robot : Option String → FactoryStore → FactoryStore
select_robot id s = record s { selected_robot_id = id }

unfoldable pub set_connection_status : ConnectionStatus → FactoryStore → FactoryStore
set_connection_status status s = record s { connection_status = status }

unfoldable pub set_paused : Bool → FactoryStore → FactoryStore
set_paused paused s = record s { paused = paused }

unfoldable pub toggle_paused : FactoryStore → FactoryStore
toggle_paused s = record s { paused = not s.paused }

unfoldable pub reset : FactoryStore → FactoryStore
reset s = record initial { connection_status = offline }
