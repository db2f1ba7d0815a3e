-- ===== src/Store/Actions.antt =====
-- The actions of factory-store.ts as one type, and sequences of them.
use ev_factory_twin.Prelude.{ℕ, String, Bool, Option, List, [], ◌∷◌}
use ev_factory_twin.Schema.Fleet.{Robot, RobotTelemetry, Task, FactoryMetrics, FactoryAlert}
use ev_factory_twin.Schema.Planning.{Command, Scenario}
use ev_factory_twin.Store.{
  FactoryStore, ConnectionStatus, set_robots, update_robot_telemetry, set_tasks, update_task,
  set_metrics, clear_metrics_history, set_alerts, add_alert, acknowledge_alert, set_commands,
  update_command, set_scenarios, update_scenario, bump_factory_revision, mark_data_updated,
  select_robot, set_connection_status, set_paused, toggle_paused, reset,
}

pub data Action : Type 0 where
  sets_robots : List Robot → Action
  updates_robot : RobotTelemetry → Action
  sets_tasks : List Task → Action
  updates_task : Task → Action
  sets_metrics : ℕ → FactoryMetrics → Action
  clears_history : Action
  sets_alerts : List FactoryAlert → Action
  adds_alert : FactoryAlert → Action
  acknowledges : String → Action
  sets_commands : List Command → Action
  updates_command : Command → Action
  sets_scenarios : List Scenario → Action
  updates_scenario : Scenario → Action
  bumps_revision : Action
  marks_updated : ℕ → Action
  selects : Option String → Action
  sets_status : ConnectionStatus → Action
  sets_paused : Bool → Action
  toggles_paused : Action
  resets : Action

module _ (date_parse : String → Option ℕ) where
  unfoldable pub step : Action → FactoryStore → FactoryStore
  step (sets_robots robots) = set_robots robots
  step (updates_robot t) = update_robot_telemetry t
  step (sets_tasks tasks) = set_tasks tasks
  step (updates_task t) = update_task t
  step (sets_metrics now m) = set_metrics now m
  step clears_history = clear_metrics_history
  step (sets_alerts alerts) = set_alerts alerts
  step (adds_alert a) = add_alert a
  step (acknowledges id) = acknowledge_alert id
  step (sets_commands cs) = set_commands date_parse cs
  step (updates_command c) = update_command date_parse c
  step (sets_scenarios scenarios) = set_scenarios scenarios
  step (updates_scenario scenario) = update_scenario scenario
  step bumps_revision = bump_factory_revision
  step (marks_updated at) = mark_data_updated at
  step (selects id) = select_robot id
  step (sets_status status) = set_connection_status status
  step (sets_paused paused) = set_paused paused
  step toggles_paused = toggle_paused
  step resets = reset

  unfoldable pub run : List Action → FactoryStore → FactoryStore
  run [] s = s
  run (a ∷ actions) s = run actions (step a s)
