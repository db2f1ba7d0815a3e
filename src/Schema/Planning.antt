-- ===== src/Schema/Planning.antt =====
-- apps/frontend/src/schemas/{scenario,command}.ts: the inferred types.
use ev_factory_twin.Prelude.{ℕ, String, Option, List}
use ev_factory_twin.Schema.Fleet.{Number}

-- scenarioStatusSchema
pub data ScenarioStatus : Type 0 where
  draft simulated submitted approved rejected revision_requested applied : ScenarioStatus

-- scenarioConfigSchema
pub record ScenarioConfig : Type 0 where
  pub num_robots : ℕ
  pub num_tasks : ℕ
  pub task_arrival_interval : Number
  pub travel_time : Number
  pub loading_time : Number
  pub simulation_time : Number
  pub layout_id : String
  pub layout_version : ℕ
  pub route_id : String
  pub robot_speed_mps : Number
  pub charger_count : ℕ
  pub route_distance_m : Number
  pub congestion_multiplier : Number

-- scenarioMetricsSchema
pub record ScenarioMetrics : Type 0 where
  pub completed_tasks : ℕ
  pub unfinished_tasks : ℕ
  pub completion_rate : Number
  pub throughput_per_hour : Number
  pub average_cycle_time : Number
  pub average_waiting_time : Number
  pub fleet_utilization_percent : Number
  pub starvation_events : ℕ
  pub congestion_percent : Number
  pub travel_distance : Number
  pub average_delivery_delay : Number

-- scenarioSchema; an optional nullable text is one `Option`, since no code tells the two apart.
pub record Scenario : Type 0 where
  pub id : String
  pub name : String
  pub status : ScenarioStatus
  pub config : ScenarioConfig
  pub metrics : ScenarioMetrics
  pub duration_ms : Number
  pub created_at : String
  pub created_by : Option String
  pub reviewed_at : Option String
  pub reviewed_by : Option String
  pub review_note : Option String
  pub revision_of : Option String
  pub applied_at : Option String
  pub applied_by : Option String
  pub version : ℕ

-- commandStatusSchema
pub data CommandStatus : Type 0 where
  pending acknowledged completed failed timed_out : CommandStatus

-- commandAttemptSchema
pub record CommandAttempt : Type 0 where
  pub attempt_number : ℕ
  pub status : CommandStatus
  pub leased_by : Option String
  pub lease_expires_at : Option String
  pub acknowledged_at : Option String
  pub completed_at : Option String
  pub detail : String

-- commandSchema
pub record Command : Type 0 where
  pub operation_id : String
  pub scenario_id : String
  pub status : CommandStatus
  pub payload : ScenarioConfig
  pub timeout_seconds : Number
  pub max_retries : ℕ
  pub attempts : List CommandAttempt
  pub requested_by : String
  pub created_at : String
  pub updated_at : String
