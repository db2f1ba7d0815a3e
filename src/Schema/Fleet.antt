-- ===== src/Schema/Fleet.antt =====
-- apps/frontend/src/schemas/{robot,task,metric,alert,auth}.ts: the inferred types.
-- A `number` that need not be whole is a count of thousandths, a signed integer. Timestamps,
-- identifiers and messages are texts, as in the source.
use ev_factory_twin.Prelude.{String, Bool, Option}
use ev_factory_twin.Prelude.Int.{ℤ}

abbrev pub Number : Type 0
Number = ℤ

-- robotStatusSchema
pub data RobotStatus : Type 0 where
  idle moving_to_pickup picking delivering dropping : RobotStatus
  moving_to_charger waiting charging error offline : RobotStatus

-- poseSchema
pub record Pose : Type 0 where
  pub x : Number
  pub y : Number
  pub yaw : Number

-- velocitySchema
pub record Velocity : Type 0 where
  pub linear : Number
  pub angular : Number

-- robotSchema
pub record Robot : Type 0 where
  pub id : String
  pub name : String
  pub status : RobotStatus
  pub battery : Number
  pub pose : Pose
  pub velocity : Velocity
  pub task_id : Option String
  pub payload_id : Option String
  pub last_seen_at : String

-- robotTelemetrySchema
pub record RobotTelemetry : Type 0 where
  pub timestamp : String
  pub robot_id : String
  pub pose : Pose
  pub velocity : Velocity
  pub battery : Number
  pub status : RobotStatus
  pub task_id : Option String
  pub payload_id : Option String

-- taskStatusSchema
pub data TaskStatus : Type 0 where
  queued assigned pickup delivering completed failed timed_out in_progress delivered : TaskStatus

-- taskSchema; `type` is the one literal "DELIVER_BATTERY".
pub record Task : Type 0 where
  pub task_id : String
  pub payload_id : String
  pub pickup : String
  pub dropoff : String
  pub assigned_robot_id : Option String
  pub status : TaskStatus
  pub created_at : String
  pub started_at : Option String
  pub completed_at : Option String

-- factoryMetricsSchema
pub record FactoryMetrics : Type 0 where
  pub completed_tasks : Number
  pub throughput_per_hour : Number
  pub average_cycle_time_seconds : Number
  pub active_tasks : Number
  pub queued_tasks : Number
  pub starvation_events : Number
  pub fleet_utilization_percent : Number

-- alertSeveritySchema
pub data AlertSeverity : Type 0 where
  info warning critical : AlertSeverity

-- alertCodeSchema
pub data AlertCode : Type 0 where
  low_battery robot_waiting task_backlog starvation robot_error : AlertCode
  stale_telemetry bridge_disconnected command_timeout congestion : AlertCode

pub data AlertStatus : Type 0 where
  active cleared : AlertStatus

-- factoryAlertSchema
pub record FactoryAlert : Type 0 where
  pub id : String
  pub dedupe_key : String
  pub severity : AlertSeverity
  pub code : AlertCode
  pub status : AlertStatus
  pub message : String
  pub robot_id : Option String
  pub task_id : Option String
  pub operation_id : Option String
  pub timestamp : String
  pub last_seen_at : String
  pub cleared_at : Option String

-- appRoleSchema
pub data AppRole : Type 0 where
  designer monitor : AppRole

-- currentUserSchema
pub record CurrentUser : Type 0 where
  pub id : String
  pub email : String
  pub display_name : String
  pub role : AppRole
  pub is_active : Bool
