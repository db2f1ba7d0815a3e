-- ===== src/Schema/Event.antt =====
-- apps/frontend/src/schemas/websocket-event.ts: what the factory socket carries.
use ev_factory_twin.Prelude.{ℕ, String}
use ev_factory_twin.Schema.Fleet.{RobotTelemetry, Task, FactoryMetrics, FactoryAlert, AppRole}
use ev_factory_twin.Schema.Planning.{Command}

-- factoryEventSchema, one constructor for each literal of `type`.
pub data FactoryEvent : Type 0 where
  robot_telemetry : RobotTelemetry → FactoryEvent
  task_updated : Task → FactoryEvent
  metrics_updated : FactoryMetrics → FactoryEvent
  alert_created : FactoryAlert → FactoryEvent
  alert_updated : FactoryAlert → FactoryEvent
  factory_reset : FactoryEvent
  command_updated : Command → FactoryEvent

-- The `data` of factorySocketAuthOkSchema.
pub record AuthenticatedUser : Type 0 where
  pub user_id : String
  pub display_name : String
  pub role : AppRole
  pub expires_at : ℕ
