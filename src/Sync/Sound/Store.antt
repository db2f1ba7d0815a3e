-- ===== src/Sync/Sound/Store.antt =====
-- The pause flag of the store in use-factory-socket.ts.
use ev_factory_twin.Prelude.{ℕ, ◌≡◌, refl, ◌∙◌, String, Option, List, [], ◌∷◌, arith}
use ev_factory_twin.Schema.Fleet.{RobotTelemetry, FactoryMetrics}
use ev_factory_twin.Schema.Event.{
  FactoryEvent, robot_telemetry, task_updated, metrics_updated, alert_created, alert_updated,
  factory_reset, command_updated,
}
use ev_factory_twin.Snapshot.{FactorySnapshot, commit_factory_snapshot}
use ev_factory_twin.Store.{
  FactoryStore, update_robot_telemetry, update_task, set_metrics, add_alert, update_command,
  mark_data_updated, set_robots, set_tasks, set_alerts,
}
use ev_factory_twin.Sync.{apply_event, apply_events}

paused-update_robot_telemetry :
    (t : RobotTelemetry) (s : FactoryStore) → (update_robot_telemetry t s).paused ≡ s.paused
unfolding update_robot_telemetry
paused-update_robot_telemetry t s = ground arith

pub paused-set_metrics :
    (now : ℕ) (m : FactoryMetrics) (s : FactoryStore) → (set_metrics now m s).paused ≡ s.paused
unfolding set_metrics
paused-set_metrics now m s = ground arith

pub paused-commit :
    (now : ℕ) (snapshot : FactorySnapshot) (s : FactoryStore)
    → (commit_factory_snapshot now snapshot s).paused ≡ s.paused
unfolding commit_factory_snapshot mark_data_updated set_alerts set_tasks set_robots
paused-commit now snapshot s = paused-set_metrics now snapshot.metrics _

module _ (date_parse : String → Option ℕ) (now : ℕ) where
  pub paused-apply_event :
      (e : FactoryEvent) (s : FactoryStore) → (apply_event date_parse now e s).paused ≡ s.paused
  unfolding apply_event mark_data_updated update_task add_alert update_command
  paused-apply_event (robot_telemetry t) s = paused-update_robot_telemetry t s
  paused-apply_event (metrics_updated m) s = paused-set_metrics now m s
  paused-apply_event (task_updated t) s = refl
  paused-apply_event (alert_created a) s = refl
  paused-apply_event (alert_updated a) s = refl
  paused-apply_event (command_updated c) s = refl
  paused-apply_event factory_reset s = refl

  pub paused-apply_events :
      (es : List FactoryEvent) (s : FactoryStore)
      → (apply_events date_parse now es s).paused ≡ s.paused
  unfolding apply_events
  paused-apply_events [] s = refl
  paused-apply_events (e ∷ es) s =
      paused-apply_events es (apply_event date_parse now e s) ∙ paused-apply_event e s
