-- ===== src/Snapshot.antt =====
-- apps/frontend/src/lib/factory-snapshot.ts: the REST snapshot, and storing it.
pub mod Fetch
pub mod Tests
use ev_factory_twin.Prelude.{ℕ, List}
use ev_factory_twin.Schema.Fleet.{Robot, Task, FactoryMetrics, FactoryAlert}
use ev_factory_twin.Store.{
  FactoryStore, set_robots, set_tasks, set_metrics, set_alerts, mark_data_updated,
}

pub record FactorySnapshot : Type 0 where
  pub robots : List Robot
  pub tasks : List Task
  pub metrics : FactoryMetrics
  pub alerts : List FactoryAlert

-- All five actions happen in one turn of the event loop, at the time `now`.
unfoldable pub commit_factory_snapshot : ℕ → FactorySnapshot → FactoryStore → FactoryStore
commit_factory_snapshot now snapshot s = mark_data_updated now (
    set_alerts snapshot.alerts
      (set_metrics now snapshot.metrics (set_tasks snapshot.tasks (set_robots snapshot.robots s))))
