-- ===== src/Store/Fleet.antt =====
-- The robots and tasks of factory-store.ts.
use ev_factory_twin.Prelude.{
  String, ◌≡◌, Option, none, some, arith, ◌==◌, eq_iff, if◌then◌else◌, inl, inr, Option-cases,
}
use ev_factory_twin.Prelude.Dict.{lookup, lookup-insert}
use ev_factory_twin.Schema.Fleet.{Robot, RobotTelemetry}
use ev_factory_twin.Store.{FactoryStore, with_telemetry, update_robot_telemetry}

abbrev pub moved : RobotTelemetry → Option Robot → Option Robot
moved t none = none
moved t (some r) = some (with_telemetry r t)

-- Telemetry changes the robot that it names only, and adds no robot that is not known.
pub lookup-update_robot_telemetry :
    (t : RobotTelemetry) (k : String) (s : FactoryStore)
    → lookup k (update_robot_telemetry t s).robots
      ≡ (if t.robot_id == k then moved t (lookup k s.robots) else lookup k s.robots)
unfolding update_robot_telemetry
lookup-update_robot_telemetry t k s = elim (Option-cases (lookup t.robot_id s.robots)) [
  | inl e ↦ ground (arith, eq_iff t.robot_id k)
  | inr (r, e) ↦
      ground (arith, eq_iff t.robot_id k, lookup-insert t.robot_id k (with_telemetry r t) s.robots)
]
