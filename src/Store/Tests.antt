-- ===== src/Store/Tests.antt =====
-- Tests of the model of factory-store.ts.
use ev_factory_twin.Prelude.{
  filter, ◌==◌, ◌⊎◌, none, ℕ, ◌≡◌, refl, arith, inr, some, [], ◌∷◌, length, head?,
}
use ev_factory_twin.Prelude.Dict.{lookup}
use ev_factory_twin.Samples.{date_of, robot, telemetry, metrics, alert, command}
use ev_factory_twin.Store.{
  FactoryStore, MetricsSample, initial, set_metrics, add_alert, update_command,
}
use ev_factory_twin.Store.Metrics.Bounds.{IsHistory, set_metrics-IsHistory}
use ev_factory_twin.Store.Alerts.{listed, add_alert_lem}
use ev_factory_twin.Store.Commands.{update_command_comm}
use ev_factory_twin.Store.Board.{board, board_run, run_refines}
use ev_factory_twin.Store.Actions.{
  sets_commands, sets_robots, updates_robot, sets_metrics, adds_alert, acknowledges,
  updates_command, run,
}
use ev_factory_twin.Store.Invariant.{IsConsistent, run-IsConsistent}

abbrev sample : ℕ → MetricsSample
sample at = record { metrics = metrics; timestamp = at }

-- A robot is known, an alert is listed and acknowledged, and metrics were sampled twice.
abbrev busy : FactoryStore
busy = record initial {
  robots = ("AMR-1", robot) ∷ [];
  metrics = some metrics;
  metrics_history = sample 1000 ∷ sample 6000 ∷ [];
  alerts = alert "K-1" ∷ [];
  acknowledged_alert_ids = "A-1" ∷ [];
  commands = ("OP-1", command "12") ∷ [];
}

run-IsConsistent_example : IsConsistent (
    run date_of
      (sets_robots (robot ∷ [])
        ∷ updates_robot (telemetry 1)
        ∷ sets_metrics 9000 metrics
        ∷ adds_alert (alert "K-1")
        ∷ acknowledges "A-1"
        ∷ updates_command (command "12")
        ∷ [])
      initial)
run-IsConsistent_example =
    run-IsConsistent date_of
      (sets_robots (robot ∷ [])
        ∷ updates_robot (telemetry 1)
        ∷ sets_metrics 9000 metrics
        ∷ adds_alert (alert "K-1")
        ∷ acknowledges "A-1"
        ∷ updates_command (command "12")
        ∷ [])
      initial
      (record {
        robots = tt;
        tasks = tt;
        commands = tt;
        history = (tt, omega arith);
        acknowledged = tt;
      })

update_command_comm_example :
    lookup "OP-1"
      (update_command date_of
        (command "123")
        (update_command date_of (command "1") initial)).commands
    ≡ lookup "OP-1"
        (update_command date_of
          (command "1")
          (update_command date_of (command "123") initial)).commands
update_command_comm_example =
    update_command_comm date_of (command "1") (command "123") 1 3 "OP-1" initial refl refl
      (inr (λ e. absurd (omega arith)))

set_metrics-IsHistory_example :
    IsHistory (set_metrics 11000 metrics busy).metrics_history
    × ((set_metrics 11000 metrics busy).metrics ≡ some metrics)
set_metrics-IsHistory_example =
    set_metrics-IsHistory 11000 metrics busy (((omega arith, tt), (tt, tt)), omega arith)

add_alert_lem_example :
    (head? (add_alert (alert "K-2") busy).alerts ≡ some (alert "K-2"))
    × (filter (λ c. c.dedupe_key == "K-2") (add_alert (alert "K-2") busy).alerts ≡ alert "K-2" ∷ [])
    × (length (add_alert (alert "K-2") busy).alerts ≡ 2)
    × ((listed "K-1" (add_alert (alert "K-2") busy).alerts ≡ none)
        ⊎ (listed "K-1" (add_alert (alert "K-2") busy).alerts ≡ some (alert "K-1")))
add_alert_lem_example = add_alert_lem (alert "K-2") "K-1" busy

run_refines_example :
    board (
      run date_of
        (sets_commands (command "1" ∷ command "123" ∷ command "12" ∷ [])
          ∷ updates_command (command "1")
          ∷ sets_robots (robot ∷ [])
          ∷ [])
        busy)
    ≡ board_run date_of
        (sets_commands (command "1" ∷ command "123" ∷ command "12" ∷ [])
          ∷ updates_command (command "1")
          ∷ sets_robots (robot ∷ [])
          ∷ [])
        (board busy)
run_refines_example =
    run_refines date_of
      (sets_commands (command "1" ∷ command "123" ∷ command "12" ∷ [])
        ∷ updates_command (command "1")
        ∷ sets_robots (robot ∷ [])
        ∷ [])
      busy
