-- ===== src/Store/Invariant.antt =====
-- The invariant of factory-store.ts, and every action against it.
use ev_factory_twin.Prelude.{
  ℕ, String, ◌≡◌, refl, Bool, false, not, Option, List, [], ◌∷◌, ◌++◌, map, inl, inr, arith, subst,
  sym, last?, ◌==◌, eq_iff, any-append, any-filter-le, filter, Bool-cases, Option-cases,
}
use ev_factory_twin.Prelude.Dict.{Dict, lookup, insert, from_entries}
use ev_factory_twin.Prelude.Dict.Keys.{
  IsKeyedBy, insert-IsKeyedBy, lookup-key, merge-IsKeyedBy, from_entries-IsKeyedBy,
}
use ev_factory_twin.Schema.Fleet.{Robot, RobotTelemetry, Task, FactoryMetrics, FactoryAlert}
use ev_factory_twin.Schema.Planning.{Command}
use ev_factory_twin.Store.{
  FactoryStore, sampled_recently, with_telemetry, is_active, still_active, latest_command,
  command_entry, set_robots, update_robot_telemetry, set_tasks, update_task, set_metrics,
  clear_metrics_history, set_alerts, add_alert, acknowledge_alert, set_commands, update_command,
  set_scenarios, update_scenario, bump_factory_revision, mark_data_updated, select_robot,
  set_connection_status, set_paused, toggle_paused, reset,
}
use ev_factory_twin.Store.Metrics.Bounds.{IsHistory, set_metrics-IsHistory}
use ev_factory_twin.Store.Alerts.{is_acknowledged}
use ev_factory_twin.Store.Actions.{
  Action, sets_robots, updates_robot, sets_tasks, updates_task, sets_metrics, clears_history,
  sets_alerts, adds_alert, acknowledges, sets_commands, updates_command, resets, step, run,
}

abbrev pub HasNoRepeats : List String → Type 0
HasNoRepeats [] = Unit
HasNoRepeats (id ∷ ids) = (is_acknowledged id ids ≡ false) × HasNoRepeats ids

-- Objects are stored under their own identifiers, the metrics history is spaced and short, and no
-- alert is acknowledged twice.
pub record IsConsistent (s : FactoryStore) : Type 0 where
  pub robots : IsKeyedBy (λ r. r.id) s.robots
  pub tasks : IsKeyedBy (λ t. t.task_id) s.tasks
  pub commands : IsKeyedBy (λ c. c.operation_id) s.commands
  pub history : IsHistory s.metrics_history
  pub acknowledged : HasNoRepeats s.acknowledged_alert_ids

filter-HasNoRepeats :
    (p : String → Bool) (ids : List String) → HasNoRepeats ids → HasNoRepeats (filter p ids)
filter-HasNoRepeats p [] h = tt
filter-HasNoRepeats p (id ∷ ids) h = elim (Bool-cases (p id)) [
  | inl e ↦ rw e (any-filter-le (λ known. known == id) p ids h.0, filter-HasNoRepeats p ids h.1)
  | inr e ↦ rw e (filter-HasNoRepeats p ids h.1)
]

append-HasNoRepeats :
    (id : String) (ids : List String)
    → is_acknowledged id ids ≡ false
    → HasNoRepeats ids
    → HasNoRepeats (ids ++ id ∷ [])
append-HasNoRepeats id [] e h = (refl, tt)
append-HasNoRepeats id (i ∷ ids) e h = (
  rw (any-append (λ known. known == i) ids (id ∷ [])) (ground (arith, eq_iff i id, eq_iff id i)),
  append-HasNoRepeats id ids (ground arith) h.1,
)

update_robot_telemetry-IsConsistent :
    (t : RobotTelemetry) (s : FactoryStore)
    → IsConsistent s
    → IsConsistent (update_robot_telemetry t s)
unfolding update_robot_telemetry
update_robot_telemetry-IsConsistent t s h = elim (Option-cases (lookup t.robot_id s.robots)) [
  | inl e ↦ rw (e, update_robot_telemetry) h
  | inr (r, e) ↦
      rw (e, update_robot_telemetry)
        (record {
          robots =
              subst (λ k. IsKeyedBy (λ (x : Robot). x.id) (insert k (with_telemetry r t) s.robots))
                (lookup-key (λ (x : Robot). x.id) t.robot_id s.robots r h.robots e)
                (insert-IsKeyedBy (λ (x : Robot). x.id) (with_telemetry r t) s.robots h.robots);
          tasks = h.tasks;
          commands = h.commands;
          history = h.history;
          acknowledged = h.acknowledged;
        })
]

set_metrics-IsConsistent :
    (now : ℕ) (m : FactoryMetrics) (s : FactoryStore)
    → IsConsistent s
    → IsConsistent (set_metrics now m s)
unfolding set_metrics
set_metrics-IsConsistent now m s h =
    let kept = (set_metrics-IsHistory now m s h.history).0 in
    elim (Bool-cases (sampled_recently now (last? s.metrics_history))) [
      | inl e ↦ rw e (record {
        robots = h.robots;
        tasks = h.tasks;
        commands = h.commands;
        history = h.history;
        acknowledged = h.acknowledged;
      })
      | inr e ↦ rw e (record {
        robots = h.robots;
        tasks = h.tasks;
        commands = h.commands;
        history = rw e at kept;
        acknowledged = h.acknowledged;
      })
    ]

acknowledge_alert-IsConsistent :
    (id : String) (s : FactoryStore) → IsConsistent s → IsConsistent (acknowledge_alert id s)
unfolding acknowledge_alert
acknowledge_alert-IsConsistent id s h =
    elim (Bool-cases (is_acknowledged id s.acknowledged_alert_ids)) [
      | inl e ↦ rw e h
      | inr e ↦ rw e (record {
        robots = h.robots;
        tasks = h.tasks;
        commands = h.commands;
        history = h.history;
        acknowledged = append-HasNoRepeats id s.acknowledged_alert_ids e h.acknowledged;
      })
    ]

module _ (date_parse : String → Option ℕ) where
  latest_command-id :
      (c : Command) (old : Dict Command)
      → IsKeyedBy (λ d. d.operation_id) old
      → (latest_command date_parse (lookup c.operation_id old) c).operation_id ≡ c.operation_id
  latest_command-id c old h = elim (Option-cases (lookup c.operation_id old)) [
    | inl e ↦ rw e
    | inr (d, e) ↦ rw e (
        let same = lookup-key (λ (x : Command). x.operation_id) c.operation_id old d h e in
        ground arith)
  ]

  command_entries-IsKeyedBy :
      (old : Dict Command) (cs : List Command)
      → IsKeyedBy (λ d. d.operation_id) old
      → IsKeyedBy (λ d. d.operation_id) (map (command_entry date_parse old) cs)
  command_entries-IsKeyedBy old [] h = tt
  command_entries-IsKeyedBy old (c ∷ cs) h =
      (sym (latest_command-id c old h), command_entries-IsKeyedBy old cs h)

  update_command-IsKeyedBy :
      (c : Command) (s : FactoryStore)
      → IsKeyedBy (λ d. d.operation_id) s.commands
      → IsKeyedBy (λ d. d.operation_id) (update_command date_parse c s).commands
  unfolding update_command
  update_command-IsKeyedBy c s h =
      let kept = latest_command date_parse (lookup c.operation_id s.commands) c in
      subst (λ k. IsKeyedBy (λ (x : Command). x.operation_id) (insert k kept s.commands))
        (latest_command-id c s.commands h)
        (insert-IsKeyedBy (λ (x : Command). x.operation_id) kept s.commands h)

  add_alert-HasNoRepeats :
      (a : FactoryAlert) (s : FactoryStore)
      → HasNoRepeats s.acknowledged_alert_ids
      → HasNoRepeats (add_alert a s).acknowledged_alert_ids
  unfolding add_alert
  add_alert-HasNoRepeats a s h = elim (Bool-cases (is_active a.status)) [
    | inl e ↦ rw e h
    | inr e ↦ rw e (filter-HasNoRepeats (λ id. not (id == a.id)) s.acknowledged_alert_ids h)
  ]

  set_commands-IsKeyedBy :
      (cs : List Command) (s : FactoryStore)
      → IsKeyedBy (λ d. d.operation_id) s.commands
      → IsKeyedBy (λ d. d.operation_id) (set_commands date_parse cs s).commands
  unfolding set_commands from_entries
  set_commands-IsKeyedBy cs s h =
      merge-IsKeyedBy (λ (x : Command). x.operation_id) s.commands _ h
        (merge-IsKeyedBy (λ (x : Command). x.operation_id) [] _ tt
          (command_entries-IsKeyedBy s.commands cs h))

  step-IsConsistent :
      (a : Action) (s : FactoryStore) → IsConsistent s → IsConsistent (step date_parse a s)
  unfolding step set_robots set_tasks update_task clear_metrics_history set_alerts set_scenarios
      update_scenario bump_factory_revision mark_data_updated select_robot set_connection_status
      set_paused toggle_paused reset update_command add_alert set_commands
  step-IsConsistent (sets_robots robots) s h = record {
    robots = from_entries-IsKeyedBy (λ (x : Robot). x.id) robots;
    tasks = h.tasks;
    commands = h.commands;
    history = h.history;
    acknowledged = h.acknowledged;
  }
  step-IsConsistent (sets_tasks tasks) s h = record {
    robots = h.robots;
    tasks = from_entries-IsKeyedBy (λ (x : Task). x.task_id) tasks;
    commands = h.commands;
    history = h.history;
    acknowledged = h.acknowledged;
  }
  step-IsConsistent (updates_task t) s h = record {
    robots = h.robots;
    tasks = insert-IsKeyedBy (λ (x : Task). x.task_id) t s.tasks h.tasks;
    commands = h.commands;
    history = h.history;
    acknowledged = h.acknowledged;
  }
  step-IsConsistent clears_history s h = record {
    robots = h.robots;
    tasks = h.tasks;
    commands = h.commands;
    history = (tt, omega arith);
    acknowledged = h.acknowledged;
  }
  step-IsConsistent (sets_alerts alerts) s h = record {
    robots = h.robots;
    tasks = h.tasks;
    commands = h.commands;
    history = h.history;
    acknowledged =
        filter-HasNoRepeats (still_active alerts) s.acknowledged_alert_ids h.acknowledged;
  }
  step-IsConsistent (adds_alert a) s h = record {
    robots = h.robots;
    tasks = h.tasks;
    commands = h.commands;
    history = h.history;
    acknowledged = add_alert-HasNoRepeats a s h.acknowledged;
  }
  step-IsConsistent (sets_commands cs) s h = record {
    robots = h.robots;
    tasks = h.tasks;
    commands = set_commands-IsKeyedBy cs s h.commands;
    history = h.history;
    acknowledged = h.acknowledged;
  }
  step-IsConsistent (updates_command c) s h = record {
    robots = h.robots;
    tasks = h.tasks;
    commands = update_command-IsKeyedBy c s h.commands;
    history = h.history;
    acknowledged = h.acknowledged;
  }
  step-IsConsistent (updates_robot t) s h = update_robot_telemetry-IsConsistent t s h
  step-IsConsistent (sets_metrics now m) s h = set_metrics-IsConsistent now m s h
  step-IsConsistent (acknowledges id) s h = acknowledge_alert-IsConsistent id s h
  step-IsConsistent resets s h = record {
    robots = tt;
    tasks = tt;
    commands = tt;
    history = (tt, omega arith);
    acknowledged = tt;
  }
  step-IsConsistent _ s h = record {
    robots = h.robots;
    tasks = h.tasks;
    commands = h.commands;
    history = h.history;
    acknowledged = h.acknowledged;
  }

  -- Whatever actions are taken, in whatever order, keep the store consistent if it was: robots,
  -- tasks and commands are stored under their own identifiers, the samples of the metrics history
  -- are an interval apart and within the limit, and no alert is acknowledged twice.
  pub run-IsConsistent :
      (actions : List Action) (s : FactoryStore)
      → IsConsistent s
      → IsConsistent (run date_parse actions s)
  unfolding run
  run-IsConsistent [] s h = h
  run-IsConsistent (a ∷ actions) s h =
      run-IsConsistent actions (step date_parse a s) (step-IsConsistent a s h)
