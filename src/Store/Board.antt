-- ===== src/Store/Board.antt =====
-- What factory-store.ts promises about commands, without its objects: for every operation one command
-- or none, and each report of an operation weighed against what is known of it.
use mathlib.Core.Path.{fun_ext}
use mathlib.Core.Option
use ev_factory_twin.Prelude.{
  ℕ, String, ◌≡◌, refl, ap, ◌∙◌, inl, inr, Option, none, some, List, [], ◌∷◌, map, ◌==◌, eq_iff,
  Bool-cases, Option-cases, Bool, false, ltb, arith, if◌then◌else◌, if-elim,
}
use ev_factory_twin.Prelude.Dict.{Dict, lookup, last_entry}
use ev_factory_twin.Prelude.Dict.Keys.{lookup-merge-from_entries}
use ev_factory_twin.Schema.Fleet.{RobotTelemetry}
use ev_factory_twin.Schema.Planning.{Command}
use ev_factory_twin.Store.{
  FactoryStore, latest_command, command_entry, set_commands, update_command, update_robot_telemetry,
  set_metrics, acknowledge_alert, set_robots, set_tasks, update_task, clear_metrics_history,
  set_alerts, add_alert, set_scenarios, update_scenario, bump_factory_revision, mark_data_updated,
  select_robot, set_connection_status, set_paused, toggle_paused, reset,
}
use ev_factory_twin.Store.Commands.{lookup-update_command}
use ev_factory_twin.Store.Actions.{
  Action, sets_commands, updates_command, resets, updates_robot, sets_metrics, acknowledges, step,
  run,
}

-- The command of an operation.
abbrev pub Board : Type 0
Board = String → Option Command

-- The board that a store shows.
abbrev pub board : FactoryStore → Board
board s operation = lookup operation s.commands

-- The last command of a list that is about the operation.
abbrev pub reported : String → List Command → Option Command
reported operation [] = none
reported operation (c ∷ cs) = elim (reported operation cs) [
  | some d ↦ some d
  | none ↦ if c.operation_id == operation then some c else none
]

-- The first of two dates is after the second.
abbrev pub is_after : Option ℕ → Option ℕ → Bool
is_after (some a) (some b) = ltb b a
is_after _ _ = false

module _ (date_parse : String → Option ℕ) where
  -- What is known of an operation after a report of it, if there is one: the known command stays only if
  -- its date is after that of the report, and both can be read.
  abbrev pub weigh : Option Command → Option Command → Option Command
  weigh known none = known
  weigh none (some c) = some c
  weigh (some k) (some c) =
      if is_after (date_parse k.updated_at) (date_parse c.updated_at) then some k else some c

  weigh-latest_command :
      (known : Option Command) (c : Command)
      → some (latest_command date_parse known c) ≡ weigh known (some c)
  weigh-latest_command none c = refl
  weigh-latest_command (some k) c = ground arith

  -- What an action means for the board.
  abbrev pub board_step : Action → Board → Board
  board_step (sets_commands cs) b operation = weigh (b operation) (reported operation cs)
  board_step (updates_command c) b operation = weigh (b operation) (reported operation (c ∷ []))
  board_step resets b operation = none
  board_step _ b operation = b operation

  abbrev pub board_run : List Action → Board → Board
  board_run [] b = b
  board_run (a ∷ actions) b = board_run actions (board_step a b)

  abbrev or_kept : Option Command → Option Command → Option Command
  or_kept kept none = kept
  or_kept kept (some c) = some c

  -- Entries made from a list agree with the last report in it.
  last_entry-reported :
      (k : String) (old : Dict Command) (d : Option Command) (cs : List Command)
      → last_entry k d (map (command_entry date_parse old) cs)
        ≡ or_kept d (Option.map (latest_command date_parse (lookup k old)) (reported k cs))
  last_entry-reported k old d [] = refl
  last_entry-reported k old d (c ∷ cs) =
      last_entry-reported k old
        (if c.operation_id == k then some (command_entry date_parse old c).1 else d) cs
      ∙ elim (Option-cases (reported k cs)) [
        | inl e ↦ elim (Bool-cases (c.operation_id == k)) [
          | inl same ↦
              rw (e, same)
                (ap (λ j. some (latest_command date_parse (lookup j old) c))
                  ((eq_iff c.operation_id k).0 same))
          | inr differ ↦ rw (e, differ)
        ]
        | inr (d, e) ↦ rw e
      ]

  weigh-kept :
      (o r : Option Command) → or_kept o (Option.map (latest_command date_parse o) r) ≡ weigh o r
  weigh-kept o none = refl
  weigh-kept o (some d) = weigh-latest_command o d

  board-set_commands :
      (k : String) (cs : List Command) (s : FactoryStore)
      → board (set_commands date_parse cs s) k ≡ weigh (board s k) (reported k cs)
  unfolding set_commands
  board-set_commands k cs s =
      lookup-merge-from_entries k s.commands (map (command_entry date_parse s.commands) cs)
      ∙ (last_entry-reported k s.commands (board s k) cs ∙ weigh-kept (board s k) (reported k cs))

  board-update_command :
      (k : String) (c : Command) (s : FactoryStore)
      → board (update_command date_parse c s) k ≡ weigh (board s k) (reported k (c ∷ []))
  board-update_command k c s =
      lookup-update_command date_parse k c s ∙ elim (Bool-cases (c.operation_id == k)) [
        | inl e ↦ rw e (weigh-latest_command (lookup k s.commands) c)
        | inr e ↦ rw e
      ]

  abbrev Shows : Board → FactoryStore → Type 0
  Shows b s = board s ≡ b

  board-update_robot_telemetry :
      (t : RobotTelemetry) (s : FactoryStore) → board (update_robot_telemetry t s) ≡ board s
  unfolding update_robot_telemetry
  board-update_robot_telemetry t s = elim (Option-cases (lookup t.robot_id s.robots)) [
    | inl e ↦ rw (e, update_robot_telemetry) refl
    | inr (r, e) ↦ rw (e, update_robot_telemetry) refl
  ]

  board-step :
      (a : Action) (s : FactoryStore) → board (step date_parse a s) ≡ board_step a (board s)
  unfolding step set_robots set_tasks update_task clear_metrics_history set_alerts add_alert
      set_scenarios update_scenario bump_factory_revision mark_data_updated select_robot
      set_connection_status set_paused toggle_paused reset set_metrics acknowledge_alert lookup
  board-step (sets_commands cs) s = fun_ext (λ k. board-set_commands k cs s)
  board-step (updates_command c) s = fun_ext (λ k. board-update_command k c s)
  board-step resets s = refl
  board-step (updates_robot t) s = board-update_robot_telemetry t s
  board-step (sets_metrics now m) s = if-elim (Shows (board s)) _ (λ _. refl) (λ _. refl)
  board-step (acknowledges id) s = if-elim (Shows (board s)) _ (λ _. refl) (λ _. refl)
  board-step _ s = refl

  -- Whatever actions the store takes, the commands it shows are those of the board: a report of an
  -- operation replaces what is known of it unless the known one has a later date, where of a list the last
  -- report about the operation counts, a date that cannot be read is later than none and none is later than
  -- it, no other action touches a command, and only a reset forgets.
  pub run_refines :
      (actions : List Action) (s : FactoryStore)
      → board (run date_parse actions s) ≡ board_run actions (board s)
  unfolding run
  run_refines [] s = refl
  run_refines (a ∷ actions) s =
      run_refines actions (step date_parse a s) ∙ ap (board_run actions) (board-step a s)
