-- ===== src/ScenarioWorkspace/Tests.antt =====
-- Tests of the model of app/scenarios/page.tsx.
use ev_factory_twin.Prelude.{ℕ, ◌≡◌, refl, String, true, none, some, List, [], ◌∷◌}
use ev_factory_twin.Prelude.Int.{pos, leb_ℤ}
use ev_factory_twin.Prelude.Text.{trim}
use ev_factory_twin.Prelude.Sort.{sort}
use ev_factory_twin.Permissions.{can}
use ev_factory_twin.Store.{update_scenario}
use ev_factory_twin.Workflow.{newest_first, latest_command_for_scenario}
use ev_factory_twin.ScenarioWorkspace.Review.{run_scenario, run_arrives, submit_scenario}
use ev_factory_twin.Schema.Fleet.{Number, monitor}
use ev_factory_twin.Schema.Planning.{simulated, submitted, approved}
use ev_factory_twin.Schema.Request.{
  ScenarioRunRequest, RequestField, name_field, num_robots_field, request_issues, issue,
}
use ev_factory_twin.Schema.Content.{
  is_valid_content, is_valid_station, is_valid_route, is_valid_zone, is_valid_congestion_zone,
  is_valid_config, is_identifier, is_station_reference,
}
use ev_factory_twin.Schema.Layout.{LayoutVersion, LayoutRoute, delivery}
use ev_factory_twin.Layout.{point}
use ev_factory_twin.LayoutEditor.{initial_content}
use ev_factory_twin.ScenarioWorkspace.Form.{scenario_defaults}
use ev_factory_twin.ScenarioWorkspace.Defaults.{defaults_issues}
use ev_factory_twin.Samples.{date_of, live_store, scenario, user}
use ev_factory_twin.ScenarioWorkspace.{
  ScenarioWorkspace, runs, submits, toasts_success, initial, newest_useful_scenario,
}
use ev_factory_twin.ScenarioWorkspace.Inputs.{
  Input, submits_form, gets_run, clicks_submit, clicks_approve, confirms_apply, offer, step, run,
}
use ev_factory_twin.ScenarioWorkspace.Duties.{AddsJustified}
use ev_factory_twin.ScenarioWorkspace.Duties.Runs.{step_justified}

abbrev check_value : RequestField → ScenarioRunRequest → String
check_value field request = "Check this value."

abbrev one_place : Number → String
one_place n = "1.0"

abbrev some_number : ℕ → String
some_number n = "1"

abbrev request : ScenarioRunRequest
request = record {
  name = " Candidate ";
  layout_id = "L-1";
  layout_version = pos 2000;
  route_id = "R-1";
  num_robots = pos 3000;
  num_tasks = pos 10000;
  task_arrival_interval = pos 1000;
  travel_time = pos 1000;
  loading_time = pos 1000;
  simulation_time = pos 60000;
  robot_speed_mps = pos 1000;
  charger_count = pos 1000;
  revision_of = none;
}

-- A name of blanks and half a robot.
request_issues_blank :
    request_issues (record request { name = "  "; num_robots = pos 500 })
    ≡ num_robots_field ∷ name_field ∷ []
unfolding request_issues trim
request_issues_blank = refl

abbrev first : ScenarioWorkspace
first = initial (user "U-1") live_store

-- A Designer runs a candidate, and submits it when it has come.
abbrev session : List Input
session =
    submits_form request
    ∷ gets_run (scenario "S-1" simulated "1")
    ∷ clicks_submit
    ∷ clicks_approve
    ∷ []

session-effects :
    (run date_of check_value one_place some_number session first).effects
    ≡ runs (record request { name = "Candidate" })
      ∷ toasts_success "Scenario \"S-1\" simulated · 1.0 tasks/h · 1.0s avg cycle · 1 starvation"
      ∷ submits "S-1"
      ∷ []
unfolding run step latest_command_for_scenario run_scenario can trim run_arrives sort
    update_scenario offer submit_scenario
session-effects = refl

-- Of a list, the submitted scenario is shown, though a simulated one is newer.
newest_useful_scenario_submitted :
    newest_useful_scenario date_of (
      scenario "S-1" approved "1"
      ∷ scenario "S-2" submitted "12"
      ∷ scenario "S-3" simulated "123"
      ∷ [])
    ≡ some (scenario "S-2" submitted "12")
unfolding newest_useful_scenario newest_first sort
newest_useful_scenario_submitted = refl

-- A Monitor looks at an approved scenario and has opened the confirmation.
abbrev confirming : ScenarioWorkspace
confirming = record (initial (record (user "U-2") { role = monitor }) live_store) {
  candidate = some (scenario "S-1" approved "1");
  apply_confirmation_open = true;
}

step_justified_example :
    AddsJustified confirming
      (step date_of check_value one_place some_number confirms_apply confirming)
step_justified_example =
    step_justified date_of check_value one_place some_number confirms_apply confirming

-- A layout of twelve robots, more than a benchmark takes.
abbrev large : LayoutVersion
large = record {
  content = record initial_content {
    config = record initial_content.config { robot_count = pos 12000 };
  };
  layout_id = "L-1";
  name = "Large";
  version = 2;
  created_by = "U-1";
  created_at = "1";
  archived_at = none;
}

abbrev large_route : LayoutRoute
large_route = record {
  id = "BATTERY_DELIVERY";
  kind = delivery;
  start_station_id = "BATTERY_BUFFER";
  end_station_id = "MARRIAGE_STATION";
  waypoints = point 32 29 ∷ point 32 20 ∷ point 40 20 ∷ point 52 20 ∷ point 52 6 ∷ [];
}

defaults_issues_example :
    request_issues (scenario_defaults (some large) none)
    ≡ issue num_robots_field (leb_ℤ (pos 12000) (pos 10000))
unfolding is_valid_content is_valid_station is_valid_route is_valid_zone is_valid_congestion_zone
    is_valid_config is_identifier is_station_reference
defaults_issues_example = defaults_issues large large_route refl refl refl refl
