-- ===== src/ScenarioWorkspace/Review.antt =====
-- The actions of app/scenarios/page.tsx: running a candidate, its review, and its application. A handler
-- is cut at its `await`. `issue_message` is the schema's text for a field, `fixed` is `toFixed(1)`, and
-- `number_text` prints a number in a template.
use ev_factory_twin.Prelude.{
  ℕ, String, Bool, true, false, not, ◌||◌, Option, none, some, List, [], ◌∷◌, map, if◌then◌else◌,
}
use ev_factory_twin.Schema.Fleet.{Number}
use ev_factory_twin.Schema.Planning.{Scenario, ScenarioStatus, Command}
use ev_factory_twin.Schema.Request.{
  ScenarioRunRequest, RequestField, request_issues, parsed_request,
}
use ev_factory_twin.Store.{update_scenario, update_command}
use ev_factory_twin.Permissions.{Permission, can, scenarios_run, scenarios_review, scenarios_apply}
use ev_factory_twin.Workflow.{is_by, is_submitted, is_approved}
use ev_factory_twin.ScenarioWorkspace.{
  ScenarioWorkspace, ScenarioAction, runs_scenario, submits_scenario, approves_scenario,
  requests_changes, applies_scenario, for_revision, Effect, gets_layout_version, runs, submits,
  approves, requests_revision, applies, toasts_success, toasts_error, toasts_info, perform,
  complain, is_simulated, is_sent_back,
}
use Prim.Native.String.{◌++◌ as ◌+++◌}

abbrev pub may : Permission → ScenarioWorkspace → Bool
may permission s = can (some s.user.role) permission

-- The page shows that an action runs, and forgets the last error.
abbrev pub begin : ScenarioAction → ScenarioWorkspace → ScenarioWorkspace
begin action s = record s { action_error = none; active_action = some action }

abbrev pub finish : ScenarioWorkspace → ScenarioWorkspace
finish s = record s { active_action = none }

-- An action that asks the API about the candidate, if it has the status and the user the permission.
abbrev pub ask :
    (ScenarioStatus → Bool)
    → Bool
    → String
    → ScenarioAction
    → (String → Effect)
    → Option Scenario
    → ScenarioWorkspace
    → ScenarioWorkspace
ask has_status permitted refusal action request none s = complain refusal s
ask has_status permitted refusal action request (some c) s =
    if not (has_status c.status) || not permitted
    then complain refusal s
    else perform (request c.id) (begin action s)

unfoldable pub approve_scenario : ScenarioWorkspace → ScenarioWorkspace
approve_scenario s =
    ask is_submitted (may scenarios_review s) "Only a Monitor can review a submitted scenario."
      approves_scenario approves s.candidate s

unfoldable pub request_revision : String → ScenarioWorkspace → ScenarioWorkspace
request_revision note s =
    ask is_submitted (may scenarios_review s)
      "Only a Monitor can request changes to a submitted scenario." requests_changes
      (λ id. requests_revision id note) s.candidate s

unfoldable pub submit_scenario : ScenarioWorkspace → ScenarioWorkspace
submit_scenario s =
    ask is_simulated (may scenarios_run s) "Only a Designer can submit a simulated scenario."
      submits_scenario submits s.candidate s

-- `Apply to factory` opens the confirmation.
abbrev pub open_confirmation : Option Scenario → ScenarioWorkspace → ScenarioWorkspace
open_confirmation none s = complain "Only a Monitor can apply an approved scenario." s
open_confirmation (some c) s =
    if not (is_approved c.status) || not (may scenarios_apply s)
    then complain "Only a Monitor can apply an approved scenario." s
    else record s { apply_confirmation_open = true }

unfoldable pub request_apply_scenario : ScenarioWorkspace → ScenarioWorkspace
request_apply_scenario s = open_confirmation s.candidate s

abbrev pub apply_confirmed : Option Scenario → ScenarioWorkspace → ScenarioWorkspace
apply_confirmed none s = s
apply_confirmed (some c) s =
    if not (is_approved c.status) || not (may scenarios_apply s)
    then s
    else perform (applies c.id)
        (begin applies_scenario (record s { apply_confirmation_open = false }))

-- The confirmation's own button.
unfoldable pub apply_scenario : ScenarioWorkspace → ScenarioWorkspace
apply_scenario s = apply_confirmed s.candidate s

abbrev pub prepare : Option Scenario → ScenarioWorkspace → ScenarioWorkspace
prepare none s = complain "Only the original Designer can revise this scenario." s
prepare (some c) s =
    if not (is_sent_back c.status) || (not (is_by s.user.id c) || not (may scenarios_run s))
    then complain "Only the original Designer can revise this scenario." s
    else perform (gets_layout_version (for_revision c) c.config.layout_id c.config.layout_version)
        (record s { action_error = none })

unfoldable pub start_revision : ScenarioWorkspace → ScenarioWorkspace
start_revision s = prepare s.candidate s

-- The answers of `approve`, `request-revision` and `submit`: each has its own toast.
unfoldable pub review_arrives : String → Scenario → ScenarioWorkspace → ScenarioWorkspace
review_arrives text updated s = finish (
    perform (toasts_success text)
      (record s { candidate = some updated; store = update_scenario updated s.store }))

unfoldable pub action_fails : String → ScenarioWorkspace → ScenarioWorkspace
action_fails message s = finish (perform (toasts_error message) (complain message s))

-- A click on an entry of the history.
unfoldable pub select_scenario : Scenario → ScenarioWorkspace → ScenarioWorkspace
select_scenario scenario s = record s { candidate = some scenario; revision_source = none }

unfoldable pub apply_arrives :
    (String → Option ℕ) → String → Command → ScenarioWorkspace → ScenarioWorkspace
apply_arrives date_parse name command s = finish (
    perform (toasts_info ("Apply command queued for \"" +++ (name +++ "\"")))
      (record s { store = update_command date_parse command s.store }))

module _ (issue_message : RequestField → ScenarioRunRequest → String) where
  -- Of a field with several issues the first one is told.
  abbrev pub send_run :
      List RequestField → ScenarioRunRequest → ScenarioWorkspace → ScenarioWorkspace
  send_run [] request s =
      perform (runs (parsed_request request)) (begin runs_scenario (record s { field_errors = [] }))
  send_run (f ∷ fs) request s = record s {
    field_errors = map (λ g. (g, issue_message g request)) (f ∷ fs);
  }

  unfoldable pub run_scenario : ScenarioRunRequest → ScenarioWorkspace → ScenarioWorkspace
  unfolding request_issues
  run_scenario request s =
      if not (may scenarios_run s)
      then complain "Your role cannot run scenarios." s
      else send_run (request_issues request) request s

module _ (fixed : Number → String) (number_text : ℕ → String) where
  abbrev pub run_toast : Scenario → String
  run_toast c =
      "Scenario \""
      +++ (c.name
          +++ ("\" simulated · "
              +++ (fixed c.metrics.throughput_per_hour
                  +++ (" tasks/h · "
                      +++ (fixed c.metrics.average_cycle_time
                          +++ ("s avg cycle · "
                              +++ (number_text c.metrics.starvation_events +++ " starvation")))))))

  unfoldable pub run_arrives : Scenario → ScenarioWorkspace → ScenarioWorkspace
  run_arrives created s = finish (
      perform (toasts_success (run_toast created)) (record s {
        candidate = some created;
        revision_source = none;
        store = update_scenario created s.store;
      }))
