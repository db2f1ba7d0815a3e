-- ===== src/ScenarioWorkspace/Duties/Runs.antt =====
-- Every input of app/scenarios/page.tsx, and every run of them, against what justifies its requests.
use ev_factory_twin.Prelude.{ℕ, refl, String, Option, if-elim}
use ev_factory_twin.Schema.Fleet.{Number}
use ev_factory_twin.Schema.Request.{ScenarioRunRequest, RequestField}
use ev_factory_twin.ScenarioWorkspace.{
  ScenarioWorkspace, gets_page, gets_scenarios, gets_commands, gets_layout, toasts_success,
  toasts_error, toasts_info,
}
use ev_factory_twin.ScenarioWorkspace.Loading.{
  load_page, page_loaded, page_fails, scenarios_arrive, commands_arrive, commands_fail,
  select_layout, select_layout_version, linked_layout,
}
use ev_factory_twin.ScenarioWorkspace.Review.{
  request_apply_scenario, apply_scenario, start_revision, review_arrives, action_fails,
  select_scenario, apply_arrives, run_arrives, approve_scenario, submit_scenario,
}
use ev_factory_twin.ScenarioWorkspace.Inputs.{
  Input, mounts, clicks_refresh, gets_page as gets_page_answer, loses_page, gets_scenarios_list,
  gets_commands_list, loses_commands, clicks_queue, clicks_scenario, picks_layout, picks_version,
  gets_layout_answer, loses_layout, submits_form, gets_run, clicks_submit, clicks_approve,
  clicks_request, clicks_revise, gets_review, clicks_apply, cancels_apply, confirms_apply,
  gets_applied, loses_action, gets_live_command, is_idle, handle, step, send_note, page_loading,
  offers_submit, offers_review, offers_revision, offers_apply,
}
use ev_factory_twin.ScenarioWorkspace.Duties.{AddsJustified, Adds-nothing, Adds-one, Adds-perform}
use ev_factory_twin.ScenarioWorkspace.Duties.Steps.{
  press-Adds, submit-Adds, approve-Adds, send_note-Adds, open_confirmation-Adds,
  apply_confirmed-Adds, prepare-Adds, run_scenario-Adds, ask_layout-Adds, layout_arrives-Adds,
  layout_fails-Adds, ask_version-Adds,
}

load_page-Adds : (s : ScenarioWorkspace) → AddsJustified s (load_page s)
unfolding load_page
load_page-Adds s =
    Adds-perform gets_commands s _ tt (Adds-perform gets_scenarios s _ tt (Adds-one gets_page s tt))

module _ (date_parse : String → Option ℕ)
    (issue_message : RequestField → ScenarioRunRequest → String) (fixed : Number → String)
    (number_text : ℕ → String) where
  handle-Adds :
      (i : Input) (s : ScenarioWorkspace)
      → AddsJustified s (handle date_parse issue_message fixed number_text i s)
  unfolding handle page_loaded page_fails scenarios_arrive commands_arrive commands_fail
      select_layout select_layout_version review_arrives action_fails select_scenario apply_arrives
      run_arrives request_apply_scenario apply_scenario start_revision
  handle-Adds mounts s = load_page-Adds s
  handle-Adds clicks_refresh s =
      if-elim (AddsJustified s) (page_loading s.load_state) (λ _. Adds-nothing s)
        (λ _. load_page-Adds s)
  handle-Adds (gets_page_answer query baseline layouts scenarios) s =
      ask_layout-Adds (linked_layout query.layout layouts) query.version layouts s _ refl
  handle-Adds (loses_page message) s = Adds-nothing s
  handle-Adds (gets_scenarios_list loaded) s = Adds-nothing s
  handle-Adds (gets_commands_list loaded) s = Adds-nothing s
  handle-Adds (loses_commands message) s = Adds-nothing s
  handle-Adds (clicks_queue key) s = Adds-nothing s
  handle-Adds (clicks_scenario scenario) s = Adds-nothing s
  handle-Adds (picks_layout id) s = Adds-one (gets_layout _ id) s tt
  handle-Adds (picks_version version) s = ask_version-Adds s.selected_layout version s
  handle-Adds (gets_layout_answer purpose v) s = layout_arrives-Adds purpose v s
  handle-Adds (loses_layout purpose message) s = layout_fails-Adds purpose message s
  handle-Adds (submits_form request) s =
      if-elim (AddsJustified s) (is_idle s.active_action)
        (λ idle. run_scenario-Adds issue_message request s idle) (λ _. Adds-nothing s)
  handle-Adds (gets_run created) s = Adds-one (toasts_success _) s tt
  handle-Adds clicks_submit s = press-Adds offers_submit submit_scenario s (submit-Adds s)
  handle-Adds clicks_approve s = press-Adds offers_review approve_scenario s (approve-Adds s)
  handle-Adds (clicks_request text) s =
      press-Adds offers_review (send_note text) s (send_note-Adds text s)
  handle-Adds clicks_revise s =
      press-Adds offers_revision start_revision s (λ _. prepare-Adds s.candidate s)
  handle-Adds (gets_review text updated) s = Adds-one (toasts_success text) s tt
  handle-Adds clicks_apply s =
      press-Adds offers_apply request_apply_scenario s (λ _. open_confirmation-Adds s.candidate s)
  handle-Adds cancels_apply s = Adds-nothing s
  handle-Adds confirms_apply s =
      if-elim (AddsJustified s) s.apply_confirmation_open
        (λ opened. apply_confirmed-Adds s.candidate s refl opened) (λ _. Adds-nothing s)
  handle-Adds (gets_applied name command) s = Adds-one (toasts_info _) s tt
  handle-Adds (loses_action message) s = Adds-one (toasts_error message) s tt
  handle-Adds (gets_live_command command) s = Adds-nothing s

  -- Whatever happens to the page, what it newly asks for is justified by its state: a run is asked for by
  -- a Designer and with values that the schema accepts, a submission by a Designer and for a simulated
  -- candidate, an approval or a revision by a Monitor and for a submitted candidate, a revision with a
  -- note that is not blank, each of these while no action runs, and an application by a Monitor, for an
  -- approved candidate and after the confirmation.
  pub step_justified :
      (i : Input) (s : ScenarioWorkspace)
      → AddsJustified s (step date_parse issue_message fixed number_text i s)
  unfolding step
  step_justified i s =
      if-elim (AddsJustified s) _ (λ _. Adds-perform gets_scenarios s _ tt (handle-Adds i s))
        (λ _. handle-Adds i s)
