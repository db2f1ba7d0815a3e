-- ===== src/ScenarioWorkspace/Inputs.antt =====
-- What happens to the page app/scenarios/page.tsx: what the user does, as far as the page and
-- components/scenarios/scenario-actions.tsx offer it, the answers of the API, and live commands.
use ev_factory_twin.Prelude.{
  ℕ, String, Bool, true, false, not, ◌&&◌, Option, none, some, List, [], ◌∷◌, if◌then◌else◌,
}
use ev_factory_twin.Prelude.Text.{trim, is_empty}
use ev_factory_twin.Schema.Fleet.{Number, AppRole, designer, monitor}
use ev_factory_twin.Schema.Planning.{
  Scenario, ScenarioStatus, simulated, submitted, approved, revision_requested, Command,
}
use ev_factory_twin.Schema.Layout.{LayoutSummary, LayoutVersion}
use ev_factory_twin.Schema.Request.{ScenarioRunRequest, RequestField}
use ev_factory_twin.Store.{update_command}
use ev_factory_twin.Workflow.{QueueKey, is_by}
use ev_factory_twin.ScenarioWorkspace.{
  ScenarioWorkspace, LoadState, is_loading, ScenarioAction, LayoutUse, perform, gets_scenarios,
}
use ev_factory_twin.ScenarioWorkspace.Loading.{
  PageQuery, load_page, page_loaded, page_fails, scenarios_arrive, commands_arrive, commands_fail,
  select_layout, select_layout_version, layout_arrives, layout_fails, apply_completed,
}
use ev_factory_twin.ScenarioWorkspace.Review.{
  approve_scenario, request_revision, submit_scenario, request_apply_scenario, apply_scenario,
  start_revision, review_arrives, action_fails, select_scenario, apply_arrives, run_scenario,
  run_arrives,
}

-- The buttons of `ScenarioActions`.
pub data Offer : Type 0 where
  offers_submit offers_revision offers_review offers_apply offers_nothing : Offer

unfoldable pub offer : AppRole → ScenarioStatus → Bool → Offer
offer designer simulated can_start = offers_submit
offer designer revision_requested can_start = if can_start then offers_revision else offers_nothing
offer designer _ can_start = offers_nothing
offer monitor submitted can_start = offers_review
offer monitor approved can_start = offers_apply
offer monitor _ can_start = offers_nothing

abbrev pub same_offer : Offer → Offer → Bool
same_offer offers_submit offers_submit = true
same_offer offers_revision offers_revision = true
same_offer offers_review offers_review = true
same_offer offers_apply offers_apply = true
same_offer _ _ = false

abbrev pub offered_for : Option Scenario → ScenarioWorkspace → Offer
offered_for none s = offers_nothing
offered_for (some c) s = offer s.user.role c.status (is_by s.user.id c)

abbrev pub is_idle : Option ScenarioAction → Bool
is_idle none = true
is_idle (some action) = false

-- A button is there if it is offered, and is disabled while an action runs.
abbrev pub press :
    Offer → (ScenarioWorkspace → ScenarioWorkspace) → ScenarioWorkspace → ScenarioWorkspace
press o f s = if same_offer (offered_for s.candidate s) o && is_idle s.active_action then f s else s

abbrev pub page_loading : LoadState → Bool
page_loading is_loading = true
page_loading _ = false

pub data Input : Type 0 where
  mounts : Input
  clicks_refresh : Input
  gets_page : PageQuery → Scenario → List LayoutSummary → List Scenario → Input
  loses_page : String → Input
  gets_scenarios_list : List Scenario → Input
  gets_commands_list : List Command → Input
  loses_commands : String → Input
  clicks_queue : QueueKey → Input
  clicks_scenario : Scenario → Input
  picks_layout : String → Input
  picks_version : Option ℕ → Input
  gets_layout_answer : LayoutUse → LayoutVersion → Input
  loses_layout : LayoutUse → String → Input
  submits_form : ScenarioRunRequest → Input
  gets_run : Scenario → Input
  clicks_submit : Input
  clicks_approve : Input
  -- the text of the note's field
  clicks_request : String → Input
  clicks_revise : Input
  gets_review : String → Scenario → Input
  clicks_apply : Input
  cancels_apply : Input
  confirms_apply : Input
  gets_applied : String → Command → Input
  loses_action : String → Input
  -- the live stream stores a command
  gets_live_command : Command → Input

abbrev pub set_queue : QueueKey → ScenarioWorkspace → ScenarioWorkspace
set_queue key s = record s { queue = key }

abbrev pub close_confirmation : ScenarioWorkspace → ScenarioWorkspace
close_confirmation s = record s { apply_confirmation_open = false }

-- `requestRevision` of `ScenarioActions`.
abbrev pub send_note : String → ScenarioWorkspace → ScenarioWorkspace
send_note text s = if is_empty (trim text) then s else request_revision (trim text) s

module _ (date_parse : String → Option ℕ)
    (issue_message : RequestField → ScenarioRunRequest → String) (fixed : Number → String)
    (number_text : ℕ → String) where
  unfoldable pub handle : Input → ScenarioWorkspace → ScenarioWorkspace
  handle mounts s = load_page s
  handle clicks_refresh s = if page_loading s.load_state then s else load_page s
  handle (gets_page query baseline layouts scenarios) s =
      page_loaded query baseline layouts scenarios s
  handle (loses_page message) s = page_fails message s
  handle (gets_scenarios_list loaded) s = scenarios_arrive date_parse loaded s
  handle (gets_commands_list loaded) s = commands_arrive date_parse loaded s
  handle (loses_commands message) s = commands_fail message s
  handle (clicks_queue key) s = set_queue key s
  handle (clicks_scenario scenario) s = select_scenario scenario s
  handle (picks_layout id) s = select_layout id s
  handle (picks_version version) s = select_layout_version version s
  handle (gets_layout_answer purpose v) s = layout_arrives purpose v s
  handle (loses_layout purpose message) s = layout_fails purpose message s
  handle (submits_form request) s =
      if is_idle s.active_action then run_scenario issue_message request s else s
  handle (gets_run created) s = run_arrives fixed number_text created s
  handle clicks_submit s = press offers_submit submit_scenario s
  handle clicks_approve s = press offers_review approve_scenario s
  handle (clicks_request text) s = press offers_review (send_note text) s
  handle clicks_revise s = press offers_revision start_revision s
  handle (gets_review text updated) s = review_arrives text updated s
  handle clicks_apply s = press offers_apply request_apply_scenario s
  handle cancels_apply s = close_confirmation s
  handle confirms_apply s = if s.apply_confirmation_open then apply_scenario s else s
  handle (gets_applied name command) s = apply_arrives date_parse name command s
  handle (loses_action message) s = action_fails message s
  handle (gets_live_command command) s = record s {
    store = update_command date_parse command s.store;
  }

  -- The second effect of the page: the scenarios are loaded again once the candidate's command turns
  -- completed.
  abbrev pub watch : Bool → ScenarioWorkspace → ScenarioWorkspace
  watch before s =
      if not before && apply_completed date_parse s then perform gets_scenarios s else s

  unfoldable pub step : Input → ScenarioWorkspace → ScenarioWorkspace
  unfolding handle
  step i s = watch (apply_completed date_parse s) (handle i s)

  unfoldable pub run : List Input → ScenarioWorkspace → ScenarioWorkspace
  run [] s = s
  run (i ∷ inputs) s = run inputs (step i s)
